-- ===== src/Timeline/Reconcile/Prune.antt =====
-- What `prune_events` deletes, and what it cannot change.
use lv_dcp.Base.{
  ℕ, ◌+◌, String, ◌≡◌, refl, ap, Bool, true, false, not, Option, List, [], ◌∷◌, arith, keep,
  keep-keep, count_if, length,
}
use lv_dcp.Timeline.Events.{EventType, TimelineEvent}
use lv_dcp.Timeline.Store.{Store, is_between, events_between, order_by_time}
use lv_dcp.Timeline.Reconcile.{is_pruned, prune_events}

count-keep-not :
    (p : TimelineEvent → Bool) (es : List TimelineEvent)
    → length (keep (λ e. not (p e)) es) + count_if p es ≡ length es
count-keep-not p [] = refl
count-keep-not p (e ∷ es) = ground (arith, count-keep-not p es)

-- Pruning only orphaned rows changes no query that leaves orphaned rows out, and the number that
-- it returns is the number of rows that are gone.
pub prune_events-orphaned :
    (s : Store) (root j : String) (older_than lo hi : ℕ) (types : Option (List EventType))
    → let (after, deleted) = prune_events root older_than true s in
      (events_between after j lo hi types false ≡ events_between s j lo hi types false)
      × (length after.events + deleted ≡ length s.events)
unfolding prune_events events_between
prune_events-orphaned s root j older_than lo hi types = (
  ap order_by_time (
      keep-keep (is_between j lo hi types false) (λ e. not (is_pruned root older_than true e)) _
        s.events (λ e. ground arith)),
  count-keep-not (is_pruned root older_than true) s.events,
)
