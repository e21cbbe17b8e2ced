-- ===== src/Timeline/Store/Queries.antt =====
-- What the two queries of store.py return, and how an append changes it.
use mathlib.Core.List.{append-nil}
use lv_dcp.Base.{
  ℕ, ◌-◌, ◌*◌, ◌≤◌, String, ◌≡◌, refl, ◌∙◌, ap, Bool, ◌&&◌, Option, none, some, List, [], ◌∷◌, ◌++◌,
  arith, ltb, leb, keep, keep-keep, keep-append, All, if◌then◌else◌, Bool-cases, inl, inr,
}
use lv_dcp.Timeline.Events.{EventType, TimelineEvent}
use lv_dcp.Timeline.Store.{
  Store, ok, day, append_event, retain, is_of, is_between, events_for_symbol, events_between,
  order_by_time,
}
use lv_dcp.Timeline.Store.Order.{
  IsOrdered, at_time, order_by_time-IsOrdered, at_time-order_by_time, order_by_time-snoc,
}

-- `events_between` is oldest first, and for each time it holds exactly the rows of that time that
-- meet its WHERE clause, in the order in which they were inserted.
pub events_between-exact :
    (s : Store) (root : String) (lo hi : ℕ) (types : Option (List EventType)) (orphans : Bool)
    → IsOrdered (events_between s root lo hi types orphans)
      × ((t : ℕ)
          → at_time t (events_between s root lo hi types orphans)
            ≡ keep
                (λ (e : TimelineEvent).
                  is_between root lo hi types orphans e && (leb t e.timestamp && leb e.timestamp t))
                s.events)
unfolding events_between
events_between-exact s root lo hi types orphans =
    let rows = keep (is_between root lo hi types orphans) s.events in
    (
      order_by_time-IsOrdered rows,
      λ t. at_time-order_by_time t rows ∙ keep-keep _ _ _ s.events (λ e. refl),
    )

keep-All :
    (P : TimelineEvent → Type 0) (p : TimelineEvent → Bool) (xs : List TimelineEvent)
    → All P xs
    → All P (keep p xs)
keep-All P p [] h = tt
keep-All P p (x ∷ xs) h = elim (Bool-cases (p x)) [
  | inl yes' ↦ rw yes' (h.0, keep-All P p xs h.1)
  | inr no' ↦ rw no' (keep-All P p xs h.1)
]

-- An event that is stored without a retention window, and that is not older than those before it,
-- is the last of its own symbol's history, and changes no other symbol's and no other project's.
pub events_for_symbol-append_event :
    (e : TimelineEvent) (now : ℕ) (s s' : Store) (root sid : String) (orphans : Bool)
    → append_event e none now s ≡ ok s'
    → All (λ (f : TimelineEvent). f.timestamp ≤ e.timestamp) s.events
    → events_for_symbol s' root sid orphans ≡ (
        if is_of root sid orphans e
        then events_for_symbol s root sid orphans ++ e ∷ []
        else events_for_symbol s root sid orphans)
unfolding events_for_symbol append_event
events_for_symbol-append_event e now s s' root sid orphans stored older =
    let grown : s'.events ≡ s.events ++ e ∷ [] = ground arith in
    rw grown (
      rw (keep-append (is_of root sid orphans) s.events (e ∷ []))
        (elim (Bool-cases (is_of root sid orphans e)) [
          | inl own ↦ rw own (
              order_by_time-snoc (keep (is_of root sid orphans) s.events) e
                (keep-All _ (is_of root sid orphans) s.events older))
          | inr else' ↦ rw else' (rw append-nil)
        ]))

keep-retain :
    (days now lo hi : ℕ) (root : String) (types : Option (List EventType)) (orphans : Bool)
    (rows : List TimelineEvent)
    → now - days * day ≤ lo
    → keep (is_between root lo hi types orphans) (retain (some days) now rows)
      ≡ keep (is_between root lo hi types orphans) rows
keep-retain days now lo hi root types orphans rows inside = elim (Bool-cases (ltb 0 days)) [
  | inr none' ↦ rw none'
  | inl some' ↦ rw some' (
      keep-keep (is_between root lo hi types orphans)
        (λ (e : TimelineEvent). leb (now - days * day) e.timestamp) _ rows (λ e. ground arith))
]

-- A retention window of some days does not change a query that starts inside it.
pub events_between-retain :
    (e : TimelineEvent) (days now : ℕ) (s short long : Store) (root : String) (lo hi : ℕ)
    (types : Option (List EventType)) (orphans : Bool)
    → append_event e (some days) now s ≡ ok short
    → append_event e none now s ≡ ok long
    → now - days * day ≤ lo
    → events_between short root lo hi types orphans ≡ events_between long root lo hi types orphans
unfolding events_between append_event
events_between-retain e days now s short long root lo hi types orphans p q inside =
    let rows = s.events ++ e ∷ [] in
    let cut : short.events ≡ retain (some days) now rows = ground arith in
    let whole : long.events ≡ rows = ground arith in
    rw (cut, whole) (ap order_by_time (keep-retain days now lo hi root types orphans rows inside))
