-- ===== src/Timeline/Reconcile/Flags.antt =====
-- `reconcile_orphaned_events` against its description, and the count that it returns.
use mathlib.Core.Path.{ap₂}
use mathlib.Core.List.{Memᴰ}
use lv_dcp.Base.{
  contains-append, ℕ, ◌+◌, String, ◌==◌, eq_iff, eq_refl, ◌≡◌, refl, ap, ◌∙◌, Bool, true, false,
  not, ◌&&◌, ◌||◌, Option, none, some, List, [], ◌∷◌, arith, any, count_if, contains, contains-keep,
  map, All, All-self, any_of_mem, if◌then◌else◌, Option-cases, inl, inr,
}
use lv_dcp.Timeline.Events.{TimelineEvent}
use lv_dcp.Timeline.Store.{Store}
use lv_dcp.Timeline.Reconcile.{
  distinct, live_sha, sha_list, live_shas, stale_shas, sha_in, is_stale, flag, update_stale,
  reconcile_orphaned_events, GitRunner, list_reachable_commits, reconcile, reconcile_with,
}

contains-distinct : (k : String) (xs : List String) → contains k (distinct xs) ≡ contains k xs
contains-distinct k [] = refl
contains-distinct k (x ∷ xs) =
    ground (arith, contains-distinct k xs, contains-distinct x xs, eq_iff k x)

-- A live row of the project with commit `k`.
abbrev pub is_live_at : String → String → TimelineEvent → Bool
is_live_at root k e = live_sha root e && sha_in (k ∷ []) e.commit_sha

is_live_at-eq :
    (root k : String) (e : TimelineEvent)
    → contains k (if live_sha root e then sha_list e.commit_sha else []) ≡ is_live_at root k e
is_live_at-eq root k e = elim (Option-cases e.commit_sha) [
  | inl none' ↦ rw none' (ground arith)
  | inr (j, at_j) ↦ rw at_j (ground (arith, eq_iff k j, eq_iff j k))
]

contains-live_shas :
    (root k : String) (rows : List TimelineEvent)
    → contains k (live_shas root rows) ≡ any (is_live_at root k) rows
contains-live_shas root k [] = refl
contains-live_shas root k (e ∷ es) =
    contains-append k (if live_sha root e then sha_list e.commit_sha else []) (live_shas root es)
    ∙ ground (arith, is_live_at-eq root k e, contains-live_shas root k es)

contains-stale_shas :
    (root k : String) (known : List String) (rows : List TimelineEvent)
    → contains k (stale_shas root known rows)
      ≡ (any (is_live_at root k) rows && not (contains k known))
contains-stale_shas root k known rows =
    contains-keep k (λ j. not (contains j known)) (distinct (live_shas root rows))
    ∙ ap (λ b. b && not (contains k known))
        (contains-distinct k (live_shas root rows) ∙ contains-live_shas root k rows)

-- The description: a row of the project whose commit is not known is orphaned.
abbrev pub is_unknown : String → List String → TimelineEvent → Bool
is_unknown root known e = elim e.commit_sha [
  | none ↦ false
  | some k ↦ e.project_root == root && not (contains k known)
]

abbrev pub orphan : String → List String → TimelineEvent → TimelineEvent
orphan root known e = if is_unknown root known e then record e { orphaned = true } else e

flag-eq-orphan :
    (root : String) (known : List String) (rows : List TimelineEvent) (e : TimelineEvent)
    → Memᴰ e rows
    → flag root (stale_shas root known rows) e ≡ orphan root known e
flag-eq-orphan root known rows e e_in = elim (Option-cases e.commit_sha) [
  | inl none' ↦ ground arith
  | inr (k, at_k) ↦ ground (
    arith,
    contains-stale_shas root k known rows,
    any_of_mem (is_live_at root k) e rows e_in,
    eq_refl k,
  )
]

map-flag :
    (root : String) (known : List String) (rows es : List TimelineEvent)
    → All (λ e. Memᴰ e rows) es
    → map (flag root (stale_shas root known rows)) es ≡ map (orphan root known) es
map-flag root known rows [] h = refl
map-flag root known rows (e ∷ es) h =
    ap₂ ◌∷◌ (flag-eq-orphan root known rows e h.0) (map-flag root known rows es h.1)

count-none : (root : String) (es : List TimelineEvent) → count_if (is_stale root []) es ≡ 0
count-none root [] = refl
count-none root (e ∷ es) = ground (arith, count-none root es)

map-flag-none : (root : String) (es : List TimelineEvent) → map (flag root []) es ≡ es
map-flag-none root [] = refl
map-flag-none root (e ∷ es) = ap₂ ◌∷◌ (ground arith) (map-flag-none root es)

-- The early return does what the UPDATE would do.
update_stale-eq :
    (root : String) (s : Store) (stale : List String)
    → update_stale root s stale ≡ (
      record s { events = map (flag root stale) s.events },
      count_if (is_stale root stale) s.events,
    )
update_stale-eq root s [] =
    let same = map-flag-none root s.events in let none' = count-none root s.events in cc
update_stale-eq root s (k ∷ ks) = refl

-- After `reconcile_orphaned_events` the rows are the old ones, in their order, where exactly those
-- of the project with a commit that is not known are orphaned, beside those that were before. The
-- other tables are as they were.
pub reconcile_orphaned-exact :
    (root : String) (known : List String) (s : Store)
    → (reconcile_orphaned_events root known s).0
      ≡ record s { events = map (orphan root known) s.events }
unfolding reconcile_orphaned_events
reconcile_orphaned-exact root known s = rw (
  update_stale-eq root s (stale_shas root known s.events),
  map-flag root known s.events s.events (All-self s.events),
)

-- The rows that a call turns from live to orphaned.
abbrev pub is_newly : String → List String → TimelineEvent → Bool
is_newly root known e = not e.orphaned && is_unknown root known e

-- The rows that it flags again: orphaned already, with a commit that a live row still has.
abbrev pub is_again : String → List String → List TimelineEvent → TimelineEvent → Bool
is_again root known rows e = e.orphaned && is_stale root (stale_shas root known rows) e

stale-split :
    (root : String) (known : List String) (rows : List TimelineEvent) (e : TimelineEvent)
    → Memᴰ e rows
    → is_stale root (stale_shas root known rows) e
      ≡ (is_newly root known e || is_again root known rows e)
stale-split root known rows e e_in = elim (Option-cases e.commit_sha) [
  | inl none' ↦ ground arith
  | inr (k, at_k) ↦ ground (
    arith,
    contains-stale_shas root k known rows,
    any_of_mem (is_live_at root k) e rows e_in,
    eq_refl k,
  )
]

count-split :
    (root : String) (known : List String) (rows es : List TimelineEvent)
    → All (λ e. Memᴰ e rows) es
    → count_if (is_stale root (stale_shas root known rows)) es
      ≡ count_if (is_newly root known) es + count_if (is_again root known rows) es
count-split root known rows [] h = refl
count-split root known rows (e ∷ es) h =
    ground (arith, stale-split root known rows e h.0, count-split root known rows es h.1)

-- The number that `reconcile_orphaned_events` returns is the number of rows newly flagged and of
-- the rows that were orphaned before and share their commit with a stale live row.
pub reconcile_orphaned-count :
    (root : String) (known : List String) (s : Store)
    → (reconcile_orphaned_events root known s).1
      ≡ count_if (is_newly root known) s.events + count_if (is_again root known s.events) s.events
unfolding reconcile_orphaned_events
reconcile_orphaned-count root known s =
    rw (update_stale-eq root s (stale_shas root known s.events))
      (count-split root known s.events s.events (All-self s.events))

-- Once the unknown rows are orphaned, no live row is stale.
none_live :
    (root k : String) (known : List String) (es : List TimelineEvent)
    → (any (is_live_at root k) (map (orphan root known) es) && not (contains k known)) ≡ false
none_live root k known [] = refl
none_live root k known (e ∷ es) = elim (Option-cases e.commit_sha) [
  | inl none' ↦ ground (arith, none_live root k known es)
  | inr (j, at_j) ↦ ground (arith, none_live root k known es, eq_iff j k, eq_iff k j)
]

nil_of_none : (ks : List String) → ((k : String) → contains k ks ≡ false) → ks ≡ []
nil_of_none [] h = refl
nil_of_none (k ∷ ks) h = ground (arith, h k, eq_refl k)

stale-orphaned :
    (root : String) (known : List String) (es : List TimelineEvent)
    → stale_shas root known (map (orphan root known) es) ≡ []
stale-orphaned root known es =
    nil_of_none (stale_shas root known (map (orphan root known) es))
      λ k. contains-stale_shas root k known (map (orphan root known) es) ∙ none_live root k known es

-- A second call with the same commits changes nothing and returns 0.
pub reconcile_orphaned_idem :
    (root : String) (known : List String) (s : Store)
    → let after = (reconcile_orphaned_events root known s).0 in
      reconcile_orphaned_events root known after ≡ (after, 0)
reconcile_orphaned_idem root known s =
    rw (reconcile_orphaned-exact root known s)
      (unfold reconcile_orphaned_events in rw (stale-orphaned root known s.events))

reconcile_with_idem :
    (known : Option (List String)) (root : String) (s : Store)
    → let after = (reconcile_with known root s).0 in
      ((reconcile_with known root after).0 ≡ after)
      × ((reconcile_with known root after).1.orphaned_newly_flagged ≡ 0)
      × (known ≡ none → after ≡ s)
unfolding reconcile_with
reconcile_with_idem none root s = (refl, refl, λ e. refl)
reconcile_with_idem (some known) root s =
    let again = reconcile_orphaned_idem root known s in
    (ap (λ (r : Store × ℕ). r.0) again, ap (λ (r : Store × ℕ). r.1) again, λ e. cc)

-- A second `reconcile` that gets the same answers from git changes nothing and reports no newly
-- flagged row. Where git cannot list the commits, the first changes nothing either.
pub reconcile_idem :
    (runner : GitRunner) (root : String) (s : Store)
    → let after = (reconcile runner root s).0 in
      ((reconcile runner root after).0 ≡ after)
      × ((reconcile runner root after).1.orphaned_newly_flagged ≡ 0)
      × (list_reachable_commits runner ≡ none → after ≡ s)
unfolding reconcile
reconcile_idem runner root s = reconcile_with_idem (list_reachable_commits runner) root s
