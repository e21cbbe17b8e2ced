-- ===== src/Timeline/Rename/Edges.antt =====
-- What the edges of `pair_renames` are, and which events they consume.
use mathlib.Core.Path.{ap₂}
use lv_dcp.Base.{
  ℕ, ◌≤◌, String, ◌==◌, eq_iff, ◌≡◌, refl, Bool, not, ◌&&◌, ◌||◌, Option, none, some, List, [], ◌∷◌,
  ◌++◌, arith, leb, contains, if◌then◌else◌, All, Bool-cases, inl, inr, any, count_if, keep,
  count_if-append, keep-keep, any-eq-count_if,
}
use lv_dcp.Timeline.Events.{TimelineEvent, is_added, is_removed}
use lv_dcp.Timeline.Rename.{
  Matcher, RenameEdge, Pairing, rename_edge, best_of, include, settle, pair_one, pair_all,
  added_events, removed_events, pairing, pair_renames,
}
use lv_dcp.Timeline.Rename.Choice.{Picked, best_of-Picked}

-- A confirmed edge to `k`, and a confirmed edge from `k`.
abbrev pub confirms_new : String → RenameEdge → Bool
confirms_new k e = not e.is_candidate && k == e.new_symbol_id

abbrev pub confirms_old : String → RenameEdge → Bool
confirms_old k e = not e.is_candidate && k == e.old_symbol_id

contains-append :
    (k j : String) (s : List String) → contains k (s ++ j ∷ []) ≡ (contains k s || k == j)
contains-append k j [] = ground arith
contains-append k j (i ∷ s) = ground (arith, contains-append k j s)

pub contains-include :
    (k j : String) (s : List String) → contains k (include j s) ≡ (contains k s || k == j)
contains-include k j s = ground (arith, contains-append k j s, eq_iff k j)

any-append :
    (p : RenameEdge → Bool) (xs : List RenameEdge) (x : RenameEdge)
    → any p (xs ++ x ∷ []) ≡ (any p xs || p x)
any-append p [] x = ground arith
any-append p (y ∷ xs) x = ground (arith, any-append p xs x)

-- The sets of consumed ids are the ends of the confirmed edges.
pub record Tracks (st : Pairing) : Type 0 where
  pub news :
      (k : String)
      → count_if (confirms_new k) st.edges ≡ (if contains k st.consumed_added then 1 else 0)
  pub olds : (k : String) → any (confirms_old k) st.edges ≡ contains k st.consumed_removed

All-Unit : (xs : List TimelineEvent) → All (λ x. Unit {0}) xs
All-Unit [] = tt
All-Unit (x ∷ xs) = (tt, All-Unit xs)

module _ (m : Matcher) (threshold : ℕ) where
  settle-Tracks :
      (rem : TimelineEvent) (st : Pairing) (sim : ℕ) (add : Option TimelineEvent)
      → Tracks st
      → Picked m rem st.consumed_added (λ a. Unit) sim add
      → Tracks (settle m threshold rem st (record { add = add; sim = sim }))
  settle-Tracks rem st sim none t p = t
  settle-Tracks rem st sim (some a) t p = elim (Bool-cases (leb threshold sim)) [
    | inr low ↦ rw low t
    | inl high ↦ rw high (record {
      news = λ k. ground (
        arith,
        t.news k,
        p.1,
        eq_iff k a.symbol_id,
        count_if-append (confirms_new k) st.edges (rename_edge m rem a sim ∷ []),
        contains-include k a.symbol_id st.consumed_added,
      );
      olds = λ k. ground (
        arith,
        t.olds k,
        any-append (confirms_old k) st.edges (rename_edge m rem a sim),
        contains-include k rem.symbol_id st.consumed_removed,
      );
    })
  ]

  pair_one-Tracks :
      (adds : List TimelineEvent) (rem : TimelineEvent) (st : Pairing)
      → Tracks st
      → Tracks (pair_one m threshold adds rem st)
  pair_one-Tracks adds rem st t =
      let best = best_of m rem st.consumed_added adds (record { add = none; sim = 0 }) in
      settle-Tracks rem st best.sim best.add t
        (best_of-Picked m rem st.consumed_added (λ a. Unit) adds _ (All-Unit adds) refl)

  pair_all-Tracks :
      (adds rems : List TimelineEvent) (st : Pairing)
      → Tracks st
      → Tracks (pair_all m threshold adds rems st)
  unfolding pair_all
  pair_all-Tracks adds [] st t = t
  pair_all-Tracks adds (rem ∷ rems) st t =
      pair_all-Tracks adds rems (pair_one m threshold adds rem st) (pair_one-Tracks adds rem st t)

  pub pairing-Tracks : (events : List TimelineEvent) → Tracks (pairing m threshold events)
  pairing-Tracks events =
      pair_all-Tracks (added_events events) (removed_events events) _
        (record { news = λ k. refl; olds = λ k. refl })

  -- No added symbol is the target of two confirmed renames.
  pub pair_renames-new_once :
      (events : List TimelineEvent) (k : String)
      → count_if (confirms_new k) (pair_renames m threshold events).0 ≤ 1
  unfolding pair_renames
  pair_renames-new_once events k = ground (arith, (pairing-Tracks events).news k)

  remaining-added :
      (events : List TimelineEvent)
      → keep
          (λ (e : TimelineEvent).
            not (contains e.symbol_id (pairing m threshold events).consumed_added))
          (added_events events)
        ≡ keep
            (λ (e : TimelineEvent).
              is_added e.event_type
              && not (any (confirms_new e.symbol_id) (pairing m threshold events).edges))
            events
  remaining-added events = keep-keep _ _ _ events λ e. ground (
    arith,
    (pairing-Tracks events).news e.symbol_id,
    any-eq-count_if (confirms_new e.symbol_id) (pairing m threshold events).edges,
  )

  remaining-removed :
      (events : List TimelineEvent)
      → keep
          (λ (e : TimelineEvent).
            not (contains e.symbol_id (pairing m threshold events).consumed_removed))
          (removed_events events)
        ≡ keep
            (λ (e : TimelineEvent).
              is_removed e.event_type
              && not (any (confirms_old e.symbol_id) (pairing m threshold events).edges))
            events
  remaining-removed events =
      keep-keep _ _ _ events λ e. ground (arith, (pairing-Tracks events).olds e.symbol_id)

  -- What is left of the events: first those that are neither `added` nor `removed`, then the
  -- `added` ones whose symbol is not the target of a confirmed rename, then the `removed` ones
  -- whose symbol is not the source of one, each group in its old order.
  pub pair_renames-remaining :
      (events : List TimelineEvent)
      → let edges = (pair_renames m threshold events).0 in
        (pair_renames m threshold events).1
        ≡ keep
            (λ (e : TimelineEvent). not (is_added e.event_type) && not (is_removed e.event_type))
            events
          ++ (keep
                (λ (e : TimelineEvent).
                  is_added e.event_type && not (any (confirms_new e.symbol_id) edges))
                events
              ++ keep
                  (λ (e : TimelineEvent).
                    is_removed e.event_type && not (any (confirms_old e.symbol_id) edges))
                  events)
  unfolding pair_renames
  pair_renames-remaining events =
      ap₂
        (λ xs ys.
          keep (λ (e : TimelineEvent). not (is_added e.event_type) && not (is_removed e.event_type))
            events
          ++ (xs ++ ys))
        (remaining-added events) (remaining-removed events)
