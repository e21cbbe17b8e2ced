-- ===== src/Timeline/Rename/Backed.antt =====
-- Every edge of `pair_renames` joins a removed symbol to the added one that is most like it.
use mathlib.Core.List.{Memᴰ}
use lv_dcp.Base.{
  All-self, All-at, ℕ, ◌≤◌, ◌<◌, String, ◌≡◌, refl, Bool, true, not, Option, none, some, List, [],
  ◌∷◌, arith, leb, contains, All, All-append, All-imp, Bool-cases, inl, inr, any, any-eq-count_if,
}
use lv_dcp.Timeline.Events.{TimelineEvent}
use lv_dcp.Timeline.Rename.{
  Matcher, RenameEdge, rename_edge, with_edge, Best, Pairing, similarity, best_of, settle, pair_one,
  pair_all, added_events, removed_events, pairing, pair_renames,
}
use lv_dcp.Timeline.Rename.Choice.{Picked, AtMost, best_of-Picked, best_of-AtMost}
use lv_dcp.Timeline.Rename.Edges.{confirms_new, contains-include, pairing-Tracks}

module _ (m : Matcher) (threshold : ℕ) (adds rems : List TimelineEvent) where
  -- `free k`: the added symbol `k` is not taken by a confirmed rename.
  pub record IsBacked (free : String → Bool) (e : RenameEdge) : Type 0 where
    pub rem : TimelineEvent
    pub add : TimelineEvent
    pub rem_in : Memᴰ rem rems
    pub add_in : Memᴰ add adds
    pub edge : e ≡ rename_edge m rem add e.confidence
    pub score : e.confidence ≡ similarity m rem add
    pub enough : threshold ≤ e.confidence
    pub positive : 0 < e.confidence
    pub best :
        (a : TimelineEvent)
        → Memᴰ a adds
        → free a.symbol_id ≡ true
        → similarity m rem a ≤ e.confidence

  IsBacked-imp :
      (f g : String → Bool) (e : RenameEdge)
      → ((k : String) → g k ≡ true → f k ≡ true)
      → IsBacked f e
      → IsBacked g e
  IsBacked-imp f g e h b = record {
    rem = b.rem;
    add = b.add;
    rem_in = b.rem_in;
    add_in = b.add_in;
    edge = b.edge;
    score = b.score;
    enough = b.enough;
    positive = b.positive;
    best = λ a a_in is_free. b.best a a_in (h a.symbol_id is_free);
  }

  -- The added symbols that a state leaves free.
  abbrev pub free_in : Pairing → String → Bool
  free_in st k = not (contains k st.consumed_added)

  settle-free :
      (rem : TimelineEvent) (st : Pairing) (sim : ℕ) (add : Option TimelineEvent) (k : String)
      → free_in (settle m threshold rem st (record { add = add; sim = sim })) k ≡ true
      → free_in st k ≡ true
  settle-free rem st sim none k h = h
  settle-free rem st sim (some a) k h =
      ground (arith, contains-include k a.symbol_id st.consumed_added)

  abbrev AllBacked : Pairing → Type 0
  AllBacked st = All (IsBacked (free_in st)) st.edges

  -- The edge that a pick adds.
  with_edge-IsBacked :
      (rem : TimelineEvent) (st : Pairing) (sim : ℕ) (a : TimelineEvent)
      → Memᴰ rem rems
      → threshold ≤ sim
      → Picked m rem st.consumed_added (λ a. Memᴰ a adds) sim (some a)
      → All (AtMost m rem st.consumed_added sim) adds
      → IsBacked (free_in (with_edge m rem st a sim)) (rename_edge m rem a sim)
  with_edge-IsBacked rem st sim a rem_in high p most = record {
    rem = rem;
    add = a;
    rem_in = rem_in;
    add_in = p.0;
    edge = refl;
    score = p.2;
    enough = high;
    positive = p.3;
    best = λ b b_in free.
        All-at (AtMost m rem st.consumed_added sim) b adds most b_in
          (ground (arith, contains-include b.symbol_id a.symbol_id st.consumed_added));
  }

  settle-AllBacked :
      (rem : TimelineEvent) (st : Pairing) (sim : ℕ) (add : Option TimelineEvent)
      → Memᴰ rem rems
      → AllBacked st
      → Picked m rem st.consumed_added (λ a. Memᴰ a adds) sim add
      → All (AtMost m rem st.consumed_added sim) adds
      → AllBacked (settle m threshold rem st (record { add = add; sim = sim }))
  settle-AllBacked rem st sim none rem_in all p most = all
  settle-AllBacked rem st sim (some a) rem_in all p most =
      let grown = with_edge m rem st a sim in
      elim (Bool-cases (leb threshold sim)) [
        | inr low ↦ rw low all
        | inl high ↦ rw high (
            All-append (IsBacked (free_in grown)) st.edges (rename_edge m rem a sim ∷ [])
              (All-imp _ _ st.edges
                (λ e.
                  IsBacked-imp (free_in st) (free_in grown) e
                    λ k h. ground (arith, contains-include k a.symbol_id st.consumed_added))
                all)
              (with_edge-IsBacked rem st sim a rem_in (ground arith) p most, tt))
      ]

  pair_one-AllBacked :
      (rem : TimelineEvent) (st : Pairing)
      → Memᴰ rem rems
      → AllBacked st
      → AllBacked (pair_one m threshold adds rem st)
  pair_one-AllBacked rem st rem_in all =
      let start : Best = record { add = none; sim = 0 } in
      let best = best_of m rem st.consumed_added adds start in
      settle-AllBacked rem st best.sim best.add rem_in all
        (best_of-Picked m rem st.consumed_added (λ a. Memᴰ a adds) adds start (All-self adds) refl)
        (best_of-AtMost m rem st.consumed_added adds start)

  pair_all-AllBacked :
      (left : List TimelineEvent) (st : Pairing)
      → All (λ r. Memᴰ r rems) left
      → AllBacked st
      → AllBacked (pair_all m threshold adds left st)
  unfolding pair_all
  pair_all-AllBacked [] st in_rems all = all
  pair_all-AllBacked (rem ∷ left) st in_rems all =
      pair_all-AllBacked left (pair_one m threshold adds rem st) in_rems.1
        (pair_one-AllBacked rem st in_rems.0 all)

-- Every edge of `pair_renames` comes from a removed event and an added event of the input: it has
-- their ids and their similarity, which is positive and reaches the threshold, the commit and the
-- time of the removal, and is a candidate exactly below 1.0. No added event scores higher against
-- that removed one, unless its symbol is the target of a confirmed rename.
pub pair_renames-IsBacked :
    (m : Matcher) (threshold : ℕ) (events : List TimelineEvent)
    → let edges = (pair_renames m threshold events).0 in
      All
        (IsBacked m threshold
          (added_events events)
          (removed_events events)
          (λ k. not (any (confirms_new k) edges)))
        edges
unfolding pair_renames
pair_renames-IsBacked m threshold events =
    let adds = added_events events in
    let rems = removed_events events in
    let st = pairing m threshold events in
    All-imp _ _ st.edges
      (λ e.
        IsBacked-imp m threshold adds rems (free_in m threshold adds rems st)
          (λ k. not (any (confirms_new k) st.edges)) e
          λ k h. ground (
            arith,
            (pairing-Tracks m threshold events).news k,
            any-eq-count_if (confirms_new k) st.edges,
          ))
      (pair_all-AllBacked m threshold adds rems rems _ (All-self rems) tt)
