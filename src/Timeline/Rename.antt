-- ===== src/Timeline/Rename.antt =====
-- libs/symbol_timeline/rename_detect.py
pub mod Choice
pub mod Edges
pub mod Backed
use Prim.Native.Char.{code}
use lv_dcp.Base.{
  ℕ, ◌*◌, ◌≤◌, ◌<◌, String, ◌==◌, Bool, true, false, not, ◌&&◌, Option, none, some, List, [], ◌∷◌,
  ◌++◌, ltb, leb, contains, keep, if◌then◌else◌,
}
use lv_dcp.Timeline.Events.{is_added, is_removed, TimelineEvent}
use Prim.Native.Nat.{compare, Ordering}

-- `SequenceMatcher(a=r, b=a).ratio()` of difflib. Scores are counted in units of 1/(10 * tenth),
-- in which 1.0, 0.9 and, for a fit `tenth`, every ratio of names of bounded length are whole.
pub record Matcher : Type 0 where
  pub tenth : ℕ
  pub tenth_pos : 0 < tenth
  pub ratio : String → String → ℕ
  pub ratio_le_one : (r a : String) → ratio r a ≤ 10 * tenth

abbrev pub one : Matcher → ℕ
one m = 10 * m.tenth

pub record RenameEdge : Type 0 where
  pub old_symbol_id : String
  pub new_symbol_id : String
  pub confidence : ℕ
  pub commit_sha : Option String
  pub timestamp : ℕ
  pub is_candidate : Bool

-- The text behind the last dot, if there is a dot.
after_last_dot : String → Option String
after_last_dot String.[] = none
after_last_dot (String.◌∷◌ c s) = elim (after_last_dot s) [
  | some t ↦ some t
  | none ↦ elim (compare (code c) b'.') [ Ordering.eq ↦ some s | _ ↦ none ]
]

-- name.rsplit(".", 1)[-1]
pub last_segment : String → String
unfolding after_last_dot
last_segment name = elim (after_last_dot name) [ some t ↦ t | none ↦ name ]

-- removed.content_hash and removed.content_hash == added.content_hash
abbrev pub same_hash : Option String → Option String → Bool
same_hash (some r) (some a) = not (r == "") && r == a
same_hash _ _ = false

abbrev pub name_similarity : Matcher → Option String → Option String → ℕ
name_similarity m (some r) (some a) =
    if last_segment r == last_segment a
    then 9 * m.tenth
    else m.ratio (last_segment r) (last_segment a)
name_similarity m _ _ = 0

unfoldable pub similarity : Matcher → TimelineEvent → TimelineEvent → ℕ
unfolding last_segment
similarity m rem add =
    if same_hash rem.content_hash add.content_hash
    then one m
    else name_similarity m rem.qualified_name add.qualified_name

pub record Best : Type 0 where
  pub add : Option TimelineEvent
  pub sim : ℕ

-- s.add(k)
abbrev pub include : String → List String → List String
include k s = if contains k s then s else s ++ k ∷ []

pub record Pairing : Type 0 where
  pub edges : List RenameEdge
  pub consumed_added : List String
  pub consumed_removed : List String

abbrev pub added_events : List TimelineEvent → List TimelineEvent
added_events = keep (λ (e : TimelineEvent). is_added e.event_type)

abbrev pub removed_events : List TimelineEvent → List TimelineEvent
removed_events = keep (λ (e : TimelineEvent). is_removed e.event_type)

module _ (m : Matcher) where
  -- The body of the inner loop.
  abbrev pub better : TimelineEvent → List String → TimelineEvent → Best → Best
  better rem consumed a best =
      if contains a.symbol_id consumed
      then best
      else (if ltb best.sim (similarity m rem a)
          then record { add = some a; sim = similarity m rem a }
          else best)

  unfoldable pub best_of : TimelineEvent → List String → List TimelineEvent → Best → Best
  best_of rem consumed [] best = best
  best_of rem consumed (a ∷ rest) best = best_of rem consumed rest (better rem consumed a best)

  abbrev pub rename_edge : TimelineEvent → TimelineEvent → ℕ → RenameEdge
  rename_edge rem a sim = record {
    old_symbol_id = rem.symbol_id;
    new_symbol_id = a.symbol_id;
    confidence = sim;
    commit_sha = rem.commit_sha;
    timestamp = rem.timestamp;
    is_candidate = ltb sim (one m);
  }

  -- What a pair that reaches the threshold adds: its edge, and its ends if it is confirmed.
  abbrev pub with_edge : TimelineEvent → Pairing → TimelineEvent → ℕ → Pairing
  with_edge rem st a sim = record {
    edges = st.edges ++ rename_edge rem a sim ∷ [];
    consumed_added =
        (if ltb sim (one m) then st.consumed_added else include a.symbol_id st.consumed_added);
    consumed_removed =
        (if ltb sim (one m)
          then st.consumed_removed
          else include rem.symbol_id st.consumed_removed);
  }

  -- The `if best_add is not None and ...` of the outer loop.
  abbrev pub settle : ℕ → TimelineEvent → Pairing → Best → Pairing
  settle threshold rem st best = elim best.add [
    | none ↦ st
    | some a ↦ if leb threshold best.sim then with_edge rem st a best.sim else st
  ]

  abbrev pub pair_one : ℕ → List TimelineEvent → TimelineEvent → Pairing → Pairing
  pair_one threshold adds rem st =
      settle threshold rem st (best_of rem st.consumed_added adds (record { add = none; sim = 0 }))

  unfoldable pub pair_all : ℕ → List TimelineEvent → List TimelineEvent → Pairing → Pairing
  pair_all threshold adds [] st = st
  pair_all threshold adds (rem ∷ rest) st =
      pair_all threshold adds rest (pair_one threshold adds rem st)

  abbrev pub pairing : ℕ → List TimelineEvent → Pairing
  pairing threshold events =
      pair_all threshold (added_events events) (removed_events events)
        (record { edges = []; consumed_added = []; consumed_removed = [] })

  unfoldable pub pair_renames : ℕ → List TimelineEvent → List RenameEdge × List TimelineEvent
  pair_renames threshold events =
      let st = pairing threshold events in
      (
        st.edges,
        keep (λ (e : TimelineEvent). not (is_added e.event_type) && not (is_removed e.event_type))
              events
            ++ (keep (λ (e : TimelineEvent). not (contains e.symbol_id st.consumed_added))
                  (added_events events)
                ++ keep (λ (e : TimelineEvent). not (contains e.symbol_id st.consumed_removed))
                    (removed_events events)),
      )
