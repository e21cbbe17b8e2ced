-- ===== src/Timeline/Query/History/Names.antt =====
-- The names that `symbol_timeline` of libs/symbol_timeline/query.py shows in its renames.
use mathlib.Core.Path.{fun_ext}
use lv_dcp.Base.{
  String, ◌==◌, eq_iff, Bool, true, false, ◌&&◌, Option, some, List, [], ◌∷◌, ◌++◌, ◌≡◌, refl, ap,
  ◌∙◌, inl, inr, Bool-cases, ◌||◌, arith, All, All-imp, map, keep, ltb, Dict, get, put, get-put,
  contains, contains-append, distinct, contains-distinct, if◌then◌else◌,
}
use lv_dcp.Timeline.Events.{TimelineEvent, RenameEdgeRow}
use lv_dcp.Timeline.Store.{Store, events_for_symbol}
use lv_dcp.Timeline.Query.{pair_of}
use lv_dcp.Timeline.Query.History.{SymbolTimelineResult}
use lv_dcp.Timeline.Query.History.Life.{
  not_known, latest_name_file, insert_edge, oldest_first, known_name, into, out_of, name_of,
  add_names, name_by_sid, with_events, history_of,
}
use lv_dcp.Timeline.Query.History.Latest.{last_text, latest_name_file-last_text}

All-oldest_first :
    (P : RenameEdgeRow → Type 0) (rs : List RenameEdgeRow) → All P rs → All P (oldest_first rs)
unfolding oldest_first
All-oldest_first P [] h = tt
All-oldest_first P (r ∷ rs) h = All-insert r (oldest_first rs) h.0 (All-oldest_first P rs h.1)
  where
    All-insert :
        (r : RenameEdgeRow) (qs : List RenameEdgeRow) → P r → All P qs → All P (insert_edge r qs)
    All-insert r [] pr h = (pr, tt)
    All-insert r (q ∷ qs) pr h = elim (Bool-cases (ltb q.timestamp r.timestamp)) [
      | inl older ↦ rw older (h.0, All-insert r qs pr h.1)
      | inr newer ↦ rw newer (pr, h)
    ]

-- Pairs are the same where the names of both ends are.
map-pair_of :
    (f g : String → Option String) (rs : List RenameEdgeRow)
    → All
        (λ r. (f r.old_symbol_id ≡ g r.old_symbol_id) × (f r.new_symbol_id ≡ g r.new_symbol_id))
        rs
    → map (pair_of f) rs ≡ map (pair_of g) rs
map-pair_of f g [] h = refl
map-pair_of f g (r ∷ rs) h = ground (arith, map-pair_of f g rs h.1)

-- The ends of the edges that a query takes: on the one side its symbol, on the other any.
ends-All :
    (Q : String → Type 0) (root sid : String) (this other : RenameEdgeRow → String)
    (rs : List RenameEdgeRow)
    → Q sid
    → ((s : String)
        → contains s
            (map other (keep (λ (r : RenameEdgeRow). r.project_root == root && this r == sid) rs))
          ≡ true
        → Q s)
    → All
        (λ r. Q (this r) × Q (other r))
        (keep (λ (r : RenameEdgeRow). r.project_root == root && this r == sid) rs)
ends-All Q root sid this other [] self others = tt
ends-All Q root sid this other (r ∷ rs) self others =
    elim (Bool-cases (r.project_root == root && this r == sid)) [
      | inl of ↦ rw of (
        (
          rw ((eq_iff (this r) sid).0 (ground (arith, of))) self,
          others (other r) (ground (arith, of, eq_iff (other r) (other r))),
        ),
        ends-All Q root sid this other rs self λ s h. others s (ground (arith, of, h)),
      )
      | inr not_of ↦
          rw not_of
            (ends-All Q root sid this other rs self λ s h. others s (ground (arith, not_of, h)))
    ]

module _ (store : Store) (root : String) (include_orphaned : Bool) where
  get-add_names :
      (s : String) (sids : List String) (names : Dict (Option String))
      → get s (add_names store root include_orphaned sids names)
        ≡ (if contains s sids then some (name_of store root include_orphaned s) else get s names)
  get-add_names s [] names = refl
  get-add_names s (sid ∷ sids) names =
      let name = name_of store root include_orphaned sid in
      get-add_names s sids (put sid name names) ∙ elim (Bool-cases (s == sid)) [
        | inl same ↦ ground (arith, get-put s sid name names, (eq_iff s sid).0 same)
        | inr other ↦ ground (arith, get-put s sid name names)
      ]

  module _ (sid : String) (qualified_name : Option String) where
    abbrev sides : List String
    sides =
        map (λ r. r.old_symbol_id) (into store root include_orphaned sid)
        ++ map (λ r. r.new_symbol_id) (out_of store root include_orphaned sid)

    abbrev shown : String → Option String
    shown = known_name (name_by_sid store root include_orphaned sid qualified_name)

    -- The dictionary knows the name of each end of an edge.
    shown_other :
        (s : String) → contains s sides ≡ true → shown s ≡ name_of store root include_orphaned s
    shown_other s h = ground (
      arith,
      get-add_names s (distinct sides) ((sid, qualified_name) ∷ []),
      contains-distinct s sides,
    )

    shown_self :
        qualified_name ≡ name_of store root include_orphaned sid
        → shown sid ≡ name_of store root include_orphaned sid
    shown_self same = ground (
      arith,
      get-add_names sid (distinct sides) ((sid, qualified_name) ∷ []),
      eq_iff sid sid,
      same,
    )

    side_shown :
        (s : String)
        → (contains s (map (λ r. r.old_symbol_id) (into store root include_orphaned sid))
            || contains s (map (λ r. r.new_symbol_id) (out_of store root include_orphaned sid)))
          ≡ true
        → shown s ≡ name_of store root include_orphaned s
    side_shown s h = shown_other s (
        contains-append s (map (λ r. r.old_symbol_id) (into store root include_orphaned sid))
          (map (λ r. r.new_symbol_id) (out_of store root include_orphaned sid))
        ∙ h)

    pairs_into :
        qualified_name ≡ name_of store root include_orphaned sid
        → map (pair_of shown) (oldest_first (into store root include_orphaned sid))
          ≡ map
              (pair_of (name_of store root include_orphaned))
              (oldest_first (into store root include_orphaned sid))
    pairs_into same = map-pair_of _ _ _ (
        All-oldest_first _ _ (
          All-imp _ _ _ (λ r h. (h.1, h.0))
            (ends-All (λ s. shown s ≡ name_of store root include_orphaned s) root sid
              (λ r. r.new_symbol_id) (λ r. r.old_symbol_id) store.rename_edges (shown_self same)
              λ s h. side_shown s (ground (arith, h)))))

    pairs_out_of :
        qualified_name ≡ name_of store root include_orphaned sid
        → map (pair_of shown) (oldest_first (out_of store root include_orphaned sid))
          ≡ map
              (pair_of (name_of store root include_orphaned))
              (oldest_first (out_of store root include_orphaned sid))
    pairs_out_of same = map-pair_of _ _ _ (
        All-oldest_first _ _ (
          ends-All (λ s. shown s ≡ name_of store root include_orphaned s) root sid
            (λ r. r.old_symbol_id) (λ r. r.new_symbol_id) store.rename_edges (shown_self same)
            λ s h. side_shown s (ground (arith, h))))

  -- The name that is shown for a symbol: the newest that its events have.
  abbrev pub shown_for : String → Option String
  shown_for sid =
      last_text (λ e. e.qualified_name) (events_for_symbol store root sid include_orphaned)

  abbrev pub history : String → List TimelineEvent → SymbolTimelineResult
  history sid [] = not_known sid []
  history sid (e ∷ es) = record {
    symbol_id = sid;
    qualified_name = last_text (λ e. e.qualified_name) (e ∷ es);
    file_path = last_text (λ e. some e.file_path) (e ∷ es);
    events = e ∷ es;
    rename_predecessors =
        map (pair_of shown_for) (oldest_first (into store root include_orphaned sid));
    rename_successors =
        map (pair_of shown_for) (oldest_first (out_of store root include_orphaned sid));
    not_found = false;
    candidates = [];
  }

  name_of-shown_for :
      (rs : List RenameEdgeRow)
      → map (pair_of (name_of store root include_orphaned)) rs ≡ map (pair_of shown_for) rs
  name_of-shown_for rs =
      ap (λ f. map (pair_of f) rs)
        (fun_ext λ s.
          ap (λ p. p.0)
            (latest_name_file-last_text (events_for_symbol store root s include_orphaned)))

  -- The history of an id, of a symbol without an event or with some: its events, its newest name
  -- and path, and the renames into it and out of it, oldest first, where each end is shown with
  -- the newest name that its own events have, if any has one.
  pub history_of-history :
      (sid : String)
      → history_of store root include_orphaned sid
        ≡ history sid (events_for_symbol store root sid include_orphaned)
  unfolding history_of
  history_of-history sid = of (events_for_symbol store root sid include_orphaned) refl
    where
      of :
          (es : List TimelineEvent)
          → es ≡ events_for_symbol store root sid include_orphaned
          → with_events store root include_orphaned sid es ≡ history sid es
      of [] e = refl
      of (f ∷ fs) e =
          let same = ap (λ es. (latest_name_file es).0) e in
          let last = latest_name_file-last_text (f ∷ fs) in
          ground (
            arith,
            last,
            pairs_into sid (latest_name_file (f ∷ fs)).0 same
                ∙ name_of-shown_for (oldest_first (into store root include_orphaned sid)),
            pairs_out_of sid (latest_name_file (f ∷ fs)).0 same
                ∙ name_of-shown_for (oldest_first (out_of store root include_orphaned sid)),
          )
