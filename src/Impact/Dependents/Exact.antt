-- ===== src/Impact/Dependents/Exact.antt =====
-- Which files `analyze_impact` lists.
use mathlib.Core.List.{append-nil}
use lv_dcp.Base.{
  contains-append, ℕ, ◌+◌, ◌≤◌, String, ◌==◌, eq_iff, ◌≡◌, refl, sym, ◌∙◌, ap, true, false, ◌||◌,
  some, List, [], ◌∷◌, arith, ltb, contains, contains-sorted, Dict, length, if◌then◌else◌,
  Bool-cases, inl, inr, ◌⊎◌, ◌↔◌,
}
use lv_dcp.Graph.{nodes_at, search, targets}
use lv_dcp.Graph.Fresh.{at_depth, length-at_depth}
use lv_dcp.Graph.Walks.{Walk, here, along, IsEntry, IsSearch}
use lv_dcp.Graph.Walks.Exact.{queued-at_depth, All-at_depth, IsSorted-append}
use lv_dcp.Graph.Walks.Reach.{IsWithin, search-exact, contains-targets, unvisited-le}
use lv_dcp.Impact.{Relation, build_file_dep_map, hops, direct_of, transitive_of, analyze_impact}
use lv_dcp.Impact.Edges.{build_file_dep_map_self}
use lv_dcp.Impact.Dependents.{search-hops, hops-absent}

-- The depth that the search has: the direct dependents are listed whatever `max_depth` is.
abbrev pub reach : ℕ → ℕ
reach max_depth = if ltb 1 max_depth then max_depth else 1

module _ (dep_map : Dict (List String)) (target : String)
    (apart : contains target (nodes_at dep_map target) ≡ false) where
  abbrev adj : String → List String
  adj = nodes_at dep_map

  abbrev direct : List String
  direct = direct_of dep_map target

  in_direct : (x : String) → contains x direct ≡ contains x (adj target)
  in_direct x = contains-sorted x (adj target)

  -- The depths at the start of the search.
  abbrev start_at : String → ℕ
  start_at x = if x == target then 0 else 1

  start_at-direct : (x : String) → contains x direct ≡ true → start_at x ≡ 1
  start_at-direct x x_in = ground (arith, in_direct x, apart, eq_iff x target)

  start_at-le : (x : String) → start_at x ≤ 1
  start_at-le x = ground arith

  sound_start :
      (depth : ℕ)
      → 1 ≤ depth
      → (x : String) → contains x (target ∷ direct) ≡ true
      → Walk adj target x (start_at x) × (start_at x ≤ depth)
  sound_start depth one x x_in = elim (Bool-cases (x == target)) [
    | inl same ↦ rw (same, (eq_iff x target).0 same) (here, omega arith)
    | inr other' ↦
        rw other' (along {x = target} {k = 0} here (ground (arith, in_direct x, x_in, other')), one)
  ]

  start-IsSearch :
      (depth : ℕ)
      → 1 ≤ depth
      → IsSearch adj depth target start_at (target ∷ direct) (at_depth 1 direct)
  start-IsSearch depth one = record {
    seed_in = ground (arith, eq_iff target target);
    seed_at = ground (arith, eq_iff target target);
    entries = All-at_depth (IsEntry start_at (target ∷ direct)) 1 direct (λ x x_in.
        (ground (arith, x_in), (start_at-direct x x_in, λ y y_in. omega (arith, start_at-le y))));
    ordered = IsSorted-append 1 [] direct tt tt;
    sound = sound_start depth one;
    closed = λ x x_in. elim (Bool-cases (contains x direct)) [
      | inl listed ↦ inl (queued-at_depth x 1 direct ∙ listed)
      | inr absent ↦
          let same : x ≡ target = (eq_iff x target).0 (ground (arith, x_in, absent)) in
          inr (
            inr (λ y edge. (
              ground (arith, in_direct y, ap (λ k. contains y (adj k)) same, edge),
              omega (arith, start_at-le y),
            )))
    ];
  }

  -- With the search, which lists what the search of the graph visits.
  deep :
      (depth : ℕ) (x : String)
      → 1 ≤ depth
      → (contains x direct
            || contains x (
                hops adj depth
                  (length direct + length (targets dep_map))
                  ((target ∷ direct, at_depth 1 direct), [])))
          ≡ true
        ↔ (((x == target) ≡ false) × IsWithin adj depth target x)
  deep depth x one =
      let fuel = length direct + length (targets dep_map) in
      let found = hops adj depth fuel ((target ∷ direct, at_depth 1 direct), []) in
      let visited =
        search-hops adj depth fuel (target ∷ direct) (target ∷ direct) (at_depth 1 direct) []
          (sym (append-nil (target ∷ direct))) in
      let absent =
        hops-absent adj depth target fuel (target ∷ direct) (at_depth 1 direct) []
          (ground (arith, eq_iff target target)) refl in
      let exact =
        search-exact adj depth target (targets dep_map) (contains-targets dep_map) fuel start_at
          (target ∷ direct) (at_depth 1 direct) x (start-IsSearch depth one)
          (omega
            (arith, length-at_depth 1 direct, unvisited-le (targets dep_map) (target ∷ direct))) in
      let split : contains x (search adj depth fuel (target ∷ direct, at_depth 1 direct))
          ≡ (x == target || (contains x direct || contains x found)) =
        ap (contains x) visited ∙ contains-append x (target ∷ direct) found ∙ ground arith in
      (
        (λ listed. (
          ground (arith, listed, in_direct x, apart, absent, eq_iff x target),
          exact.0 (split ∙ ground (arith, listed)),
        )),
        λ within. ground (arith, split, exact.1 within.1, within.0),
      )

  Walk-zero : (x : String) (k : ℕ) → Walk adj target x k → k ≡ 0 → x ≡ target
  Walk-zero _ _ here e = refl
  Walk-zero _ _ (along {x = w} {y = y} {k = j} walk edge) e = ground (arith, e)

  Walk-one :
      (x : String) (k : ℕ)
      → Walk adj target x k
      → k ≤ 1
      → (x ≡ target) ⊎ (contains x (adj target) ≡ true)
  Walk-one _ _ here le = inl refl
  Walk-one _ _ (along {x = w} {y = y} {k = j} walk edge) le =
      let same = Walk-zero w j walk (omega (arith, le)) in
      inr (ground (arith, ap (λ k. contains y (adj k)) same, edge))

  shallow :
      (x : String)
      → ((contains x direct || false) ≡ true) ↔ (((x == target) ≡ false) × IsWithin adj 1 target x)
  shallow x = (
    (λ listed.
        let edge : contains x (adj target) ≡ true = ground (arith, listed, in_direct x) in
        (
          ground (arith, edge, apart, eq_iff x target),
          (1, (omega arith, along {x = target} {k = 0} here edge)),
        )),
    λ within. elim (Walk-one x within.1.0 within.1.1.1 within.1.1.0) [
      | inl same ↦ ground (arith, within.0, same, eq_iff x target)
      | inr edge ↦ ground (arith, edge, in_direct x)
    ],
  )

  listed_iff :
      (max_depth : ℕ) (x : String)
      → ((contains x direct || contains x (transitive_of dep_map target max_depth)) ≡ true)
        ↔ (((x == target) ≡ false) × IsWithin adj (reach max_depth) target x)
  unfolding transitive_of
  listed_iff max_depth x = elim (Bool-cases (ltb 1 max_depth)) [
    | inl searched ↦ rw searched (deep max_depth x (ground (arith, searched)))
    | inr none' ↦ rw none' (shallow x)
  ]

-- With relations given, `analyze_impact` lists a file as a direct or transitive dependent just if
-- it is not the target and a chain of at most `max_depth` dependencies, or one where that is less,
-- leads from the target to it; its fuel is enough for all relations.
pub analyze_impact-listed :
    (relations : List Relation) (roles : Dict String) (target : String) (max_depth churn : ℕ)
    (x : String)
    → let report = analyze_impact target (some relations) roles max_depth churn in
      let dep_map = build_file_dep_map relations in
      ((contains x report.direct_dependents || contains x report.transitive_dependents) ≡ true)
      ↔ (((x == target) ≡ false) × IsWithin (nodes_at dep_map) (reach max_depth) target x)
unfolding analyze_impact
analyze_impact-listed relations roles target max_depth churn x =
    let dep_map = build_file_dep_map relations in
    rw (contains-sorted x (transitive_of dep_map target max_depth))
      (listed_iff dep_map target (build_file_dep_map_self relations target) max_depth x)
