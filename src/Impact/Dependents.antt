-- ===== src/Impact/Dependents.antt =====
-- The search of `analyze_impact` against that of the graph.
pub mod Exact
use mathlib.Core.List.{append_assoc, append-nil}
use lv_dcp.Base.{
  contains-append, ℕ, zero, suc, ◌+◌, ◌≤◌, ◌<◌, String, ◌==◌, eq_iff, ◌≡◌, refl, sym, ◌∙◌, ap, Bool,
  true, false, not, ◌&&◌, ◌||◌, Option, some, List, [], ◌∷◌, ◌++◌, arith, leb, ltb, contains,
  contains-sorted, sorted, Dict, length, All, if◌then◌else◌, Bool-cases, inl, inr, ◌↔◌,
}
use lv_dcp.Graph.{nodes_at, search, visit, visit_all, targets}
use lv_dcp.Graph.Fresh.{
  fresh, at_depth, contains-fresh, visit_all-fresh, length-at_depth, unvisited,
}
use lv_dcp.Graph.Walks.{Walk, here, along, IsSearch}
use lv_dcp.Graph.Walks.Reach.{IsWithin, search-exact}
use lv_dcp.Impact.{
  Relation, build_file_dep_map, hop, hop_all, hop_step, hops, direct_of, transitive_of,
  analyze_impact,
}
use lv_dcp.Impact.Edges.{build_file_dep_map_self}

hop_all-fresh :
    (d : ℕ) (ys v : List String) (f : List (String × ℕ)) (t : List String)
    → hop_all d ys ((v, f), t)
      ≡ ((v ++ fresh v ys, f ++ at_depth (d + 1) (fresh v ys)), t ++ fresh v ys)
unfolding fresh
hop_all-fresh d [] v f t = rw (append-nil v, append-nil f, append-nil t) refl
hop_all-fresh d (y ∷ ys) v f t = elim (Bool-cases (contains y v)) [
  | inl old ↦ rw old (hop_all-fresh d ys v f t)
  | inr new' ↦
      let more = fresh (v ++ y ∷ []) ys in
      rw new' (
        hop_all-fresh d ys (v ++ y ∷ []) (f ++ (y, d + 1) ∷ []) (t ++ y ∷ [])
        ∙ rw
            (
              append_assoc v (y ∷ []) more,
              append_assoc f ((y, d + 1) ∷ []) (at_depth (d + 1) more),
              append_assoc t (y ∷ []) more,
            )
            refl)
]

module _ (adj : String → List String) (depth : ℕ) where
  -- The search of the graph visits what this one starts with and then lists.
  pub search-hops :
      (fuel : ℕ) (start v : List String) (f : List (String × ℕ)) (t : List String)
      → v ≡ start ++ t
      → search adj depth fuel (v, f) ≡ start ++ hops adj depth fuel ((v, f), t)
  unfolding search hops
  search-hops zero start v f t e = e
  search-hops (suc fuel) start v [] t e = e
  search-hops (suc fuel) start v ((node, d) ∷ rest) t e = elim (Bool-cases (leb depth d)) [
    | inl full ↦ rw full (search-hops fuel start v rest t e)
    | inr below ↦
        let more = fresh v (adj node) in
        rw (below, visit_all-fresh d (adj node) v rest, hop_all-fresh d (adj node) v rest t)
          (search-hops fuel start (v ++ more) (rest ++ at_depth (d + 1) more) (t ++ more)
            (ap (λ xs. xs ++ more) e ∙ append_assoc start t more))
  ]

  pub hops-absent :
      (k : String) (fuel : ℕ) (v : List String) (f : List (String × ℕ)) (t : List String)
      → contains k v ≡ true
      → contains k t ≡ false
      → contains k (hops adj depth fuel ((v, f), t)) ≡ false
  unfolding hops
  hops-absent k zero v f t k_in absent = absent
  hops-absent k (suc fuel) v [] t k_in absent = absent
  hops-absent k (suc fuel) v ((node, d) ∷ rest) t k_in absent = elim (Bool-cases (leb depth d)) [
    | inl full ↦ rw full (hops-absent k fuel v rest t k_in absent)
    | inr below ↦
        let more = fresh v (adj node) in
        rw (below, hop_all-fresh d (adj node) v rest t)
          (hops-absent k fuel (v ++ more) (rest ++ at_depth (d + 1) more) (t ++ more)
            (ground (arith, contains-append k v more, k_in))
            (ground (arith, contains-append k t more, contains-fresh k v (adj node), k_in, absent)))
  ]
