-- ===== src/Graph/Walks/Reach.antt =====
-- `expand` against the walks of the graph, with its fuel.
use lv_dcp.Base.{
  contains-append, ℕ, zero, suc, ◌+◌, ◌≤◌, String, ◌==◌, eq_iff, ◌≡◌, refl, Bool, true, List, [],
  ◌∷◌, ◌++◌, arith, leb, contains, length, Dict, Bool-cases, inl, inr, ◌↔◌,
}
use lv_dcp.Graph.{Graph, nodes_at, search, targets, adjacency, expand}
use lv_dcp.Graph.Fresh.{
  fresh, at_depth, visit_all-fresh, unvisited, unvisited-fresh, length-at_depth,
}
use lv_dcp.Graph.Walks.{Walk, here, along, IsSearch, drop-IsSearch}
use lv_dcp.Graph.Walks.Exact.{after, visit-IsSearch}

length-append : (f g : List (String × ℕ)) → length (f ++ g) ≡ length f + length g
length-append [] g = omega arith
length-append (p ∷ f) g = omega (arith, length-append f g)

module _ (adj : String → List String) (depth : ℕ) (seed : String) where
  -- A node that some walk of at most `depth` edges leads to.
  abbrev pub IsWithin : String → Type 0
  IsWithin x = (k : ℕ) × ((k ≤ depth) × Walk adj seed x k)

  complete :
      (at : String → ℕ) (v : List String) (x : String) (k : ℕ)
      → IsSearch adj depth seed at v []
      → Walk adj seed x k
      → k ≤ depth
      → (contains x v ≡ true) × (at x ≤ k)
  complete at v _ _ h here le = (h.seed_in, omega (arith, h.seed_at))
  complete at v _ _ h (along {x = x} {y = y} {k = j} walk edge) le =
      let (x_in, x_le) = complete at v x j h walk (omega (arith, le)) in
      elim (h.closed x x_in) [
        | inl in_queue ↦ ground (arith, in_queue)
        | inr (inl full) ↦ ground (arith, full, x_le, le)
        | inr (inr closed) ↦ let (y_in, y_le) = closed y edge in (y_in, omega (arith, y_le, x_le))
      ]

  module _ (universe : List String)
      (inside : (x y : String) → contains y (adj x) ≡ true → contains y universe ≡ true) where
    pub search-exact :
        (fuel : ℕ) (at : String → ℕ) (v : List String) (f : List (String × ℕ)) (x : String)
        → IsSearch adj depth seed at v f
        → length f + unvisited universe v ≤ fuel
        → (contains x (search adj depth fuel (v, f)) ≡ true) ↔ IsWithin x
    unfolding search
    search-exact zero at v [] x h enough = (
      (λ x_in. (at x, ((h.sound x x_in).1, (h.sound x x_in).0))),
      λ within. (complete at v x within.0 h within.1.1 within.1.0).0,
    )
    search-exact zero at v (p ∷ f) x h enough = ground (arith, enough)
    search-exact (suc fuel) at v [] x h enough = (
      (λ x_in. (at x, ((h.sound x x_in).1, (h.sound x x_in).0))),
      λ within. (complete at v x within.0 h within.1.1 within.1.0).0,
    )
    search-exact (suc fuel) at v ((node, d) ∷ rest) x h enough = elim (Bool-cases (leb depth d)) [
      | inl full ↦ rw full (
          search-exact fuel at v rest x
            (drop-IsSearch adj depth seed at v node d rest (ground (arith, full)) h)
            (omega (arith, enough)))
      | inr below ↦
          let new' = fresh v (adj node) in
          rw (below, visit_all-fresh d (adj node) v rest)
            (search-exact fuel (after adj depth seed at v node d rest (ground (arith, below)) h)
              (v ++ new') (rest ++ at_depth (d + 1) new') x
              (visit-IsSearch adj depth seed at v node d rest (ground (arith, below)) h)
              (omega (
                arith,
                enough,
                unvisited-fresh universe v (adj node) (inside node),
                length-append rest (at_depth (d + 1) new'),
                length-at_depth (d + 1) new',
              )))
    ]

  start-IsSearch : IsSearch adj depth seed (λ x. 0) (seed ∷ []) ((seed, 0) ∷ [])
  start-IsSearch = record {
    seed_in = ground (arith, eq_iff seed seed);
    seed_at = refl;
    entries = ((ground (arith, eq_iff seed seed), (refl, λ y y_in. omega arith)), tt);
    ordered = (tt, tt);
    sound = λ x x_in. (rw ((eq_iff x seed).0 (ground (arith, x_in))) here, omega arith);
    closed = λ x x_in. inl (ground (arith, x_in));
  }

pub contains-targets :
    (adj : Dict (List String)) (x y : String)
    → contains y (nodes_at adj x) ≡ true
    → contains y (targets adj) ≡ true
contains-targets [] x y h = ground (arith, h)
contains-targets ((a, bs) ∷ adj) x y h = elim (Bool-cases (x == a)) [
  | inl same ↦ ground (arith, h, same, contains-append y bs (targets adj))
  | inr apart ↦
      ground (arith, h, apart, contains-append y bs (targets adj), contains-targets adj x y)
]

pub unvisited-le : (universe v : List String) → unvisited universe v ≤ length universe
unvisited-le [] v = omega arith
unvisited-le (u ∷ universe) v = ground (arith, unvisited-le universe v)

-- `expand` returns exactly the nodes that a walk of at most `depth` edges reaches from the seed,
-- forwards or in reverse; its fuel is enough in every graph.
pub expand-exact :
    (g : Graph) (seed : String) (depth : ℕ) (reverse : Bool) (x : String)
    → (contains x (expand g seed depth reverse) ≡ true)
      ↔ IsWithin (nodes_at (adjacency g reverse)) depth seed x
unfolding expand
expand-exact g seed depth reverse x =
    let adj = adjacency g reverse in
    search-exact (nodes_at adj) depth seed (targets adj) (contains-targets adj)
      (suc (length (targets adj))) (λ y. 0) (seed ∷ []) ((seed, 0) ∷ []) x
      (start-IsSearch (nodes_at adj) depth seed)
      (omega (arith, unvisited-le (targets adj) (seed ∷ [])))
