-- ===== src/Graph/Walks.antt =====
-- `expand` visits the nodes that a walk of at most the given length reaches.
pub mod Exact
pub mod Reach
use lv_dcp.Base.{
  contains-append, ℕ, suc, ◌+◌, ◌≤◌, ◌<◌, String, ◌==◌, eq_iff, ◌≡◌, refl, Bool, true, false, not,
  ◌&&◌, ◌||◌, List, [], ◌∷◌, ◌++◌, arith, leb, any, contains, All, All-append, All-imp,
  if◌then◌else◌, Bool-cases, ◌⊎◌, inl, inr,
}
use lv_dcp.Graph.Fresh.{fresh, at_depth, contains-fresh}

module _ (adj : String → List String) (seed : String) where
  -- A walk along the edges from the seed to a node, of some length.
  pub data Walk : String → ℕ → Type 0 where
    here : Walk seed 0
    along : {x y : String} {k : ℕ} → Walk x k → contains y (adj x) ≡ true → Walk y (k + 1)

-- Whether a node is in the queue.
abbrev pub queued : String → List (String × ℕ) → Bool
queued x = any (λ (p : String × ℕ). x == p.0)

-- The queue's depths do not fall.
abbrev pub IsSorted : List (String × ℕ) → Type 0
IsSorted [] = Unit
IsSorted ((x, d) ∷ f) = All (λ (p : String × ℕ). d ≤ p.1) f × IsSorted f

-- An entry of the queue: it is visited at its depth, and nothing is visited deeper than one below.
abbrev pub IsEntry : (String → ℕ) → List String → String × ℕ → Type 0
IsEntry at v (x, d) =
    (contains x v ≡ true) × ((at x ≡ d) × ((y : String) → contains y v ≡ true → at y ≤ d + 1))

module _ (adj : String → List String) (depth : ℕ) (seed : String) where
  -- All edges of the node lead to visited nodes, at most one deeper.
  abbrev pub IsClosed : (String → ℕ) → List String → String → Type 0
  IsClosed at v x =
      (y : String) → contains y (adj x) ≡ true → (contains y v ≡ true) × (at y ≤ at x + 1)

  -- The state of the search, with the depth at which each node was visited.
  pub record IsSearch (at : String → ℕ) (v : List String) (f : List (String × ℕ)) : Type 0 where
    pub seed_in : contains seed v ≡ true
    pub seed_at : at seed ≡ 0
    pub entries : All (IsEntry at v) f
    pub ordered : IsSorted f
    pub sound : (x : String) → contains x v ≡ true → Walk adj seed x (at x) × (at x ≤ depth)
    pub closed :
        (x : String)
        → contains x v ≡ true
        → (queued x f ≡ true) ⊎ ((depth ≤ at x) ⊎ IsClosed at v x)

  -- A head at the full depth is dropped.
  pub drop-IsSearch :
      (at : String → ℕ) (v : List String) (node : String) (d : ℕ) (rest : List (String × ℕ))
      → depth ≤ d
      → IsSearch at v ((node, d) ∷ rest)
      → IsSearch at v rest
  drop-IsSearch at v node d rest full h = record {
    seed_in = h.seed_in;
    seed_at = h.seed_at;
    entries = h.entries.1;
    ordered = h.ordered.1;
    sound = h.sound;
    closed = λ x x_in. elim (h.closed x x_in) [
      | inr other' ↦ inr other'
      | inl in_queue ↦ elim (Bool-cases (x == node)) [
        | inl same ↦ inr (inl (rw ((eq_iff x node).0 same) (omega (arith, h.entries.0.1.0, full))))
        | inr apart ↦ inl (ground (arith, in_queue, apart))
      ]
    ];
  }
