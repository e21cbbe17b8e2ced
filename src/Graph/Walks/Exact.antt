-- ===== src/Graph/Walks/Exact.antt =====
-- The search is exact: its invariant is kept by a step, and decides reachability at the end.
use lv_dcp.Base.{
  contains-append, ℕ, ◌+◌, ◌≤◌, ◌<◌, String, ◌==◌, eq_iff, ◌≡◌, refl, sym, ◌∙◌, true, ◌||◌, List,
  [], ◌∷◌, ◌++◌, arith, contains, All, All-append, All-imp, if◌then◌else◌, Bool-cases, ◌⊎◌, inl,
  inr,
}
use lv_dcp.Graph.Fresh.{fresh, at_depth, contains-fresh}
use lv_dcp.Graph.Walks.{Walk, along, queued, IsSorted, IsEntry, IsClosed, IsSearch}

queued-append :
    (x : String) (f g : List (String × ℕ)) → queued x (f ++ g) ≡ (queued x f || queued x g)
queued-append x [] g = refl
queued-append x (p ∷ f) g = ground (arith, queued-append x f g)

pub queued-at_depth :
    (x : String) (d : ℕ) (ys : List String) → queued x (at_depth d ys) ≡ contains x ys
queued-at_depth x d [] = refl
queued-at_depth x d (y ∷ ys) = ground (arith, queued-at_depth x d ys)

pub All-at_depth :
    (P : String × ℕ → Type 0) (d : ℕ) (ys : List String)
    → ((y : String) → contains y ys ≡ true → P (y, d))
    → All P (at_depth d ys)
All-at_depth P d [] h = tt
All-at_depth P d (y ∷ ys) h =
    (h y (ground (arith, eq_iff y y)), All-at_depth P d ys (λ k k_in. h k (ground (arith, k_in))))

pub IsSorted-append :
    (d : ℕ) (f : List (String × ℕ)) (ys : List String)
    → IsSorted f
    → All (λ (p : String × ℕ). p.1 ≤ d) f
    → IsSorted (f ++ at_depth d ys)
IsSorted-append d [] [] s h = tt
IsSorted-append d [] (y ∷ ys) s h = (
  All-at_depth (λ (p : String × ℕ). d ≤ p.1) d ys (λ k k_in. omega arith),
  IsSorted-append d [] ys tt tt,
)
IsSorted-append d ((x, e) ∷ f) ys s h = (
  All-append (λ (p : String × ℕ). e ≤ p.1) f (at_depth d ys) s.0
      (All-at_depth (λ (p : String × ℕ). e ≤ p.1) d ys (λ k k_in. h.0)),
  IsSorted-append d f ys s.1 h.1,
)

module _ (adj : String → List String) (depth : ℕ) (seed : String) (at : String → ℕ)
    (v : List String) (node : String) (d : ℕ) (rest : List (String × ℕ)) (below : d < depth)
    (h : IsSearch adj depth seed at v ((node, d) ∷ rest)) where
  -- The depths after the step.
  abbrev pub after : String → ℕ
  after x = if contains x v then at x else d + 1

  in_after :
      (x : String) → contains x (v ++ fresh v (adj node)) ≡ (contains x v || contains x (adj node))
  in_after x =
      contains-append x v (fresh v (adj node)) ∙ ground (arith, contains-fresh x v (adj node))

  after-old : (x : String) → contains x v ≡ true → after x ≡ at x
  after-old x old = rw old refl

  after-le : (x : String) → after x ≤ d + 1
  after-le x = ground (arith, h.entries.0.1.1 x)

  IsEntry-after :
      (p : String × ℕ) → (IsEntry at v p × (d ≤ p.1)) → IsEntry after (v ++ fresh v (adj node)) p
  IsEntry-after (x, e) (old, later) = (
    ground (arith, in_after x, old.0),
    (after-old x old.0 ∙ old.1.0, λ y y_in. ground (arith, old.1.1 y, later)),
  )

  IsEntry-new :
      (x : String)
      → contains x (fresh v (adj node)) ≡ true
      → IsEntry after (v ++ fresh v (adj node)) (x, d + 1)
  IsEntry-new x new' = (
    ground (arith, contains-append x v (fresh v (adj node)), new'),
    (ground (arith, contains-fresh x v (adj node), new'), λ y y_in. omega (arith, after-le y)),
  )

  both :
      (P Q : String × ℕ → Type 0) (f : List (String × ℕ))
      → All P f
      → All Q f
      → All (λ p. P p × Q p) f
  both P Q [] hp hq = tt
  both P Q (p ∷ f) hp hq = ((hp.0, hq.0), both P Q f hp.1 hq.1)

  entry-le : (p : String × ℕ) → IsEntry at v p → p.1 ≤ d + 1
  entry-le (x, e) old = omega (arith, old.1.0, h.entries.0.1.1 x old.0)

  sound-after :
      (x : String)
      → contains x (v ++ fresh v (adj node)) ≡ true
      → Walk adj seed x (after x) × (after x ≤ depth)
  sound-after x x_in = elim (Bool-cases (contains x v)) [
    | inl old ↦ rw old (h.sound x old)
    | inr new' ↦ rw new' (
      along {x = node} {k = d} (rw (sym h.entries.0.1.0) (h.sound node h.entries.0.0).0)
          (ground (arith, in_after x, x_in, new')),
      omega (arith, below),
    )
  ]

  IsClosed-node : IsClosed adj depth seed after (v ++ fresh v (adj node)) node
  IsClosed-node y edge = (
    ground (arith, in_after y, edge),
    omega (arith, after-le y, after-old node h.entries.0.0, h.entries.0.1.0),
  )

  IsClosed-old :
      (x : String)
      → contains x v ≡ true
      → IsClosed adj depth seed at v x
      → IsClosed adj depth seed after (v ++ fresh v (adj node)) x
  IsClosed-old x x_in closed y edge =
      let (y_in, le) = closed y edge in
      (ground (arith, in_after y, y_in), omega (arith, le, after-old x x_in, after-old y y_in))

  abbrev IsSettled : String → Type 0
  IsSettled x =
      (queued x (rest ++ at_depth (d + 1) (fresh v (adj node))) ≡ true)
      ⊎ ((depth ≤ after x) ⊎ IsClosed adj depth seed after (v ++ fresh v (adj node)) x)

  closed-after : (x : String) → contains x (v ++ fresh v (adj node)) ≡ true → IsSettled x
  closed-after x x_in = elim (Bool-cases (contains x v)) [
    | inr new' ↦ inl (
        queued-append x rest (at_depth (d + 1) (fresh v (adj node)))
        ∙ ground (
          arith,
          queued-at_depth x (d + 1) (fresh v (adj node)),
          contains-append x v (fresh v (adj node)),
          x_in,
          new',
        ))
    | inl old ↦ elim (h.closed x old) [
      | inr (inl full) ↦ inr (inl (omega (arith, full, after-old x old)))
      | inr (inr closed) ↦ inr (inr (IsClosed-old x old closed))
      | inl in_queue ↦ elim (Bool-cases (x == node)) [
        | inl same ↦ inr (inr (rw ((eq_iff x node).0 same) IsClosed-node))
        | inr apart ↦ inl (
            queued-append x rest (at_depth (d + 1) (fresh v (adj node)))
            ∙ ground (arith, in_queue, apart))
      ]
    ]
  ]

  pub visit-IsSearch :
      IsSearch adj depth seed after
        (v ++ fresh v (adj node))
        (rest ++ at_depth (d + 1) (fresh v (adj node)))
  visit-IsSearch = record {
    seed_in = ground (arith, in_after seed, h.seed_in);
    seed_at = after-old seed h.seed_in ∙ h.seed_at;
    entries =
        All-append (IsEntry after (v ++ fresh v (adj node))) rest
          (at_depth (d + 1) (fresh v (adj node)))
          (All-imp _ _ rest IsEntry-after
            (both (IsEntry at v) (λ (p : String × ℕ). d ≤ p.1) rest h.entries.1 h.ordered.0))
          (All-at_depth (IsEntry after (v ++ fresh v (adj node))) (d + 1) (fresh v (adj node))
            IsEntry-new);
    ordered =
        IsSorted-append (d + 1) rest (fresh v (adj node)) h.ordered.1
          (All-imp _ _ rest entry-le h.entries.1);
    sound = sound-after;
    closed = closed-after;
  }
