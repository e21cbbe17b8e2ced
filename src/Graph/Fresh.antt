-- ===== src/Graph/Fresh.antt =====
-- What the inner loop of `expand` adds.
use mathlib.Core.List.{append-nil, append_assoc}
use lv_dcp.Base.{
  contains-append, ℕ, ◌+◌, ◌≤◌, String, ◌==◌, eq_iff, ◌≡◌, refl, sym, ◌∙◌, true, false, not, ◌&&◌,
  List, [], ◌∷◌, ◌++◌, arith, contains, count_if, length, if◌then◌else◌, Bool-cases, inl, inr,
}
use lv_dcp.Graph.{visit_all}

-- The nodes of a list that were not visited, each once, in the order in which they are met.
unfoldable pub fresh : List String → List String → List String
fresh visited [] = []
fresh visited (y ∷ ys) =
    if contains y visited then fresh visited ys else y ∷ fresh (visited ++ y ∷ []) ys

abbrev pub at_depth : ℕ → List String → List (String × ℕ)
at_depth d [] = []
at_depth d (y ∷ ys) = (y, d) ∷ at_depth d ys

pub visit_all-fresh :
    (d : ℕ) (ys visited : List String) (frontier : List (String × ℕ))
    → visit_all d ys (visited, frontier)
      ≡ (visited ++ fresh visited ys, frontier ++ at_depth (d + 1) (fresh visited ys))
unfolding fresh
visit_all-fresh d [] visited frontier = rw (append-nil visited, append-nil frontier) refl
visit_all-fresh d (y ∷ ys) visited frontier = elim (Bool-cases (contains y visited)) [
  | inl old ↦ rw old (visit_all-fresh d ys visited frontier)
  | inr new' ↦ rw new' (
      visit_all-fresh d ys (visited ++ y ∷ []) (frontier ++ (y, d + 1) ∷ [])
      ∙ rw
          (
            append_assoc visited (y ∷ []) (fresh (visited ++ y ∷ []) ys),
            append_assoc frontier ((y, d + 1) ∷ [])
                (at_depth (d + 1) (fresh (visited ++ y ∷ []) ys)),
          )
          refl)
]

pub contains-fresh :
    (k : String) (visited ys : List String)
    → contains k (fresh visited ys) ≡ (contains k ys && not (contains k visited))
unfolding fresh
contains-fresh k visited [] = refl
contains-fresh k visited (y ∷ ys) = elim (Bool-cases (contains y visited)) [
  | inl old ↦ ground (arith, old, contains-fresh k visited ys, eq_iff k y)
  | inr new' ↦ ground (
    arith,
    new',
    contains-fresh k (visited ++ y ∷ []) ys,
    contains-append k visited (y ∷ []),
    eq_iff k y,
  )
]

-- How many of the nodes of a list were not visited.
abbrev pub unvisited : List String → List String → ℕ
unvisited universe visited = count_if (λ u. not (contains u visited)) universe

unvisited-more :
    (universe visited : List String) (y : String)
    → unvisited universe (visited ++ y ∷ []) ≤ unvisited universe visited
unvisited-more [] visited y = omega arith
unvisited-more (u ∷ universe) visited y =
    ground (arith, unvisited-more universe visited y, contains-append u visited (y ∷ []))

unvisited-one :
    (universe visited : List String) (y : String)
    → contains y universe ≡ true
    → contains y visited ≡ false
    → 1 + unvisited universe (visited ++ y ∷ []) ≤ unvisited universe visited
unvisited-one [] visited y h n = ground (arith, h)
unvisited-one (u ∷ universe) visited y h n = elim (Bool-cases (y == u)) [
  | inl same ↦ ground (
    arith,
    n,
    same,
    eq_iff y u,
    eq_iff u y,
    contains-append u visited (y ∷ []),
    unvisited-more universe visited y,
  )
  | inr apart ↦ ground (
    arith,
    h,
    n,
    apart,
    eq_iff u y,
    contains-append u visited (y ∷ []),
    unvisited-one universe visited y,
  )
]

-- Each node that is added was among the unvisited ones before and is not after.
pub unvisited-fresh :
    (universe visited ys : List String)
    → ((y : String) → contains y ys ≡ true → contains y universe ≡ true)
    → length (fresh visited ys) + unvisited universe (visited ++ fresh visited ys)
      ≤ unvisited universe visited
unfolding fresh
unvisited-fresh universe visited [] inside = rw (append-nil visited) (omega arith)
unvisited-fresh universe visited (y ∷ ys) inside = elim (Bool-cases (contains y visited)) [
  | inl old ↦ rw old (unvisited-fresh universe visited ys (λ k h. inside k (ground (arith, h))))
  | inr new' ↦
      let more =
        unvisited-fresh universe (visited ++ y ∷ []) ys (λ k h. inside k (ground (arith, h))) in
      let one = unvisited-one universe visited y (inside y (ground (arith, eq_iff y y))) new' in
      let together = append_assoc visited (y ∷ []) (fresh (visited ++ y ∷ []) ys) in
      rw (new', sym together) (omega (arith, more, one))
]

pub length-at_depth : (d : ℕ) (ys : List String) → length (at_depth d ys) ≡ length ys
length-at_depth d [] = refl
length-at_depth d (y ∷ ys) = omega (arith, length-at_depth d ys)
