-- ===== src/Graph/Relations.antt =====
-- What a graph knows of the relations that were added.
use lv_dcp.Base.{
  contains-append, ◌+◌, String, ◌==◌, eq_iff, ◌≡◌, refl, sym, ◌∙◌, ap, Bool, true, false, ◌&&◌,
  ◌||◌, List, [], ◌∷◌, arith, any, contains, Dict, put, get-put, length, if◌then◌else◌, Bool-cases,
  inl, inr,
}
use lv_dcp.Graph.{
  Relation, Graph, empty_graph, nodes_at, add_node, link, add_relation, add_relations, neighbors,
  reverse_neighbors,
}

contains-add_node :
    (y b : String) (nodes : List String)
    → contains y (add_node b nodes) ≡ (contains y nodes || y == b)
contains-add_node y b nodes = ground (arith, contains-append y nodes (b ∷ []), eq_iff y b)

nodes_at-put :
    (x a : String) (nodes : List String) (adj : Dict (List String))
    → nodes_at (put a nodes adj) x ≡ (if x == a then nodes else nodes_at adj x)
nodes_at-put x a nodes adj = elim (Bool-cases (x == a)) [
  | inl same ↦ rw (get-put x a nodes adj, same) refl
  | inr apart ↦ rw (get-put x a nodes adj, apart) refl
]

pub contains-link :
    (x y a b : String) (adj : Dict (List String))
    → contains y (nodes_at (link a b adj) x) ≡ (contains y (nodes_at adj x) || (x == a && y == b))
contains-link x y a b adj =
    ap (contains y) (nodes_at-put x a (add_node b (nodes_at adj a)) adj)
    ∙ elim (Bool-cases (x == a)) [
      | inl same ↦ rw same (
          contains-add_node y b (nodes_at adj a)
          ∙ ap (λ k. contains y (nodes_at adj k) || y == b) (sym ((eq_iff x a).0 same)))
      | inr apart ↦ rw apart (ground arith)
    ]

-- Whether some relation leads from `x` to `y`.
abbrev pub related : String → String → List Relation → Bool
related x y = any (λ (r : Relation). x == r.src_ref && y == r.dst_ref)

or_assoc : (a b c : Bool) → ((a || b) || c) ≡ (a || (b || c))
or_assoc true b c = refl
or_assoc false b c = refl

module _ (x y : String) where
  fwd-add_relations :
      (rs : List Relation) (g : Graph)
      → contains y (nodes_at (add_relations rs g).fwd x)
        ≡ (contains y (nodes_at g.fwd x) || related x y rs)
  unfolding add_relations add_relation
  fwd-add_relations [] g = ground arith
  fwd-add_relations (r ∷ rs) g =
      fwd-add_relations rs (add_relation r g)
      ∙ ap (λ b. b || related x y rs) (contains-link x y r.src_ref r.dst_ref g.fwd)
      ∙ or_assoc (contains y (nodes_at g.fwd x)) (x == r.src_ref && y == r.dst_ref) (related x y rs)

  rev-add_relations :
      (rs : List Relation) (g : Graph)
      → contains x (nodes_at (add_relations rs g).rev y)
        ≡ (contains x (nodes_at g.rev y) || related x y rs)
  unfolding add_relations add_relation
  rev-add_relations [] g = ground arith
  rev-add_relations (r ∷ rs) g =
      rev-add_relations rs (add_relation r g)
      ∙ ap (λ b. b || related x y rs)
          (contains-link y x r.dst_ref r.src_ref g.rev
            ∙ ap (λ b. contains x (nodes_at g.rev y) || b) (ground arith))
      ∙ or_assoc (contains x (nodes_at g.rev y)) (x == r.src_ref && y == r.dst_ref) (related x y rs)

count-add_relations :
    (rs : List Relation) (g : Graph)
    → (add_relations rs g).relation_count ≡ g.relation_count + length rs
unfolding add_relations add_relation
count-add_relations [] g = omega arith
count-add_relations (r ∷ rs) g = omega (arith, count-add_relations rs (add_relation r g))

-- In a graph of relations, `y` is a neighbor of `x`, and `x` a reverse neighbor of `y`, just if
-- some relation leads from `x` to `y`; the count is the number of relations, repeated ones too.
pub add_relations-related :
    (rs : List Relation) (x y : String)
    → let g = add_relations rs empty_graph in
      (contains y (neighbors g x) ≡ related x y rs)
      × ((contains x (reverse_neighbors g y) ≡ related x y rs) × (g.relation_count ≡ length rs))
unfolding neighbors reverse_neighbors
add_relations-related rs x y = (
  fwd-add_relations x y rs empty_graph,
  (rev-add_relations x y rs empty_graph, omega (arith, count-add_relations rs empty_graph)),
)
