-- ===== src/Graph/Tests.antt =====
-- Runs of the graph, and its theorems at them.
use lv_dcp.Base.{String, ◌≡◌, refl, true, false, List, [], ◌∷◌, contains, ◌↔◌}
use lv_dcp.Graph.{
  Relation, Graph, empty_graph, nodes_at, add_relation, add_relations, neighbors, reverse_neighbors,
  adjacency, search, expand,
}
use lv_dcp.Graph.Relations.{add_relations-related}
use lv_dcp.Graph.Walks.Reach.{IsWithin, expand-exact}

abbrev edge : String → String → Relation
edge a b = record { src_ref = a; dst_ref = b }

-- A cycle of three nodes, and a way out of it.
abbrev relations : List Relation
relations = edge "a" "b" ∷ edge "b" "c" ∷ edge "c" "a" ∷ edge "c" "d" ∷ edge "a" "b" ∷ []

abbrev graph : Graph
graph = add_relations relations empty_graph

test_expand : expand graph "a" 2 false ≡ "a" ∷ "b" ∷ "c" ∷ []
unfolding expand search add_relations add_relation
test_expand = refl

test_reverse : expand graph "d" 5 true ≡ "d" ∷ "c" ∷ "b" ∷ "a" ∷ []
unfolding expand search add_relations add_relation
test_reverse = refl

expand-exact_example :
    (contains "c" (expand graph "a" 2 false) ≡ true)
    ↔ IsWithin (nodes_at (adjacency graph false)) 2 "a" "c"
expand-exact_example = expand-exact graph "a" 2 false "c"

add_relations-related_example :
    (contains "d" (neighbors graph "c") ≡ true)
    × ((contains "c" (reverse_neighbors graph "d") ≡ true) × (graph.relation_count ≡ 5))
add_relations-related_example = add_relations-related relations "c" "d"
