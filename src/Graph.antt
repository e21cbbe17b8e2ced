-- ===== src/Graph.antt =====
-- libs/graph/builder.py: the graph of relations. `pagerank` and its cache are not modelled. Python
-- leaves the order of a set open; here a set is a list in the order in which it was filled.
pub mod Relations
pub mod Fresh
pub mod Walks
mod Tests
use lv_dcp.Base.{
  ℕ, zero, suc, ◌+◌, String, ◌==◌, Bool, true, false, not, ◌&&◌, ◌||◌, Option, none, some, List, [],
  ◌∷◌, ◌++◌, leb, keep, contains, Dict, get, put, keys, is_some, length, if◌then◌else◌,
}

-- A relation, with the fields that the graph reads.
pub record Relation : Type 0 where
  pub src_ref : String
  pub dst_ref : String

pub record Graph : Type 0 where
  pub fwd : Dict (List String)
  pub rev : Dict (List String)
  pub relation_count : ℕ

abbrev pub empty_graph : Graph
empty_graph = record { fwd = []; rev = []; relation_count = 0 }

-- adj.get(node, set())
abbrev pub or_no_nodes : Option (List String) → List String
or_no_nodes none = []
or_no_nodes (some nodes) = nodes

abbrev pub nodes_at : Dict (List String) → String → List String
nodes_at adj node = or_no_nodes (get node adj)

abbrev pub add_node : String → List String → List String
add_node node nodes = if contains node nodes then nodes else nodes ++ node ∷ []

-- adj[a].add(b) of a defaultdict(set)
abbrev pub link : String → String → Dict (List String) → Dict (List String)
link a b adj = put a (add_node b (nodes_at adj a)) adj

unfoldable pub add_relation : Relation → Graph → Graph
add_relation r g = record {
  fwd = link r.src_ref r.dst_ref g.fwd;
  rev = link r.dst_ref r.src_ref g.rev;
  relation_count = g.relation_count + 1;
}

unfoldable pub add_relations : List Relation → Graph → Graph
add_relations [] g = g
add_relations (r ∷ rs) g = add_relations rs (add_relation r g)

unfoldable pub neighbors : Graph → String → List String
neighbors g node = nodes_at g.fwd node

unfoldable pub reverse_neighbors : Graph → String → List String
reverse_neighbors g node = nodes_at g.rev node

unfoldable pub has_node : Graph → String → Bool
has_node g name = contains name (keys g.fwd) || contains name (keys g.rev)

-- The visited nodes and the frontier, a queue of nodes with their depths.
abbrev pub Search : Type 0
Search = List String × List (String × ℕ)

abbrev pub visit : ℕ → String → Search → Search
visit d nxt (visited, frontier) =
    if contains nxt visited
    then (visited, frontier)
    else (visited ++ nxt ∷ [], frontier ++ (nxt, d + 1) ∷ [])

-- for nxt in adj.get(node, set())
abbrev pub visit_all : ℕ → List String → Search → Search
visit_all d [] s = s
visit_all d (nxt ∷ rest) s = visit_all d rest (visit d nxt s)

module _ (adj : String → List String) (depth : ℕ) where
  -- The body of the loop, for the head of the queue.
  abbrev pub search_step : String → ℕ → List String → List (String × ℕ) → Search
  search_step node d visited rest =
      if leb depth d then (visited, rest) else visit_all d (adj node) (visited, rest)

  -- while frontier: ..., on fuel.
  unfoldable pub search : ℕ → Search → List String
  search zero (visited, frontier) = visited
  search (suc fuel) (visited, []) = visited
  search (suc fuel) (visited, (node, d) ∷ rest) = search fuel (search_step node d visited rest)

-- Every node that some edge leads to: no other node but the seed is ever visited.
abbrev pub targets : Dict (List String) → List String
targets [] = []
targets ((a, bs) ∷ adj) = bs ++ targets adj

abbrev pub adjacency : Graph → Bool → Dict (List String)
adjacency g true = g.rev
adjacency g false = g.fwd

-- Each node enters the queue once, so that a turn for each target and one for the seed are enough.
unfoldable pub expand : Graph → String → ℕ → Bool → List String
expand g seed depth reverse =
    let adj = adjacency g reverse in
    search (nodes_at adj) depth (suc (length (targets adj))) (seed ∷ [], (seed, 0) ∷ [])
