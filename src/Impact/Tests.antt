-- ===== src/Impact/Tests.antt =====
-- Runs of the impact analysis, and its theorems at them.
use lv_dcp.Base.{
  String, ◌==◌, ◌≡◌, refl, true, false, ◌||◌, some, List, [], ◌∷◌, contains, sorted, ◌↔◌,
}
use lv_dcp.Graph.{nodes_at}
use lv_dcp.Graph.Walks.Reach.{IsWithin}
use lv_dcp.Impact.{
  RelationType, defines, imports, Relation, definers_of, importers_of, build_file_dep_map,
  build_imports_map, is_test_file, hops, transitive_of, analyze_impact,
}
use lv_dcp.Impact.Edges.{depends, build_file_dep_map-depends}
use lv_dcp.Impact.Dependents.Exact.{reach, analyze_impact-listed}

abbrev relation : RelationType → String → String → Relation
relation type file sym' = record {
  src_type = "file";
  src_ref = file;
  dst_ref = sym';
  relation_type = type;
}

-- `b.py` uses `a.py`, and a test uses `b.py`.
abbrev relations : List Relation
relations =
    relation defines "a.py" "a.f"
    ∷ relation imports "b.py" "a.f"
    ∷ relation defines "b.py" "b.g"
    ∷ relation imports "tests/test_b.py" "b.g"
    ∷ relation imports "b.py" "b.g"
    ∷ []

test_analyze_impact : analyze_impact "a.py" (some relations) [] 4 5 ≡ record {
  target = "a.py";
  direct_dependents = "b.py" ∷ [];
  transitive_dependents = "tests/test_b.py" ∷ [];
  affected_tests = "tests/test_b.py" ∷ [];
  risk_score = 15;
}
unfolding analyze_impact build_file_dep_map build_imports_map transitive_of hops sorted is_test_file
test_analyze_impact = refl

test_depends :
    contains "b.py" (nodes_at (build_file_dep_map relations) "a.py")
    ≡ depends "a.py" "b.py" (importers_of relations []) (definers_of relations [])
test_depends = build_file_dep_map-depends relations "a.py" "b.py"

analyze_impact-listed_example :
    ((contains "b.py" (analyze_impact "a.py" (some relations) [] 4 5).direct_dependents
        || contains "b.py" (analyze_impact "a.py" (some relations) [] 4 5).transitive_dependents)
      ≡ true)
    ↔ ((("b.py" == "a.py") ≡ false)
        × IsWithin (nodes_at (build_file_dep_map relations)) (reach 4) "a.py" "b.py")
analyze_impact-listed_example = analyze_impact-listed relations [] "a.py" 4 5 "b.py"
