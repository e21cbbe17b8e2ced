-- ===== src/Impact.antt =====
-- libs/impact/analyzer.py: which files depend on a file, by the symbols that it defines and they
-- import. A set is a list in the order in which it was filled.
pub mod Edges
pub mod Dependents
mod Tests
use Prim.Native.Nat.{max}
use lv_dcp.Base.{
  starts_with, is_inside, ℕ, zero, suc, ◌+◌, ◌*◌, String, ◌==◌, Bool, true, false, not, ◌&&◌, ◌||◌,
  Option, none, some, List, [], ◌∷◌, ◌++◌, leb, ltb, keep, contains, sorted, Dict, get, put, keys,
  length, if◌then◌else◌,
}
use lv_dcp.Graph.{Search, nodes_at, add_node, link, visit, targets}
use lv_dcp.Graph.Fresh.{at_depth}

-- The two kinds that are told apart here, and every other one.
pub data RelationType : Type 0 where
  defines imports other : RelationType

pub record Relation : Type 0 where
  pub src_type : String
  pub src_ref : String
  pub dst_ref : String
  pub relation_type : RelationType

-- The bodies of the first loop, for the two maps.
abbrev pub add_definer : Relation → RelationType → Dict String → Dict String
add_definer r defines definers =
    if r.src_type == "file" then put r.dst_ref r.src_ref definers else definers
add_definer r _ definers = definers

abbrev pub add_importer : Relation → RelationType → Dict (List String) → Dict (List String)
add_importer r imports importers =
    if r.src_type == "file" then link r.dst_ref r.src_ref importers else importers
add_importer r _ importers = importers

-- `file_imports_symbols` of `_build_imports_map`
abbrev pub add_import : Relation → RelationType → Dict (List String) → Dict (List String)
add_import r imports files = if r.src_type == "file" then link r.src_ref r.dst_ref files else files
add_import r _ files = files

abbrev pub definers_of : List Relation → Dict String → Dict String
definers_of [] definers = definers
definers_of (r ∷ rs) definers = definers_of rs (add_definer r r.relation_type definers)

abbrev pub importers_of : List Relation → Dict (List String) → Dict (List String)
importers_of [] importers = importers
importers_of (r ∷ rs) importers = importers_of rs (add_importer r r.relation_type importers)

abbrev pub imports_of : List Relation → Dict (List String) → Dict (List String)
imports_of [] files = files
imports_of (r ∷ rs) files = imports_of rs (add_import r r.relation_type files)

-- `if importer != definer: dependents_map[definer].add(importer)`
abbrev pub add_dependents : String → List String → Dict (List String) → Dict (List String)
add_dependents definer [] map = map
add_dependents definer (importer ∷ rest) map =
    add_dependents definer rest (if importer == definer then map else link definer importer map)

abbrev pub dependents_of :
    Dict String → Dict (List String) → Dict (List String) → Dict (List String)
dependents_of [] importers map = map
dependents_of ((sym, definer) ∷ rest) importers map =
    dependents_of rest importers (add_dependents definer (nodes_at importers sym) map)

unfoldable pub build_file_dep_map : List Relation → Dict (List String)
build_file_dep_map relations =
    dependents_of (definers_of relations []) (importers_of relations []) []

-- `if definer and definer != file: imports_map[file].add(definer)`
abbrev pub add_definers :
    String → Dict String → List String → Dict (List String) → Dict (List String)
add_definers file definers [] map = map
add_definers file definers (sym ∷ syms) map =
    add_definers file definers syms (elim (get sym definers) [
      | none ↦ map
      | some definer ↦ if definer == "" || definer == file then map else link file definer map
    ])

abbrev pub imports_from : Dict (List String) → Dict String → Dict (List String) → Dict (List String)
imports_from [] definers map = map
imports_from ((file, syms) ∷ rest) definers map =
    imports_from rest definers (add_definers file definers syms map)

unfoldable pub build_imports_map : List Relation → Dict (List String)
build_imports_map relations = imports_from (imports_of relations []) (definers_of relations []) []

abbrev pub is_test_role : Option String → Bool
is_test_role none = false
is_test_role (some role) = role == "test"

unfoldable pub is_test_file : Dict String → String → Bool
unfolding is_inside starts_with
is_test_file roles file =
    is_test_role (get file roles) || (is_inside "/test" file || starts_with "test" file)

-- The search with the list that it fills.
abbrev pub Hops : Type 0
Hops = Search × List String

abbrev pub hop : ℕ → String → Hops → Hops
hop d nxt (s, transitive) =
    if contains nxt s.0 then (s, transitive) else (visit d nxt s, transitive ++ nxt ∷ [])

abbrev pub hop_all : ℕ → List String → Hops → Hops
hop_all d [] h = h
hop_all d (nxt ∷ rest) h = hop_all d rest (hop d nxt h)

module _ (adj : String → List String) (max_depth : ℕ) where
  abbrev pub hop_step : String → ℕ → List String → List (String × ℕ) → List String → Hops
  hop_step node d visited rest transitive =
      if leb max_depth d
      then ((visited, rest), transitive)
      else hop_all d (adj node) ((visited, rest), transitive)

  -- while frontier: ..., on fuel.
  unfoldable pub hops : ℕ → Hops → List String
  hops zero (s, transitive) = transitive
  hops (suc fuel) ((visited, []), transitive) = transitive
  hops (suc fuel) ((visited, (node, d) ∷ rest), transitive) =
      hops fuel (hop_step node d visited rest transitive)

-- The two parts of the answer, before the sorting of the second.
abbrev pub direct_of : Dict (List String) → String → List String
direct_of dep_map target = sorted (nodes_at dep_map target)

unfoldable pub transitive_of : Dict (List String) → String → ℕ → List String
transitive_of dep_map target max_depth =
    let direct = direct_of dep_map target in
    if ltb 1 max_depth
    then hops (nodes_at dep_map) max_depth (length direct + length (targets dep_map))
        ((target ∷ direct, at_depth 1 direct), [])
    else []

-- A risk score is counted in tenths.
pub record ImpactReport : Type 0 where
  pub target : String
  pub direct_dependents : List String
  pub transitive_dependents : List String
  pub affected_tests : List String
  pub risk_score : ℕ

abbrev pub impact_of :
    String → Dict (List String) → Dict (List String) → Dict String → ℕ → ℕ → ImpactReport
impact_of target dep_map imports_map roles max_depth git_churn =
    let direct = direct_of dep_map target in
    let transitive = sorted (transitive_of dep_map target max_depth) in
    record {
      target = target;
      direct_dependents = direct;
      transitive_dependents = transitive;
      affected_tests =
          sorted
            (keep (is_test_file roles) (direct ++ keep (λ f. not (contains f direct)) transitive));
      risk_score = length direct * max 1 (length (nodes_at imports_map target)) * (10 + git_churn);
    }

unfoldable pub analyze_impact : String → Option (List Relation) → Dict String → ℕ → ℕ → ImpactReport
analyze_impact target none roles max_depth git_churn =
    impact_of target [] [] roles max_depth git_churn
analyze_impact target (some relations) roles max_depth git_churn =
    impact_of target (build_file_dep_map relations) (build_imports_map relations) roles max_depth
      git_churn
