-- ===== src/Impact/Edges.antt =====
-- The file dependencies that the relations make.
use lv_dcp.Base.{
  String, ◌==◌, eq_iff, ◌≡◌, refl, ◌∙◌, ap, Bool, true, false, not, ◌&&◌, ◌||◌, List, [], ◌∷◌,
  arith, any, contains, Dict, if◌then◌else◌, Bool-cases, inl, inr,
}
use lv_dcp.Graph.{nodes_at, link}
use lv_dcp.Graph.Relations.{contains-link}
use lv_dcp.Impact.{
  Relation, definers_of, importers_of, add_dependents, dependents_of, build_file_dep_map,
}

-- `y` is to be recompiled with `x`: it imports a symbol that `x` defines, and is another file.
abbrev pub depends : String → String → Dict (List String) → Dict String → Bool
depends x y importers =
    any (λ (p : String × String). x == p.1 && (contains y (nodes_at importers p.0) && not (y == x)))

or_assoc : (a b c : Bool) → ((a || b) || c) ≡ (a || (b || c))
or_assoc true b c = refl
or_assoc false b c = refl

contains-link_if :
    (x y importer definer : String) (map : Dict (List String))
    → contains y (nodes_at (if importer == definer then map else link definer importer map) x)
      ≡ (contains y (nodes_at map x) || (x == definer && (y == importer && not (y == definer))))
contains-link_if x y importer definer map = elim (Bool-cases (importer == definer)) [
  | inl same ↦
      rw same (ground (arith, same, eq_iff importer definer, eq_iff y importer, eq_iff y definer))
  | inr apart ↦ rw apart (
      contains-link x y definer importer map
      ∙ ground (arith, apart, eq_iff importer definer, eq_iff y importer, eq_iff y definer))
]

contains-add_dependents :
    (x y definer : String) (ys : List String) (map : Dict (List String))
    → contains y (nodes_at (add_dependents definer ys map) x)
      ≡ (contains y (nodes_at map x) || (x == definer && (contains y ys && not (y == x))))
contains-add_dependents x y definer [] map = ground arith
contains-add_dependents x y definer (importer ∷ ys) map =
    contains-add_dependents x y definer ys _
    ∙ ap (λ b. b || (x == definer && (contains y ys && not (y == x))))
        (contains-link_if x y importer definer map)
    ∙ ground (arith, eq_iff x definer)

contains-dependents_of :
    (x y : String) (definers : Dict String) (importers map : Dict (List String))
    → contains y (nodes_at (dependents_of definers importers map) x)
      ≡ (contains y (nodes_at map x) || depends x y importers definers)
contains-dependents_of x y [] importers map = ground arith
contains-dependents_of x y ((sym', definer) ∷ rest) importers map =
    contains-dependents_of x y rest importers _
    ∙ ap (λ b. b || depends x y importers rest)
        (contains-add_dependents x y definer (nodes_at importers sym') map)
    ∙ or_assoc (contains y (nodes_at map x))
        (x == definer && (contains y (nodes_at importers sym') && not (y == x)))
        (depends x y importers rest)

-- A file depends on another just if it imports some symbol whose last definer is the other one.
pub build_file_dep_map-depends :
    (relations : List Relation) (x y : String)
    → contains y (nodes_at (build_file_dep_map relations) x)
      ≡ depends x y (importers_of relations []) (definers_of relations [])
unfolding build_file_dep_map
build_file_dep_map-depends relations x y =
    contains-dependents_of x y (definers_of relations []) (importers_of relations []) []

depends_self :
    (x : String) (importers : Dict (List String)) (definers : Dict String)
    → depends x x importers definers ≡ false
depends_self x importers [] = refl
depends_self x importers (p ∷ definers) =
    ground (arith, eq_iff x x, depends_self x importers definers)

-- No file depends on itself.
pub build_file_dep_map_self :
    (relations : List Relation) (x : String)
    → contains x (nodes_at (build_file_dep_map relations) x) ≡ false
build_file_dep_map_self relations x =
    build_file_dep_map-depends relations x x
    ∙ depends_self x (importers_of relations []) (definers_of relations [])
