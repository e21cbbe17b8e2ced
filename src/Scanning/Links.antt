-- ===== src/Scanning/Links.antt =====
-- libs/parsers/docs_linker.py: the links from documents to the files that they name. What the two
-- patterns find in a text is given, each in the order of the text; `one` is 1.0.
use Prim.Native.Char.{code}
use Prim.Native.Nat.{compare, Ordering}
use Prim.Native.String
use lv_dcp.Base.{
  ℕ, String, ◌==◌, eq_iff, ◌≡◌, Bool, true, false, not, ◌&&◌, List, [], ◌∷◌, ◌++◌, map, any, arith,
  All, All-append, All-imp, contains, if◌then◌else◌,
}
use lv_dcp.Storage.{Relation}

-- mod.replace(".", "/")
unfoldable pub dots_to_slashes : String → String
dots_to_slashes String.[] = String.[]
dots_to_slashes (String.◌∷◌ c s) =
    let rest = dots_to_slashes s in
    elim (compare (code c) b'.') [ Ordering.eq ↦ String.◌++◌ "/" rest | _ ↦ String.◌∷◌ c rest ]

-- mod.replace(".", "/") + ".py"
unfoldable pub module_path : String → String
unfolding dots_to_slashes
module_path name = String.◌++◌ (dots_to_slashes name) ".py"

module _ (one : ℕ) (file_refs module_refs : String → List String) where
  abbrev pub specifies : String → String → Relation
  specifies doc_path ref = record {
    src_type = "file";
    src_ref = doc_path;
    dst_type = "file";
    dst_ref = ref;
    relation_type = "specifies";
    confidence = one;
    provenance = "docs_linker";
  }

  -- (doc_path, ref) in seen: each pair that was seen has its relation.
  abbrev pub is_seen : String → String → List Relation → Bool
  is_seen doc_path ref = any λ (r : Relation). r.src_ref == doc_path && r.dst_ref == ref

  -- One match.
  abbrev pub link_ref : List String → String → String → List Relation → List Relation
  link_ref known doc_path ref relations =
      if contains ref known && (not (ref == doc_path) && not (is_seen doc_path ref relations))
      then relations ++ specifies doc_path ref ∷ []
      else relations

  abbrev pub link_refs : List String → String → List String → List Relation → List Relation
  link_refs known doc_path [] relations = relations
  link_refs known doc_path (ref ∷ refs) relations =
      link_refs known doc_path refs (link_ref known doc_path ref relations)

  abbrev pub link_all : List String → List (String × String) → List Relation → List Relation
  link_all known [] relations = relations
  link_all known ((doc_path, content) ∷ docs) relations = link_all known docs (
      link_refs known doc_path (map module_path (module_refs content))
        (link_refs known doc_path (file_refs content) relations))

  unfoldable pub extract_specifies_relations : List (String × String) → List String → List Relation
  unfolding module_path
  extract_specifies_relations docs known = link_all known docs []

-- The sources of the links are among the documents.
abbrev pub LinksOwn : (List (String × String) → List String → List Relation) → Type 0
LinksOwn extract =
    (docs : List (String × String)) (known : List String)
    → All (λ (r : Relation). contains r.src_ref (map (λ d. d.0) docs) ≡ true) (extract docs known)

module _ (one : ℕ) (file_refs module_refs : String → List String) (names : List String) where
  abbrev IsOwn : Relation → Type 0
  IsOwn r = contains r.src_ref names ≡ true

  link_refs-IsOwn :
      (known : List String) (doc_path : String) (refs : List String) (relations : List Relation)
      → contains doc_path names ≡ true
      → All IsOwn relations
      → All IsOwn (link_refs one file_refs module_refs known doc_path refs relations)
  link_refs-IsOwn known doc_path [] relations here own = own
  link_refs-IsOwn known doc_path (ref ∷ refs) relations here own =
      link_refs-IsOwn known doc_path refs _ here (
        link_ref-IsOwn (
          contains ref known
          && (not (ref == doc_path)
              && not (is_seen one file_refs module_refs doc_path ref relations))))
    where
      link_ref-IsOwn :
          (b : Bool)
          → All IsOwn (
              if b
              then relations ++ specifies one file_refs module_refs doc_path ref ∷ []
              else relations)
      link_ref-IsOwn true =
          All-append IsOwn relations (specifies one file_refs module_refs doc_path ref ∷ []) own
            (here, tt)
      link_ref-IsOwn false = own

  link_all-IsOwn :
      (known : List String) (docs : List (String × String)) (relations : List Relation)
      → All (λ (d : String × String). contains d.0 names ≡ true) docs
      → All IsOwn relations
      → All IsOwn (link_all one file_refs module_refs known docs relations)
  link_all-IsOwn known [] relations here own = own
  link_all-IsOwn known ((doc_path, content) ∷ docs) relations here own =
      link_all-IsOwn known docs _ here.1 (
        link_refs-IsOwn known doc_path (map module_path (module_refs content)) _ here.0
          (link_refs-IsOwn known doc_path (file_refs content) relations here.0 own))

own_names :
    (docs : List (String × String))
    → All (λ (d : String × String). contains d.0 (map (λ d. d.0) docs) ≡ true) docs
own_names [] = tt
own_names (d ∷ docs) = (
  ground (arith, eq_iff d.0 d.0),
  All-imp (λ (e : String × String). contains e.0 (map (λ d. d.0) docs) ≡ true)
      (λ (e : String × String). contains e.0 (map (λ d. d.0) (d ∷ docs)) ≡ true) docs
      (λ e h. ground (arith, h)) (own_names docs),
)

-- The links that are extracted start at the documents, whatever the patterns find.
pub extract_specifies_relations-LinksOwn :
    (one : ℕ) (file_refs module_refs : String → List String)
    → LinksOwn (extract_specifies_relations one file_refs module_refs)
unfolding extract_specifies_relations
extract_specifies_relations-LinksOwn one file_refs module_refs docs known =
    link_all-IsOwn one file_refs module_refs (map (λ d. d.0) docs) known docs [] (own_names docs) tt
