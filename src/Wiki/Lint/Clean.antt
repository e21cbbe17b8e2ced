-- ===== src/Wiki/Lint/Clean.antt =====
-- When the checks of libs/wiki/lint.py find nothing.
use lv_dcp.Base.{
  String, ◌==◌, ◌≡◌, refl, ap, ◌∙◌, sym, true, some, List, [], ◌∷◌, ◌++◌, map, keep, inl, inr, ◌↔◌,
  Bool-cases, eq_iff, arith, contains, distinct, contains-distinct,
}
use lv_dcp.Wiki.{flatten_path, module_of, get_dirty_modules}
use lv_dcp.Wiki.Lint.{
  Severity, Article, Cache, stems, modules_with_files, index_entries, names_of_lines, issues,
  missing_from, is_small, lint_cache, lint_wiki,
}

-- The same set of texts.
abbrev pub IsSame : List String → List String → Type 0
IsSame xs ys = (s : String) → contains s xs ≡ contains s ys

-- Nothing is missing when every key is there.
missing_from-none :
    (names : List String) (f : String → String) (ks : List String)
    → ((s : String) → contains s (map f ks) ≡ true → contains s names ≡ true)
    → missing_from names f ks ≡ []
missing_from-none names f [] sub = refl
missing_from-none names f (k ∷ ks) sub = ground (
  arith,
  sub (f k) (ground (arith, eq_iff (f k) (f k))),
  missing_from-none names f ks λ s e. sub s (ground (arith, e)),
)

none-missing_from :
    (names : List String) (f : String → String) (ks : List String)
    → missing_from names f ks ≡ []
    → (s : String) → contains s (map f ks) ≡ true
    → contains s names ≡ true
none-missing_from names f [] nothing s e = ground (arith, e)
none-missing_from names f (k ∷ ks) nothing s e = elim (Bool-cases (contains (f k) names)) [
  | inl here ↦ elim (Bool-cases (s == f k)) [
    | inl same ↦ ground (arith, here, (eq_iff s (f k)).0 same)
    | inr other ↦
        none-missing_from names f ks (ground (arith, here, nothing)) s (ground (arith, other, e))
  ]
  | inr gone ↦ absurd (ground (arith, gone, nothing))
]

-- Two lists one after another are empty only when both are.
append-none {ℓ} : {A : Type ℓ} (xs ys : List A) → xs ++ ys ≡ [] → (xs ≡ []) × (ys ≡ [])
append-none [] ys e = (refl, e)
append-none (x ∷ xs) ys e = absurd (ground (arith, e))

issues-none {ℓ} :
    {A : Type ℓ} (severity : Severity) (message : String) (path_of : A → String) (xs : List A)
    → issues severity message path_of xs ≡ []
    → xs ≡ []
issues-none severity message path_of [] e = refl
issues-none severity message path_of (x ∷ xs) e = absurd (ground (arith, e))

-- What a wiki is when there is nothing to report of it.
abbrev pub IsClean : Cache → List Article → List String → Type 0
IsClean cache articles lines =
    IsSame (stems articles) (map flatten_path (map module_of cache.paths))
    × IsSame (stems articles) (names_of_lines lines)
    × (get_dirty_modules cache.wiki_rows ≡ [])
    × (keep is_small articles ≡ [])

map_id : (xs : List String) → map (λ s. s) xs ≡ xs
map_id [] = refl
map_id (x ∷ xs) = ap (λ ys. x ∷ ys) (map_id xs)

-- Each of two sets has what the other has.
both_ways :
    (xs ys : List String)
    → ((s : String) → contains s xs ≡ true → contains s ys ≡ true)
    → ((s : String) → contains s ys ≡ true → contains s xs ≡ true)
    → IsSame xs ys
both_ways xs ys to from s = elim (Bool-cases (contains s xs)) [
  | inl here ↦ here ∙ sym (to s here)
  | inr gone ↦ elim (Bool-cases (contains s ys)) [
    | inl there ↦ absurd (ground (arith, gone, from s there))
    | inr none_there ↦ gone ∙ sym none_there
  ]
]

-- A set's members, once the repetitions go, under a function.
contains-map-distinct :
    (f : String → String) (s : String) (xs : List String)
    → contains s (map f (distinct xs)) ≡ contains s (map f xs)
unfolding distinct
contains-map-distinct f s [] = refl
contains-map-distinct f s (x ∷ xs) = elim (Bool-cases (contains x (distinct xs))) [
  | inl here ↦ elim (Bool-cases (s == f x)) [
    | inl same ↦ ground (
      arith,
      here,
      same,
      contains-map-distinct f s xs,
      contains-map f s x (distinct xs) ((eq_iff s (f x)).0 same) here,
    )
    | inr other ↦ ground (arith, here, other, contains-map-distinct f s xs)
  ]
  | inr new ↦ ground (arith, new, contains-map-distinct f s xs)
]
  where
    contains-map :
        (f : String → String) (s x : String) (xs : List String)
        → s ≡ f x
        → contains x xs ≡ true
        → contains s (map f xs) ≡ true
    contains-map f s x [] e h = ground (arith, h)
    contains-map f s x (y ∷ xs) e h = elim (Bool-cases (x == y)) [
      | inl same ↦ ground (arith, eq_iff s (f y), e ∙ ap f ((eq_iff x y).0 same))
      | inr other ↦ ground (arith, contains-map f s x xs e (ground (arith, other, h)))
    ]

module _ (cache : Cache) (articles : List Article) (lines : List String) where
  -- The four checks of names, on one hand and on the other.
  names_missing :
      IsClean cache articles lines
      → (missing_from (map flatten_path (modules_with_files cache.paths)) (λ s. s) (stems articles)
          ≡ [])
        × (missing_from (stems articles) flatten_path (modules_with_files cache.paths) ≡ [])
        × (missing_from (index_entries lines) (λ s. s) (stems articles) ≡ [])
        × (missing_from (stems articles) (λ s. s) (index_entries lines) ≡ [])
  unfolding modules_with_files index_entries
  names_missing clean =
      let on_disk = stems articles in
      let listed = names_of_lines lines in
      let modules = map module_of cache.paths in
      (
        missing_from-none (map flatten_path (distinct modules)) (λ s. s) on_disk
            λ s e.
              contains-map-distinct flatten_path s modules
              ∙ sym (clean.0 s)
              ∙ sym (ap (contains s) (map_id on_disk))
              ∙ e,
        missing_from-none on_disk flatten_path (distinct modules)
            λ s e. clean.0 s ∙ sym (contains-map-distinct flatten_path s modules) ∙ e,
        missing_from-none (distinct listed) (λ s. s) on_disk
            λ s e.
              contains-distinct s listed
              ∙ sym (clean.1 s)
              ∙ sym (ap (contains s) (map_id on_disk))
              ∙ e,
        missing_from-none on_disk (λ s. s) (distinct listed)
            λ s e.
              clean.1 s
              ∙ sym (contains-map-distinct (λ s. s) s listed ∙ ap (contains s) (map_id listed))
              ∙ e,
      )

  missing_names :
      missing_from (map flatten_path (modules_with_files cache.paths)) (λ s. s) (stems articles)
        ≡ []
      → missing_from (stems articles) flatten_path (modules_with_files cache.paths) ≡ []
      → missing_from (index_entries lines) (λ s. s) (stems articles) ≡ []
      → missing_from (stems articles) (λ s. s) (index_entries lines) ≡ []
      → IsSame (stems articles) (map flatten_path (map module_of cache.paths))
        × IsSame (stems articles) (names_of_lines lines)
  unfolding modules_with_files index_entries
  missing_names orphaned missing unlisted dangling =
      let on_disk = stems articles in
      let listed = names_of_lines lines in
      let modules = map module_of cache.paths in
      (
        both_ways on_disk (map flatten_path modules)
            (λ s e.
              sym (contains-map-distinct flatten_path s modules)
              ∙ none-missing_from (map flatten_path (distinct modules)) (λ s. s) on_disk orphaned s
                  (ap (contains s) (map_id on_disk) ∙ e))
            (λ s e.
              none-missing_from on_disk flatten_path (distinct modules) missing s
                (contains-map-distinct flatten_path s modules ∙ e)),
        both_ways on_disk listed
            (λ s e.
              sym (contains-distinct s listed)
              ∙ none-missing_from (distinct listed) (λ s. s) on_disk unlisted s
                  (ap (contains s) (map_id on_disk) ∙ e))
            (λ s e.
              none-missing_from on_disk (λ s. s) (distinct listed) dangling s
                (contains-map-distinct (λ s. s) s listed ∙ ap (contains s) (map_id listed) ∙ e)),
      )

  -- The checks report nothing just when the articles on the disk are those of the modules that have
  -- files and those that the index lists, none is marked as out of date and none is under 50 bytes.
  -- The article of a module is named as `_to_stem` spells it: its path with "-" for each "/" and "\",
  -- so that a ".md" at its end is kept, which wiki_filename drops.
  pub lint_wiki-IsClean :
      (lint_wiki (some cache) articles lines ≡ []) ↔ IsClean cache articles lines
  unfolding lint_wiki lint_cache get_dirty_modules
  lint_wiki-IsClean = (to, from)
    where
      to : lint_wiki (some cache) articles lines ≡ [] → IsClean cache articles lines
      to e =
          let a = append-none _ _ e in
          let b = append-none _ _ a.1 in
          let c = append-none _ _ b.1 in
          let d = append-none _ _ c.1 in
          let f = append-none _ _ d.1 in
          let names =
            missing_names (issues-none _ _ _ _ a.0) (issues-none _ _ _ _ b.0)
              (issues-none _ _ _ _ f.0) (issues-none _ _ _ _ f.1) in
          (names.0, names.1, issues-none _ _ _ _ c.0, issues-none _ _ _ _ d.0)

      from : IsClean cache articles lines → lint_wiki (some cache) articles lines ≡ []
      from clean =
          let names = names_missing clean in
          ground (arith, names.0, names.1, names.2, names.3, clean.2, clean.3)
