-- ===== src/Wiki/Lint.antt =====
-- libs/wiki/lint.py: the checks of a project's wiki that need no language model. A set is the list
-- of its members without repetition; what the disk holds is given: the articles with their sizes
-- and the lines of INDEX.md, none where there is no file or it cannot be read.
pub mod Clean
mod Tests
use Prim.Native.Char.{Char}
use Prim.Native.String
use lv_dcp.Base.{
  ℕ, String, ◌==◌, Bool, false, not, ◌&&◌, Option, none, some, List, [], ◌∷◌, ◌++◌, map, keep, ltb,
  if◌then◌else◌, contains, distinct, drop_chars, starts_with, is_inside,
}
use lv_dcp.Wiki.{WikiRow, is_dirty, get_all_modules, module_of, flatten_path}

pub data Severity : Type 0 where
  warning : Severity
  error : Severity

pub record LintIssue : Type 0 where
  pub severity : Severity
  pub module_path : String
  pub message : String

-- A file of modules/, by its name without ".md".
pub record Article : Type 0 where
  pub stem : String
  pub size : ℕ

-- What is read from cache.db: the table wiki_state and the paths of the table files.
pub record Cache : Type 0 where
  pub wiki_rows : List WikiRow
  pub paths : List String

abbrev pub stems : List Article → List String
stems = map (λ a. a.stem)

unfoldable pub modules_with_files : List String → List String
unfolding distinct module_of
modules_with_files paths = distinct (map module_of paths)

-- .+?\) at the start of the text
unfoldable pub some_then_paren : String → Bool
unfolding is_inside
some_then_paren String.[] = false
some_then_paren (String.◌∷◌ c s) = is_inside ")" s

-- \]\(modules/.+?\) at the start of the text
unfoldable pub is_link_end : String → Bool
unfolding starts_with drop_chars some_then_paren
is_link_end s = starts_with "](modules/" s && some_then_paren (drop_chars 10 s)

abbrev pub grow_name : Char → Option String → Option String
grow_name c none = none
grow_name c (some name) = some (String.◌∷◌ c name)

-- (.+?) up to the first end of a link: at least one character, and as few as there can be.
unfoldable pub link_name : String → Option String
unfolding is_link_end
link_name String.[] = none
link_name (String.◌∷◌ c s) =
    let rest = link_name s in
    if is_link_end s then some (String.◌∷◌ c String.[]) else grow_name c rest

-- re.match(r"^- \[(.+?)\]\(modules/.+?\)", line)
unfoldable pub entry_of_line : String → Option String
unfolding starts_with drop_chars link_name
entry_of_line line = if starts_with "- [" line then link_name (drop_chars 3 line) else none

abbrev pub or_skip : Option String → List String → List String
or_skip none entries = entries
or_skip (some name) entries = name ∷ entries

unfoldable pub names_of_lines : List String → List String
unfolding entry_of_line
names_of_lines [] = []
names_of_lines (line ∷ lines) = or_skip (entry_of_line line) (names_of_lines lines)

unfoldable pub index_entries : List String → List String
unfolding distinct names_of_lines
index_entries lines = distinct (names_of_lines lines)

abbrev pub issues {ℓ} : {A : Type ℓ} → Severity → String → (A → String) → List A → List LintIssue
issues severity message path_of =
    map λ a. record { severity = severity; module_path = path_of a; message = message }

-- The keys that are not in the set, as `f` spells them there.
abbrev pub missing_from : List String → (String → String) → List String → List String
missing_from names f = keep λ k. not (contains (f k) names)

abbrev pub is_small : Article → Bool
is_small a = ltb a.size 50

unfoldable pub lint_cache : Cache → List Article → List String → List LintIssue
unfolding modules_with_files flatten_path index_entries
lint_cache cache articles lines =
    let modules = modules_with_files cache.paths in
    let on_disk = stems articles in
    let entries = index_entries lines in
    issues warning "Orphaned article: no source files found for this module." (λ s. s)
      (missing_from (map flatten_path modules) (λ s. s) on_disk)
    ++ (issues warning "Missing article: module has source files but no wiki article." (λ s. s)
          (missing_from on_disk flatten_path modules)
        ++ (issues warning "Stale article: source changed since last generation."
              (λ m. m.module_path) (keep is_dirty (get_all_modules cache.wiki_rows))
            ++ (issues error "Empty article: file is less than 50 bytes." (λ a. a.stem)
                  (keep is_small articles)
                ++ (issues warning
                      "INDEX mismatch: article exists in modules/ but not listed in INDEX.md."
                      (λ s. s) (missing_from entries (λ s. s) on_disk)
                    ++ issues warning
                        "INDEX mismatch: listed in INDEX.md but no article file found." (λ s. s)
                        (missing_from on_disk (λ s. s) entries)))))

unfoldable pub lint_wiki : Option Cache → List Article → List String → List LintIssue
unfolding lint_cache
lint_wiki none articles lines =
    record {
      severity = error;
      module_path = "(project)";
      message = "No cache.db found. Run `ctx scan` first.";
    }
    ∷ []
lint_wiki (some cache) articles lines = lint_cache cache articles lines
