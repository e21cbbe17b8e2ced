-- ===== src/Wiki.antt =====
-- libs/wiki/state.py: which modules of a project have a wiki article that is out of date. The table
-- wiki_state is the list of its rows in the order of their rowids; the digest is a parameter.
pub mod Update
pub mod Again
pub mod Rows
pub mod Settled
pub mod Lint
mod Tests
use Prim.Native.Char.{Char, code}
use Prim.Native.Nat.{compare, Ordering}
use Prim.Native.String
use lv_dcp.Base.{
  ℕ, ◌+◌, ◌-◌, String, ◌==◌, Bool, true, false, not, Option, none, some, List, [], ◌∷◌, ◌++◌, keep,
  Dict, get, put, sorted, prefix, text_length, join_ended, split_on, ends_with, ◌||◌, if◌then◌else◌,
}

pub data ModuleStatus : Type 0 where
  dirty : ModuleStatus
  current : ModuleStatus

pub record WikiRow : Type 0 where
  pub module_path : String
  pub wiki_file : String
  pub last_generated_ts : ℕ
  pub source_hash : String
  pub status : ModuleStatus

-- A file of the project, as far as `update_dirty_state` reads it.
pub record SourceFile : Type 0 where
  pub path : String
  pub content_hash : String

unfoldable pub compute_module_hash : (String → String) → List String → String
unfolding sorted join_ended
compute_module_hash digest file_hashes = digest (join_ended "" (sorted file_hashes))

abbrev pub is_dirty_status : ModuleStatus → Bool
is_dirty_status dirty = true
is_dirty_status current = false

abbrev pub is_dirty : WikiRow → Bool
is_dirty row = is_dirty_status row.status

unfoldable pub get_dirty_modules : List WikiRow → List WikiRow
get_dirty_modules = keep is_dirty

abbrev pub get_all_modules : List WikiRow → List WikiRow
get_all_modules rows = rows

-- A separator of either kind becomes "-".
unfoldable pub flatten_path : String → String
flatten_path String.[] = String.[]
flatten_path (String.◌∷◌ c s) =
    let rest = flatten_path s in
    elim (compare (code c) 47) [
      | Ordering.eq ↦ String.◌++◌ "-" rest
      | _ ↦ elim (compare (code c) 92) [
        | Ordering.eq ↦ String.◌++◌ "-" rest
        | _ ↦ String.◌∷◌ c rest
      ]
    ]

-- s.lower().endswith(".md")
unfoldable pub has_md : String → Bool
unfolding ends_with
has_md s = ends_with ".md" s || (ends_with ".MD" s || (ends_with ".Md" s || ends_with ".mD" s))

unfoldable pub wiki_filename : String → String
unfolding flatten_path has_md text_length prefix
wiki_filename module_path =
    let safe_name = flatten_path module_path in
    let stem =
      if has_md safe_name then prefix (text_length safe_name - 3) safe_name else safe_name in
    String.◌++◌ "modules/" (String.◌++◌ stem ".md")

-- INSERT OR REPLACE: the row of the same path goes, and the new one gets the last rowid.
abbrev pub replace_row : WikiRow → List WikiRow → List WikiRow
replace_row row rows = keep (λ r. not (r.module_path == row.module_path)) rows ++ (row ∷ [])

abbrev pub dirty_row : String → String → WikiRow
dirty_row module_path source_hash = record {
  module_path = module_path;
  wiki_file = wiki_filename module_path;
  last_generated_ts = 0;
  source_hash = source_hash;
  status = dirty;
}

unfoldable pub mark_dirty : String → String → List WikiRow → List WikiRow
mark_dirty module_path source_hash = replace_row (dirty_row module_path source_hash)

abbrev pub current_row : String → String → String → ℕ → WikiRow
current_row module_path wiki_file source_hash now = record {
  module_path = module_path;
  wiki_file = wiki_file;
  last_generated_ts = now;
  source_hash = source_hash;
  status = current;
}

unfoldable pub mark_current : String → String → String → ℕ → List WikiRow → List WikiRow
mark_current module_path wiki_file source_hash now =
    replace_row (current_row module_path wiki_file source_hash now)

-- "/".join(parts[:2]) for two parts or more, and else the one part.
abbrev pub module_of_parts : List String → String
module_of_parts [] = ""
module_of_parts (p ∷ []) = p
module_of_parts (p ∷ q ∷ parts) = String.◌++◌ p (String.◌++◌ "/" q)

unfoldable pub module_of : String → String
unfolding split_on
module_of path = module_of_parts (split_on b'/' path)

abbrev pub or_empty {ℓ} : {A : Type ℓ} → Option (List A) → List A
or_empty none = []
or_empty (some xs) = xs

-- modules.setdefault(module_path, []).append(f.content_hash)
abbrev pub add_file : SourceFile → Dict (List String) → Dict (List String)
add_file f modules =
    let module_path = module_of f.path in
    put module_path (or_empty (get module_path modules) ++ (f.content_hash ∷ [])) modules

unfoldable pub group_files : List SourceFile → Dict (List String) → Dict (List String)
group_files [] modules = modules
group_files (f ∷ files) modules = group_files files (add_file f modules)

-- SELECT source_hash FROM wiki_state WHERE module_path = ?
abbrev pub hash_of : String → List WikiRow → Option String
hash_of module_path [] = none
hash_of module_path (row ∷ rows) =
    if module_path == row.module_path then some row.source_hash else hash_of module_path rows

-- row is not None and row[0] == new_hash
abbrev pub is_same_hash : Option String → String → Bool
is_same_hash none new_hash = false
is_same_hash (some old) new_hash = old == new_hash

-- The body of the second loop.
abbrev pub update_module :
    (String → String) → String → List String → List WikiRow × ℕ → List WikiRow × ℕ
update_module digest module_path hashes (rows, count) =
    let new_hash = compute_module_hash digest hashes in
    if is_same_hash (hash_of module_path rows) new_hash
    then (rows, count)
    else (mark_dirty module_path new_hash rows, count + 1)

unfoldable pub update_modules :
    (String → String) → Dict (List String) → List WikiRow × ℕ → List WikiRow × ℕ
update_modules digest [] state = state
update_modules digest ((module_path, hashes) ∷ modules) state =
    update_modules digest modules (update_module digest module_path hashes state)

unfoldable pub update_dirty_state :
    (String → String) → List SourceFile → List WikiRow → List WikiRow × ℕ
update_dirty_state digest files rows = update_modules digest (group_files files []) (rows, 0)
