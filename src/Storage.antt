-- ===== src/Storage.antt =====
-- libs/storage/sqlite_cache.py: the cache of a project. A table is the list of its rows in the order
-- of their rowids, with the foreign keys of the schema: a row whose file is not there raises, and a
-- file that goes takes its rows with it. The connection is not modelled.
pub mod Migrate
pub mod Intact
pub mod Lookups
pub mod Total
mod Tests
use lv_dcp.Base.{
  ℕ, String, ◌==◌, Bool, true, false, not, Option, none, some, List, [], ◌∷◌, ◌++◌, map, keep,
  length, contains, if◌then◌else◌,
}
use lv_dcp.Timeline.Bracket.{◌>>=◌}

pub record File : Type 0 where
  pub path : String
  pub content_hash : String
  pub size_bytes : ℕ
  pub language : String
  pub role : String
  pub is_generated : Bool
  pub is_binary : Bool
  pub has_secrets : Bool

pub record Symbol : Type 0 where
  pub name : String
  pub fq_name : String
  pub symbol_type : String
  pub file_path : String
  pub start_line : ℕ
  pub end_line : ℕ
  pub parent_fq_name : Option String
  pub signature : Option String
  pub docstring : Option String

pub record Relation : Type 0 where
  pub src_type : String
  pub src_ref : String
  pub dst_type : String
  pub dst_ref : String
  pub relation_type : String
  pub confidence : ℕ
  pub provenance : String

-- A row of the table relations.
pub record RelationRow : Type 0 where
  pub relation : Relation
  pub origin_file : String

pub record GitFileStats : Type 0 where
  pub file_path : String
  pub commit_count : ℕ
  pub churn_30d : ℕ
  pub last_modified_ts : ℕ
  pub age_days : ℕ
  pub authors : List String
  pub primary_author : String
  pub last_author : String

pub record SqliteCache : Type 0 where
  pub files : List File
  pub symbols : List Symbol
  pub relations : List RelationRow
  pub git_stats : List GitFileStats

abbrev pub paths : List File → List String
paths = map (λ f. f.path)

-- INSERT ... ON CONFLICT(path) DO UPDATE: a row that is there keeps its rowid.
abbrev pub upsert : File → List File → List File
upsert file [] = file ∷ []
upsert file (f ∷ files) = if file.path == f.path then file ∷ files else f ∷ upsert file files

abbrev pub put_file : File → SqliteCache → SqliteCache
put_file file cache = record cache { files = upsert file cache.files }

abbrev pub file_at : String → List File → Option File
file_at path [] = none
file_at path (f ∷ files) = if path == f.path then some f else file_at path files

abbrev pub get_file : String → SqliteCache → Option File
get_file path cache = file_at path cache.files

-- ON DELETE CASCADE takes the symbols and the relations of the file.
unfoldable pub delete_file : String → SqliteCache → SqliteCache
delete_file path cache = record cache {
  files = keep (λ f. not (f.path == path)) cache.files;
  symbols = keep (λ s. not (s.file_path == path)) cache.symbols;
  relations = keep (λ r. not (r.origin_file == path)) cache.relations;
}

abbrev pub file_count : SqliteCache → ℕ
file_count cache = length cache.files

abbrev pub iter_files : SqliteCache → List File
iter_files cache = cache.files

abbrev pub iter_symbols : SqliteCache → List Symbol
iter_symbols cache = cache.symbols

abbrev pub iter_relations : SqliteCache → List Relation
iter_relations cache = map (λ r. r.relation) cache.relations

-- INSERT OR REPLACE: a row of the same fq_name goes, whichever file it is of.
abbrev pub insert_symbol : List String → Symbol → List Symbol → Option (List Symbol)
insert_symbol known s symbols =
    if contains s.file_path known
    then some (keep (λ t. not (t.fq_name == s.fq_name)) symbols ++ (s ∷ []))
    else none

unfoldable pub insert_symbols : List String → List Symbol → List Symbol → Option (List Symbol)
insert_symbols known [] symbols = some symbols
insert_symbols known (s ∷ new) symbols = do
  inserted ← insert_symbol known s symbols
  insert_symbols known new inserted

-- None where a foreign key fails.
unfoldable pub replace_symbols : String → List Symbol → SqliteCache → Option SqliteCache
replace_symbols file_path new cache = do
  symbols ←
      insert_symbols (paths cache.files) new
        (keep (λ s. not (s.file_path == file_path)) cache.symbols)
  some (record cache { symbols = symbols })

unfoldable pub insert_relations :
    List String → List RelationRow → List RelationRow → Option (List RelationRow)
insert_relations known [] relations = some relations
insert_relations known (r ∷ new) relations =
    if contains r.origin_file known
    then insert_relations known new (relations ++ (r ∷ []))
    else none

abbrev pub rows_of : String → List Relation → List RelationRow
rows_of file_path = map (λ r. record { relation = r; origin_file = file_path })

unfoldable pub replace_relations : String → List Relation → SqliteCache → Option SqliteCache
replace_relations file_path new cache = do
  relations ←
      insert_relations (paths cache.files) (rows_of file_path new)
        (keep (λ r. not (r.origin_file == file_path)) cache.relations)
  some (record cache { relations = relations })

abbrev pub put_git_stats : GitFileStats → SqliteCache → SqliteCache
put_git_stats stats cache = record cache {
  git_stats = keep (λ g. not (g.file_path == stats.file_path)) cache.git_stats ++ (stats ∷ []);
}
