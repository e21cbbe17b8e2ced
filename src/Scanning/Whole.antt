-- ===== src/Scanning/Whole.antt =====
-- `scan_project` of libs/scanning/scanner.py: the loop over the files, and what follows it.
use lv_dcp.Base.{
  ℕ, String, ◌==◌, not, Option, none, some, List, [], ◌∷◌, ◌++◌, map, keep, length, Dict, contains,
  if◌then◌else◌,
}
use lv_dcp.Timeline.Bracket.{◌>>=◌}
use lv_dcp.Storage.{
  File, Relation, RelationRow, GitFileStats, SqliteCache, paths, put_git_stats, delete_file,
  iter_files, insert_relations,
}
use lv_dcp.Wiki.{WikiRow, SourceFile, update_dirty_state}
use lv_dcp.Scanning.{
  Tools, Entry, Mode, full, plan, Progress, process_and_index_files, unindex_file,
}

-- The modules that the scan calls beside the tools: the digest of the wiki's state, the statistics of
-- git, the text of a file on the disk, if it can be read, and the links from documents to code.
pub record Around : Type 0 where
  pub digest : String → String
  pub git_stats : List GitFileStats
  pub read_text : String → Option String
  pub extract_specifies_relations : List (String × String) → List String → List Relation

-- A project on the disk: its cache, with the table of the wiki's state apart, and its index.
pub record Project : Type 0 where
  pub cache : SqliteCache
  pub fts : Dict String
  pub wiki : List WikiRow

pub record ScanResult : Type 0 where
  pub files_scanned : ℕ
  pub files_reparsed : ℕ
  pub stale_files_removed : ℕ
  pub symbols_extracted : ℕ
  pub relations_reparsed : ℕ
  pub relations_cached : ℕ
  pub wiki_dirty_count : ℕ

abbrev pub first_progress : Project → Progress
first_progress project = record {
  cache = project.cache;
  fts = project.fts;
  files_processed = [];
  total_symbols = 0;
  total_relations = 0;
  files_reparsed = 0;
  visited_paths = [];
  changed_for_embed = [];
}

-- The statistics of the files that were visited.
unfoldable pub put_all_stats : List String → List GitFileStats → SqliteCache → SqliteCache
put_all_stats visited [] cache = cache
put_all_stats visited (stats ∷ more) cache =
    put_all_stats visited more
      (if contains stats.file_path visited then put_git_stats stats cache else cache)

abbrev pub with_git_stats :
    Mode → Option (List String) → List GitFileStats → List String → SqliteCache → SqliteCache
with_git_stats full none stats visited cache = put_all_stats visited stats cache
with_git_stats _ _ stats visited cache = cache

abbrev pub with_text : String → Option String → List (String × String)
with_text path none = []
with_text path (some text) = (path, text) ∷ []

unfoldable pub docs_files : (String → Option String) → List File → List (String × String)
docs_files read_text [] = []
docs_files read_text (f ∷ files) =
    (if f.role == "docs" then with_text f.path (read_text f.path) else [])
    ++ docs_files read_text files

abbrev pub origin_rows : List Relation → List RelationRow
origin_rows = map (λ r. record { relation = r; origin_file = r.src_ref })

-- Old relations of the type go, and the new ones come in; none where a foreign key fails.
abbrev pub replace_specifies : List Relation → SqliteCache → Option SqliteCache
replace_specifies [] cache = some cache
replace_specifies (r ∷ new) cache = do
  relations ←
      insert_relations (paths cache.files) (origin_rows (r ∷ new))
        (keep (λ row. not (row.relation.relation_type == "specifies")) cache.relations)
  some (record cache { relations = relations })

abbrev pub link_from : Around → List (String × String) → SqliteCache → Option SqliteCache
link_from around [] cache = some cache
link_from around (doc ∷ docs) cache =
    replace_specifies (around.extract_specifies_relations (doc ∷ docs) (paths (iter_files cache)))
      cache

unfoldable pub link_docs : Around → SqliteCache → Option SqliteCache
link_docs around cache = link_from around (docs_files around.read_text (iter_files cache)) cache

unfoldable pub delete_all : List String → SqliteCache → SqliteCache
delete_all [] cache = cache
delete_all (path ∷ stale) cache = delete_all stale (delete_file path cache)

unfoldable pub unindex_all : List String → Dict String → Dict String
unindex_all [] fts = fts
unindex_all (path ∷ stale) fts = unindex_all stale (unindex_file path fts)

-- existing_paths, and existing_paths - visited_paths.
abbrev pub existing_paths : Option (List String) → SqliteCache → List String
existing_paths none cache = paths (iter_files cache)
existing_paths (some only) cache = []

abbrev pub stale_paths : List String → List String → List String
stale_paths existing visited = keep (λ p. not (contains p visited)) existing

abbrev pub source_file : File → SourceFile
source_file f = record { path = f.path; content_hash = f.content_hash }

-- What follows once the documents are linked.
abbrev pub finish_scan :
    Around → List String → Progress → List WikiRow → SqliteCache → Project × ScanResult
finish_scan around existing st rows linked =
    let stale = stale_paths existing st.visited_paths in
    let cache = delete_all stale linked in
    let (wiki, wiki_dirty_count) =
      update_dirty_state around.digest (map source_file st.files_processed) rows in
    (
      record { cache = cache; fts = unindex_all stale st.fts; wiki = wiki },
      record {
        files_scanned = length st.files_processed;
        files_reparsed = st.files_reparsed;
        stale_files_removed = length stale;
        symbols_extracted = st.total_symbols;
        relations_reparsed = st.total_relations;
        relations_cached = length cache.relations;
        wiki_dirty_count = wiki_dirty_count;
      },
    )

module _ {D : Type 0} (tools : Tools D) (around : Around) where
  -- None where the cache raises.
  unfoldable pub scan_project :
      Mode → Option (List String) → List (Entry D) → Project → Option (Project × ScanResult)
  unfolding plan
  scan_project mode only entries project = do
    st ← process_and_index_files tools mode (map (plan tools only) entries) (first_progress project)
    linked ← link_docs around (with_git_stats mode only around.git_stats st.visited_paths st.cache)
    some (finish_scan around (existing_paths only project.cache) st project.wiki linked)
