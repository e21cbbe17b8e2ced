-- ===== src/Scanning/Kept.antt =====
-- The foreign keys of the cache over a scan of libs/scanning/scanner.py.
use lv_dcp.Base.{
  String, ◌==◌, ◌≡◌, Bool, true, false, not, Option, none, some, List, [], ◌∷◌, map, keep, contains,
  All, if◌then◌else◌,
}
use lv_dcp.Storage.{
  File, Relation, GitFileStats, SqliteCache, paths, put_file, put_git_stats, delete_file,
  insert_relations, replace_symbols, replace_relations,
}
use lv_dcp.Storage.Intact.{
  IsIntact, IfSome, FromKnown, bind-IfSome, IfSome-at, All-keep, put_file-IsIntact,
  delete_file-IsIntact, insert_relations-FromKnown, replace_symbols-IsIntact,
  replace_relations-IsIntact,
}
use lv_dcp.Scanning.{
  Tools, Entry, Mode, full, incremental, Plan, pass, visit, parse, plan, ParseResult, Progress,
  visited, file_entity, cached_parse, counted, take_or_parse, process_file, process_and_index_files,
}
use lv_dcp.Scanning.Whole.{
  Around, Project, ScanResult, put_all_stats, with_git_stats, origin_rows, replace_specifies,
  link_from, link_docs, docs_files, delete_all, existing_paths, stale_paths, finish_scan,
  scan_project, first_progress,
}

with_stats-IsIntact :
    (g : GitFileStats) (cache : SqliteCache) → IsIntact cache → IsIntact (put_git_stats g cache)
with_stats-IsIntact g cache h = record {
  files_unique = h.files_unique;
  symbols_known = h.symbols_known;
  relations_known = h.relations_known;
}

put_all_stats-IsIntact :
    (seen : List String) (stats : List GitFileStats) (cache : SqliteCache)
    → IsIntact cache
    → IsIntact (put_all_stats seen stats cache)
unfolding put_all_stats
put_all_stats-IsIntact seen [] cache h = h
put_all_stats-IsIntact seen (g ∷ stats) cache h =
    put_all_stats-IsIntact seen stats _ (either (contains g.file_path seen))
  where
    either : (b : Bool) → IsIntact (if b then put_git_stats g cache else cache)
    either true = with_stats-IsIntact g cache h
    either false = h

with_git_stats-IsIntact :
    (mode : Mode) (only : Option (List String)) (stats : List GitFileStats) (seen : List String)
    (cache : SqliteCache)
    → IsIntact cache
    → IsIntact (with_git_stats mode only stats seen cache)
with_git_stats-IsIntact full none stats seen cache h = put_all_stats-IsIntact seen stats cache h
with_git_stats-IsIntact full (some only) stats seen cache h = h
with_git_stats-IsIntact incremental only stats seen cache h = h

replace_specifies-IsIntact :
    (new : List Relation) (cache : SqliteCache)
    → IsIntact cache
    → IfSome IsIntact (replace_specifies new cache)
replace_specifies-IsIntact [] cache h = h
replace_specifies-IsIntact (r ∷ new) cache h =
    let others = keep (λ row. not (row.relation.relation_type == "specifies")) cache.relations in
    bind-IfSome (All (FromKnown (paths cache.files))) IsIntact
      (insert_relations (paths cache.files) (origin_rows (r ∷ new)) others)
      (λ relations. some (record cache { relations = relations }))
      (insert_relations-FromKnown (paths cache.files) (origin_rows (r ∷ new)) others (
        All-keep (FromKnown (paths cache.files))
          (λ row. not (row.relation.relation_type == "specifies")) cache.relations
          h.relations_known))
      λ relations known. record {
        files_unique = h.files_unique;
        symbols_known = h.symbols_known;
        relations_known = known;
      }

link_docs-IsIntact :
    (around : Around) (cache : SqliteCache)
    → IsIntact cache
    → IfSome IsIntact (link_docs around cache)
unfolding link_docs
link_docs-IsIntact around cache h = from_docs (docs_files around.read_text cache.files)
  where
    from_docs : (docs : List (String × String)) → IfSome IsIntact (link_from around docs cache)
    from_docs [] = h
    from_docs (doc ∷ docs) =
        replace_specifies-IsIntact
          (around.extract_specifies_relations (doc ∷ docs) (paths cache.files)) cache h

delete_all-IsIntact :
    (stale : List String) (cache : SqliteCache) → IsIntact cache → IsIntact (delete_all stale cache)
unfolding delete_all
delete_all-IsIntact [] cache h = h
delete_all-IsIntact (p ∷ stale) cache h =
    delete_all-IsIntact stale (delete_file p cache) (delete_file-IsIntact p cache h)

module _ {D : Type 0} (tools : Tools D) where
  cached_parse-IsIntact :
      (rel : String) (bytes : D) (parser : String → D → ParseResult) (cache : SqliteCache)
      → IsIntact cache
      → IfSome IsIntact (cached_parse tools rel bytes parser cache)
  cached_parse-IsIntact rel bytes parser cache h =
      let file = file_entity tools rel bytes parser in
      bind-IfSome IsIntact IsIntact
        (replace_symbols rel (parser rel bytes).symbols (put_file file cache))
        (replace_relations rel (parser rel bytes).relations)
        (replace_symbols-IsIntact rel (parser rel bytes).symbols (put_file file cache)
          (put_file-IsIntact file cache h))
        (replace_relations-IsIntact rel (parser rel bytes).relations)

  take_or_parse-IsIntact :
      (rel : String) (bytes : D) (parser : String → D → ParseResult) (st : Progress)
      (o : Option File)
      → IsIntact st.cache
      → IfSome (λ s. IsIntact s.cache) (take_or_parse tools rel bytes parser st o)
  take_or_parse-IsIntact rel bytes parser st (some cached) h = h
  take_or_parse-IsIntact rel bytes parser st none h =
      bind-IfSome IsIntact (λ s. IsIntact s.cache) (cached_parse tools rel bytes parser st.cache)
        (λ cache. some (counted tools rel bytes parser cache st))
        (cached_parse-IsIntact rel bytes parser st.cache h) λ cache intact. intact

  process_file-IsIntact :
      (mode : Mode) (x : Plan D) (st : Progress)
      → IsIntact st.cache
      → IfSome (λ s. IsIntact s.cache) (process_file tools mode x st)
  process_file-IsIntact mode pass st h = h
  process_file-IsIntact mode (visit rel) st h = h
  process_file-IsIntact mode (parse rel bytes parser) st h =
      take_or_parse-IsIntact rel bytes parser (visited rel st) _ h

  process-IsIntact :
      (mode : Mode) (plans : List (Plan D)) (st : Progress)
      → IsIntact st.cache
      → IfSome (λ s. IsIntact s.cache) (process_and_index_files tools mode plans st)
  unfolding process_and_index_files
  process-IsIntact mode [] st h = h
  process-IsIntact mode (x ∷ plans) st h =
      bind-IfSome (λ s. IsIntact s.cache) (λ s. IsIntact s.cache) (process_file tools mode x st)
        (process_and_index_files tools mode plans) (process_file-IsIntact mode x st h)
        (process-IsIntact mode plans)

  -- A scan in any mode, of the whole project or of some paths, keeps the cache intact, whatever the
  -- parsers and the links give: a path stands once in the table files, and each symbol and each
  -- relation is of a file in it. A write that would break this raises, and the scan ends there.
  pub scan_project-IsIntact :
      (around : Around) (mode : Mode) (only : Option (List String)) (entries : List (Entry D))
      (project : Project) (result : Project × ScanResult)
      → IsIntact project.cache
      → scan_project tools around mode only entries project ≡ some result
      → IsIntact result.0.cache
  unfolding scan_project
  scan_project-IsIntact around mode only entries project result h e =
      IfSome-at (λ (r : Project × ScanResult). IsIntact r.0.cache)
        (scan_project tools around mode only entries project) result whole e
    where
      whole :
          IfSome
            (λ (r : Project × ScanResult). IsIntact r.0.cache)
            (scan_project tools around mode only entries project)
      whole =
          bind-IfSome (λ s. IsIntact s.cache) (λ (r : Project × ScanResult). IsIntact r.0.cache)
            (process_and_index_files tools mode (map (plan tools only) entries)
              (first_progress project))
            _ (process-IsIntact mode (map (plan tools only) entries) (first_progress project) h)
            λ st intact.
              bind-IfSome IsIntact (λ (r : Project × ScanResult). IsIntact r.0.cache)
                (link_docs around
                  (with_git_stats mode only around.git_stats st.visited_paths st.cache))
                (λ linked.
                  some
                    (finish_scan around (existing_paths only project.cache) st project.wiki linked))
                (link_docs-IsIntact around
                  (with_git_stats mode only around.git_stats st.visited_paths st.cache)
                  (with_git_stats-IsIntact mode only around.git_stats st.visited_paths st.cache
                    intact))
                λ linked known.
                  delete_all-IsIntact
                    (stale_paths (existing_paths only project.cache) st.visited_paths) linked known
