-- ===== src/Scanning/Exact.antt =====
-- A scan of the whole project by libs/scanning/scanner.py, in either mode, against what a rebuild of
-- the table files from the directory gives.
use lv_dcp.Base.{
  String, ◌≡◌, refl, sym, ap, ◌∙◌, false, not, Option, none, some, List, [], ◌∷◌, collect, map,
  arith, contains, contains-append, contains-keep, if◌then◌else◌, Bool-cases, Option-cases,
}
use lv_dcp.Timeline.Bracket.{◌>>=◌}
use lv_dcp.Storage.{File, SqliteCache, paths, file_at, get_file}
use lv_dcp.Storage.Lookups.{contains-paths}
use lv_dcp.Storage.Total.{HasSome, bind-HasSome, HasSome-result}
use lv_dcp.Scanning.{
  Tools, Entry, Mode, full, incremental, Plan, pass, visit, parse, plan, Progress,
  process_and_index_files,
}
use lv_dcp.Scanning.Loop.{ParsesOwn, IsFaithful, plans-IsPlanned, planned_all, planned, visited_by}
use lv_dcp.Scanning.Files.{
  Looped, process-Looped, with_git_stats-files, link_docs-HasSome, file_at-delete_all,
}
use lv_dcp.Scanning.Links.{LinksOwn}
use lv_dcp.Scanning.Whole.{
  Around, Project, ScanResult, with_git_stats, link_docs, stale_paths, finish_scan, scan_project,
  first_progress,
}

module _ {D : Type 0} (tools : Tools D) where
  -- The row of a path after a scan of these entries: none where the walk did not come to the path,
  -- and else what the last parse of it makes, or the row before where it was not parsed.
  abbrev pub scanned_row : List (Plan D) → String → Option File → Option File
  scanned_row plans p old =
      if contains p (collect visited_by plans) then planned_all tools plans p old else none

  planned-unseen :
      (x : Plan D) (p : String) (o : Option File)
      → contains p (visited_by x) ≡ false
      → planned tools x p o ≡ o
  planned-unseen pass p o h = refl
  planned-unseen (visit rel) p o h = refl
  planned-unseen (parse rel bytes parser) p o h = ground (arith, h)

  planned_all-unseen :
      (plans : List (Plan D)) (p : String) (o : Option File)
      → contains p (collect visited_by plans) ≡ false
      → planned_all tools plans p o ≡ o
  planned_all-unseen [] p o h = refl
  planned_all-unseen (x ∷ plans) p o h =
      let split = contains-append p (visited_by x) (collect visited_by plans) in
      ap (planned_all tools plans p) (planned-unseen x p o (ground (arith, h, split)))
      ∙ planned_all-unseen plans p o (ground (arith, h, split))

  -- The rows after the stale ones are gone.
  swept :
      (plans : List (Plan D)) (before : SqliteCache) (st : Progress) (p : String)
      → ((q : String)
          → file_at q st.cache.files ≡ planned_all tools plans q (file_at q before.files))
      → ((q : String) → contains q st.visited_paths ≡ contains q (collect visited_by plans))
      → (if contains p (stale_paths (paths before.files) st.visited_paths)
          then none
          else file_at p st.cache.files)
        ≡ scanned_row plans p (file_at p before.files)
  swept plans before st p rows seen = ground (
    arith,
    rows p,
    seen p,
    Bool-cases (contains p (collect visited_by plans)),
    contains-keep p (λ q. not (contains q st.visited_paths)) (paths before.files),
    contains-paths p before.files,
    Option-cases (file_at p before.files),
    planned_all-unseen plans p (file_at p before.files),
  )

  module _ (around : Around) where
    abbrev HasRows : List (Plan D) → Project → Project × ScanResult → Type 0
    HasRows plans project result =
        (p : String) → get_file p result.0.cache ≡ scanned_row plans p (get_file p project.cache)

    scan_project-HasSome :
        ParsesOwn tools
        → ((a b : D) → tools.content_hash a ≡ tools.content_hash b → a ≡ b)
        → LinksOwn around.extract_specifies_relations
        → (mode : Mode) (entries : List (Entry D)) (project : Project)
        → IsFaithful tools project.cache.files
        → HasSome
            (HasRows (map (plan tools none) entries) project)
            (scan_project tools around mode none entries project)
    unfolding scan_project
    scan_project-HasSome own unique known mode entries project faithful =
        let plans = map (plan tools none) entries in
        bind-HasSome (Looped tools plans (first_progress project)) (HasRows plans project)
          (process_and_index_files tools mode plans (first_progress project))
          (λ st.
            link_docs around (with_git_stats mode none around.git_stats st.visited_paths st.cache)
            >>= λ linked.
                some (finish_scan around (paths project.cache.files) st project.wiki linked))
          (process-Looped tools own unique mode plans (first_progress project)
            (plans-IsPlanned tools none entries) faithful)
          λ st looped.
            let staged = with_git_stats mode none around.git_stats st.visited_paths st.cache in
            bind-HasSome (λ c. c.files ≡ staged.files) (HasRows plans project)
              (link_docs around staged)
              (λ linked.
                some (finish_scan around (paths project.cache.files) st project.wiki linked))
              (link_docs-HasSome around staged known)
              λ linked same p.
                file_at-delete_all p (stale_paths (paths project.cache.files) st.visited_paths)
                  linked
                ∙ ap
                    (λ files.
                      if contains p (stale_paths (paths project.cache.files) st.visited_paths)
                      then none
                      else file_at p files)
                    (same
                      ∙ with_git_stats-files mode none around.git_stats st.visited_paths st.cache)
                ∙ swept plans project.cache st p looped.rows λ q. looped.seen q ∙ ground arith

    -- A scan of the whole project does not raise, and leaves in the table files, for each path that
    -- the walk came to, the row that the last parse of it makes, or the row before where it was not
    -- parsed, and no row for any other path. It needs the symbols of a file to be of that file, the
    -- links of documents to start at the documents (as those of docs_linker.py do), hashes to differ where contents do, and
    -- a table before in which each row was made by a parse of its file.
    pub scan_project-row :
        ParsesOwn tools
        → ((a b : D) → tools.content_hash a ≡ tools.content_hash b → a ≡ b)
        → LinksOwn around.extract_specifies_relations
        → (mode : Mode) (entries : List (Entry D)) (project : Project)
        → IsFaithful tools project.cache.files
        → (result : Project × ScanResult) × ((scan_project tools around mode none entries project
              ≡ some result)
            × ((p : String)
                → get_file p result.0.cache
                  ≡ scanned_row (map (plan tools none) entries) p (get_file p project.cache)))
    scan_project-row own unique known mode entries project faithful =
        HasSome-result (HasRows (map (plan tools none) entries) project)
          (scan_project tools around mode none entries project)
          (scan_project-HasSome own unique known mode entries project faithful)

    -- Under the same conditions an incremental scan, which skips the files whose hash is that of the
    -- cache, and a full one, which parses every file, leave the same row for each path.
    pub scan_project-modes :
        ParsesOwn tools
        → ((a b : D) → tools.content_hash a ≡ tools.content_hash b → a ≡ b)
        → LinksOwn around.extract_specifies_relations
        → (entries : List (Entry D)) (project : Project) → IsFaithful tools project.cache.files
        → (quick : Project × ScanResult) × ((slow : Project × ScanResult) × ((scan_project tools
                  around incremental none entries project
                ≡ some quick)
              × ((scan_project tools around full none entries project ≡ some slow)
                  × ((p : String) → get_file p quick.0.cache ≡ get_file p slow.0.cache))))
    scan_project-modes own unique known entries project faithful =
        let (quick, one) = scan_project-row own unique known incremental entries project faithful in
        let (slow, other) = scan_project-row own unique known full entries project faithful in
        (quick, (slow, (one.0, (other.0, λ p. one.1 p ∙ sym (other.1 p)))))
