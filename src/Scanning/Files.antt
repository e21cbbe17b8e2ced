-- ===== src/Scanning/Files.antt =====
-- The table files after a scan of the whole project: libs/scanning/scanner.py.
use lv_dcp.Base.{
  map, Bool, true, false, ◌++◌, All-imp, String, ◌==◌, eq_iff, ◌≡◌, refl, sym, ap, ◌∙◌, not, ◌||◌,
  Option, none, some, List, [], ◌∷◌, collect, arith, keep, contains, contains-append, All,
  if◌then◌else◌, Bool-cases, inl, inr,
}
use lv_dcp.Storage.{
  File, Relation, GitFileStats, SqliteCache, paths, file_at, put_git_stats, delete_file,
  insert_relations,
}
use lv_dcp.Storage.Intact.{FromKnown, or_given}
use lv_dcp.Storage.Lookups.{file_at-keep}
use lv_dcp.Storage.Total.{HasSome, bind-HasSome, insert_relations-HasSome}
use lv_dcp.Scanning.{
  Tools, Mode, full, incremental, Plan, pass, visit, parse, Progress, process_file,
  process_and_index_files, file_entity,
}
use lv_dcp.Scanning.Loop.{
  ParsesOwn, IsFaithful, IsPlanned, planned, planned_all, visited_by, Processed,
  process_file-Processed,
}
use lv_dcp.Scanning.Links.{LinksOwn}
use lv_dcp.Scanning.Whole.{
  with_text, Around, put_all_stats, with_git_stats, origin_rows, replace_specifies, link_from,
  link_docs, docs_files, delete_all,
}

module _ {D : Type 0} (tools : Tools D) where
  pub planned-IsFaithful :
      (x : Plan D) (files files' : List File)
      → IsPlanned tools x
      → IsFaithful tools files
      → ((p : String) → file_at p files' ≡ planned tools x p (file_at p files))
      → IsFaithful tools files'
  planned-IsFaithful pass files files' e faithful same p f there =
      faithful p f (sym (same p) ∙ there)
  planned-IsFaithful (visit rel) files files' e faithful same p f there =
      faithful p f (sym (same p) ∙ there)
  planned-IsFaithful (parse rel bytes parser) files files' e faithful same p f there =
      elim (Bool-cases (p == rel)) [
        | inl own ↦ (
          bytes,
          λ parser' e'.
              let p_rel : p ≡ rel = (eq_iff p rel).0 own in
              let one_parser : parser ≡ parser' =
                ap (or_given parser)
                  (sym e ∙ ap (λ q. tools.get_parser (tools.detect_language q)) (sym p_rel) ∙ e') in
              ap (or_given f) (
                sym there
                ∙ same p
                ∙ ap (λ b. if b then some (file_entity tools rel bytes parser) else file_at p files)
                    own)
              ∙ ap (λ k. file_entity tools rel bytes k) one_parser
              ∙ ap (λ q. file_entity tools q bytes parser') (sym p_rel),
        )
        | inr other ↦ faithful p f (
            sym (
              ap (λ b. if b then some (file_entity tools rel bytes parser) else file_at p files)
                other)
            ∙ sym (same p)
            ∙ there)
      ]

  -- What a list of plans makes of the state.
  pub record Looped (plans : List (Plan D)) (st st' : Progress) : Type 0 where
    pub rows :
        (p : String)
        → file_at p st'.cache.files ≡ planned_all tools plans p (file_at p st.cache.files)
    pub seen :
        (p : String)
        → contains p st'.visited_paths
          ≡ (contains p st.visited_paths || contains p (collect visited_by plans))

  pub process-Looped :
      ParsesOwn tools
      → ((a b : D) → tools.content_hash a ≡ tools.content_hash b → a ≡ b)
      → (mode : Mode) (plans : List (Plan D)) (st : Progress) → All (IsPlanned tools) plans
      → IsFaithful tools st.cache.files
      → HasSome (Looped plans st) (process_and_index_files tools mode plans st)
  unfolding process_and_index_files
  process-Looped own unique mode [] st e faithful = record {
    rows = λ p. refl;
    seen = λ p. ground arith;
  }
  process-Looped own unique mode (x ∷ plans) st e faithful =
      bind-HasSome (Processed tools x st) (Looped (x ∷ plans) st) (process_file tools mode x st)
        (process_and_index_files tools mode plans)
        (process_file-Processed tools own unique mode x st e.0 faithful)
        λ next done. with_rest next done (process_and_index_files tools mode plans next) (
          process-Looped own unique mode plans next e.1
            (planned-IsFaithful x st.cache.files next.cache.files e.0 faithful done.rows))
    where
      with_rest :
          (next : Progress)
          → Processed tools x st next
          → (o : Option Progress) → HasSome (Looped plans next) o
          → HasSome (Looped (x ∷ plans) st) o
      with_rest next done none h = h
      with_rest next done (some last) h = record {
        rows = λ p. h.rows p ∙ ap (planned_all tools plans p) (done.rows p);
        seen = λ p.
            h.seen p
            ∙ ap (λ b. b || contains p (collect visited_by plans)) (done.seen p)
            ∙ ground (arith, contains-append p (visited_by x) (collect visited_by plans));
      }

put_all_stats-files :
    (seen : List String) (stats : List GitFileStats) (cache : SqliteCache)
    → (put_all_stats seen stats cache).files ≡ cache.files
unfolding put_all_stats
put_all_stats-files seen [] cache = refl
put_all_stats-files seen (g ∷ stats) cache =
    put_all_stats-files seen stats
      (if contains g.file_path seen then put_git_stats g cache else cache)
    ∙ ground (arith, Bool-cases (contains g.file_path seen))

pub with_git_stats-files :
    (mode : Mode) (only : Option (List String)) (stats : List GitFileStats) (seen : List String)
    (cache : SqliteCache)
    → (with_git_stats mode only stats seen cache).files ≡ cache.files
with_git_stats-files full none stats seen cache = put_all_stats-files seen stats cache
with_git_stats-files full (some only) stats seen cache = refl
with_git_stats-files incremental only stats seen cache = refl

-- The documents of a scan are files of the cache.
docs_files-known :
    (read_text : String → Option String) (files : List File) (p : String)
    → contains p (map (λ d. d.0) (docs_files read_text files)) ≡ true
    → contains p (paths files) ≡ true
unfolding docs_files
docs_files-known read_text [] p h = h
docs_files-known read_text (f ∷ files) p h =
    of (f.role == "docs") (read_text f.path) h (docs_files-known read_text files p)
  where
    of :
        (is_doc : Bool) (text : Option String)
        → contains p (
            map
              (λ d. d.0)
              ((if is_doc then with_text f.path text else []) ++ docs_files read_text files))
          ≡ true
        → (contains p (map (λ d. d.0) (docs_files read_text files)) ≡ true
            → contains p (paths files) ≡ true)
        → (p == f.path || contains p (paths files)) ≡ true
    of false text e rest = ground (arith, rest e)
    of true none e rest = ground (arith, rest e)
    of true (some t) e rest = elim (Bool-cases (p == f.path)) [
      | inl same ↦ ground (arith, same)
      | inr apart ↦ ground (arith, rest (ground (arith, apart, e)))
    ]

origin_rows-FromKnown :
    (known : List String) (new : List Relation)
    → All (λ (r : Relation). contains r.src_ref known ≡ true) new
    → All (FromKnown known) (origin_rows new)
origin_rows-FromKnown known [] h = tt
origin_rows-FromKnown known (r ∷ new) h = (h.0, origin_rows-FromKnown known new h.1)

replace_specifies-HasSome :
    (new : List Relation) (cache : SqliteCache)
    → All (λ (r : Relation). contains r.src_ref (paths cache.files) ≡ true) new
    → HasSome (λ c. c.files ≡ cache.files) (replace_specifies new cache)
replace_specifies-HasSome [] cache h = refl
replace_specifies-HasSome (r ∷ new) cache h =
    bind-HasSome (λ _. Unit) (λ c. c.files ≡ cache.files)
      (insert_relations (paths cache.files) (origin_rows (r ∷ new))
        (keep (λ row. not (row.relation.relation_type == "specifies")) cache.relations))
      (λ relations. some (record cache { relations = relations }))
      (insert_relations-HasSome (paths cache.files) (origin_rows (r ∷ new))
        (keep (λ row. not (row.relation.relation_type == "specifies")) cache.relations)
        (origin_rows-FromKnown (paths cache.files) (r ∷ new) h))
      λ relations _. refl

pub link_docs-HasSome :
    (around : Around) (cache : SqliteCache)
    → LinksOwn around.extract_specifies_relations
    → HasSome (λ c. c.files ≡ cache.files) (link_docs around cache)
unfolding link_docs
link_docs-HasSome around cache own =
    from_docs (docs_files around.read_text cache.files)
      (docs_files-known around.read_text cache.files)
  where
    from_docs :
        (docs : List (String × String))
        → ((p : String)
            → contains p (map (λ d. d.0) docs) ≡ true
            → contains p (paths cache.files) ≡ true)
        → HasSome (λ c. c.files ≡ cache.files) (link_from around docs cache)
    from_docs [] known = refl
    from_docs (doc ∷ docs) known =
        replace_specifies-HasSome
          (around.extract_specifies_relations (doc ∷ docs) (paths cache.files)) cache
          (All-imp _ (λ (r : Relation). contains r.src_ref (paths cache.files) ≡ true) _
            (λ r h. known r.src_ref h) (own (doc ∷ docs) (paths cache.files)))

pub file_at-delete_all :
    (p : String) (stale : List String) (cache : SqliteCache)
    → file_at p (delete_all stale cache).files
      ≡ (if contains p stale then none else file_at p cache.files)
unfolding delete_all delete_file
file_at-delete_all p [] cache = refl
file_at-delete_all p (q ∷ stale) cache =
    file_at-delete_all p stale (delete_file q cache) ∙ ground (arith, file_at-keep p q cache.files)
