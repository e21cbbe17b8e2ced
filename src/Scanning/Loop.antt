-- ===== src/Scanning/Loop.antt =====
-- The loop of libs/scanning/scanner.py over the files, and what it makes of the table files.
use lv_dcp.Base.{
  ends_with, ltb, String, ◌==◌, eq_iff, eq_refl, ◌≡◌, refl, sym, ap, ◌∙◌, Bool, true, false, ◌&&◌,
  ◌||◌, Option, none, some, List, [], ◌∷◌, map, arith, contains, contains-append, All, All-imp,
  if◌then◌else◌, Bool-cases, inl, inr,
}
use lv_dcp.Timeline.Rename.{include}
use lv_dcp.Paths.{is_ignored}
use lv_dcp.Storage.{
  File, Symbol, SqliteCache, paths, put_file, upsert, file_at, replace_symbols, replace_relations,
}
use lv_dcp.Storage.Intact.{OfKnown}
use lv_dcp.Storage.Lookups.{file_at-upsert, contains-upsert}
use lv_dcp.Storage.Total.{HasSome, bind-HasSome, replace_symbols-HasSome, replace_relations-HasSome}
use lv_dcp.Scanning.{
  Tools, Entry, Mode, full, incremental, Plan, pass, visit, parse, plan, plan_data, plan_parser,
  plan_rel, is_left_out, ParseResult, Progress, visited, process_file, file_entity, cached_parse,
  counted, reparse, take_or_parse, unchanged_file,
}

module _ {D : Type 0} (tools : Tools D) where
  -- What is documented of the parsers: the symbols of a file are of that file.
  abbrev pub ParsesOwn : Type 0
  ParsesOwn =
      (language : String) (parser : String → D → ParseResult)
      → tools.get_parser language ≡ some parser
      → (rel : String) (bytes : D)
      → All (λ (s : Symbol). s.file_path ≡ rel) (parser rel bytes).symbols

  -- Each row is what the parser of its language makes of some content of its file.
  abbrev pub IsFaithful : List File → Type 0
  IsFaithful files =
      (p : String) (f : File)
      → file_at p files ≡ some f
      → (bytes : D) × ((parser : String → D → ParseResult)
          → tools.get_parser (tools.detect_language p) ≡ some parser
          → f ≡ file_entity tools p bytes parser)

  -- A plan parses with the parser of the file's language.
  abbrev pub IsPlanned : Plan D → Type 0
  IsPlanned (parse rel bytes parser) = tools.get_parser (tools.detect_language rel) ≡ some parser
  IsPlanned _ = Unit

  choice-IsPlanned :
      (b : Bool) (x y : Plan D) → IsPlanned x → IsPlanned y → IsPlanned (if b then x else y)
  choice-IsPlanned true x y hx hy = hx
  choice-IsPlanned false x y hx hy = hy

  plan_parser-IsPlanned :
      (rel : String) (bytes : D) (o : Option (String → D → ParseResult))
      → tools.get_parser (tools.detect_language rel) ≡ o
      → IsPlanned (plan_parser tools rel bytes o)
  plan_parser-IsPlanned rel bytes none e = tt
  plan_parser-IsPlanned rel bytes (some parser) e = e

  plan_data-IsPlanned : (rel : String) (o : Option D) → IsPlanned (plan_data tools rel o)
  plan_data-IsPlanned rel none = tt
  plan_data-IsPlanned rel (some bytes) =
      let parsed = plan_parser tools rel bytes (tools.get_parser (tools.detect_language rel)) in
      let unknown = tools.detect_language rel == "unknown" in
      choice-IsPlanned (ends_with ".json" rel && ltb 100_000 (tools.size bytes)) pass
        (if unknown then visit rel else parsed) tt
        (choice-IsPlanned unknown (visit rel) parsed tt
          (plan_parser-IsPlanned rel bytes (tools.get_parser (tools.detect_language rel)) refl))

  plan_rel-IsPlanned :
      (only : Option (List String)) (rel : Option String) (o : Option D)
      → IsPlanned (plan_rel tools only rel o)
  plan_rel-IsPlanned only none o = tt
  plan_rel-IsPlanned only (some rel) o =
      choice-IsPlanned (is_ignored rel || is_left_out only rel) pass (plan_data tools rel o) tt
        (plan_data-IsPlanned rel o)

  pub plans-IsPlanned :
      (only : Option (List String)) (entries : List (Entry D))
      → All IsPlanned (map (plan tools only) entries)
  unfolding plan
  plans-IsPlanned only [] = tt
  plans-IsPlanned only (entry ∷ entries) =
      (plan_rel-IsPlanned only entry.rel entry.bytes, plans-IsPlanned only entries)

  -- The row of a path after a plan, from the one before: a file that is parsed is put in anew.
  abbrev pub planned : Plan D → String → Option File → Option File
  planned (parse rel bytes parser) p old =
      if p == rel then some (file_entity tools rel bytes parser) else old
  planned _ p old = old

  abbrev pub planned_all : List (Plan D) → String → Option File → Option File
  planned_all [] p old = old
  planned_all (x ∷ plans) p old = planned_all plans p (planned x p old)

  own-OfKnown :
      (known : List String) (rel : String) (symbols : List Symbol)
      → contains rel known ≡ true
      → All (λ (s : Symbol). s.file_path ≡ rel) symbols
      → All (OfKnown known) symbols
  own-OfKnown known rel symbols there =
      All-imp (λ (s : Symbol). s.file_path ≡ rel) (OfKnown known) symbols
        λ s own. ap (λ p. contains p known) own ∙ there

  cached_parse-HasSome :
      ParsesOwn
      → (rel : String) (bytes : D) (parser : String → D → ParseResult) (cache : SqliteCache)
      → tools.get_parser (tools.detect_language rel) ≡ some parser
      → HasSome
          (λ c. c.files ≡ upsert (file_entity tools rel bytes parser) cache.files)
          (cached_parse tools rel bytes parser cache)
  cached_parse-HasSome own rel bytes parser cache e =
      let file = file_entity tools rel bytes parser in
      let there : contains rel (paths (upsert file cache.files)) ≡ true =
        contains-upsert rel file cache.files ∙ ground (arith, eq_refl rel) in
      bind-HasSome (λ c. c.files ≡ upsert file cache.files) (λ c. c.files ≡ upsert file cache.files)
        (replace_symbols rel (parser rel bytes).symbols (put_file file cache))
        (replace_relations rel (parser rel bytes).relations)
        (replace_symbols-HasSome rel (parser rel bytes).symbols (put_file file cache) (
          own-OfKnown (paths (upsert file cache.files)) rel (parser rel bytes).symbols there
            (own (tools.detect_language rel) parser e rel bytes)))
        λ c same. rw (← same) (
          replace_relations-HasSome rel (parser rel bytes).relations c
            (ap (λ fs. contains rel (paths fs)) same ∙ there))

unchanged-known :
    (mode : Mode) (o : Option File) (h : String) (cached : File)
    → unchanged_file mode o h ≡ some cached
    → (o ≡ some cached) × (cached.content_hash ≡ h)
unchanged-known full o h cached e = absurd (ground (arith, e))
unchanged-known incremental none h cached e = absurd (ground (arith, e))
unchanged-known incremental (some f) h cached e = ground (arith, e, eq_iff f.content_hash h)

abbrev pub visited_by : {D : Type 0} → Plan D → List String
visited_by pass = []
visited_by (visit rel) = rel ∷ []
visited_by (parse rel bytes parser) = rel ∷ []

contains-include :
    (p rel : String) (seen : List String)
    → contains p (include rel seen) ≡ (contains p seen || p == rel)
contains-include p rel seen = ground (arith, contains-append p seen (rel ∷ []), eq_iff p rel)

module _ {D : Type 0} (tools : Tools D) where
  -- What a plan makes of the state: the rows of the table files, and the paths that were visited.
  pub record Processed (x : Plan D) (st st' : Progress) : Type 0 where
    pub rows :
        (p : String) → file_at p st'.cache.files ≡ planned tools x p (file_at p st.cache.files)
    pub seen :
        (p : String)
        → contains p st'.visited_paths ≡ (contains p st.visited_paths || contains p (visited_by x))

  planned-kept :
      (rel : String) (bytes : D) (parser : String → D → ParseResult) (cached : File)
      (files : List File)
      → file_at rel files ≡ some cached
      → cached ≡ file_entity tools rel bytes parser
      → (p : String) → file_at p files ≡ planned tools (parse rel bytes parser) p (file_at p files)
  planned-kept rel bytes parser cached files there same p = elim (Bool-cases (p == rel)) [
    | inl own ↦
        ap (λ q. file_at q files) ((eq_iff p rel).0 own)
        ∙ there
        ∙ ap some same
        ∙ sym
            (ap (λ b. if b then some (file_entity tools rel bytes parser) else file_at p files) own)
    | inr other ↦
        sym
          (ap (λ b. if b then some (file_entity tools rel bytes parser) else file_at p files) other)
  ]

  -- The cached row of a file whose hash is the same is what parsing it would make.
  cached-same :
      ((a b : D) → tools.content_hash a ≡ tools.content_hash b → a ≡ b)
      → (files : List File) → IsFaithful tools files
      → (rel : String) (bytes : D) (parser : String → D → ParseResult) (cached : File)
      → tools.get_parser (tools.detect_language rel) ≡ some parser
      → file_at rel files ≡ some cached
      → cached.content_hash ≡ tools.content_hash bytes
      → cached ≡ file_entity tools rel bytes parser
  cached-same unique files faithful rel bytes parser cached e there hash =
      let old = faithful rel cached there in
      old.1 parser e
      ∙ ap (λ d. file_entity tools rel d parser)
          (unique old.0 bytes (sym (ap (λ f. f.content_hash) (old.1 parser e)) ∙ hash))

  parse-Processed :
      ParsesOwn tools
      → (rel : String) (bytes : D) (parser : String → D → ParseResult) (st : Progress)
      → tools.get_parser (tools.detect_language rel) ≡ some parser
      → HasSome
          (Processed (parse rel bytes parser) st)
          (reparse tools rel bytes parser (visited rel st))
  parse-Processed own rel bytes parser st e =
      bind-HasSome (λ c. c.files ≡ upsert (file_entity tools rel bytes parser) st.cache.files)
        (Processed (parse rel bytes parser) st) (cached_parse tools rel bytes parser st.cache)
        (λ cache. some (counted tools rel bytes parser cache (visited rel st)))
        (cached_parse-HasSome tools own rel bytes parser st.cache e)
        λ c same. record {
          rows = λ p.
              ap (file_at p) same
              ∙ file_at-upsert p (file_entity tools rel bytes parser) st.cache.files;
          seen = λ p. contains-include p rel st.visited_paths ∙ ground arith;
        }

  pub process_file-Processed :
      ParsesOwn tools
      → ((a b : D) → tools.content_hash a ≡ tools.content_hash b → a ≡ b)
      → (mode : Mode) (x : Plan D) (st : Progress) → IsPlanned tools x
      → IsFaithful tools st.cache.files
      → HasSome (Processed x st) (process_file tools mode x st)
  process_file-Processed own unique mode pass st e faithful = record {
    rows = λ p. refl;
    seen = λ p. ground arith;
  }
  process_file-Processed own unique mode (visit rel) st e faithful = record {
    rows = λ p. refl;
    seen = λ p. contains-include p rel st.visited_paths ∙ ground arith;
  }
  process_file-Processed own unique mode (parse rel bytes parser) st e faithful =
      by_cache (unchanged_file mode (file_at rel st.cache.files) (tools.content_hash bytes)) refl
    where
      by_cache :
          (o : Option File)
          → unchanged_file mode (file_at rel st.cache.files) (tools.content_hash bytes) ≡ o
          → HasSome
              (Processed (parse rel bytes parser) st)
              (take_or_parse tools rel bytes parser (visited rel st) o)
      by_cache none _ = parse-Processed own rel bytes parser st e
      by_cache (some cached) known =
          let found =
            unchanged-known mode (file_at rel st.cache.files) (tools.content_hash bytes) cached
              known in
          record {
            rows = planned-kept rel bytes parser cached st.cache.files found.0 (
                cached-same unique st.cache.files faithful rel bytes parser cached e found.0
                  found.1);
            seen = λ p. contains-include p rel st.visited_paths ∙ ground arith;
          }
