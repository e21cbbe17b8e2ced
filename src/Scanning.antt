-- ===== src/Scanning.antt =====
-- libs/scanning/scanner.py: a scan of a project into its cache, its full-text index and the state of
-- its wiki. The parsers, the hash, the decoder and the finder of secrets are given, with what the
-- walk over the directory finds; so are the statistics of git and the linker of documents, which is
-- in Links. The markdown files, the embedding and the history event are not modelled; the timeline
-- that follows is in Emit.
pub mod Whole
pub mod Links
pub mod Loop
pub mod Files
pub mod Exact
pub mod Kept
pub mod Emit
mod Tests
mod EmitTests
use Prim.Native.String
use lv_dcp.Base.{
  ℕ, ◌+◌, String, ◌==◌, Bool, true, false, not, ◌&&◌, ◌||◌, Option, none, some, List, [], ◌∷◌, ◌++◌,
  map, keep, length, Dict, contains, ltb, ends_with, if◌then◌else◌,
}
use lv_dcp.Timeline.Bracket.{◌>>=◌}
use lv_dcp.Timeline.Rename.{include}
use lv_dcp.Paths.{is_ignored}
use lv_dcp.Storage.{
  File, Symbol, Relation, RelationRow, SqliteCache, put_file, get_file, replace_symbols,
  replace_relations,
}

pub record ParseResult : Type 0 where
  pub role : String
  pub symbols : List Symbol
  pub relations : List Relation

-- What the scan uses of other modules, over the bytes of a file.
pub record Tools (D : Type 0) : Type 0 where
  pub size : D → ℕ
  pub content_hash : D → String
  pub contains_secret_pattern : D → Bool
  pub decode : D → String
  pub detect_language : String → String
  pub get_parser : String → Option (String → D → ParseResult)

-- A path of the walk: its name under the root, none where it lies elsewhere, and its bytes, none
-- where they cannot be read.
pub record Entry (D : Type 0) : Type 0 where
  pub rel : Option String
  pub bytes : Option D

pub data Mode : Type 0 where
  full : Mode
  incremental : Mode

pub record Embed : Type 0 where
  pub file_path : String
  pub content : String
  pub content_hash : String
  pub language : String

-- The state of the loop.
pub record Progress : Type 0 where
  pub cache : SqliteCache
  pub fts : Dict String
  pub files_processed : List File
  pub total_symbols : ℕ
  pub total_relations : ℕ
  pub files_reparsed : ℕ
  pub visited_paths : List String
  pub changed_for_embed : List Embed

-- DELETE and INSERT of the full-text index.
abbrev pub index_file : String → String → Dict String → Dict String
index_file path content fts = keep (λ e. not (e.0 == path)) fts ++ ((path, content) ∷ [])

abbrev pub unindex_file : String → Dict String → Dict String
unindex_file path = keep (λ e. not (e.0 == path))

-- What the loop does with an entry, before it looks at the cache.
pub data Plan (D : Type 0) : Type 0 where
  pass : Plan D
  visit : String → Plan D
  parse : String → D → (String → D → ParseResult) → Plan D

-- only is not None and rel not in only
abbrev pub is_left_out : Option (List String) → String → Bool
is_left_out none rel = false
is_left_out (some only) rel = not (contains rel only)

module _ {D : Type 0} (tools : Tools D) where
  abbrev pub plan_parser : String → D → Option (String → D → ParseResult) → Plan D
  plan_parser rel bytes none = visit rel
  plan_parser rel bytes (some parser) = parse rel bytes parser

  abbrev pub plan_data : String → Option D → Plan D
  plan_data rel none = pass
  plan_data rel (some bytes) =
      if ends_with ".json" rel && ltb 100_000 (tools.size bytes)
      then pass
      else (if tools.detect_language rel == "unknown"
          then visit rel
          else plan_parser rel bytes (tools.get_parser (tools.detect_language rel)))

  -- The tests at the head of the loop's body.
  abbrev pub plan_rel : Option (List String) → Option String → Option D → Plan D
  plan_rel only none bytes = pass
  plan_rel only (some rel) bytes =
      if is_ignored rel || is_left_out only rel then pass else plan_data rel bytes

  unfoldable pub plan : Option (List String) → Entry D → Plan D
  plan only entry = plan_rel only entry.rel entry.bytes

abbrev pub visited : String → Progress → Progress
visited rel st = record st { visited_paths = include rel st.visited_paths }

-- The file of the cache that an incremental scan keeps.
abbrev pub unchanged_file : Mode → Option File → String → Option File
unchanged_file full cached new_hash = none
unchanged_file incremental none new_hash = none
unchanged_file incremental (some cached) new_hash =
    if cached.content_hash == new_hash then some cached else none

module _ {D : Type 0} (tools : Tools D) where
  abbrev pub file_entity : String → D → (String → D → ParseResult) → File
  file_entity rel bytes parser = record {
    path = rel;
    content_hash = tools.content_hash bytes;
    size_bytes = tools.size bytes;
    language = tools.detect_language rel;
    role = (parser rel bytes).role;
    is_generated = false;
    is_binary = false;
    has_secrets = tools.contains_secret_pattern bytes;
  }

  -- The text that is indexed.
  abbrev pub indexed_text : String → D → String
  indexed_text rel bytes =
      if tools.contains_secret_pattern bytes
      then rel
      else String.◌++◌ rel (String.◌++◌ "\n" (tools.decode bytes))

  abbrev pub is_embedded : String → D → Bool
  is_embedded rel bytes =
      (not (tools.contains_secret_pattern bytes)
        && not (contains (tools.detect_language rel) ("json" ∷ "yaml" ∷ "toml" ∷ [])))
      && not (tools.decode bytes == "")

  abbrev pub embed_of : String → D → List Embed
  embed_of rel bytes =
      if is_embedded rel bytes
      then record {
        file_path = rel;
        content = tools.decode bytes;
        content_hash = tools.content_hash bytes;
        language = tools.detect_language rel;
      }
        ∷ []
      else []

  -- What is left once the cache has the file.
  abbrev pub counted : String → D → (String → D → ParseResult) → SqliteCache → Progress → Progress
  counted rel bytes parser cache st =
      let parsed = parser rel bytes in
      record {
        cache = cache;
        fts = index_file rel (indexed_text rel bytes) st.fts;
        files_processed = st.files_processed ++ (file_entity rel bytes parser ∷ []);
        total_symbols = st.total_symbols + length parsed.symbols;
        total_relations = st.total_relations + length parsed.relations;
        files_reparsed = st.files_reparsed + 1;
        visited_paths = st.visited_paths;
        changed_for_embed = st.changed_for_embed ++ embed_of rel bytes;
      }

  abbrev pub cached_parse :
      String → D → (String → D → ParseResult) → SqliteCache → Option SqliteCache
  cached_parse rel bytes parser cache = do
    with_symbols ←
        replace_symbols rel (parser rel bytes).symbols
          (put_file (file_entity rel bytes parser) cache)
    replace_relations rel (parser rel bytes).relations with_symbols

  abbrev pub reparse : String → D → (String → D → ParseResult) → Progress → Option Progress
  reparse rel bytes parser st = do
    cache ← cached_parse rel bytes parser st.cache
    some (counted rel bytes parser cache st)

  abbrev pub take_or_parse :
      String → D → (String → D → ParseResult) → Progress → Option File → Option Progress
  take_or_parse rel bytes parser st (some cached) =
      some (record st { files_processed = st.files_processed ++ (cached ∷ []) })
  take_or_parse rel bytes parser st none = reparse rel bytes parser st

  abbrev pub process_file : Mode → Plan D → Progress → Option Progress
  process_file mode pass st = some st
  process_file mode (visit rel) st = some (visited rel st)
  process_file mode (parse rel bytes parser) st =
      take_or_parse rel bytes parser (visited rel st)
        (unchanged_file mode (get_file rel st.cache) (tools.content_hash bytes))

  -- None where the cache raises.
  unfoldable pub process_and_index_files : Mode → List (Plan D) → Progress → Option Progress
  process_and_index_files mode [] st = some st
  process_and_index_files mode (p ∷ plans) st = do
    st' ← process_file mode p st
    process_and_index_files mode plans st'
