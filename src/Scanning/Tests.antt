-- ===== src/Scanning/Tests.antt =====
-- Runs of a scan, and its theorems on them.
use lv_dcp.Base.{
  text_length, ℕ, String, ◌==◌, ◌≡◌, refl, ap, Bool, true, false, Option, none, some, List, [], ◌∷◌,
  map, if◌then◌else◌, starts_with, is_inside, ends_with, split_on, arith,
}
use lv_dcp.Paths.{is_ignored, basename}
use lv_dcp.Wiki.{
  dirty, current, update_dirty_state, update_modules, group_files, mark_dirty, wiki_filename,
  flatten_path, has_md, module_of, compute_module_hash,
}
use lv_dcp.Base.{sorted, join_ended, prefix}
use lv_dcp.Storage.{
  Symbol, get_file, insert_symbols, replace_symbols, insert_relations, replace_relations,
  delete_file,
}
use lv_dcp.Storage.Intact.{IsIntact, or_given}
use lv_dcp.Scanning.{
  Tools, Entry, full, incremental, parse, plan, ParseResult, process_and_index_files, file_entity,
}
use lv_dcp.Scanning.Loop.{ParsesOwn, IsFaithful}
use lv_dcp.Scanning.Files.{planned-IsFaithful}
use lv_dcp.Scanning.Links.{
  LinksOwn, extract_specifies_relations, extract_specifies_relations-LinksOwn,
}
use lv_dcp.Scanning.Whole.{
  Around, Project, ScanResult, scan_project, put_all_stats, docs_files, link_docs, delete_all,
  unindex_all,
}
use lv_dcp.Scanning.Exact.{scanned_row, scan_project-row, scan_project-modes}
use lv_dcp.Scanning.Kept.{scan_project-IsIntact}

program : Unit {0}
unfolding is_ignored basename starts_with is_inside ends_with split_on update_dirty_state
    update_modules group_files mark_dirty wiki_filename flatten_path has_md text_length module_of
    compute_module_hash sorted join_ended prefix insert_symbols replace_symbols insert_relations
    replace_relations delete_file plan process_and_index_files scan_project put_all_stats docs_files
    link_docs delete_all unindex_all extract_specifies_relations
program = tt

abbrev symbol : String → String → Symbol
symbol path fq_name = record {
  name = fq_name;
  fq_name = fq_name;
  symbol_type = "function";
  file_path = path;
  start_line = 1;
  end_line = 2;
  parent_fq_name = none;
  signature = none;
  docstring = none;
}

-- A file of Python holds one symbol, which its text names; b.py is a document, which names a.py.
abbrev parser : String → String → ParseResult
parser rel text = record {
  role = if rel == "b.py" then "docs" else "source";
  symbols = symbol rel text ∷ [];
  relations = [];
}

abbrev get_parser : String → Option (String → String → ParseResult)
get_parser language = if language == "python" then some parser else none

abbrev tools : Tools String
tools = record {
  size = λ text. 10;
  content_hash = λ text. text;
  contains_secret_pattern = λ text. false;
  decode = λ text. text;
  detect_language = λ rel. if rel == "notes" then "unknown" else "python";
  get_parser = get_parser;
}

-- A document that names one file.
abbrev file_refs : String → List String
file_refs content = if content == "" then [] else content ∷ []

abbrev around : Around
around = record {
  digest = λ text. text;
  git_stats = [];
  read_text = λ path. some "a.py";
  extract_specifies_relations = extract_specifies_relations 1000 file_refs (λ content. []);
}

-- The cache has a.py with this text.
abbrev project : Project
project = record {
  cache = record {
    files = file_entity tools "a.py" "run" parser ∷ [];
    symbols = [];
    relations = [];
    git_stats = [];
  };
  fts = [];
  wiki = [];
}

abbrev entries : List (Entry String)
entries =
    record { rel = some "b.py"; bytes = some "main" }
    ∷ record { rel = some "notes"; bytes = some "text" }
    ∷ record { rel = some ".git/config"; bytes = some "text" }
    ∷ record { rel = none; bytes = none }
    ∷ []

own : ParsesOwn tools
own language p e rel text =
    let (known, same) = parser_is (language == "python") p e in rw (← same) (refl, tt)
  where
    parser_is :
        (b : Bool) (q : String → String → ParseResult)
        → (if b then some parser else none) ≡ some q
        → (b ≡ true) × (parser ≡ q)
    parser_is true q e = (refl, ap (or_given parser) e)
    parser_is false q e = absurd (ground (arith, e))

faithful : IsFaithful tools project.cache.files
faithful =
    planned-IsFaithful tools (parse "a.py" "run" parser) [] project.cache.files refl
      (λ p f e. absurd (ground (arith, e))) λ p. refl

linked : LinksOwn around.extract_specifies_relations
linked = extract_specifies_relations-LinksOwn 1000 file_refs (λ content. [])

scan_project-row_example :
    (result : Project × ScanResult) × ((scan_project tools around full none entries project
        ≡ some result)
      × ((p : String)
          → get_file p result.0.cache
            ≡ scanned_row tools (map (plan tools none) entries) p (get_file p project.cache)))
scan_project-row_example =
    scan_project-row tools around own (λ a b same. same) linked full entries project faithful

scan_project-modes_example :
    (quick : Project × ScanResult) × ((slow : Project × ScanResult) × ((scan_project tools around
            incremental none entries project
          ≡ some quick)
        × ((scan_project tools around full none entries project ≡ some slow)
            × ((p : String) → get_file p quick.0.cache ≡ get_file p slow.0.cache))))
scan_project-modes_example =
    scan_project-modes tools around own (λ a b same. same) linked entries project faithful

-- The cache, the index and the wiki after the scan.
abbrev after : Project × ScanResult
after = (
  record {
    cache = record {
      files = file_entity tools "b.py" "main" parser ∷ [];
      symbols = symbol "b.py" "main" ∷ [];
      relations =
          record {
            relation = record {
              src_type = "file";
              src_ref = "b.py";
              dst_type = "file";
              dst_ref = "a.py";
              relation_type = "specifies";
              confidence = 1000;
              provenance = "docs_linker";
            };
            origin_file = "b.py";
          }
          ∷ [];
      git_stats = [];
    };
    fts = ("b.py", "b.py\nmain") ∷ [];
    wiki =
        record {
          module_path = "b.py";
          wiki_file = "modules/b.py.md";
          last_generated_ts = 0;
          source_hash = "main";
          status = dirty;
        }
        ∷ [];
  },
  record {
    files_scanned = 1;
    files_reparsed = 1;
    stale_files_removed = 1;
    symbols_extracted = 1;
    relations_reparsed = 0;
    relations_cached = 1;
    wiki_dirty_count = 1;
  },
)

scans : scan_project tools around full none entries project ≡ some after
unfolding program
scans = refl

scan_project-IsIntact_example : IsIntact after.0.cache
scan_project-IsIntact_example =
    scan_project-IsIntact tools around full none entries project after
      (record { files_unique = (refl, tt); symbols_known = tt; relations_known = tt }) scans

-- Two files of one module, neither of which has changed since the wiki was made.
abbrev settled : Project
settled = record {
  cache = record {
    files = file_entity tools "m/x/a.py" "1" parser ∷ file_entity tools "m/x/b.py" "2" parser ∷ [];
    symbols = [];
    relations = [];
    git_stats = [];
  };
  fts = [];
  wiki =
      record {
        module_path = "m/x";
        wiki_file = "modules/m-x.md";
        last_generated_ts = 5;
        source_hash = "12";
        status = current;
      }
      ∷ [];
}

abbrev both : List (Entry String)
both =
    record { rel = some "m/x/a.py"; bytes = some "1" }
    ∷ record { rel = some "m/x/b.py"; bytes = some "2" }
    ∷ []

abbrev dirty_count : Option (Project × ScanResult) → Option ℕ
dirty_count none = none
dirty_count (some result) = some result.1.wiki_dirty_count

-- A scan of the project marks no module, but one of a single file does: it takes the hash of that
-- file alone for the module's.
test_whole : dirty_count (scan_project tools around incremental none both settled) ≡ some 0
unfolding program
test_whole = refl

test_partial :
    dirty_count (scan_project tools around incremental (some ("m/x/a.py" ∷ [])) both settled)
    ≡ some 1
unfolding program
test_partial = refl

test_links :
    map
      (λ r. r.dst_ref)
      (extract_specifies_relations 1000 file_refs
        (λ content. "libs.core" ∷ "libs.core" ∷ [])
        (("notes.md", "a.py") ∷ [])
        ("a.py" ∷ "libs/core.py" ∷ []))
    ≡ "a.py" ∷ "libs/core.py" ∷ []
unfolding extract_specifies_relations
test_links = refl
