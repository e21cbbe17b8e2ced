-- ===== src/Wiki/Tests.antt =====
-- Runs of the wiki's state and update, and their theorems on them.
use lv_dcp.Base.{
  text_length, ◌+◌, String, ◌≡◌, refl, true, false, none, some, List, [], ◌∷◌, length, sorted,
  join_ended, split_on, ends_with, prefix, starts_with, if◌then◌else◌, ◌==◌,
}
use lv_dcp.Refresh.{absent, read_last_refresh}
use lv_dcp.Refresh.Runner.{Run, returned, main}
use lv_dcp.Refresh.Record.{last_done}
use lv_dcp.Wiki.{
  WikiRow, dirty, current, SourceFile, compute_module_hash, get_dirty_modules, wiki_filename,
  flatten_path, has_md, mark_dirty, mark_current, module_of, group_files, update_modules,
  update_dirty_state,
}
use lv_dcp.Wiki.Update.{
  Request, Article, article, raised, Cache, run_wiki_update, module_files, module_of_ref,
  request_of, skip_message, update_each, chosen,
}
use lv_dcp.Wiki.Settled.{update_dirty_state-run, run_wiki_update-dirty, main-run_wiki_update}

program : Unit {0}
unfolding compute_module_hash get_dirty_modules wiki_filename flatten_path has_md text_length
    mark_dirty mark_current module_of group_files update_modules update_dirty_state run_wiki_update
    module_files module_of_ref request_of skip_message update_each chosen sorted join_ended split_on
    ends_with prefix starts_with
program = tt

test_wiki_filename : wiki_filename "libs/wiki" ≡ "modules/libs-wiki.md"
unfolding program
test_wiki_filename = refl

test_wiki_filename_docs : wiki_filename "README.MD" ≡ "modules/README.md"
unfolding program
test_wiki_filename_docs = refl

test_module_of : module_of "libs/wiki/state.py" ≡ "libs/wiki"
unfolding program
test_module_of = refl

abbrev files : List SourceFile
files =
    record { path = "libs/wiki/state.py"; content_hash = "b" }
    ∷ record { path = "README.md"; content_hash = "c" }
    ∷ record { path = "libs/wiki/lint.py"; content_hash = "a" }
    ∷ []

-- Hashes as they are, one after another.
abbrev plain : String → String
plain text = text

abbrev rows : List WikiRow
rows =
    record {
      module_path = "README.md";
      wiki_file = "modules/README.md";
      last_generated_ts = 5;
      source_hash = "c";
      status = current;
    }
    ∷ []

test_update : update_dirty_state plain files rows ≡ (
  record {
    module_path = "README.md";
    wiki_file = "modules/README.md";
    last_generated_ts = 5;
    source_hash = "c";
    status = current;
  }
      ∷ record {
        module_path = "libs/wiki";
        wiki_file = "modules/libs-wiki.md";
        last_generated_ts = 0;
        source_hash = "ab";
        status = dirty;
      }
      ∷ [],
  1,
)
unfolding program
test_update = refl

abbrev cache : Cache
cache = record { files = "libs/wiki/state.py" ∷ "README.md" ∷ []; symbols = []; relations = [] }

-- A generator that knows nothing of README.md.
abbrev generate : Request → Article
generate request =
    if request.module_path == "README.md" then raised "quota" else article request.module_path

abbrev stale : List WikiRow
stale =
    record {
      module_path = "README.md";
      wiki_file = "modules/README.md";
      last_generated_ts = 0;
      source_hash = "c";
      status = dirty;
    }
    ∷ record {
      module_path = "libs/wiki";
      wiki_file = "modules/libs-wiki.md";
      last_generated_ts = 0;
      source_hash = "ab";
      status = dirty;
    }
    ∷ []

test_run :
    (run_wiki_update generate cache (λ idx. 10 + idx) false stale []).messages
    ≡ "wiki: README.md skipped — quota" ∷ []
unfolding program
test_run = refl

update_dirty_state-run_example :
    (let marked = (update_dirty_state plain files rows).0 in
      let after = (run_wiki_update generate cache (λ idx. 10 + idx) false marked []).rows in
      update_dirty_state plain files after ≡ (after, 0))
update_dirty_state-run_example =
    update_dirty_state-run plain files generate cache (λ idx. 10 + idx) false rows [] (refl, tt)

run_wiki_update-dirty_example :
    (let after = run_wiki_update generate cache (λ idx. 10 + idx) false stale [] in
      (after.updated + length (get_dirty_modules after.rows) ≡ length (get_dirty_modules stale))
      × (last_done 0 after.calls ≡ length (get_dirty_modules stale)))
run_wiki_update-dirty_example =
    run_wiki_update-dirty generate cache (λ idx. 10 + idx) stale [] (refl, (refl, tt))

abbrev process : Run
process = record {
  pid = 7;
  all_modules = false;
  locks = 100;
  begins = 101;
  ends = 130;
  log = none;
  can_write = true;
}

main-run_wiki_update_example :
    (let after = run_wiki_update generate cache (λ idx. 10 + idx) false stale [] in
      read_last_refresh
        (main process after.calls
          (returned after.updated)
          (record { lock = absent; last = absent })).0.last
      ≡ some (record {
        completed_at = 130;
        exit_code = 0;
        modules_updated = length (get_dirty_modules stale);
        elapsed_seconds = 29;
        log_tail = none;
      }))
main-run_wiki_update_example =
    main-run_wiki_update generate cache (λ idx. 10 + idx) stale [] process
      (record { lock = absent; last = absent }) (refl, (refl, tt)) refl
