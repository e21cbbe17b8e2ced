-- ===== src/Copilot/Tests.antt =====
-- Runs of the copilot's calls, and their theorems on them.
use lv_dcp.Base.{
  ℕ, ◌+◌, ◌*◌, ◌≤◌, ltb, ◌≡◌, refl, Bool, true, false, none, some, List, [], ◌∷◌, length, arith,
  if◌then◌else◌,
}
use lv_dcp.Refresh.{
  absent, holds, value, null, WikiDir, Os, BackgroundRefreshStatus, read_status, read_last_refresh,
  lock_path,
}
use lv_dcp.Refresh.Calls.{start_background_refresh}
use lv_dcp.Wiki.Update.{article}
use lv_dcp.Copilot.{
  not_scanned, wiki_missing, wiki_stale, ambiguous, CopilotCheckReport, Found, degraded,
  check_project,
}
use lv_dcp.Copilot.Modes.{is_reported, check_project-modes}
use lv_dcp.Copilot.Watch.{
  Ended, settled, IsOver, watch_loop, watch_check_project, watch_check_project-IsOver,
}
use lv_dcp.Copilot.Refresh.{
  Env, Project, Refreshed, refresh_wiki, refresh_wiki-started, background_message,
}
use lv_dcp.Copilot.Ask.{
  has_mode, PackOutcome, Services, Question, CopilotAskReport, ask_project, add_hints, answered,
}
use lv_dcp.Copilot.Asked.{IsAnswer, ask_project-IsAnswer}

program : Unit {0}
unfolding read_status read_last_refresh lock_path start_background_refresh degraded check_project
    watch_loop watch_check_project refresh_wiki background_message ask_project add_hints answered
program = tt

-- A refresh of process 7 is in progress.
abbrev running : WikiDir
running = record {
  lock = holds (record {
    pid = value 7;
    started_at = value 100;
    all_modules = value true;
    phase = value "generating";
    modules_total = value 3;
    modules_done = value 1;
    current_module = null;
  });
  last = absent;
}

abbrev os : Os
os = record { now = 200; alive = λ pid. true }

abbrev found : Found
found = record {
  root = "/p";
  name = "p";
  card = record {
    last_scan_status = "ok";
    stale = true;
    last_scan_at_iso = none;
    files = 4;
    symbols = 9;
    relations = 2;
  };
  cache_exists = true;
  index_exists = true;
  dirty_modules = some 2;
  qdrant = none;
  os = os;
  wiki_dir = running;
}

abbrev status : BackgroundRefreshStatus
status = record {
  in_progress = true;
  pid = some 7;
  started_at = some 100;
  lock_path = some "/p/.context/wiki/.refresh.lock";
  stale = false;
  phase = some "generating";
  modules_total = some 3;
  modules_done = 1;
  current_module = none;
  last_run = none;
}

known : read_status os "/p" running ≡ some status
unfolding program
known = refl

run_modes :
    (report : CopilotCheckReport) × ((check_project found ≡ some report)
      × (has_mode wiki_stale report.degraded_modes ≡ is_reported found wiki_stale))
run_modes = check_project-modes found status wiki_stale known

abbrev report : Bool → CopilotCheckReport
report in_progress = record {
  project_root = "/p";
  project_name = "p";
  scanned = true;
  stale = false;
  last_scan_at_iso = none;
  files = 4;
  symbols = 9;
  relations = 2;
  wiki_present = true;
  wiki_dirty_modules = 0;
  wiki_refresh_in_progress = in_progress;
  wiki_refresh_phase = none;
  wiki_refresh_modules_total = none;
  wiki_refresh_modules_done = 0;
  wiki_refresh_current_module = none;
  wiki_refresh_pid = none;
  wiki_last_refresh_completed_at = none;
  wiki_last_refresh_exit_code = none;
  wiki_last_refresh_modules_updated = none;
  wiki_last_refresh_elapsed_seconds = none;
  wiki_last_refresh_log_tail = none;
  qdrant_enabled = true;
  degraded_modes = [];
}

-- The refresh ends with the third report.
test_watch :
    watch_check_project 500 2_000 0 (λ k. k * 500) (λ k. report (ltb k 2)) 9
    ≡ some (report true ∷ report true ∷ report false ∷ [], settled)
unfolding program
test_watch = refl

watch_check_project-IsOver_example :
    (watched : List CopilotCheckReport × Ended) × ((watch_check_project 500 2_000 0
          (λ k. k * 500)
          (λ k. report true)
          5
        ≡ some watched)
      × (IsOver watched.1 × (length watched.0 ≤ 5)))
watch_check_project-IsOver_example =
    watch_check_project-IsOver 500 2_000 0 (λ k. k * 500) (λ k. report true) 4 (omega arith)
      (omega arith) (λ k. omega arith) (omega arith)

abbrev project : Project
project = record { cache_exists = true; wiki_dir = running; rows = []; articles = [] }

abbrev env : Env
env = record {
  root = "/p";
  name = "p";
  os = os;
  pid = 8;
  show = λ n. "7";
  generate = λ request. article request.module_path;
  cache = record { files = []; symbols = []; relations = [] };
  clock = λ idx. 10;
}

-- A refresh runs already, and the report says that one was started.
refresh_wiki-started_example :
    (result : Refreshed) × ((refresh_wiki env true true project ≡ some result)
      × ((result.report.wiki_refresh_background_started ≡ true) × (result.spawned ≡ none)))
refresh_wiki-started_example = refresh_wiki-started env true project status refl known

abbrev outcome : PackOutcome
outcome = record {
  markdown = "# Pack";
  trace_id = "t1";
  coverage = "ambiguous";
  retrieved_files = "a.py" ∷ [];
}

-- A project that counts its scans, and has no wiki.
abbrev services : Services ℕ
services = record {
  check = λ w. if ltb 0 w then wiki_missing ∷ [] else not_scanned ∷ wiki_missing ∷ [];
  refresh = λ w. w + 1;
  invoke = λ query mode limit w. (w, some outcome);
}

abbrev question : Question
question = record {
  root = "/p";
  name = "p";
  query = "where";
  mode = "navigate";
  limit = 10;
  auto_refresh = true;
}

test_ask : (ask_project services question 0).1.degraded_modes ≡ wiki_missing ∷ ambiguous ∷ []
unfolding program
test_ask = refl

run_ask :
    (report : CopilotAskReport) × ((ask_project services question 0 ≡ (1, report))
      × IsAnswer report outcome)
run_ask = ask_project-IsAnswer services question 0 1 outcome refl refl
