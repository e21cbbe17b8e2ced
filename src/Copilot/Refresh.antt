-- ===== src/Copilot/Refresh.antt =====
-- `refresh_project` and `refresh_wiki` of libs/copilot/orchestrator.py. `show` is Python's `str` of
-- a number and of None; the line on a scan, with its rounded time, is given by the scan.
use Prim.Native.String
use lv_dcp.Base.{
  ℕ, String, ◌≡◌, refl, Bool, true, false, Option, none, some, List, [], ◌∷◌, ◌++◌, Dict,
  if◌then◌else◌, Bool-cases, arith,
}
use lv_dcp.Timeline.Bracket.{◌>>=◌}
use lv_dcp.Refresh.{Os, WikiDir, BackgroundRefreshStatus, read_status}
use lv_dcp.Refresh.Calls.{Start, start_on, start_background_refresh}
use lv_dcp.Wiki.{WikiRow}
use lv_dcp.Wiki.Update.{Request, Article, Cache, chosen, run_wiki_update}

pub record CopilotRefreshReport : Type 0 where
  pub project_root : String
  pub project_name : String
  pub scanned : Bool
  pub scan_files : ℕ
  pub scan_reparsed : ℕ
  pub scan_elapsed_seconds : ℕ
  pub wiki_refreshed : Bool
  pub wiki_refresh_background_started : Bool
  pub wiki_modules_updated : ℕ
  pub messages : List String

-- A project on the disk, as these calls see it.
pub record Project : Type 0 where
  pub cache_exists : Bool
  pub wiki_dir : WikiDir
  pub rows : List WikiRow
  pub articles : Dict String

pub record Scanned : Type 0 where
  pub files_scanned : ℕ
  pub files_reparsed : ℕ
  pub elapsed_seconds : ℕ
  pub line : String

-- What surrounds a call: `pid` is the number that a process would get.
pub record Env : Type 0 where
  pub root : String
  pub name : String
  pub os : Os
  pub pid : ℕ
  pub show : Option ℕ → String
  pub generate : Request → Article
  pub cache : Cache
  pub clock : ℕ → ℕ

-- The project after the call, the process it launched, and its report.
pub record Refreshed : Type 0 where
  pub project : Project
  pub spawned : Option ℕ
  pub report : CopilotRefreshReport

unfoldable pub background_message : (Option ℕ → String) → BackgroundRefreshStatus → String
background_message show status =
    if status.in_progress
    then String.◌++◌ "wiki: background refresh started (pid="
        (String.◌++◌ (show status.pid) ", log=.context/wiki/.refresh.log)")
    else "wiki: background refresh skipped — a refresh is already running"

unfoldable pub updated_message : (Option ℕ → String) → ℕ → String
updated_message show updated =
    String.◌++◌ "wiki: " (String.◌++◌ (show (some updated)) " module(s) updated")

abbrev pub closing : (Option ℕ → String) → List WikiRow → ℕ → List String
closing show [] updated = []
closing show (row ∷ rest) updated = updated_message show updated ∷ []

abbrev pub wiki_report : Env → Bool → Bool → Bool → ℕ → List String → CopilotRefreshReport
wiki_report env scanned refreshed started updated messages = record {
  project_root = env.root;
  project_name = env.name;
  scanned = scanned;
  scan_files = 0;
  scan_reparsed = 0;
  scan_elapsed_seconds = 0;
  wiki_refreshed = refreshed;
  wiki_refresh_background_started = started;
  wiki_modules_updated = updated;
  messages = messages;
}

abbrev pub in_background : Env → Project → Start → Refreshed
in_background env project call = record {
  project = record project { wiki_dir = call.dir };
  spawned = call.spawned;
  report =
      wiki_report env true false call.status.in_progress 0
        (background_message env.show call.status ∷ []);
}

abbrev pub in_process : Env → Bool → Project → Refreshed
in_process env all_modules project =
    let wiki =
      run_wiki_update env.generate env.cache env.clock all_modules project.rows project.articles in
    record {
      project = record project { rows = wiki.rows; articles = wiki.articles };
      spawned = none;
      report =
          wiki_report env true true false wiki.updated
            (wiki.messages ++ closing env.show (chosen all_modules project.rows) wiki.updated);
    }

-- None where `start_background_refresh` raises.
unfoldable pub refresh_wiki : Env → Bool → Bool → Project → Option Refreshed
refresh_wiki env all_modules background project =
    if project.cache_exists
    then (if background
        then (start_background_refresh env.os env.root all_modules env.pid project.wiki_dir
            >>= λ call. some (in_background env project call))
        else some (in_process env all_modules project))
    else some (record {
      project = project;
      spawned = none;
      report = wiki_report env false false false 0 ("wiki: skipped — project is not scanned" ∷ []);
    })

-- The report on a scan and what followed it: whether the wiki was refreshed or a refresh started,
-- the number of modules, and the lines after that of the scan.
abbrev pub project_report : Env → Scanned → Bool → Bool → ℕ → List String → CopilotRefreshReport
project_report env scan refreshed started updated messages = record {
  project_root = env.root;
  project_name = env.name;
  scanned = true;
  scan_files = scan.files_scanned;
  scan_reparsed = scan.files_reparsed;
  scan_elapsed_seconds = scan.elapsed_seconds;
  wiki_refreshed = refreshed;
  wiki_refresh_background_started = started;
  wiki_modules_updated = updated;
  messages = scan.line ∷ messages;
}

abbrev pub after_start : Env → Scanned → Project → Start → Refreshed
after_start env scan project call = record {
  project = record project { wiki_dir = call.dir };
  spawned = call.spawned;
  report =
      project_report env scan false call.status.in_progress 0
        (background_message env.show call.status ∷ []);
}

abbrev pub after_wiki : Env → Scanned → Refreshed → Refreshed
after_wiki env scan wiki = record wiki {
  report =
      project_report env scan wiki.report.wiki_refreshed false wiki.report.wiki_modules_updated
        wiki.report.messages;
}

-- What follows the scan.
abbrev pub after_scan : Env → Bool → Bool → Project → Scanned → Option Refreshed
after_scan env false wiki_background project scan = some (record {
  project = project;
  spawned = none;
  report = project_report env scan false false 0 [];
})
after_scan env true true project scan = do
  call ← start_background_refresh env.os env.root false env.pid project.wiki_dir
  some (after_start env scan project call)
after_scan env true false project scan = do
  wiki ← refresh_wiki env false false project
  some (after_wiki env scan wiki)

-- `scan` is the scan of the project, which changes it.
unfoldable pub refresh_project :
    Env → (Bool → Project → Project × Scanned) → Bool → Bool → Bool → Project → Option Refreshed
refresh_project env scan full refresh_wiki_after wiki_background project =
    let (scanned, scan_res) = scan full project in
    after_scan env refresh_wiki_after wiki_background scanned scan_res

start_on-result :
    (os : Os) (root : String) (all_modules : Bool) (pid : ℕ) (dir : WikiDir)
    (current : BackgroundRefreshStatus)
    → (let call = start_on os root all_modules pid dir current in
        (call.status.in_progress ≡ true)
        × (call.spawned ≡ (if current.in_progress then none else some pid)))
start_on-result os root all_modules pid dir current = ground (arith, Bool-cases current.in_progress)

-- A wiki refresh in the background of a project that is scanned always reports that it started one,
-- though it launches a process only where none is in progress.
pub refresh_wiki-started :
    (env : Env) (all_modules : Bool) (project : Project) (status : BackgroundRefreshStatus)
    → project.cache_exists ≡ true
    → read_status env.os env.root project.wiki_dir ≡ some status
    → (result : Refreshed) × ((refresh_wiki env all_modules true project ≡ some result)
        × ((result.report.wiki_refresh_background_started ≡ true)
            × (result.spawned ≡ (if status.in_progress then none else some env.pid))))
unfolding refresh_wiki start_background_refresh
refresh_wiki-started env all_modules project status exists known =
    let call = start_on env.os env.root all_modules env.pid project.wiki_dir status in
    (
      in_background env project call,
      (
        rw (exists, known) refl,
        start_on-result env.os env.root all_modules env.pid project.wiki_dir status,
      ),
    )
