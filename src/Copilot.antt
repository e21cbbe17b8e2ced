-- ===== src/Copilot.antt =====
-- libs/copilot/models.py, and `check_project` of libs/copilot/orchestrator.py: the report on a
-- project and what is degraded in it. The health card of the project, its cache and its settings are
-- given; a read of them that fails is none.
pub mod Modes
pub mod Watch
pub mod Refresh
pub mod Ask
pub mod Asked
mod Tests
use lv_dcp.Base.{
  ℕ, String, ◌==◌, Bool, true, false, not, ◌&&◌, ◌||◌, Option, none, some, List, [], ◌∷◌, ◌++◌, ltb,
  if◌then◌else◌,
}
use lv_dcp.Timeline.Bracket.{◌>>=◌}
use lv_dcp.Refresh.{BackgroundRefreshStatus, LastRefreshRecord, Os, WikiDir, read_status}

pub data DegradedMode : Type 0 where
  not_scanned : DegradedMode
  stale_scan : DegradedMode
  wiki_missing : DegradedMode
  wiki_stale : DegradedMode
  qdrant_off : DegradedMode
  ambiguous : DegradedMode

pub record CopilotCheckReport : Type 0 where
  pub project_root : String
  pub project_name : String
  pub scanned : Bool
  pub stale : Bool
  pub last_scan_at_iso : Option String
  pub files : ℕ
  pub symbols : ℕ
  pub relations : ℕ
  pub wiki_present : Bool
  pub wiki_dirty_modules : ℕ
  pub wiki_refresh_in_progress : Bool
  pub wiki_refresh_phase : Option String
  pub wiki_refresh_modules_total : Option ℕ
  pub wiki_refresh_modules_done : ℕ
  pub wiki_refresh_current_module : Option String
  pub wiki_refresh_pid : Option ℕ
  pub wiki_last_refresh_completed_at : Option ℕ
  pub wiki_last_refresh_exit_code : Option ℕ
  pub wiki_last_refresh_modules_updated : Option ℕ
  pub wiki_last_refresh_elapsed_seconds : Option ℕ
  pub wiki_last_refresh_log_tail : Option (List String)
  pub qdrant_enabled : Bool
  pub degraded_modes : List DegradedMode

-- The fields of the health card that are read.
pub record HealthCard : Type 0 where
  pub last_scan_status : String
  pub stale : Bool
  pub last_scan_at_iso : Option String
  pub files : ℕ
  pub symbols : ℕ
  pub relations : ℕ

-- What `check_project` finds: whether the cache and the wiki's index are on the disk, the number of
-- dirty modules and the setting of Qdrant, if these can be read, and the state of the refresh.
pub record Found : Type 0 where
  pub root : String
  pub name : String
  pub card : HealthCard
  pub cache_exists : Bool
  pub index_exists : Bool
  pub dirty_modules : Option ℕ
  pub qdrant : Option Bool
  pub os : Os
  pub wiki_dir : WikiDir

abbrev pub or_zero : Option ℕ → ℕ
or_zero none = 0
or_zero (some n) = n

abbrev pub count_dirty_wiki_modules : Found → ℕ
count_dirty_wiki_modules found = if found.cache_exists then or_zero found.dirty_modules else 0

abbrev pub is_enabled : Option Bool → Bool
is_enabled none = false
is_enabled (some b) = b

abbrev pub is_scanned : Found → Bool
is_scanned found =
    (not (found.card.last_scan_status == "unregistered") && ltb 0 found.card.files)
    || found.cache_exists

-- The three tests, in the order of the source.
unfoldable pub degraded : Bool → Bool → Bool → Bool → Bool → List DegradedMode
degraded scanned stale wiki_present has_dirty qdrant_enabled =
    (if scanned then (if stale then stale_scan ∷ [] else []) else not_scanned ∷ [])
    ++ ((if wiki_present then (if has_dirty then wiki_stale ∷ [] else []) else wiki_missing ∷ [])
        ++ (if qdrant_enabled then [] else qdrant_off ∷ []))

abbrev pub of_last {ℓ} :
    {A : Type ℓ} → (LastRefreshRecord → A) → Option LastRefreshRecord → Option A
of_last f none = none
of_last f (some last_run) = some (f last_run)

abbrev pub tail_of_last : Option LastRefreshRecord → Option (List String)
tail_of_last none = none
tail_of_last (some last_run) = last_run.log_tail

abbrev pub report_of : Found → BackgroundRefreshStatus → CopilotCheckReport
report_of found bg_status =
    let scanned = is_scanned found in
    let wiki_dirty = count_dirty_wiki_modules found in
    let qdrant_enabled = is_enabled found.qdrant in
    let running = bg_status.in_progress in
    record {
      project_root = found.root;
      project_name = found.name;
      scanned = scanned;
      stale = found.card.stale;
      last_scan_at_iso = found.card.last_scan_at_iso;
      files = found.card.files;
      symbols = found.card.symbols;
      relations = found.card.relations;
      wiki_present = found.index_exists;
      wiki_dirty_modules = wiki_dirty;
      wiki_refresh_in_progress = running;
      wiki_refresh_phase = if running then bg_status.phase else none;
      wiki_refresh_modules_total = if running then bg_status.modules_total else none;
      wiki_refresh_modules_done = if running then bg_status.modules_done else 0;
      wiki_refresh_current_module = if running then bg_status.current_module else none;
      wiki_refresh_pid = if running then bg_status.pid else none;
      wiki_last_refresh_completed_at = of_last (λ r. r.completed_at) bg_status.last_run;
      wiki_last_refresh_exit_code = of_last (λ r. r.exit_code) bg_status.last_run;
      wiki_last_refresh_modules_updated = of_last (λ r. r.modules_updated) bg_status.last_run;
      wiki_last_refresh_elapsed_seconds = of_last (λ r. r.elapsed_seconds) bg_status.last_run;
      wiki_last_refresh_log_tail = tail_of_last bg_status.last_run;
      qdrant_enabled = qdrant_enabled;
      degraded_modes =
          degraded scanned found.card.stale found.index_exists (ltb 0 wiki_dirty) qdrant_enabled;
    }

-- None where the lock makes `read_status` raise.
unfoldable pub check_project : Found → Option CopilotCheckReport
check_project found = do
  bg_status ← read_status found.os found.root found.wiki_dir
  some (report_of found bg_status)
