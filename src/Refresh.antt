-- ===== src/Refresh.antt =====
-- libs/copilot/wiki_background.py: the lock file of the wiki's background refresh, the record of the
-- last run, and the calls that start, watch and stop a run. A file is a value of its JSON payload;
-- a number is a natural one, and a key's value has the type that the program writes there. A write
-- goes to a second file that is then renamed, so it is one step. The log calls are not modelled.
pub mod Calls
pub mod Launch
pub mod Record
pub mod Runner
pub mod System
pub mod Sound
pub mod Single
pub mod Headless
mod Tests
use Prim.Native.String
use lv_dcp.Base.{
  ℕ, zero, suc, ◌-◌, String, ◌==◌, Bool, true, false, not, ◌&&◌, ◌||◌, Option, none, some, List, [],
  ◌∷◌, ltb, length, drop, is_some, if◌then◌else◌,
}
use lv_dcp.Timeline.Bracket.{◌>>=◌}

abbrev pub stale_lock_after_seconds : ℕ
stale_lock_after_seconds = 3_600

abbrev pub max_log_tail_lines : ℕ
max_log_tail_lines = 20

abbrev pub phase_starting : String
phase_starting = "starting"

abbrev pub phase_loading : String
phase_loading = "loading"

abbrev pub phase_generating : String
phase_generating = "generating"

abbrev pub phase_finalizing : String
phase_finalizing = "finalizing"

pub record LastRefreshRecord : Type 0 where
  pub completed_at : ℕ
  pub exit_code : ℕ
  pub modules_updated : ℕ
  pub elapsed_seconds : ℕ
  pub log_tail : Option (List String)

pub record BackgroundRefreshStatus : Type 0 where
  pub in_progress : Bool
  pub pid : Option ℕ
  pub started_at : Option ℕ
  pub lock_path : Option String
  pub stale : Bool
  pub phase : Option String
  pub modules_total : Option ℕ
  pub modules_done : ℕ
  pub current_module : Option String
  pub last_run : Option LastRefreshRecord

-- What a key of a payload holds.
pub data Key (A : Type 0) : Type 0 where
  missing : Key A
  null : Key A
  value : A → Key A

pub record LockPayload : Type 0 where
  pub pid : Key ℕ
  pub started_at : Key ℕ
  pub all_modules : Key Bool
  pub phase : Key String
  pub modules_total : Key ℕ
  pub modules_done : Key ℕ
  pub current_module : Key String

pub record LastPayload : Type 0 where
  pub completed_at : Key ℕ
  pub exit_code : Key ℕ
  pub modules_updated : Key ℕ
  pub elapsed_seconds : Key ℕ
  pub log_tail : Key (List String)

-- A file that `json.loads` takes, or one that it does not.
pub data File (A : Type 0) : Type 0 where
  absent : File A
  corrupt : File A
  holds : A → File A

-- The directory .context/wiki of a project, as far as these calls touch it.
pub record WikiDir : Type 0 where
  pub lock : File LockPayload
  pub last : File LastPayload

-- The time and the processes that a call finds: `alive` is what kill(pid, 0) tells.
pub record Os : Type 0 where
  pub now : ℕ
  pub alive : ℕ → Bool

unfoldable pub lock_path : String → String
lock_path root = String.◌++◌ root "/.context/wiki/.refresh.lock"

-- xs[-n:], for n above 0
abbrev pub last_items {ℓ} : {A : Type ℓ} → ℕ → List A → List A
last_items n xs = drop (length xs - n) xs

-- The key "log_tail" is written for a tail that is neither None nor empty.
abbrev pub tail_key : Option (List String) → Key (List String)
tail_key none = missing
tail_key (some []) = missing
tail_key (some (line ∷ lines)) = value (last_items max_log_tail_lines (line ∷ lines))

abbrev pub or_now : ℕ → Option ℕ → ℕ
or_now now none = now
or_now now (some t) = t

-- The arguments after the directory: the clock, `exit_code`, `modules_updated`, `elapsed_seconds`,
-- `completed_at` and `log_tail`.
unfoldable pub write_last_refresh :
    WikiDir → ℕ → ℕ → ℕ → ℕ → Option ℕ → Option (List String) → WikiDir
write_last_refresh dir now exit_code modules_updated elapsed_seconds completed_at log_tail =
    record dir {
      last = holds (record {
        completed_at = value (or_now now completed_at);
        exit_code = value exit_code;
        modules_updated = value modules_updated;
        elapsed_seconds = value elapsed_seconds;
        log_tail = tail_key log_tail;
      });
    }

-- float(payload[k]) and int(payload[k]): none where they raise.
abbrev pub required : Key ℕ → Option ℕ
required (value n) = some n
required _ = none

abbrev pub tail_of : Key (List String) → Option (List String)
tail_of (value (line ∷ lines)) = some (line ∷ lines)
tail_of _ = none

abbrev pub record_of : LastPayload → Option LastRefreshRecord
record_of payload = do
  completed_at ← required payload.completed_at
  exit_code ← required payload.exit_code
  modules_updated ← required payload.modules_updated
  elapsed_seconds ← required payload.elapsed_seconds
  some (record {
    completed_at = completed_at;
    exit_code = exit_code;
    modules_updated = modules_updated;
    elapsed_seconds = elapsed_seconds;
    log_tail = tail_of payload.log_tail;
  })

unfoldable pub read_last_refresh : File LastPayload → Option LastRefreshRecord
read_last_refresh absent = none
read_last_refresh corrupt = none
read_last_refresh (holds payload) = record_of payload

abbrev pub non_zero : ℕ → Option ℕ
non_zero zero = none
non_zero (suc n) = some (suc n)

-- int(payload.get(k, 0)) or None: none where it raises.
abbrev pub number_key : Key ℕ → Option (Option ℕ)
number_key missing = some none
number_key null = none
number_key (value n) = some (non_zero n)

-- payload.get(k) or None
abbrev pub text_key : Key String → Option String
text_key (value t) = if t == "" then none else some t
text_key _ = none

abbrev pub total_key : Key ℕ → Option ℕ
total_key (value n) = some n
total_key _ = none

-- int(payload.get(k, 0) or 0)
abbrev pub count_key : Key ℕ → ℕ
count_key (value n) = n
count_key _ = 0

abbrev pub is_dead : Os → Option ℕ → Bool
is_dead os none = false
is_dead os (some pid) = not (os.alive pid)

abbrev pub is_old : Os → Option ℕ → Bool
is_old os none = false
is_old os (some started_at) = ltb stale_lock_after_seconds (os.now - started_at)

abbrev pub no_lock : Option LastRefreshRecord → BackgroundRefreshStatus
no_lock last_run = record {
  in_progress = false;
  pid = none;
  started_at = none;
  lock_path = none;
  stale = false;
  phase = none;
  modules_total = none;
  modules_done = 0;
  current_module = none;
  last_run = last_run;
}

abbrev pub status_of :
    Os
    → String
    → LockPayload
    → Option ℕ
    → Option ℕ
    → Option LastRefreshRecord
    → BackgroundRefreshStatus
status_of os root payload pid started_at last_run =
    let stale = is_dead os pid || is_old os started_at in
    record {
      in_progress = not stale;
      pid = pid;
      started_at = started_at;
      lock_path = some (lock_path root);
      stale = stale;
      phase = text_key payload.phase;
      modules_total = total_key payload.modules_total;
      modules_done = count_key payload.modules_done;
      current_module = text_key payload.current_module;
      last_run = last_run;
    }

abbrev pub status_from :
    Os → String → Option LastRefreshRecord → File LockPayload → Option BackgroundRefreshStatus
status_from os root last_run absent = some (no_lock last_run)
status_from os root last_run corrupt =
    some (record (no_lock last_run) { lock_path = some (lock_path root); stale = true })
status_from os root last_run (holds payload) = do
  pid ← number_key payload.pid
  started_at ← number_key payload.started_at
  some (status_of os root payload pid started_at last_run)

-- None where a key that holds null makes `int` or `float` raise.
unfoldable pub read_status : Os → String → WikiDir → Option BackgroundRefreshStatus
read_status os root dir = status_from os root (read_last_refresh dir.last) dir.lock

unfoldable pub is_refresh_in_progress : Os → String → WikiDir → Option Bool
is_refresh_in_progress os root dir = do status ← read_status os root dir; some status.in_progress
