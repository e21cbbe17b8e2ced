-- ===== src/Refresh/Calls.antt =====
-- The calls of libs/copilot/wiki_background.py that write: start, progress and cancel.
use lv_dcp.Base.{ℕ, String, Bool, true, ◌&&◌, Option, none, some, is_some, if◌then◌else◌}
use lv_dcp.Timeline.Bracket.{◌>>=◌}
use lv_dcp.Refresh.{
  WikiDir, BackgroundRefreshStatus, Key, missing, null, value, LockPayload, File, absent, holds, Os,
  no_lock, lock_path, phase_starting, non_zero, read_status,
}

abbrev pub clear_lock : WikiDir → WikiDir
clear_lock dir = record dir { lock = absent }

-- A stale lock is removed.
abbrev pub clear_stale : BackgroundRefreshStatus → WikiDir → WikiDir
clear_stale status dir = if status.stale && is_some status.lock_path then clear_lock dir else dir

abbrev pub key_of : Option ℕ → Key ℕ
key_of none = null
key_of (some n) = value n

abbrev pub first_payload : Option ℕ → ℕ → Bool → LockPayload
first_payload pid started_at all_modules = record {
  pid = key_of pid;
  started_at = value started_at;
  all_modules = value all_modules;
  phase = value phase_starting;
  modules_total = missing;
  modules_done = missing;
  current_module = missing;
}

abbrev pub started_status : String → Option ℕ → ℕ → BackgroundRefreshStatus
started_status root pid started_at = record (no_lock none) {
  in_progress = true;
  pid = pid;
  started_at = some started_at;
  lock_path = some (lock_path root);
  phase = some phase_starting;
}

-- What a call of `start_background_refresh` leaves: `spawned` is the process it launched.
pub record Start : Type 0 where
  pub dir : WikiDir
  pub spawned : Option ℕ
  pub status : BackgroundRefreshStatus

-- The branches after the status is read; `pid` is that of the process which Popen would launch.
abbrev pub start_on : Os → String → Bool → ℕ → WikiDir → BackgroundRefreshStatus → Start
start_on os root all_modules pid dir current =
    if current.in_progress then record { dir = dir; spawned = none; status = current } else record {
      dir = record (clear_stale current dir) {
        lock = holds (first_payload (non_zero pid) os.now all_modules);
      };
      spawned = some pid;
      status = started_status root (non_zero pid) os.now;
    }

unfoldable pub start_background_refresh : Os → String → Bool → ℕ → WikiDir → Option Start
start_background_refresh os root all_modules pid dir = do
  current ← read_status os root dir
  some (start_on os root all_modules pid dir current)

-- The payload that a progress report starts from.
abbrev pub old_payload : File LockPayload → LockPayload
old_payload (holds payload) = payload
old_payload _ = record {
  pid = missing;
  started_at = missing;
  all_modules = missing;
  phase = missing;
  modules_total = missing;
  modules_done = missing;
  current_module = missing;
}

-- The key after `if v is not None: payload[k] = v`.
abbrev pub set_key : Option ℕ → Key ℕ → Key ℕ
set_key none old = old
set_key (some n) old = value n

abbrev pub nullable : Option String → Key String
nullable none = null
nullable (some t) = value t

pub record Progress : Type 0 where
  pub phase : String
  pub modules_total : Option ℕ
  pub modules_done : Option ℕ
  pub current_module : Option String

unfoldable pub write_progress : Progress → WikiDir → WikiDir
write_progress report dir =
    let payload = old_payload dir.lock in
    record dir {
      lock = holds (record payload {
        phase = value report.phase;
        modules_total = set_key report.modules_total payload.modules_total;
        modules_done = set_key report.modules_done payload.modules_done;
        current_module = nullable report.current_module;
      });
    }

-- What a call of `cancel_background_refresh` leaves: `signalled` is the process that got SIGTERM.
pub record Cancel : Type 0 where
  pub dir : WikiDir
  pub signalled : Option ℕ
  pub status : BackgroundRefreshStatus

-- The branches; `gone` tells that the process died before the signal.
abbrev pub cancel_on : Bool → WikiDir → BackgroundRefreshStatus → Bool → Option ℕ → Cancel
cancel_on gone dir status true (some pid) =
    if gone
    then record {
      dir = if is_some status.lock_path then clear_lock dir else dir;
      signalled = none;
      status = status;
    }
    else record { dir = dir; signalled = some pid; status = status }
cancel_on gone dir status _ _ = record {
  dir = clear_stale status dir;
  signalled = none;
  status = status;
}

unfoldable pub cancel_background_refresh : Os → Bool → String → WikiDir → Option Cancel
cancel_background_refresh os gone root dir = do
  status ← read_status os root dir
  some (cancel_on gone dir status status.in_progress status.pid)
