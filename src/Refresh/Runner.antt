-- ===== src/Refresh/Runner.antt =====
-- libs/copilot/_wiki_bg_runner.py: the process that a background refresh runs in. The wiki update
-- is taken by its progress calls and the way it ends; the text of the log is what the file holds
-- from the offset that the process noted when it began. The log calls, the argument parser and the
-- imports are not modelled.
use Prim.Native.Char.{code}
use Prim.Native.Nat.{compare, Ordering}
use lv_dcp.Base.{
  ℕ, ◌-◌, String, ◌==◌, Bool, true, not, Option, none, some, List, [], ◌∷◌, map, keep, ltb,
  split_on, if◌then◌else◌,
}
use lv_dcp.Timeline.Reconcile.{strip}
use lv_dcp.Refresh.{
  WikiDir, LockPayload, missing, value, holds, write_last_refresh, last_items, phase_starting,
  phase_loading, phase_generating, phase_finalizing,
}
use lv_dcp.Refresh.Calls.{Progress, write_progress, clear_lock}

abbrev pub log_tail_read_cap : ℕ
log_tail_read_cap = 200

-- line.rstrip("\r")
unfoldable pub strip_returns : String → String
strip_returns String.[] = String.[]
strip_returns (String.◌∷◌ c s) =
    let rest = strip_returns s in
    elim (compare (code c) 13) [
      | Ordering.eq ↦ if rest == "" then String.[] else String.◌∷◌ c rest
      | _ ↦ String.◌∷◌ c rest
    ]

unfoldable pub log_lines : String → List String
unfolding strip strip_returns split_on
log_lines text = map strip_returns (keep (λ line. not (strip line == "")) (split_on b'\n' text))

abbrev pub some_lines : List String → Option (List String)
some_lines [] = none
some_lines (line ∷ lines) = some (last_items log_tail_read_cap (line ∷ lines))

-- None for a log that is missing or not readable.
unfoldable pub capture_log_tail : Option String → Option (List String)
capture_log_tail none = none
capture_log_tail (some text) = if text == "" then none else some_lines (log_lines text)

abbrev pub initial_payload : ℕ → ℕ → Bool → LockPayload
initial_payload pid now all_modules = record {
  pid = value pid;
  started_at = value now;
  all_modules = value all_modules;
  phase = value phase_starting;
  modules_total = missing;
  modules_done = missing;
  current_module = missing;
}

abbrev pub write_initial_lock : ℕ → ℕ → Bool → WikiDir → WikiDir
write_initial_lock pid now all_modules dir = record dir {
  lock = holds (initial_payload pid now all_modules);
}

-- A call of `on_progress`, and how the update ends: with its count, by SystemExit with the code it
-- carries, if that is a number, by another Exception, or by what no `except` takes, such as
-- KeyboardInterrupt.
pub record Call : Type 0 where
  pub done : ℕ
  pub total : ℕ
  pub current : Option String

pub data Ending : Type 0 where
  returned : ℕ → Ending
  stopped : Option ℕ → Ending
  crashed : Ending
  interrupted : Ending

-- What the process meets: its number, the clock when it writes
-- its lock, when the update begins and when it ends, what the log holds
-- at its end, and whether the record can be written.
pub record Run : Type 0 where
  pub pid : ℕ
  pub all_modules : Bool
  pub locks : ℕ
  pub begins : ℕ
  pub ends : ℕ
  pub log : Option String
  pub can_write : Bool

-- The directory and `modules_updated`.
pub record Told : Type 0 where
  pub dir : WikiDir
  pub modules_updated : ℕ

abbrev pub on_progress : Call → Told → Told
on_progress call told = record {
  dir =
      write_progress
        (record {
          phase = phase_generating;
          modules_total = some call.total;
          modules_done = some call.done;
          current_module = call.current;
        })
        told.dir;
  modules_updated = call.done;
}

unfoldable pub tell_all : List Call → Told → Told
tell_all [] told = told
tell_all (call ∷ calls) told = tell_all calls (on_progress call told)

abbrev pub bare : String → Progress
bare phase = record {
  phase = phase;
  modules_total = none;
  modules_done = none;
  current_module = none;
}

abbrev pub max : ℕ → ℕ → ℕ
max a b = if ltb a b then b else a

-- The end of the `try` block, or its `except` branches: what was told, and `exit_code`, which is
-- still 0 where no branch takes the exception.
unfoldable pub conclude : Ending → Told → Told × ℕ
conclude (returned updated) told = (
  record {
    dir = write_progress (bare phase_finalizing) told.dir;
    modules_updated = max told.modules_updated updated;
  },
  0,
)
conclude (stopped (some exit_code)) told = (told, exit_code)
conclude (stopped none) told = (told, 143)
conclude crashed told = (told, 1)
conclude interrupted told = (told, 0)

-- What `main` returns: none where the exception goes on after the `finally` block.
abbrev pub answer : Ending → ℕ → Option ℕ
answer interrupted exit_code = none
answer _ exit_code = some exit_code

-- Not 0 and not 143.
abbrev pub is_crash : ℕ → Bool
is_crash exit_code = elim (compare exit_code 0) [
  | Ordering.eq ↦ Bool.false
  | _ ↦ elim (compare exit_code 143) [ Ordering.eq ↦ Bool.false | _ ↦ true ]
]

-- The `finally` block.
unfoldable pub finish : Run → Told → ℕ → WikiDir
finish run told exit_code =
    let log_tail = if is_crash exit_code then capture_log_tail run.log else none in
    clear_lock (
      if run.can_write
      then write_last_refresh told.dir run.ends exit_code told.modules_updated
          (run.ends - run.begins) none log_tail
      else told.dir)

unfoldable pub main : Run → List Call → Ending → WikiDir → WikiDir × Option ℕ
main run calls ending dir =
    let begun = write_initial_lock run.pid run.locks run.all_modules dir in
    let loading = write_progress (bare phase_loading) begun in
    let told = tell_all calls (record { dir = loading; modules_updated = 0 }) in
    let (final, exit_code) = conclude ending told in
    (finish run final exit_code, answer ending exit_code)
