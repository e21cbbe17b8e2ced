-- ===== src/Refresh/Tests.antt =====
-- Runs of the background refresh, and its theorems on them.
use lv_dcp.Base.{length, ◌≡◌, refl, true, false, none, some, List, [], ◌∷◌, ◌≤◌, arith}
use lv_dcp.Refresh.{
  LastRefreshRecord, absent, holds, value, missing, null, WikiDir, LockPayload,
  BackgroundRefreshStatus, write_last_refresh, read_last_refresh, read_status,
  is_refresh_in_progress, lock_path,
}
use lv_dcp.Refresh.Calls.{
  Start, write_progress, start_background_refresh, cancel_background_refresh, clear_lock,
}
use lv_dcp.Refresh.Record.{
  read_last_refresh-write_last_refresh, main-outcome, main-log_tail, tail_lines,
}
use lv_dcp.Refresh.Runner.{
  Run, Call, stopped, crashed, main, finish, conclude, tell_all, capture_log_tail, log_lines,
  strip_returns,
}
use lv_dcp.Refresh.System.{System, Reachable, initial, next, start, kill, os_of}
use lv_dcp.Refresh.Single.{one_runner, start_answered}
use lv_dcp.Refresh.Headless.{headless_stays}
use lv_dcp.Base.{split_on}
use lv_dcp.Timeline.Reconcile.{strip, lstrip, rstrip}

program : Unit {0}
unfolding main finish conclude tell_all capture_log_tail log_lines strip_returns split_on strip
    lstrip rstrip write_progress write_last_refresh read_last_refresh read_status
    start_background_refresh cancel_background_refresh is_refresh_in_progress lock_path
program = tt

abbrev fresh : WikiDir
fresh = record { lock = absent; last = absent }

abbrev quiet : System
quiet = record { clock = 100; dir = fresh; live = [] }

abbrev run : Run
run = record {
  pid = 7;
  all_modules = true;
  locks = 100;
  begins = 101;
  ends = 130;
  log = some "start\r\n\n  \nTraceback\nValueError";
  can_write = true;
}

abbrev calls : List Call
calls =
    record { done = 0; total = 3; current = some "libs/core" }
    ∷ record { done = 1; total = 3; current = some "libs/wiki" }
    ∷ []

-- A crash after the first module.
test_crash :
    read_last_refresh (main run calls crashed fresh).0.last
    ≡ some (record {
      completed_at = 130;
      exit_code = 1;
      modules_updated = 1;
      elapsed_seconds = 29;
      log_tail = some ("start" ∷ "Traceback" ∷ "ValueError" ∷ []);
    })
unfolding program
test_crash = refl

-- The lock of a run that goes on.
abbrev running : WikiDir
running = record fresh {
  lock = holds (record {
    pid = value 7;
    started_at = value 100;
    all_modules = value true;
    phase = value "generating";
    modules_total = value 3;
    modules_done = value 1;
    current_module = null;
  });
}

-- It counts for an hour while its process lives, and no longer.
test_running :
    is_refresh_in_progress (record { now = 3700; alive = λ pid. true }) "/p" running ≡ some true
unfolding program
test_running = refl

test_old :
    is_refresh_in_progress (record { now = 3701; alive = λ pid. true }) "/p" running ≡ some false
unfolding program
test_old = refl

test_dead :
    is_refresh_in_progress (record { now = 101; alive = λ pid. false }) "/p" running ≡ some false
unfolding program
test_dead = refl

abbrev launched_status : BackgroundRefreshStatus
launched_status = record {
  in_progress = true;
  pid = some 7;
  started_at = some 100;
  lock_path = some "/p/.context/wiki/.refresh.lock";
  stale = false;
  phase = some "starting";
  modules_total = none;
  modules_done = 0;
  current_module = none;
  last_run = none;
}

test_start :
    start_background_refresh (os_of quiet) "/p" true 7 fresh
    ≡ some (record {
      dir = record fresh {
        lock = holds (record {
          pid = value 7;
          started_at = value 100;
          all_modules = value true;
          phase = value "starting";
          modules_total = missing;
          modules_done = missing;
          current_module = missing;
        });
      };
      spawned = some 7;
      status = launched_status;
    })
unfolding program
test_start = refl

abbrev launched_lock : LockPayload
launched_lock = record {
  pid = value 7;
  started_at = value 100;
  all_modules = value true;
  phase = value "starting";
  modules_total = missing;
  modules_done = missing;
  current_module = missing;
}

-- A process was launched, and then killed.
abbrev killed : System
killed = record { clock = 100; dir = record fresh { lock = holds launched_lock }; live = [] }

launched-Reachable :
    Reachable
      (record { clock = 100; dir = record fresh { lock = holds launched_lock }; live = 7 ∷ [] })
unfolding program
launched-Reachable = next (initial {s = quiet} refl refl) (start "/p" true 7 (omega arith) refl)

killed-Reachable : Reachable killed
killed-Reachable = next launched-Reachable (kill 7 refl)

one_runner_example : 1 ≤ 1
one_runner_example =
    one_runner
      (record { clock = 100; dir = record fresh { lock = holds launched_lock }; live = 7 ∷ [] })
      launched-Reachable

start_answered_example :
    (call : Start) × ((start_background_refresh (os_of killed) "/p" false 8 killed.dir ≡ some call)
      × ((call.spawned ≡ some 8) × ((call.status.in_progress ≡ true) × (call.status.pid ≡ some 8))))
start_answered_example = start_answered killed killed-Reachable "/p" false 8 (omega arith)

main-outcome_example :
    ((main run calls (stopped none) fresh).0.lock ≡ absent)
    × (((main run calls (stopped none) fresh).1 ≡ some 143)
        × (read_last_refresh (main run calls (stopped none) fresh).0.last
            ≡ some (record {
              completed_at = 130;
              exit_code = 143;
              modules_updated = 1;
              elapsed_seconds = 29;
              log_tail = none;
            })))
main-outcome_example = main-outcome run calls (stopped none) fresh

test_last_refresh :
    read_last_refresh (write_last_refresh fresh 50 1 2 9 none (some ("boom" ∷ []))).last
    ≡ some (record {
      completed_at = 50;
      exit_code = 1;
      modules_updated = 2;
      elapsed_seconds = 9;
      log_tail = some ("boom" ∷ []);
    })
test_last_refresh = read_last_refresh-write_last_refresh fresh 50 1 2 9 none (some ("boom" ∷ []))

abbrev headless : WikiDir
headless =
    write_progress
      (record {
        phase = "generating";
        modules_total = some 3;
        modules_done = some 2;
        current_module = some "libs/wiki";
      })
      (clear_lock running)

headless_stays_example :
    (status : BackgroundRefreshStatus) × ((status.in_progress ≡ true)
      × ((start_background_refresh
              (record { now = 9_000; alive = λ pid. false })
              "/p"
              true
              8
              headless
            ≡ some (record { dir = headless; spawned = none; status = status }))
          × (cancel_background_refresh
                (record { now = 9_000; alive = λ pid. false })
                false
                "/p"
                headless
              ≡ some (record { dir = headless; signalled = none; status = status }))))
headless_stays_example =
    headless_stays
      (record {
        phase = "generating";
        modules_total = some 3;
        modules_done = some 2;
        current_module = some "libs/wiki";
      })
      running (record { now = 9_000; alive = λ pid. false }) "/p" true false 8

main-log_tail_example :
    (last : LastRefreshRecord) × ((read_last_refresh (main run calls crashed fresh).0.last
        ≡ some last)
      × (length (tail_lines last.log_tail) ≤ 20))
main-log_tail_example = main-log_tail run calls crashed fresh refl
