-- ===== src/Refresh/Record.antt =====
-- The record of the last run, of libs/copilot/wiki_background.py: what is read of what was written,
-- and what a run of libs/copilot/_wiki_bg_runner.py leaves.

use lv_dcp.Base.{
  ℕ, zero, suc, ◌-◌, ◌≤◌, String, ◌≡◌, refl, ap, ◌∙◌, Bool, true, false, Option, none, some, List,
  [], ◌∷◌, arith, length, Bool-cases, drop, if◌then◌else◌,
}
use lv_dcp.Refresh.{
  File, Key, absent, WikiDir, LastPayload, LastRefreshRecord, max_log_tail_lines, last_items,
  phase_loading, LastPayload, or_now, tail_of, tail_key, write_last_refresh, read_last_refresh,
}
use lv_dcp.Refresh.Calls.{write_progress}
use lv_dcp.Refresh.Runner.{
  Run, Call, Ending, returned, stopped, crashed, interrupted, answer, Told, on_progress, tell_all,
  conclude, finish, is_crash, capture_log_tail, max, main, bare, write_initial_lock,
}

-- The last lines of a tail, or none.
abbrev pub bounded : Option (List String) → Option (List String)
bounded none = none
bounded (some []) = none
bounded (some (line ∷ lines)) = some (last_items max_log_tail_lines (line ∷ lines))

length-drop : (n : ℕ) (xs : List String) → length (drop n xs) ≡ length xs - n
length-drop zero xs = omega arith
length-drop (suc n) [] = omega arith
length-drop (suc n) (x ∷ xs) = omega (arith, length-drop n xs)

pub length-last_items : (n : ℕ) (xs : List String) → length (last_items n xs) ≤ n
length-last_items n xs = omega (arith, length-drop (length xs - n) xs)

tail_of-filled : (xs : List String) → 1 ≤ length xs → tail_of (Key.value xs) ≡ some xs
tail_of-filled [] h = absurd (omega (arith, h))
tail_of-filled (x ∷ xs) h = refl

tail_of-tail_key : (tail : Option (List String)) → tail_of (tail_key tail) ≡ bounded tail
tail_of-tail_key none = refl
tail_of-tail_key (some []) = refl
tail_of-tail_key (some (line ∷ lines)) =
    tail_of-filled (last_items max_log_tail_lines (line ∷ lines))
      (omega (arith, length-drop (length (line ∷ lines) - 20) (line ∷ lines)))

-- Reading the record after it was written gives the values that were written, with the clock where
-- no completion time is given, and of the log tail the last 20 lines, or none where it is empty.
pub read_last_refresh-write_last_refresh :
    (dir : WikiDir) (now exit_code updated elapsed : ℕ) (completed_at : Option ℕ)
    (tail : Option (List String))
    → read_last_refresh
        (write_last_refresh dir now exit_code updated elapsed completed_at tail).last
      ≡ some (record {
        completed_at = or_now now completed_at;
        exit_code = exit_code;
        modules_updated = updated;
        elapsed_seconds = elapsed;
        log_tail = bounded tail;
      })
unfolding read_last_refresh write_last_refresh
read_last_refresh-write_last_refresh dir now exit_code updated elapsed completed_at tail =
    ap
      (λ t. some (record {
        completed_at = or_now now completed_at;
        exit_code = exit_code;
        modules_updated = updated;
        elapsed_seconds = elapsed;
        log_tail = t;
      }))
      (tail_of-tail_key tail)

-- The count of the last call, or the one before.
abbrev pub last_done : ℕ → List Call → ℕ
last_done n [] = n
last_done n (call ∷ calls) = last_done call.done calls

tell_all-last_done :
    (calls : List Call) (told : Told)
    → (tell_all calls told).modules_updated ≡ last_done told.modules_updated calls
unfolding tell_all
tell_all-last_done [] told = refl
tell_all-last_done (call ∷ calls) told = tell_all-last_done calls (on_progress call told)

tell_all-last : (calls : List Call) (told : Told) → (tell_all calls told).dir.last ≡ told.dir.last
unfolding tell_all write_progress
tell_all-last [] told = refl
tell_all-last (call ∷ calls) told = tell_all-last calls (on_progress call told)

-- What the exit code of the record, the one that `main` returns and the count of the modules are.
abbrev pub exit_of : Ending → ℕ
exit_of (returned n) = 0
exit_of (stopped (some n)) = n
exit_of (stopped none) = 143
exit_of crashed = 1
exit_of interrupted = 0

abbrev pub answer_of : Ending → Option ℕ
answer_of (returned n) = some 0
answer_of (stopped (some n)) = some n
answer_of (stopped none) = some 143
answer_of crashed = some 1
answer_of interrupted = none

abbrev pub updated_of : List Call → Ending → ℕ
updated_of calls (returned n) = max (last_done 0 calls) n
updated_of calls _ = last_done 0 calls

-- The record that a run is to leave.
abbrev pub outcome : Run → List Call → Ending → LastRefreshRecord
outcome run calls ending = record {
  completed_at = run.ends;
  exit_code = exit_of ending;
  modules_updated = updated_of calls ending;
  elapsed_seconds = run.ends - run.begins;
  log_tail = if is_crash (exit_of ending) then bounded (capture_log_tail run.log) else none;
}

finish-lock : (run : Run) (told : Told) (exit_code : ℕ) → (finish run told exit_code).lock ≡ absent
unfolding finish
finish-lock run told exit_code = refl

bounded-if :
    (b : Bool) (tail : Option (List String))
    → bounded (if b then tail else none) ≡ (if b then bounded tail else none)
bounded-if true tail = refl
bounded-if false tail = refl

finish-last :
    (run : Run) (told : Told) (exit_code : ℕ)
    → read_last_refresh (finish run told exit_code).last ≡ (
        if run.can_write
        then some (record {
          completed_at = run.ends;
          exit_code = exit_code;
          modules_updated = told.modules_updated;
          elapsed_seconds = run.ends - run.begins;
          log_tail = if is_crash exit_code then bounded (capture_log_tail run.log) else none;
        })
        else read_last_refresh told.dir.last)
unfolding finish
finish-last run told exit_code = ground (
  arith,
  Bool-cases run.can_write,
  bounded-if (is_crash exit_code) (capture_log_tail run.log),
  read_last_refresh-write_last_refresh told.dir run.ends exit_code told.modules_updated
      (run.ends - run.begins) none (if is_crash exit_code then capture_log_tail run.log else none),
)

conclude-outcome :
    (calls : List Call) (ending : Ending) (told : Told)
    → told.modules_updated ≡ last_done 0 calls
    → ((conclude ending told).1 ≡ exit_of ending)
      × (((conclude ending told).0.modules_updated ≡ updated_of calls ending)
          × ((conclude ending told).0.dir.last ≡ told.dir.last))
unfolding conclude write_progress
conclude-outcome calls (returned n) told h = (refl, (ap (λ m. max m n) h, refl))
conclude-outcome calls (stopped none) told h = (refl, (h, refl))
conclude-outcome calls (stopped (some n)) told h = (refl, (h, refl))
conclude-outcome calls crashed told h = (refl, (h, refl))
conclude-outcome calls interrupted told h = (refl, (h, refl))

answer-exit_of : (ending : Ending) → answer ending (exit_of ending) ≡ answer_of ending
answer-exit_of (returned n) = refl
answer-exit_of (stopped none) = refl
answer-exit_of (stopped (some n)) = refl
answer-exit_of crashed = refl
answer-exit_of interrupted = refl

same_outcome :
    (run : Run) {a b m n : ℕ} {l k : File LastPayload}
    → a ≡ b
    → m ≡ n
    → l ≡ k
    → (if run.can_write
        then some (record {
          completed_at = run.ends;
          exit_code = a;
          modules_updated = m;
          elapsed_seconds = run.ends - run.begins;
          log_tail = if is_crash a then bounded (capture_log_tail run.log) else none;
        })
        else read_last_refresh l)
      ≡ (if run.can_write
          then some (record {
            completed_at = run.ends;
            exit_code = b;
            modules_updated = n;
            elapsed_seconds = run.ends - run.begins;
            log_tail = if is_crash b then bounded (capture_log_tail run.log) else none;
          })
          else read_last_refresh k)
same_outcome run p q r = cc (p, q, r)

-- The directory once the run has told that it loads.
abbrev loaded : Run → WikiDir → WikiDir
loaded run dir =
    write_progress (bare phase_loading) (write_initial_lock run.pid run.locks run.all_modules dir)

-- However the update ends, the run removes the lock. Its exit code is 0 for a return, the code that
-- SystemExit carries (143 where it is no number), and 1 for another Exception; where what ends it is
-- none of these, such as KeyboardInterrupt, `main` does not return, and 0 is recorded. The record
-- that is read has that code, the count of the modules (the larger of the last progress call's and
-- the one returned), the time taken, and on a crash the last lines of the log; where it cannot be
-- written, the record before is still there.
pub main-outcome :
    (run : Run) (calls : List Call) (ending : Ending) (dir : WikiDir)
    → ((main run calls ending dir).0.lock ≡ absent)
      × (((main run calls ending dir).1 ≡ answer_of ending)
          × (read_last_refresh (main run calls ending dir).0.last ≡ (
              if run.can_write
              then some (outcome run calls ending)
              else read_last_refresh dir.last)))
unfolding main write_progress
main-outcome run calls ending dir =
    let told = tell_all calls (record { dir = loaded run dir; modules_updated = 0 }) in
    let final = conclude ending told in
    let c = conclude-outcome calls ending told (tell_all-last_done calls _) in
    (
      finish-lock run final.0 final.1,
      (
        ap (answer ending) c.0 ∙ answer-exit_of ending,
        finish-last run final.0 final.1
            ∙ same_outcome run c.0 c.1.0 (c.1.1 ∙ tell_all-last calls _),
      ),
    )

abbrev pub tail_lines : Option (List String) → List String
tail_lines none = []
tail_lines (some lines) = lines

length-bounded :
    (tail : Option (List String)) → length (tail_lines (bounded tail)) ≤ max_log_tail_lines
length-bounded none = omega arith
length-bounded (some []) = omega arith
length-bounded (some (line ∷ lines)) = length-last_items max_log_tail_lines (line ∷ lines)

length-logged :
    (crash : Bool) (tail : Option (List String))
    → length (tail_lines (if crash then bounded tail else none)) ≤ max_log_tail_lines
length-logged true tail = length-bounded tail
length-logged false tail = omega arith

-- Whatever is in the log, the record of a run that could be written holds 20 lines of it at most.
pub main-log_tail :
    (run : Run) (calls : List Call) (ending : Ending) (dir : WikiDir)
    → run.can_write ≡ true
    → (last : LastRefreshRecord) × ((read_last_refresh (main run calls ending dir).0.last
          ≡ some last)
        × (length (tail_lines last.log_tail) ≤ 20))
main-log_tail run calls ending dir can_write = (
  outcome run calls ending,
  (
    (main-outcome run calls ending dir).1.1
        ∙ ap (λ b. if b then some (outcome run calls ending) else read_last_refresh dir.last)
            can_write,
    length-logged (is_crash (exit_of ending)) (capture_log_tail run.log),
  ),
)
