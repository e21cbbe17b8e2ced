-- ===== src/Copilot/Watch.antt =====
-- `watch_check_project` of libs/copilot/orchestrator.py: reports until the refresh has ended or the
-- time is over. Times are milliseconds; `clock k` is what the clock shows at the k-th test of the
-- loop, and `reports k` is the k-th report. A report is by whether a refresh is in progress.
use lv_dcp.Base.{
  ℕ, zero, suc, ◌+◌, ◌*◌, ◌≤◌, ◌≡◌, refl, Bool, true, false, Option, none, some, List, [], ◌∷◌,
  arith, ltb, length, if◌then◌else◌,
}
use lv_dcp.Copilot.{CopilotCheckReport}

abbrev pub watch_min_interval : ℕ
watch_min_interval = 200

abbrev pub watch_default_max_duration : ℕ
watch_default_max_duration = 900_000

-- What was yielded, and why it ended, if it did.
pub data Ended : Type 0 where
  settled : Ended
  out_of_time : Ended
  out_of_fuel : Ended

-- A turn of the loop, by the test of the clock and by whether a refresh is in progress; `later` is
-- what the turns after it yield.
abbrev pub watch_turn :
    Bool
    → Bool
    → CopilotCheckReport
    → List CopilotCheckReport × Ended
    → List CopilotCheckReport × Ended
watch_turn true true report later = (report ∷ later.0, later.1)
watch_turn true false report later = (report ∷ [], settled)
watch_turn false running report later = ([], out_of_time)

module _ (reports : ℕ → CopilotCheckReport) (clock : ℕ → ℕ) (deadline : ℕ) where
  unfoldable pub watch_loop : ℕ → ℕ → List CopilotCheckReport × Ended
  watch_loop zero k = ([], out_of_fuel)
  watch_loop (suc fuel) k =
      let report = reports (k + 1) in
      watch_turn (ltb (clock k) deadline) report.wiki_refresh_in_progress report
        (watch_loop fuel (k + 1))

-- The first report, and the loop if a refresh is in progress.
abbrev pub watch_first :
    Bool → CopilotCheckReport → List CopilotCheckReport × Ended → List CopilotCheckReport × Ended
watch_first true report later = (report ∷ later.0, later.1)
watch_first false report later = (report ∷ [], settled)

-- None for the ValueError. `started` is the clock before the first report.
unfoldable pub watch_check_project :
    ℕ → ℕ → ℕ → (ℕ → ℕ) → (ℕ → CopilotCheckReport) → ℕ → Option (List CopilotCheckReport × Ended)
watch_check_project interval max_duration started clock reports fuel =
    if ltb interval watch_min_interval
    then none
    else some (
        watch_first (reports 0).wiki_refresh_in_progress (reports 0)
          (watch_loop reports clock (started + max_duration) fuel 0))

pub data IsOver : Ended → Type 0 where
  has_settled : IsOver settled
  has_timed_out : IsOver out_of_time

watch_turn-IsOver :
    (on running : Bool) (report : CopilotCheckReport) (later : List CopilotCheckReport × Ended)
    (n : ℕ)
    → IsOver later.1 × (length later.0 ≤ n)
    → (let turn = watch_turn on running report later in IsOver turn.1 × (length turn.0 ≤ suc n))
watch_turn-IsOver true true report later n h = (h.0, omega (arith, h.1))
watch_turn-IsOver true false report later n h = (has_settled, omega arith)
watch_turn-IsOver false running report later n h = (has_timed_out, omega arith)

watch_loop-IsOver :
    (reports : ℕ → CopilotCheckReport) (clock : ℕ → ℕ) (deadline interval : ℕ)
    → ((k : ℕ) → clock k + interval ≤ clock (k + 1))
    → (n k : ℕ) → deadline ≤ clock k + n * interval
    → (let watched = watch_loop reports clock deadline (suc n) k in
        IsOver watched.1 × (length watched.0 ≤ n))
unfolding watch_loop
watch_loop-IsOver reports clock deadline interval paced zero k enough =
    let late : ltb (clock k) deadline ≡ false = ground (arith, enough) in
    rw late (has_timed_out, omega arith)
watch_loop-IsOver reports clock deadline interval paced (suc n) k enough =
    watch_turn-IsOver (ltb (clock k) deadline) (reports (k + 1)).wiki_refresh_in_progress
      (reports (k + 1)) (watch_loop reports clock deadline (suc n) (k + 1)) n
      (watch_loop-IsOver reports clock deadline interval paced n (k + 1)
        (omega (arith, enough, paced k)))

first_turn :
    (running : Bool) (report : CopilotCheckReport) (later : List CopilotCheckReport × Ended) (n : ℕ)
    → IsOver later.1 × (length later.0 ≤ n)
    → (let watched = watch_first running report later in
        IsOver watched.1 × (length watched.0 ≤ n + 1))
first_turn true report later n h = (h.0, omega (arith, h.1))
first_turn false report later n h = (has_settled, omega arith)

-- A watch ends: where the interval is allowed, and each turn takes the clock on by that much at
-- least, as many turns as intervals fit into the time, and one more, are enough for the refresh to
-- have ended or the time to be over; and one report more than these intervals is yielded at most.
pub watch_check_project-IsOver :
    (interval max_duration started : ℕ) (clock : ℕ → ℕ) (reports : ℕ → CopilotCheckReport) (n : ℕ)
    → watch_min_interval ≤ interval
    → started ≤ clock 0
    → ((k : ℕ) → clock k + interval ≤ clock (k + 1))
    → max_duration ≤ n * interval
    → (watched : List CopilotCheckReport × Ended) × ((watch_check_project interval max_duration
            started clock reports
            (suc n)
          ≡ some watched)
        × (IsOver watched.1 × (length watched.0 ≤ n + 1)))
unfolding watch_check_project
watch_check_project-IsOver interval max_duration started clock reports n allowed later paced
      enough =
    let ok : ltb interval watch_min_interval ≡ false = ground (arith, allowed) in
    (
      _,
      (
        rw ok refl,
        first_turn (reports 0).wiki_refresh_in_progress (reports 0)
            (watch_loop reports clock (started + max_duration) (suc n) 0) n
            (watch_loop-IsOver reports clock (started + max_duration) interval paced n 0
              (omega (arith, later, enough))),
      ),
    )
