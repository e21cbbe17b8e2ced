-- ===== src/Refresh/System.antt =====
-- The background refreshes of one project as a step relation: the calls of
-- libs/copilot/wiki_background.py, and what the processes of libs/copilot/_wiki_bg_runner.py do
-- between them. A call is one step. A process may be killed at any time, and then leaves its lock;
-- after SIGTERM it ends by itself. A number is not given to two processes at a time, and time passes
-- only while no process has run for longer than a lock counts. Only refresh processes are alive: that
-- another program gets the number of one that ended does not occur here, nor does a lock without a
-- process in it.
use lv_dcp.Base.{
  ℕ, ◌+◌, ◌≤◌, String, ◌≡◌, Bool, true, false, not, ◌&&◌, Option, none, some, List, [], ◌∷◌, any,
  keep, leb,
}
use lv_dcp.Refresh.{
  File, absent, holds, Key, value, LockPayload, WikiDir, Os, stale_lock_after_seconds,
}
use lv_dcp.Refresh.Calls.{
  Start, Cancel, Progress, write_progress, start_background_refresh, cancel_background_refresh,
}
use lv_dcp.Refresh.Runner.{Run, write_initial_lock, finish}

pub record System : Type 0 where
  pub clock : ℕ
  pub dir : WikiDir
  -- The processes that run.
  pub live : List ℕ

abbrev pub is_same : ℕ → ℕ → Bool
is_same a b = leb a b && leb b a

abbrev pub lives : ℕ → List ℕ → Bool
lives pid = any (is_same pid)

abbrev pub without : ℕ → List ℕ → List ℕ
without pid = keep (λ p. not (is_same pid p))

abbrev pub os_of : System → Os
os_of s = record { now = s.clock; alive = λ pid. lives pid s.live }

abbrev pub joined : Option ℕ → List ℕ → List ℕ
joined none live = live
joined (some pid) live = pid ∷ live

-- A call that raises changes nothing.
abbrev pub launched : System → Option Start → System
launched s none = s
launched s (some call) = record s { dir = call.dir; live = joined call.spawned s.live }

abbrev pub cancelled : System → Option Cancel → System
cancelled s none = s
cancelled s (some call) = record s { dir = call.dir }

abbrev pub is_young : ℕ → Key ℕ → Bool
is_young clock (value t) = leb (clock + 1) (t + stale_lock_after_seconds)
is_young clock _ = true

-- The lock of a process that runs will not be too old in a second.
abbrev pub in_time : List ℕ → ℕ → File LockPayload → Bool
in_time [] clock lock = true
in_time (pid ∷ live) clock (holds payload) = is_young clock payload.started_at
in_time (pid ∷ live) clock _ = true

infix 2 ◌⟶◌
pub data ◌⟶◌ : System → System → Type 0 where
  start :
      {s : System} (root : String) (all_modules : Bool) (pid : ℕ)
      → 1 ≤ pid
      → lives pid s.live ≡ false
      → s ⟶ launched s (start_background_refresh (os_of s) root all_modules pid s.dir)
  cancel :
      {s : System} (root : String)
      → s ⟶ cancelled s (cancel_background_refresh (os_of s) false root s.dir)
  lock :
      {s : System} (pid : ℕ) (all_modules : Bool)
      → lives pid s.live ≡ true
      → s ⟶ record s { dir = write_initial_lock pid s.clock all_modules s.dir }
  report :
      {s : System} (pid : ℕ) (progress : Progress)
      → lives pid s.live ≡ true
      → s ⟶ record s { dir = write_progress progress s.dir }
  end :
      {s : System} (run : Run) (modules_updated exit_code : ℕ)
      → lives run.pid s.live ≡ true
      → s ⟶ record s {
        dir = finish run (record { dir = s.dir; modules_updated = modules_updated }) exit_code;
        live = without run.pid s.live;
      }
  kill :
      {s : System} (pid : ℕ) → lives pid s.live ≡ true → s ⟶ record s { live = without pid s.live }
  tick :
      {s : System} → in_time s.live s.clock s.dir.lock ≡ true → s ⟶ record s { clock = s.clock + 1 }

-- What is reached from a state in which no process runs and there is no lock.
pub data Reachable : System → Type 0 where
  initial : {s : System} → s.live ≡ [] → s.dir.lock ≡ absent → Reachable s
  next : {s s' : System} → Reachable s → s ⟶ s' → Reachable s'
