-- ===== src/Refresh/Single.antt =====
-- The calls of libs/copilot/wiki_background.py with its processes, taking turns, while each run
-- keeps within the time that its lock counts.
use lv_dcp.Base.{
  ℕ, zero, suc, ◌≤◌, String, ◌≡◌, refl, ap, Bool, true, not, Option, none, some, List, [], ◌∷◌,
  arith, length,
}
use lv_dcp.Refresh.{File, absent, holds, LockPayload, LastPayload}
use lv_dcp.Refresh.Calls.{Start, start_background_refresh}
use lv_dcp.Refresh.System.{System, os_of, Reachable}
use lv_dcp.Refresh.Launch.{launch-idle, launch-stale, launch-busy}
use lv_dcp.Refresh.Sound.{Sound, idle, left, busy, at, healthy, Reachable-IsSound}

Sound-single :
    (live : List ℕ) (file : File LockPayload) (now : ℕ) → Sound live file now → length live ≤ 1
Sound-single _ _ _ idle = omega arith
Sound-single _ _ _ (left h k) = omega arith
Sound-single _ _ _ (busy h k y) = omega arith

-- At no time do two background refreshes of a project run, when calls and processes take turns and
-- no process runs for longer than a lock counts.
pub one_runner : (s : System) → Reachable s → length s.live ≤ 1
one_runner s r = Sound-single s.live s.dir.lock s.clock (Reachable-IsSound r)

-- The process that runs after a call which would launch `pid`.
abbrev pub runner : List ℕ → ℕ → ℕ
runner [] pid = pid
runner (p ∷ live) pid = p

abbrev pub launch_of : List ℕ → ℕ → Option ℕ
launch_of [] pid = some pid
launch_of (p ∷ live) pid = none

start-Sound :
    (live : List ℕ) (file : File LockPayload) (last : File LastPayload) (now : ℕ) (root : String)
    (all : Bool) (pid : ℕ)
    → 1 ≤ pid
    → Sound live file now
    → (let s = at live file last now in
        (call : Start) × ((start_background_refresh (os_of s) root all pid s.dir ≡ some call)
          × ((call.spawned ≡ launch_of live pid)
              × ((call.status.in_progress ≡ true) × (call.status.pid ≡ some (runner live pid))))))
start-Sound live file last now root all zero pos sound = absurd (omega (arith, pos))
start-Sound _ _ last _ root all (suc q) pos (idle {now}) =
    let s = at [] absent last now in
    (_, (launch-idle (os_of s) root all (suc q) s.dir refl, (refl, (refl, refl))))
start-Sound _ _ last _ root all (suc q) pos (left {p} {t} {now} {payload} h k) =
    let s = at [] (holds payload) last now in
    (
      _,
      (
        launch-stale (os_of s) root all (suc q) s.dir payload p t refl h k refl,
        (refl, (refl, refl)),
      ),
    )
start-Sound _ _ last _ root all (suc q) pos (busy {p} {t} {now} {payload} h k y) =
    let s = at (suc p ∷ []) (holds payload) last now in
    let young = healthy p t now (holds payload) last y in
    (
      _,
      (
        launch-busy (os_of s) root all (suc q) s.dir payload p t refl h k young,
        (refl, (ap not young, refl)),
      ),
    )

-- Calls and processes take turns here (a call is one step), no process runs for longer than a lock
-- counts, only refresh processes have a number that is alive, and every lock names its process. In
-- each state that is reached so, a call to start a refresh is answered. It launches the new process
-- where none runs, even if one that was killed has left its lock, and else launches none; and it
-- tells of a refresh in progress, by the process that runs.
pub start_answered :
    (s : System)
    → Reachable s
    → (root : String) (all : Bool) (pid : ℕ) → 1 ≤ pid
    → (call : Start) × ((start_background_refresh (os_of s) root all pid s.dir ≡ some call)
        × ((call.spawned ≡ launch_of s.live pid)
            × ((call.status.in_progress ≡ true) × (call.status.pid ≡ some (runner s.live pid)))))
start_answered s r root all pid pos =
    start-Sound s.live s.dir.lock s.dir.last s.clock root all pid pos (Reachable-IsSound r)
