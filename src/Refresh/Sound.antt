-- ===== src/Refresh/Sound.antt =====
-- The processes of the background refresh, its lock and the clock agree at all times:
-- libs/copilot/wiki_background.py with its processes, while each run keeps within the time that its
-- lock counts.
use lv_dcp.Base.{
  ℕ, zero, suc, ◌+◌, ◌≤◌, String, ◌≡◌, refl, ap, Bool, true, false, not, ◌||◌, List, [], ◌∷◌, arith,
}
use lv_dcp.Refresh.{
  File, absent, holds, Key, value, LockPayload, Os, LastPayload, non_zero, is_old,
  write_last_refresh,
}
use lv_dcp.Refresh.Calls.{
  Progress, write_progress, start_background_refresh, cancel_background_refresh,
}
use lv_dcp.Refresh.Runner.{Run, write_initial_lock, finish}
use lv_dcp.Refresh.System.{
  System, lives, without, os_of, launched, cancelled, in_time, is_young, ◌⟶◌, start, cancel, lock,
  report, end, kill, tick, Reachable, initial, next,
}
use lv_dcp.Refresh.Launch.{status-known, status-absent, launch-idle, launch-stale, launch-busy}

-- The processes, the lock and the clock agree.
pub data Sound : List ℕ → File LockPayload → ℕ → Type 0 where
  idle : {now : ℕ} → Sound [] absent now
  left :
      {p t now : ℕ} {payload : LockPayload}
      → payload.pid ≡ value (suc p)
      → payload.started_at ≡ value t
      → Sound [] (holds payload) now
  busy :
      {p t now : ℕ} {payload : LockPayload}
      → payload.pid ≡ value (suc p)
      → payload.started_at ≡ value t
      → now ≤ t + 3_600
      → Sound (suc p ∷ []) (holds payload) now

lives-one : (q p : ℕ) → lives q (p ∷ []) ≡ true → q ≡ p
lives-one q p h = ground (arith, h)

without-one : (q p : ℕ) → lives q (p ∷ []) ≡ true → without q (p ∷ []) ≡ []
without-one q p h = ground (arith, h)

abbrev pub IsSound : System → Type 0
IsSound s = Sound s.live s.dir.lock s.clock

young-lock : (os : Os) (t : ℕ) → os.now ≤ t + 3_600 → is_old os (non_zero t) ≡ false
young-lock os zero y = refl
young-lock os (suc t) y = ground (arith, y)

abbrev pub at : List ℕ → File LockPayload → File LastPayload → ℕ → System
at live file last now = record {
  clock = now;
  dir = record { lock = file; last = last };
  live = live;
}

-- The test for a stale lock, of the lock of a process that runs.
pub healthy :
    (p t now : ℕ) (file : File LockPayload) (last : File LastPayload)
    → now ≤ t + 3_600
    → (not (lives (suc p) (suc p ∷ []))
        || is_old (os_of (at (suc p ∷ []) file last now)) (non_zero t))
      ≡ false
healthy p t now file last y = ground (arith, young-lock (os_of (at (suc p ∷ []) file last now)) t y)

start-IsSound :
    (live : List ℕ) (file : File LockPayload) (last : File LastPayload) (now : ℕ) (root : String)
    (all : Bool) (pid : ℕ)
    → 1 ≤ pid
    → Sound live file now
    → (let s = at live file last now in
        IsSound (launched s (start_background_refresh (os_of s) root all pid s.dir)))
start-IsSound live file last now root all zero pos sound = absurd (omega (arith, pos))
start-IsSound _ _ last _ root all (suc q) pos (idle {now}) =
    rw
      (launch-idle (os_of (at [] absent last now)) root all (suc q) (at [] absent last now).dir
        refl)
      (busy refl refl (omega arith))
start-IsSound _ _ last _ root all (suc q) pos (left {p} {t} {now} {payload} h k) =
    rw
      (launch-stale (os_of (at [] (holds payload) last now)) root all (suc q)
        (at [] (holds payload) last now).dir payload p t refl h k refl)
      (busy refl refl (omega arith))
start-IsSound _ _ last _ root all (suc q) pos (busy {p} {t} {now} {payload} h k y) =
    let s = at (suc p ∷ []) (holds payload) last now in
    rw
      (launch-busy (os_of s) root all (suc q) s.dir payload p t refl h k
        (healthy p t now (holds payload) last y))
      (busy h k y)

cancel-IsSound :
    (live : List ℕ) (file : File LockPayload) (last : File LastPayload) (now : ℕ) (root : String)
    → Sound live file now
    → (let s = at live file last now in
        IsSound (cancelled s (cancel_background_refresh (os_of s) false root s.dir)))
unfolding cancel_background_refresh
cancel-IsSound _ _ last _ root (idle {now}) =
    rw (status-absent (os_of (at [] absent last now)) root (at [] absent last now).dir refl) idle
cancel-IsSound _ _ last _ root (left {p} {t} {now} {payload} h k) =
    let s = at [] (holds payload) last now in
    rw (status-known (os_of s) root s.dir payload p t refl h k) idle
cancel-IsSound _ _ last _ root (busy {p} {t} {now} {payload} h k y) =
    let s = at (suc p ∷ []) (holds payload) last now in
    rw
      (
        status-known (os_of s) root s.dir payload p t refl h k,
        healthy p t now (holds payload) last y,
      )
      (busy h k y)

lock-IsSound :
    (live : List ℕ) (file : File LockPayload) (last : File LastPayload) (now pid : ℕ) (all : Bool)
    → lives pid live ≡ true
    → Sound live file now
    → IsSound (record (at live file last now) {
      dir = write_initial_lock pid now all (at live file last now).dir;
    })
lock-IsSound _ _ last _ pid all alive (idle {now}) = absurd (ground (arith, alive))
lock-IsSound _ _ last _ pid all alive (left h k) = absurd (ground (arith, alive))
lock-IsSound _ _ last _ pid all alive (busy {p} {t} {now} h k y) =
    busy (ap value (lives-one pid (suc p) alive)) refl (omega arith)

report-IsSound :
    (live : List ℕ) (file : File LockPayload) (last : File LastPayload) (now pid : ℕ)
    (progress : Progress)
    → lives pid live ≡ true
    → Sound live file now
    → IsSound (record (at live file last now) {
      dir = write_progress progress (at live file last now).dir;
    })
unfolding write_progress
report-IsSound _ _ last _ pid progress alive (idle {now}) = absurd (ground (arith, alive))
report-IsSound _ _ last _ pid progress alive (left h k) = absurd (ground (arith, alive))
report-IsSound _ _ last _ pid progress alive (busy h k y) = busy h k y

end-IsSound :
    (live : List ℕ) (file : File LockPayload) (last : File LastPayload) (now : ℕ) (run : Run)
    (updated exit_code : ℕ)
    → lives run.pid live ≡ true
    → Sound live file now
    → (let s = at live file last now in
        IsSound (record s {
          dir = finish run (record { dir = s.dir; modules_updated = updated }) exit_code;
          live = without run.pid live;
        }))
unfolding finish write_last_refresh
end-IsSound _ _ last _ run updated exit_code alive (idle {now}) = absurd (ground (arith, alive))
end-IsSound _ _ last _ run updated exit_code alive (left h k) = absurd (ground (arith, alive))
end-IsSound _ _ last _ run updated exit_code alive (busy {p} h k y) =
    rw (without-one run.pid (suc p) alive) idle

kill-IsSound :
    (live : List ℕ) (file : File LockPayload) (last : File LastPayload) (now pid : ℕ)
    → lives pid live ≡ true
    → Sound live file now
    → IsSound (record (at live file last now) { live = without pid live })
kill-IsSound _ _ last _ pid alive (idle {now}) = absurd (ground (arith, alive))
kill-IsSound _ _ last _ pid alive (left h k) = absurd (ground (arith, alive))
kill-IsSound _ _ last _ pid alive (busy {p} h k y) = rw (without-one pid (suc p) alive) (left h k)

tick_time :
    (key : Key ℕ) (t now : ℕ) → key ≡ value t → is_young now key ≡ true → now + 1 ≤ t + 3_600
tick_time key t now k young = ground (arith, k, young)

tick-IsSound :
    (live : List ℕ) (file : File LockPayload) (last : File LastPayload) (now : ℕ)
    → in_time live now file ≡ true
    → Sound live file now
    → IsSound (record (at live file last now) { clock = now + 1 })
tick-IsSound _ _ last _ young idle = idle
tick-IsSound _ _ last _ young (left h k) = left h k
tick-IsSound _ _ last _ young (busy {p} {t} {now} {payload} h k y) =
    busy h k (tick_time payload.started_at t now k young)

step-IsSound : {s s' : System} → s ⟶ s' → IsSound s → IsSound s'
step-IsSound (start {s} root all pid pos _) h =
    start-IsSound s.live s.dir.lock s.dir.last s.clock root all pid pos h
step-IsSound (cancel {s} root) h = cancel-IsSound s.live s.dir.lock s.dir.last s.clock root h
step-IsSound (lock {s} pid all alive) h =
    lock-IsSound s.live s.dir.lock s.dir.last s.clock pid all alive h
step-IsSound (report {s} pid progress alive) h =
    report-IsSound s.live s.dir.lock s.dir.last s.clock pid progress alive h
step-IsSound (end {s} run updated exit_code alive) h =
    end-IsSound s.live s.dir.lock s.dir.last s.clock run updated exit_code alive h
step-IsSound (kill {s} pid alive) h = kill-IsSound s.live s.dir.lock s.dir.last s.clock pid alive h
step-IsSound (tick {s} young) h = tick-IsSound s.live s.dir.lock s.dir.last s.clock young h

pub Reachable-IsSound : {s : System} → Reachable s → IsSound s
Reachable-IsSound (initial {s} l f) = rw (l, f) idle
Reachable-IsSound (next r step) = step-IsSound step (Reachable-IsSound r)
