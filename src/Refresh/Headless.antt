-- ===== src/Refresh/Headless.antt =====
-- A lock without a process, which `write_progress` of libs/copilot/wiki_background.py makes where it
-- finds no lock: a run that has lost its lock, as one does whose lock was too old and was cleared by
-- `cancel_background_refresh`.
use lv_dcp.Base.{ℕ, String, ◌≡◌, refl, Bool, true, none, some}
use lv_dcp.Refresh.{WikiDir, Os, BackgroundRefreshStatus, read_status}
use lv_dcp.Refresh.Calls.{
  Progress, clear_lock, write_progress, start_background_refresh, cancel_background_refresh,
}

-- A report that finds no lock writes one that counts as a refresh in progress at every later time,
-- whichever processes run. A call to start then launches nothing and a call to cancel signals nobody,
-- and both leave this lock where it is.
pub headless_stays :
    (progress : Progress) (dir : WikiDir) (os : Os) (root : String) (all gone : Bool) (pid : ℕ)
    → (let left = write_progress progress (clear_lock dir) in
        (status : BackgroundRefreshStatus) × ((status.in_progress ≡ true)
          × ((start_background_refresh os root all pid left
                ≡ some (record { dir = left; spawned = none; status = status }))
              × (cancel_background_refresh os gone root left
                  ≡ some (record { dir = left; signalled = none; status = status })))))
unfolding write_progress read_status start_background_refresh cancel_background_refresh
headless_stays progress dir os root all gone pid = (_, (refl, (refl, refl)))
