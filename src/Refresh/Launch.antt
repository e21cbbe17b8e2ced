-- ===== src/Refresh/Launch.antt =====
-- What `start_background_refresh` of libs/copilot/wiki_background.py does on each lock.
use lv_dcp.Base.{ℕ, suc, String, ◌≡◌, refl, ap, Bool, true, false, not, ◌||◌, none, some, arith}
use lv_dcp.Refresh.{
  absent, holds, Key, value, LockPayload, WikiDir, Os, read_last_refresh, read_status, status_of,
  non_zero, is_old, no_lock, number_key,
}
use lv_dcp.Refresh.Calls.{first_payload, start_background_refresh, started_status}

number_key-suc : (k : Key ℕ) (p : ℕ) → k ≡ value (suc p) → number_key k ≡ some (some (suc p))
number_key-suc k p h = ap number_key h

pub status-absent :
    (os : Os) (root : String) (dir : WikiDir)
    → dir.lock ≡ absent
    → read_status os root dir ≡ some (no_lock (read_last_refresh dir.last))
unfolding read_status
status-absent os root dir l = rw l refl

-- A lock of one process.
pub status-known :
    (os : Os) (root : String) (dir : WikiDir) (payload : LockPayload) (p t : ℕ)
    → dir.lock ≡ holds payload
    → payload.pid ≡ value (suc p)
    → payload.started_at ≡ value t
    → read_status os root dir
      ≡ some (status_of os root payload (some (suc p)) (non_zero t) (read_last_refresh dir.last))
unfolding read_status
status-known os root dir payload p t l h k = rw (l, h, k) refl

pub launch-idle :
    (os : Os) (root : String) (all : Bool) (pid : ℕ) (dir : WikiDir)
    → dir.lock ≡ absent
    → start_background_refresh os root all pid dir
      ≡ some (record {
        dir = record dir { lock = holds (first_payload (non_zero pid) os.now all) };
        spawned = some pid;
        status = started_status root (non_zero pid) os.now;
      })
unfolding start_background_refresh read_status
launch-idle os root all pid dir l = rw l refl

-- A lock whose process is dead, or that is too old, does not stop a launch.
pub launch-stale :
    (os : Os) (root : String) (all : Bool) (pid : ℕ) (dir : WikiDir) (payload : LockPayload)
    (p t : ℕ)
    → dir.lock ≡ holds payload
    → payload.pid ≡ value (suc p)
    → payload.started_at ≡ value t
    → (not (os.alive (suc p)) || is_old os (non_zero t)) ≡ true
    → start_background_refresh os root all pid dir
      ≡ some (record {
        dir = record dir { lock = holds (first_payload (non_zero pid) os.now all) };
        spawned = some pid;
        status = started_status root (non_zero pid) os.now;
      })
unfolding start_background_refresh
launch-stale os root all pid dir payload p t l h k old =
    rw (status-known os root dir payload p t l h k, old) refl

-- With a healthy lock nothing is launched.
pub launch-busy :
    (os : Os) (root : String) (all : Bool) (pid : ℕ) (dir : WikiDir) (payload : LockPayload)
    (p t : ℕ)
    → dir.lock ≡ holds payload
    → payload.pid ≡ value (suc p)
    → payload.started_at ≡ value t
    → (not (os.alive (suc p)) || is_old os (non_zero t)) ≡ false
    → start_background_refresh os root all pid dir
      ≡ some (record {
        dir = dir;
        spawned = none;
        status = status_of os root payload (some (suc p)) (non_zero t) (read_last_refresh dir.last);
      })
unfolding start_background_refresh
launch-busy os root all pid dir payload p t l h k young =
    rw (status-known os root dir payload p t l h k) (ground (arith, young))
