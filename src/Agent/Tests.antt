-- ===== src/Agent/Tests.antt =====
-- Runs of the buffer and of the daemon's step, and their theorems at them.
use lv_dcp.Base.{ℕ, ◌+◌, ◌==◌, ◌≡◌, refl, true, false, some, List, [], ◌∷◌, contains, if◌then◌else◌}
use lv_dcp.Agent.{
  deleted, other, DebounceBuffer, empty_buffer, add, flush_all, done, corrupt, Services, Options,
  process_all, process_pending_events,
}
use lv_dcp.Agent.LastEvent.{FileChange, add_all, flushed_at, flush_all-last}
use lv_dcp.Agent.Quarantine.{healthy, process_pending_events-healthy}

-- `a.py` is deleted and written again, `b.py` is written and deleted; `c.py` is another project's.
abbrev changes : List FileChange
changes =
    ("/p", ("a.py", deleted))
    ∷ ("/p", ("b.py", other))
    ∷ ("/q", ("c.py", other))
    ∷ ("/p", ("a.py", other))
    ∷ ("/p", ("b.py", deleted))
    ∷ []

test_flush_all :
    (flush_all (add_all changes empty_buffer)).1
    ≡ ("/p", ("a.py" ∷ [], "b.py" ∷ [])) ∷ ("/q", ("c.py" ∷ [], [])) ∷ []
unfolding flush_all add_all add
test_flush_all = refl

flush_all-last_example :
    (contains "a.py" (flushed_at "/p" (flush_all (add_all changes empty_buffer)).1).0 ≡ true)
    × (contains "a.py" (flushed_at "/p" (flush_all (add_all changes empty_buffer)).1).1 ≡ false)
flush_all-last_example = flush_all-last changes "/p" "a.py"

-- The world counts the calls, and the cache of `/q` is corrupt.
abbrev services : Services ℕ
services = record {
  open_index = λ root w. done (w + 1) tt;
  delete_file = λ root rel w. done (w + 1) tt;
  scan_project = λ root paths w.
      if root == "/q"
      then corrupt (w + 1) "bad page"
      else done (w + 1) (record { files_reparsed = 7; wiki_dirty_count = 0 });
  update_last_scan = λ root ok w. w + 1;
  append_event = λ root n ok w. w + 1;
  submit_wiki_update = λ root w. w + 1;
  submit_obsidian_sync = λ root w. w + 1;
}

abbrev options : Options
options = record { has_config = true; dirty_threshold = some 1; has_obsidian = false }

abbrev buffer : DebounceBuffer
buffer = record {
  modified_paths = ("/p", "a.py" ∷ []) ∷ ("/q", "c.py" ∷ []) ∷ [];
  deleted_paths = ("/p", "b.py" ∷ []) ∷ ("/q", []) ∷ [];
}

test_process_pending_events :
    (process_pending_events services options buffer [] 0).1
    ≡ record { quarantined = ("/q", "bad page") ∷ []; results = ("/p", 7) ∷ []; world = 8 }
unfolding process_pending_events process_all flush_all
test_process_pending_events = refl

process_pending_events-healthy_example :
    (process_pending_events services options buffer (("/q", "bad page") ∷ []) 0).1
    ≡ process_all services options
        (healthy (("/q", "bad page") ∷ []) (flush_all buffer).1)
        (record { quarantined = ("/q", "bad page") ∷ []; results = []; world = 0 })
process_pending_events-healthy_example =
    process_pending_events-healthy services options buffer (("/q", "bad page") ∷ []) 0
      ((refl, (refl, tt)), (refl, (refl, tt)))
