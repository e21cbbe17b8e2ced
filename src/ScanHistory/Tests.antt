-- ===== src/ScanHistory/Tests.antt =====
-- Runs of the log of scans.
use lv_dcp.Base.{ℕ, ◌≡◌, refl, [], ◌∷◌, arith}
use lv_dcp.ScanHistory.Window.{events_since-append_event}
use lv_dcp.ScanHistory.{ScanEvent, append_event, events_since, order_by_time}

program : Unit {0}
unfolding append_event events_since order_by_time
program = tt

abbrev scan : ℕ → ScanEvent
scan timestamp = record {
  project_root = "/p";
  timestamp = timestamp;
  files_reparsed = 1;
  files_scanned = 2;
  duration_ms = 3;
  status = "ok";
  source = "manual";
}

-- The first scan is older than 90 days by then.
test_pruned :
    events_since (append_event (scan 8_000_000) 8_000_000 (scan 10 ∷ scan 300_000 ∷ [])) "/p" 0
    ≡ scan 300_000 ∷ scan 8_000_000 ∷ []
unfolding program
test_pruned = refl

events_since-append_event_example :
    events_since
      (append_event (scan 8_000_000) 8_000_000 (scan 10 ∷ scan 300_000 ∷ []))
      "/p"
      250_000
    ≡ order_by_time (scan 300_000 ∷ scan 8_000_000 ∷ [])
events_since-append_event_example =
    events_since-append_event (scan 8_000_000) 8_000_000 (scan 10 ∷ scan 300_000 ∷ []) "/p" 250_000
      (omega arith)
