-- ===== src/ScanHistory.antt =====
-- libs/scan_history/store.py: the log of scans, of which 90 days are kept. The table is the list of
-- its rows in the order of their ids; times are seconds, and the clock is an argument.
pub mod Window
mod Tests
use lv_dcp.Base.{
  ℕ, ◌-◌, String, ◌==◌, Bool, not, ◌&&◌, List, [], ◌∷◌, ◌++◌, keep, leb, ltb, if◌then◌else◌,
}

pub record ScanEvent : Type 0 where
  pub project_root : String
  pub timestamp : ℕ
  pub files_reparsed : ℕ
  pub files_scanned : ℕ
  pub duration_ms : ℕ
  pub status : String
  pub source : String

abbrev pub retention_seconds : ℕ
retention_seconds = 7_776_000

-- INSERT, and DELETE of what is older than the cutoff.
unfoldable pub append_event : ScanEvent → ℕ → List ScanEvent → List ScanEvent
append_event event now rows =
    keep (λ e. not (ltb e.timestamp (now - retention_seconds))) (rows ++ (event ∷ []))

-- ORDER BY timestamp ASC: a row goes before those that are later.
abbrev pub insert_by_time : ScanEvent → List ScanEvent → List ScanEvent
insert_by_time event [] = event ∷ []
insert_by_time event (e ∷ rows) =
    if leb event.timestamp e.timestamp then event ∷ e ∷ rows else e ∷ insert_by_time event rows

unfoldable pub order_by_time : List ScanEvent → List ScanEvent
order_by_time [] = []
order_by_time (e ∷ rows) = insert_by_time e (order_by_time rows)

abbrev pub is_since : String → ℕ → ScanEvent → Bool
is_since project_root since_ts e = e.project_root == project_root && leb since_ts e.timestamp

unfoldable pub events_since : List ScanEvent → String → ℕ → List ScanEvent
events_since rows project_root since_ts = order_by_time (keep (is_since project_root since_ts) rows)
