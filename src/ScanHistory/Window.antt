-- ===== src/ScanHistory/Window.antt =====
-- What the log of scans of libs/scan_history/store.py answers after an event was appended.
use lv_dcp.Base.{
  ℕ, ◌-◌, ◌≤◌, String, ◌≡◌, ap, ◌∙◌, not, List, [], ◌∷◌, ◌++◌, arith, keep, keep-append, keep-keep,
  ltb, if◌then◌else◌, All,
}
use lv_dcp.ScanHistory.{
  ScanEvent, retention_seconds, append_event, order_by_time, is_since, events_since,
}

keep-retained :
    (root : String) (since now : ℕ) (rows : List ScanEvent)
    → now - retention_seconds ≤ since
    → keep (is_since root since) (keep (λ e. not (ltb e.timestamp (now - retention_seconds))) rows)
      ≡ keep (is_since root since) rows
keep-retained root since now rows within =
    keep-keep (is_since root since) (λ e. not (ltb e.timestamp (now - retention_seconds)))
      (is_since root since) rows λ e. ground (arith, within)

-- A query for a time that lies within the retention sees every scan that was logged before, and the
-- new one if it is of the project and not too old: what is pruned is never missed by it.
pub events_since-append_event :
    (event : ScanEvent) (now : ℕ) (rows : List ScanEvent) (root : String) (since : ℕ)
    → now - retention_seconds ≤ since
    → events_since (append_event event now rows) root since
      ≡ order_by_time (
          keep (is_since root since) rows ++ (if is_since root since event then event ∷ [] else []))
unfolding events_since append_event
events_since-append_event event now rows root since within = ap order_by_time (
    keep-retained root since now (rows ++ (event ∷ [])) within
    ∙ keep-append (is_since root since) rows (event ∷ []))

-- Not older than the retention.
abbrev pub IsWithin : ℕ → ScanEvent → Type 0
IsWithin now e = now - retention_seconds ≤ e.timestamp

-- Right after an event was appended, no scan in the log is older than the retention.
pub append_event-IsWithin :
    (event : ScanEvent) (now : ℕ) (rows : List ScanEvent)
    → All (IsWithin now) (append_event event now rows)
unfolding append_event
append_event-IsWithin event now rows = all_within (rows ++ (event ∷ []))
  where
    all_within :
        (es : List ScanEvent)
        → All (IsWithin now) (keep (λ e. not (ltb e.timestamp (now - retention_seconds))) es)
    all_within [] = tt
    all_within (e ∷ es) = ground (arith, all_within es)
