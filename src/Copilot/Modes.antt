-- ===== src/Copilot/Modes.antt =====
-- The degraded modes that `check_project` of libs/copilot/orchestrator.py reports.
use lv_dcp.Base.{◌≡◌, refl, Bool, false, not, ◌&&◌, some, arith, ltb, Bool-cases}
use lv_dcp.Refresh.{BackgroundRefreshStatus, read_status}
use lv_dcp.Copilot.{
  DegradedMode, not_scanned, stale_scan, wiki_missing, wiki_stale, qdrant_off, ambiguous,
  CopilotCheckReport, Found, is_scanned, is_enabled, count_dirty_wiki_modules, degraded, report_of,
  check_project,
}
use lv_dcp.Copilot.Ask.{has_mode}

-- When a mode is to be reported.
abbrev pub expected : DegradedMode → Bool → Bool → Bool → Bool → Bool → Bool
expected not_scanned scanned stale present has_dirty qdrant = not scanned
expected stale_scan scanned stale present has_dirty qdrant = scanned && stale
expected wiki_missing scanned stale present has_dirty qdrant = not present
expected wiki_stale scanned stale present has_dirty qdrant = present && has_dirty
expected qdrant_off scanned stale present has_dirty qdrant = not qdrant
expected ambiguous scanned stale present has_dirty qdrant = false

abbrev pub is_reported : Found → DegradedMode → Bool
is_reported found mode =
    expected mode (is_scanned found) found.card.stale found.index_exists
      (ltb 0 (count_dirty_wiki_modules found)) (is_enabled found.qdrant)

has_mode-degraded :
    (found : Found) (mode : DegradedMode)
    → has_mode mode (
        degraded
          (is_scanned found)
          found.card.stale
          found.index_exists
          (ltb 0 (count_dirty_wiki_modules found))
          (is_enabled found.qdrant))
      ≡ is_reported found mode
unfolding degraded
has_mode-degraded found mode =
    in_all_cases mode (is_scanned found) found.card.stale found.index_exists
      (ltb 0 (count_dirty_wiki_modules found)) (is_enabled found.qdrant)
  where
    in_all_cases :
        (m : DegradedMode) (scanned stale present has_dirty qdrant : Bool)
        → has_mode m (degraded scanned stale present has_dirty qdrant)
          ≡ expected m scanned stale present has_dirty qdrant
    in_all_cases not_scanned a b c d e =
        ground (arith, Bool-cases a, Bool-cases b, Bool-cases c, Bool-cases d, Bool-cases e)
    in_all_cases stale_scan a b c d e =
        ground (arith, Bool-cases a, Bool-cases b, Bool-cases c, Bool-cases d, Bool-cases e)
    in_all_cases wiki_missing a b c d e =
        ground (arith, Bool-cases a, Bool-cases b, Bool-cases c, Bool-cases d, Bool-cases e)
    in_all_cases wiki_stale a b c d e =
        ground (arith, Bool-cases a, Bool-cases b, Bool-cases c, Bool-cases d, Bool-cases e)
    in_all_cases qdrant_off a b c d e =
        ground (arith, Bool-cases a, Bool-cases b, Bool-cases c, Bool-cases d, Bool-cases e)
    in_all_cases ambiguous a b c d e =
        ground (arith, Bool-cases a, Bool-cases b, Bool-cases c, Bool-cases d, Bool-cases e)

-- Where the lock can be read, a check gives a report, which names a degraded mode when its condition
-- holds, and only then: no scan; a scan that is old; no wiki; a wiki with dirty modules; Qdrant off
-- or not known. The mode of an ambiguous answer is never among them.
pub check_project-modes :
    (found : Found) (status : BackgroundRefreshStatus) (mode : DegradedMode)
    → read_status found.os found.root found.wiki_dir ≡ some status
    → (report : CopilotCheckReport) × ((check_project found ≡ some report)
        × (has_mode mode report.degraded_modes ≡ is_reported found mode))
unfolding check_project
check_project-modes found status mode known =
    (report_of found status, (rw known refl, has_mode-degraded found mode))
