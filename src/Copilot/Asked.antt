-- ===== src/Copilot/Asked.antt =====
-- What `ask_project` of libs/copilot/orchestrator.py answers, and its hints.
use lv_dcp.Base.{
  contains-append, append_one-IsUnique, contains-append, String, ◌==◌, eq_iff, ◌≡◌, refl, ◌∙◌, true,
  false, ◌||◌, some, List, [], ◌∷◌, map, arith, contains, IsUnique, Bool-cases,
}
use lv_dcp.Copilot.{
  DegradedMode, not_scanned, stale_scan, wiki_missing, wiki_stale, qdrant_off, ambiguous,
}
use lv_dcp.Copilot.Ask.{
  degraded_mode_hint, PackOutcome, CopilotAskReport, Services, Question, unavailable, with_hint,
  add_hints, answered, refreshed, ask_project, has_mode, with_ambiguous,
}

-- Each mode has a hint.
hint_filled : (mode : DegradedMode) → (degraded_mode_hint mode == "") ≡ false
hint_filled not_scanned = refl
hint_filled stale_scan = refl
hint_filled wiki_missing = refl
hint_filled wiki_stale = refl
hint_filled qdrant_off = refl
hint_filled ambiguous = refl

contains-with_hint :
    (k hint : String) (suggestions : List String)
    → (hint == "") ≡ false
    → contains k (with_hint hint suggestions) ≡ (contains k suggestions || k == hint)
contains-with_hint k hint suggestions filled = ground (
  arith,
  filled,
  contains-append k suggestions (hint ∷ []),
  eq_iff k hint,
  Bool-cases (contains hint suggestions),
)

with_hint-IsUnique :
    (hint : String) (suggestions : List String)
    → IsUnique suggestions
    → IsUnique (with_hint hint suggestions)
with_hint-IsUnique hint suggestions u = ground (arith, u, append_one-IsUnique hint suggestions)

contains-add_hints :
    (modes : List DegradedMode) (suggestions : List String) (k : String)
    → contains k (add_hints modes suggestions)
      ≡ (contains k suggestions || contains k (map degraded_mode_hint modes))
unfolding add_hints
contains-add_hints [] suggestions k = ground arith
contains-add_hints (mode ∷ modes) suggestions k =
    contains-add_hints modes (with_hint (degraded_mode_hint mode) suggestions) k
    ∙ ground (arith, contains-with_hint k (degraded_mode_hint mode) suggestions (hint_filled mode))

add_hints-IsUnique :
    (modes : List DegradedMode) (suggestions : List String)
    → IsUnique suggestions
    → IsUnique (add_hints modes suggestions)
unfolding add_hints
add_hints-IsUnique [] suggestions u = u
add_hints-IsUnique (mode ∷ modes) suggestions u =
    add_hints-IsUnique modes (with_hint (degraded_mode_hint mode) suggestions)
      (with_hint-IsUnique (degraded_mode_hint mode) suggestions u)

-- What the report on an answer says: it passes the pack on, and its suggestions are the hints on the
-- degraded modes that it names, each once.
pub record IsAnswer (report : CopilotAskReport) (outcome : PackOutcome) : Type 0 where
  pub same_markdown : report.markdown ≡ outcome.markdown
  pub same_coverage : report.coverage ≡ outcome.coverage
  pub same_files : report.retrieved_files ≡ outcome.retrieved_files
  pub traced : report.trace_id ≡ some outcome.trace_id
  pub hints_once : IsUnique report.suggestions
  pub hints_of_modes :
      (k : String)
      → contains k report.suggestions ≡ contains k (map degraded_mode_hint report.degraded_modes)

answered-IsAnswer :
    (q : Question) (modes : List DegradedMode) (outcome : PackOutcome)
    → IsAnswer (answered q modes outcome) outcome
unfolding answered
answered-IsAnswer q modes outcome = record {
  same_markdown = refl;
  same_coverage = refl;
  same_files = refl;
  traced = refl;
  hints_once = add_hints-IsUnique (with_ambiguous outcome.coverage modes) [] tt;
  hints_of_modes = contains-add_hints (with_ambiguous outcome.coverage modes) [];
}

-- A question to a project that is scanned, after the scan that the caller allowed where it was not,
-- and for which a pack is made, is answered by that pack: markdown, coverage, files and trace are
-- the pack's, and the suggestions are the hints on the degraded modes of the report, each once.
pub ask_project-IsAnswer :
    {W : Type 0} (services : Services W) (q : Question) (w after : W) (outcome : PackOutcome)
    → has_mode not_scanned (services.check (refreshed services q w)) ≡ false
    → services.invoke q.query q.mode q.limit (refreshed services q w) ≡ (after, some outcome)
    → (report : CopilotAskReport) × ((ask_project services q w ≡ (after, report))
        × IsAnswer report outcome)
unfolding ask_project
ask_project-IsAnswer services q w after outcome scanned pack =
    let modes = services.check (refreshed services q w) in
    (answered q modes outcome, (rw (scanned, pack) refl, answered-IsAnswer q modes outcome))

-- A question to a project that stays without a scan makes no pack: the state is that after the scan
-- the caller allowed, the report is empty, and its suggestions are the hints on its modes.
pub ask_project-unavailable :
    {W : Type 0} (services : Services W) (q : Question) (w : W)
    → (let ready = refreshed services q w in
        let modes = services.check ready in
        has_mode not_scanned modes ≡ true
        → ask_project services q w ≡ (ready, unavailable q modes (map degraded_mode_hint modes)))
unfolding ask_project
ask_project-unavailable services q w missing = rw missing refl
