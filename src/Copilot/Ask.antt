-- ===== src/Copilot/Ask.antt =====
-- `ask_project` of libs/copilot/orchestrator.py: a question about a project, with what is degraded
-- and hints on it. The check, the scan and the pack of the answer are given, over a state that the
-- calls may change.
use lv_dcp.Base.{
  ℕ, String, ◌==◌, Bool, not, ◌&&◌, Option, none, some, List, [], ◌∷◌, ◌++◌, map, any, contains,
  if◌then◌else◌,
}
use lv_dcp.Copilot.{
  DegradedMode, not_scanned, stale_scan, wiki_missing, wiki_stale, qdrant_off, ambiguous,
}

abbrev pub degraded_mode_hint : DegradedMode → String
degraded_mode_hint not_scanned = "Project is not scanned. Run `ctx project refresh <path>`."
degraded_mode_hint stale_scan = "Index is > 24 h old. Consider `ctx project refresh <path>`."
degraded_mode_hint wiki_missing =
    "No wiki generated yet. Run `ctx project wiki <path> --refresh` for richer pack enrichment."
degraded_mode_hint wiki_stale = "Wiki has dirty modules. Run `ctx project wiki <path> --refresh`."
degraded_mode_hint qdrant_off =
    "Vector retrieval off (Qdrant disabled). Results use keyword + graph fallback."
degraded_mode_hint ambiguous =
    "Retrieval coverage is ambiguous — rephrase with more specific terms, expand `--limit`, or use `ctx explain <trace_id>` to debug."

-- The value of the enumeration.
abbrev pub mode_value : DegradedMode → String
mode_value not_scanned = "not_scanned"
mode_value stale_scan = "stale_scan"
mode_value wiki_missing = "wiki_missing"
mode_value wiki_stale = "wiki_stale"
mode_value qdrant_off = "qdrant_off"
mode_value ambiguous = "ambiguous"

abbrev pub has_mode : DegradedMode → List DegradedMode → Bool
has_mode mode = any (λ m. mode_value m == mode_value mode)

pub record PackOutcome : Type 0 where
  pub markdown : String
  pub trace_id : String
  pub coverage : String
  pub retrieved_files : List String

pub record CopilotAskReport : Type 0 where
  pub project_root : String
  pub project_name : String
  pub query : String
  pub mode : String
  pub markdown : String
  pub trace_id : Option String
  pub coverage : String
  pub retrieved_files : List String
  pub degraded_modes : List DegradedMode
  pub suggestions : List String

-- The calls of `ask_project`: the degraded modes that `check_project` reports, the incremental scan
-- without the wiki, and the pack, which is none where it raises ValueError.
pub record Services (W : Type 0) : Type 0 where
  pub check : W → List DegradedMode
  pub refresh : W → W
  pub invoke : String → String → ℕ → W → W × Option PackOutcome

pub record Question : Type 0 where
  pub root : String
  pub name : String
  pub query : String
  pub mode : String
  pub limit : ℕ
  pub auto_refresh : Bool

abbrev pub unavailable : Question → List DegradedMode → List String → CopilotAskReport
unavailable q modes suggestions = record {
  project_root = q.root;
  project_name = q.name;
  query = q.query;
  mode = q.mode;
  markdown = "";
  trace_id = none;
  coverage = "unavailable";
  retrieved_files = [];
  degraded_modes = modes;
  suggestions = suggestions;
}

abbrev pub with_ambiguous : String → List DegradedMode → List DegradedMode
with_ambiguous coverage modes =
    if coverage == "ambiguous" && not (has_mode ambiguous modes)
    then modes ++ (ambiguous ∷ [])
    else modes

abbrev pub with_hint : String → List String → List String
with_hint hint suggestions =
    if not (hint == "") && not (contains hint suggestions)
    then suggestions ++ (hint ∷ [])
    else suggestions

-- The loop that collects the hints.
unfoldable pub add_hints : List DegradedMode → List String → List String
add_hints [] suggestions = suggestions
add_hints (mode ∷ modes) suggestions =
    add_hints modes (with_hint (degraded_mode_hint mode) suggestions)

unfoldable pub answered : Question → List DegradedMode → PackOutcome → CopilotAskReport
answered q modes outcome =
    let all_modes = with_ambiguous outcome.coverage modes in
    record {
      project_root = q.root;
      project_name = q.name;
      query = q.query;
      mode = q.mode;
      markdown = outcome.markdown;
      trace_id = some outcome.trace_id;
      coverage = outcome.coverage;
      retrieved_files = outcome.retrieved_files;
      degraded_modes = all_modes;
      suggestions = add_hints all_modes [];
    }

-- The report on what the pack gave.
abbrev pub packed : Question → List DegradedMode → Option PackOutcome → CopilotAskReport
packed q modes none =
    unavailable q (modes ++ (not_scanned ∷ [])) (degraded_mode_hint not_scanned ∷ [])
packed q modes (some outcome) = answered q modes outcome

module _ {W : Type 0} (services : Services W) where
  -- The state after the scan that the caller allowed.
  abbrev pub refreshed : Question → W → W
  refreshed q w =
      if has_mode not_scanned (services.check w) && q.auto_refresh then services.refresh w else w

  unfoldable pub ask_project : Question → W → W × CopilotAskReport
  ask_project q w =
      let ready = refreshed q w in
      let modes = services.check ready in
      if has_mode not_scanned modes
      then (ready, unavailable q modes (map degraded_mode_hint modes))
      else (let (after, outcome) = services.invoke q.query q.mode q.limit ready in
          (after, packed q modes outcome))
