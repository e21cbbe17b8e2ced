-- ===== src/Timeline/Sinks.antt =====
-- libs/symbol_timeline/sinks.py. A call of a sink returns its new state, or none where it raises.
-- The Prometheus counters (`record_event`, `record_sink_error`) are not modelled.
use lv_dcp.Base.{ℕ, ◌+◌, String, Option, none, some, List, [], ◌∷◌, ◌++◌, keep}
use lv_dcp.Timeline.Events.{type_name, TimelineEvent, RenameEdgeRow}
use lv_dcp.Timeline.Rename.{RenameEdge}
use lv_dcp.Timeline.Store.{Store, ok, value_error, append_event, append_rename_edge}
use text.Mathlib.Text.{◌==◌}

-- The `stats` dict, whose keys are fixed.
pub record Stats : Type 0 where
  pub added : ℕ
  pub modified : ℕ
  pub removed : ℕ
  pub moved : ℕ
  pub renamed : ℕ
  pub renamed_candidate : ℕ

-- The protocol `TimelineSink`.
pub record TimelineSink (S : Type 0) : Type 0 where
  pub on_scan_begin : String → Option String → ℕ → S → Option S
  pub on_scan_end : String → Option String → Stats → S → Option S
  pub on_added : TimelineEvent → S → Option S
  pub on_modified : TimelineEvent → S → Option S
  pub on_removed : TimelineEvent → S → Option S
  pub on_moved : TimelineEvent → S → Option S
  pub on_renamed : RenameEdge → String → S → Option S

pub record ScanBegin : Type 0 where
  pub project_root : String
  pub commit_sha : Option String
  pub started_at : ℕ

pub record ScanEnd : Type 0 where
  pub project_root : String
  pub commit_sha : Option String
  pub stats : Stats

pub record MemoryState : Type 0 where
  pub events : List TimelineEvent
  pub edges : List RenameEdge
  pub begins : List ScanBegin
  pub ends : List ScanEnd

abbrev pub collect_event : TimelineEvent → MemoryState → Option MemoryState
collect_event event s = some (record s { events = s.events ++ event ∷ [] })

-- MemoryTimelineSink
abbrev pub memory_sink : TimelineSink MemoryState
memory_sink = record {
  on_scan_begin = λ root sha started_at s. some (record s {
    begins =
        s.begins ++ record { project_root = root; commit_sha = sha; started_at = started_at } ∷ [];
  });
  on_scan_end = λ root sha stats s. some (record s {
    ends = s.ends ++ record { project_root = root; commit_sha = sha; stats = stats } ∷ [];
  });
  on_added = collect_event;
  on_modified = collect_event;
  on_removed = collect_event;
  on_moved = collect_event;
  on_renamed = λ edge root s. some (record s { edges = s.edges ++ edge ∷ [] });
}

-- MemoryTimelineSink.events_of_type
unfoldable pub events_of_type : String → MemoryState → List TimelineEvent
unfolding type_name
events_of_type type s = keep (λ (e : TimelineEvent). type_name e.event_type == type) s.events

-- The store, and how often the clock has been read.
pub record SqliteState : Type 0 where
  pub store : Store
  pub reads : ℕ

-- `_append`; `clock n` is the time at the n-th reading.
unfoldable pub append : Option ℕ → (ℕ → ℕ) → TimelineEvent → SqliteState → Option SqliteState
unfolding append_event
append retention_days clock event s =
    elim (append_event event retention_days (clock s.reads) s.store) [
      | ok after ↦ some (record { store = after; reads = s.reads + 1 })
      | value_error ↦ none
    ]

abbrev pub edge_row : String → RenameEdge → RenameEdgeRow
edge_row root edge = record {
  project_root = root;
  old_symbol_id = edge.old_symbol_id;
  new_symbol_id = edge.new_symbol_id;
  commit_sha = edge.commit_sha;
  timestamp = edge.timestamp;
  confidence = edge.confidence;
  is_candidate = edge.is_candidate;
}

-- SqliteTimelineSink
abbrev pub sqlite_sink : Option ℕ → (ℕ → ℕ) → TimelineSink SqliteState
sqlite_sink retention_days clock = record {
  on_scan_begin = λ root sha started_at s. some s;
  on_scan_end = λ root sha stats s. some s;
  on_added = append retention_days clock;
  on_modified = append retention_days clock;
  on_removed = append retention_days clock;
  on_moved = append retention_days clock;
  on_renamed =
      λ edge root s. some (record s { store = append_rename_edge (edge_row root edge) s.store });
}
