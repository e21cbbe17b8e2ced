-- ===== src/Timeline/Events.antt =====
-- The records of libs/symbol_timeline/store.py, differ.py and rename_detect.py. Points in time
-- (Python's `float` seconds) are natural numbers of one fixed small unit: the code only compares
-- them and takes a span of days away.
use lv_dcp.Base.{ℕ, String, Bool, true, false, Option, Dict}

-- `event_type`, a `str`: the five valid names, and any other text.
pub data EventType : Type 0 where
  added modified removed renamed moved : EventType
  other : String → EventType

-- The object that `extra_json` holds in serialised form.
pub data Extra : Type 0 where
  old_file_path old_content_hash : String → Extra

pub record TimelineEvent : Type 0 where
  pub project_root : String
  pub symbol_id : String
  pub event_type : EventType
  pub commit_sha : Option String
  pub timestamp : ℕ
  pub author : Option String
  pub content_hash : Option String
  pub file_path : String
  pub qualified_name : Option String
  pub extra_json : Option Extra
  pub orphaned : Bool

pub record SymbolSnapshot : Type 0 where
  pub symbol_id : String
  pub file_path : String
  pub content_hash : String
  pub qualified_name : Option String

pub record AstSnapshot : Type 0 where
  pub symbols : Dict SymbolSnapshot
  pub commit_sha : Option String

-- event_type in _VALID_EVENT_TYPES
abbrev pub is_valid_type : EventType → Bool
is_valid_type (other s) = false
is_valid_type _ = true

abbrev pub is_added : EventType → Bool
is_added added = true
is_added _ = false

abbrev pub is_removed : EventType → Bool
is_removed removed = true
is_removed _ = false

abbrev pub is_modified : EventType → Bool
is_modified modified = true
is_modified _ = false

abbrev pub is_moved : EventType → Bool
is_moved moved = true
is_moved _ = false

-- The text of an event type.
unfoldable pub type_name : EventType → String
type_name added = "added"
type_name modified = "modified"
type_name removed = "removed"
type_name renamed = "renamed"
type_name moved = "moved"
type_name (other s) = s

pub record SnapshotRow : Type 0 where
  pub snapshot_id : String
  pub project_root : String
  pub tag : String
  pub head_sha : String
  pub timestamp : ℕ
  pub symbol_count : ℕ
  pub checksum : String
  pub tag_invalidated : Bool
  pub ref_kind : String

pub record RenameEdgeRow : Type 0 where
  pub project_root : String
  pub old_symbol_id : String
  pub new_symbol_id : String
  pub commit_sha : Option String
  pub timestamp : ℕ
  pub confidence : ℕ
  pub is_candidate : Bool

pub record ScanState : Type 0 where
  pub project_root : String
  pub last_scan_commit_sha : Option String
  pub last_scan_ts : ℕ
