-- ===== src/Timeline/Store.antt =====
-- libs/symbol_timeline/store.py. A table is the list of its rows in the order of their `id`s, and
-- an SQL statement is the function on the rows that it denotes. A connection is not modelled.
pub mod Order
pub mod Queries
pub mod Tables
use lv_dcp.Base.{
  ℕ, ◌-◌, ◌*◌, String, ◌==◌, Bool, true, false, not, ◌&&◌, ◌||◌, Option, none, some, List, [], ◌∷◌,
  ◌++◌, ltb, leb, keep, any, Dict, get, put, if◌then◌else◌,
}
use lv_dcp.Timeline.Events.{
  EventType, type_name, is_valid_type, TimelineEvent, SnapshotRow, RenameEdgeRow, ScanState,
}

pub record Store : Type 0 where
  pub events : List TimelineEvent
  pub snapshots : List SnapshotRow
  pub rename_edges : List RenameEdgeRow
  pub scan_state : Dict ScanState

abbrev pub empty_store : Store
empty_store = record { events = []; snapshots = []; rename_edges = []; scan_state = [] }

-- A function that may raise `ValueError`.
pub data Result {ℓ} (A : Type ℓ) : Type ℓ where
  ok : A → Result A
  value_error : Result A

-- A day, where times are counted in microseconds.
abbrev pub day : ℕ
day = 86400 * 1000000

-- DELETE FROM symbol_timeline_events WHERE timestamp < cutoff
abbrev pub drop_before : ℕ → List TimelineEvent → List TimelineEvent
drop_before cutoff = keep (λ (e : TimelineEvent). leb cutoff e.timestamp)

-- `if retention_days is not None and retention_days > 0`. A time is never negative, so that a
-- cutoff below 0 drops what the cutoff 0 drops: nothing.
abbrev pub retain : Option ℕ → ℕ → List TimelineEvent → List TimelineEvent
retain none now rows = rows
retain (some days) now rows = if ltb 0 days then drop_before (now - days * day) rows else rows

unfoldable pub append_event : TimelineEvent → Option ℕ → ℕ → Store → Result Store
append_event event retention_days now store =
    if is_valid_type event.event_type
    then ok (record store { events = retain retention_days now (store.events ++ event ∷ []) })
    else value_error

-- ORDER BY timestamp ASC, id ASC: a stable sort of the rows by time.
abbrev pub insert_by_time : TimelineEvent → List TimelineEvent → List TimelineEvent
insert_by_time e [] = e ∷ []
insert_by_time e (f ∷ fs) =
    if ltb f.timestamp e.timestamp then f ∷ insert_by_time e fs else e ∷ f ∷ fs

unfoldable pub order_by_time : List TimelineEvent → List TimelineEvent
order_by_time [] = []
order_by_time (e ∷ es) = insert_by_time e (order_by_time es)

-- The WHERE clauses of the two queries.
abbrev pub is_of : String → String → Bool → TimelineEvent → Bool
is_of project_root symbol_id include_orphaned e =
    e.project_root == project_root
    && (e.symbol_id == symbol_id && (include_orphaned || not e.orphaned))

-- AND event_type IN (...), if the list is given and not empty.
abbrev pub type_allowed : Option (List EventType) → EventType → Bool
type_allowed none type = true
type_allowed (some []) type = true
type_allowed (some (t ∷ ts)) type = any (λ u. type_name type == type_name u) (t ∷ ts)

abbrev pub is_between : String → ℕ → ℕ → Option (List EventType) → Bool → TimelineEvent → Bool
is_between project_root from_ts to_ts event_types include_orphaned e =
    e.project_root == project_root
    && (leb from_ts e.timestamp
        && (leb e.timestamp to_ts
            && (type_allowed event_types e.event_type && (include_orphaned || not e.orphaned))))

unfoldable pub events_for_symbol : Store → String → String → Bool → List TimelineEvent
events_for_symbol store project_root symbol_id include_orphaned =
    order_by_time (keep (is_of project_root symbol_id include_orphaned) store.events)

unfoldable pub events_between :
    Store → String → ℕ → ℕ → Option (List EventType) → Bool → List TimelineEvent
events_between store project_root from_ts to_ts event_types include_orphaned =
    order_by_time
      (keep (is_between project_root from_ts to_ts event_types include_orphaned) store.events)

-- INSERT OR IGNORE: `snapshot_id` is UNIQUE.
unfoldable pub insert_snapshot : SnapshotRow → Store → Store
insert_snapshot snapshot store =
    if any (λ (r : SnapshotRow). r.snapshot_id == snapshot.snapshot_id) store.snapshots
    then store
    else record store { snapshots = store.snapshots ++ snapshot ∷ [] }

-- ORDER BY timestamp DESC, id DESC LIMIT 1, in one pass over the matching rows: a row that is not
-- older than the best so far replaces it.
abbrev pub later : Option SnapshotRow → SnapshotRow → Option SnapshotRow
later none r = some r
later (some b) r = if leb b.timestamp r.timestamp then some r else some b

abbrev pub newest : Option SnapshotRow → List SnapshotRow → Option SnapshotRow
newest best [] = best
newest best (r ∷ rs) = newest (later best r) rs

abbrev pub is_tagged : String → String → SnapshotRow → Bool
is_tagged project_root tag r = r.project_root == project_root && r.tag == tag

unfoldable pub latest_snapshot : Store → String → String → Option SnapshotRow
latest_snapshot store project_root tag =
    newest none (keep (is_tagged project_root tag) store.snapshots)

unfoldable pub append_rename_edge : RenameEdgeRow → Store → Store
append_rename_edge edge store = record store { rename_edges = store.rename_edges ++ edge ∷ [] }

-- `project_root` is the PRIMARY KEY.
unfoldable pub upsert_scan_state : String → Option String → ℕ → Store → Store
upsert_scan_state project_root sha ts store = record store {
  scan_state =
      put project_root
        (record { project_root = project_root; last_scan_commit_sha = sha; last_scan_ts = ts })
        store.scan_state;
}

unfoldable pub get_scan_state : Store → String → Option ScanState
get_scan_state store project_root = get project_root store.scan_state
