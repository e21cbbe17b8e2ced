-- ===== src/Agent.antt =====
-- apps/agent/handler.py and apps/agent/daemon.py: file events are gathered, and a flush of them is
-- worked off project by project. The lock of the buffer makes each method one step. Locks,
-- signals, log lines and the loop of `run_daemon` around it are not modelled.
pub mod LastEvent
pub mod Quarantine
mod Tests
use lv_dcp.Base.{
  ℕ, String, ◌==◌, Bool, true, false, not, ◌&&◌, ◌||◌, Option, none, some, List, [], ◌∷◌, ◌++◌, leb,
  keep, contains, Dict, get, put, keys, is_some, length, if◌then◌else◌,
}

-- What watchdog reports: "deleted", or another kind of event.
pub data FileEvent : Type 0 where
  deleted other : FileEvent

-- Project roots and relative paths are texts. `_modified` and `_deleted` are a dict of sets.
pub record DebounceBuffer : Type 0 where
  pub modified_paths : Dict (List String)
  pub deleted_paths : Dict (List String)

abbrev pub empty_buffer : DebounceBuffer
empty_buffer = record { modified_paths = []; deleted_paths = [] }

abbrev pub or_no_paths : Option (List String) → List String
or_no_paths none = []
or_no_paths (some paths) = paths

-- d[p] of the defaultdict
abbrev pub paths_at : String → Dict (List String) → List String
paths_at root d = or_no_paths (get root d)

-- s.add(x), s.discard(x)
abbrev pub with_path : String → List String → List String
with_path rel paths = if contains rel paths then paths else paths ++ rel ∷ []

abbrev pub without_path : String → List String → List String
without_path rel = keep (λ p. not (p == rel))

abbrev pub add_in : String → String → Dict (List String) → Dict (List String)
add_in root rel d = put root (with_path rel (paths_at root d)) d

-- The key stays, with a set that may be empty.
abbrev pub discard_in : String → String → Dict (List String) → Dict (List String)
discard_in root rel d = put root (without_path rel (paths_at root d)) d

unfoldable pub add : String → String → FileEvent → DebounceBuffer → DebounceBuffer
add root rel deleted b = record {
  modified_paths = discard_in root rel b.modified_paths;
  deleted_paths = add_in root rel b.deleted_paths;
}
add root rel other b = record {
  modified_paths = add_in root rel b.modified_paths;
  deleted_paths = discard_in root rel b.deleted_paths;
}

-- The entry of a project: its root, and its modified and deleted paths.
abbrev pub Pending : Type 0
Pending = String × (List String × List String)

abbrev pub pending_for : DebounceBuffer → List String → List Pending
pending_for b [] = []
pending_for b (root ∷ roots) =
    (root, (paths_at root b.modified_paths, paths_at root b.deleted_paths)) ∷ pending_for b roots

-- The union of the keys; Python leaves the order of a set open.
abbrev pub all_projects : DebounceBuffer → List String
all_projects b =
    keys b.modified_paths
    ++ keep (λ root. not (contains root (keys b.modified_paths))) (keys b.deleted_paths)

unfoldable pub flush_all : DebounceBuffer → DebounceBuffer × List Pending
flush_all b = (empty_buffer, pending_for b (all_projects b))

unfoldable pub has_pending : DebounceBuffer → Bool
has_pending b = leb 1 (length b.modified_paths) || leb 1 (length b.deleted_paths)

-- `on_any_event`: `normalize_path` raises ValueError for a path outside the root.
unfoldable pub on_any_event :
    (String → String → Option String)
    → (String → Bool)
    → String
    → String
    → FileEvent
    → DebounceBuffer
    → DebounceBuffer
on_any_event normalize_path is_ignored root src_path event b = elim (normalize_path root src_path) [
  | none ↦ b
  | some rel ↦ if is_ignored rel then b else add root rel event b
]

-- What a call ends with: a value, a `CacheCorruptError` with its message, or another exception;
-- in each case the world is what the call has made of it.
pub data Outcome (W A : Type 0) : Type 0 where
  done : W → A → Outcome W A
  corrupt : W → String → Outcome W A
  failed : W → Outcome W A

pub record ScanResult : Type 0 where
  pub files_reparsed : ℕ
  pub wiki_dirty_count : ℕ

-- The parts of the program that the daemon calls. The last four end normally: the code passes over
-- the exceptions of the first two of them.
pub record Services (W : Type 0) : Type 0 where
  pub open_index : String → W → Outcome W Unit
  pub delete_file : String → String → W → Outcome W Unit
  pub scan_project : String → List String → W → Outcome W ScanResult
  pub update_last_scan : String → Bool → W → W
  pub append_event : String → ℕ → Bool → W → W
  pub submit_wiki_update : String → W → W
  pub submit_obsidian_sync : String → W → W

-- The arguments of `process_pending_events`: whether there is a config path, the dirty threshold if
-- there are a wiki pool and a wiki config, and whether there are an Obsidian pool and config.
pub record Options : Type 0 where
  pub has_config : Bool
  pub dirty_threshold : Option ℕ
  pub has_obsidian : Bool

-- `_QUARANTINED`, the results so far, and the rest of the world.
pub record DaemonState (W : Type 0) : Type 0 where
  pub quarantined : Dict String
  pub results : Dict ℕ
  pub world : W

module _ {W : Type 0} (services : Services W) (options : Options) where
  abbrev pub and_then : {A B : Type 0} → Outcome W A → (W → A → Outcome W B) → Outcome W B
  and_then (done w a) f = f w a
  and_then (corrupt w message) f = corrupt w message
  and_then (failed w) f = failed w

  abbrev pub delete_each : String → List String → W → Outcome W Unit
  delete_each root [] w = done w tt
  delete_each root (rel ∷ rels) w =
      and_then (services.delete_file root rel w) (λ w' u. delete_each root rels w')

  -- `if deleted: ...`
  abbrev pub delete_all : String → List String → W → Outcome W Unit
  delete_all root [] w = done w tt
  delete_all root (rel ∷ rels) w =
      and_then (services.open_index root w) (λ w' u. delete_each root (rel ∷ rels) w')

  abbrev pub wiki_hook : Option ℕ → String → ScanResult → W → W
  wiki_hook none root result w = w
  wiki_hook (some threshold) root result w =
      if leb threshold result.wiki_dirty_count then services.submit_wiki_update root w else w

  abbrev pub obsidian_hook : String → W → W
  obsidian_hook root w = if options.has_obsidian then services.submit_obsidian_sync root w else w

  -- `if modified: ... else: ...`, with the number for `results`.
  abbrev pub scan_modified : String → List String → W → Outcome W ℕ
  scan_modified root [] w = done w 0
  scan_modified root (rel ∷ rels) w =
      and_then (services.scan_project root (rel ∷ rels) w) (λ w' result.
        done (obsidian_hook root (wiki_hook options.dirty_threshold root result w'))
          result.files_reparsed)

  -- The `try` block.
  abbrev pub work : Pending → W → Outcome W ℕ
  work (root, (modified, gone)) w =
      and_then (delete_all root gone w) (λ w' u. scan_modified root modified w')

  -- What comes behind it: the config, and the history with `results.get(project_root, 0)`.
  abbrev pub or_zero : Option ℕ → ℕ
  or_zero none = 0
  or_zero (some n) = n

  abbrev pub book : String → Bool → Dict ℕ → W → W
  book root ok results w =
      let w' = if options.has_config then services.update_last_scan root ok w else w in
      services.append_event root (or_zero (get root results)) ok w'

  -- The two `except` clauses and the end of the `try` block.
  abbrev pub finish : String → DaemonState W → Outcome W ℕ → DaemonState W
  finish root st (done w n) =
      let results = put root n st.results in
      record { quarantined = st.quarantined; results = results; world = book root true results w }
  finish root st (corrupt w message) = record {
    quarantined = put root message st.quarantined;
    results = st.results;
    world = book root false st.results w;
  }
  finish root st (failed w) = record {
    quarantined = st.quarantined;
    results = st.results;
    world = book root false st.results w;
  }

  abbrev pub process_project : Pending → DaemonState W → DaemonState W
  process_project entry st =
      if is_some (get entry.0 st.quarantined) then st else finish entry.0 st (work entry st.world)

  unfoldable pub process_all : List Pending → DaemonState W → DaemonState W
  process_all [] st = st
  process_all (entry ∷ rest) st = process_all rest (process_project entry st)

  -- One call, from the quarantine and the world of before.
  unfoldable pub process_pending_events :
      DebounceBuffer → Dict String → W → DebounceBuffer × DaemonState W
  process_pending_events buffer quarantined w =
      let (after, pending) = flush_all buffer in
      (after, process_all pending (record { quarantined = quarantined; results = []; world = w }))
