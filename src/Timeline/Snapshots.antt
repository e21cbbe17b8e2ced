-- ===== src/Timeline/Snapshots.antt =====
-- libs/symbol_timeline/snapshot.py. `sha256` is the hex digest of hashlib.
pub mod Tags
use Prim.Native.String
use lv_dcp.Base.{
  ℕ, String, ◌==◌, Bool, true, false, not, ◌&&◌, Option, none, some, List, [], ◌∷◌, map, count_if,
  length, keys, sorted, prefix, join_ended, if◌then◌else◌,
}
use lv_dcp.Timeline.Events.{AstSnapshot, SnapshotRow}
use lv_dcp.Timeline.Store.{Store, insert_snapshot}

-- libs/gitintel/tag_watcher.py: `kind` is "created" or "moved".
pub data TagKind : Type 0 where
  created moved : TagKind

pub record TagEvent : Type 0 where
  pub tag : String
  pub head_sha : String
  pub kind : TagKind
  pub previous_sha : Option String

module _ (sha256 : String → String) where
  -- f"{project_root}\0{tag}\0{head_sha}"
  unfoldable pub compute_snapshot_id : String → String → String → String
  compute_snapshot_id project_root tag head_sha = prefix 32 (
      sha256
        (String.◌++◌ project_root (String.◌++◌ "\0" (String.◌++◌ tag (String.◌++◌ "\0" head_sha)))))

  unfoldable pub compute_snapshot_checksum : List String → String
  compute_snapshot_checksum symbol_ids = sha256 (join_ended "\0" (sorted symbol_ids))

  -- The ids that are given, or those of the sidecar file, if it can be loaded.
  abbrev pub ids_or_sidecar : Option (List String) → Option AstSnapshot → List String
  ids_or_sidecar (some ids) sidecar = ids
  ids_or_sidecar none none = []
  ids_or_sidecar none (some snap) = keys snap.symbols

  unfoldable pub snapshot_row : String → String → String → List String → ℕ → SnapshotRow
  snapshot_row project_root tag head_sha symbol_ids ts = record {
    snapshot_id = compute_snapshot_id project_root tag head_sha;
    project_root = project_root;
    tag = tag;
    head_sha = head_sha;
    timestamp = ts;
    symbol_count = length symbol_ids;
    checksum = compute_snapshot_checksum symbol_ids;
    tag_invalidated = false;
    ref_kind = "git_tag";
  }

  -- The new state and the row that is returned.
  unfoldable pub build_release_snapshot :
      String
      → String
      → String
      → Option (List String)
      → Option AstSnapshot
      → ℕ
      → Store
      → Store × SnapshotRow
  build_release_snapshot project_root tag head_sha symbol_ids sidecar ts store =
      let row = snapshot_row project_root tag head_sha (ids_or_sidecar symbol_ids sidecar) ts in
      (insert_snapshot row store, row)

-- WHERE project_root = ? AND tag = ? AND head_sha != ? AND tag_invalidated = 0
abbrev pub is_outdated : String → String → String → SnapshotRow → Bool
is_outdated project_root tag head_sha r =
    r.project_root == project_root
    && (r.tag == tag && (not (r.head_sha == head_sha) && not r.tag_invalidated))

abbrev pub invalidate : String → String → String → SnapshotRow → SnapshotRow
invalidate project_root tag head_sha r =
    if is_outdated project_root tag head_sha r then record r { tag_invalidated = true } else r

unfoldable pub invalidate_existing_tag : String → String → String → Store → Store × ℕ
invalidate_existing_tag project_root tag head_sha store = (
  record store { snapshots = map (invalidate project_root tag head_sha) store.snapshots },
  count_if (is_outdated project_root tag head_sha) store.snapshots,
)

module _ (sha256 : String → String) where
  abbrev pub prepare : String → TagEvent → TagKind → Store → Store
  prepare project_root event moved store =
      (invalidate_existing_tag project_root event.tag event.head_sha store).0
  prepare project_root event created store = store

  unfoldable pub handle_tag_event :
      String
      → TagEvent
      → Option (List String)
      → Option AstSnapshot
      → ℕ
      → Store
      → Store × SnapshotRow
  handle_tag_event project_root event symbol_ids sidecar ts store =
      build_release_snapshot sha256 project_root event.tag event.head_sha symbol_ids sidecar ts
        (prepare project_root event event.kind store)
