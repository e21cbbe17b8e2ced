-- ===== src/Timeline/Store/Tables.antt =====
-- The snapshot and scan-state tables of store.py.
use mathlib.Core.List.{append-nil, append_assoc}
use lv_dcp.Base.{
  ℕ, ◌≤◌, ◌<◌, String, ◌==◌, eq_iff, ◌≡◌, refl, ◌∙◌, false, ◌||◌, Option, none, some, List, [], ◌∷◌,
  ◌++◌, arith, leb, keep, any, All, All-append, All-imp, eq_refl, ◌⊎◌, contains, IsUnique, get-put,
  if◌then◌else◌, Bool-cases, inl, inr,
}
use lv_dcp.Timeline.Events.{SnapshotRow}
use lv_dcp.Timeline.Store.{
  Store, insert_snapshot, newest, is_tagged, latest_snapshot, upsert_scan_state, get_scan_state,
}

abbrev pub snapshot_ids : List SnapshotRow → List String
snapshot_ids [] = []
snapshot_ids (r ∷ rs) = r.snapshot_id ∷ snapshot_ids rs

any-eq-contains :
    (k : String) (rs : List SnapshotRow)
    → any (λ (r : SnapshotRow). r.snapshot_id == k) rs ≡ contains k (snapshot_ids rs)
any-eq-contains k [] = refl
any-eq-contains k (r ∷ rs) =
    ground (arith, any-eq-contains k rs, eq_iff r.snapshot_id k, eq_iff k r.snapshot_id)

contains-snoc :
    (k : String) (r : SnapshotRow) (rs : List SnapshotRow)
    → contains k (snapshot_ids (rs ++ r ∷ []))
      ≡ (contains k (snapshot_ids rs) || k == r.snapshot_id)
contains-snoc k r [] = ground arith
contains-snoc k r (q ∷ rs) = ground (arith, contains-snoc k r rs)

IsUnique-snoc :
    (r : SnapshotRow) (rs : List SnapshotRow)
    → contains r.snapshot_id (snapshot_ids rs) ≡ false
    → IsUnique (snapshot_ids rs)
    → IsUnique (snapshot_ids (rs ++ r ∷ []))
IsUnique-snoc r [] n u = (refl, tt)
IsUnique-snoc r (q ∷ rs) n u = ground (
  arith,
  contains-snoc q.snapshot_id r rs,
  IsUnique-snoc r rs,
  eq_iff q.snapshot_id r.snapshot_id,
  eq_iff r.snapshot_id q.snapshot_id,
)

-- Whatever is inserted, `snapshot_id` stays a key.
pub insert_snapshot-IsUnique :
    (r : SnapshotRow) (s : Store)
    → IsUnique (snapshot_ids s.snapshots)
    → IsUnique (snapshot_ids (insert_snapshot r s).snapshots)
unfolding insert_snapshot
insert_snapshot-IsUnique r s u =
    elim (Bool-cases (contains r.snapshot_id (snapshot_ids s.snapshots))) [
      | inl old ↦ rw (any-eq-contains r.snapshot_id s.snapshots, old) u
      | inr new ↦
          rw (any-eq-contains r.snapshot_id s.snapshots, new) (IsUnique-snoc r s.snapshots new u)
    ]

-- A second insertion of the same snapshot changes nothing.
pub insert_snapshot_idem :
    (r : SnapshotRow) (s : Store) → insert_snapshot r (insert_snapshot r s) ≡ insert_snapshot r s
unfolding insert_snapshot
insert_snapshot_idem r s = elim (Bool-cases (contains r.snapshot_id (snapshot_ids s.snapshots))) [
  | inl old ↦
      let there = any-eq-contains r.snapshot_id s.snapshots ∙ old in rw there (rw there refl)
  | inr new ↦
      rw (any-eq-contains r.snapshot_id s.snapshots, new)
        (rw (
          any-eq-contains r.snapshot_id (s.snapshots ++ r ∷ []),
          contains-snoc r.snapshot_id r s.snapshots,
          new,
          eq_refl,
        ))
]

-- `r` is the last of the newest rows.
pub record IsLatest (r : SnapshotRow) (rows : List SnapshotRow) : Type 0 where
  pub before : List SnapshotRow
  pub after : List SnapshotRow
  pub split : rows ≡ before ++ r ∷ after
  pub not_newer : All (λ (q : SnapshotRow). q.timestamp ≤ r.timestamp) before
  pub older : All (λ (q : SnapshotRow). q.timestamp < r.timestamp) after

newest-IsLatest :
    (before : List SnapshotRow) (b : SnapshotRow) (after rest : List SnapshotRow)
    → All (λ (q : SnapshotRow). q.timestamp ≤ b.timestamp) before
    → All (λ (q : SnapshotRow). q.timestamp < b.timestamp) after
    → (r : SnapshotRow) × (newest (some b) rest ≡ some r)
      × IsLatest r (before ++ (b ∷ (after ++ rest)))
newest-IsLatest before b after [] le lt = (
  b,
  refl,
  record { before = before; after = after; split = rw append-nil; not_newer = le; older = lt },
)
newest-IsLatest before b after (q ∷ rest) le lt = elim (Bool-cases (leb b.timestamp q.timestamp)) [
  | inl newer ↦
      let b_le_q : b.timestamp ≤ q.timestamp = ground arith in
      let (r, found, latest) =
        newest-IsLatest (before ++ b ∷ after) q [] rest
          (All-append _ before (b ∷ after) (All-imp _ _ before (λ p h. omega arith) le)
            (b_le_q, All-imp _ _ after (λ p h. omega arith) lt))
          tt in
      (r, rw newer found, rw append_assoc at latest)
  | inr older ↦
      let q_lt_b : q.timestamp < b.timestamp = ground arith in
      let (r, found, latest) =
        newest-IsLatest before b (after ++ q ∷ []) rest le
          (All-append _ after (q ∷ []) lt (q_lt_b, tt)) in
      (r, rw older found, rw append_assoc at latest)
]

-- `latest_snapshot` is the newest row of the project and tag, at a tie the one that was inserted
-- last, and it is `None` only where there is no such row.
pub latest_snapshot-exact :
    (s : Store) (root tag : String)
    → let rows = keep (is_tagged root tag) s.snapshots in
      (latest_snapshot s root tag ≡ none) × (rows ≡ [])
      ⊎ ((r : SnapshotRow) × (latest_snapshot s root tag ≡ some r) × IsLatest r rows)
unfolding latest_snapshot
latest_snapshot-exact s root tag = go (keep (is_tagged root tag) s.snapshots)
  where
    go :
        (rows : List SnapshotRow)
        → (newest none rows ≡ none) × (rows ≡ [])
          ⊎ ((r : SnapshotRow) × (newest none rows ≡ some r) × IsLatest r rows)
    go [] = inl (refl, refl)
    go (b ∷ rest) = inr (newest-IsLatest [] b [] rest tt tt)

-- The scan state of a project is what was last recorded for it, and recording it for one project
-- changes it for no other.
pub get_scan_state-upsert :
    (s : Store) (root j : String) (sha : Option String) (ts : ℕ)
    → get_scan_state (upsert_scan_state root sha ts s) j ≡ (
        if j == root
        then some (record { project_root = root; last_scan_commit_sha = sha; last_scan_ts = ts })
        else get_scan_state s j)
unfolding get_scan_state upsert_scan_state
get_scan_state-upsert s root j sha ts = get-put j root _ s.scan_state
