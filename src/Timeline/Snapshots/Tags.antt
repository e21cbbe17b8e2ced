-- ===== src/Timeline/Snapshots/Tags.antt =====
-- What a moved tag does to the snapshots of its name.
use lv_dcp.Base.{
  ℕ, String, ◌==◌, eq_iff, eq_refl, ◌≡◌, refl, ◌∙◌, true, false, not, Option, List, [], ◌∷◌, arith,
  map, keep, keep-append, any, All, All-append, Bool-cases, inl, inr,
}
use mathlib.Core.List.{append-nil}
use lv_dcp.Timeline.Events.{AstSnapshot, SnapshotRow}
use lv_dcp.Timeline.Store.{Store, insert_snapshot, is_tagged}
use lv_dcp.Timeline.Snapshots.{
  TagEvent, moved, compute_snapshot_id, ids_or_sidecar, snapshot_row, build_release_snapshot,
  invalidate, invalidate_existing_tag, handle_tag_event,
}

-- A statement about the rows of a table, as an `abbrev` that a proof can compute.
map-All :
    (P Q : SnapshotRow → Type 0) (f : SnapshotRow → SnapshotRow) (rs : List SnapshotRow)
    → ((r : SnapshotRow) → Q r → P (f r))
    → All Q rs
    → All P (map f rs)
map-All P Q f [] h all = tt
map-All P Q f (r ∷ rs) h all = (h r all.0, map-All P Q f rs h all.1)

All-true : (rs : List SnapshotRow) → All (λ r. Unit {0}) rs
All-true [] = tt
All-true (r ∷ rs) = (tt, All-true rs)

insert_snapshot-All :
    (P : SnapshotRow → Type 0) (row : SnapshotRow) (s : Store)
    → P row
    → All P s.snapshots
    → All P (insert_snapshot row s).snapshots
unfolding insert_snapshot
insert_snapshot-All P row s pr all =
    elim (Bool-cases (any (λ (r : SnapshotRow). r.snapshot_id == row.snapshot_id) s.snapshots)) [
      | inl old ↦ rw old all
      | inr new ↦ rw new (All-append P s.snapshots (row ∷ []) all (pr, tt))
    ]

-- A valid row of the tag is at the commit.
abbrev pub AtHead : String → String → String → SnapshotRow → Type 0
AtHead root tag head r = is_tagged root tag r ≡ true → r.tag_invalidated ≡ false → r.head_sha ≡ head

invalidate-AtHead :
    (root tag head : String) (r : SnapshotRow) → AtHead root tag head (invalidate root tag head r)
invalidate-AtHead root tag head r t v = ground (arith, eq_iff r.head_sha head)

invalidate-gone :
    (root tag head : String) (r : SnapshotRow)
    → (is_tagged root tag r ≡ true → r.head_sha ≡ head → r.tag_invalidated ≡ true)
    → is_tagged root tag (invalidate root tag head r) ≡ true
    → (invalidate root tag head r).tag_invalidated ≡ true
invalidate-gone root tag head r h t = elim (Bool-cases (r.head_sha == head)) [
  | inl same ↦ let at_head = (eq_iff r.head_sha head).0 same in ground arith
  | inr other ↦ ground arith
]

any-invalidate :
    (k root tag head : String) (rs : List SnapshotRow)
    → any (λ (r : SnapshotRow). r.snapshot_id == k) (map (invalidate root tag head) rs)
      ≡ any (λ (r : SnapshotRow). r.snapshot_id == k) rs
any-invalidate k root tag head [] = refl
any-invalidate k root tag head (r ∷ rs) = ground (arith, any-invalidate k root tag head rs)

insert_snapshot-old :
    (row : SnapshotRow) (s : Store)
    → any (λ (r : SnapshotRow). r.snapshot_id == row.snapshot_id) s.snapshots ≡ true
    → insert_snapshot row s ≡ s
unfolding insert_snapshot
insert_snapshot-old row s h = rw h

-- The rows of every other tag and project.
abbrev pub others : String → String → List SnapshotRow → List SnapshotRow
others root tag = keep (λ r. not (is_tagged root tag r))

others-invalidate :
    (root tag head : String) (rs : List SnapshotRow)
    → others root tag (map (invalidate root tag head) rs) ≡ others root tag rs
others-invalidate root tag head [] = refl
others-invalidate root tag head (r ∷ rs) = ground (arith, others-invalidate root tag head rs)

others-insert_snapshot :
    (root tag : String) (row : SnapshotRow) (s : Store)
    → is_tagged root tag row ≡ true
    → others root tag (insert_snapshot row s).snapshots ≡ others root tag s.snapshots
unfolding insert_snapshot
others-insert_snapshot root tag row s own =
    elim (Bool-cases (any (λ (r : SnapshotRow). r.snapshot_id == row.snapshot_id) s.snapshots)) [
      | inl old ↦ rw old
      | inr new ↦ rw new (
          keep-append (λ r. not (is_tagged root tag r)) s.snapshots (row ∷ [])
          ∙ rw own (append-nil _))
    ]

module _ (sha256 : String → String) (root : String) (event : TagEvent)
    (symbol_ids : Option (List String)) (sidecar : Option AstSnapshot) (ts : ℕ) (s : Store)
    (is_moved : event.kind ≡ moved) where
  -- After a tag has moved, each valid snapshot of the tag is at the tag's new commit, and the
  -- snapshots of the other tags and projects are as they were.
  pub handle_tag_event-moved :
      All
        (AtHead root event.tag event.head_sha)
        (handle_tag_event sha256 root event symbol_ids sidecar ts s).0.snapshots
      × (others root event.tag
            (handle_tag_event sha256 root event symbol_ids sidecar ts s).0.snapshots
          ≡ others root event.tag s.snapshots)
  unfolding handle_tag_event build_release_snapshot invalidate_existing_tag snapshot_row
  handle_tag_event-moved =
      let outdated : Store = record s {
        snapshots = map (invalidate root event.tag event.head_sha) s.snapshots;
      } in
      let row =
        snapshot_row sha256 root event.tag event.head_sha (ids_or_sidecar sha256 symbol_ids sidecar)
          ts in
      rw is_moved (
        insert_snapshot-All (AtHead root event.tag event.head_sha) row outdated (λ t v. refl)
            (map-All (AtHead root event.tag event.head_sha) (λ r. Unit {0}) _ s.snapshots
              (λ r u. invalidate-AtHead root event.tag event.head_sha r) (All-true s.snapshots)),
        others-insert_snapshot root event.tag row outdated
              (ground (arith, eq_refl root, eq_refl event.tag))
            ∙ others-invalidate root event.tag event.head_sha s.snapshots,
      )

  -- A tag that moves back to a commit it had before gets no valid snapshot: where the store still
  -- has the snapshot of that commit, and each snapshot of the tag there is invalidated, all the
  -- snapshots of the tag are invalidated after the move.
  pub handle_tag_event-moved_back :
      any
          (λ (r : SnapshotRow).
            r.snapshot_id == compute_snapshot_id sha256 root event.tag event.head_sha)
          s.snapshots
        ≡ true
      → All
          (λ r.
            is_tagged root event.tag r ≡ true
            → r.head_sha ≡ event.head_sha
            → r.tag_invalidated ≡ true)
          s.snapshots
      → All
          (λ r. is_tagged root event.tag r ≡ true → r.tag_invalidated ≡ true)
          (handle_tag_event sha256 root event symbol_ids sidecar ts s).0.snapshots
  unfolding handle_tag_event build_release_snapshot invalidate_existing_tag snapshot_row
  handle_tag_event-moved_back there gone =
      let outdated : Store = record s {
        snapshots = map (invalidate root event.tag event.head_sha) s.snapshots;
      } in
      let row =
        snapshot_row sha256 root event.tag event.head_sha (ids_or_sidecar sha256 symbol_ids sidecar)
          ts in
      rw is_moved (
        rw
          (insert_snapshot-old row outdated
            (any-invalidate row.snapshot_id root event.tag event.head_sha s.snapshots ∙ there))
          (map-All _ _ _ s.snapshots (λ r. invalidate-gone root event.tag event.head_sha r) gone))
