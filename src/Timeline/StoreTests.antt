-- ===== src/Timeline/StoreTests.antt =====
-- Runs of the store, of reconcile and of the release snapshots, and their theorems at them.
use lv_dcp.Base.{
  ℕ, ◌+◌, String, ◌==◌, eq_iff, ◌≡◌, refl, Bool, true, false, ◌&&◌, none, some, List, [], ◌∷◌, ◌++◌,
  arith, All, any, keep, count_if, leb, length, ◌⊎◌, map, IsUnique, prefix,
}
use lv_dcp.Timeline.Events.{added, other, TimelineEvent, SnapshotRow}
use lv_dcp.Timeline.Store.{
  Store, empty_store, ok, value_error, append_event, is_between, events_for_symbol, events_between,
  order_by_time, insert_snapshot, latest_snapshot, upsert_scan_state, get_scan_state, is_tagged,
}
use lv_dcp.Timeline.Store.Order.{IsOrdered, at_time}
use lv_dcp.Timeline.Store.Queries.{
  events_between-exact, events_for_symbol-append_event, events_between-retain,
}
use lv_dcp.Timeline.Store.Tables.{
  snapshot_ids, insert_snapshot-IsUnique, insert_snapshot_idem, IsLatest, latest_snapshot-exact,
  get_scan_state-upsert,
}
use lv_dcp.Timeline.Reconcile.{
  reconcile_orphaned_events, GitRunner, list_reachable_commits, reconcile, prune_events,
}
use lv_dcp.Timeline.Reconcile.Flags.{
  orphan, is_newly, is_again, reconcile_orphaned-exact, reconcile_orphaned-count, reconcile_idem,
}
use lv_dcp.Timeline.Reconcile.Prune.{prune_events-orphaned}
use lv_dcp.Timeline.Snapshots.{TagEvent, moved, compute_snapshot_id, handle_tag_event}
use lv_dcp.Timeline.Snapshots.Tags.{
  AtHead, others, handle_tag_event-moved, handle_tag_event-moved_back,
}

abbrev row : String → String → ℕ → Bool → TimelineEvent
row sid sha ts orphaned = record {
  project_root = "/p";
  symbol_id = sid;
  event_type = added;
  commit_sha = some sha;
  timestamp = ts;
  author = none;
  content_hash = none;
  file_path = "x.py";
  qualified_name = none;
  extra_json = none;
  orphaned = orphaned;
}

-- Commit `c1` was rewritten. One of its rows is orphaned already, and one came in later.
abbrev rows : Store
rows = record empty_store {
  events = row "a" "c1" 10 true ∷ row "b" "c2" 30 false ∷ row "a" "c1" 20 false ∷ [];
}

test_events_between :
    events_between rows "/p" 0 100 none false ≡ row "a" "c1" 20 false ∷ row "b" "c2" 30 false ∷ []
unfolding events_between order_by_time
test_events_between = refl

run_between :
    IsOrdered (events_between rows "/p" 0 100 none true)
    × ((t : ℕ)
        → at_time t (events_between rows "/p" 0 100 none true)
          ≡ keep
              (λ (e : TimelineEvent).
                is_between "/p" 0 100 none true e && (leb t e.timestamp && leb e.timestamp t))
              rows.events)
run_between = events_between-exact rows "/p" 0 100 none true

abbrev grown : Store
grown = record rows { events = rows.events ++ row "a" "c3" 40 false ∷ [] }

append_grown : append_event (row "a" "c3" 40 false) none 50 rows ≡ ok grown
unfolding append_event
append_grown = refl

append_grown_days : append_event (row "a" "c3" 40 false) (some 1) 50 rows ≡ ok grown
unfolding append_event
append_grown_days = refl

test_append_invalid :
    append_event (record (row "a" "c3" 40 false) { event_type = other "gone" }) none 50 rows
    ≡ value_error
unfolding append_event
test_append_invalid = refl

test_appended :
    events_for_symbol grown "/p" "a" false
    ≡ events_for_symbol rows "/p" "a" false ++ row "a" "c3" 40 false ∷ []
test_appended =
    events_for_symbol-append_event (row "a" "c3" 40 false) 50 rows grown "/p" "a" false append_grown
      (omega arith)

test_retained :
    events_between grown "/p" 0 100 none false ≡ events_between grown "/p" 0 100 none false
test_retained =
    events_between-retain (row "a" "c3" 40 false) 1 50 rows grown grown "/p" 0 100 none false
      append_grown_days append_grown (omega arith)

abbrev snapshot : String → String → ℕ → Bool → SnapshotRow
snapshot id head ts invalid = record {
  snapshot_id = id;
  project_root = "/p";
  tag = "v1";
  head_sha = head;
  timestamp = ts;
  symbol_count = 0;
  checksum = "";
  tag_invalidated = invalid;
  ref_kind = "git_tag";
}

abbrev tagged : Store
tagged = record empty_store { snapshots = snapshot "s1" "c1" 5 false ∷ [] }

insert_snapshot-IsUnique_run :
    IsUnique (snapshot_ids (insert_snapshot (snapshot "s2" "c2" 6 false) tagged).snapshots)
insert_snapshot-IsUnique_run =
    insert_snapshot-IsUnique (snapshot "s2" "c2" 6 false) tagged (refl, tt)

insert_snapshot_idem_example :
    insert_snapshot
      (snapshot "s2" "c2" 6 false)
      (insert_snapshot (snapshot "s2" "c2" 6 false) tagged)
    ≡ insert_snapshot (snapshot "s2" "c2" 6 false) tagged
insert_snapshot_idem_example = insert_snapshot_idem (snapshot "s2" "c2" 6 false) tagged

run_newest :
    (latest_snapshot tagged "/p" "v1" ≡ none) × (keep (is_tagged "/p" "v1") tagged.snapshots ≡ [])
    ⊎ ((r : SnapshotRow) × (latest_snapshot tagged "/p" "v1" ≡ some r)
        × IsLatest r (keep (is_tagged "/p" "v1") tagged.snapshots))
run_newest = latest_snapshot-exact tagged "/p" "v1"

get_scan_state-upsert_example :
    get_scan_state (upsert_scan_state "/p" (some "c1") 7 rows) "/p"
    ≡ some (record { project_root = "/p"; last_scan_commit_sha = some "c1"; last_scan_ts = 7 })
get_scan_state-upsert_example = get_scan_state-upsert rows "/p" "/p" (some "c1") 7

abbrev known : List String
known = "c2" ∷ []

reconcile_orphaned-exact_example :
    (reconcile_orphaned_events "/p" known rows).0
    ≡ record rows { events = map (orphan "/p" known) rows.events }
reconcile_orphaned-exact_example = reconcile_orphaned-exact "/p" known rows

reconcile_orphaned-count_example :
    (reconcile_orphaned_events "/p" known rows).1
    ≡ count_if (is_newly "/p" known) rows.events
      + count_if (is_again "/p" known rows.events) rows.events
reconcile_orphaned-count_example = reconcile_orphaned-count "/p" known rows

-- One row is newly orphaned, and the call returns 2.
test_overcount :
    ((reconcile_orphaned_events "/p" known rows).1 ≡ 2)
    × (count_if (is_newly "/p" known) rows.events ≡ 1)
unfolding reconcile_orphaned_events
test_overcount = (refl, refl)

abbrev git : GitRunner
git args = some ("c2 " ∷ "" ∷ [])

run_reconcile_twice :
    ((reconcile git "/p" (reconcile git "/p" rows).0).0 ≡ (reconcile git "/p" rows).0)
    × ((reconcile git "/p" (reconcile git "/p" rows).0).1.orphaned_newly_flagged ≡ 0)
    × (list_reachable_commits git ≡ none → (reconcile git "/p" rows).0 ≡ rows)
run_reconcile_twice = reconcile_idem git "/p" rows

run_pruned :
    (events_between (prune_events "/p" 25 true rows).0 "/p" 0 100 none false
      ≡ events_between rows "/p" 0 100 none false)
    × (length (prune_events "/p" 25 true rows).0.events + (prune_events "/p" 25 true rows).1
        ≡ length rows.events)
run_pruned = prune_events-orphaned rows "/p" "/p" 25 0 100 none

-- A stand-in for the digest.
abbrev same_text : String → String
same_text s = s

abbrev back : TagEvent
back = record { tag = "v1"; head_sha = "c1"; kind = moved; previous_sha = some "c2" }

-- The tag `v1` was at `c1`, and is at `c2`.
abbrev moved_once : Store
moved_once = record empty_store {
  snapshots = snapshot "/p\0v1\0c1" "c1" 5 true ∷ snapshot "/p\0v1\0c2" "c2" 6 false ∷ [];
}

run_moved_tag :
    All
      (AtHead "/p" "v1" "c1")
      (handle_tag_event same_text "/p" back none none 7 moved_once).0.snapshots
    × (others "/p" "v1" (handle_tag_event same_text "/p" back none none 7 moved_once).0.snapshots
        ≡ others "/p" "v1" moved_once.snapshots)
run_moved_tag = handle_tag_event-moved same_text "/p" back none none 7 moved_once refl

c1_stored :
    any
      (λ (r : SnapshotRow). r.snapshot_id == compute_snapshot_id same_text "/p" "v1" "c1")
      moved_once.snapshots
    ≡ true
unfolding compute_snapshot_id prefix
c1_stored = refl

handle_tag_event-moved_back_example :
    All
      (λ r. is_tagged "/p" "v1" r ≡ true → r.tag_invalidated ≡ true)
      (handle_tag_event same_text "/p" back none none 7 moved_once).0.snapshots
handle_tag_event-moved_back_example =
    handle_tag_event-moved_back same_text "/p" back none none 7 moved_once refl c1_stored
      ((λ t h. refl), ((λ t h. ground (arith, eq_iff "c2" "c1")), tt))
