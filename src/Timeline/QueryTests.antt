-- ===== src/Timeline/QueryTests.antt =====
-- Runs of the queries, and their theorems at them.
use lv_dcp.Base.{
  ℕ, ◌+◌, String, ◌==◌, ◌≡◌, refl, false, Option, none, some, [], ◌∷◌, get, map, if◌then◌else◌,
  split_on,
}
use lv_dcp.Timeline.Events.{EventType, type_name, added, removed, modified, TimelineEvent}
use lv_dcp.Timeline.Store.{Store, empty_store, day, events_between, order_by_time}
use lv_dcp.Timeline.Reconcile.{strip}
use lv_dcp.Timeline.Query.{
  GitProcess, resolve_git_ref, commits_after_ref, commits_between, rev_parse_head, upper_cap,
  sort_ranked, newest_first,
}
use lv_dcp.Timeline.Query.Removed.{RemovedSymbol, removed_since, find_removed_since}
use lv_dcp.Timeline.Query.RemovedSince.{is_gone, is_consumed, IsAnswer, find_removed_since-IsAnswer}
use lv_dcp.Timeline.Query.Diff.{DiffEntry, net_effect, window_shas, diff_window, diff}
use lv_dcp.Timeline.Query.NetEffect.{net_effect-exact}
use lv_dcp.Timeline.Query.Buckets.{IsDiff, events_in, came_to, came_from, diff-IsDiff}

abbrev row : String → EventType → String → ℕ → TimelineEvent
row sid type sha ts = record {
  project_root = "/p";
  symbol_id = sid;
  event_type = type;
  commit_sha = some sha;
  timestamp = ts;
  author = none;
  content_hash = none;
  file_path = "x.py";
  qualified_name = some sid;
  extra_json = none;
  orphaned = false;
}

-- After `c1`: `a` is gone, `b` is gone for `n`, `d` came and went, and `e` came.
abbrev store : Store
store = record empty_store {
  events =
      row "a" added "c1" 11
      ∷ row "a" removed "c2" 21
      ∷ row "b" removed "c2" 21
      ∷ row "n" added "c2" 21
      ∷ row "d" added "c2" 21
      ∷ row "e" added "c2" 21
      ∷ row "d" removed "c3" 31
      ∷ row "e" modified "c3" 31
      ∷ [];
  rename_edges =
      record {
        project_root = "/p";
        old_symbol_id = "b";
        new_symbol_id = "n";
        commit_sha = some "c2";
        timestamp = 21;
        confidence = 100;
        is_candidate = false;
      }
      ∷ [];
}

-- A history of three commits, of which `v1` is the first.
abbrev answer : String → String → Option (ℕ × String)
answer command arg =
    if command == "rev-parse"
    then (if arg == "v1^{commit}" then some (0, "c1\n") else some (0, "c3\n"))
    else (if command == "log" then some (0, "10\n") else some (0, "c3\nc2\n"))

abbrev git : GitProcess
git (command ∷ arg ∷ rest) = answer command arg
git args = none

abbrev float : String → Option ℕ
float raw = if raw == "10" then some 10 else none

program : Unit {0}
unfolding type_name resolve_git_ref commits_after_ref commits_between rev_parse_head strip split_on
    events_between order_by_time sort_ranked newest_first find_removed_since removed_since
    net_effect window_shas diff_window diff
program = tt

known_v1 : resolve_git_ref git float "v1" ≡ some ("c1", 10)
unfolding program
known_v1 = refl

known_head : resolve_git_ref git float "HEAD" ≡ some ("c3", 10)
unfolding program
known_head = refl

test_removed :
    map
      (λ (r : RemovedSymbol). r.symbol_id)
      (find_removed_since store "/p" git float "v1" false 50 none none 1000).removed
    ≡ "d" ∷ "a" ∷ []
unfolding program
test_removed = refl

test_diff_added :
    map (λ (r : DiffEntry). r.symbol_id) (diff store "/p" git float "v1" "HEAD" 20 none 1000).added
    ≡ "e" ∷ []
unfolding program
test_diff_added = refl

test_diff_removed :
    map
      (λ (r : DiffEntry). r.symbol_id)
      (diff store "/p" git float "v1" "HEAD" 20 none 1000).removed
    ≡ "d" ∷ "a" ∷ []
unfolding program
test_diff_removed = refl

find_removed_since-IsAnswer_example :
    IsAnswer none 50
      (is_gone "/p" 10
        (upper_cap none 1000)
        (commits_after_ref git "c1")
        false
        (is_consumed store "/p" 10 (commits_after_ref git "c1")))
      store.events
      (find_removed_since store "/p" git float "v1" false 50 none none 1000)
find_removed_since-IsAnswer_example =
    find_removed_since-IsAnswer store "/p" git float "v1" false 50 none none 1000 "c1" 10 known_v1

run_net_effect : get "d" (net_effect store.events) ≡ some (removed, row "d" removed "c3" 31)
run_net_effect = net_effect-exact store.events "d"

diff-IsDiff_example :
    IsDiff none 20
      (events_in store "/p" 10 (1000 + day) (window_shas git "c1" "c3"))
      (came_to store "/p" 10 (1000 + day) (window_shas git "c1" "c3"))
      (came_from store "/p" 10 (1000 + day) (window_shas git "c1" "c3"))
      (diff store "/p" git float "v1" "HEAD" 20 none 1000)
diff-IsDiff_example =
    diff-IsDiff store "/p" git float "v1" "HEAD" 20 none 1000 ("c1", 10) ("c3", 10) known_v1
      known_head refl
