-- ===== src/Timeline/Tests.antt =====
-- Runs of the timeline on small inputs, and its theorems at them.
use lv_dcp.Base.{
  ℕ, ◌+◌, ◌≤◌, String, eq_iff, ◌≡◌, refl, Bool, false, not, ◌&&◌, none, some, List, [], ◌∷◌, ◌++◌,
  arith, All, any, keep, count_if, sorted, map,
}
use lv_dcp.Timeline.Events.{
  EventType, added, removed, modified, moved, old_file_path, TimelineEvent, SymbolSnapshot,
  AstSnapshot, is_added, is_removed,
}
use lv_dcp.Timeline.Differ.{Stamp, diff_ast_snapshots, event}
use lv_dcp.Timeline.Differ.Exact.{of_symbol, IsKeyed, diff-of_symbol}
use lv_dcp.Timeline.Differ.Replay.{place, replay, replay-diff}
use lv_dcp.Timeline.Rename.{
  Matcher, RenameEdge, added_events, removed_events, similarity, best_of, pair_all, pair_renames,
}
use lv_dcp.Timeline.Rename.Edges.{
  confirms_new, confirms_old, pair_renames-new_once, pair_renames-remaining,
}
use lv_dcp.Timeline.Rename.Backed.{IsBacked, pair_renames-IsBacked}
use lv_dcp.Timeline.Store.{empty_store}
use lv_dcp.Timeline.Sinks.{MemoryState, memory_sink, SqliteState, sqlite_sink}
use lv_dcp.Timeline.Bracket.{emit_timeline}
use lv_dcp.Timeline.Bracket.Counts.{stats_of}
use lv_dcp.Timeline.Bracket.Memory.{after_run, emit_timeline-memory}
use lv_dcp.Timeline.Bracket.Sqlite.{with_rows, emit_timeline-sqlite}
use lv_dcp.Timeline.Bracket.Story.{IsSettled, remaining-replay}

abbrev symbol : String → String → String → String → SymbolSnapshot
symbol sid path hash name = record {
  symbol_id = sid;
  file_path = path;
  content_hash = hash;
  qualified_name = some name;
}

-- `a` is renamed to `e` with the same body, `b` is moved, `c` is edited, and `d` is as it was.
abbrev before : AstSnapshot
before = record {
  symbols =
      ("a", symbol "a" "x.py" "1" "x.run")
      ∷ ("b", symbol "b" "x.py" "2" "x.go")
      ∷ ("c", symbol "c" "y.py" "3" "y.c")
      ∷ ("d", symbol "d" "y.py" "4" "y.d")
      ∷ [];
  commit_sha = some "c1";
}

abbrev after : AstSnapshot
after = record {
  symbols =
      ("b", symbol "b" "z.py" "2" "x.go")
      ∷ ("c", symbol "c" "y.py" "9" "y.c")
      ∷ ("e", symbol "e" "x.py" "1" "x.start")
      ∷ ("d", symbol "d" "y.py" "4" "y.d")
      ∷ [];
  commit_sha = some "c2";
}

abbrev stamp : Stamp
stamp = record { project_root = "/p"; timestamp = 100; author = none }

before-IsKeyed : IsKeyed before
before-IsKeyed = record {
  unique = (refl, (refl, (refl, (refl, tt))));
  own = λ k s h. ground (arith, eq_iff k "a", eq_iff k "b", eq_iff k "c", eq_iff k "d");
}

after-IsKeyed : IsKeyed after
after-IsKeyed = record {
  unique = (refl, (refl, (refl, (refl, tt))));
  own = λ k s h. ground (arith, eq_iff k "b", eq_iff k "c", eq_iff k "e", eq_iff k "d");
}

program : Unit {0}
unfolding diff_ast_snapshots sorted pair_renames pair_all best_of similarity
program = tt

test_diff :
    map {B = String × EventType}
      (λ (e : TimelineEvent). (e.symbol_id, e.event_type))
      (diff_ast_snapshots before after stamp)
    ≡ ("e", added) ∷ ("a", removed) ∷ ("b", moved) ∷ ("c", modified) ∷ []
unfolding program
test_diff = refl

diff-of_symbol_example :
    of_symbol "b" (diff_ast_snapshots before after stamp)
    ≡ event stamp (some "c2") moved (some (old_file_path "x.py")) (symbol "b" "z.py" "2" "x.go")
      ∷ []
diff-of_symbol_example = diff-of_symbol before after stamp "b" before-IsKeyed after-IsKeyed

run_replay :
    replay "b" (place (some (symbol "b" "x.py" "2" "x.go"))) (diff_ast_snapshots before after stamp)
    ≡ some (record { path = "z.py"; hash = some "2" })
run_replay = replay-diff before after stamp "b" before-IsKeyed after-IsKeyed

-- A stand-in for difflib: names are alike by half.
abbrev half : Matcher
half = record {
  tenth = 10;
  tenth_pos = omega arith;
  ratio = λ r a. 50;
  ratio_le_one = λ r a. omega arith;
}

abbrev threshold : ℕ
threshold = 85

abbrev raw : List TimelineEvent
raw = diff_ast_snapshots before after stamp

test_pair :
    map {B = String × String × ℕ × Bool}
      (λ (e : RenameEdge). (e.old_symbol_id, e.new_symbol_id, e.confidence, e.is_candidate))
      (pair_renames half threshold raw).0
    ≡ ("a", "e", 100, false) ∷ []
unfolding program
test_pair = refl

pair_renames-IsBacked_example :
    All
      (IsBacked half threshold
        (added_events raw)
        (removed_events raw)
        (λ k. not (any (confirms_new k) (pair_renames half threshold raw).0)))
      (pair_renames half threshold raw).0
pair_renames-IsBacked_example = pair_renames-IsBacked half threshold raw

run_new_once : count_if (confirms_new "e") (pair_renames half threshold raw).0 ≤ 1
run_new_once = pair_renames-new_once half threshold raw "e"

test_remaining :
    (pair_renames half threshold raw).1
    ≡ keep (λ (e : TimelineEvent). not (is_added e.event_type) && not (is_removed e.event_type)) raw
      ++ (keep
            (λ (e : TimelineEvent).
              is_added e.event_type
              && not (any (confirms_new e.symbol_id) (pair_renames half threshold raw).0))
            raw
          ++ keep
              (λ (e : TimelineEvent).
                is_removed e.event_type
                && not (any (confirms_old e.symbol_id) (pair_renames half threshold raw).0))
              raw)
test_remaining = pair_renames-remaining half threshold raw

abbrev no_memory : MemoryState
no_memory = record { events = []; edges = []; begins = []; ends = [] }

run_memory :
    emit_timeline memory_sink half threshold stamp (some "c2") before after 90 no_memory
    ≡ some (
      after_run stamp
          (some "c2")
          90
          (pair_renames half threshold raw).0
          (pair_renames half threshold raw).1
          no_memory,
      stats_of (pair_renames half threshold raw).1 (pair_renames half threshold raw).0,
    )
run_memory = emit_timeline-memory half threshold stamp (some "c2") before after 90 no_memory

abbrev no_rows : SqliteState
no_rows = record { store = empty_store; reads = 0 }

emit_timeline-sqlite_example :
    emit_timeline
      (sqlite_sink none (λ n. 100 + n))
      half
      threshold
      stamp
      (some "c2")
      before
      after
      90
      no_rows
    ≡ some (
      with_rows "/p"
          (pair_renames half threshold raw).1
          (pair_renames half threshold raw).0
          no_rows,
      stats_of (pair_renames half threshold raw).1 (pair_renames half threshold raw).0,
    )
emit_timeline-sqlite_example =
    emit_timeline-sqlite half threshold (λ n. 100 + n) stamp (some "c2") before after 90 no_rows

b_IsSettled : IsSettled half threshold before after stamp "b"
unfolding program
b_IsSettled = (refl, refl)

remaining-replay_example :
    replay "b" (place (some (symbol "b" "x.py" "2" "x.go"))) (pair_renames half threshold raw).1
    ≡ some (record { path = "z.py"; hash = some "2" })
remaining-replay_example =
    remaining-replay half threshold before after stamp "b" before-IsKeyed after-IsKeyed b_IsSettled
