-- ===== src/Scanning/EmitTests.antt =====
-- A run of the timeline after a scan, and the theorem on it.
use lv_dcp.Base.{ℕ, String, ◌≡◌, refl, none, some, List, [], ◌∷◌, arith, sorted, prefix, length}
use lv_dcp.Timeline.Differ.{diff_ast_snapshots}
use lv_dcp.Timeline.Rename.{Matcher, pair_renames, pair_all, best_of, similarity}
use lv_dcp.Timeline.Store.{empty_store, upsert_scan_state}
use lv_dcp.Timeline.Sinks.{MemoryState, memory_sink}
use lv_dcp.Timeline.Bracket.{◌>>=◌, emit_timeline}
use lv_dcp.Timeline.Capture.{
  build_snapshot_from_cache, build_snapshot_from_symbols, keep_symbols, default_body_reader,
  compute_symbol_id,
}
use lv_dcp.Timeline.Capture.Sidecar.{payload, load_snapshot, save_snapshot}
use lv_dcp.Timeline.Reconcile.{strip, lstrip, rstrip}
use lv_dcp.Storage.{Symbol}
use lv_dcp.Storage.Intact.{or_given}
use lv_dcp.Scanning.Emit.{
  Env, Ended, Timeline, resolve_head_sha, curr_of, stamp_of, persisted, emit_timeline_for_scan,
  emit_timeline_for_scan-next,
}

program : Unit {0}
unfolding diff_ast_snapshots sorted prefix pair_renames pair_all best_of similarity
    upsert_scan_state emit_timeline build_snapshot_from_cache build_snapshot_from_symbols
    keep_symbols default_body_reader compute_symbol_id load_snapshot save_snapshot strip lstrip
    rstrip resolve_head_sha emit_timeline_for_scan
program = tt

abbrev half : Matcher
half = record {
  tenth = 10;
  tenth_pos = omega arith;
  ratio = λ r a. 50;
  ratio_le_one = λ r a. omega arith;
}

abbrev function : String → Symbol
function name = record {
  name = name;
  fq_name = name;
  symbol_type = "function";
  file_path = "a.py";
  start_line = 1;
  end_line = 2;
  parent_fq_name = none;
  signature = none;
  docstring = none;
}

abbrev ended : List Symbol → ℕ → Ended
ended symbols wall_start = record {
  project_root = "/p";
  symbols = symbols;
  disk = λ path. none;
  git = some "c1\n";
  wall_start = wall_start;
  elapsed = 5;
}

abbrev first : Ended
first = ended (function "f" ∷ []) 10

abbrev second : Ended
second = ended (function "f" ∷ function "g" ∷ []) 20

-- What json writes of the first snapshot is the one text that it reads.
abbrev env : Env
env = record {
  sha256 = λ t. t;
  encode = λ t. t;
  str = λ n. "1";
  dumps = λ v. "the one text";
  loads = λ t. some (
      payload (
        build_snapshot_from_cache (λ t'. t') (λ t'. t') (λ n. "1") "/p" (λ path. none)
          (record {
            fq_name = "f";
            symbol_type = "function";
            file_path = "a.py";
            start_line = 1;
            end_line = 2;
            signature = none;
            docstring = none;
          }
            ∷ [])
          (resolve_head_sha (some "c1\n"))));
  repr = λ v. "";
  matcher = half;
  threshold = 85;
}

abbrev before : Timeline MemoryState
before = record {
  sidecar = none;
  sink = record { events = []; edges = []; begins = []; ends = [] };
  states = empty_store;
}

abbrev middle : Timeline MemoryState
middle = or_given before (emit_timeline_for_scan env memory_sink first before)

done : emit_timeline_for_scan env memory_sink first before ≡ some middle
unfolding program
done = refl

test_first : length middle.sink.events ≡ 1
unfolding program
test_first = refl

emit_timeline_for_scan-next_example : emit_timeline_for_scan env memory_sink second middle ≡ (
    emit_timeline memory_sink half 85
      (stamp_of env second)
      (resolve_head_sha (some "c1\n"))
      (curr_of env first)
      (curr_of env second)
      20
      middle.sink
    >>= λ sent. some (persisted env second middle sent))
emit_timeline_for_scan-next_example =
    emit_timeline_for_scan-next env memory_sink first second before middle refl done
