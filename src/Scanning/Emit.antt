-- ===== src/Scanning/Emit.antt =====
-- `_emit_timeline_for_scan` and `_resolve_head_sha` of libs/scanning/scanner.py: the timeline that
-- follows a scan of the whole project. The sink and the store of the scan's state are kept apart.
use lv_dcp.Base.{
  ℕ, ◌+◌, String, ◌==◌, ◌≡◌, refl, ap, ◌∙◌, Option, none, some, List, [], map, if◌then◌else◌,
}
use lv_dcp.Timeline.Events.{AstSnapshot}
use lv_dcp.Timeline.Store.{Store, upsert_scan_state}
use lv_dcp.Timeline.Differ.{Stamp}
use lv_dcp.Timeline.Differ.Exact.{IsKeyed}
use lv_dcp.Timeline.Rename.{Matcher}
use lv_dcp.Timeline.Sinks.{TimelineSink, Stats}
use lv_dcp.Timeline.Bracket.{◌>>=◌, emit_timeline}
use lv_dcp.Timeline.Reconcile.{strip}
use lv_dcp.Timeline.Capture.{
  build_snapshot_from_cache, build_snapshot_from_symbols, default_body_reader,
}
use lv_dcp.Timeline.Capture.Keyed.{build_snapshot-IsKeyed}
use lv_dcp.Timeline.Capture.Sidecar.{Json, payload, load_snapshot, save_snapshot}
use lv_dcp.Timeline.Capture.Sidecar.RoundTrip.{load_snapshot-save_snapshot}
use lv_dcp.Storage.{Symbol}
use lv_dcp.Storage.Intact.{IfSome, bind-IfSome, IfSome-at, any-IfSome}

-- The output of `git rev-parse HEAD`, none where git fails.
unfoldable pub resolve_head_sha : Option String → Option String
unfolding strip
resolve_head_sha none = none
resolve_head_sha (some out) = if strip out == "" then none else some (strip out)

-- What the emission calls: hash and encoding, numbers as texts, json, difflib, the threshold of the
-- settings, and the author that events carry.
pub record Env : Type 0 where
  pub sha256 : String → String
  pub encode : String → String
  pub str : ℕ → String
  pub dumps : Json → String
  pub loads : String → Option Json
  pub repr : Json → String
  pub matcher : Matcher
  pub threshold : ℕ

-- A scan that has ended: the symbols of the cache, the files on the disk, git's output and times.
pub record Ended : Type 0 where
  pub project_root : String
  pub symbols : List Symbol
  pub disk : String → Option (List String)
  pub git : Option String
  pub wall_start : ℕ
  pub elapsed : ℕ

-- The file of the last snapshot, the sink, and the store of the scan's state.
pub record Timeline (S : Type 0) : Type 0 where
  pub sidecar : Option String
  pub sink : S
  pub states : Store

abbrev pub timeline_symbol : Symbol → lv_dcp.Timeline.Capture.Symbol
timeline_symbol s = record {
  fq_name = s.fq_name;
  symbol_type = s.symbol_type;
  file_path = s.file_path;
  start_line = s.start_line;
  end_line = s.end_line;
  signature = s.signature;
  docstring = s.docstring;
}

abbrev pub no_snapshot : AstSnapshot
no_snapshot = record { symbols = []; commit_sha = none }

abbrev pub or_no_snapshot : Option AstSnapshot → AstSnapshot
or_no_snapshot none = no_snapshot
or_no_snapshot (some snapshot) = snapshot

module _ (env : Env) where
  abbrev pub prev_of : Option String → AstSnapshot
  prev_of sidecar = or_no_snapshot (load_snapshot env.repr env.loads sidecar)

  abbrev pub curr_of : Ended → AstSnapshot
  curr_of scan =
      build_snapshot_from_cache env.sha256 env.encode env.str scan.project_root scan.disk
        (map timeline_symbol scan.symbols) (resolve_head_sha scan.git)

  abbrev pub stamp_of : Ended → Stamp
  stamp_of scan = record {
    project_root = scan.project_root;
    timestamp = scan.wall_start + scan.elapsed;
    author = none;
  }

  -- What is left once the events are in the sink.
  abbrev pub persisted : {S : Type 0} → Ended → Timeline S → S × Stats → Timeline S
  persisted scan before (sent, stats) = record {
    sidecar = some (save_snapshot env.dumps (curr_of scan));
    sink = sent;
    states =
        upsert_scan_state scan.project_root (resolve_head_sha scan.git)
          (scan.wall_start + scan.elapsed) before.states;
  }

  -- None where the sink raises.
  unfoldable pub emit_timeline_for_scan :
      {S : Type 0} → TimelineSink S → Ended → Timeline S → Option (Timeline S)
  emit_timeline_for_scan sink scan before =
      emit_timeline sink env.matcher env.threshold (stamp_of scan) (resolve_head_sha scan.git)
        (prev_of before.sidecar) (curr_of scan) scan.wall_start before.sink
      >>= λ sent. some (persisted scan before sent)

  curr_of-IsKeyed : (scan : Ended) → IsKeyed (curr_of scan)
  unfolding build_snapshot_from_cache
  curr_of-IsKeyed scan =
      build_snapshot-IsKeyed env.sha256 env.encode env.str scan.project_root
        (some (default_body_reader scan.disk)) (resolve_head_sha scan.git)
        (map timeline_symbol scan.symbols) []

  emit-sidecar :
      {S : Type 0} (sink : TimelineSink S) (scan : Ended) (before : Timeline S)
      → IfSome
          (λ (after : Timeline S). after.sidecar ≡ some (save_snapshot env.dumps (curr_of scan)))
          (emit_timeline_for_scan sink scan before)
  unfolding emit_timeline_for_scan
  emit-sidecar {S} sink scan before =
      bind-IfSome (λ _. Unit)
        (λ (after : Timeline S). after.sidecar ≡ some (save_snapshot env.dumps (curr_of scan))) sent
        (λ s. some (persisted scan before s)) (any-IfSome sent) λ s _. refl
    where
      sent : Option (S × Stats)
      sent =
          emit_timeline sink env.matcher env.threshold (stamp_of scan) (resolve_head_sha scan.git)
            (prev_of before.sidecar) (curr_of scan) scan.wall_start before.sink

  -- Two scans in a row: after a scan whose timeline was written, and where json reads back what it
  -- wrote, the events of the next scan are those between the snapshots of the two, so no change
  -- between them is left out or told twice.
  pub emit_timeline_for_scan-next :
      {S : Type 0} (sink : TimelineSink S) (first second : Ended) (before middle : Timeline S)
      → env.loads (env.dumps (payload (curr_of first))) ≡ some (payload (curr_of first))
      → emit_timeline_for_scan sink first before ≡ some middle
      → emit_timeline_for_scan sink second middle ≡ (
          emit_timeline sink env.matcher env.threshold
            (stamp_of second)
            (resolve_head_sha second.git)
            (curr_of first)
            (curr_of second)
            second.wall_start
            middle.sink
          >>= λ sent. some (persisted second middle sent))
  unfolding emit_timeline_for_scan
  emit_timeline_for_scan-next {S} sink first second before middle reads done =
      let kept =
        IfSome-at
          (λ (after : Timeline S). after.sidecar ≡ some (save_snapshot env.dumps (curr_of first)))
          (emit_timeline_for_scan sink first before) middle (emit-sidecar sink first before) done in
      ap
        (λ prev.
          emit_timeline sink env.matcher env.threshold (stamp_of second)
            (resolve_head_sha second.git) (or_no_snapshot prev) (curr_of second) second.wall_start
            middle.sink
          >>= λ sent. some (persisted second middle sent))
        (ap (load_snapshot env.repr env.loads) kept
          ∙ load_snapshot-save_snapshot env.repr env.dumps env.loads (curr_of first) reads
              (curr_of-IsKeyed first))
