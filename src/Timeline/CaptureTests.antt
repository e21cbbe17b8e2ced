-- ===== src/Timeline/CaptureTests.antt =====
-- Runs of the snapshot builder and of the tag watcher, and their theorems at them.
use lv_dcp.Base.{
  ℕ, if◌then◌else◌, String, ◌==◌, ◌≡◌, refl, Option, none, some, List, [], ◌∷◌, get, keys, split_on,
  length, prefix,
}
use lv_dcp.Timeline.Events.{AstSnapshot}
use lv_dcp.Timeline.Differ.Exact.{IsKeyed}
use lv_dcp.Timeline.Capture.{
  Symbol, build_snapshot_from_symbols, build_snapshot_from_cache, default_body_reader,
  lines_between, compute_symbol_id, keep_symbols,
}
use lv_dcp.Timeline.Capture.Keyed.{build_snapshot-IsKeyed}
use lv_dcp.Timeline.Capture.Cached.{fresh, build_snapshot_from_cache-fresh}
use lv_dcp.Timeline.Capture.Sidecar.{Json, payload, save_snapshot, load_snapshot}
use lv_dcp.Timeline.Capture.Sidecar.RoundTrip.{load_snapshot-save_snapshot}
use lv_dcp.Timeline.Reconcile.{GitRunner}
use lv_dcp.Timeline.TagWatch.{read_tags, list_git_tags, poll_tags}
use lv_dcp.Timeline.TagWatch.Polls.{
  last_target, read_tags-last, of_tag, report, poll_tags-of_tag, poll_tags_again,
}

-- A hash and a printer of a few texts.
abbrev id_text : String → String
id_text t = t

abbrev disk : String → Option (List String)
disk path = if path == "a.py" then some ("def f():\n" ∷ "  return 1\n" ∷ []) else none

abbrev function : String → String → Symbol
function name path = record {
  fq_name = name;
  symbol_type = "function";
  file_path = path;
  start_line = 1;
  end_line = 2;
  signature = none;
  docstring = none;
}

abbrev symbols : List Symbol
symbols = function "f" "a.py" ∷ function "" "a.py" ∷ function "g" "b.py" ∷ function "f2" "a.py" ∷ []

abbrev number_text : ℕ → String
number_text n = "1"

abbrev snapshot : AstSnapshot
snapshot = build_snapshot_from_cache id_text id_text number_text "/p" disk symbols (some "c1")

test_symbols : length (keys snapshot.symbols) ≡ 3
unfolding build_snapshot_from_cache build_snapshot_from_symbols keep_symbols default_body_reader
    compute_symbol_id prefix
test_symbols = refl

test_lines : lines_between (function "f" "a.py") ("a\n" ∷ "b\n" ∷ "c\n" ∷ []) ≡ "a\n" ∷ "b\n" ∷ []
test_lines = refl

run_build : IsKeyed (
    build_snapshot_from_symbols id_text id_text number_text "/p"
      (some (default_body_reader disk))
      symbols
      (some "c1")
      [])
run_build =
    build_snapshot-IsKeyed id_text id_text number_text "/p" (some (default_body_reader disk))
      (some "c1") symbols []

build_snapshot_from_cache-fresh_example :
    build_snapshot_from_cache id_text id_text number_text "/p" disk symbols (some "c1")
    ≡ build_snapshot_from_symbols id_text id_text number_text "/p"
        (some (fresh disk))
        symbols
        (some "c1")
        tt
build_snapshot_from_cache-fresh_example =
    build_snapshot_from_cache-fresh disk id_text id_text number_text "/p" symbols (some "c1")

abbrev built : AstSnapshot
built =
    build_snapshot_from_symbols id_text id_text number_text "/p" (some (default_body_reader disk))
      symbols (some "c1") []

abbrev no_repr : Json → String
no_repr v = ""

abbrev dumps : Json → String
dumps v = "the one text"

abbrev loads : String → Option Json
loads t = some (payload built)

load_snapshot-save_snapshot_example :
    load_snapshot no_repr loads (some (save_snapshot dumps built)) ≡ some built
load_snapshot-save_snapshot_example =
    load_snapshot-save_snapshot no_repr dumps loads built refl run_build

-- `v1` is a lightweight tag, `v2` an annotated one.
abbrev lines : List String
lines = "v1\tc1\t" ∷ "v2\to2\tc2" ∷ "broken" ∷ []

abbrev runner : GitRunner
runner args = some lines

test_list_git_tags : list_git_tags runner ≡ ("v1", "c1") ∷ ("v2", "c2") ∷ []
unfolding list_git_tags read_tags split_on
test_list_git_tags = refl

read_tags-last_example : get "v2" (read_tags lines []) ≡ last_target "v2" lines none
read_tags-last_example = read_tags-last "v2" lines []

run_polled :
    of_tag "v1" (poll_tags runner (("v1", "c0") ∷ [])).1
    ≡ report "v1" (some "c0") (get "v1" (poll_tags runner (("v1", "c0") ∷ [])).0)
run_polled = poll_tags-of_tag runner (("v1", "c0") ∷ []) "v1"

poll_tags_again_example :
    poll_tags runner (poll_tags runner (("v1", "c0") ∷ [])).0
    ≡ ((poll_tags runner (("v1", "c0") ∷ [])).0, [])
poll_tags_again_example = poll_tags_again runner (("v1", "c0") ∷ [])
