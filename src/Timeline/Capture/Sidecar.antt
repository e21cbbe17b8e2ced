-- ===== src/Timeline/Capture/Sidecar.antt =====
-- The file in which a scan leaves its snapshot for the next one: `save_snapshot` and
-- `load_snapshot` of libs/symbol_timeline/snapshot_builder.py. `dumps` and `loads` are those of
-- Python's json, and `repr` is `str` of a value that is no text.
pub mod RoundTrip
use lv_dcp.Base.{
  ℕ, String, ◌==◌, Bool, true, false, Option, none, some, List, [], ◌∷◌, Dict, put, leb, ◌&&◌,
  if◌then◌else◌,
}
use lv_dcp.Timeline.Events.{SymbolSnapshot, AstSnapshot}

-- A value of JSON. 1.0 is the number 1, as `==` has it; a number that is negative or no whole one
-- is a `fraction`, in its own spelling.
mutual
  pub data Json : Type 0 where
    null : Json
    boolean : Bool → Json
    number : ℕ → Json
    fraction : String → Json
    text : String → Json
    array : Elements → Json
    object : Members → Json

  pub data Elements : Type 0 where
    no_more : Elements
    element : Json → Elements → Elements

  pub data Members : Type 0 where
    closed : Members
    member : String → Json → Members → Members

-- payload.get(k)
abbrev pub look_up : String → Members → Option Json
look_up k closed = none
look_up k (member j v ms) = if k == j then some v else look_up k ms

abbrev pub json_of : Option String → Json
json_of none = null
json_of (some t) = text t

abbrev pub row_of : SymbolSnapshot → Json
row_of s = object (
    member "symbol_id" (text s.symbol_id) (
      member "file_path" (text s.file_path) (
        member "content_hash" (text s.content_hash)
          (member "qualified_name" (json_of s.qualified_name) closed))))

-- for s in snapshot.symbols.values()
abbrev pub rows_of : Dict SymbolSnapshot → Elements
rows_of [] = no_more
rows_of ((k, s) ∷ d) = element (row_of s) (rows_of d)

abbrev pub payload : AstSnapshot → Json
payload snapshot = object (
    member "schema_version" (number 1) (
      member "commit_sha" (json_of snapshot.commit_sha)
        (member "symbols" (array (rows_of snapshot.symbols)) closed)))

-- The text of the file after the call.
unfoldable pub save_snapshot : (Json → String) → AstSnapshot → String
save_snapshot dumps snapshot = dumps (payload snapshot)

-- payload.get("schema_version") == 1, where True == 1
abbrev pub is_version : Option Json → Bool
is_version (some (number n)) = leb n 1 && leb 1 n
is_version (some (boolean b)) = b
is_version _ = false

-- A field declared `str | None`. Python would keep a value of another kind as it is, against the
-- declaration; such a value has no place in `Option String` and is none here.
abbrev pub optional_text : Option Json → Option String
optional_text (some (text t)) = some t
optional_text _ = none

module _ (repr : Json → String) where
  abbrev pub str : Json → String
  str (text t) = t
  str v = repr v

  -- str(row[k]), or none on a KeyError
  abbrev pub required : Option Json → Option String
  required none = none
  required (some v) = some (str v)

  abbrev pub snapshot_from :
      Option String → Option String → Option String → Option String → Option SymbolSnapshot
  snapshot_from (some id) (some path) (some hash) name =
      some (record { symbol_id = id; file_path = path; content_hash = hash; qualified_name = name })
  snapshot_from _ _ _ name = none

  -- The body of the loop: a row that is no dict or lacks a key is passed over.
  abbrev pub load_row : Json → Option SymbolSnapshot
  load_row (object row) =
      snapshot_from (required (look_up "symbol_id" row)) (required (look_up "file_path" row))
        (required (look_up "content_hash" row)) (optional_text (look_up "qualified_name" row))
  load_row _ = none

  abbrev pub add_row : Option SymbolSnapshot → Dict SymbolSnapshot → Dict SymbolSnapshot
  add_row none out = out
  add_row (some s) out = put s.symbol_id s out

  abbrev pub load_rows : Elements → Dict SymbolSnapshot → Dict SymbolSnapshot
  load_rows no_more out = out
  load_rows (element row rest) out = load_rows rest (add_row (load_row row) out)

  abbrev pub load_symbols : Option Json → Option String → Option AstSnapshot
  load_symbols (some (array rows)) commit =
      some (record { symbols = load_rows rows []; commit_sha = commit })
  load_symbols _ commit = none

  abbrev pub load_payload : Option Json → Option AstSnapshot
  load_payload (some (object fields)) =
      if is_version (look_up "schema_version" fields)
      then load_symbols (look_up "symbols" fields) (optional_text (look_up "commit_sha" fields))
      else none
  load_payload _ = none

  -- The file's text, or none where there is no file or it cannot be read.
  unfoldable pub load_snapshot : (String → Option Json) → Option String → Option AstSnapshot
  load_snapshot loads none = none
  load_snapshot loads (some file) = load_payload (loads file)
