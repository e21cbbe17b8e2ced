-- ===== src/Timeline/Capture.antt =====
-- libs/symbol_timeline/snapshot_builder.py: what a scan found becomes a snapshot. `sha256` is the
-- hex digest of bytes, `encode` is UTF-8 and `str` prints a number. Bytes are texts of small
-- code points.
pub mod Keyed
pub mod Cached
pub mod Sidecar
use Prim.Native.Nat.{max}
use Prim.Native.String
use lv_dcp.Base.{
  ℕ, ◌-◌, String, ◌==◌, Bool, Option, none, some, List, [], ◌∷◌, take, drop, prefix, Dict, get, put,
  if◌then◌else◌,
}
use lv_dcp.Timeline.Events.{SymbolSnapshot, AstSnapshot}

-- libs/core/entities.py, with the fields that are read here; `str` of the enum `symbol_type` is a
-- text.
pub record Symbol : Type 0 where
  pub fq_name : String
  pub symbol_type : String
  pub file_path : String
  pub start_line : ℕ
  pub end_line : ℕ
  pub signature : Option String
  pub docstring : Option String

-- sep.join(...), b"".join(...)
abbrev pub join_more : String → List String → String
join_more sep [] = ""
join_more sep (t ∷ ts) = String.◌++◌ sep (String.◌++◌ t (join_more sep ts))

abbrev pub join : String → List String → String
join sep [] = ""
join sep (t ∷ ts) = String.◌++◌ t (join_more sep ts)

-- x or ""
abbrev pub or_empty : Option String → String
or_empty none = ""
or_empty (some t) = t

module _ (sha256 encode : String → String) where
  unfoldable pub compute_symbol_id : String → String → String → String → String
  compute_symbol_id project_root file_path fq_name symbol_type =
      prefix 32
        (sha256 (encode (join "\0" (project_root ∷ file_path ∷ fq_name ∷ symbol_type ∷ []))))

  unfoldable pub compute_symbol_content_hash : (ℕ → String) → Symbol → Option String → String
  compute_symbol_content_hash str s (some body) =
      prefix 16 (sha256 (String.◌++◌ (encode s.fq_name) (String.◌++◌ "\0" body)))
  compute_symbol_content_hash str s none = prefix 16 (
      sha256 (
        encode (
          join "\0" (
            s.fq_name
            ∷ or_empty s.signature
            ∷ or_empty s.docstring
            ∷ str s.start_line
            ∷ str s.end_line
            ∷ []))))

-- A body reader, which keeps a state of its own.
abbrev pub Reader : Type 0 → Type 0
Reader C = Symbol → C → C × Option String

-- `body_reader(s) if body_reader is not None else None`
abbrev pub read_with : {C : Type 0} → Option (Reader C) → Reader C
read_with none s c = (c, none)
read_with (some reader) s c = reader s c

-- lines[start:end], and the join of them: lines are counted from 1.
abbrev pub lines_between : Symbol → List String → List String
lines_between s lines =
    let start = max 1 s.start_line - 1 in
    take (max s.end_line s.start_line - start) (drop start lines)

abbrev pub body_of : Symbol → Option (List String) → Option String
body_of s none = none
body_of s (some lines) = some (join "" (lines_between s lines))

-- The lines of each file that was read, and none for one that could not be.
abbrev pub Cache : Type 0
Cache = Dict (Option (List String))

module _ (disk : String → Option (List String)) where
  -- `cache.get`, and a read of the disk if the path is not in the cache.
  abbrev pub cached : Symbol → Cache → Option (Option (List String)) → Cache × Option String
  cached s cache (some lines) = (cache, body_of s lines)
  cached s cache none = (put s.file_path (disk s.file_path) cache, body_of s (disk s.file_path))

  -- `_default_body_reader`
  unfoldable pub default_body_reader : Reader Cache
  default_body_reader s cache = cached s cache (get s.file_path cache)

module _ (sha256 encode : String → String) (str : ℕ → String) (project_root : String) where
  abbrev pub symbol_id_of : Symbol → String
  symbol_id_of s = compute_symbol_id sha256 encode project_root s.file_path s.fq_name s.symbol_type

  abbrev pub snapshot_of : Symbol → Option String → SymbolSnapshot
  snapshot_of s body = record {
    symbol_id = symbol_id_of s;
    file_path = s.file_path;
    content_hash = compute_symbol_content_hash sha256 encode str s body;
    qualified_name = some s.fq_name;
  }

  module _ {C : Type 0} (reader : Option (Reader C)) where
    -- The body of the loop.
    abbrev pub keep_symbol : Symbol → C × Dict SymbolSnapshot → C × Dict SymbolSnapshot
    keep_symbol s (c, snap) =
        if s.fq_name == ""
        then (c, snap)
        else (let (c', body) = read_with reader s c in
            (c', put (symbol_id_of s) (snapshot_of s body) snap))

    unfoldable pub keep_symbols : List Symbol → C × Dict SymbolSnapshot → C × Dict SymbolSnapshot
    keep_symbols [] state = state
    keep_symbols (s ∷ rest) state = keep_symbols rest (keep_symbol s state)

    unfoldable pub build_snapshot_from_symbols : List Symbol → Option String → C → AstSnapshot
    build_snapshot_from_symbols symbols commit_sha c = record {
      symbols = (keep_symbols symbols (c, [])).1;
      commit_sha = commit_sha;
    }

  unfoldable pub build_snapshot_from_cache :
      (String → Option (List String)) → List Symbol → Option String → AstSnapshot
  build_snapshot_from_cache disk symbols commit_sha =
      build_snapshot_from_symbols (some (default_body_reader disk)) symbols commit_sha []
