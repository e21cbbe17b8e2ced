-- ===== src/Timeline/Capture/Cached.antt =====
-- The cache of the body reader.
use lv_dcp.Base.{
  ℕ, String, ◌==◌, eq_iff, ◌≡◌, refl, sym, ◌∙◌, true, false, ap, Option, some, List, [], ◌∷◌, arith,
  get, put, get-put, Dict, Bool-cases, Option-cases, inl, inr,
}
use lv_dcp.Timeline.Events.{SymbolSnapshot, AstSnapshot}
use lv_dcp.Timeline.Capture.{
  Symbol, Reader, Cache, body_of, default_body_reader, keep_symbol, keep_symbols,
  build_snapshot_from_symbols, build_snapshot_from_cache, snapshot_of, symbol_id_of,
}

module _ (disk : String → Option (List String)) where
  -- The reader without a cache.
  abbrev pub fresh : Reader Unit
  fresh s c = (c, body_of s (disk s.file_path))

  -- The cache holds what the disk does.
  abbrev Agrees : Cache → Type 0
  Agrees cache =
      (path : String) (lines : Option (List String))
      → get path cache ≡ some lines
      → lines ≡ disk path

  default_body_reader-Agrees :
      (s : Symbol) (cache : Cache)
      → Agrees cache
      → Agrees (default_body_reader disk s cache).0
        × ((default_body_reader disk s cache).1 ≡ body_of s (disk s.file_path))
  unfolding default_body_reader
  default_body_reader-Agrees s cache h = elim (Option-cases (get s.file_path cache)) [
    | inl absent ↦ rw absent (
      (λ path lines found. ground (
        arith,
        get-put path s.file_path (disk s.file_path) cache,
        eq_iff path s.file_path,
        h path lines,
      )),
      refl,
    )
    | inr (lines, found) ↦ rw found (h, ap (body_of s) (h s.file_path lines found))
  ]

  module _ (sha256 encode : String → String) (str : ℕ → String) (root : String) where
    module _ {C : Type 0} (reader : Reader C) (s : Symbol) (c : C)
        (snap : Dict SymbolSnapshot) where
      keep_symbol-unnamed :
          (s.fq_name == "") ≡ true
          → keep_symbol sha256 encode str root (some reader) s (c, snap) ≡ (c, snap)
      keep_symbol-unnamed e = rw e

      keep_symbol-named :
          (body : Option String)
          → (s.fq_name == "") ≡ false
          → (reader s c).1 ≡ body
          → keep_symbol sha256 encode str root (some reader) s (c, snap) ≡ (
            (reader s c).0,
            put
                (symbol_id_of sha256 encode str root s)
                (snapshot_of sha256 encode str root s body)
                snap,
          )
      keep_symbol-named body e read = rw (e, read)

    -- What is kept, from a state on.
    abbrev kept :
        {C : Type 0} → Reader C → List Symbol → C × Dict SymbolSnapshot → Dict SymbolSnapshot
    kept reader symbols state = (keep_symbols sha256 encode str root (some reader) symbols state).1

    keep_symbols-fresh :
        (symbols : List Symbol) (cache : Cache) (snap : Dict SymbolSnapshot)
        → Agrees cache
        → kept (default_body_reader disk) symbols (cache, snap) ≡ kept fresh symbols (tt, snap)
    unfolding keep_symbols
    keep_symbols-fresh [] cache snap h = refl
    keep_symbols-fresh (s ∷ rest) cache snap h = elim (Bool-cases (s.fq_name == "")) [
      | inl unnamed ↦
          ap (kept (default_body_reader disk) rest)
            (keep_symbol-unnamed (default_body_reader disk) s cache snap unnamed)
          ∙ keep_symbols-fresh rest cache snap h
          ∙ sym (ap (kept fresh rest) (keep_symbol-unnamed fresh s tt snap unnamed))
      | inr named ↦
          let body = body_of s (disk s.file_path) in
          let (agrees, read) = default_body_reader-Agrees s cache h in
          ap (kept (default_body_reader disk) rest)
            (keep_symbol-named (default_body_reader disk) s cache snap body named read)
          ∙ keep_symbols-fresh rest (default_body_reader disk s cache).0
              (put (symbol_id_of sha256 encode str root s)
                (snapshot_of sha256 encode str root s body) snap)
              agrees
          ∙ sym (ap (kept fresh rest) (keep_symbol-named fresh s tt snap body named refl))
    ]

    abbrev of_symbols : Option String → Dict SymbolSnapshot → AstSnapshot
    of_symbols commit symbols = record { symbols = symbols; commit_sha = commit }

    -- On a disk that stays as it is, the cache of the body reader is not seen: the snapshot is the
    -- one of a reader that reads each file again.
    pub build_snapshot_from_cache-fresh :
        (symbols : List Symbol) (commit : Option String)
        → build_snapshot_from_cache sha256 encode str root disk symbols commit
          ≡ build_snapshot_from_symbols sha256 encode str root (some fresh) symbols commit tt
    unfolding build_snapshot_from_cache build_snapshot_from_symbols
    build_snapshot_from_cache-fresh symbols commit =
        ap (of_symbols commit) (keep_symbols-fresh symbols [] [] (λ path lines found. ground arith))
