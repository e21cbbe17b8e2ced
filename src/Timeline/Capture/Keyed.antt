-- ===== src/Timeline/Capture/Keyed.antt =====
-- The keys of a built snapshot are the ids of its symbols.
use lv_dcp.Base.{
  ℕ, String, ◌==◌, eq_iff, Option, List, [], ◌∷◌, arith, put, get-put, put-IsUnique, Dict,
  Bool-cases, inl, inr,
}
use lv_dcp.Timeline.Events.{SymbolSnapshot, AstSnapshot}
use lv_dcp.Timeline.Differ.Exact.{IsKeyed}
use lv_dcp.Timeline.Capture.{
  Symbol, Reader, read_with, snapshot_of, keep_symbol, keep_symbols, build_snapshot_from_symbols,
}

-- `out[s.symbol_id] = s`
pub put-IsKeyed :
    (s : SymbolSnapshot) (a : AstSnapshot)
    → IsKeyed a
    → IsKeyed (record a { symbols = put s.symbol_id s a.symbols })
put-IsKeyed s a h = record {
  unique = put-IsUnique s.symbol_id s a.symbols h.unique;
  own = λ k t found.
      ground (arith, get-put k s.symbol_id s a.symbols, eq_iff k s.symbol_id, h.own k t);
}

module _ (sha256 encode : String → String) (str : ℕ → String) (root : String) {C : Type 0}
    (reader : Option (Reader C)) (commit : Option String) where
  abbrev HasKeys : C × Dict SymbolSnapshot → Type 0
  HasKeys state = IsKeyed (record { symbols = state.1; commit_sha = commit })

  keep_symbol-HasKeys :
      (s : Symbol) (state : C × Dict SymbolSnapshot)
      → HasKeys state
      → HasKeys (keep_symbol sha256 encode str root reader s state)
  keep_symbol-HasKeys s (c, snap) h = elim (Bool-cases (s.fq_name == "")) [
    | inl unnamed ↦ rw unnamed h
    | inr named ↦
        let body = (read_with reader s c).1 in
        rw named (
          put-IsKeyed (snapshot_of sha256 encode str root s body)
            (record { symbols = snap; commit_sha = commit }) h)
  ]

  keep_symbols-HasKeys :
      (symbols : List Symbol) (state : C × Dict SymbolSnapshot)
      → HasKeys state
      → HasKeys (keep_symbols sha256 encode str root reader symbols state)
  unfolding keep_symbols
  keep_symbols-HasKeys [] state h = h
  keep_symbols-HasKeys (s ∷ rest) state h =
      keep_symbols-HasKeys rest (keep_symbol sha256 encode str root reader s state)
        (keep_symbol-HasKeys s state h)

  -- Whatever the symbols and the body reader are, the keys of a built snapshot are distinct, and
  -- each is the id of the symbol that it leads to.
  pub build_snapshot-IsKeyed :
      (symbols : List Symbol) (c : C)
      → IsKeyed (build_snapshot_from_symbols sha256 encode str root reader symbols commit c)
  unfolding build_snapshot_from_symbols
  build_snapshot-IsKeyed symbols c =
      keep_symbols-HasKeys symbols (c, []) (record { unique = tt; own = λ k s found. ground arith })
