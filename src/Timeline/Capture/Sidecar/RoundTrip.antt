-- ===== src/Timeline/Capture/Sidecar/RoundTrip.antt =====
-- What one scan saves is what the next one loads.
use mathlib.Core.List.{append_assoc, append-nil}
use lv_dcp.Base.{
  String, eq_iff, eq_refl, ◌≡◌, refl, sym, ◌∙◌, ap, false, ◌||◌, Option, none, some, [], ◌∷◌, ◌++◌,
  arith, contains, contains-keys, keys, get, put, Dict, All, IsUnique,
}
use lv_dcp.Timeline.Events.{SymbolSnapshot, AstSnapshot}
use lv_dcp.Timeline.Differ.Exact.{IsKeyed}
use lv_dcp.Timeline.Capture.Sidecar.{
  Json, json_of, row_of, rows_of, snapshot_from, load_row, add_row, payload, save_snapshot,
  optional_text, load_rows, load_snapshot,
}

put-fresh :
    (k : String) (s : SymbolSnapshot) (d : Dict SymbolSnapshot)
    → contains k (keys d) ≡ false
    → put k s d ≡ d ++ (k, s) ∷ []
put-fresh k s [] n = refl
put-fresh k s ((j, t) ∷ d) n = ground (arith, put-fresh k s d)

contains-keys-append :
    (k : String) (d e : Dict SymbolSnapshot)
    → contains k (keys (d ++ e)) ≡ (contains k (keys d) || contains k (keys e))
contains-keys-append k [] e = refl
contains-keys-append k ((j, t) ∷ d) e = ground (arith, contains-keys-append k d e)

middle_fresh :
    (k : String) (s : SymbolSnapshot) (d e : Dict SymbolSnapshot)
    → IsUnique (keys (d ++ (k, s) ∷ e))
    → contains k (keys d) ≡ false
middle_fresh k s [] e u = refl
middle_fresh k s ((j, t) ∷ d) e u = ground (
  arith,
  u.0,
  contains-keys-append j d ((k, s) ∷ e),
  middle_fresh k s d e u.1,
  eq_iff k j,
  eq_iff j k,
)

-- An entry's key is its symbol's id.
abbrev IsOwn : String × SymbolSnapshot → Type 0
IsOwn (k, s) = s.symbol_id ≡ k

All-IsOwn :
    (d : Dict SymbolSnapshot)
    → IsUnique (keys d)
    → ((k : String) (s : SymbolSnapshot) → get k d ≡ some s → s.symbol_id ≡ k)
    → All IsOwn d
All-IsOwn [] u own = tt
All-IsOwn ((j, t) ∷ d) u own = (
  own j t (ground (arith, eq_refl j)),
  All-IsOwn d u.1
      (λ k s found. own k s (ground (arith, found, eq_iff k j, contains-keys j d, u.0))),
)

optional_text-json_of : (t : Option String) → optional_text (some (json_of t)) ≡ t
optional_text-json_of none = refl
optional_text-json_of (some t) = refl

module _ (repr : Json → String) where
  load_row-row_of : (s : SymbolSnapshot) → load_row repr (row_of s) ≡ some s
  load_row-row_of s =
      ap
        (λ name.
          snapshot_from repr (some s.symbol_id) (some s.file_path) (some s.content_hash) name)
        (optional_text-json_of s.qualified_name)

  load_rows-rows_of :
      (d out : Dict SymbolSnapshot)
      → All IsOwn d
      → IsUnique (keys (out ++ d))
      → load_rows repr (rows_of d) out ≡ out ++ d
  load_rows-rows_of [] out own u = sym (append-nil out)
  load_rows-rows_of ((k, s) ∷ d) out own u =
      let again : out ++ (s.symbol_id, s) ∷ d ≡ out ++ (k, s) ∷ d =
        ap (λ j. out ++ (j, s) ∷ d) own.0 in
      let grown = append_assoc out ((s.symbol_id, s) ∷ []) d in
      let u' : IsUnique (keys (out ++ (s.symbol_id, s) ∷ d)) = rw again u in
      ap (λ row. load_rows repr (rows_of d) (add_row repr row out)) (load_row-row_of s)
      ∙ ap (load_rows repr (rows_of d))
          (put-fresh s.symbol_id s out (middle_fresh s.symbol_id s out d u'))
      ∙ load_rows-rows_of d (out ++ (s.symbol_id, s) ∷ []) own.1 (rw grown u')
      ∙ grown
      ∙ again

  -- If json reads back the value that it wrote, a snapshot whose keys are the ids of its symbols is loaded
  -- as it was saved, its symbols in the same order.
  pub load_snapshot-save_snapshot :
      (dumps : Json → String) (loads : String → Option Json) (a : AstSnapshot)
      → loads (dumps (payload a)) ≡ some (payload a)
      → IsKeyed a
      → load_snapshot repr loads (some (save_snapshot dumps a)) ≡ some a
  unfolding load_snapshot save_snapshot
  load_snapshot-save_snapshot dumps loads a reads keyed =
      rw
        (
          reads,
          optional_text-json_of a.commit_sha,
          load_rows-rows_of a.symbols [] (All-IsOwn a.symbols keyed.unique keyed.own) keyed.unique,
        )
        refl
