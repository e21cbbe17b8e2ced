-- ===== src/Timeline/Differ/Exact.antt =====
-- The events of `diff_ast_snapshots` for one symbol are exactly the one that the rules name.
use lv_dcp.Base.{
  String, ◌==◌, eq_iff, eq_refl, ◌≡◌, refl, Bool, false, not, ◌&&◌, ◌||◌, Option, none, some, List,
  [], ◌∷◌, ◌++◌, inl, inr, arith, contains, sorted, get, keys, keep, collect, is_some, IsUnique,
  if◌then◌else◌, Bool-cases, Option-cases, keep-append, contains-sorted, contains-keep,
  contains-keys, sorted-IsUnique, keep-IsUnique,
}
use mathlib.Core.List.{append-nil}
use lv_dcp.Timeline.Events.{
  EventType, added, modified, removed, moved, old_file_path, old_content_hash, TimelineEvent,
  SymbolSnapshot, AstSnapshot,
}
use lv_dcp.Timeline.Differ.{Stamp, event, seen_once, seen_twice, diff_ast_snapshots}

-- The events of one symbol.
abbrev pub of_symbol : String → List TimelineEvent → List TimelineEvent
of_symbol k = keep (λ (e : TimelineEvent). e.symbol_id == k)

-- The rules of the docstring, on what the two scans have for one id.
abbrev pub rule :
    Stamp → Option String → Option SymbolSnapshot → Option SymbolSnapshot → List TimelineEvent
rule stamp commit none none = []
rule stamp commit none (some c) = event stamp commit added none c ∷ []
rule stamp commit (some p) none = event stamp commit removed none p ∷ []
rule stamp commit (some p) (some c) =
    if not (p.content_hash == c.content_hash)
    then event stamp commit modified (some (old_content_hash p.content_hash)) c ∷ []
    else (if p.file_path == c.file_path
        then []
        else event stamp commit moved (some (old_file_path p.file_path)) c ∷ [])

-- A snapshot's keys are the ids of its symbols, each once.
pub record IsKeyed (a : AstSnapshot) : Type 0 where
  pub unique : IsUnique (keys a.symbols)
  pub own : (k : String) (s : SymbolSnapshot) → get k a.symbols ≡ some s → s.symbol_id ≡ k

-- A loop over ids whose body emits only events of its id.
abbrev Owns : (String → List TimelineEvent) → Type 0
Owns f = (j k : String) → of_symbol k (f j) ≡ (if j == k then f j else [])

of_symbol-collect-absent :
    (f : String → List TimelineEvent) (k : String) (ids : List String)
    → Owns f
    → contains k ids ≡ false
    → of_symbol k (collect f ids) ≡ []
of_symbol-collect-absent f k [] owns h = refl
of_symbol-collect-absent f k (j ∷ ids) owns h = ground (
  arith,
  keep-append (λ (e : TimelineEvent). e.symbol_id == k) (f j) (collect f ids),
  owns j k,
  eq_iff j k,
  eq_iff k j,
  of_symbol-collect-absent f k ids owns,
)

of_symbol-collect :
    (f : String → List TimelineEvent) (k : String) (ids : List String)
    → Owns f
    → IsUnique ids
    → of_symbol k (collect f ids) ≡ (if contains k ids then f k else [])
of_symbol-collect f k [] owns u = refl
of_symbol-collect f k (j ∷ ids) owns u =
    rw (keep-append (λ (e : TimelineEvent). e.symbol_id == k) (f j) (collect f ids)) (
      rw (owns j k) (elim (Bool-cases (k == j)) [
        | inl same ↦ here ((eq_iff k j).0 same)
        | inr apart ↦ ground (arith, eq_iff j k, eq_iff k j, of_symbol-collect f k ids owns)
      ]))
  where
    here :
        k ≡ j
        → (if j == k then f j else []) ++ of_symbol k (collect f ids)
          ≡ (if k == j || contains k ids then f k else [])
    here e = rw (e, eq_refl, of_symbol-collect-absent f j ids owns u.0, append-nil)

module _ (stamp : Stamp) (commit : Option String) (a b : AstSnapshot) (ka : IsKeyed a)
    (kb : IsKeyed b) where
  seen_once-Owns :
      (type : EventType) → Owns (λ sid. seen_once stamp commit type (get sid a.symbols))
  seen_once-Owns type j k = elim (Option-cases (get j a.symbols)) [
    | inl absent ↦ rw absent (ground arith)
    | inr (s, found) ↦ rw found (ground (arith, ka.own j s))
  ]

  seen_twice-Owns : Owns (λ sid. seen_twice stamp commit (get sid a.symbols) (get sid b.symbols))
  seen_twice-Owns j k = elim (Option-cases (get j a.symbols)) [
    | inl absent ↦ rw absent (ground arith)
    | inr (s, found) ↦ elim (Option-cases (get j b.symbols)) [
      | inl absent ↦ rw (found, absent) (ground arith)
      | inr (t, there) ↦ rw (found, there) (ground (arith, kb.own j t))
    ]
  ]

-- One of the three loops.
of_symbol-loop :
    (f : String → List TimelineEvent) (k : String) (p : String → Bool) (ids : List String)
    → Owns f
    → IsUnique ids
    → of_symbol k (collect f (sorted (keep p ids))) ≡ (if contains k ids && p k then f k else [])
of_symbol-loop f k p ids owns u =
    rw
      (of_symbol-collect f k (sorted (keep p ids)) owns
        (sorted-IsUnique (keep p ids) (keep-IsUnique p ids u)))
      (rw (contains-sorted k (keep p ids), contains-keep k p ids))

cases :
    (stamp : Stamp) (commit : Option String) (p c : Option SymbolSnapshot)
    → (if is_some c && not (is_some p) then seen_once stamp commit added c else [])
        ++ ((if is_some p && not (is_some c) then seen_once stamp commit removed p else [])
            ++ (if is_some p && is_some c then seen_twice stamp commit p c else []))
      ≡ rule stamp commit p c
cases stamp commit none none = refl
cases stamp commit none (some c) = refl
cases stamp commit (some p) none = refl
cases stamp commit (some p) (some c) = ground arith

-- Between snapshots whose keys are the ids of their symbols, the events emitted for an id are
-- exactly what the rules say: `added` if only the new scan has it, `removed` with the old state if
-- only the old one has it, and else `modified`, `moved` or none by content hash and path.
pub diff-of_symbol :
    (prev curr : AstSnapshot) (stamp : Stamp) (k : String)
    → IsKeyed prev
    → IsKeyed curr
    → of_symbol k (diff_ast_snapshots prev curr stamp)
      ≡ rule stamp curr.commit_sha (get k prev.symbols) (get k curr.symbols)
unfolding diff_ast_snapshots
diff-of_symbol prev curr stamp k kp kc =
    let loop_added =
      of_symbol-loop _ k (λ sid. not (contains sid (keys prev.symbols))) (keys curr.symbols)
        (seen_once-Owns stamp curr.commit_sha curr curr kc kc added) kc.unique in
    let loop_removed =
      of_symbol-loop _ k (λ sid. not (contains sid (keys curr.symbols))) (keys prev.symbols)
        (seen_once-Owns stamp curr.commit_sha prev prev kp kp removed) kp.unique in
    let loop_both =
      of_symbol-loop _ k (λ sid. contains sid (keys curr.symbols)) (keys prev.symbols)
        (seen_twice-Owns stamp curr.commit_sha prev curr kp kc) kp.unique in
    rw (keep-append, keep-append)
      (rw (loop_added, loop_removed, loop_both, contains-keys, contains-keys)
        (cases stamp curr.commit_sha (get k prev.symbols) (get k curr.symbols)))
