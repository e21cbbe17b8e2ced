-- ===== src/Timeline/Bracket/Story.antt =====
-- A reader of the stored history, over one whole run.
use mathlib.Core.Path.{ap₂}
use lv_dcp.Base.{
  ℕ, String, ◌==◌, eq_iff, ◌≡◌, refl, sym, ap, ◌∙◌, Bool, false, not, ◌&&◌, Option, none, some,
  List, ◌++◌, arith, keep, keep-append, keep-keep, any, get, Bool-cases, inl, inr,
}
use lv_dcp.Timeline.Events.{TimelineEvent, SymbolSnapshot, AstSnapshot, is_added, is_removed}
use lv_dcp.Timeline.Differ.{Stamp, diff_ast_snapshots}
use lv_dcp.Timeline.Differ.Exact.{of_symbol, rule, IsKeyed, diff-of_symbol}
use lv_dcp.Timeline.Differ.Replay.{place, replay, replay-of_symbol, replay-diff}
use lv_dcp.Timeline.Rename.{Matcher, pair_renames}
use lv_dcp.Timeline.Rename.Edges.{confirms_new, confirms_old, pair_renames-remaining}

-- Two filters change places.
of_symbol-keep :
    (k : String) (p q : TimelineEvent → Bool) (es : List TimelineEvent)
    → ((e : TimelineEvent) → (p e && e.symbol_id == k) ≡ (e.symbol_id == k && q e))
    → of_symbol k (keep p es) ≡ keep q (of_symbol k es)
of_symbol-keep k p q es h =
    keep-keep (λ (e : TimelineEvent). e.symbol_id == k) p (λ e. e.symbol_id == k && q e) es h
    ∙ sym (keep-keep q (λ (e : TimelineEvent). e.symbol_id == k) _ es (λ e. refl))

abbrev is_plain : TimelineEvent → Bool
is_plain e = not (is_added e.event_type) && not (is_removed e.event_type)

-- The events in the order in which `pair_renames` gives them back.
abbrev groups : List TimelineEvent → List TimelineEvent
groups es =
    keep is_plain es
    ++ (keep (λ (e : TimelineEvent). is_added e.event_type) es
        ++ keep (λ (e : TimelineEvent). is_removed e.event_type) es)

of_symbol-groups :
    (k : String) (xs ys zs : List TimelineEvent)
    → of_symbol k (xs ++ (ys ++ zs)) ≡ of_symbol k xs ++ (of_symbol k ys ++ of_symbol k zs)
of_symbol-groups k xs ys zs = rw (keep-append, keep-append)

-- A test that depends on the symbol alone is settled for one symbol.
settled_for :
    (k : String) (f : String → Bool) (b : Bool) (e : TimelineEvent)
    → f k ≡ false
    → ((b && not (f e.symbol_id)) && e.symbol_id == k) ≡ (e.symbol_id == k && b)
settled_for k f b e h = elim (Bool-cases (e.symbol_id == k)) [
  | inl same ↦ rw ((eq_iff e.symbol_id k).0 same) (rw h (ground arith))
  | inr other ↦ rw other (ground arith)
]

-- Groups of at most one event are the event.
groups-rule :
    (stamp : Stamp) (commit : Option String) (p c : Option SymbolSnapshot)
    → groups (rule stamp commit p c) ≡ rule stamp commit p c
groups-rule stamp commit none none = refl
groups-rule stamp commit none (some c) = refl
groups-rule stamp commit (some p) none = refl
groups-rule stamp commit (some p) (some c) = ground arith

module _ (m : Matcher) (threshold : ℕ) (prev curr : AstSnapshot) (stamp : Stamp) where
  -- No confirmed rename starts or ends at the symbol.
  abbrev pub IsSettled : String → Type 0
  IsSettled k =
      let edges = (pair_renames m threshold (diff_ast_snapshots prev curr stamp)).0 in
      (any (confirms_new k) edges ≡ false) × (any (confirms_old k) edges ≡ false)

  remaining-of_symbol :
      (k : String)
      → IsKeyed prev
      → IsKeyed curr
      → IsSettled k
      → let events = diff_ast_snapshots prev curr stamp in
        of_symbol k (pair_renames m threshold events).1 ≡ of_symbol k events
  remaining-of_symbol k kp kc settled =
      let events = diff_ast_snapshots prev curr stamp in
      let edges = (pair_renames m threshold events).0 in
      let new' = λ (e : TimelineEvent).
        is_added e.event_type && not (any (confirms_new e.symbol_id) edges) in
      let old' = λ (e : TimelineEvent).
        is_removed e.event_type && not (any (confirms_old e.symbol_id) edges) in
      ap (of_symbol k) (pair_renames-remaining m threshold events)
      ∙ of_symbol-groups k (keep is_plain events) (keep new' events) (keep old' events)
      ∙ (ap₂ ◌++◌ (of_symbol-keep k is_plain is_plain events (λ e. ground arith)) (
          ap₂ ◌++◌
            (of_symbol-keep k new' (λ e. is_added e.event_type) events
              (λ e.
                settled_for k (λ j. any (confirms_new j) edges) (is_added e.event_type) e
                  settled.0))
            (of_symbol-keep k old' (λ e. is_removed e.event_type) events
              (λ e.
                settled_for k (λ j. any (confirms_old j) edges) (is_removed e.event_type) e
                  settled.1))))
      ∙ ap groups (diff-of_symbol prev curr stamp k kp kc)
      ∙ groups-rule stamp curr.commit_sha (get k prev.symbols) (get k curr.symbols)
      ∙ sym (diff-of_symbol prev curr stamp k kp kc)

-- Between snapshots whose keys are the ids of their symbols, a reader that starts from the old
-- scan's path and hash of a symbol and follows the events that a run sends ends with the new
-- scan's, unless a confirmed rename starts or ends at that symbol.
pub remaining-replay :
    (m : Matcher) (threshold : ℕ) (prev curr : AstSnapshot) (stamp : Stamp) (k : String)
    → IsKeyed prev
    → IsKeyed curr
    → IsSettled m threshold prev curr stamp k
    → replay k
        (place (get k prev.symbols))
        (pair_renames m threshold (diff_ast_snapshots prev curr stamp)).1
      ≡ place (get k curr.symbols)
remaining-replay m threshold prev curr stamp k kp kc settled =
    let events = diff_ast_snapshots prev curr stamp in
    let start = place (get k prev.symbols) in
    replay-of_symbol k start (pair_renames m threshold events).1
    ∙ ap (replay k start) (remaining-of_symbol m threshold prev curr stamp k kp kc settled)
    ∙ sym (replay-of_symbol k start events)
    ∙ replay-diff prev curr stamp k kp kc
