-- ===== src/Timeline/Differ/Replay.antt =====
-- Replaying the events of a diff over the old scan gives the new one.
use lv_dcp.Base.{
  String, ◌==◌, eq_iff, eq_refl, ◌≡◌, refl, ◌∙◌, ap, Option, none, some, List, [], ◌∷◌, arith, get,
  if◌then◌else◌,
}
use lv_dcp.Timeline.Events.{removed, TimelineEvent, SymbolSnapshot, AstSnapshot}
use lv_dcp.Timeline.Differ.{Stamp, diff_ast_snapshots}
use lv_dcp.Timeline.Differ.Exact.{of_symbol, rule, IsKeyed, diff-of_symbol}

-- Where a symbol stands and what it holds.
pub record Place : Type 0 where
  pub path : String
  pub hash : Option String

abbrev pub place : Option SymbolSnapshot → Option Place
place none = none
place (some s) = some (record { path = s.file_path; hash = some s.content_hash })

-- A reader that follows symbol `k`.
abbrev follow : TimelineEvent → Option Place
follow e = elim e.event_type [
  | removed ↦ none
  | _ ↦ some (record { path = e.file_path; hash = e.content_hash })
]

abbrev pub replay : String → Option Place → List TimelineEvent → Option Place
replay k s [] = s
replay k s (e ∷ es) = replay k (if e.symbol_id == k then follow e else s) es

pub replay-of_symbol :
    (k : String) (s : Option Place) (es : List TimelineEvent)
    → replay k s es ≡ replay k s (of_symbol k es)
replay-of_symbol k s [] = refl
replay-of_symbol k s (e ∷ es) =
    ground (arith, replay-of_symbol k (follow e) es, replay-of_symbol k s es)

replay-rule :
    (stamp : Stamp) (commit : Option String) (k : String) (p c : Option SymbolSnapshot)
    → ((s : SymbolSnapshot) → p ≡ some s → s.symbol_id ≡ k)
    → ((s : SymbolSnapshot) → c ≡ some s → s.symbol_id ≡ k)
    → replay k (place p) (rule stamp commit p c) ≡ place c
replay-rule stamp commit k none none hp hc = refl
replay-rule stamp commit k none (some c) hp hc = rw (hc c refl, eq_refl)
replay-rule stamp commit k (some p) none hp hc = rw (hp p refl, eq_refl)
replay-rule stamp commit k (some p) (some c) hp hc = ground (
  arith,
  hc c refl,
  eq_iff k k,
  eq_iff p.content_hash c.content_hash,
  eq_iff p.file_path c.file_path,
)

-- Between snapshots whose keys are the ids of their symbols, a reader that starts from the old
-- scan's path and hash of a symbol and follows the events of the diff ends with the new scan's.
pub replay-diff :
    (prev curr : AstSnapshot) (stamp : Stamp) (k : String)
    → IsKeyed prev
    → IsKeyed curr
    → replay k (place (get k prev.symbols)) (diff_ast_snapshots prev curr stamp)
      ≡ place (get k curr.symbols)
replay-diff prev curr stamp k kp kc =
    replay-of_symbol k (place (get k prev.symbols)) (diff_ast_snapshots prev curr stamp)
    ∙ ap (replay k (place (get k prev.symbols))) (diff-of_symbol prev curr stamp k kp kc)
    ∙ replay-rule stamp curr.commit_sha k (get k prev.symbols) (get k curr.symbols) (kp.own k)
        (kc.own k)
