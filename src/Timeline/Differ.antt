-- ===== src/Timeline/Differ.antt =====
-- libs/symbol_timeline/differ.py
pub mod Exact
pub mod Replay
use lv_dcp.Base.{
  ℕ, String, ◌==◌, Bool, not, Option, none, some, List, [], ◌∷◌, ◌++◌, contains, sorted, get, keys,
  keep, collect, if◌then◌else◌,
}
use lv_dcp.Timeline.Events.{
  EventType, added, modified, removed, moved, Extra, old_file_path, old_content_hash, TimelineEvent,
  SymbolSnapshot, AstSnapshot,
}

-- What the keyword arguments of a run stamp on each of its events.
pub record Stamp : Type 0 where
  pub project_root : String
  pub timestamp : ℕ
  pub author : Option String

module _ (stamp : Stamp) (commit : Option String) where
  -- The `TimelineEvent(...)` of the four `yield`s.
  abbrev pub event : EventType → Option Extra → SymbolSnapshot → TimelineEvent
  event type extra s = record {
    project_root = stamp.project_root;
    symbol_id = s.symbol_id;
    event_type = type;
    commit_sha = commit;
    timestamp = stamp.timestamp;
    author = stamp.author;
    content_hash = some s.content_hash;
    file_path = s.file_path;
    qualified_name = s.qualified_name;
    extra_json = extra;
    orphaned = Bool.false;
  }

  -- The body of the first two loops. The looked-up key is one of the dict's, so `none` is not met.
  abbrev pub seen_once : EventType → Option SymbolSnapshot → List TimelineEvent
  seen_once type none = []
  seen_once type (some s) = event type none s ∷ []

  -- The body of the third loop.
  abbrev pub seen_twice : Option SymbolSnapshot → Option SymbolSnapshot → List TimelineEvent
  seen_twice (some p) (some c) =
      if p.content_hash == c.content_hash
      then (if p.file_path == c.file_path
          then []
          else event moved (some (old_file_path p.file_path)) c ∷ [])
      else event modified (some (old_content_hash p.content_hash)) c ∷ []
  seen_twice _ _ = []

module _ (prev curr : AstSnapshot) (stamp : Stamp) where
  -- for sid in sorted(curr_ids - prev_ids)
  abbrev pub loop_added : List TimelineEvent
  loop_added =
      collect (λ sid. seen_once stamp curr.commit_sha added (get sid curr.symbols))
        (sorted (keep (λ sid. not (contains sid (keys prev.symbols))) (keys curr.symbols)))

  -- for sid in sorted(prev_ids - curr_ids)
  abbrev pub loop_removed : List TimelineEvent
  loop_removed =
      collect (λ sid. seen_once stamp curr.commit_sha removed (get sid prev.symbols))
        (sorted (keep (λ sid. not (contains sid (keys curr.symbols))) (keys prev.symbols)))

  -- for sid in sorted(prev_ids & curr_ids)
  abbrev pub loop_both : List TimelineEvent
  loop_both =
      collect
        (λ sid. seen_twice stamp curr.commit_sha (get sid prev.symbols) (get sid curr.symbols))
        (sorted (keep (λ sid. contains sid (keys curr.symbols)) (keys prev.symbols)))

  unfoldable pub diff_ast_snapshots : List TimelineEvent
  diff_ast_snapshots = loop_added ++ (loop_removed ++ loop_both)
