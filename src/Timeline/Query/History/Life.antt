-- ===== src/Timeline/Query/History/Life.antt =====
-- `symbol_timeline` of libs/symbol_timeline/query.py: the life of one symbol. The log line and the
-- latency metric are not modelled.

use mathlib.Core.List.{reverse}
use lv_dcp.Base.{
  ℕ, String, ◌==◌, Bool, true, false, ◌&&◌, Option, none, some, List, [], ◌∷◌, ◌++◌, map, keep, ltb,
  if◌then◌else◌, distinct, Dict, get, put, is_some,
}
use lv_dcp.Timeline.Events.{TimelineEvent, RenameEdgeRow}
use lv_dcp.Timeline.Store.{Store, events_for_symbol}
use lv_dcp.Timeline.Query.{pair_of}
use lv_dcp.Timeline.Query.History.{
  SymbolCandidate, SymbolTimelineResult, looks_like_symbol_id, fuzzy_symbol_lookup,
}

-- `_latest_name_file`: newest first, until both are known.
abbrev pub or_name : Option String → Option String → Option String
or_name (some name) q = some name
or_name none none = none
or_name none (some q) = if q == "" then none else some q

abbrev pub name_and_path :
    Option String → Option String → List TimelineEvent → Option String × Option String
name_and_path name path [] = (name, path)
name_and_path name path (e ∷ es) =
    let name' = or_name name e.qualified_name in
    let path' = or_name path (some e.file_path) in
    let rest = name_and_path name' path' es in
    if is_some name' && is_some path' then (name', path') else rest

unfoldable pub latest_name_file : List TimelineEvent → Option String × Option String
latest_name_file events = name_and_path none none (reverse events)

-- ORDER BY timestamp ASC, id ASC
abbrev pub insert_edge : RenameEdgeRow → List RenameEdgeRow → List RenameEdgeRow
insert_edge r [] = r ∷ []
insert_edge r (q ∷ qs) = if ltb q.timestamp r.timestamp then q ∷ insert_edge r qs else r ∷ q ∷ qs

unfoldable pub oldest_first : List RenameEdgeRow → List RenameEdgeRow
oldest_first [] = []
oldest_first (r ∷ rs) = insert_edge r (oldest_first rs)

abbrev pub not_known : String → List SymbolCandidate → SymbolTimelineResult
not_known symbol candidates = record {
  symbol_id = symbol;
  qualified_name = none;
  file_path = none;
  events = [];
  rename_predecessors = [];
  rename_successors = [];
  not_found = true;
  candidates = candidates;
}

-- name_by_sid.get(sid), where a name may be None.
abbrev pub known_name : Dict (Option String) → String → Option String
known_name names sid = elim (get sid names) [ none ↦ none | some name ↦ name ]

module _ (store : Store) (project_root : String) (include_orphaned : Bool) where
  abbrev pub into : String → List RenameEdgeRow
  into sid =
      keep (λ (r : RenameEdgeRow). r.project_root == project_root && r.new_symbol_id == sid)
        store.rename_edges

  abbrev pub out_of : String → List RenameEdgeRow
  out_of sid =
      keep (λ (r : RenameEdgeRow). r.project_root == project_root && r.old_symbol_id == sid)
        store.rename_edges

  abbrev pub name_of : String → Option String
  name_of sid = (latest_name_file (events_for_symbol store project_root sid include_orphaned)).0

  -- The loop over `paired_sids`.
  abbrev pub add_names : List String → Dict (Option String) → Dict (Option String)
  add_names [] names = names
  add_names (sid ∷ sids) names = add_names sids (put sid (name_of sid) names)

  abbrev pub name_by_sid : String → Option String → Dict (Option String)
  name_by_sid sid qualified_name =
      add_names
        (distinct
          (map (λ r. r.old_symbol_id) (into sid) ++ map (λ r. r.new_symbol_id) (out_of sid)))
        ((sid, qualified_name) ∷ [])

  abbrev pub with_events : String → List TimelineEvent → SymbolTimelineResult
  with_events sid [] = not_known sid []
  with_events sid (e ∷ es) =
      let names = name_by_sid sid (latest_name_file (e ∷ es)).0 in
      record {
        symbol_id = sid;
        qualified_name = (latest_name_file (e ∷ es)).0;
        file_path = (latest_name_file (e ∷ es)).1;
        events = e ∷ es;
        rename_predecessors = map (pair_of (known_name names)) (oldest_first (into sid));
        rename_successors = map (pair_of (known_name names)) (oldest_first (out_of sid));
        not_found = false;
        candidates = [];
      }

  -- The part behind `resolved_id`, for an id.
  unfoldable pub history_of : String → SymbolTimelineResult
  unfolding events_for_symbol latest_name_file oldest_first distinct
  history_of sid = with_events sid (events_for_symbol store project_root sid include_orphaned)

  abbrev pub of_candidates : String → List SymbolCandidate → SymbolTimelineResult
  of_candidates symbol [] = not_known symbol []
  of_candidates symbol (c ∷ []) = history_of c.symbol_id
  of_candidates symbol (c ∷ d ∷ cs) = not_known symbol (c ∷ d ∷ cs)

  unfoldable pub symbol_timeline : String → ℕ → SymbolTimelineResult
  unfolding looks_like_symbol_id fuzzy_symbol_lookup history_of
  symbol_timeline symbol candidate_limit =
      if looks_like_symbol_id symbol
      then history_of symbol
      else of_candidates symbol (fuzzy_symbol_lookup store project_root symbol candidate_limit)
