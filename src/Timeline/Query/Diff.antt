-- ===== src/Timeline/Query/Diff.antt =====
-- `diff` of libs/symbol_timeline/query.py. Its log line and its latency metric are not modelled;
-- `time` is the time of the call.
use lv_dcp.Base.{
  ℕ, ◌+◌, String, ◌==◌, Bool, true, false, not, ◌&&◌, ◌||◌, Option, none, some, List, [], ◌∷◌, ltb,
  leb, keep, map, contains, Dict, get, put, is_some, take, length, if◌then◌else◌,
}
use lv_dcp.Timeline.Events.{
  EventType, added, removed, modified, is_added, is_removed, is_modified, TimelineEvent,
  RenameEdgeRow,
}
use lv_dcp.Timeline.Store.{Store, events_between, day}
use lv_dcp.Timeline.Query.{
  GitProcess, resolve_git_ref, rev_parse_head, commits_after_ref, commits_between, is_reached,
  importance_of, sort_ranked, names_of, RenamePair, pair_of, newest_first, confirmed_old,
  confirmed_new,
}

pub record DiffEntry : Type 0 where
  pub symbol_id : String
  pub qualified_name : Option String
  pub file_path : String
  pub event_type : EventType
  pub at_timestamp : ℕ
  pub commit_sha : Option String
  pub author : Option String
  pub importance : Option ℕ

pub record DiffResult : Type 0 where
  pub from_ref : String
  pub to_ref : String
  pub from_resolved_sha : Option String
  pub to_resolved_sha : Option String
  pub from_resolved_timestamp : Option ℕ
  pub to_resolved_timestamp : Option ℕ
  pub ref_not_found : Bool
  pub added : List DiffEntry
  pub removed : List DiffEntry
  pub modified : List DiffEntry
  pub renamed : List RenamePair
  pub total_added : ℕ
  pub total_removed : ℕ
  pub total_modified : ℕ
  pub truncated : Bool

-- The loop of `_net_effect`: the type of each symbol's first event, and its last event.
abbrev pub firsts : List TimelineEvent → Dict EventType → Dict EventType
firsts [] first = first
firsts (e ∷ es) first =
    firsts es
      (if is_some (get e.symbol_id first) then first else put e.symbol_id e.event_type first)

abbrev pub lasts : List TimelineEvent → Dict TimelineEvent → Dict TimelineEvent
lasts [] last = last
lasts (e ∷ es) last = lasts es (put e.symbol_id e last)

-- The `if` of the second loop. Every symbol with a last event has a first one.
abbrev pub net_of : Option EventType → TimelineEvent → EventType
net_of none e = if is_removed e.event_type then removed else modified
net_of (some first) e =
    if is_removed e.event_type then removed else (if is_added first then added else modified)

abbrev pub effects : Dict EventType → Dict TimelineEvent → Dict (EventType × TimelineEvent)
effects first [] = []
effects first ((sid, e) ∷ last) = (sid, (net_of (get sid first) e, e)) ∷ effects first last

unfoldable pub net_effect : List TimelineEvent → Dict (EventType × TimelineEvent)
net_effect events = effects (firsts events []) (lasts events [])

-- The events of one net effect, without those of the hidden symbols.
abbrev pub bucket :
    (EventType → Bool) → List String → Dict (EventType × TimelineEvent) → List TimelineEvent
bucket is_kind hidden [] = []
bucket is_kind hidden ((sid, (effect, e)) ∷ rest) =
    let others = bucket is_kind hidden rest in
    if is_kind effect && not (contains sid hidden) then e ∷ others else others

-- `_to_entry`
abbrev pub to_entry : Option (String → Option ℕ) → EventType → TimelineEvent → DiffEntry
to_entry lookup net e = record {
  symbol_id = e.symbol_id;
  qualified_name = e.qualified_name;
  file_path = e.file_path;
  event_type = net;
  at_timestamp = e.timestamp;
  commit_sha = e.commit_sha;
  author = e.author;
  importance = importance_of lookup e;
}

abbrev pub is_head : String → Option String → Bool
is_head sha none = false
is_head sha (some head) = sha == head

abbrev pub or_else : Option (List String) → Option (List String) → Option (List String)
or_else none other = other
or_else (some shas) other = some shas

-- `reachable`
unfoldable pub window_shas : GitProcess → String → String → Option (List String)
window_shas git from_sha to_sha =
    if is_head to_sha (rev_parse_head git)
    then commits_after_ref git from_sha
    else or_else (commits_between git from_sha to_sha) (commits_after_ref git from_sha)

abbrev pub sha_of : Option (String × ℕ) → Option String
sha_of none = none
sha_of (some (sha, t)) = some sha

abbrev pub time_of : Option (String × ℕ) → Option ℕ
time_of none = none
time_of (some (sha, t)) = some t

abbrev pub no_change :
    String → String → Option (String × ℕ) → Option (String × ℕ) → Bool → DiffResult
no_change from_ref to_ref from_res to_res ref_not_found = record {
  from_ref = from_ref;
  to_ref = to_ref;
  from_resolved_sha = sha_of from_res;
  to_resolved_sha = sha_of to_res;
  from_resolved_timestamp = time_of from_res;
  to_resolved_timestamp = time_of to_res;
  ref_not_found = ref_not_found;
  added = [];
  removed = [];
  modified = [];
  renamed = [];
  total_added = 0;
  total_removed = 0;
  total_modified = 0;
  truncated = false;
}

module _ (store : Store) (root : String) where
  abbrev pub window : ℕ → ℕ → Option (List String) → List TimelineEvent
  window from_ts upper reachable =
      keep (λ (e : TimelineEvent). is_reached reachable e.commit_sha)
        (events_between store root (from_ts + 1) upper none false)

  abbrev pub window_pairs : ℕ → ℕ → Option (List String) → List RenamePair
  window_pairs from_ts upper reachable =
      let names = names_of (window from_ts upper reachable) [] in
      map (pair_of (λ sid. get sid names)) (
        keep (λ (r : RenameEdgeRow). is_reached reachable r.commit_sha)
          (newest_first (
            keep
              (λ (r : RenameEdgeRow).
                r.project_root == root && (ltb from_ts r.timestamp && leb r.timestamp upper))
              store.rename_edges)))

  unfoldable pub diff_window :
      String
      → String
      → ℕ
      → Option (String → Option ℕ)
      → String × ℕ
      → String × ℕ
      → ℕ
      → Option (List String)
      → DiffResult
  diff_window from_ref to_ref limit lookup from_res to_res upper reachable =
      let pairs = window_pairs from_res.1 upper reachable in
      let classification = net_effect (window from_res.1 upper reachable) in
      let added_entries =
        sort_ranked lookup (bucket is_added (confirmed_new pairs) classification) in
      let removed_entries =
        sort_ranked lookup (bucket is_removed (confirmed_old pairs) classification) in
      let modified_entries = sort_ranked lookup (bucket is_modified [] classification) in
      record {
        from_ref = from_ref;
        to_ref = to_ref;
        from_resolved_sha = some from_res.0;
        to_resolved_sha = some to_res.0;
        from_resolved_timestamp = some from_res.1;
        to_resolved_timestamp = some to_res.1;
        ref_not_found = false;
        added = map (to_entry lookup added) (take limit added_entries);
        removed = map (to_entry lookup removed) (take limit removed_entries);
        modified = map (to_entry lookup modified) (take limit modified_entries);
        renamed = pairs;
        total_added = length added_entries;
        total_removed = length removed_entries;
        total_modified = length modified_entries;
        truncated =
            ltb limit (length added_entries)
            || (ltb limit (length removed_entries) || ltb limit (length modified_entries));
      }

  abbrev pub diff_resolved :
      GitProcess
      → String
      → String
      → ℕ
      → Option (String → Option ℕ)
      → ℕ
      → Option (String × ℕ)
      → Option (String × ℕ)
      → DiffResult
  diff_resolved git from_ref to_ref limit lookup time (some (from_sha, from_ts))
        (some (to_sha, to_ts)) =
      if from_sha == to_sha
      then no_change from_ref to_ref (some (from_sha, from_ts)) (some (to_sha, to_ts)) false
      else diff_window from_ref to_ref limit lookup (from_sha, from_ts) (to_sha, to_ts) (time + day)
          (window_shas git from_sha to_sha)
  diff_resolved git from_ref to_ref limit lookup time from_res to_res =
      no_change from_ref to_ref from_res to_res true

  unfoldable pub diff :
      GitProcess
      → (String → Option ℕ)
      → String
      → String
      → ℕ
      → Option (String → Option ℕ)
      → ℕ
      → DiffResult
  diff git float from_ref to_ref limit lookup time =
      diff_resolved git from_ref to_ref limit lookup time (resolve_git_ref git float from_ref)
        (resolve_git_ref git float to_ref)
