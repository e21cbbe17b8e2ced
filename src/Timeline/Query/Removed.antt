-- ===== src/Timeline/Query/Removed.antt =====
-- `find_removed_since` of libs/symbol_timeline/query.py. Its log line and its latency metric are
-- not modelled; `time` is the time of the call.
use lv_dcp.Base.{
  ℕ, ◌+◌, String, ◌==◌, Bool, true, false, not, ◌&&◌, ◌||◌, Option, none, some, List, [], ◌∷◌, ◌++◌,
  ltb, keep, map, contains, get, take, length,
}
use lv_dcp.Timeline.Events.{removed, added, TimelineEvent, RenameEdgeRow}
use lv_dcp.Timeline.Store.{Store, events_between}
use lv_dcp.Timeline.Query.{
  GitProcess, resolve_git_ref, commits_after_ref, upper_cap, is_reached, importance_of, sort_ranked,
  names_of, RenamePair, pair_of, newest_first, confirmed_old,
}

pub record RemovedSymbol : Type 0 where
  pub symbol_id : String
  pub qualified_name : Option String
  pub file_path : String
  pub removed_at : ℕ
  pub commit_sha : Option String
  pub author : Option String
  pub importance : Option ℕ

pub record RemovedSinceResult : Type 0 where
  pub ref : String
  pub ref_resolved_sha : Option String
  pub ref_resolved_timestamp : Option ℕ
  pub ref_not_found : Bool
  pub removed : List RemovedSymbol
  pub renamed : List RenamePair
  pub total_before_limit : ℕ
  pub truncated : Bool

abbrev pub removed_symbol : Option (String → Option ℕ) → TimelineEvent → RemovedSymbol
removed_symbol lookup e = record {
  symbol_id = e.symbol_id;
  qualified_name = e.qualified_name;
  file_path = e.file_path;
  removed_at = e.timestamp;
  commit_sha = e.commit_sha;
  author = e.author;
  importance = importance_of lookup e;
}

-- The answer for a ref that git does not know.
abbrev pub not_resolved : String → RemovedSinceResult
not_resolved ref = record {
  ref = ref;
  ref_resolved_sha = none;
  ref_resolved_timestamp = none;
  ref_not_found = true;
  removed = [];
  renamed = [];
  total_before_limit = 0;
  truncated = false;
}

module _ (store : Store) (root : String) where
  -- The two event queries, with the filter by commit.
  abbrev pub removed_after : ℕ → ℕ → Option (List String) → List TimelineEvent
  removed_after ref_ts upper reachable =
      keep (λ (e : TimelineEvent). is_reached reachable e.commit_sha)
        (events_between store root (ref_ts + 1) upper (some (removed ∷ [])) false)

  abbrev pub added_after : ℕ → ℕ → Option (List String) → List TimelineEvent
  added_after ref_ts upper reachable =
      keep (λ (e : TimelineEvent). is_reached reachable e.commit_sha)
        (events_between store root (ref_ts + 1) upper (some (added ∷ [])) false)

  -- WHERE project_root = ? AND timestamp > ?, and the filter by commit.
  abbrev pub edges_after : ℕ → Option (List String) → List RenameEdgeRow
  edges_after ref_ts reachable =
      keep (λ (r : RenameEdgeRow). is_reached reachable r.commit_sha)
        (newest_first (
          keep (λ (r : RenameEdgeRow). r.project_root == root && ltb ref_ts r.timestamp)
            store.rename_edges))

  abbrev pub pairs_after : ℕ → ℕ → Option (List String) → List RenamePair
  pairs_after ref_ts upper reachable =
      let names =
        names_of (removed_after ref_ts upper reachable ++ added_after ref_ts upper reachable) [] in
      map (pair_of (λ sid. get sid names)) (edges_after ref_ts reachable)

  -- `if not include_renamed: ...`, and the sort.
  abbrev pub ranked_removed :
      Bool → Option (String → Option ℕ) → ℕ → ℕ → Option (List String) → List TimelineEvent
  ranked_removed include_renamed lookup ref_ts upper reachable =
      let consumed = confirmed_old (pairs_after ref_ts upper reachable) in
      sort_ranked lookup (
        keep (λ (e : TimelineEvent). include_renamed || not (contains e.symbol_id consumed))
          (removed_after ref_ts upper reachable))

  unfoldable pub removed_since :
      String
      → Bool
      → ℕ
      → Option (String → Option ℕ)
      → String
      → ℕ
      → ℕ
      → Option (List String)
      → RemovedSinceResult
  removed_since ref include_renamed limit lookup sha ref_ts upper reachable =
      let found = ranked_removed include_renamed lookup ref_ts upper reachable in
      record {
        ref = ref;
        ref_resolved_sha = some sha;
        ref_resolved_timestamp = some ref_ts;
        ref_not_found = false;
        removed = map (removed_symbol lookup) (take limit found);
        renamed = pairs_after ref_ts upper reachable;
        total_before_limit = length found;
        truncated = ltb limit (length found);
      }

  abbrev pub removed_resolved :
      GitProcess
      → String
      → Bool
      → ℕ
      → Option ℕ
      → Option (String → Option ℕ)
      → ℕ
      → Option (String × ℕ)
      → RemovedSinceResult
  removed_resolved git ref include_renamed limit now lookup time none = not_resolved ref
  removed_resolved git ref include_renamed limit now lookup time (some (sha, ref_ts)) =
      removed_since ref include_renamed limit lookup sha ref_ts (upper_cap now time)
        (commits_after_ref git sha)

  unfoldable pub find_removed_since :
      GitProcess
      → (String → Option ℕ)
      → String
      → Bool
      → ℕ
      → Option ℕ
      → Option (String → Option ℕ)
      → ℕ
      → RemovedSinceResult
  find_removed_since git float ref include_renamed limit now lookup time =
      removed_resolved git ref include_renamed limit now lookup time (resolve_git_ref git float ref)
