-- ===== src/Timeline/Query/Buckets.antt =====
-- The three lists of `diff`.
use lv_dcp.Base.{
  ℕ, ◌+◌, String, ◌==◌, eq_iff, ◌≡◌, refl, ◌∙◌, ap, Bool, false, not, ◌&&◌, ◌||◌, Option, none,
  some, List, [], ◌∷◌, arith, any, keep, keep-ext, leb, ltb, Dict, get, put, put-IsUnique, keys,
  contains, contains-keys, count_if, length, map, take, All, IsUnique, if◌then◌else◌, Bool-cases,
  Option-cases, inl, inr,
}
use lv_dcp.Timeline.Events.{
  EventType, added, removed, modified, is_added, is_removed, is_modified, TimelineEvent,
  RenameEdgeRow,
}
use lv_dcp.Timeline.Store.{Store, day, is_between, events_between, order_by_time}
use lv_dcp.Timeline.Differ.Exact.{of_symbol}
use lv_dcp.Timeline.Query.Renames.{
  is_rename_between, confirms_from, confirms_to, confirmed_old-eq, confirmed_new-eq,
}
use lv_dcp.Timeline.Query.{
  is_reached, GitProcess, resolve_git_ref, confirmed_old, confirmed_new, sort_ranked,
}
use lv_dcp.Timeline.Query.Ranking.{IsRanked, sort_ranked-IsRanked, count_if-sort_ranked}
use lv_dcp.Timeline.Query.Diff.{
  DiffEntry, DiffResult, lasts, firsts, effects, net_effect, bucket, to_entry, window_shas, window,
  window_pairs, diff_window, diff,
}
use lv_dcp.Timeline.Query.NetEffect.{net, net_effect-exact}

-- The entries of a classification: a key is the symbol of its event.
abbrev IsOwn : String × (EventType × TimelineEvent) → Type 0
IsOwn (k, (t, e)) = e.symbol_id ≡ k

abbrev IsLastOwn : String × TimelineEvent → Type 0
IsLastOwn (k, e) = e.symbol_id ≡ k

put-IsLastOwn :
    (e : TimelineEvent) (d : Dict TimelineEvent)
    → All IsLastOwn d
    → All IsLastOwn (put e.symbol_id e d)
put-IsLastOwn e [] h = (refl, tt)
put-IsLastOwn e ((j, f) ∷ d) h = elim (Bool-cases (e.symbol_id == j)) [
  | inl same ↦ rw same ((eq_iff e.symbol_id j).0 same, h.1)
  | inr other ↦ rw other (h.0, put-IsLastOwn e d h.1)
]

lasts-IsLastOwn :
    (es : List TimelineEvent) (d : Dict TimelineEvent)
    → All IsLastOwn d
    → All IsLastOwn (lasts es d)
lasts-IsLastOwn [] d h = h
lasts-IsLastOwn (e ∷ es) d h = lasts-IsLastOwn es (put e.symbol_id e d) (put-IsLastOwn e d h)

lasts-IsUnique :
    (es : List TimelineEvent) (d : Dict TimelineEvent)
    → IsUnique (keys d)
    → IsUnique (keys (lasts es d))
lasts-IsUnique [] d u = u
lasts-IsUnique (e ∷ es) d u =
    lasts-IsUnique es (put e.symbol_id e d) (put-IsUnique e.symbol_id e d u)

effects-IsOwn :
    (first : Dict EventType) (last : Dict TimelineEvent)
    → All IsLastOwn last
    → All IsOwn (effects first last)
effects-IsOwn first [] h = tt
effects-IsOwn first ((k, e) ∷ last) h = (h.0, effects-IsOwn first last h.1)

keys-effects :
    (first : Dict EventType) (last : Dict TimelineEvent) → keys (effects first last) ≡ keys last
keys-effects first [] = refl
keys-effects first ((k, e) ∷ last) = ap (λ ks. k ∷ ks) (keys-effects first last)

-- Whether a classified symbol is shown in the list of a kind.
abbrev pub is_shown : (EventType → Bool) → Bool → Option (EventType × TimelineEvent) → Bool
is_shown is_kind hidden none = false
is_shown is_kind hidden (some (effect, e)) = is_kind effect && not hidden

-- How often the events of a symbol are listed.
abbrev pub times_listed : String → List TimelineEvent → ℕ
times_listed k = count_if (λ (e : TimelineEvent). e.symbol_id == k)

module _ (is_kind : EventType → Bool) (hidden : List String) (k : String) where
  abbrev expected : Dict (EventType × TimelineEvent) → ℕ
  expected d = if is_shown is_kind (contains k hidden) (get k d) then 1 else 0

  expected-absent :
      (d : Dict (EventType × TimelineEvent)) → contains k (keys d) ≡ false → expected d ≡ 0
  expected-absent d absent = elim (Option-cases (get k d)) [
    | inl none' ↦ rw none' refl
    | inr (found, there) ↦ ground (arith, there, contains-keys k d, absent)
  ]

  times_listed-bucket :
      (d : Dict (EventType × TimelineEvent))
      → All IsOwn d
      → IsUnique (keys d)
      → times_listed k (bucket is_kind hidden d) ≡ expected d
  times_listed-bucket [] own u = refl
  times_listed-bucket ((sid, (effect, e)) ∷ d) own u = elim (Bool-cases (k == sid)) [
    | inl same ↦
        let fresh : contains k (keys d) ≡ false = rw ((eq_iff k sid).0 same) u.0 in
        ground (
          arith,
          eq_iff k sid,
          eq_iff e.symbol_id k,
          own.0,
          same,
          times_listed-bucket d own.1 u.1,
          expected-absent d fresh,
        )
    | inr other ↦
        ground (arith, eq_iff k sid, eq_iff e.symbol_id k, own.0, times_listed-bucket d own.1 u.1)
  ]

-- A list of `diff`: the events of the symbols that are to be shown, each once, best rank first
-- and up to the limit, with their number before the cut.
pub record IsList (lookup : Option (String → Option ℕ)) (limit : ℕ) (kind : EventType)
    (shown : String → Bool) (entries : List DiffEntry) (total : ℕ) : Type 0 where
  pub found : List TimelineEvent
  pub ranked : IsRanked lookup found
  pub once : (k : String) → times_listed k found ≡ (if shown k then 1 else 0)
  pub listed : entries ≡ map (to_entry lookup kind) (take limit found)
  pub counted : total ≡ length found

-- A live event of the project after a time and not after another.
abbrev pub is_live : String → ℕ → ℕ → TimelineEvent → Bool
is_live root from_ts upper e =
    e.project_root == root && (not e.orphaned && (ltb from_ts e.timestamp && leb e.timestamp upper))

-- Such events, oldest first, in the commits that are reached.
abbrev pub events_in : Store → String → ℕ → ℕ → Option (List String) → List TimelineEvent
events_in s root from_ts upper reachable =
    keep (λ (e : TimelineEvent). is_reached reachable e.commit_sha)
      (order_by_time (keep (is_live root from_ts upper) s.events))

-- The three lists of an answer, by the net effect of each symbol's events: an added symbol that a
-- confirmed rename came to and a removed one that it came from are not shown.
pub record IsDiff (lookup : Option (String → Option ℕ)) (limit : ℕ) (events : List TimelineEvent)
    (renamed_to renamed_from : String → Bool) (result : DiffResult) : Type 0 where
  pub in_added :
      IsList lookup limit added
        (λ k. is_shown is_added (renamed_to k) (net (of_symbol k events)))
        result.added
        result.total_added
  pub in_removed :
      IsList lookup limit removed
        (λ k. is_shown is_removed (renamed_from k) (net (of_symbol k events)))
        result.removed
        result.total_removed
  pub in_modified :
      IsList lookup limit modified
        (λ k. is_shown is_modified false (net (of_symbol k events)))
        result.modified
        result.total_modified
  pub cut : result.truncated ≡ (
      ltb limit result.total_added
      || (ltb limit result.total_removed || ltb limit result.total_modified))

module _ (lookup : Option (String → Option ℕ)) (limit : ℕ) (events : List TimelineEvent) where
  once-bucket :
      (is_kind : EventType → Bool) (hidden : List String) (k : String)
      → times_listed k (sort_ranked lookup (bucket is_kind hidden (net_effect events)))
        ≡ (if is_shown is_kind (contains k hidden) (net (of_symbol k events)) then 1 else 0)
  unfolding net_effect
  once-bucket is_kind hidden k =
      let last = lasts events [] in
      let first = firsts events [] in
      count_if-sort_ranked lookup _ (bucket is_kind hidden (net_effect events))
      ∙ times_listed-bucket is_kind hidden k (effects first last)
          (effects-IsOwn first last (lasts-IsLastOwn events [] tt))
          (rw (keys-effects first last) (lasts-IsUnique events [] tt))
      ∙ ap (λ o. if is_shown is_kind (contains k hidden) o then 1 else 0)
          (net_effect-exact events k)

  bucket-IsList :
      (is_kind : EventType → Bool) (kind : EventType) (hidden : List String)
      (is_hidden : String → Bool)
      → ((k : String) → contains k hidden ≡ is_hidden k)
      → let found = sort_ranked lookup (bucket is_kind hidden (net_effect events)) in
        IsList lookup limit kind
          (λ k. is_shown is_kind (is_hidden k) (net (of_symbol k events)))
          (map (to_entry lookup kind) (take limit found))
          (length found)
  bucket-IsList is_kind kind hidden is_hidden same = record {
    found = sort_ranked lookup (bucket is_kind hidden (net_effect events));
    ranked = sort_ranked-IsRanked lookup (bucket is_kind hidden (net_effect events));
    once = λ k.
        once-bucket is_kind hidden k
        ∙ ap (λ b. if is_shown is_kind b (net (of_symbol k events)) then 1 else 0) (same k);
    listed = refl;
    counted = refl;
  }

module _ (s : Store) (root : String) (from_ts upper : ℕ) (reachable : Option (List String)) where
  -- The window of the query.
  window-events_in :
      window s root from_ts upper reachable ≡ events_in s root from_ts upper reachable
  unfolding events_between
  window-events_in =
      ap (λ es. keep (λ (e : TimelineEvent). is_reached reachable e.commit_sha) (order_by_time es))
        (keep-ext (is_between root (from_ts + 1) upper none false) (is_live root from_ts upper)
          s.events λ e. ground arith)

  abbrev pub came_to : String → Bool
  came_to k = any (confirms_to (is_rename_between root from_ts upper reachable) k) s.rename_edges

  abbrev pub came_from : String → Bool
  came_from k =
      any (confirms_from (is_rename_between root from_ts upper reachable) k) s.rename_edges

  abbrev early : RenameEdgeRow → Bool
  early r = r.project_root == root && (ltb from_ts r.timestamp && leb r.timestamp upper)

  hidden-came_to :
      (k : String)
      → contains k (confirmed_new (window_pairs s root from_ts upper reachable)) ≡ came_to k
  hidden-came_to k =
      confirmed_new-eq _ k early (λ (r : RenameEdgeRow). is_reached reachable r.commit_sha)
        (is_rename_between root from_ts upper reachable) s.rename_edges λ r. ground arith

  hidden-came_from :
      (k : String)
      → contains k (confirmed_old (window_pairs s root from_ts upper reachable)) ≡ came_from k
  hidden-came_from k =
      confirmed_old-eq _ k early (λ (r : RenameEdgeRow). is_reached reachable r.commit_sha)
        (is_rename_between root from_ts upper reachable) s.rename_edges λ r. ground arith

diff_window-IsDiff :
    (s : Store) (root from_ref to_ref : String) (limit : ℕ) (lookup : Option (String → Option ℕ))
    (from_res to_res : String × ℕ) (upper : ℕ) (reachable : Option (List String))
    → IsDiff lookup limit
        (events_in s root from_res.1 upper reachable)
        (came_to s root from_res.1 upper reachable)
        (came_from s root from_res.1 upper reachable)
        (diff_window s root from_ref to_ref limit lookup from_res to_res upper reachable)
unfolding diff_window
diff_window-IsDiff s root from_ref to_ref limit lookup from_res to_res upper reachable =
    rw (← window-events_in s root from_res.1 upper reachable) (
      let events = window s root from_res.1 upper reachable in
      let pairs = window_pairs s root from_res.1 upper reachable in
      record {
        in_added =
            bucket-IsList lookup limit events is_added added (confirmed_new pairs) _
              (hidden-came_to s root from_res.1 upper reachable);
        in_removed =
            bucket-IsList lookup limit events is_removed removed (confirmed_old pairs) _
              (hidden-came_from s root from_res.1 upper reachable);
        in_modified =
            bucket-IsList lookup limit events is_modified modified [] (λ k. false) λ k. refl;
        cut = refl;
      })

-- Between two refs that git resolves to different commits, each list of the answer holds every
-- symbol whose net effect is the list's, once, ranked by importance and time, cut at the limit and
-- counted before it. The events that count are the live ones of the project after the first ref, in
-- commits of the window where git tells. A symbol that came from or to another by a confirmed rename
-- of the project after that ref, in such a commit, is not listed as removed or added.
pub diff-IsDiff :
    (s : Store) (root : String) (git : GitProcess) (float : String → Option ℕ)
    (from_ref to_ref : String) (limit : ℕ) (lookup : Option (String → Option ℕ)) (time : ℕ)
    (from_res to_res : String × ℕ)
    → resolve_git_ref git float from_ref ≡ some from_res
    → resolve_git_ref git float to_ref ≡ some to_res
    → (from_res.0 == to_res.0) ≡ false
    → let reachable = window_shas git from_res.0 to_res.0 in
      IsDiff lookup limit
        (events_in s root from_res.1 (time + day) reachable)
        (came_to s root from_res.1 (time + day) reachable)
        (came_from s root from_res.1 (time + day) reachable)
        (diff s root git float from_ref to_ref limit lookup time)
unfolding diff
diff-IsDiff s root git float from_ref to_ref limit lookup time from_res to_res known_from known_to
      apart =
    rw (known_from, known_to, apart)
      (diff_window-IsDiff s root from_ref to_ref limit lookup from_res to_res (time + day)
        (window_shas git from_res.0 to_res.0))
