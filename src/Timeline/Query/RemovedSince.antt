-- ===== src/Timeline/Query/RemovedSince.antt =====
-- What `find_removed_since` answers for a ref that git knows.
use lv_dcp.Base.{
  ℕ, ◌+◌, String, ◌==◌, ◌≡◌, refl, ◌∙◌, ap, Bool, true, false, not, ◌&&◌, ◌||◌, Option, some, List,
  [], ◌∷◌, arith, ltb, leb, map, any, contains, count_if, count_if-keep, count_if-ext, take, length,
  Bool-cases, inl, inr,
}
use lv_dcp.Timeline.Events.{EventType, type_name, removed, TimelineEvent, RenameEdgeRow}
use lv_dcp.Timeline.Store.{Store, type_allowed, is_between, events_between}
use lv_dcp.Timeline.Query.{
  GitProcess, resolve_git_ref, commits_after_ref, upper_cap, is_reached, confirmed_old,
}
use lv_dcp.Timeline.Query.Ranking.{
  IsRanked, sort_ranked-IsRanked, count_if-sort_ranked, count_if-order_by_time,
}
use lv_dcp.Timeline.Query.Renames.{is_rename_after, confirms_from, confirmed_old-eq}
use lv_dcp.Timeline.Query.Removed.{
  RemovedSinceResult, removed_symbol, pairs_after, ranked_removed, removed_since,
  find_removed_since,
}

-- A confirmed rename of the project after the ref, in a commit that is reached, came from the symbol.
abbrev pub is_consumed : Store → String → ℕ → Option (List String) → String → Bool
is_consumed s root ref_ts reachable sid =
    any (confirms_from (is_rename_after root ref_ts reachable) sid) s.rename_edges

-- A live removal in the project, after the ref and not after the cap, in a commit that is reached,
-- of a symbol that was not consumed by a confirmed rename, or renames are included.
abbrev pub is_gone :
    String → ℕ → ℕ → Option (List String) → Bool → (String → Bool) → TimelineEvent → Bool
is_gone root ref_ts upper reachable include_renamed consumed e =
    e.project_root == root
    && (not e.orphaned
        && (type_name e.event_type == "removed"
            && (ltb ref_ts e.timestamp
                && (leb e.timestamp upper
                    && (is_reached reachable e.commit_sha
                        && (include_renamed || not (consumed e.symbol_id)))))))

-- An answer that lists, best rank first and up to the limit, the events that are `gone`, each as
-- often as it is stored, and that counts them.
pub record IsAnswer (lookup : Option (String → Option ℕ)) (limit : ℕ) (gone : TimelineEvent → Bool)
    (rows : List TimelineEvent) (result : RemovedSinceResult) : Type 0 where
  pub found : List TimelineEvent
  pub ranked : IsRanked lookup found
  pub exact : (p : TimelineEvent → Bool) → count_if p found ≡ count_if (λ e. gone e && p e) rows
  pub listed : result.removed ≡ map (removed_symbol lookup) (take limit found)
  pub counted : result.total_before_limit ≡ count_if gone rows
  pub cut : result.truncated ≡ ltb limit (count_if gone rows)

type_allowed-removed :
    (t : EventType) → type_allowed (some (removed ∷ [])) t ≡ (type_name t == "removed")
unfolding type_name
type_allowed-removed t = elim (Bool-cases (type_name t == "removed")) [
  | inl yes' ↦ rw yes' refl
  | inr no' ↦ rw no' refl
]

is_gone-eq :
    (root : String) (ref_ts upper : ℕ) (e : TimelineEvent)
    (allowed is_removed reached visible p : Bool)
    → allowed ≡ is_removed
    → ((e.project_root == root
          && (leb (ref_ts + 1) e.timestamp
              && (leb e.timestamp upper && (allowed && (false || not e.orphaned)))))
        && (reached && (visible && p)))
      ≡ ((e.project_root == root
            && (not e.orphaned
                && (is_removed
                    && (ltb ref_ts e.timestamp
                        && (leb e.timestamp upper && (reached && visible))))))
          && p)
is_gone-eq root ref_ts upper e allowed is_removed reached visible p h = ground arith

length-eq-count_if :
    (es : List TimelineEvent) → length es ≡ count_if (λ (e : TimelineEvent). true) es
length-eq-count_if [] = refl
length-eq-count_if (e ∷ es) = omega (arith, length-eq-count_if es)

module _ (s : Store) (root : String) (include_renamed : Bool) (lookup : Option (String → Option ℕ))
    (ref_ts upper : ℕ) (reachable : Option (List String)) where
  abbrev gone : TimelineEvent → Bool
  gone = is_gone root ref_ts upper reachable include_renamed (is_consumed s root ref_ts reachable)

  consumed-eq :
      (sid : String)
      → contains sid (confirmed_old (pairs_after s root ref_ts upper reachable))
        ≡ is_consumed s root ref_ts reachable sid
  consumed-eq sid =
      confirmed_old-eq _ sid
        (λ (r : RenameEdgeRow). r.project_root == root && ltb ref_ts r.timestamp)
        (λ (r : RenameEdgeRow). is_reached reachable r.commit_sha)
        (is_rename_after root ref_ts reachable) s.rename_edges λ r. ground arith

  count_if-ranked_removed :
      (p : TimelineEvent → Bool)
      → count_if p (ranked_removed s root include_renamed lookup ref_ts upper reachable)
        ≡ count_if (λ e. gone e && p e) s.events
  unfolding events_between
  count_if-ranked_removed p =
      let consumed = confirmed_old (pairs_after s root ref_ts upper reachable) in
      count_if-sort_ranked lookup p _
      ∙ count_if-keep p
          (λ (e : TimelineEvent). include_renamed || not (contains e.symbol_id consumed)) _
      ∙ count_if-keep _ (λ (e : TimelineEvent). is_reached reachable e.commit_sha) _
      ∙ count_if-order_by_time _ _
      ∙ count_if-keep _ (is_between root (ref_ts + 1) upper (some (removed ∷ [])) false) s.events
      ∙ count_if-ext _ _ s.events (λ (e : TimelineEvent).
        is_gone-eq root ref_ts upper e _ _ (is_reached reachable e.commit_sha)
          (include_renamed || not (contains e.symbol_id consumed)) (p e)
          (type_allowed-removed e.event_type))
      ∙ count_if-ext _ _ s.events (λ (e : TimelineEvent).
        ap (λ b. is_gone root ref_ts upper reachable include_renamed (λ sid. b) e && p e)
          (consumed-eq e.symbol_id))

  length-ranked_removed :
      length (ranked_removed s root include_renamed lookup ref_ts upper reachable)
      ≡ count_if gone s.events
  length-ranked_removed =
      length-eq-count_if (ranked_removed s root include_renamed lookup ref_ts upper reachable)
      ∙ count_if-ranked_removed (λ e. true)
      ∙ count_if-ext _ _ s.events (λ e. ground arith)

  removed_since-IsAnswer :
      (ref sha : String) (limit : ℕ)
      → let result =
          removed_since s root ref include_renamed limit lookup sha ref_ts upper reachable in
        IsAnswer lookup limit gone s.events result
  unfolding removed_since
  removed_since-IsAnswer ref sha limit = record {
    found = ranked_removed s root include_renamed lookup ref_ts upper reachable;
    ranked = sort_ranked-IsRanked lookup _;
    exact = count_if-ranked_removed;
    listed = refl;
    counted = length-ranked_removed;
    cut = ap (ltb limit) length-ranked_removed;
  }

-- For a ref that git resolves, the answer lists the live removals of the project that came after
-- the ref, in commits that are reached from HEAD and not from the ref where git tells, without those
-- of a symbol that a confirmed rename of the project after the ref, in such a commit, came from,
-- unless renames are asked for: ranked by importance and time, cut at the limit, and counted before
-- the cut.
pub find_removed_since-IsAnswer :
    (s : Store) (root : String) (git : GitProcess) (float : String → Option ℕ) (ref : String)
    (include_renamed : Bool) (limit : ℕ) (now : Option ℕ) (lookup : Option (String → Option ℕ))
    (time : ℕ) (sha : String) (ref_ts : ℕ)
    → resolve_git_ref git float ref ≡ some (sha, ref_ts)
    → let result = find_removed_since s root git float ref include_renamed limit now lookup time in
      let gone =
        is_gone root ref_ts
          (upper_cap now time)
          (commits_after_ref git sha)
          include_renamed
          (is_consumed s root ref_ts (commits_after_ref git sha)) in
      IsAnswer lookup limit gone s.events result
unfolding find_removed_since removed_since
find_removed_since-IsAnswer s root git float ref include_renamed limit now lookup time sha ref_ts
      known =
    rw known (
      removed_since-IsAnswer s root include_renamed lookup ref_ts (upper_cap now time)
        (commits_after_ref git sha) ref sha limit)
