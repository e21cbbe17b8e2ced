-- ===== src/Timeline/Reconcile.antt =====
-- libs/symbol_timeline/reconcile.py, and `reconcile_orphaned_events` of store.py.
pub mod Flags
pub mod Prune
use Prim.Native.Char.{code}
use lv_dcp.Base.{
  ℕ, zero, suc, ◌+◌, String, ◌==◌, Bool, true, false, not, ◌&&◌, ◌||◌, Option, none, some, List, [],
  ◌∷◌, ◌++◌, ltb, leb, keep, any, count_if, contains, Dict, get, put, length, map, if◌then◌else◌,
}
use lv_dcp.Timeline.Events.{EventType, type_name, TimelineEvent}
use lv_dcp.Timeline.Store.{Store}

-- SELECT DISTINCT keeps one of each.
abbrev pub distinct : List String → List String
distinct [] = []
distinct (k ∷ ks) = let rest = distinct ks in if contains k rest then rest else k ∷ rest

-- The commits of the project's live rows.
abbrev pub live_sha : String → TimelineEvent → Bool
live_sha root e = e.project_root == root && not e.orphaned

abbrev pub sha_list : Option String → List String
sha_list none = []
sha_list (some k) = k ∷ []

abbrev pub live_shas : String → List TimelineEvent → List String
live_shas root [] = []
live_shas root (e ∷ es) =
    (if live_sha root e then sha_list e.commit_sha else []) ++ live_shas root es

abbrev pub stale_shas : String → List String → List TimelineEvent → List String
stale_shas root known rows = keep (λ k. not (contains k known)) (distinct (live_shas root rows))

abbrev pub sha_in : List String → Option String → Bool
sha_in ks none = false
sha_in ks (some k) = contains k ks

-- WHERE project_root = ? AND commit_sha IN (...)
abbrev pub is_stale : String → List String → TimelineEvent → Bool
is_stale root stale e = e.project_root == root && sha_in stale e.commit_sha

abbrev pub flag : String → List String → TimelineEvent → TimelineEvent
flag root stale e = if is_stale root stale e then record e { orphaned = true } else e

-- `if not stale: return 0`, and else the UPDATE with its row count.
abbrev pub update_stale : String → Store → List String → Store × ℕ
update_stale root s [] = (s, 0)
update_stale root s (k ∷ ks) = (
  record s { events = map (flag root (k ∷ ks)) s.events },
  count_if (is_stale root (k ∷ ks)) s.events,
)

-- The state after the call, and the number that it returns.
unfoldable pub reconcile_orphaned_events : String → List String → Store → Store × ℕ
reconcile_orphaned_events root known s = update_stale root s (stale_shas root known s.events)

-- What is blank for `str.strip`, among ASCII.
abbrev pub is_blank : ℕ → Bool
is_blank c = (leb 9 c && leb c 13) || ((leb 28 c && leb c 31) || (leb 32 c && leb c 32))

unfoldable pub lstrip : String → String
lstrip String.[] = String.[]
lstrip (String.◌∷◌ c s) = let rest = lstrip s in if is_blank (code c) then rest else String.◌∷◌ c s

unfoldable pub rstrip : String → String
rstrip String.[] = String.[]
rstrip (String.◌∷◌ c s) =
    let rest = rstrip s in if is_blank (code c) && rest == "" then String.[] else String.◌∷◌ c rest

unfoldable pub strip : String → String
unfolding lstrip rstrip
strip s = rstrip (lstrip s)

-- {line.strip() for line in lines if line.strip()}, added to a set.
abbrev pub add_shas : List String → List String → List String
add_shas [] shas = shas
add_shas (line ∷ lines) shas =
    add_shas lines
      (if strip line == "" || contains (strip line) shas then shas else shas ++ strip line ∷ [])

-- A git runner: the lines of the output of `git args`, or none where it raises.
abbrev pub GitRunner : Type 0
GitRunner = List String → Option (List String)

abbrev pub rev_list_args : List String
rev_list_args = "rev-list" ∷ "--all" ∷ []

abbrev pub reflog_args : List String
reflog_args = "reflog" ∷ "--format=%H" ∷ "--all" ∷ []

unfoldable pub list_reachable_commits : GitRunner → Option (List String)
list_reachable_commits runner = elim (runner rev_list_args) [
  | none ↦ none
  | some refs ↦ elim (runner reflog_args) [
    | none ↦ some (add_shas refs [])
    | some log ↦ some (add_shas log (add_shas refs []))
  ]
]

pub record ReconcileReport : Type 0 where
  pub project_root : String
  pub git_available : Bool
  pub reachable_commit_count : ℕ
  pub orphaned_newly_flagged : ℕ
  pub orphaned_by_event_type : Dict ℕ

-- SELECT event_type, COUNT(*) ... WHERE orphaned = 1 GROUP BY event_type
abbrev pub bump : String → Dict ℕ → Dict ℕ
bump k d = put k (elim (get k d) [ none ↦ 1 | some n ↦ n + 1 ]) d

unfoldable pub count_orphans_by_event_type : String → List TimelineEvent → Dict ℕ
unfolding type_name
count_orphans_by_event_type root [] = []
count_orphans_by_event_type root (e ∷ es) =
    let rest = count_orphans_by_event_type root es in
    if e.project_root == root && e.orphaned then bump (type_name e.event_type) rest else rest

-- The two ways on from `list_reachable_commits`.
unfoldable pub reconcile_with : Option (List String) → String → Store → Store × ReconcileReport
reconcile_with none root s = (
  s,
  record {
    project_root = root;
    git_available = false;
    reachable_commit_count = 0;
    orphaned_newly_flagged = 0;
    orphaned_by_event_type = count_orphans_by_event_type root s.events;
  },
)
reconcile_with (some reachable) root s =
    let (after, flagged) = reconcile_orphaned_events root reachable s in
    (
      after,
      record {
        project_root = root;
        git_available = true;
        reachable_commit_count = length reachable;
        orphaned_newly_flagged = flagged;
        orphaned_by_event_type = count_orphans_by_event_type root after.events;
      },
    )

unfoldable pub reconcile : GitRunner → String → Store → Store × ReconcileReport
reconcile runner root s = reconcile_with (list_reachable_commits runner) root s

-- DELETE ... WHERE project_root = ? AND timestamp < ? [AND orphaned = 1]
abbrev pub is_pruned : String → ℕ → Bool → TimelineEvent → Bool
is_pruned root older_than only_orphaned e =
    e.project_root == root && (ltb e.timestamp older_than && (not only_orphaned || e.orphaned))

unfoldable pub prune_events : String → ℕ → Bool → Store → Store × ℕ
prune_events root older_than only_orphaned s = (
  record s { events = keep (λ e. not (is_pruned root older_than only_orphaned e)) s.events },
  count_if (is_pruned root older_than only_orphaned) s.events,
)
