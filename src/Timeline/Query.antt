-- ===== src/Timeline/Query.antt =====
-- libs/symbol_timeline/query.py: what its three queries share. `git` is the git process: none
-- where it cannot be run or times out, and else its return code and its output, whose lines end in
-- a newline. `float` reads a number of seconds as a time. A limit is not negative.
pub mod Removed
pub mod Ranking
pub mod Renames
pub mod RemovedSince
pub mod Diff
pub mod NetEffect
pub mod Buckets
pub mod History
use Prim.Native.String
use Prim.Native.Nat.{compare, Ordering}
use lv_dcp.Base.{
  ℕ, ◌+◌, String, ◌==◌, Bool, true, false, not, ◌&&◌, ◌||◌, Option, none, some, List, [], ◌∷◌, ltb,
  leb, keep, contains, Dict, get, put, is_some, split_on, if◌then◌else◌,
}
use lv_dcp.Timeline.Events.{TimelineEvent, RenameEdgeRow}
use lv_dcp.Timeline.Store.{day}
use lv_dcp.Timeline.Reconcile.{sha_in, add_shas, strip}

abbrev pub GitProcess : Type 0
GitProcess = List String → Option (ℕ × String)

-- The output of a run that ends with 0.
abbrev pub output : Option (ℕ × String) → Option String
output none = none
output (some (code, out)) = elim (compare code 0) [ Ordering.eq ↦ some out | _ ↦ none ]

-- {line.strip() for line in out.splitlines() if line.strip()}
abbrev pub shas_in : Option String → Option (List String)
shas_in none = none
shas_in (some out) = some (add_shas (split_on 10 out) [])

unfoldable pub commits_between : GitProcess → String → String → Option (List String)
unfolding split_on strip
commits_between git from_sha to_sha =
    shas_in (output (git ("rev-list" ∷ String.◌++◌ from_sha (String.◌++◌ ".." to_sha) ∷ [])))

unfoldable pub commits_after_ref : GitProcess → String → Option (List String)
unfolding split_on strip
commits_after_ref git ref_sha =
    shas_in (output (git ("rev-list" ∷ String.◌++◌ ref_sha "..HEAD" ∷ [])))

-- `x = out.strip()`, and none where it is empty.
abbrev pub stripped : Option String → Option String
stripped none = none
stripped (some out) = if strip out == "" then none else some (strip out)

abbrev pub with_time : String → Option ℕ → Option (String × ℕ)
with_time sha none = none
with_time sha (some t) = some (sha, t)

module _ (git : GitProcess) (float : String → Option ℕ) where
  abbrev pub timed : Option String → Option (String × ℕ)
  timed none = none
  timed (some sha) = elim (stripped (output (git ("log" ∷ "-1" ∷ "--format=%ct" ∷ sha ∷ [])))) [
    | none ↦ none
    | some raw ↦ with_time sha (float raw)
  ]

  unfoldable pub resolve_git_ref : String → Option (String × ℕ)
  unfolding strip
  resolve_git_ref ref =
      if ref == ""
      then none
      else timed (stripped (output (git ("rev-parse" ∷ String.◌++◌ ref "^{commit}" ∷ []))))

unfoldable pub rev_parse_head : GitProcess → Option String
unfolding strip
rev_parse_head git = stripped (output (git ("rev-parse" ∷ "HEAD" ∷ [])))

-- `time.time() + 86_400`
abbrev pub upper_cap : Option ℕ → ℕ → ℕ
upper_cap (some now) time = now
upper_cap none time = time + day

-- `if reachable is not None`: sha is not None and sha in reachable.
abbrev pub is_reached : Option (List String) → Option String → Bool
is_reached none sha = true
is_reached (some reachable) sha = sha_in reachable sha

-- e.qualified_name or e.file_path
abbrev pub shown_name : Option String → String → String
shown_name none path = path
shown_name (some name) path = if name == "" then path else name

abbrev pub importance_of : Option (String → Option ℕ) → TimelineEvent → Option ℕ
importance_of none e = none
importance_of (some lookup) e = lookup (shown_name e.qualified_name e.file_path)

-- `_rank_key`
abbrev pub rank : Option (String → Option ℕ) → TimelineEvent → ℕ × ℕ
rank lookup e = (elim (importance_of lookup e) [ none ↦ 0 | some score ↦ score ], e.timestamp)

abbrev pub rank_lt : ℕ × ℕ → ℕ × ℕ → Bool
rank_lt (i, t) (j, u) = ltb i j || (leb i j && ltb t u)

-- events.sort(key=_rank_key, reverse=True): equal keys keep their order.
abbrev pub insert_ranked :
    Option (String → Option ℕ) → TimelineEvent → List TimelineEvent → List TimelineEvent
insert_ranked lookup e [] = e ∷ []
insert_ranked lookup e (f ∷ fs) =
    if rank_lt (rank lookup e) (rank lookup f) then f ∷ insert_ranked lookup e fs else e ∷ f ∷ fs

unfoldable pub sort_ranked : Option (String → Option ℕ) → List TimelineEvent → List TimelineEvent
sort_ranked lookup [] = []
sort_ranked lookup (e ∷ es) = insert_ranked lookup e (sort_ranked lookup es)

-- The loop that fills `name_by_sid`.
abbrev pub add_name : String → Option String → Dict String → Dict String
add_name sid none names = names
add_name sid (some name) names =
    if name == "" || is_some (get sid names) then names else put sid name names

abbrev pub names_of : List TimelineEvent → Dict String → Dict String
names_of [] names = names
names_of (e ∷ es) names = names_of es (add_name e.symbol_id e.qualified_name names)

pub record RenamePair : Type 0 where
  pub old_symbol_id : String
  pub new_symbol_id : String
  pub old_qualified_name : Option String
  pub new_qualified_name : Option String
  pub confidence : ℕ
  pub is_candidate : Bool
  pub renamed_at : ℕ
  pub commit_sha : Option String

abbrev pub pair_of : (String → Option String) → RenameEdgeRow → RenamePair
pair_of name r = record {
  old_symbol_id = r.old_symbol_id;
  new_symbol_id = r.new_symbol_id;
  old_qualified_name = name r.old_symbol_id;
  new_qualified_name = name r.new_symbol_id;
  confidence = r.confidence;
  is_candidate = r.is_candidate;
  renamed_at = r.timestamp;
  commit_sha = r.commit_sha;
}

-- ORDER BY timestamp DESC, id DESC
abbrev pub insert_older : RenameEdgeRow → List RenameEdgeRow → List RenameEdgeRow
insert_older r [] = r ∷ []
insert_older r (q ∷ qs) = if leb r.timestamp q.timestamp then q ∷ insert_older r qs else r ∷ q ∷ qs

unfoldable pub newest_first : List RenameEdgeRow → List RenameEdgeRow
newest_first [] = []
newest_first (r ∷ rs) = insert_older r (newest_first rs)

-- {p.old_symbol_id for p in rename_pairs if not p.is_candidate}, and the same of the new ids.
abbrev pub confirmed_old : List RenamePair → List String
confirmed_old [] = []
confirmed_old (p ∷ ps) =
    let rest = confirmed_old ps in if p.is_candidate then rest else p.old_symbol_id ∷ rest

abbrev pub confirmed_new : List RenamePair → List String
confirmed_new [] = []
confirmed_new (p ∷ ps) =
    let rest = confirmed_new ps in if p.is_candidate then rest else p.new_symbol_id ∷ rest
