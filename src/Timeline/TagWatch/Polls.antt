-- ===== src/Timeline/TagWatch/Polls.antt =====
-- What a poll of the tags reports.
use lv_dcp.Base.{
  String, ◌==◌, eq_iff, eq_refl, ◌≡◌, refl, ◌∙◌, ap, true, false, Option, none, some, List, [], ◌∷◌,
  ◌++◌, arith, Dict, get, keys, contains, contains-keys, get-put, put-IsUnique, keep, keep-append,
  is_some, All, IsUnique, split_on, if◌then◌else◌, Bool-cases, ◌⊎◌, inl, inr,
}
use mathlib.Core.List.{append-nil}
use lv_dcp.Timeline.Snapshots.{created, moved, TagEvent}
use lv_dcp.Timeline.Reconcile.{GitRunner}
use lv_dcp.Timeline.TagWatch.{
  for_each_ref_args, tag_of, set_tag, read_tags, tags_in, list_git_tags, tag_event, tag_events,
  poll_tags,
}

set_tag-IsUnique :
    (t : Option (String × String)) (tags : Dict String)
    → IsUnique (keys tags)
    → IsUnique (keys (set_tag t tags))
set_tag-IsUnique none tags u = u
set_tag-IsUnique (some (name, obj)) tags u = put-IsUnique name obj tags u

read_tags-IsUnique :
    (lines : List String) (tags : Dict String)
    → IsUnique (keys tags)
    → IsUnique (keys (read_tags lines tags))
unfolding read_tags
read_tags-IsUnique [] tags u = u
read_tags-IsUnique (line ∷ lines) tags u =
    read_tags-IsUnique lines (set_tag (tag_of (split_on 9 line)) tags)
      (set_tag-IsUnique (tag_of (split_on 9 line)) tags u)

tags_in-IsUnique : (out : Option (List String)) → IsUnique (keys (tags_in out))
tags_in-IsUnique none = tt
tags_in-IsUnique (some lines) = read_tags-IsUnique lines [] tt

list_git_tags-IsUnique : (runner : GitRunner) → IsUnique (keys (list_git_tags runner))
unfolding list_git_tags
list_git_tags-IsUnique runner = tags_in-IsUnique (runner for_each_ref_args)

-- The object that a line names for a tag, and the last such of several lines.
abbrev pub target_in : String → Option (String × String) → Option String → Option String
target_in k none best = best
target_in k (some (name, obj)) best = if k == name then some obj else best

abbrev pub last_target : String → List String → Option String → Option String
last_target k [] best = best
last_target k (line ∷ lines) best =
    last_target k lines (target_in k (tag_of (split_on 9 line)) best)

get-set_tag :
    (k : String) (t : Option (String × String)) (tags : Dict String)
    → get k (set_tag t tags) ≡ target_in k t (get k tags)
get-set_tag k none tags = refl
get-set_tag k (some (name, obj)) tags = get-put k name obj tags

-- For each name, the tag that is read is the object of the last line that names one for it, and
-- the one that was there before if no line does.
pub read_tags-last :
    (k : String) (lines : List String) (tags : Dict String)
    → get k (read_tags lines tags) ≡ last_target k lines (get k tags)
unfolding read_tags
read_tags-last k [] tags = refl
read_tags-last k (line ∷ lines) tags =
    read_tags-last k lines (set_tag (tag_of (split_on 9 line)) tags)
    ∙ ap (last_target k lines) (get-set_tag k (tag_of (split_on 9 line)) tags)

abbrev pub of_tag : String → List TagEvent → List TagEvent
of_tag k = keep (λ (e : TagEvent). e.tag == k)

-- What is to be reported of a tag, by what it was and what it is.
abbrev pub report : String → Option String → Option String → List TagEvent
report k before none = []
report k none (some sha) =
    record { tag = k; head_sha = sha; kind = created; previous_sha = none } ∷ []
report k (some prev) (some sha) =
    if prev == sha
    then []
    else record { tag = k; head_sha = sha; kind = moved; previous_sha = some prev } ∷ []

of_tag-tag_event :
    (k tag sha : String) (before : Option String)
    → of_tag k (tag_event tag sha before) ≡ (if k == tag then report k before (some sha) else [])
of_tag-tag_event k tag sha none = ground (arith, eq_iff k tag, eq_iff tag k)
of_tag-tag_event k tag sha (some prev) = ground (arith, eq_iff k tag, eq_iff tag k)

of_tag-tag_events :
    (k : String) (known current : Dict String)
    → IsUnique (keys current)
    → of_tag k (tag_events known current) ≡ report k (get k known) (get k current)
of_tag-tag_events k known [] u = refl
of_tag-tag_events k known ((tag, sha) ∷ rest) u =
    keep-append _ (tag_event tag sha (get tag known)) (tag_events known rest)
    ∙ ap (λ es. es ++ of_tag k (tag_events known rest)) (of_tag-tag_event k tag sha (get tag known))
    ∙ ap (λ es. (if k == tag then report k (get tag known) (some sha) else []) ++ es)
        (of_tag-tag_events k known rest u.1)
    ∙ joined (get k rest) (contains-keys k rest) (Bool-cases (k == tag))
  where
    joined :
        (o : Option String)
        → contains k (keys rest) ≡ is_some o
        → ((k == tag) ≡ true) ⊎ ((k == tag) ≡ false)
        → (if k == tag then report k (get tag known) (some sha) else []) ++ report k (get k known) o
          ≡ report k (get k known) (if k == tag then some sha else o)
    joined none there (inl same) = rw ((eq_iff k tag).0 same, eq_refl tag) (append-nil _)
    joined (some other) there (inl same) = ground (arith, u.0, eq_iff k tag)
    joined o there (inr apart) = rw apart refl

-- For each tag name, a poll reports exactly: `created` for a name that was not known, `moved` with
-- the object before for a name that now has another object, and nothing for a name whose object is
-- the known one or that is gone.
pub poll_tags-of_tag :
    (runner : GitRunner) (known : Dict String) (k : String)
    → let (current, events) = poll_tags runner known in
      of_tag k events ≡ report k (get k known) (get k current)
unfolding poll_tags
poll_tags-of_tag runner known k =
    of_tag-tag_events k known (list_git_tags runner) (list_git_tags-IsUnique runner)

abbrev IsIn : Dict String → String × String → Type 0
IsIn known (tag, sha) = get tag known ≡ some sha

All-IsIn_more :
    (tag sha : String) (d e : Dict String)
    → contains tag (keys e) ≡ false
    → All (IsIn d) e
    → All (IsIn ((tag, sha) ∷ d)) e
All-IsIn_more tag sha d [] n h = tt
All-IsIn_more tag sha d ((j, v) ∷ e) n h =
    (ground (arith, eq_iff j tag, eq_iff tag j, h.0), All-IsIn_more tag sha d e (ground arith) h.1)

All-IsIn : (d : Dict String) → IsUnique (keys d) → All (IsIn d) d
All-IsIn [] u = tt
All-IsIn ((tag, sha) ∷ d) u =
    (ground (arith, eq_refl tag), All-IsIn_more tag sha d d u.0 (All-IsIn d u.1))

tag_events-none : (known d : Dict String) → All (IsIn known) d → tag_events known d ≡ []
tag_events-none known [] h = refl
tag_events-none known ((tag, sha) ∷ d) h = rw (h.0, eq_refl sha) (tag_events-none known d h.1)

-- A second poll of a repository that has not changed, with the tags of the first one as known,
-- returns the same tags and reports nothing.
pub poll_tags_again :
    (runner : GitRunner) (known : Dict String)
    → let (current, events) = poll_tags runner known in poll_tags runner current ≡ (current, [])
unfolding poll_tags
poll_tags_again runner known =
    let current = list_git_tags runner in
    ap (λ (es : List TagEvent). (current, es))
      (tag_events-none current current (All-IsIn current (list_git_tags-IsUnique runner)))
