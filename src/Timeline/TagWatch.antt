-- ===== src/Timeline/TagWatch.antt =====
-- libs/gitintel/tag_watcher.py. The runner of git is the one of Timeline.Reconcile: it gives the
-- lines of the output, or none where it raises.
pub mod Polls
use lv_dcp.Base.{
  String, ◌==◌, Bool, not, Option, none, some, List, [], ◌∷◌, ◌++◌, Dict, get, put, split_on,
  if◌then◌else◌,
}
use lv_dcp.Timeline.Snapshots.{TagKind, created, moved, TagEvent}
use lv_dcp.Timeline.Reconcile.{GitRunner}

abbrev pub for_each_ref_args : List String
for_each_ref_args =
    "for-each-ref" ∷ "--format=%(refname:short)%09%(objectname)%09%(*objectname)" ∷ "refs/tags" ∷ []

-- `if obj: tags[name] = obj`, and `not parts[0]` of the guard before.
abbrev pub named_object : String → String → Option (String × String)
named_object name obj = if name == "" then none else (if obj == "" then none else some (name, obj))

-- The columns of a line: name, object, and the object that an annotated tag points to.
abbrev pub tag_of : List String → Option (String × String)
tag_of (name ∷ obj ∷ []) = named_object name obj
tag_of (name ∷ obj ∷ deref ∷ rest) = named_object name (if deref == "" then obj else deref)
tag_of _ = none

abbrev pub set_tag : Option (String × String) → Dict String → Dict String
set_tag none tags = tags
set_tag (some (name, obj)) tags = put name obj tags

-- line.split("\t"): a line ends without a newline already.
unfoldable pub read_tags : List String → Dict String → Dict String
unfolding split_on
read_tags [] tags = tags
read_tags (line ∷ lines) tags = read_tags lines (set_tag (tag_of (split_on 9 line)) tags)

-- No tags this time where git fails.
abbrev pub tags_in : Option (List String) → Dict String
tags_in none = []
tags_in (some lines) = read_tags lines []

unfoldable pub list_git_tags : GitRunner → Dict String
list_git_tags runner = tags_in (runner for_each_ref_args)

-- The body of the loop over the current tags.
abbrev pub tag_event : String → String → Option String → List TagEvent
tag_event tag sha none =
    record { tag = tag; head_sha = sha; kind = created; previous_sha = none } ∷ []
tag_event tag sha (some prev) =
    if prev == sha
    then []
    else record { tag = tag; head_sha = sha; kind = moved; previous_sha = some prev } ∷ []

abbrev pub tag_events : Dict String → Dict String → List TagEvent
tag_events known [] = []
tag_events known ((tag, sha) ∷ rest) = tag_event tag sha (get tag known) ++ tag_events known rest

unfoldable pub poll_tags : GitRunner → Dict String → Dict String × List TagEvent
poll_tags runner known = let current = list_git_tags runner in (current, tag_events known current)
