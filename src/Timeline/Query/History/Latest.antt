-- ===== src/Timeline/Query/History/Latest.antt =====
-- The newest name and path of a symbol, as `_latest_name_file` of
-- libs/symbol_timeline/query.py finds them.
use mathlib.Core.List.{reverse, reverse-append}
use lv_dcp.Base.{String, Option, none, some, List, [], ◌∷◌, ◌++◌, ◌≡◌, refl, ap, ◌∙◌, arith}
use lv_dcp.Timeline.Events.{TimelineEvent}
use lv_dcp.Timeline.Query.History.Life.{or_name, name_and_path, latest_name_file}

-- The later of two names that may be missing.
abbrev pub or_else : Option String → Option String → Option String
or_else (some name) q = some name
or_else none q = q

-- The last of the texts that is there and not empty.
abbrev pub last_text : (TimelineEvent → Option String) → List TimelineEvent → Option String
last_text text [] = none
last_text text (e ∷ es) = or_else (last_text text es) (or_name none (text e))

first_text : (TimelineEvent → Option String) → List TimelineEvent → Option String
first_text text [] = none
first_text text (e ∷ es) = or_else (or_name none (text e)) (first_text text es)

first_text-append :
    (text : TimelineEvent → Option String) (xs ys : List TimelineEvent)
    → first_text text (xs ++ ys) ≡ or_else (first_text text xs) (first_text text ys)
unfolding first_text
first_text-append text [] ys = refl
first_text-append text (x ∷ xs) ys = ground (arith, first_text-append text xs ys)

first_text-reverse :
    (text : TimelineEvent → Option String) (es : List TimelineEvent)
    → first_text text (reverse es) ≡ last_text text es
unfolding first_text
first_text-reverse text [] = refl
first_text-reverse text (e ∷ es) =
    ap (first_text text) (reverse-append (e ∷ []) es)
    ∙ first_text-append text (reverse es) (e ∷ [])
    ∙ ground (arith, first_text-reverse text es)

name_and_path_lem :
    (name path : Option String) (es : List TimelineEvent)
    → name_and_path name path es ≡ (
      or_else name (first_text (λ e. e.qualified_name) es),
      or_else path (first_text (λ e. some e.file_path) es),
    )
unfolding first_text
name_and_path_lem name path [] = ground arith
name_and_path_lem name path (e ∷ es) =
    ground (
      arith,
      name_and_path_lem (or_name name e.qualified_name) (or_name path (some e.file_path)) es,
    )

-- The newest name and the newest path that are there, each on its own.
pub latest_name_file-last_text :
    (es : List TimelineEvent)
    → latest_name_file es
      ≡ (last_text (λ e. e.qualified_name) es, last_text (λ e. some e.file_path) es)
unfolding latest_name_file
latest_name_file-last_text es = ground (
  arith,
  name_and_path_lem none none (reverse es),
  first_text-reverse (λ e. e.qualified_name) es,
  first_text-reverse (λ e. some e.file_path) es,
)
