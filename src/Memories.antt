-- ===== src/Memories.antt =====
-- libs/memory/store.py: notes that a person reviews, each a markdown file with a YAML header. The
-- directory is the dictionary of its .md files, by path, in the order that the listing finds them.
-- YAML is given: `load` is none where it raises, and a value that is no list is known by its truth
-- and its `str`. The clock and the random id are arguments, and a file is always readable as UTF-8.
pub mod Newlines
pub mod Plain
pub mod Store
pub mod Header
pub mod Review
mod Tests
use Prim.Native.Nat.{compare, Ordering}
use Prim.Native.Char.{Char, code}
use Prim.Native.String
use Prim.Native.String.{char_at}
use lv_dcp.Base.{
  ℕ, ◌-◌, String, ◌==◌, Bool, true, false, not, ◌&&◌, ◌||◌, Option, none, some, List, [], ◌∷◌, ◌++◌,
  keep, leb, if◌then◌else◌, str_lt, char_between, prefix, drop_chars, text_length, ends_with,
  starts_with, Dict, get, put,
}
use lv_dcp.Timeline.Reconcile.{strip, rstrip}

pub data MemoryStatus : Type 0 where
  proposed accepted rejected : MemoryStatus

pub record Memory : Type 0 where
  pub id : String
  pub status : MemoryStatus
  pub topic : String
  pub tags : List String
  pub created_at_iso : String
  pub created_by : String
  pub body : String
  pub path : String

abbrev pub Directory : Type 0
Directory = Dict String

-- What the functions raise: MemoryError, its subclass for an unknown id, and yaml.YAMLError.
pub data Failure : Type 0 where
  memory_error not_found_error yaml_error : Failure

pub data Result {ℓ} (A : Type ℓ) : Type ℓ where
  ok : A → Result A
  raised : Failure → Result A

infixl 5 ◌>>=◌
abbrev pub ◌>>=◌ {ℓ κ} : {A : Type ℓ} {B : Type κ} → Result A → (A → Result B) → Result B
ok a >>= f = f a
raised e >>= f = raised e

-- A value of a header.
pub data Value : Type 0 where
  items : List String → Value
  scalar : Bool → String → Value

pub data Loaded : Type 0 where
  mapping : Dict Value → Loaded
  falsy other : Loaded

pub record Yaml : Type 0 where
  pub load : String → Option Loaded
  pub dump : Dict Value → String
  pub str_of_list : List String → String

abbrev pub text_value : String → Value
text_value s = scalar (not (s == "")) s

abbrev pub status_value : MemoryStatus → String
status_value proposed = "proposed"
status_value accepted = "accepted"
status_value rejected = "rejected"

abbrev pub header_of : Memory → Dict Value
header_of m =
    ("id", text_value m.id)
    ∷ ("status", text_value (status_value m.status))
    ∷ ("topic", text_value m.topic)
    ∷ ("tags", items m.tags)
    ∷ ("created_at", text_value m.created_at_iso)
    ∷ ("created_by", text_value m.created_by)
    ∷ []

abbrev pub grow_front : Char → Option (String × String) → Option (String × String)
grow_front c none = none
grow_front c (some (s, rest)) = some (String.◌∷◌ c s, rest)

abbrev pub is_return : Char → Bool
is_return = char_between b'\r' b'\r'

-- What `read_text` makes of the text of a file: "\r\n" and "\r" are read as "\n".
unfoldable pub newlines : String → String
unfolding starts_with
newlines String.[] = String.[]
newlines (String.◌∷◌ c s) =
    let rest = newlines s in
    if not (is_return c)
    then String.◌∷◌ c rest
    else if starts_with "\n" s
    then rest
    else String.◌++◌ "\n" rest

-- The text before the first "\n---\n", and what is behind it.
unfoldable pub until_rule : String → Option (String × String)
unfolding starts_with drop_chars
until_rule String.[] = none
until_rule (String.◌∷◌ c s) =
    let rest = until_rule s in
    if starts_with "\n---\n" (String.◌∷◌ c s)
    then some (String.[], drop_chars 5 (String.◌∷◌ c s))
    else grow_front c rest

-- re.match(r"^---\n(.*?)\n---\n(.*)$", text, DOTALL)
unfoldable pub frontmatter : String → Option (String × String)
unfolding until_rule starts_with drop_chars
frontmatter s = if starts_with "---\n" s then until_rule (drop_chars 4 s) else none

-- MemoryStatus(value)
abbrev pub status_of : Option Value → Option MemoryStatus
status_of none = none
status_of (some (items xs)) = none
status_of (some (scalar truth s)) =
    if s == "proposed"
    then some proposed
    else if s == "accepted"
    then some accepted
    else if s == "rejected"
    then some rejected
    else none

-- str(meta.get(key) or "")
abbrev pub shown : Yaml → Option Value → String
shown y none = ""
shown y (some (items [])) = ""
shown y (some (items (x ∷ xs))) = y.str_of_list (x ∷ xs)
shown y (some (scalar true s)) = s
shown y (some (scalar false s)) = ""

-- meta.get("tags") or []
abbrev pub tags_of : Option Value → Result (List String)
tags_of none = ok []
tags_of (some (items xs)) = ok xs
tags_of (some (scalar true s)) = raised memory_error
tags_of (some (scalar false s)) = ok []

abbrev pub or_memory_error {ℓ} : {A : Type ℓ} → Option A → Result A
or_memory_error none = raised memory_error
or_memory_error (some a) = ok a

abbrev pub or_yaml_error {ℓ} : {A : Type ℓ} → Option A → Result A
or_yaml_error none = raised yaml_error
or_yaml_error (some a) = ok a

-- `meta or {}`, where it is a mapping.
abbrev pub mapping_of : Loaded → Result (Dict Value)
mapping_of (mapping fields) = ok fields
mapping_of falsy = ok []
mapping_of other = raised memory_error

module _ (y : Yaml) where
  unfoldable pub render : Memory → String
  unfolding rstrip
  render m = String.◌++◌ "---\n" (
      String.◌++◌ (rstrip (y.dump (header_of m)))
        (String.◌++◌ "\n---\n" (String.◌++◌ (rstrip m.body) "\n")))

  abbrev pub memory_of : String → String → Dict Value → Result Memory
  memory_of path body meta = do
    status ← or_memory_error (status_of (get "status" meta))
    tags ← tags_of (get "tags" meta)
    ok (record {
      id = shown y (get "id" meta);
      status = status;
      topic = shown y (get "topic" meta);
      tags = tags;
      created_at_iso = shown y (get "created_at" meta);
      created_by = shown y (get "created_by" meta);
      body = body;
      path = path;
    })

  -- `_parse`, of the text at the path.
  unfoldable pub parse : String → String → Result Memory
  unfolding frontmatter newlines
  parse path content = do
    parts ← or_memory_error (frontmatter (newlines content))
    loaded ← or_yaml_error (y.load parts.0)
    meta ← mapping_of loaded
    memory_of path parts.1 meta
