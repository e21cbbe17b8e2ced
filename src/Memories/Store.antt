-- ===== src/Memories/Store.antt =====
-- The operations of libs/memory/store.py on the directory of notes.
use Prim.Native.Char.{Char, code}
use Prim.Native.String
use Prim.Native.String.{char_at}
use lv_dcp.Base.{
  ◌-◌, String, ◌==◌, Bool, true, false, not, ◌||◌, Option, none, some, List, [], ◌∷◌, keep,
  if◌then◌else◌, str_lt, char_between, prefix, drop_chars, text_length, ends_with, starts_with, put,
}
use lv_dcp.Timeline.Reconcile.{strip}
use lv_dcp.Memories.{
  proposed, accepted, rejected, MemoryStatus, Memory, Directory, memory_error, not_found_error,
  yaml_error, Result, ok, raised, ◌>>=◌, Yaml, status_value, render, parse,
}

-- c.lower(), for ASCII.
abbrev pub lower : Char → Char
lower c =
    if char_between b'A' b'Z' c then char_at "abcdefghijklmnopqrstuvwxyz" (code c - b'A') else c

abbrev pub is_slug : Char → Bool
is_slug c = char_between b'a' b'z' c || char_between b'0' b'9' c

-- re.sub("[^a-z0-9]+", "-", s.lower()); `inside` tells that a run of other characters goes on.
unfoldable pub slug_from : Bool → String → String
slug_from inside String.[] = String.[]
slug_from inside (String.◌∷◌ c s) =
    let rest = slug_from (not (is_slug (lower c))) s in
    if is_slug (lower c)
    then String.◌∷◌ (lower c) rest
    else if inside
    then rest
    else String.◌++◌ "-" rest

-- s.strip("-"), where no two stand side by side.
unfoldable pub strip_dash : String → String
unfolding starts_with drop_chars ends_with
strip_dash s =
    let tail = if starts_with "-" s then drop_chars 1 s else s in
    if ends_with "-" tail then prefix (text_length tail - 1) tail else tail

unfoldable pub slugify : String → String
unfolding slug_from strip_dash
slugify topic =
    let base = strip_dash (slug_from false topic) in if base == "" then "memory" else base

-- A file that raises MemoryError is left out; what else is raised goes on.
abbrev pub add_parsed : Result Memory → Result (List Memory) → Result (List Memory)
add_parsed (ok m) rest = rest >>= λ ms. ok (m ∷ ms)
add_parsed (raised yaml_error) rest = raised yaml_error
add_parsed (raised memory_error) rest = rest
add_parsed (raised not_found_error) rest = rest

abbrev pub has_status : Option MemoryStatus → Memory → Bool
has_status none m = true
has_status (some status) m = status_value m.status == status_value status

-- memories.sort(key=created_at_iso, reverse=True): equal keys keep their order.
abbrev pub insert_newest : Memory → List Memory → List Memory
insert_newest m [] = m ∷ []
insert_newest m (n ∷ ns) =
    if str_lt m.created_at_iso n.created_at_iso then n ∷ insert_newest m ns else m ∷ n ∷ ns

unfoldable pub newest_created : List Memory → List Memory
unfolding str_lt
newest_created [] = []
newest_created (m ∷ ms) = insert_newest m (newest_created ms)

abbrev pub first_of_id : String → List Memory → Result Memory
first_of_id id [] = raised not_found_error
first_of_id id (m ∷ ms) = if m.id == id then ok m else first_of_id id ms

-- What `propose_memory` stores: `id` is the random one, `now` the time in ISO form.
abbrev pub proposal : String → String → List String → String → String → String → Memory
proposal topic body tags created_by id now = record {
  id = id;
  status = proposed;
  topic = strip topic;
  tags = tags;
  created_at_iso = now;
  created_by = created_by;
  body = strip body;
  path = "";
}

-- `folder` ends in "/", and `date` is the day of `now`.
abbrev pub path_for : String → String → String → String → String
path_for folder date topic id = String.◌++◌ folder (
    String.◌++◌ date (
      String.◌++◌ "-" (
        String.◌++◌ (slugify topic)
          (String.◌++◌ "-" (String.◌++◌ (prefix 6 (drop_chars 4 id)) ".md")))))

module _ (y : Yaml) where
  unfoldable pub parse_all : Directory → Result (List Memory)
  unfolding parse
  parse_all [] = ok []
  parse_all ((path, content) ∷ files) = add_parsed (parse y path content) (parse_all files)

  unfoldable pub list_memories : Option MemoryStatus → Directory → Result (List Memory)
  unfolding parse_all newest_created
  list_memories status dir =
      parse_all dir >>= λ ms. ok (newest_created (keep (has_status status) ms))

  unfoldable pub find : String → Directory → Result Memory
  unfolding list_memories
  find id dir = list_memories none dir >>= first_of_id id

  -- `accept_memory` and `reject_memory` are this, with their status.
  unfoldable pub set_status : String → MemoryStatus → Directory → Result (Directory × Memory)
  unfolding find render
  set_status id status dir = do
    existing ← find id dir
    let updated = record existing { status = status }
    ok (put existing.path (render y updated) dir, updated)

  abbrev pub accept_memory : String → Directory → Result (Directory × Memory)
  accept_memory id = set_status id accepted

  abbrev pub reject_memory : String → Directory → Result (Directory × Memory)
  reject_memory id = set_status id rejected

  unfoldable pub propose_memory :
      String
      → String
      → List String
      → String
      → String
      → String
      → String
      → String
      → Directory
      → Result (Directory × Memory)
  unfolding strip slugify render
  propose_memory topic body tags created_by folder date id now dir =
      if strip topic == "" || strip body == ""
      then raised memory_error
      else let stored = record (proposal topic body tags created_by id now) {
        path = path_for folder date topic id;
      } in
        ok (put stored.path (render y stored) dir, stored)
