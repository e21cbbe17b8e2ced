-- ===== src/Memories/Plain.antt =====
-- The body of a note that libs/memory/store.py reads has no carriage return.

use lv_dcp.Base.{
  String, ◌==◌, Bool, false, ◌||◌, Option, none, some, List, [], ◌∷◌, ◌≡◌, refl, ap, sym, ◌∙◌, inl,
  inr, Bool-cases, arith, any, keep, Dict, str_lt,
}
use lv_dcp.Memories.{
  Memory, Directory, memory_error, not_found_error, yaml_error, Result, ok, raised, ◌>>=◌, Value,
  Loaded, mapping, falsy, other, Yaml, newlines, frontmatter, or_memory_error, or_yaml_error,
  mapping_of, memory_of, parse,
}
use lv_dcp.Memories.Store.{
  add_parsed, parse_all, has_status, insert_newest, newest_created, list_memories, first_of_id,
  find,
}
use lv_dcp.Memories.Newlines.{has_return, has_return-newlines, is_behind, is_behind-frontmatter}

abbrev has_return_in : Memory → Bool
has_return_in m = has_return m.body

abbrev note_returns : Result Memory → Bool
note_returns (ok m) = has_return_in m
note_returns (raised e) = false

abbrev notes_return : Result (List Memory) → Bool
notes_return (ok ms) = any has_return_in ms
notes_return (raised e) = false

any-insert_newest :
    (m : Memory) (ns : List Memory)
    → any has_return_in (insert_newest m ns) ≡ (has_return_in m || any has_return_in ns)
any-insert_newest m [] = refl
any-insert_newest m (n ∷ ns) = elim (Bool-cases (str_lt m.created_at_iso n.created_at_iso)) [
  | inl older ↦ ground (arith, older, any-insert_newest m ns)
  | inr newer ↦ ground (arith, newer)
]

any-newest_created :
    (ms : List Memory) → any has_return_in (newest_created ms) ≡ any has_return_in ms
unfolding newest_created
any-newest_created [] = refl
any-newest_created (m ∷ ms) =
    any-insert_newest m (newest_created ms) ∙ ap (λ b. has_return_in m || b) (any-newest_created ms)

keep-has_status : (ms : List Memory) → keep (has_status none) ms ≡ ms
keep-has_status [] = refl
keep-has_status (m ∷ ms) = ap (λ ns. m ∷ ns) (keep-has_status ms)

first_of_id-plain :
    (id : String) (ms : List Memory)
    → any has_return_in ms ≡ false
    → note_returns (first_of_id id ms) ≡ false
first_of_id-plain id [] plain = refl
first_of_id-plain id (m ∷ ms) plain = elim (Bool-cases (m.id == id)) [
  | inl here ↦ ground (arith, here, plain)
  | inr there ↦ rw there (first_of_id-plain id ms (ground (arith, plain)))
]

add_parsed-plain :
    (r : Result Memory) (rest : Result (List Memory))
    → note_returns r ≡ false
    → notes_return rest ≡ false
    → notes_return (add_parsed r rest) ≡ false
add_parsed-plain (ok m) (ok ms) p q = ground (arith, p, q)
add_parsed-plain (ok m) (raised e) p q = refl
add_parsed-plain (raised yaml_error) rest p q = refl
add_parsed-plain (raised memory_error) rest p q = q
add_parsed-plain (raised not_found_error) rest p q = q

module _ (y : Yaml) where
  memory_of-plain :
      (path body : String) (meta : Dict Value)
      → has_return body ≡ false
      → note_returns (memory_of y path body meta) ≡ false
  memory_of-plain path body meta plain = ground (arith, plain)

  parse-plain : (path content : String) → note_returns (parse y path content) ≡ false
  unfolding parse
  parse-plain path content =
      of (frontmatter (newlines content))
        (is_behind-frontmatter (newlines content) (has_return-newlines content))
    where
      read :
          (body : String) (loaded : Option Loaded)
          → has_return body ≡ false
          → note_returns (or_yaml_error loaded >>= λ l. mapping_of l >>= memory_of y path body)
            ≡ false
      read body none p = refl
      read body (some (mapping fields)) p = memory_of-plain path body fields p
      read body (some falsy) p = memory_of-plain path body [] p
      read body (some other) p = refl

      of :
          (parts : Option (String × String))
          → is_behind parts ≡ false
          → note_returns (
              or_memory_error parts >>= λ p.
              or_yaml_error (y.load p.0) >>= λ l. mapping_of l >>= memory_of y path p.1)
            ≡ false
      of none p = refl
      of (some (header, body)) p = read body (y.load header) p

  parse_all-plain : (dir : Directory) → notes_return (parse_all y dir) ≡ false
  unfolding parse_all
  parse_all-plain [] = refl
  parse_all-plain ((path, content) ∷ files) =
      add_parsed-plain (parse y path content) (parse_all y files) (parse-plain path content)
        (parse_all-plain files)

  pub find-plain :
      (id : String) (dir : Directory) {m : Memory}
      → find y id dir ≡ ok m
      → has_return m.body ≡ false
  unfolding find list_memories
  find-plain id dir {m} e = ap note_returns (sym e) ∙ of (parse_all y dir) (parse_all-plain dir)
    where
      of :
          (r : Result (List Memory))
          → notes_return r ≡ false
          → note_returns
              ((r >>= λ ms. ok (newest_created (keep (has_status none) ms))) >>= first_of_id id)
            ≡ false
      of (ok ms) p = first_of_id-plain id (newest_created (keep (has_status none) ms)) (
          any-newest_created (keep (has_status none) ms)
          ∙ ap (any has_return_in) (keep-has_status ms)
          ∙ p)
      of (raised f) p = refl
