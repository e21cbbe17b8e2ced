-- ===== src/Memories/Review.antt =====
-- What a review of libs/memory/store.py changes, and when its listing raises.
use Prim.Native.String
use lv_dcp.Base.{
  String, ◌==◌, eq_iff, Bool, true, false, not, ◌&&◌, ◌||◌, Option, none, some, List, [], ◌∷◌, ◌≡◌,
  refl, ap, ◌∙◌, inl, inr, Bool-cases, arith, any, keep, Dict, get, put, get-put, is_some,
  if◌then◌else◌,
}
use lv_dcp.Timeline.Reconcile.{strip, rstrip}
use lv_dcp.Memories.{
  MemoryStatus, Memory, Directory, memory_error, not_found_error, yaml_error, Result, ok, raised,
  ◌>>=◌, Value, Loaded, mapping, falsy, other, Yaml, newlines, render, frontmatter, or_memory_error,
  or_yaml_error, mapping_of, memory_of, parse,
}
use lv_dcp.Memories.Store.{
  add_parsed, parse_all, has_status, newest_created, list_memories, first_of_id, find, set_status,
  proposal, path_for, propose_memory,
}
use lv_dcp.Memories.Header.{IsYaml, parse-render}
use lv_dcp.Memories.Newlines.{newlines-rstrip}
use lv_dcp.Memories.Plain.{find-plain}

abbrev pub is_ok {ℓ} : {A : Type ℓ} → Result A → Bool
is_ok (ok a) = true
is_ok (raised e) = false

abbrev is_yaml_error : Result Memory → Bool
is_yaml_error (raised yaml_error) = true
is_yaml_error _ = false

-- The note that a proposal makes.
abbrev pub note :
    String → String → List String → String → String → String → String → String → Memory
note topic body tags created_by folder date id now =
    record (proposal topic body tags created_by id now) { path = path_for folder date topic id }

module _ (y : Yaml) where
  abbrev pub is_refused : Option (String × String) → Bool
  is_refused none = false
  is_refused (some (header, body)) = not (is_some (y.load header))

  -- A file with a header that YAML refuses.
  abbrev pub is_broken : String × String → Bool
  is_broken f = is_refused (frontmatter (newlines f.1))

  is_yaml_error-memory_of :
      (path body : String) (meta : Dict Value) → is_yaml_error (memory_of y path body meta) ≡ false
  is_yaml_error-memory_of path body meta = ground arith

  is_yaml_error-parse :
      (path content : String) → is_yaml_error (parse y path content) ≡ is_broken (path, content)
  unfolding parse
  is_yaml_error-parse path content = of (frontmatter (newlines content))
    where
      read :
          (body : String) (loaded : Option Loaded)
          → is_yaml_error (or_yaml_error loaded >>= λ l. mapping_of l >>= memory_of y path body)
            ≡ not (is_some loaded)
      read body none = refl
      read body (some (mapping fields)) = is_yaml_error-memory_of path body fields
      read body (some falsy) = refl
      read body (some other) = refl

      of :
          (parts : Option (String × String))
          → is_yaml_error (
              or_memory_error parts >>= λ p.
              or_yaml_error (y.load p.0) >>= λ l. mapping_of l >>= memory_of y path p.1)
            ≡ is_refused parts
      of none = refl
      of (some (header, body)) = read body (y.load header)

  add_parsed-is_ok :
      (r : Result Memory) (rest : Result (List Memory))
      → is_ok (add_parsed r rest) ≡ (not (is_yaml_error r) && is_ok rest)
  add_parsed-is_ok (ok m) (ok ms) = refl
  add_parsed-is_ok (ok m) (raised e) = refl
  add_parsed-is_ok (raised yaml_error) rest = refl
  add_parsed-is_ok (raised memory_error) rest = refl
  add_parsed-is_ok (raised not_found_error) rest = refl

  parse_all-is_ok : (dir : Directory) → is_ok (parse_all y dir) ≡ not (any is_broken dir)
  unfolding parse_all
  parse_all-is_ok [] = refl
  parse_all-is_ok ((path, content) ∷ files) = ground (
    arith,
    add_parsed-is_ok (parse y path content) (parse_all y files),
    is_yaml_error-parse path content,
    parse_all-is_ok files,
  )

  -- A listing, of all notes or of those of one status, raises just if some file of the directory has
  -- a header that YAML refuses; a file that is malformed in another way is left out.
  pub list_memories-is_ok :
      (status : Option MemoryStatus) (dir : Directory)
      → is_ok (list_memories y status dir) ≡ not (any is_broken dir)
  unfolding list_memories
  list_memories-is_ok status dir = bind_ok (parse_all y dir) ∙ parse_all-is_ok dir
    where
      bind_ok :
          (r : Result (List Memory))
          → is_ok (r >>= λ ms. ok (newest_created (keep (has_status status) ms))) ≡ is_ok r
      bind_ok (ok ms) = refl
      bind_ok (raised e) = refl

  -- What is read from a path of a directory.
  abbrev pub stored : Directory → String → Result Memory
  stored dir path = elim (get path dir) [
    | none ↦ raised not_found_error
    | some content ↦ parse y path content
  ]

  -- A directory after a note was written to its path.
  abbrev pub written : Memory → Directory → Directory
  written m dir = put m.path (render y m) dir

  -- A write is read back, and no other path changes.
  stored-put :
      (dir : Directory) (m : Memory) (path : String)
      → IsYaml y m
      → stored (written m dir) path ≡ (
          if path == m.path
          then ok (record m { body = newlines (String.◌++◌ (rstrip m.body) "\n") })
          else stored dir path)
  stored-put dir m path yaml = elim (Bool-cases (path == m.path)) [
    | inl same ↦ ground (
      arith,
      get-put path m.path (render y m) dir,
      same,
      (eq_iff path m.path).0 same,
      parse-render y path m yaml,
    )
    | inr apart ↦ ground (arith, get-put path m.path (render y m) dir, apart)
  ]

  first_of_id-id :
      (id : String) (m : Memory) (ms : List Memory) → first_of_id id ms ≡ ok m → m.id == id ≡ true
  first_of_id-id id m [] e = absurd (ground (arith, e))
  first_of_id-id id m (n ∷ ns) e = elim (Bool-cases (n.id == id)) [
    | inl here ↦ ground (arith, here, e)
    | inr there ↦ first_of_id-id id m ns (ground (arith, there, e))
  ]

  find-id : (id : String) (dir : Directory) {m : Memory} → find y id dir ≡ ok m → m.id == id ≡ true
  unfolding find
  find-id id dir {m} e = of (list_memories y none dir) e
    where
      of : (r : Result (List Memory)) → (r >>= first_of_id id) ≡ ok m → m.id == id ≡ true
      of (ok ms) h = first_of_id-id id m ms h
      of (raised f) h = absurd (ground (arith, h))

  -- Where YAML reads back the changed header, to accept or reject a note that is found by its id
  -- succeeds and gives the note with that id and
  -- the new status. Read back, the file at its path is this note, with one end of line behind its
  -- body, and every other path reads as before.
  pub set_status-stored :
      (id : String) (status : MemoryStatus) (dir : Directory) (m : Memory) (path : String)
      → IsYaml y (record m { status = status })
      → find y id dir ≡ ok m
      → (set_status y id status dir
          ≡ ok (written (record m { status = status }) dir, record m { status = status }))
        × (m.id == id ≡ true)
        × (stored (written (record m { status = status }) dir) path ≡ (
            if path == m.path
            then ok (record m { status = status; body = String.◌++◌ (rstrip m.body) "\n" })
            else stored dir path))
  unfolding set_status
  set_status-stored id status dir m path yaml e = (
    rw e refl,
    find-id id dir e,
    stored-put dir (record m { status = status }) path yaml
        ∙ ap
            (λ body.
              if path == m.path
              then ok (record m { status = status; body = body })
              else stored dir path)
            (newlines-rstrip m.body (find-plain y id dir e)),
  )

  -- Where YAML reads back the header of the note, a proposal whose topic or body is blank raises and writes nothing. Else the note that is read
  -- from its path is proposed, has the topic without blanks around it and the body without them but
  -- for one end of line and with "\n" for each "\r\n" or "\r", and the tags, author, id and time that were given, and every other path
  -- reads as before.
  pub propose_memory-stored :
      (topic body : String) (tags : List String) (created_by folder date id now path : String)
      (dir : Directory)
      → IsYaml y (note topic body tags created_by folder date id now)
      → (propose_memory y topic body tags created_by folder date id now dir ≡ (
          if strip topic == "" || strip body == ""
          then raised memory_error
          else ok (
            written (note topic body tags created_by folder date id now) dir,
            note topic body tags created_by folder date id now,
          )))
        × (stored (written (note topic body tags created_by folder date id now) dir) path ≡ (
            if path == path_for folder date topic id
            then ok (record (note topic body tags created_by folder date id now) {
              body = newlines (String.◌++◌ (rstrip (strip body)) "\n");
            })
            else stored dir path))
  unfolding propose_memory
  propose_memory-stored topic body tags created_by folder date id now path dir yaml =
      (refl, stored-put dir (note topic body tags created_by folder date id now) path yaml)
