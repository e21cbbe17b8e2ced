-- ===== src/Memories/Tests.antt =====
-- Runs of libs/memory/store.py, and its theorems at them.
use Prim.Native.String
use lv_dcp.Base.{
  ◌≡◌, ◌==◌, refl, true, false, not, ◌||◌, none, some, [], ◌∷◌, any, if◌then◌else◌, prefix,
  text_length, is_inside, starts_with,
}
use lv_dcp.Timeline.Reconcile.{strip, rstrip}
use lv_dcp.Memories.{
  proposed, accepted, Memory, Directory, ok, raised, memory_error, Loaded, mapping, Yaml, header_of,
  newlines, frontmatter, render, parse,
}
use lv_dcp.Memories.Store.{slugify, list_memories, find, set_status, path_for, propose_memory}
use lv_dcp.Memories.Header.{IsYaml, parse-render}
use lv_dcp.Memories.Newlines.{has_return}
use lv_dcp.Memories.Review.{
  is_ok, is_broken, list_memories-is_ok, stored, written, set_status-stored, note,
  propose_memory-stored,
}

test_slug : slugify "  Use UUIDs, always! " ≡ "use-uuids-always"
unfolding slugify prefix text_length
test_slug = refl

test_no_slug : slugify "???" ≡ "memory"
unfolding slugify prefix text_length
test_no_slug = refl

test_front : frontmatter "---\nid: a\n---\nbody\n---\n" ≡ some ("id: a", "body\n---\n")
unfolding frontmatter
test_front = refl

-- A header needs a line of its own.
test_no_line : frontmatter "---\n---\nbody" ≡ none
unfolding frontmatter
test_no_line = refl

abbrev idea : Memory
idea = record {
  id = "mem_1";
  status = accepted;
  topic = "Ids";
  tags = "db" ∷ [];
  created_at_iso = "2026-01-02";
  created_by = "agent";
  body = "Use UUIDs.\n";
  path = "/p/ids.md";
}

-- A YAML that knows the header of one note, before its review too, and refuses a text in brackets.
abbrev one_header : Memory → Yaml
one_header m = record {
  load = λ s.
      if s == "id: mem_1"
      then some (mapping (header_of m))
      else if s == "old: mem_1"
      then some (mapping (header_of (record m { status = proposed })))
      else if s == "["
      then none
      else some Loaded.falsy;
  dump = λ fields. "id: mem_1\n";
  str_of_list = λ xs. "";
}

idea-IsYaml : IsYaml (one_header idea) idea
unfolding rstrip is_inside starts_with has_return
idea-IsYaml = record { load-dump = refl; no_rule = refl; no_return = refl }

-- The same note, written on a system that ends its lines with "\r\n".
abbrev two_lines : Memory
two_lines = record idea { body = "Use UUIDs.\r\nAlways.\r\n" }

test_newlines : newlines (String.◌++◌ (rstrip two_lines.body) "\n") ≡ "Use UUIDs.\nAlways.\n"
unfolding newlines rstrip
test_newlines = refl

parse-render_example :
    parse (one_header idea) "/p/ids.md" (render (one_header idea) two_lines)
    ≡ ok (record two_lines {
      body = newlines (String.◌++◌ (rstrip two_lines.body) "\n");
      path = "/p/ids.md";
    })
parse-render_example = parse-render (one_header idea) "/p/ids.md" two_lines (record {
  load-dump = idea-IsYaml.load-dump;
  no_rule = idea-IsYaml.no_rule;
  no_return = idea-IsYaml.no_return;
})

abbrev directory : Directory
directory = ("/p/bad.md", "---\n[\n---\n") ∷ ("/p/plain.md", "text") ∷ []

run_malformed : is_ok (list_memories (one_header idea) none directory) ≡ false
unfolding list_memories
run_malformed = refl

list_memories-is_ok_example :
    is_ok (list_memories (one_header idea) none directory)
    ≡ not (any (is_broken (one_header idea)) directory)
list_memories-is_ok_example = list_memories-is_ok (one_header idea) none directory

abbrev waiting : Directory
waiting = ("/p/ids.md", "---\nold: mem_1\n---\nUse UUIDs.\n") ∷ ("/p/plain.md", "text") ∷ []

is_found : find (one_header idea) "mem_1" waiting ≡ ok (record idea { status = proposed })
unfolding find
is_found = refl

set_status-stored_example :
    (set_status (one_header idea) "mem_1" accepted waiting
      ≡ ok (written (one_header idea) idea waiting, idea))
    × (idea.id == "mem_1" ≡ true)
    × (stored (one_header idea) (written (one_header idea) idea waiting) "/p/plain.md" ≡ (
        if "/p/plain.md" == idea.path
        then ok (record idea { body = String.◌++◌ (rstrip idea.body) "\n" })
        else stored (one_header idea) waiting "/p/plain.md"))
set_status-stored_example =
    set_status-stored (one_header idea) "mem_1" accepted waiting (record idea { status = proposed })
      "/p/plain.md" idea-IsYaml is_found

abbrev proposal : Memory
proposal =
    note " Ids " "Use UUIDs.\n" ("db" ∷ []) "agent" "/p/" "2026-01-02" "mem_123456"
      "2026-01-02T10:00"

proposal-IsYaml : IsYaml (one_header proposal) proposal
unfolding rstrip is_inside starts_with has_return
proposal-IsYaml = record { load-dump = refl; no_rule = refl; no_return = refl }

propose_memory-stored_example :
    (propose_memory
        (one_header proposal)
        " Ids "
        "Use UUIDs.\n"
        ("db" ∷ [])
        "agent"
        "/p/"
        "2026-01-02"
        "mem_123456"
        "2026-01-02T10:00"
        directory
      ≡ (if strip " Ids " == "" || strip "Use UUIDs.\n" == ""
          then raised memory_error
          else ok (written (one_header proposal) proposal directory, proposal)))
    × (stored (one_header proposal) (written (one_header proposal) proposal directory) "/p/plain.md"
        ≡ (if "/p/plain.md" == path_for "/p/" "2026-01-02" " Ids " "mem_123456"
            then ok (record proposal {
              body = newlines (String.◌++◌ (rstrip (strip "Use UUIDs.\n")) "\n");
            })
            else stored (one_header proposal) directory "/p/plain.md"))
propose_memory-stored_example =
    propose_memory-stored (one_header proposal) " Ids " "Use UUIDs.\n" ("db" ∷ []) "agent" "/p/"
      "2026-01-02" "mem_123456" "2026-01-02T10:00" "/p/plain.md" directory proposal-IsYaml
