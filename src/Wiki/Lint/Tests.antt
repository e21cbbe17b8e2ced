-- ===== src/Wiki/Lint/Tests.antt =====
-- Runs of the checks of libs/wiki/lint.py.
use lv_dcp.Base.{String, ◌≡◌, refl, ◌↔◌, none, some, List, [], ◌∷◌, map}
use lv_dcp.Wiki.{wiki_filename}
use lv_dcp.Wiki.Lint.Clean.{IsClean, lint_wiki-IsClean}
use lv_dcp.Wiki.Lint.{Article, Cache, entry_of_line, lint_wiki}

test_entry : entry_of_line "- [libs-core](modules/libs-core.md) and more" ≡ some "libs-core"
unfolding entry_of_line
test_entry = refl

test_no_name : entry_of_line "- [](modules/x.md)" ≡ none
unfolding entry_of_line
test_no_name = refl

-- The name goes on to the first bracket that a link follows.
test_brackets : entry_of_line "- [a](b](modules/x)" ≡ some "a](b"
unfolding entry_of_line
test_brackets = refl

abbrev tidy : Cache
tidy = record { wiki_rows = []; paths = "libs/core/a.py" ∷ "libs/core/b.py" ∷ [] }

abbrev listed : List String
listed = "# Wiki" ∷ "- [libs-core](modules/libs-core.md)" ∷ []

abbrev core_article : List Article
core_article = record { stem = "libs-core"; size = 400 } ∷ []

run_tidy : lint_wiki (some tidy) core_article listed ≡ []
unfolding lint_wiki
run_tidy = refl

lint_wiki-IsClean_example :
    (lint_wiki (some tidy) core_article listed ≡ []) ↔ IsClean tidy core_article listed
lint_wiki-IsClean_example = lint_wiki-IsClean tidy core_article listed

test_readme_file : wiki_filename "README.md" ≡ "modules/README.md"
unfolding wiki_filename
test_readme_file = refl

-- The article of a module at the root whose name ends in ".md" stands where `wiki_filename` puts it,
-- and is reported as one of no module, and then as missing.
run_readme :
    map {B = String}
      (λ i. i.module_path)
      (lint_wiki
        (some (record { wiki_rows = []; paths = "README.md" ∷ [] }))
        (record { stem = "README"; size = 400 } ∷ [])
        ("- [README](modules/README.md)" ∷ []))
    ≡ "README" ∷ "README.md" ∷ []
unfolding lint_wiki
run_readme = refl
