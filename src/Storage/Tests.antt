-- ===== src/Storage/Tests.antt =====
-- Runs of the cache's operations.
use lv_dcp.Base.{ℕ, contains, ◌≡◌, refl, true, false, none, some, [], ◌∷◌, String}
use lv_dcp.Storage.{
  File, Symbol, SqliteCache, insert_symbols, replace_symbols, insert_relations, replace_relations,
  delete_file,
}
use lv_dcp.Storage.Migrate.{
  migrate, row, broken, corrupt, Database, with_version, version_after, tables_after,
  migrate-git_stats,
}

program : Unit {0}
unfolding insert_symbols replace_symbols insert_relations replace_relations delete_file migrate
program = tt

abbrev file : String → File
file path = record {
  path = path;
  content_hash = "h";
  size_bytes = 1;
  language = "python";
  role = "source";
  is_generated = false;
  is_binary = false;
  has_secrets = false;
}

abbrev symbol : String → String → Symbol
symbol path fq_name = record {
  name = fq_name;
  fq_name = fq_name;
  symbol_type = "function";
  file_path = path;
  start_line = 1;
  end_line = 2;
  parent_fq_name = none;
  signature = none;
  docstring = none;
}

abbrev cache : SqliteCache
cache = record {
  files = file "a.py" ∷ file "b.py" ∷ [];
  symbols = symbol "a.py" "main" ∷ [];
  relations = [];
  git_stats = [];
}

-- A symbol of the same full name in another file takes the place of the first.
test_same_name :
    replace_symbols "b.py" (symbol "b.py" "main" ∷ []) cache
    ≡ some (record cache { symbols = symbol "b.py" "main" ∷ [] })
unfolding program
test_same_name = refl

test_foreign_key : replace_symbols "c.py" (symbol "c.py" "main" ∷ []) cache ≡ none
unfolding program
test_foreign_key = refl

test_cascade : (delete_file "a.py" cache).symbols ≡ []
unfolding program
test_cascade = refl

test_corrupt :
    migrate broken (record { user_version = 4; tables = []; has_secrets_column = true }) ≡ corrupt
unfolding program
test_corrupt = refl

migrate-git_stats_example :
    (let db : Database = record {
      user_version = 2;
      tables = "files" ∷ [];
      has_secrets_column = false;
    } in
      let opened = λ (v : ℕ). migrate (row "ok") (with_version v db) in
      ((version_after (opened 0) ≡ 4) × (contains "git_stats" (tables_after (opened 0)) ≡ true))
      × (((version_after (opened 3) ≡ 4) × (contains "git_stats" (tables_after (opened 3)) ≡ true))
          × ((version_after (opened 2) ≡ 4)
              × (contains "git_stats" (tables_after (opened 2)) ≡ false))))
migrate-git_stats_example =
    migrate-git_stats
      (record { user_version = 2; tables = "files" ∷ []; has_secrets_column = false })
