-- ===== src/Storage/Migrate.antt =====
-- `migrate` and `_check_integrity` of libs/storage/sqlite_cache.py: what is done with a database of
-- each schema version. What `PRAGMA quick_check` gives is an argument, and of a database its version
-- and its tables are kept, with whether the table files has the column has_secrets; a table that is
-- there has the other columns that the source gives it.
use lv_dcp.Base.{
  ℕ, zero, suc, String, ◌==◌, eq_iff, ◌≡◌, refl, Bool, true, false, not, ◌&&◌, inl, inr, ◌||◌, List,
  [], ◌∷◌, ◌++◌, contains, contains-append, Bool-cases, arith, ◌∙◌, if◌then◌else◌,
}

abbrev pub schema_version : ℕ
schema_version = 4

-- What `quick_check` gives: DatabaseError, no row, or the text of the first row.
pub data Check : Type 0 where
  broken : Check
  no_rows : Check
  row : String → Check

pub record Database : Type 0 where
  pub user_version : ℕ
  pub tables : List String
  pub has_secrets_column : Bool

-- CacheCorruptError, RuntimeError for a version, sqlite3.OperationalError, or the database after the
-- call.
pub data Migrated : Type 0 where
  corrupt : Migrated
  operational_error : Migrated
  unsupported : ℕ → Migrated
  ready : Database → Migrated

abbrev pub is_intact : Check → Bool
is_intact broken = false
is_intact no_rows = false
is_intact (row text) = text == "ok"

-- CREATE TABLE IF NOT EXISTS
abbrev pub create_table : String → Database → Database
create_table table db =
    if contains table db.tables then db else record db { tables = db.tables ++ (table ∷ []) }

abbrev pub create_tables : List String → Database → Database
create_tables [] db = db
create_tables (table ∷ more) db = create_tables more (create_table table db)

abbrev pub set_version : Database → Database
set_version db = record db { user_version = schema_version }

abbrev pub schema_tables : List String
schema_tables = "files" ∷ "symbols" ∷ "relations" ∷ "retrieval_traces" ∷ "git_stats" ∷ []

abbrev pub ensure_wiki_table : Database → Database
ensure_wiki_table = create_table "wiki_state"

abbrev pub migrate_v3_to_v4 : Database → Database
migrate_v3_to_v4 db = set_version (create_table "git_stats" db)

-- ALTER TABLE files ADD COLUMN has_secrets: there is such a table, and it has no such column.
abbrev pub can_add_column : Database → Bool
can_add_column db = contains "files" db.tables && not db.has_secrets_column

abbrev pub migrate_v2_to_v3 : Database → Migrated
migrate_v2_to_v3 db =
    if can_add_column db
    then ready
        (set_version (create_table "retrieval_traces" (record db { has_secrets_column = true })))
    else operational_error

-- The schema's script: a table files that is there keeps its columns.
abbrev pub apply_schema : Database → Database
apply_schema db = record (create_tables schema_tables db) {
  has_secrets_column = if contains "files" db.tables then db.has_secrets_column else true;
}

-- The branches on the version. A version above the schema's is left as it is.
abbrev pub migrate_from : ℕ → Database → Migrated
migrate_from zero db = ready (ensure_wiki_table (set_version (apply_schema db)))
migrate_from (suc zero) db = unsupported 1
migrate_from (suc (suc zero)) db = migrate_v2_to_v3 db
migrate_from (suc (suc (suc zero))) db = ready (migrate_v3_to_v4 db)
migrate_from (suc (suc (suc (suc zero)))) db = ready (ensure_wiki_table db)
migrate_from (suc (suc (suc (suc (suc n))))) db = ready db

unfoldable pub migrate : Check → Database → Migrated
migrate check db = if is_intact check then migrate_from db.user_version db else corrupt

contains-create_table :
    (k table : String) (db : Database)
    → contains k (create_table table db).tables ≡ (contains k db.tables || k == table)
contains-create_table k table db =
    ground (arith, contains-append k db.tables (table ∷ []), eq_iff k table)

abbrev pub with_version : ℕ → Database → Database
with_version v db = record db { user_version = v }

-- What is left; nothing where it raised.
abbrev pub tables_after : Migrated → List String
tables_after (ready db) = db.tables
tables_after _ = []

abbrev pub version_after : Migrated → ℕ
version_after (ready db) = db.user_version
version_after _ = 0

-- A table has the columns of the schema here, but for has_secrets, which an older one may lack.
-- An intact cache of version 0 or 3 is made one of the schema's version, and then has the table of
-- the git statistics. One of version 2 raises unless it has a table files without has_secrets; then
-- it is made one of the schema's version too, but has that table only if it was there before.
pub migrate-git_stats :
    (db : Database)
    → (let opened = λ (v : ℕ). migrate (row "ok") (with_version v db) in
        ((version_after (opened 0) ≡ 4) × (contains "git_stats" (tables_after (opened 0)) ≡ true))
        × (((version_after (opened 3) ≡ 4)
              × (contains "git_stats" (tables_after (opened 3)) ≡ true))
            × ((version_after (opened 2) ≡ (if can_add_column db then 4 else 0))
                × (contains "git_stats" (tables_after (opened 2))
                    ≡ (can_add_column db && contains "git_stats" db.tables)))))
unfolding migrate
migrate-git_stats db =
    ((kept_empty, from_empty), ((kept_third, from_third), (kept_second, from_second)))
  where
    versioned :
        (table : String) (d : Database) → (create_table table d).user_version ≡ d.user_version
    versioned table d = ground (arith, Bool-cases (contains table d.tables))

    kept_empty : version_after (migrate_from 0 (with_version 0 db)) ≡ 4
    kept_empty = versioned "wiki_state" (set_version (apply_schema (with_version 0 db)))

    from_empty : contains "git_stats" (tables_after (migrate_from 0 (with_version 0 db))) ≡ true
    from_empty =
        let before =
          create_tables ("files" ∷ "symbols" ∷ "relations" ∷ "retrieval_traces" ∷ [])
            (with_version 0 db) in
        contains-create_table "git_stats" "wiki_state"
          (set_version (apply_schema (with_version 0 db)))
        ∙ ground (arith, contains-create_table "git_stats" "git_stats" before)

    kept_third : version_after (migrate_from 3 (with_version 3 db)) ≡ 4
    kept_third = refl

    from_third : contains "git_stats" (tables_after (migrate_from 3 (with_version 3 db))) ≡ true
    from_third = contains-create_table "git_stats" "git_stats" (with_version 3 db) ∙ ground arith

    kept_second :
        version_after (migrate_from 2 (with_version 2 db)) ≡ (if can_add_column db then 4 else 0)
    kept_second = elim (Bool-cases (can_add_column db)) [
      | inl can ↦ rw can refl
      | inr cannot ↦ rw cannot refl
    ]

    from_second :
        contains "git_stats" (tables_after (migrate_from 2 (with_version 2 db)))
        ≡ (can_add_column db && contains "git_stats" db.tables)
    from_second = elim (Bool-cases (can_add_column db)) [
      | inl can ↦ rw can (
          contains-create_table "git_stats" "retrieval_traces"
            (record (with_version 2 db) { has_secrets_column = true })
          ∙ ground arith)
      | inr cannot ↦ rw cannot refl
    ]
