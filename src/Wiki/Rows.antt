-- ===== src/Wiki/Rows.antt =====
-- The rows of the wiki table in a round of the update of libs/copilot/orchestrator.py.
use lv_dcp.Base.{
  ℕ, ◌+◌, String, ◌==◌, eq_iff, eq_refl, ◌≡◌, refl, ◌∙◌, false, ◌&&◌, some, List, [], ◌∷◌, map,
  arith, keep, count_if, All, Dict, contains, IsUnique, if◌then◌else◌,
}
use lv_dcp.Wiki.{
  WikiRow, dirty_row, current_row, replace_row, mark_dirty, mark_current, compute_module_hash,
  update_module, update_modules, update_dirty_state, group_files, SourceFile, is_dirty, hash_of,
  wiki_filename,
}
use lv_dcp.Wiki.Update.{Article, article, raised, Wiki, settle}
use lv_dcp.Wiki.Again.{hash_of-replace_row}

abbrev pub paths : List WikiRow → List String
paths = map (λ r. r.module_path)

abbrev pub HasHash : List WikiRow → WikiRow → Type 0
HasHash rows r = hash_of r.module_path rows ≡ some r.source_hash

-- How many dirty rows a module has.
abbrev pub dirty_at : String → List WikiRow → ℕ
dirty_at p = count_if (λ r. is_dirty r && r.module_path == p)

abbrev pub IsOnce : List WikiRow → WikiRow → Type 0
IsOnce rows r = dirty_at r.module_path rows ≡ 1

dirty_at-absent :
    (p : String) (rows : List WikiRow) → contains p (paths rows) ≡ false → dirty_at p rows ≡ 0
dirty_at-absent p [] h = refl
dirty_at-absent p (r ∷ rows) h =
    ground (arith, h, dirty_at-absent p rows, eq_iff r.module_path p, eq_iff p r.module_path)

-- What holds of a row in the rest of the table holds in the table.
lift-HasHash :
    (x : WikiRow) (table rows : List WikiRow)
    → contains x.module_path (paths rows) ≡ false
    → All (HasHash table) rows
    → All (HasHash (x ∷ table)) rows
lift-HasHash x table [] h all = tt
lift-HasHash x table (r ∷ rows) h all = (
  ground (arith, h, all.0, eq_iff r.module_path x.module_path, eq_iff x.module_path r.module_path),
  lift-HasHash x table rows (ground (arith, h)) all.1,
)

lift-IsOnce :
    (x : WikiRow) (table rows : List WikiRow)
    → contains x.module_path (paths rows) ≡ false
    → All (IsOnce table) rows
    → All (IsOnce (x ∷ table)) rows
lift-IsOnce x table [] h all = tt
lift-IsOnce x table (r ∷ rows) h all = (
  ground (arith, h, all.0, eq_iff r.module_path x.module_path, eq_iff x.module_path r.module_path),
  lift-IsOnce x table rows (ground (arith, h)) all.1,
)

pub All-HasHash : (rows : List WikiRow) → IsUnique (paths rows) → All (HasHash rows) rows
All-HasHash [] u = tt
All-HasHash (r ∷ rows) u =
    (ground (arith, eq_refl r.module_path), lift-HasHash r rows rows u.0 (All-HasHash rows u.1))

pub absent-keep :
    (p : String) (rows : List WikiRow)
    → contains p (paths rows) ≡ false
    → contains p (paths (keep is_dirty rows)) ≡ false
absent-keep p [] h = refl
absent-keep p (r ∷ rows) h = ground (arith, h, absent-keep p rows)

pub All-keep :
    (P : WikiRow → Type 0) (rows : List WikiRow) → All P rows → All P (keep is_dirty rows)
All-keep P [] all = tt
All-keep P (r ∷ rows) all = ground (arith, all.0, All-keep P rows all.1)

pub dirty-IsUnique :
    (rows : List WikiRow) → IsUnique (paths rows) → IsUnique (paths (keep is_dirty rows))
dirty-IsUnique [] u = tt
dirty-IsUnique (r ∷ rows) u =
    ground (arith, u.0, dirty-IsUnique rows u.1, absent-keep r.module_path rows u.0)

pub All-IsOnce :
    (rows : List WikiRow) → IsUnique (paths rows) → All (IsOnce rows) (keep is_dirty rows)
All-IsOnce [] u = tt
All-IsOnce (r ∷ rows) u = ground (
  arith,
  lift-IsOnce r rows (keep is_dirty rows) (absent-keep r.module_path rows u.0)
      (All-IsOnce rows u.1),
  dirty_at-absent r.module_path rows u.0,
  eq_refl r.module_path,
)

-- A row that is replaced by a current one.
count-replaced :
    (row : WikiRow) (rows : List WikiRow)
    → is_dirty row ≡ false
    → count_if is_dirty (replace_row row rows) + dirty_at row.module_path rows
      ≡ count_if is_dirty rows
count-replaced row [] c = ground (arith, c)
count-replaced row (r ∷ rows) c = ground (arith, count-replaced row rows c)

dirty_at-replaced :
    (p : String) (row : WikiRow) (rows : List WikiRow)
    → is_dirty row ≡ false
    → dirty_at p (replace_row row rows) ≡ (if p == row.module_path then 0 else dirty_at p rows)
dirty_at-replaced p row [] c = ground (arith, c)
dirty_at-replaced p row (r ∷ rows) c = ground (
  arith,
  c,
  dirty_at-replaced p row rows c,
  eq_iff p row.module_path,
  eq_iff r.module_path row.module_path,
  eq_iff r.module_path p,
  eq_iff p r.module_path,
)

-- What a round keeps: the hash of each module, and the sum of the count and the dirty rows; the
-- rows of other modules stay as they are.
module _ (now : ℕ) (row : WikiRow) where
  pub settle-hash_of :
      (result : Article) (wiki : Wiki) (p : String)
      → HasHash wiki.rows row
      → hash_of p (settle now row result wiki).rows ≡ hash_of p wiki.rows
  unfolding mark_current
  settle-hash_of (article text) wiki p h = ground (
    arith,
    h,
    eq_iff p row.module_path,
    hash_of-replace_row p
        (current_row row.module_path (wiki_filename row.module_path) row.source_hash now) wiki.rows,
  )
  settle-hash_of (raised exc) wiki p h = refl

  pub settle-count :
      (result : Article) (wiki : Wiki)
      → IsOnce wiki.rows row
      → (settle now row result wiki).updated + count_if is_dirty (settle now row result wiki).rows
        ≡ wiki.updated + count_if is_dirty wiki.rows
  unfolding mark_current
  settle-count (article text) wiki once = omega (
    arith,
    once,
    count-replaced (current_row row.module_path (wiki_filename row.module_path) row.source_hash now)
        wiki.rows refl,
  )
  settle-count (raised exc) wiki once = refl

  pub settle-others :
      (result : Article) (wiki : Wiki) (p : String)
      → (p == row.module_path) ≡ false
      → dirty_at p (settle now row result wiki).rows ≡ dirty_at p wiki.rows
  unfolding mark_current
  settle-others (article text) wiki p apart =
      dirty_at-replaced p
        (current_row row.module_path (wiki_filename row.module_path) row.source_hash now) wiki.rows
        refl
      ∙ ground (arith, apart)
  settle-others (raised exc) wiki p apart = refl

absent-replaced :
    (p : String) (row : WikiRow) (rows : List WikiRow)
    → (p == row.module_path) ≡ false
    → contains p (paths rows) ≡ false
    → contains p (paths (replace_row row rows)) ≡ false
absent-replaced p row [] apart h = ground (arith, apart)
absent-replaced p row (r ∷ rows) apart h =
    ground (arith, apart, h, absent-replaced p row rows apart)

replace_row-IsUnique :
    (row : WikiRow) (rows : List WikiRow)
    → IsUnique (paths rows)
    → IsUnique (paths (replace_row row rows))
replace_row-IsUnique row [] u = (refl, tt)
replace_row-IsUnique row (r ∷ rows) u = ground (
  arith,
  replace_row-IsUnique row rows u.1,
  λ (apart : (r.module_path == row.module_path) ≡ false).
      absent-replaced r.module_path row rows apart u.0,
)

update_modules-IsUnique :
    (digest : String → String) (modules : Dict (List String)) (state : List WikiRow × ℕ)
    → IsUnique (paths state.0)
    → IsUnique (paths (update_modules digest modules state).0)
unfolding update_modules mark_dirty
update_modules-IsUnique digest [] state u = u
update_modules-IsUnique digest ((m, hashes) ∷ modules) state u =
    update_modules-IsUnique digest modules (update_module digest m hashes state) (
      ground (
        arith,
        u,
        replace_row-IsUnique (dirty_row m (compute_module_hash digest hashes)) state.0 u,
      ))

-- The table keeps one row for a module.
pub update_dirty_state-IsUnique :
    (digest : String → String) (files : List SourceFile) (rows : List WikiRow)
    → IsUnique (paths rows)
    → IsUnique (paths (update_dirty_state digest files rows).0)
unfolding update_dirty_state
update_dirty_state-IsUnique digest files rows u =
    update_modules-IsUnique digest (group_files files []) (rows, 0) u
