-- ===== src/Wiki/Again.antt =====
-- `update_dirty_state` of libs/wiki/state.py, called again with the same files.
use lv_dcp.Base.{
  ℕ, String, ◌==◌, eq_iff, eq_refl, ◌≡◌, refl, ap, ◌∙◌, true, false, Option, none, some, List, [],
  ◌∷◌, ◌++◌, arith, All, Dict, get, keys, contains, IsUnique, put-IsUnique, if◌then◌else◌,
}
use lv_dcp.Wiki.{
  WikiRow, dirty_row, replace_row, mark_dirty, SourceFile, add_file, group_files, hash_of,
  is_same_hash, compute_module_hash, update_module, update_modules, update_dirty_state, module_of,
  or_empty,
}

-- The hash of a module after a row was replaced.
pub hash_of-replace_row :
    (p : String) (row : WikiRow) (rows : List WikiRow)
    → hash_of p (replace_row row rows)
      ≡ (if p == row.module_path then some row.source_hash else hash_of p rows)
hash_of-replace_row p row [] = ground arith
hash_of-replace_row p row (r ∷ rows) = ground (
  arith,
  hash_of-replace_row p row rows,
  eq_iff p row.module_path,
  eq_iff r.module_path row.module_path,
  eq_iff p r.module_path,
)

same_hash : (o : Option String) (h : String) → is_same_hash o h ≡ true → o ≡ some h
same_hash none h e = absurd (ground (arith, e))
same_hash (some g) h e = ground (arith, e, eq_iff g h)

update_module-hash_of :
    (digest : String → String) (p module_path : String) (hashes : List String) (rows : List WikiRow)
    (count : ℕ)
    → hash_of p (update_module digest module_path hashes (rows, count)).0
      ≡ (if p == module_path then some (compute_module_hash digest hashes) else hash_of p rows)
unfolding mark_dirty
update_module-hash_of digest p module_path hashes rows count = ground (
  arith,
  hash_of-replace_row p (dirty_row module_path (compute_module_hash digest hashes)) rows,
  eq_iff p module_path,
  same_hash (hash_of module_path rows) (compute_module_hash digest hashes),
)

update_modules-hash_of :
    (digest : String → String) (p : String) (modules : Dict (List String))
    (state : List WikiRow × ℕ)
    → contains p (keys modules) ≡ false
    → hash_of p (update_modules digest modules state).0 ≡ hash_of p state.0
unfolding update_modules
update_modules-hash_of digest p [] state absent = refl
update_modules-hash_of digest p ((m, hashes) ∷ modules) state absent =
    update_modules-hash_of digest p modules (update_module digest m hashes state)
      (ground (arith, absent))
    ∙ update_module-hash_of digest p m hashes state.0 state.1
    ∙ ground (arith, absent)

-- The rows have the hash of each module.
abbrev pub IsRecorded : (String → String) → List WikiRow → Dict (List String) → Type 0
IsRecorded digest rows = All (λ (entry : String × List String).
    hash_of entry.0 rows ≡ some (compute_module_hash digest entry.1))

IsRecorded-cong :
    (digest : String → String) (rows rows' : List WikiRow) (modules : Dict (List String))
    → ((p : String) → contains p (keys modules) ≡ true → hash_of p rows ≡ hash_of p rows')
    → IsRecorded digest rows' modules
    → IsRecorded digest rows modules
IsRecorded-cong digest rows rows' [] same h = tt
IsRecorded-cong digest rows rows' ((m, hashes) ∷ modules) same h = (
  same m (ground (arith, eq_refl m)) ∙ h.0,
  IsRecorded-cong digest rows rows' modules (λ p p_in. same p (ground (arith, p_in))) h.1,
)

update_modules-IsRecorded :
    (digest : String → String) (modules : Dict (List String)) (state : List WikiRow × ℕ)
    → IsUnique (keys modules)
    → IsRecorded digest (update_modules digest modules state).0 modules
unfolding update_modules
update_modules-IsRecorded digest [] state u = tt
update_modules-IsRecorded digest ((m, hashes) ∷ modules) state u =
    let next = update_module digest m hashes state in
    (
      update_modules-hash_of digest m modules next u.0
          ∙ update_module-hash_of digest m m hashes state.0 state.1
          ∙ ground (arith, eq_refl m),
      update_modules-IsRecorded digest modules next u.1,
    )

update_module_recorded :
    (digest : String → String) (m : String) (hashes : List String) (rows : List WikiRow) (count : ℕ)
    → hash_of m rows ≡ some (compute_module_hash digest hashes)
    → update_module digest m hashes (rows, count) ≡ (rows, count)
update_module_recorded digest m hashes rows count h =
    rw h (ground (arith, eq_refl (compute_module_hash digest hashes)))

update_modules_recorded :
    (digest : String → String) (modules : Dict (List String)) (rows : List WikiRow) (count : ℕ)
    → IsRecorded digest rows modules
    → update_modules digest modules (rows, count) ≡ (rows, count)
unfolding update_modules
update_modules_recorded digest [] rows count h = refl
update_modules_recorded digest ((m, hashes) ∷ modules) rows count h =
    ap (update_modules digest modules) (update_module_recorded digest m hashes rows count h.0)
    ∙ update_modules_recorded digest modules rows count h.1

group_files-IsUnique :
    (files : List SourceFile) (modules : Dict (List String))
    → IsUnique (keys modules)
    → IsUnique (keys (group_files files modules))
unfolding group_files
group_files-IsUnique [] modules u = u
group_files-IsUnique (f ∷ files) modules u = group_files-IsUnique files (add_file f modules) (
    put-IsUnique (module_of f.path)
      (or_empty (get (module_of f.path) modules) ++ (f.content_hash ∷ [])) modules u)

-- The rows after an update have the hash of each module of the files.
pub update_dirty_state-IsRecorded :
    (digest : String → String) (files : List SourceFile) (rows : List WikiRow)
    → IsRecorded digest (update_dirty_state digest files rows).0 (group_files files [])
unfolding update_dirty_state
update_dirty_state-IsRecorded digest files rows =
    update_modules-IsRecorded digest (group_files files []) (rows, 0)
      (group_files-IsUnique files [] tt)

-- Rows that have these hashes, whatever their status, are not touched.
pub update_dirty_state_recorded :
    (digest : String → String) (files : List SourceFile) (rows rows' : List WikiRow)
    → ((p : String) → hash_of p rows' ≡ hash_of p (update_dirty_state digest files rows).0)
    → update_dirty_state digest files rows' ≡ (rows', 0)
unfolding update_dirty_state
update_dirty_state_recorded digest files rows rows' same =
    update_modules_recorded digest (group_files files []) rows' 0 (
      IsRecorded-cong digest rows' (update_dirty_state digest files rows).0 (group_files files [])
        (λ p _. same p) (update_dirty_state-IsRecorded digest files rows))
