-- ===== src/Wiki/Settled.antt =====
-- A run of the wiki update of libs/copilot/orchestrator.py, and what the next call of
-- `update_dirty_state` of libs/wiki/state.py and the record of the background refresh make of it.
use lv_dcp.Base.{
  ℕ, ◌+◌, ◌-◌, ◌≤◌, String, eq_iff, ◌≡◌, refl, sym, ap, ◌∙◌, Bool, true, false, none, some, List,
  [], ◌∷◌, ◌++◌, arith, keep, count_if, length, length-keep, All, All-imp, Dict, contains, IsUnique,
  if◌then◌else◌,
}
use lv_dcp.Refresh.{WikiDir, read_last_refresh}
use lv_dcp.Refresh.Runner.{Run, Call, returned, max, main}
use lv_dcp.Refresh.Record.{last_done, main-outcome, outcome}
use lv_dcp.Wiki.{WikiRow, is_dirty, get_dirty_modules, hash_of, SourceFile, update_dirty_state}
use lv_dcp.Wiki.Update.{
  Request, Article, Cache, Wiki, request_of, tell, update_one, update_each, update_chosen, chosen,
  wiki_of, run_wiki_update,
}
use lv_dcp.Wiki.Rows.{
  paths, HasHash, IsOnce, All-HasHash, All-keep, dirty-IsUnique, All-IsOnce, settle-hash_of,
  settle-count, settle-others, update_dirty_state-IsUnique,
}
use lv_dcp.Wiki.Again.{update_dirty_state_recorded}

module _ (generate : Request → Article) (cache : Cache) (clock : ℕ → ℕ) (total : ℕ) where
  update_one-hash_of :
      (idx : ℕ) (row : WikiRow) (wiki : Wiki) (p : String)
      → HasHash wiki.rows row
      → hash_of p (update_one generate cache clock total idx row wiki).rows ≡ hash_of p wiki.rows
  update_one-hash_of idx row wiki p h =
      settle-hash_of (clock idx) row (generate (request_of cache row.module_path wiki.articles))
        (tell idx total (some row.module_path) wiki) p h

  update_each-hash_of :
      (idx : ℕ) (rows : List WikiRow) (wiki : Wiki) (p : String)
      → All (HasHash wiki.rows) rows
      → hash_of p (update_each generate cache clock total idx rows wiki).rows ≡ hash_of p wiki.rows
  unfolding update_each
  update_each-hash_of idx [] wiki p all = refl
  update_each-hash_of idx (row ∷ rest) wiki p all =
      let after = update_one generate cache clock total idx row wiki in
      update_each-hash_of (idx + 1) rest after p (
        All-imp (HasHash wiki.rows) (HasHash after.rows) rest
          (λ r h. update_one-hash_of idx row wiki r.module_path all.0 ∙ h) all.1)
      ∙ update_one-hash_of idx row wiki p all.0

  still-IsOnce :
      (idx : ℕ) (row : WikiRow) (wiki : Wiki) (rest : List WikiRow)
      → contains row.module_path (paths rest) ≡ false
      → All (IsOnce wiki.rows) rest
      → All (IsOnce (update_one generate cache clock total idx row wiki).rows) rest
  still-IsOnce idx row wiki [] absent all = tt
  still-IsOnce idx row wiki (r ∷ rest) absent all = (
    settle-others (clock idx) row (generate (request_of cache row.module_path wiki.articles))
          (tell idx total (some row.module_path) wiki) r.module_path
          (ground (
            arith,
            absent,
            eq_iff row.module_path r.module_path,
            eq_iff r.module_path row.module_path,
          ))
        ∙ all.0,
    still-IsOnce idx row wiki rest (ground (arith, absent)) all.1,
  )

  update_each-count :
      (idx : ℕ) (rows : List WikiRow) (wiki : Wiki)
      → IsUnique (paths rows)
      → All (IsOnce wiki.rows) rows
      → (let after = update_each generate cache clock total idx rows wiki in
          after.updated + count_if is_dirty after.rows ≡ wiki.updated + count_if is_dirty wiki.rows)
  unfolding update_each
  update_each-count idx [] wiki u all = refl
  update_each-count idx (row ∷ rest) wiki u all =
      update_each-count (idx + 1) rest (update_one generate cache clock total idx row wiki) u.1
        (still-IsOnce idx row wiki rest u.0 all.1)
      ∙ settle-count (clock idx) row (generate (request_of cache row.module_path wiki.articles))
          (tell idx total (some row.module_path) wiki) all.0

-- No update changes the hash that the table has of a module, whichever articles fail.
run_wiki_update-hash_of :
    (generate : Request → Article) (cache : Cache) (clock : ℕ → ℕ) (all : Bool)
    (rows : List WikiRow) (articles : Dict String) (p : String)
    → IsUnique (paths rows)
    → hash_of p (run_wiki_update generate cache clock all rows articles).rows ≡ hash_of p rows
unfolding run_wiki_update chosen get_dirty_modules
run_wiki_update-hash_of generate cache clock all rows articles p u =
    with_chosen (chosen all rows) (recorded all)
  where
    recorded : (b : Bool) → All (HasHash rows) (chosen b rows)
    recorded true = All-HasHash rows u
    recorded false = All-keep (HasHash rows) rows (All-HasHash rows u)

    with_chosen :
        (rest : List WikiRow)
        → All (HasHash rows) rest
        → hash_of p (update_chosen generate cache clock rest (wiki_of rows articles)).rows
          ≡ hash_of p rows
    with_chosen [] h = refl
    with_chosen (row ∷ rest) h =
        update_each-hash_of generate cache clock (length (row ∷ rest)) 0 (row ∷ rest)
          (wiki_of rows articles) p h

-- The files are grouped again after a run of the wiki update: whatever the run did, no module is
-- marked that the first call had seen with the same files, and the table stays as it is.
pub update_dirty_state-run :
    (digest : String → String) (files : List SourceFile) (generate : Request → Article)
    (cache : Cache) (clock : ℕ → ℕ) (all : Bool) (rows : List WikiRow) (articles : Dict String)
    → IsUnique (paths rows)
    → (let marked = (update_dirty_state digest files rows).0 in
        let after = (run_wiki_update generate cache clock all marked articles).rows in
        update_dirty_state digest files after ≡ (after, 0))
update_dirty_state-run digest files generate cache clock all rows articles u =
    update_dirty_state_recorded digest files rows
      (run_wiki_update generate cache clock all (update_dirty_state digest files rows).0
        articles).rows
      λ p.
        run_wiki_update-hash_of generate cache clock all (update_dirty_state digest files rows).0
          articles p (update_dirty_state-IsUnique digest files rows u)

last_done-append :
    (n : ℕ) (calls : List Call) (call : Call) → last_done n (calls ++ (call ∷ [])) ≡ call.done
last_done-append n [] call = refl
last_done-append n (c ∷ calls) call = last_done-append c.done calls call

-- An update of the dirty modules counts those that got their article, and the others stay dirty: the
-- count and the modules that are dirty afterwards add up to those that were dirty before, which is
-- also what the last progress call tells.
pub run_wiki_update-dirty :
    (generate : Request → Article) (cache : Cache) (clock : ℕ → ℕ) (rows : List WikiRow)
    (articles : Dict String)
    → IsUnique (paths rows)
    → (let after = run_wiki_update generate cache clock false rows articles in
        (after.updated + length (get_dirty_modules after.rows) ≡ length (get_dirty_modules rows))
        × (last_done 0 after.calls ≡ length (get_dirty_modules rows)))
unfolding run_wiki_update chosen get_dirty_modules
run_wiki_update-dirty generate cache clock rows articles u =
    with_dirty (keep is_dirty rows) (dirty-IsUnique rows u) (All-IsOnce rows u)
      (sym (length-keep is_dirty rows))
  where
    with_dirty :
        (rest : List WikiRow)
        → IsUnique (paths rest)
        → All (IsOnce rows) rest
        → count_if is_dirty rows ≡ length rest
        → (let after = update_chosen generate cache clock rest (wiki_of rows articles) in
            (after.updated + length (keep is_dirty after.rows) ≡ length rest)
            × (last_done 0 after.calls ≡ length rest))
    with_dirty [] v once e = (omega (arith, e, length-keep is_dirty rows), refl)
    with_dirty (row ∷ rest) v once e =
        let total = length (row ∷ rest) in
        let after = update_each generate cache clock total 0 (row ∷ rest) (wiki_of rows articles) in
        (
          omega (
            arith,
            e,
            length-keep is_dirty after.rows,
            update_each-count generate cache clock total 0 (row ∷ rest) (wiki_of rows articles) v
                once,
          ),
          last_done-append 0 after.calls (record { done = total; total = total; current = none }),
        )

max-below : (a b n : ℕ) → a ≡ n → b ≤ n → max a b ≡ n
max-below a b n e le = ground (arith, e, le)

-- The record that a background refresh leaves after its update has returned counts every module
-- that was dirty, those included that got no article.
pub main-run_wiki_update :
    (generate : Request → Article) (cache : Cache) (clock : ℕ → ℕ) (rows : List WikiRow)
    (articles : Dict String) (run : Run) (dir : WikiDir)
    → IsUnique (paths rows)
    → run.can_write ≡ true
    → (let after = run_wiki_update generate cache clock false rows articles in
        read_last_refresh (main run after.calls (returned after.updated) dir).0.last
        ≡ some (record {
          completed_at = run.ends;
          exit_code = 0;
          modules_updated = length (get_dirty_modules rows);
          elapsed_seconds = run.ends - run.begins;
          log_tail = none;
        }))
main-run_wiki_update generate cache clock rows articles run dir u can_write =
    let after = run_wiki_update generate cache clock false rows articles in
    let counts = run_wiki_update-dirty generate cache clock rows articles u in
    (main-outcome run after.calls (returned after.updated) dir).1.1
    ∙ ap
        (λ b.
          if b
          then some (outcome run after.calls (returned after.updated))
          else read_last_refresh dir.last)
        can_write
    ∙ ap
        (λ n. some (record {
          completed_at = run.ends;
          exit_code = 0;
          modules_updated = n;
          elapsed_seconds = run.ends - run.begins;
          log_tail = none;
        }))
        (max-below (last_done 0 after.calls) after.updated (length (get_dirty_modules rows))
          counts.1 (omega (arith, counts.0)))
