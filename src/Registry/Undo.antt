-- ===== src/Registry/Undo.antt =====
-- What a prune of libs/status/registry_prune.py removes, and how a restore undoes it.
use lv_dcp.Base.{
  String, eq_iff, eq_refl, ◌≡◌, refl, sym, ap, ◌∙◌, Bool, true, false, not, some, List, [], ◌∷◌,
  map, arith, keep, contains, All, IsUnique, Bool-cases,
}
use lv_dcp.Storage.Intact.{or_given}
use lv_dcp.Registry.{
  ProjectEntry, DaemonConfig, Around, Files, PruneResult, RestoreResult, Policy, load_config,
  audit_entry, audit_registry, is_candidate, plan_prune, is_kind, roots, write_pruned, pruned,
  prune_stale, restored, restore_text, restore_from_backup,
}

module _ {S T : Type 0} (around : Around S T) where
  abbrev pub goes : Policy → ProjectEntry → Bool
  goes policy e = is_candidate around policy (audit_entry around e)

  abbrev to_remove : Policy → List ProjectEntry → List String
  to_remove policy ps =
      map (λ row. row.root) (keep (is_candidate around policy) (map (audit_entry around) ps))

  to_remove-absent :
      (policy : Policy) (q : String) (ps : List ProjectEntry)
      → contains q (roots around ps) ≡ false
      → contains q (to_remove policy ps) ≡ false
  to_remove-absent policy q [] h = refl
  to_remove-absent policy q (e ∷ ps) h =
      ground (arith, h, to_remove-absent policy q ps, Bool-cases (goes policy e))

  -- Whether an entry's root is among those to remove.
  abbrev Decided : Policy → List String → ProjectEntry → Type 0
  Decided policy removed e = contains e.root removed ≡ goes policy e

  lift-Decided :
      (policy : Policy) (x : ProjectEntry) (table ps : List ProjectEntry)
      → contains x.root (roots around ps) ≡ false
      → All (Decided policy (to_remove policy table)) ps
      → All (Decided policy (to_remove policy (x ∷ table))) ps
  lift-Decided policy x table [] h all = tt
  lift-Decided policy x table (e ∷ ps) h all = (
    ground
        (arith, h, all.0, eq_iff e.root x.root, eq_iff x.root e.root, Bool-cases (goes policy x)),
    lift-Decided policy x table ps (ground (arith, h)) all.1,
  )

  All-Decided :
      (policy : Policy) (ps : List ProjectEntry)
      → IsUnique (roots around ps)
      → All (Decided policy (to_remove policy ps)) ps
  All-Decided policy [] u = tt
  All-Decided policy (e ∷ ps) u = (
    ground
        (arith, to_remove-absent policy e.root ps u.0, eq_refl e.root, Bool-cases (goes policy e)),
    lift-Decided policy e ps ps u.0 (All-Decided policy ps u.1),
  )

  keep-Decided :
      (policy : Policy) (removed : List String) (ps : List ProjectEntry)
      → All (Decided policy removed) ps
      → keep (λ e. not (contains e.root removed)) ps ≡ keep (λ e. not (goes policy e)) ps
  keep-Decided policy removed [] all = refl
  keep-Decided policy removed (e ∷ ps) all =
      ground (arith, all.0, keep-Decided policy removed ps all.1)

  keep-rest :
      (p : ProjectEntry → Bool) (ps : List ProjectEntry)
      → keep p ps ≡ []
      → keep (λ e. not (p e)) ps ≡ ps
  keep-rest p [] h = refl
  keep-rest p (e ∷ ps) h = ground (arith, h, keep-rest p ps, Bool-cases (p e))

  -- The registry after the branch on the removed entries.
  load-pruned :
      ((c : DaemonConfig S) → around.loads (around.dumps c) ≡ some c)
      → (files : Files T) (config : DaemonConfig S) (kept removed : List ProjectEntry)
      → load_config around files.config ≡ some config
      → (removed ≡ [] → kept ≡ config.projects)
      → load_config around (pruned around true files config kept removed).0.config
        ≡ some (record config { projects = kept })
  load-pruned written files config kept [] read same =
      read ∙ ap (λ ps. some (record config { projects = ps })) (sym (same refl))
  load-pruned written files config kept (e ∷ removed) read same =
      written (record config { projects = kept })

  abbrev gone : Policy → DaemonConfig S → ProjectEntry → Bool
  gone policy config e = contains e.root (to_remove policy config.projects)

  prune-known :
      (policy : Policy) (apply : Bool) (files : Files T) (config : DaemonConfig S)
      → is_kind around policy.kind ≡ true
      → load_config around files.config ≡ some config
      → prune_stale around policy apply files
        ≡ some (
            pruned around apply files config
              (keep (λ e. not (gone policy config e)) config.projects)
              (keep (gone policy config) config.projects))
  unfolding prune_stale plan_prune audit_registry
  prune-known policy apply files config allowed read = rw (allowed, read) refl

  -- A prune that is applied leaves in the registry the entries that its policy does not choose, in
  -- their order and with the settings as they were: for a kind that is allowed, a registry that can
  -- be read and lists each root once, and a writer whose text is read back as what was written.
  pub prune_stale-projects :
      ((c : DaemonConfig S) → around.loads (around.dumps c) ≡ some c)
      → (policy : Policy) (files : Files T) (config : DaemonConfig S)
      → is_kind around policy.kind ≡ true
      → load_config around files.config ≡ some config
      → IsUnique (roots around config.projects)
      → (after : Files T × PruneResult) × ((prune_stale around policy true files ≡ some after)
          × (load_config around after.0.config
              ≡ some
                  (record config { projects = keep (λ e. not (goes policy e)) config.projects })))
  prune_stale-projects written policy files config allowed read u =
      let kept = keep (λ e. not (gone policy config e)) config.projects in
      (
        pruned around true files config kept (keep (gone policy config) config.projects),
        (
          prune-known policy true files config allowed read,
          load-pruned written files config kept (keep (gone policy config) config.projects) read
                (keep-rest (gone policy config) config.projects)
              ∙ ap (λ ps. some (record config { projects = ps }))
                  (keep-Decided policy (to_remove policy config.projects) config.projects
                    (All-Decided policy config.projects u)),
        ),
      )

  restore-known :
      (files : Files T) (text : T) (old current : DaemonConfig S)
      → files.backup ≡ some text
      → around.loads text ≡ some old
      → load_config around files.config ≡ some current
      → restore_from_backup around true files ≡ some (restored around true files old current)
  unfolding restore_from_backup
  restore-known files text old current here read now =
      ap (restore_text around true files) here ∙ rw (read, now) refl

  undone :
      ((c : DaemonConfig S) → around.loads (around.dumps c) ≡ some c)
      → (files : Files T) (text : T) (config : DaemonConfig S) (kept removed : List ProjectEntry)
      → files.config ≡ some text
      → around.loads text ≡ some config
      → (let after = pruned around true files config kept removed in
          after.1.applied ≡ true
          → (final : Files T × RestoreResult) × ((restore_from_backup around true after.0
                ≡ some final)
              × ((load_config around final.0.config ≡ some config) × (final.0.backup ≡ some text))))
  undone written files text config kept [] here read applied = absurd (ground (arith, applied))
  undone written files text config kept (e ∷ removed) here read applied =
      let after = write_pruned around files config kept in
      (
        restored around true after config (record config { projects = kept }),
        (
          restore-known after text config (record config { projects = kept }) here read
              (written (record config { projects = kept })),
          (written config, here),
        ),
      )

  -- A restore after a prune that was applied gives the registry back as it was read before, and leaves
  -- the backup in its place: for a kind that is allowed and a writer whose text is read back as what
  -- was written.
  pub restore-prune :
      ((c : DaemonConfig S) → around.loads (around.dumps c) ≡ some c)
      → (policy : Policy) (files : Files T) (text : T) (config : DaemonConfig S)
        (after : Files T × PruneResult)
      → is_kind around policy.kind ≡ true
      → files.config ≡ some text
      → around.loads text ≡ some config
      → prune_stale around policy true files ≡ some after
      → after.1.applied ≡ true
      → (final : Files T × RestoreResult) × ((restore_from_backup around true after.0 ≡ some final)
          × ((load_config around final.0.config ≡ some config) × (final.0.backup ≡ some text)))
  restore-prune written policy files text config after allowed here read given applied =
      let kept = keep (λ e. not (gone policy config e)) config.projects in
      let known =
        prune-known policy true files config allowed (ap (load_config around) here ∙ read) in
      by_result kept (keep (gone policy config) config.projects)
        (ap (or_given after) (sym given ∙ known))
    where
      by_result :
          (kept removed : List ProjectEntry)
          → after ≡ pruned around true files config kept removed
          → (final : Files T × RestoreResult) × ((restore_from_backup around true after.0
                ≡ some final)
              × ((load_config around final.0.config ≡ some config) × (final.0.backup ≡ some text)))
      by_result kept removed same = rw same (
          undone written files text config kept removed here read
            (sym (ap (λ a. a.1.applied) same) ∙ applied))
