-- ===== src/Registry/Tests.antt =====
-- Runs of the registry's prune and restore, and their theorems on them.
use lv_dcp.Base.{String, ◌==◌, ◌≡◌, refl, Bool, true, false, not, none, some, [], ◌∷◌, keep}
use lv_dcp.Registry.{
  ProjectEntry, DaemonConfig, Around, Files, PruneResult, RestoreResult, Policy, load_config,
  audit_registry, plan_prune, prune_stale, restore_from_backup,
}
use lv_dcp.Registry.Undo.{goes, prune_stale-projects, restore-prune}

program : Unit {0}
unfolding audit_registry plan_prune prune_stale restore_from_backup
program = tt

abbrev entry : String → ProjectEntry
entry root = record {
  root = root;
  registered_at_iso = "2026";
  last_scan_at_iso = none;
  last_scan_status = "pending";
}

abbrev Config : Type 0
Config = DaemonConfig Bool

abbrev before : Config
before = record { projects = entry "/old" ∷ entry "/p" ∷ []; settings = true }

-- A file holds the registry as it is; only /p has a cache, with packs.
abbrev around : Around Bool Config
around = record {
  loads = λ c. some c;
  dumps = λ c. c;
  default_settings = false;
  exists = λ root. true;
  cache_exists = λ root. root == "/p";
  count_packs = λ root since. (3, 1);
  name_of = λ root. root;
  is_transient = λ root. root == "/old";
  timestamp = λ ts. none;
  now = 9_000_000;
}

abbrev policy : Policy
policy = record { older_than_days = 30; kind = "transient"; missing_only = false }

abbrev files : Files Config
files = record { config = some before; backup = none }

-- The files after the prune.
abbrev after : Files Config × PruneResult
after = (
  record { config = some (record before { projects = entry "/p" ∷ [] }); backup = some before },
  record { kept = "/p" ∷ []; removed = "/old" ∷ []; applied = true },
)

prunes : prune_stale around policy true files ≡ some after
unfolding program
prunes = refl

test_preview :
    prune_stale around policy false files
    ≡ some (files, record { kept = "/p" ∷ []; removed = "/old" ∷ []; applied = false })
unfolding program
test_preview = refl

test_kind : prune_stale around (record policy { kind = "old" }) true files ≡ none
unfolding program
test_kind = refl

test_no_backup : restore_from_backup around true files ≡ none
unfolding program
test_no_backup = refl

prune_stale-projects_example :
    (done : Files Config × PruneResult) × ((prune_stale around policy true files ≡ some done)
      × (load_config around done.0.config
          ≡ some (record before {
            projects = keep (λ e. not (goes around policy e)) (entry "/old" ∷ entry "/p" ∷ []);
          })))
prune_stale-projects_example =
    prune_stale-projects around (λ c. refl) policy files before refl refl (refl, (refl, tt))

restore-prune_example :
    (final : Files Config × RestoreResult) × ((restore_from_backup around true after.0 ≡ some final)
      × ((load_config around final.0.config ≡ some before) × (final.0.backup ≡ some before)))
restore-prune_example =
    restore-prune around (λ c. refl) policy files before before after refl refl refl prunes refl
