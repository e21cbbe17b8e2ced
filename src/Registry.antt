-- ===== src/Registry.antt =====
-- libs/status/registry_audit.py and registry_prune.py: the registry of projects, its audit, and the
-- removal of stale entries with a backup. A file is its text, of any type, and none where it is
-- not there; the YAML reader and writer, the disk and the clock are given. Times are seconds.
pub mod Undo
mod Tests
use Prim.Native.String
use lv_dcp.Base.{
  ℕ, zero, suc, ◌-◌, ◌*◌, String, ◌==◌, Bool, true, false, not, ◌&&◌, ◌||◌, Option, none, some,
  List, [], ◌∷◌, map, keep, length, contains, is_inside, ltb, leb, is_some, if◌then◌else◌,
}
use lv_dcp.Timeline.Bracket.{◌>>=◌}

pub record ProjectEntry : Type 0 where
  pub root : String
  pub registered_at_iso : String
  pub last_scan_at_iso : Option String
  pub last_scan_status : String

-- The projects; the other settings stay together as they are.
pub record DaemonConfig (S : Type 0) : Type 0 where
  pub projects : List ProjectEntry
  pub settings : S

pub record ProjectAudit : Type 0 where
  pub name : String
  pub root : String
  pub kind : String
  pub scanned : Bool
  pub packs_7d : ℕ
  pub packs_total : ℕ
  pub last_scan_at_iso : Option String
  pub last_scan_age : Option ℕ
  pub missing : Bool

-- What the calls find around them: `count_packs` counts all packs of a project and those since a
-- time, and `timestamp` reads a time, none for junk.
pub record Around (S T : Type 0) : Type 0 where
  pub loads : T → Option (DaemonConfig S)
  pub dumps : DaemonConfig S → T
  pub default_settings : S
  pub exists : String → Bool
  pub cache_exists : String → Bool
  pub count_packs : String → ℕ → ℕ × ℕ
  pub name_of : String → String
  pub is_transient : String → Bool
  pub timestamp : String → Option ℕ
  pub now : ℕ

-- The registry's file, and the one beside it with the suffix of a backup.
pub record Files (T : Type 0) : Type 0 where
  pub config : Option T
  pub backup : Option T

pub record PruneResult : Type 0 where
  pub kept : List String
  pub removed : List String
  pub applied : Bool

pub record RestoreResult : Type 0 where
  pub applied : Bool
  pub backup_entry_count : ℕ
  pub current_entry_count : ℕ

-- How entries are chosen.
pub record Policy : Type 0 where
  pub older_than_days : ℕ
  pub kind : String
  pub missing_only : Bool

module _ {S T : Type 0} (around : Around S T) where
  -- None where the text is no valid registry.
  abbrev pub load_config : Option T → Option (DaemonConfig S)
  load_config none = some (record { projects = []; settings = around.default_settings })
  load_config (some text) = around.loads text

  -- A time that is missing, junk or 0 is none.
  abbrev pub age_at : Option ℕ → Option ℕ
  age_at none = none
  age_at (some zero) = none
  age_at (some (suc t)) = some (around.now - suc t)

  abbrev pub parse_iso : Option String → Option ℕ
  parse_iso none = none
  parse_iso (some ts) = if ts == "" then none else around.timestamp ts

  abbrev pub packs_of : Bool → String → ℕ × ℕ
  packs_of true root = around.count_packs root (around.now - 604_800)
  packs_of false root = (0, 0)

  abbrev pub audit_entry : ProjectEntry → ProjectAudit
  audit_entry entry =
      let missing = not (around.exists entry.root) in
      let scanned = not missing && around.cache_exists entry.root in
      let (total, recent) = packs_of scanned entry.root in
      record {
        name = around.name_of entry.root;
        root = entry.root;
        kind = if around.is_transient entry.root then "transient" else "real";
        scanned = scanned;
        packs_7d = recent;
        packs_total = total;
        last_scan_at_iso = entry.last_scan_at_iso;
        last_scan_age = age_at (parse_iso entry.last_scan_at_iso);
        missing = missing;
      }

  unfoldable pub audit_registry : Option T → Option (List ProjectAudit)
  audit_registry config = do loaded ← load_config config; some (map audit_entry loaded.projects)

  abbrev pub is_old : ℕ → Option ℕ → Bool
  is_old older_than_days none = true
  is_old older_than_days (some age) = leb (older_than_days * 86_400) age

  abbrev pub is_stale : ℕ → ProjectAudit → Bool
  is_stale older_than_days row =
      if ltb 0 row.packs_total then false else is_old older_than_days row.last_scan_age

  abbrev pub is_missing : ProjectAudit → Bool
  is_missing row = row.missing

  abbrev pub is_candidate : Policy → ProjectAudit → Bool
  is_candidate policy row =
      if policy.missing_only
      then not (around.exists row.root)
      else is_stale policy.older_than_days row && (policy.kind == "all" || policy.kind == row.kind)

  abbrev pub filter_candidates : Policy → List ProjectAudit → List ProjectAudit
  filter_candidates policy = keep (is_candidate policy)

  unfoldable pub plan_prune : Policy → Option T → Option (List ProjectAudit)
  plan_prune policy config = do rows ← audit_registry config; some (filter_candidates policy rows)

  abbrev pub is_kind : String → Bool
  is_kind kind = kind == "transient" || (kind == "real" || kind == "all")

  abbrev pub roots : List ProjectEntry → List String
  roots = map (λ e. e.root)

  abbrev pub write_pruned : Files T → DaemonConfig S → List ProjectEntry → Files T
  write_pruned files config kept = record {
    config = some (around.dumps (record config { projects = kept }));
    backup = files.config;
  }

  -- The branch on `not apply or not removed_entries`.
  abbrev pub pruned :
      Bool
      → Files T
      → DaemonConfig S
      → List ProjectEntry
      → List ProjectEntry
      → Files T × PruneResult
  pruned true files config kept (e ∷ removed) = (
    write_pruned files config kept,
    record { kept = roots kept; removed = roots (e ∷ removed); applied = true },
  )
  pruned _ files config kept removed =
      (files, record { kept = roots kept; removed = roots removed; applied = false })

  -- None for the ValueError of the kind, and where the registry cannot be read.
  unfoldable pub prune_stale : Policy → Bool → Files T → Option (Files T × PruneResult)
  prune_stale policy apply files =
      if is_kind policy.kind
      then (do
        candidates ← plan_prune policy files.config
        config ← load_config files.config
        let to_remove = map (λ row. row.root) candidates
        some (
            pruned apply files config (keep (λ e. not (contains e.root to_remove)) config.projects)
              (keep (λ e. contains e.root to_remove) config.projects)))
      else none

  abbrev pub restored : Bool → Files T → DaemonConfig S → DaemonConfig S → Files T × RestoreResult
  restored apply files backup_config current_config = (
    if apply then record files { config = some (around.dumps backup_config) } else files,
    record {
      applied = apply;
      backup_entry_count = length backup_config.projects;
      current_entry_count = length current_config.projects;
    },
  )

  abbrev pub restore_text : Bool → Files T → Option T → Option (Files T × RestoreResult)
  restore_text apply files none = none
  restore_text apply files (some text) = do
    backup_config ← load_config (some text)
    current_config ← load_config files.config
    some (restored apply files backup_config current_config)

  -- None for the FileNotFoundError, and where a file cannot be read.
  unfoldable pub restore_from_backup : Bool → Files T → Option (Files T × RestoreResult)
  restore_from_backup apply files = restore_text apply files files.backup
