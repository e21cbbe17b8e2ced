-- ===== src/Timeline/Bracket.antt =====
-- libs/symbol_timeline/scan_bracket.py. The log line at the end is not modelled.
pub mod Counts
pub mod Memory
pub mod Sqlite
pub mod Story
use lv_dcp.Base.{ℕ, ◌+◌, String, Option, none, some, List, [], ◌∷◌, if◌then◌else◌}
use lv_dcp.Timeline.Events.{EventType, added, modified, removed, moved, TimelineEvent, AstSnapshot}
use lv_dcp.Timeline.Differ.{Stamp, diff_ast_snapshots}
use lv_dcp.Timeline.Rename.{Matcher, RenameEdge, pair_renames}
use lv_dcp.Timeline.Sinks.{Stats, TimelineSink}

infixl 5 ◌>>=◌
abbrev pub ◌>>=◌ : {A B : Type 0} → Option A → (A → Option B) → Option B
none >>= f = none
some a >>= f = f a

abbrev pub no_stats : Stats
no_stats = record {
  added = 0;
  modified = 0;
  removed = 0;
  moved = 0;
  renamed = 0;
  renamed_candidate = 0;
}

module _ {S : Type 0} (sink : TimelineSink S) where
  -- The body of the first loop. A type that no branch names is passed over.
  abbrev pub dispatch : TimelineEvent → EventType → S → Stats → Option (S × Stats)
  dispatch ev added s stats = do
    s' ← sink.on_added ev s
    some (s', record stats { added = stats.added + 1 })
  dispatch ev modified s stats = do
    s' ← sink.on_modified ev s
    some (s', record stats { modified = stats.modified + 1 })
  dispatch ev removed s stats = do
    s' ← sink.on_removed ev s
    some (s', record stats { removed = stats.removed + 1 })
  dispatch ev moved s stats = do
    s' ← sink.on_moved ev s
    some (s', record stats { moved = stats.moved + 1 })
  dispatch ev _ s stats = some (s, stats)

  abbrev pub dispatch_all : List TimelineEvent → S → Stats → Option (S × Stats)
  dispatch_all [] s stats = some (s, stats)
  dispatch_all (ev ∷ rest) s stats = do
    (s', stats') ← dispatch ev ev.event_type s stats
    dispatch_all rest s' stats'

  -- The body of the second loop.
  abbrev pub count_edge : RenameEdge → Stats → Stats
  count_edge edge stats =
      if edge.is_candidate
      then record stats { renamed_candidate = stats.renamed_candidate + 1 }
      else record stats { renamed = stats.renamed + 1 }

  abbrev pub rename_all : String → List RenameEdge → S → Stats → Option (S × Stats)
  rename_all root [] s stats = some (s, stats)
  rename_all root (edge ∷ rest) s stats = do
    s' ← sink.on_renamed edge root s
    rename_all root rest s' (count_edge edge stats)

  unfoldable pub emit_timeline :
      Matcher → ℕ → Stamp → Option String → AstSnapshot → AstSnapshot → ℕ → S → Option (S × Stats)
  emit_timeline m threshold stamp commit prev curr started_at s = do
    begun ← sink.on_scan_begin stamp.project_root commit started_at s
    let (edges, remaining) = pair_renames m threshold (diff_ast_snapshots prev curr stamp)
    (sent, counted) ← dispatch_all remaining begun no_stats
    (linked, stats) ← rename_all stamp.project_root edges sent counted
    ended ← sink.on_scan_end stamp.project_root commit stats linked
    some (ended, stats)
