-- ===== src/Timeline/Bracket/Counts.antt =====
-- What the counters of `emit_timeline` come to.
use lv_dcp.Base.{◌+◌, ◌≡◌, refl, ap, ◌∙◌, Bool, true, false, not, List, [], ◌∷◌, arith, count_if}
use lv_dcp.Timeline.Events.{
  EventType, added, modified, removed, moved, TimelineEvent, is_added, is_modified, is_removed,
  is_moved,
}
use lv_dcp.Timeline.Rename.{RenameEdge}
use lv_dcp.Timeline.Sinks.{Stats, memory_sink}
use lv_dcp.Timeline.Bracket.{no_stats, count_edge}

-- A type that a sink has a method for.
abbrev pub is_sent : EventType → Bool
is_sent added = true
is_sent modified = true
is_sent removed = true
is_sent moved = true
is_sent _ = false

abbrev pub bump : EventType → Stats → Stats
bump added s = record s { added = s.added + 1 }
bump modified s = record s { modified = s.modified + 1 }
bump removed s = record s { removed = s.removed + 1 }
bump moved s = record s { moved = s.moved + 1 }
bump _ s = s

abbrev pub tally : List TimelineEvent → Stats → Stats
tally [] s = s
tally (e ∷ es) s = tally es (bump e.event_type s)

abbrev pub tally_edges : List RenameEdge → Stats → Stats
tally_edges [] s = s
tally_edges (e ∷ es) s = tally_edges es (count_edge memory_sink e s)

-- The stats of a run: how many events of each type, and how many edges of each kind.
abbrev pub stats_of : List TimelineEvent → List RenameEdge → Stats
stats_of es edges = record {
  added = count_if (λ (e : TimelineEvent). is_added e.event_type) es;
  modified = count_if (λ (e : TimelineEvent). is_modified e.event_type) es;
  removed = count_if (λ (e : TimelineEvent). is_removed e.event_type) es;
  moved = count_if (λ (e : TimelineEvent). is_moved e.event_type) es;
  renamed = count_if (λ (e : RenameEdge). not e.is_candidate) edges;
  renamed_candidate = count_if (λ (e : RenameEdge). e.is_candidate) edges;
}

abbrev plus : Stats → Stats → Stats
plus a b = record {
  added = a.added + b.added;
  modified = a.modified + b.modified;
  removed = a.removed + b.removed;
  moved = a.moved + b.moved;
  renamed = a.renamed + b.renamed;
  renamed_candidate = a.renamed_candidate + b.renamed_candidate;
}

bump-plus :
    (e : TimelineEvent) (t : EventType) (es : List TimelineEvent) (s : Stats)
    → e.event_type ≡ t
    → plus (bump t s) (stats_of es []) ≡ plus s (stats_of (e ∷ es) [])
bump-plus e added es s h = ground arith
bump-plus e _ es s h = ground arith

tally-plus : (es : List TimelineEvent) (s : Stats) → tally es s ≡ plus s (stats_of es [])
tally-plus [] s = ground arith
tally-plus (e ∷ es) s = tally-plus es (bump e.event_type s) ∙ bump-plus e e.event_type es s refl

tally_edges-plus : (es : List RenameEdge) (s : Stats) → tally_edges es s ≡ plus s (stats_of [] es)
tally_edges-plus [] s = ground arith
tally_edges-plus (e ∷ es) s = tally_edges-plus es (count_edge memory_sink e s) ∙ ground arith

pub tally-eq-stats_of :
    (es : List TimelineEvent) (edges : List RenameEdge)
    → tally_edges edges (tally es no_stats) ≡ stats_of es edges
tally-eq-stats_of es edges =
    tally_edges-plus edges (tally es no_stats)
    ∙ ap (λ s. plus s (stats_of [] edges)) (tally-plus es no_stats)
    ∙ ground arith
