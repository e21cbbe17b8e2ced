-- ===== src/Timeline/Bracket/Sqlite.antt =====
-- What a run of libs/symbol_timeline/scan_bracket.py leaves in the SQLite store.
use mathlib.Core.List.{append-nil, append_assoc}
use lv_dcp.Base.{
  ℕ, ◌+◌, String, ◌≡◌, refl, ap, sym, ◌∙◌, true, Option, none, some, List, [], ◌∷◌, ◌++◌, arith,
  length, map,
}
use lv_dcp.Timeline.Events.{
  EventType, added, modified, removed, moved, renamed, other, TimelineEvent, AstSnapshot,
}
use lv_dcp.Timeline.Differ.{Stamp, diff_ast_snapshots}
use lv_dcp.Timeline.Rename.{Matcher, RenameEdge, pair_renames}
use lv_dcp.Timeline.Store.{append_rename_edge}
use lv_dcp.Timeline.Sinks.{Stats, memory_sink, SqliteState, append, edge_row, sqlite_sink}
use lv_dcp.Timeline.Bracket.{
  no_stats, dispatch, dispatch_all, rename_all, count_edge, emit_timeline,
}
use lv_dcp.Timeline.Bracket.Counts.{is_sent, bump, tally, tally_edges, stats_of, tally-eq-stats_of}
use lv_dcp.Timeline.Bracket.Memory.{AllSent, remaining-AllSent}

-- `s` with rows added, and the clock read once for each event.
abbrev pub with_rows : String → List TimelineEvent → List RenameEdge → SqliteState → SqliteState
with_rows root es edges s = record {
  store = record {
    events = s.store.events ++ es;
    snapshots = s.store.snapshots;
    rename_edges = s.store.rename_edges ++ map (edge_row root) edges;
    scan_state = s.store.scan_state;
  };
  reads = s.reads + length es;
}

with_rows-nil : (root : String) (s : SqliteState) → with_rows root [] [] s ≡ s
with_rows-nil root s = ground (arith, append-nil s.store.events, append-nil s.store.rename_edges)

with_rows-cons :
    (root : String) (e : TimelineEvent) (es : List TimelineEvent) (s : SqliteState)
    → with_rows root es [] (with_rows root (e ∷ []) [] s) ≡ with_rows root (e ∷ es) [] s
with_rows-cons root e es s = ground (
  arith,
  append_assoc s.store.events (e ∷ []) es,
  append-nil s.store.rename_edges,
  append-nil (s.store.rename_edges ++ []),
)

with_rows-edge :
    (root : String) (e : RenameEdge) (edges : List RenameEdge) (s : SqliteState)
    → with_rows root [] edges (record s { store = append_rename_edge (edge_row root e) s.store })
      ≡ with_rows root [] (e ∷ edges) s
unfolding append_rename_edge
with_rows-edge root e edges s =
    ground
      (arith, append_assoc s.store.rename_edges (edge_row root e ∷ []) (map (edge_row root) edges))

with_rows-with_rows :
    (root : String) (es : List TimelineEvent) (edges : List RenameEdge) (s : SqliteState)
    → with_rows root [] edges (with_rows root es [] s) ≡ with_rows root es edges s
with_rows-with_rows root es edges s =
    ground (arith, append-nil (s.store.events ++ es), append-nil s.store.rename_edges)

module _ (clock : ℕ → ℕ) (root : String) where
  sqlite-dispatch :
      (ev : TimelineEvent) (t : EventType) (s : SqliteState) (stats : Stats)
      → ev.event_type ≡ t
      → is_sent t ≡ true
      → dispatch (sqlite_sink none clock) ev t s stats
        ≡ some (with_rows root (ev ∷ []) [] s, bump t stats)
  unfolding append
  sqlite-dispatch ev added s stats e h = rw (e, append-nil)
  sqlite-dispatch ev modified s stats e h = rw (e, append-nil)
  sqlite-dispatch ev removed s stats e h = rw (e, append-nil)
  sqlite-dispatch ev moved s stats e h = rw (e, append-nil)
  sqlite-dispatch ev renamed s stats e h = cc
  sqlite-dispatch ev (other n) s stats e h = cc

  sqlite-dispatch_all :
      (es : List TimelineEvent) (s : SqliteState) (stats : Stats)
      → AllSent es
      → dispatch_all (sqlite_sink none clock) es s stats
        ≡ some (with_rows root es [] s, tally es stats)
  sqlite-dispatch_all [] s stats h = ap (λ s'. some (s', stats)) (sym (with_rows-nil root s))
  sqlite-dispatch_all (e ∷ es) s stats h = rw (sqlite-dispatch e e.event_type s stats refl h.0) (
      sqlite-dispatch_all es (with_rows root (e ∷ []) [] s) (bump e.event_type stats) h.1
      ∙ ap (λ s'. some (s', tally es (bump e.event_type stats))) (with_rows-cons root e es s))

  sqlite-rename_all :
      (edges : List RenameEdge) (s : SqliteState) (stats : Stats)
      → rename_all (sqlite_sink none clock) root edges s stats
        ≡ some (with_rows root [] edges s, tally_edges edges stats)
  unfolding append_rename_edge
  sqlite-rename_all [] s stats = ap (λ s'. some (s', stats)) (sym (with_rows-nil root s))
  sqlite-rename_all (e ∷ edges) s stats =
      sqlite-rename_all edges (record s { store = append_rename_edge (edge_row root e) s.store })
        (count_edge memory_sink e stats)
      ∙ ap (λ s'. some (s', tally_edges edges (count_edge memory_sink e stats)))
          (with_rows-edge root e edges s)

-- A run over the SQLite sink with no retention window always succeeds: it adds to what is stored, in
-- their orders, each event that the pairing of renames leaves and each of its edges (an edge with the
-- project's root), returns their counts as stats, and leaves the other tables alone. What is stored
-- already is not looked at, so a scan that is retried adds its events and edges again.
pub emit_timeline-sqlite :
    (m : Matcher) (threshold : ℕ) (clock : ℕ → ℕ) (stamp : Stamp) (commit : Option String)
    (prev curr : AstSnapshot) (started_at : ℕ) (s : SqliteState)
    → let (edges, remaining) = pair_renames m threshold (diff_ast_snapshots prev curr stamp) in
      emit_timeline (sqlite_sink none clock) m threshold stamp commit prev curr started_at s
      ≡ some (with_rows stamp.project_root remaining edges s, stats_of remaining edges)
unfolding emit_timeline
emit_timeline-sqlite m threshold clock stamp commit prev curr started_at s =
    let root = stamp.project_root in
    let (edges, remaining) = pair_renames m threshold (diff_ast_snapshots prev curr stamp) in
    rw
      (sqlite-dispatch_all clock root remaining s no_stats
        (remaining-AllSent m threshold prev curr stamp))
      (rw (sqlite-rename_all clock root edges)
        (rw (with_rows-with_rows, tally-eq-stats_of remaining edges)))
