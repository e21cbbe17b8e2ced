-- ===== src/Timeline/Bracket/Memory.antt =====
-- What `emit_timeline` sends, as the in-memory sink records it.
use mathlib.Core.List.{append-nil, append_assoc}
use lv_dcp.Base.{
  ℕ, String, ◌≡◌, refl, ap, ◌∙◌, Bool, true, false, Option, none, some, List, [], ◌∷◌, ◌++◌, keep,
  All, All-append, if◌then◌else◌, inl, inr, collect, get, sorted, Bool-cases, ◌==◌,
}
use lv_dcp.Timeline.Events.{
  EventType, added, modified, removed, moved, renamed, other, TimelineEvent, SymbolSnapshot,
  AstSnapshot,
}
use lv_dcp.Timeline.Differ.{
  Stamp, seen_once, seen_twice, loop_added, loop_removed, loop_both, diff_ast_snapshots,
}
use lv_dcp.Timeline.Rename.{Matcher, RenameEdge, pair_renames}
use lv_dcp.Timeline.Sinks.{Stats, memory_sink, MemoryState}
use lv_dcp.Timeline.Bracket.{dispatch, dispatch_all, rename_all, count_edge, emit_timeline}
use lv_dcp.Timeline.Bracket.Counts.{is_sent, bump, tally, tally_edges, stats_of, tally-eq-stats_of}

abbrev pub sent : List TimelineEvent → List TimelineEvent
sent = keep (λ (e : TimelineEvent). is_sent e.event_type)

memory-dispatch :
    (ev : TimelineEvent) (t : EventType) (s : MemoryState) (stats : Stats)
    → dispatch memory_sink ev t s stats
      ≡ some (record s { events = s.events ++ (if is_sent t then ev ∷ [] else []) }, bump t stats)
memory-dispatch ev added s stats = refl
memory-dispatch ev modified s stats = refl
memory-dispatch ev removed s stats = refl
memory-dispatch ev moved s stats = refl
memory-dispatch ev renamed s stats = rw append-nil
memory-dispatch ev (other n) s stats = rw append-nil

sent-cons :
    (xs : List TimelineEvent) (e : TimelineEvent) (b : Bool) (ys : List TimelineEvent)
    → (xs ++ (if b then e ∷ [] else [])) ++ ys ≡ xs ++ (if b then e ∷ ys else ys)
sent-cons xs e true ys = append_assoc xs (e ∷ []) ys
sent-cons xs e false ys = rw append-nil

memory-dispatch_all :
    (es : List TimelineEvent) (s : MemoryState) (stats : Stats)
    → dispatch_all memory_sink es s stats
      ≡ some (record s { events = s.events ++ sent es }, tally es stats)
memory-dispatch_all [] s stats = rw append-nil
memory-dispatch_all (e ∷ es) s stats = rw (memory-dispatch e e.event_type s stats) (
    memory-dispatch_all es
      (record s { events = s.events ++ (if is_sent e.event_type then e ∷ [] else []) })
      (bump e.event_type stats)
    ∙ ap (λ es'. some (record s { events = es' }, tally es (bump e.event_type stats)))
        (sent-cons s.events e (is_sent e.event_type) (sent es)))

memory-rename_all :
    (root : String) (es : List RenameEdge) (s : MemoryState) (stats : Stats)
    → rename_all memory_sink root es s stats
      ≡ some (record s { edges = s.edges ++ es }, tally_edges es stats)
memory-rename_all root [] s stats = rw append-nil
memory-rename_all root (e ∷ es) s stats =
    memory-rename_all root es (record s { edges = s.edges ++ e ∷ [] })
      (count_edge memory_sink e stats)
    ∙ rw append_assoc

-- What the memory sink holds after a run whose diff gives `edges` and leaves `remaining`.
abbrev pub after_run :
    Stamp → Option String → ℕ → List RenameEdge → List TimelineEvent → MemoryState → MemoryState
after_run stamp commit started_at edges remaining s = record {
  events = s.events ++ remaining;
  edges = s.edges ++ edges;
  begins =
      s.begins
      ++ record { project_root = stamp.project_root; commit_sha = commit; started_at = started_at }
        ∷ [];
  ends =
      s.ends
      ++ record {
        project_root = stamp.project_root;
        commit_sha = commit;
        stats = stats_of remaining edges;
      }
        ∷ [];
}

abbrev pub IsSent : TimelineEvent → Type 0
IsSent e = is_sent e.event_type ≡ true

abbrev pub AllSent : List TimelineEvent → Type 0
AllSent = All IsSent

AllSent-sent : (es : List TimelineEvent) → AllSent es → sent es ≡ es
AllSent-sent [] h = refl
AllSent-sent (e ∷ es) h = rw h.0 (ap (λ xs. e ∷ xs) (AllSent-sent es h.1))

AllSent-keep :
    (p : TimelineEvent → Bool) (es : List TimelineEvent) → AllSent es → AllSent (keep p es)
AllSent-keep p [] h = tt
AllSent-keep p (e ∷ es) h = elim (Bool-cases (p e)) [
  | inl in' ↦ rw in' (h.0, AllSent-keep p es h.1)
  | inr out ↦ rw out (AllSent-keep p es h.1)
]

AllSent-collect :
    (f : String → List TimelineEvent) (ids : List String)
    → ((k : String) → AllSent (f k))
    → AllSent (collect f ids)
AllSent-collect f [] h = tt
AllSent-collect f (k ∷ ids) h =
    All-append IsSent (f k) (collect f ids) (h k) (AllSent-collect f ids h)

module _ (stamp : Stamp) (commit : Option String) where
  seen_once-AllSent :
      (t : EventType) (o : Option SymbolSnapshot)
      → is_sent t ≡ true
      → AllSent (seen_once stamp commit t o)
  seen_once-AllSent t none h = tt
  seen_once-AllSent t (some s) h = (h, tt)

  seen_twice-AllSent : (p c : Option SymbolSnapshot) → AllSent (seen_twice stamp commit p c)
  seen_twice-AllSent none c = tt
  seen_twice-AllSent (some p) none = tt
  seen_twice-AllSent (some p) (some c) = elim (Bool-cases (p.content_hash == c.content_hash)) [
    | inr edited ↦ rw edited (refl, tt)
    | inl same ↦ elim (Bool-cases (p.file_path == c.file_path)) [
      | inl still ↦ rw (same, still) tt
      | inr away ↦ rw (same, away) (refl, tt)
    ]
  ]

diff-AllSent :
    (prev curr : AstSnapshot) (stamp : Stamp) → AllSent (diff_ast_snapshots prev curr stamp)
unfolding diff_ast_snapshots
diff-AllSent prev curr stamp =
    All-append IsSent (loop_added prev curr stamp)
      (loop_removed prev curr stamp ++ loop_both prev curr stamp)
      (AllSent-collect _ (sorted _)
        λ k. seen_once-AllSent stamp curr.commit_sha added (get k curr.symbols) refl)
      (All-append IsSent (loop_removed prev curr stamp) (loop_both prev curr stamp)
        (AllSent-collect _ (sorted _)
          λ k. seen_once-AllSent stamp curr.commit_sha removed (get k prev.symbols) refl)
        (AllSent-collect _ (sorted _)
          λ k. seen_twice-AllSent stamp curr.commit_sha (get k prev.symbols) (get k curr.symbols)))

-- The events that `pair_renames` leaves of a diff all go to a sink.
pub remaining-AllSent :
    (m : Matcher) (threshold : ℕ) (prev curr : AstSnapshot) (stamp : Stamp)
    → AllSent (pair_renames m threshold (diff_ast_snapshots prev curr stamp)).1
unfolding pair_renames
remaining-AllSent m threshold prev curr stamp =
    let events = diff_ast_snapshots prev curr stamp in
    let all = diff-AllSent prev curr stamp in
    All-append IsSent (keep _ events) _ (AllSent-keep _ events all) (
      All-append IsSent (keep _ (keep _ events)) _ (AllSent-keep _ _ (AllSent-keep _ events all))
        (AllSent-keep _ _ (AllSent-keep _ events all)))

-- A run over the in-memory sink always succeeds: the sink gets one begin, then each event that the
-- rename pairing leaves of the diff and each edge, in their orders, and one end with the stats that
-- are returned, which count the events of each type and the confirmed and the candidate edges.
pub emit_timeline-memory :
    (m : Matcher) (threshold : ℕ) (stamp : Stamp) (commit : Option String) (prev curr : AstSnapshot)
    (started_at : ℕ) (s : MemoryState)
    → let (edges, remaining) = pair_renames m threshold (diff_ast_snapshots prev curr stamp) in
      emit_timeline memory_sink m threshold stamp commit prev curr started_at s
      ≡ some (after_run stamp commit started_at edges remaining s, stats_of remaining edges)
unfolding emit_timeline
emit_timeline-memory m threshold stamp commit prev curr started_at s =
    let (edges, remaining) = pair_renames m threshold (diff_ast_snapshots prev curr stamp) in
    rw (memory-dispatch_all remaining) (
      rw (memory-rename_all stamp.project_root edges) (
        rw (
          AllSent-sent remaining (remaining-AllSent m threshold prev curr stamp),
          tally-eq-stats_of remaining edges,
        )))
