-- ===== src/Timeline/Query/History/Found.antt =====
-- When `symbol_timeline` of libs/symbol_timeline/query.py finds a symbol by a part of its name.
use lv_dcp.Base.{
  ℕ, ◌≤◌, String, ◌==◌, eq_iff, Bool, true, false, not, List, [], ◌∷◌, ◌≡◌, refl, sym, ap, ◌∙◌,
  arith, All, any, map, keep, take, length, suc, zero, contains,
}
use lv_dcp.Timeline.Events.{TimelineEvent}
use lv_dcp.Timeline.Store.{Store, is_of, order_by_time, events_for_symbol}
use lv_dcp.Timeline.Query.History.{
  SymbolCandidate, SymbolTimelineResult, looks_like_symbol_id, is_match, insert_recent, by_recency,
  matches, candidates_of, matching_ids, fuzzy_symbol_lookup,
}
use lv_dcp.Timeline.Query.History.Life.{not_known, history_of, of_candidates, symbol_timeline}
use lv_dcp.Timeline.Query.History.Groups.{
  keep-cons, insert_by_time-cons, length-by_recency, All-by_recency, ids-candidates_of,
  matching_ids-own,
}

abbrev pub is_single : List String → Bool
is_single (sid ∷ []) = true
is_single _ = false

abbrev pub is_empty : List String → Bool
is_empty [] = true
is_empty (sid ∷ ids) = false

module _ (store : Store) (root : String) where
  module _ (include_orphaned : Bool) where
    live :
        (name sid : String) (es : List TimelineEvent)
        → contains sid (map (λ e. e.symbol_id) (keep (is_match root name) es)) ≡ true
        → any (is_of root sid include_orphaned) es ≡ true
    live name sid [] h = ground (arith, h)
    live name sid (e ∷ es) h =
        ground (arith, live name sid es, eq_iff sid e.symbol_id, eq_iff e.symbol_id sid)

    -- A symbol with a row that fits has a history.
    history_of-found :
        (name sid : String)
        → contains sid (map (λ e. e.symbol_id) (matches store root name)) ≡ true
        → (history_of store root include_orphaned sid).not_found ≡ false
    unfolding history_of events_for_symbol order_by_time
    history_of-found name sid h =
        let (e, rest, kept) =
          keep-cons (is_of root sid include_orphaned) store.events (live name sid store.events h) in
        let (f, fs, ordered) = insert_by_time-cons e (order_by_time rest) in
        rw kept (rw ordered refl)

    -- What is answered when the ids of the rows that fit are these.
    abbrev pub by_ids : String → ℕ → List String → SymbolTimelineResult
    by_ids name limit [] = not_known name []
    by_ids name limit (sid ∷ []) = history_of store root include_orphaned sid
    by_ids name limit (a ∷ b ∷ ids) = not_known name (fuzzy_symbol_lookup store root name limit)

    two :
        (cs : List SymbolCandidate) (n : ℕ)
        → length cs ≡ suc (suc n)
        → (c : SymbolCandidate) × (d : SymbolCandidate) × (rest : List SymbolCandidate) × (cs
            ≡ c ∷ d ∷ rest)
    two [] n h = absurd (omega (arith, h))
    two (c ∷ []) n h = absurd (omega (arith, h))
    two (c ∷ d ∷ rest) n h = (c, d, rest, refl)

    resolve :
        (name : String) (limit : ℕ) (cs : List SymbolCandidate)
        → fuzzy_symbol_lookup store root name (suc (suc limit))
          ≡ take (suc (suc limit)) (by_recency cs)
        → of_candidates store root include_orphaned name
            (fuzzy_symbol_lookup store root name (suc (suc limit)))
          ≡ by_ids name (suc (suc limit)) (map (λ c. c.symbol_id) cs)
    unfolding by_recency
    resolve name limit [] e = rw e refl
    resolve name limit (c ∷ []) e = rw e refl
    resolve name limit (c ∷ d ∷ cs) e =
        let (x, y, rest, sorted) =
          two (by_recency (c ∷ d ∷ cs)) (length cs) (length-by_recency (c ∷ d ∷ cs)) in
        let found = e ∙ ap (take (suc (suc limit))) sorted in
        ap (of_candidates store root include_orphaned name) found ∙ ap (not_known name) (sym found)

    fuzzy-take :
        (name : String) (limit : ℕ)
        → name == "" ≡ false
        → fuzzy_symbol_lookup store root name limit
          ≡ take limit (by_recency (candidates_of store root name (matching_ids store root name)))
    unfolding fuzzy_symbol_lookup
    fuzzy-take name limit named = rw named refl

    not_found-by_ids :
        (name : String) (limit : ℕ) (ids : List String)
        → All (λ sid. contains sid (map (λ e. e.symbol_id) (matches store root name)) ≡ true) ids
        → (by_ids name limit ids).not_found ≡ not (is_single ids)
    not_found-by_ids name limit [] h = refl
    not_found-by_ids name limit (sid ∷ []) h = history_of-found name sid h.0
    not_found-by_ids name limit (a ∷ b ∷ ids) h = refl

    -- By a text that is not empty and is no id, where at least two candidates are asked for: if exactly one symbol of
    -- the project has a live event whose name the text fits, the answer is the history of that
    -- symbol, and it is found. Else it is not found, has no events, and lists the candidates.
    pub symbol_timeline-by_ids :
        (name : String) (limit : ℕ)
        → looks_like_symbol_id name ≡ false
        → name == "" ≡ false
        → 2 ≤ limit
        → (symbol_timeline store root include_orphaned name limit
            ≡ by_ids name limit (matching_ids store root name))
          × ((symbol_timeline store root include_orphaned name limit).not_found
              ≡ not (is_single (matching_ids store root name)))
    unfolding symbol_timeline
    symbol_timeline-by_ids name zero plain named h = absurd (omega arith)
    symbol_timeline-by_ids name (suc zero) plain named h = absurd (omega arith)
    symbol_timeline-by_ids name (suc (suc limit)) plain named h =
        let ids = matching_ids store root name in
        let answer : symbol_timeline store root include_orphaned name (suc (suc limit))
            ≡ by_ids name (suc (suc limit)) ids =
          rw plain (
            resolve name limit (candidates_of store root name ids)
              (fuzzy-take name (suc (suc limit)) named)
            ∙ ap (by_ids name (suc (suc limit)))
                (ids-candidates_of store root name ids (matching_ids-own store root name))) in
        (
          answer,
          ap (λ r. r.not_found) answer
              ∙ not_found-by_ids name (suc (suc limit)) ids (matching_ids-own store root name),
        )

    All-ids :
        (P : String → Type 0) (cs : List SymbolCandidate)
        → All P (map (λ c. c.symbol_id) cs)
        → All (λ c. P c.symbol_id) cs
    All-ids P [] h = tt
    All-ids P (c ∷ cs) h = (h.0, All-ids P cs h.1)

    first_found :
        (name : String) (cs : List SymbolCandidate)
        → All
            (λ c. contains c.symbol_id (map (λ e. e.symbol_id) (matches store root name)) ≡ true)
            cs
        → (of_candidates store root include_orphaned name (take 1 cs)).not_found
          ≡ is_empty (map (λ c. c.symbol_id) cs)
    first_found name [] h = refl
    first_found name (c ∷ cs) h = history_of-found name c.symbol_id h.0

    is_empty-by_recency :
        (cs : List SymbolCandidate)
        → is_empty (map (λ c. c.symbol_id) (by_recency cs)) ≡ is_empty (map (λ c. c.symbol_id) cs)
    unfolding by_recency
    is_empty-by_recency [] = refl
    is_empty-by_recency (c ∷ cs) = insert_full c (by_recency cs)
      where
        insert_full :
            (c : SymbolCandidate) (ds : List SymbolCandidate)
            → is_empty (map (λ c. c.symbol_id) (insert_recent c ds)) ≡ false
        insert_full c [] = refl
        insert_full c (d ∷ ds) = ground arith

    -- Where only one candidate is asked for, a text that is not empty and is no id finds a symbol as soon as any
    -- symbol has a live event whose name it fits, however many there are.
    pub symbol_timeline-limit_one :
        (name : String)
        → looks_like_symbol_id name ≡ false
        → name == "" ≡ false
        → (symbol_timeline store root include_orphaned name 1).not_found
          ≡ is_empty (matching_ids store root name)
    unfolding symbol_timeline
    symbol_timeline-limit_one name plain named =
        let ids = matching_ids store root name in
        let cs = candidates_of store root name ids in
        let same = ids-candidates_of store root name ids (matching_ids-own store root name) in
        let P =
          λ (s : String). contains s (map (λ e. e.symbol_id) (matches store root name)) ≡ true in
        let known : All P (map (λ c. c.symbol_id) cs) =
          rw same (matching_ids-own store root name) in
        rw plain (
          rw (fuzzy-take name 1 named) (
            first_found name (by_recency cs)
              (All-by_recency (λ c. P c.symbol_id) cs (All-ids P cs known))
            ∙ is_empty-by_recency cs
            ∙ ap is_empty same))
