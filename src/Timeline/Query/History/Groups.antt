-- ===== src/Timeline/Query/History/Groups.antt =====
-- The groups of the lookup by name of libs/symbol_timeline/query.py: one for each symbol with a
-- live event whose name fits.
use lv_dcp.Base.{
  String, ◌==◌, eq_iff, Bool, true, List, [], ◌∷◌, ◌≡◌, refl, sym, ap, ◌∙◌, inl, inr, Bool-cases,
  arith, All, All-imp, any, map, keep, length, ltb, suc, contains, distinct, contains-distinct,
}
use lv_dcp.Timeline.Events.{TimelineEvent}
use lv_dcp.Timeline.Store.{Store, insert_by_time}
use lv_dcp.Timeline.Query.History.{
  SymbolCandidate, insert_recent, by_recency, matches, candidates_of, matching_ids,
}

-- A filter that something passes is not empty.
pub keep-cons {ℓ} :
    {A : Type ℓ} (p : A → Bool) (xs : List A)
    → any p xs ≡ true
    → (x : A) × (rest : List A) × (keep p xs ≡ x ∷ rest)
keep-cons p [] h = absurd (ground (arith, h))
keep-cons p (x ∷ xs) h = elim (Bool-cases (p x)) [
  | inl passes ↦ (x, keep p xs, ground (arith, passes))
  | inr fails ↦
      let (y, rest, e) = keep-cons p xs (ground (arith, h, fails)) in
      (y, rest, ground (arith, fails, e))
]

pub insert_by_time-cons :
    (e : TimelineEvent) (es : List TimelineEvent)
    → (f : TimelineEvent) × (rest : List TimelineEvent) × (insert_by_time e es ≡ f ∷ rest)
insert_by_time-cons e [] = (e, [], refl)
insert_by_time-cons e (f ∷ fs) = elim (Bool-cases (ltb f.timestamp e.timestamp)) [
  | inl later ↦ (f, insert_by_time e fs, ground (arith, later))
  | inr first ↦ (e, f ∷ fs, ground (arith, first))
]

pub length-by_recency : (cs : List SymbolCandidate) → length (by_recency cs) ≡ length cs
unfolding by_recency
length-by_recency [] = refl
length-by_recency (c ∷ cs) =
    length-insert c (by_recency cs) ∙ ap (λ n. suc n) (length-by_recency cs)
  where
    length-insert :
        (c : SymbolCandidate) (ds : List SymbolCandidate)
        → length (insert_recent c ds) ≡ suc (length ds)
    length-insert c [] = refl
    length-insert c (d ∷ ds) = ground (arith, length-insert c ds)

pub All-by_recency :
    (P : SymbolCandidate → Type 0) (cs : List SymbolCandidate) → All P cs → All P (by_recency cs)
unfolding by_recency
All-by_recency P [] h = tt
All-by_recency P (c ∷ cs) h = All-insert c (by_recency cs) h.0 (All-by_recency P cs h.1)
  where
    All-insert :
        (c : SymbolCandidate) (ds : List SymbolCandidate)
        → P c
        → All P ds
        → All P (insert_recent c ds)
    All-insert c [] pc h = (pc, tt)
    All-insert c (d ∷ ds) pc h = elim (Bool-cases (ltb c.latest_event_ts d.latest_event_ts)) [
      | inl older ↦ rw older (h.0, All-insert c ds pc h.1)
      | inr newer ↦ rw newer (pc, h)
    ]

module _ (store : Store) (root : String) where
  -- A symbol of a row that fits has a group.
  group-cons :
      (sid : String) (es : List TimelineEvent)
      → contains sid (map (λ e. e.symbol_id) es) ≡ true
      → any (λ (e : TimelineEvent). e.symbol_id == sid) es ≡ true
  group-cons sid [] h = ground (arith, h)
  group-cons sid (e ∷ es) h =
      ground (arith, group-cons sid es, eq_iff sid e.symbol_id, eq_iff e.symbol_id sid)

  pub ids-candidates_of :
      (name : String) (sids : List String)
      → All (λ sid. contains sid (map (λ e. e.symbol_id) (matches store root name)) ≡ true) sids
      → map (λ c. c.symbol_id) (candidates_of store root name sids) ≡ sids
  ids-candidates_of name [] h = refl
  ids-candidates_of name (sid ∷ sids) h =
      let (e, es, group) =
        keep-cons (λ (e : TimelineEvent). e.symbol_id == sid) (matches store root name)
          (group-cons sid (matches store root name) h.0) in
      rw group (ap (λ ids. sid ∷ ids) (ids-candidates_of name sids h.1))

  own : (ys : List String) → All (λ s. contains s ys ≡ true) ys
  own [] = tt
  own (y ∷ ys) = (
    ground (arith, eq_iff y y),
    All-imp (λ s. contains s ys ≡ true) (λ s. contains s (y ∷ ys) ≡ true) ys (λ s h. ground arith)
        (own ys),
  )

  -- The ids that are looked up are those of rows that fit.
  pub matching_ids-own :
      (name : String)
      → All
          (λ sid. contains sid (map (λ e. e.symbol_id) (matches store root name)) ≡ true)
          (matching_ids store root name)
  unfolding matching_ids
  matching_ids-own name =
      let ids = map (λ (e : TimelineEvent). e.symbol_id) (matches store root name) in
      All-imp (λ s. contains s (distinct ids) ≡ true) (λ s. contains s ids ≡ true) (distinct ids)
        (λ s h. sym (contains-distinct s ids) ∙ h) (own (distinct ids))
