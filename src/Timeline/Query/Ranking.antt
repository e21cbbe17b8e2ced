-- ===== src/Timeline/Query/Ranking.antt =====
-- The sort of the queries by importance and time.
use lv_dcp.Base.{
  ℕ, ◌+◌, String, ◌≡◌, refl, ◌∙◌, ap, Bool, true, false, Option, List, [], ◌∷◌, arith, count_if,
  All, All-imp, if◌then◌else◌, Bool-cases, inl, inr,
}
use lv_dcp.Timeline.Events.{TimelineEvent}
use lv_dcp.Timeline.Store.{insert_by_time, order_by_time}
use lv_dcp.Timeline.Query.{rank, rank_lt, insert_ranked, sort_ranked}

rank_lt_trans : (a b c : ℕ × ℕ) → rank_lt a b ≡ false → rank_lt b c ≡ false → rank_lt a c ≡ false
rank_lt_trans (i, t) (j, u) (k, v) h g = ground arith

rank_lt_asym : (a b : ℕ × ℕ) → rank_lt a b ≡ true → rank_lt b a ≡ false
rank_lt_asym (i, t) (j, u) h = ground arith

module _ (lookup : Option (String → Option ℕ)) where
  -- No event ranks above one that comes before it.
  abbrev pub IsRanked : List TimelineEvent → Type 0
  IsRanked [] = Unit
  IsRanked (e ∷ es) =
      All (λ (f : TimelineEvent). rank_lt (rank lookup e) (rank lookup f) ≡ false) es × IsRanked es

  All-insert_ranked :
      (P : TimelineEvent → Type 0) (e : TimelineEvent) (es : List TimelineEvent)
      → P e
      → All P es
      → All P (insert_ranked lookup e es)
  All-insert_ranked P e [] pe h = (pe, tt)
  All-insert_ranked P e (f ∷ fs) pe h =
      elim (Bool-cases (rank_lt (rank lookup e) (rank lookup f))) [
        | inl below ↦ rw below (h.0, All-insert_ranked P e fs pe h.1)
        | inr above ↦ rw above (pe, h)
      ]

  insert_ranked-IsRanked :
      (e : TimelineEvent) (es : List TimelineEvent)
      → IsRanked es
      → IsRanked (insert_ranked lookup e es)
  insert_ranked-IsRanked e [] h = (tt, tt)
  insert_ranked-IsRanked e (f ∷ fs) h =
      elim (Bool-cases (rank_lt (rank lookup e) (rank lookup f))) [
        | inl below ↦ rw below (
          All-insert_ranked (λ (g : TimelineEvent). rank_lt (rank lookup f) (rank lookup g) ≡ false)
              e fs (rank_lt_asym (rank lookup e) (rank lookup f) below) h.0,
          insert_ranked-IsRanked e fs h.1,
        )
        | inr above ↦ rw above (
          (
            above,
            All-imp _ _ fs
                (λ (g : TimelineEvent) q.
                  rank_lt_trans (rank lookup e) (rank lookup f) (rank lookup g) above q)
                h.0,
          ),
          h,
        )
      ]

  pub sort_ranked-IsRanked : (es : List TimelineEvent) → IsRanked (sort_ranked lookup es)
  unfolding sort_ranked
  sort_ranked-IsRanked [] = tt
  sort_ranked-IsRanked (e ∷ es) =
      insert_ranked-IsRanked e (sort_ranked lookup es) (sort_ranked-IsRanked es)

  count_if-insert_ranked :
      (p : TimelineEvent → Bool) (e : TimelineEvent) (es : List TimelineEvent)
      → count_if p (insert_ranked lookup e es) ≡ (if p e then 1 else 0) + count_if p es
  count_if-insert_ranked p e [] = refl
  count_if-insert_ranked p e (f ∷ fs) =
      elim (Bool-cases (rank_lt (rank lookup e) (rank lookup f))) [
        | inl below ↦ rw below (omega (arith, count_if-insert_ranked p e fs))
        | inr above ↦ rw above refl
      ]

  pub count_if-sort_ranked :
      (p : TimelineEvent → Bool) (es : List TimelineEvent)
      → count_if p (sort_ranked lookup es) ≡ count_if p es
  unfolding sort_ranked
  count_if-sort_ranked p [] = refl
  count_if-sort_ranked p (e ∷ es) =
      count_if-insert_ranked p e (sort_ranked lookup es)
      ∙ ap (λ n. (if p e then 1 else 0) + n) (count_if-sort_ranked p es)

count_if-insert_by_time :
    (p : TimelineEvent → Bool) (e : TimelineEvent) (es : List TimelineEvent)
    → count_if p (insert_by_time e es) ≡ (if p e then 1 else 0) + count_if p es
count_if-insert_by_time p e [] = refl
count_if-insert_by_time p e (f ∷ fs) = ground (arith, count_if-insert_by_time p e fs)

pub count_if-order_by_time :
    (p : TimelineEvent → Bool) (es : List TimelineEvent)
    → count_if p (order_by_time es) ≡ count_if p es
unfolding order_by_time
count_if-order_by_time p [] = refl
count_if-order_by_time p (e ∷ es) =
    count_if-insert_by_time p e (order_by_time es)
    ∙ ap (λ n. (if p e then 1 else 0) + n) (count_if-order_by_time p es)
