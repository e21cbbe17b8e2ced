-- ===== src/Timeline/Rename/Choice.antt =====
-- What the inner loop of `pair_renames` picks.
use lv_dcp.Base.{
  ℕ, ◌≤◌, ◌<◌, String, ◌≡◌, refl, false, Option, none, some, List, [], ◌∷◌, arith, ltb, contains,
  All, Bool-cases, inl, inr,
}
use lv_dcp.Timeline.Events.{TimelineEvent}
use lv_dcp.Timeline.Rename.{Matcher, Best, similarity, better, best_of}

module _ (m : Matcher) (rem : TimelineEvent) (consumed : List String) where
  -- The pick is none with score 0, or an event of which `P` holds, not consumed, with its score.
  abbrev pub Picked : (TimelineEvent → Type 0) → ℕ → Option TimelineEvent → Type 0
  Picked P sim none = sim ≡ 0
  Picked P sim (some a) =
      P a × (contains a.symbol_id consumed ≡ false) × (sim ≡ similarity m rem a) × (0 < sim)

  better-Picked :
      (P : TimelineEvent → Type 0) (a : TimelineEvent) (b : Best)
      → P a
      → Picked P b.sim b.add
      → Picked P (better m rem consumed a b).sim (better m rem consumed a b).add
  better-Picked P a b pa h = elim (Bool-cases (contains a.symbol_id consumed)) [
    | inl gone ↦ rw gone h
    | inr free ↦ elim (Bool-cases (ltb b.sim (similarity m rem a))) [
      | inl more ↦ rw (free, more) (pa, free, refl, ground arith)
      | inr less ↦ rw (free, less) h
    ]
  ]

  pub best_of-Picked :
      (P : TimelineEvent → Type 0) (adds : List TimelineEvent) (b : Best)
      → All P adds
      → Picked P b.sim b.add
      → Picked P (best_of m rem consumed adds b).sim (best_of m rem consumed adds b).add
  unfolding best_of
  best_of-Picked P [] b all h = h
  best_of-Picked P (a ∷ adds) b all h =
      best_of-Picked P adds (better m rem consumed a b) all.1 (better-Picked P a b all.0 h)

  -- An added event that is free to be picked scores at most `sim`.
  abbrev pub AtMost : ℕ → TimelineEvent → Type 0
  AtMost sim a = contains a.symbol_id consumed ≡ false → similarity m rem a ≤ sim

  best_of-le : (adds : List TimelineEvent) (b : Best) → b.sim ≤ (best_of m rem consumed adds b).sim
  unfolding best_of
  best_of-le [] b = omega arith
  best_of-le (a ∷ adds) b = ground (arith, best_of-le adds (better m rem consumed a b))

  pub best_of-AtMost :
      (adds : List TimelineEvent) (b : Best) → All (AtMost (best_of m rem consumed adds b).sim) adds
  unfolding best_of
  best_of-AtMost [] b = tt
  best_of-AtMost (a ∷ adds) b = (
    λ free. ground (arith, best_of-le adds (better m rem consumed a b)),
    best_of-AtMost adds (better m rem consumed a b),
  )
