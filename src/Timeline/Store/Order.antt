-- ===== src/Timeline/Store/Order.antt =====
-- `order_by_time` is a stable sort.
use lv_dcp.Base.{
  ℕ, ◌≤◌, ◌≡◌, refl, ◌∙◌, ap, List, [], ◌∷◌, ◌++◌, arith, ltb, leb, keep, All, All-imp,
  if◌then◌else◌, Bool-cases, inl, inr,
}
use mathlib.Core.Bool.{◌&&◌}
use lv_dcp.Timeline.Events.{TimelineEvent}
use lv_dcp.Timeline.Store.{insert_by_time, order_by_time}

-- Oldest first.
abbrev pub IsOrdered : List TimelineEvent → Type 0
IsOrdered [] = Unit
IsOrdered (e ∷ es) = All (λ (f : TimelineEvent). e.timestamp ≤ f.timestamp) es × IsOrdered es

All-insert_by_time :
    (P : TimelineEvent → Type 0) (e : TimelineEvent) (es : List TimelineEvent)
    → P e
    → All P es
    → All P (insert_by_time e es)
All-insert_by_time P e [] pe h = (pe, tt)
All-insert_by_time P e (f ∷ fs) pe h = elim (Bool-cases (ltb f.timestamp e.timestamp)) [
  | inl older ↦ rw older (h.0, All-insert_by_time P e fs pe h.1)
  | inr newer ↦ rw newer (pe, h)
]

insert_by_time-IsOrdered :
    (e : TimelineEvent) (es : List TimelineEvent) → IsOrdered es → IsOrdered (insert_by_time e es)
insert_by_time-IsOrdered e [] h = (tt, tt)
insert_by_time-IsOrdered e (f ∷ fs) h = elim (Bool-cases (ltb f.timestamp e.timestamp)) [
  | inl older ↦ rw older (
    All-insert_by_time (λ (g : TimelineEvent). f.timestamp ≤ g.timestamp) e fs (ground arith) h.0,
    insert_by_time-IsOrdered e fs h.1,
  )
  | inr newer ↦
      let le : e.timestamp ≤ f.timestamp = ground arith in
      rw newer ((le, All-imp _ _ fs (λ g q. omega arith) h.0), h)
]

pub order_by_time-IsOrdered : (es : List TimelineEvent) → IsOrdered (order_by_time es)
unfolding order_by_time
order_by_time-IsOrdered [] = tt
order_by_time-IsOrdered (e ∷ es) =
    insert_by_time-IsOrdered e (order_by_time es) (order_by_time-IsOrdered es)

-- The rows of one time.
abbrev pub at_time : ℕ → List TimelineEvent → List TimelineEvent
at_time t = keep (λ (e : TimelineEvent). leb t e.timestamp && leb e.timestamp t)

at_time-insert_by_time :
    (t : ℕ) (e : TimelineEvent) (es : List TimelineEvent)
    → at_time t (insert_by_time e es) ≡ at_time t (e ∷ es)
at_time-insert_by_time t e [] = refl
at_time-insert_by_time t e (f ∷ fs) = ground (arith, at_time-insert_by_time t e fs)

-- Nothing is lost, added or swapped among rows of one time.
pub at_time-order_by_time :
    (t : ℕ) (es : List TimelineEvent) → at_time t (order_by_time es) ≡ at_time t es
unfolding order_by_time
at_time-order_by_time t [] = refl
at_time-order_by_time t (e ∷ es) =
    at_time-insert_by_time t e (order_by_time es)
    ∙ ap (λ xs. if leb t e.timestamp && leb e.timestamp t then e ∷ xs else xs)
        (at_time-order_by_time t es)

-- A row that is not older than the others comes last.
insert_by_time-snoc :
    (e : TimelineEvent) (es : List TimelineEvent) (n : TimelineEvent)
    → e.timestamp ≤ n.timestamp
    → insert_by_time e (es ++ n ∷ []) ≡ insert_by_time e es ++ n ∷ []
insert_by_time-snoc e [] n h = ground arith
insert_by_time-snoc e (f ∷ fs) n h = ground (arith, insert_by_time-snoc e fs n h)

pub order_by_time-snoc :
    (es : List TimelineEvent) (n : TimelineEvent)
    → All (λ (e : TimelineEvent). e.timestamp ≤ n.timestamp) es
    → order_by_time (es ++ n ∷ []) ≡ order_by_time es ++ n ∷ []
unfolding order_by_time
order_by_time-snoc [] n h = refl
order_by_time-snoc (e ∷ es) n h =
    ap (insert_by_time e) (order_by_time-snoc es n h.1)
    ∙ insert_by_time-snoc e (order_by_time es) n h.0
