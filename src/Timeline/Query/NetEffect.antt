-- ===== src/Timeline/Query/NetEffect.antt =====
-- The net effect of a window of events on one symbol.
use lv_dcp.Base.{
  String, ◌==◌, eq_iff, ◌≡◌, refl, ◌∙◌, ap, Bool, true, false, Option, none, some, List, [], ◌∷◌,
  arith, Dict, get, put, get-put, is_some, if◌then◌else◌, Bool-cases, inl, inr,
}
use lv_dcp.Timeline.Events.{
  EventType, added, removed, modified, is_added, is_removed, TimelineEvent,
}
use lv_dcp.Timeline.Differ.Exact.{of_symbol}
use lv_dcp.Timeline.Query.Diff.{firsts, lasts, net_of, effects, net_effect}

abbrev pub last_of : TimelineEvent → List TimelineEvent → TimelineEvent
last_of e [] = e
last_of e (f ∷ fs) = last_of f fs

-- The docstring's rule, on the history of one symbol in the window: `removed` if its last event
-- is a removal, else `added` if its first event is an addition, else `modified`.
abbrev pub net : List TimelineEvent → Option (EventType × TimelineEvent)
net [] = none
net (e ∷ es) =
    let final = last_of e es in
    some (
      (if is_removed final.event_type
          then removed
          else (if is_added e.event_type then added else modified)),
      final,
    )

abbrev first_or : Option EventType → List TimelineEvent → Option EventType
first_or (some t) es = some t
first_or none [] = none
first_or none (e ∷ es) = some e.event_type

abbrev last_or : Option TimelineEvent → List TimelineEvent → Option TimelineEvent
last_or old [] = old
last_or old (e ∷ es) = some (last_of e es)

-- One more event, which is the symbol's own or not.
last_step :
    (own : Bool) (e : TimelineEvent) (old : Option TimelineEvent) (es : List TimelineEvent)
    → last_or (if own then some e else old) es ≡ last_or old (if own then e ∷ es else es)
last_step false e old es = refl
last_step true e old [] = refl
last_step true e old (f ∷ fs) = refl

first_step :
    (own : Bool) (e : TimelineEvent) (old at_e : Option EventType) (es : List TimelineEvent)
    → (own ≡ true → at_e ≡ old)
    → first_or (if is_some at_e then old else (if own then some e.event_type else old)) es
      ≡ first_or old (if own then e ∷ es else es)
first_step false e old none es h = refl
first_step false e old (some t) es h = refl
first_step true e none none es h = refl
first_step true e (some u) none es h = ground (arith, h)
first_step true e none (some t) es h = ground (arith, h)
first_step true e (some u) (some t) es h = refl

eq_sym : (j k : String) → (j == k) ≡ (k == j)
eq_sym j k = ground (arith, eq_iff j k, eq_iff k j)

get-if :
    (k sid : String) (t : EventType) (b : Bool) (first : Dict EventType)
    → get k (if b then first else put sid t first)
      ≡ (if b then get k first else (if sid == k then some t else get k first))
get-if k sid t true first = refl
get-if k sid t false first =
    get-put k sid t first ∙ ap (λ b. if b then some t else get k first) (eq_sym k sid)

get-firsts :
    (k : String) (es : List TimelineEvent) (first : Dict EventType)
    → get k (firsts es first) ≡ first_or (get k first) (of_symbol k es)
get-firsts k [] first = first_or_none (get k first)
  where
    first_or_none : (o : Option EventType) → o ≡ first_or o []
    first_or_none none = refl
    first_or_none (some t) = refl
get-firsts k (e ∷ es) first =
    get-firsts k es _
    ∙ ap (λ o. first_or o (of_symbol k es))
        (get-if k e.symbol_id e.event_type (is_some (get e.symbol_id first)) first)
    ∙ first_step (e.symbol_id == k) e (get k first) (get e.symbol_id first) (of_symbol k es)
        (λ own. ap (λ j. get j first) ((eq_iff e.symbol_id k).0 own))

get-lasts :
    (k : String) (es : List TimelineEvent) (last : Dict TimelineEvent)
    → get k (lasts es last) ≡ last_or (get k last) (of_symbol k es)
get-lasts k [] last = refl
get-lasts k (e ∷ es) last =
    get-lasts k es (put e.symbol_id e last)
    ∙ ap (λ o. last_or o (of_symbol k es))
        (get-put k e.symbol_id e last
          ∙ ap (λ b. if b then some e else get k last) (eq_sym k e.symbol_id))
    ∙ last_step (e.symbol_id == k) e (get k last) (of_symbol k es)

abbrev with_effect : Option EventType → Option TimelineEvent → Option (EventType × TimelineEvent)
with_effect first none = none
with_effect first (some e) = some (net_of first e, e)

get-effects :
    (k : String) (first : Dict EventType) (last : Dict TimelineEvent)
    → get k (effects first last) ≡ with_effect (get k first) (get k last)
get-effects k first [] = refl
get-effects k first ((sid, e) ∷ last) = elim (Bool-cases (k == sid)) [
  | inl own ↦ rw (own, (eq_iff k sid).0 own) refl
  | inr other ↦ rw other (get-effects k first last)
]

with_effect-net :
    (es : List TimelineEvent) → with_effect (first_or none es) (last_or none es) ≡ net es
with_effect-net [] = refl
with_effect-net (e ∷ es) = refl

-- For every list of events, the classification of a symbol is its net effect by the rule, with its
-- last event, and a symbol without an event is not classified.
pub net_effect-exact :
    (events : List TimelineEvent) (k : String)
    → get k (net_effect events) ≡ net (of_symbol k events)
unfolding net_effect
net_effect-exact events k =
    get-effects k (firsts events []) (lasts events [])
    ∙ ap (λ o. with_effect o (get k (lasts events []))) (get-firsts k events [])
    ∙ ap (with_effect (first_or none (of_symbol k events))) (get-lasts k events [])
    ∙ with_effect-net (of_symbol k events)
