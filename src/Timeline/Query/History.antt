-- ===== src/Timeline/Query/History.antt =====
-- The lookup of a symbol by its id or by a part of its name, for `symbol_timeline` of
-- libs/symbol_timeline/query.py. Texts are ASCII. Of the rows of a symbol with the greatest time SQLite promises none
-- in particular; here it is the first, and symbols of equal time come in the order of a set.
pub mod Life
pub mod Groups
pub mod Found
pub mod Latest
pub mod Names
mod Tests
use Prim.Native.Nat.{compare, Ordering}
use Prim.Native.Char.{Char, code}
use Prim.Native.String
use mathlib.Core.List.{reverse}
use lv_dcp.Base.{
  char_between, ℕ, ◌+◌, String, ◌==◌, Bool, true, false, not, ◌&&◌, ◌||◌, Option, none, some, List,
  [], ◌∷◌, ◌++◌, map, keep, take, leb, ltb, if◌then◌else◌, distinct, drop_chars, text_length,
  starts_with, Dict, get, put, is_some,
}
use lv_dcp.Timeline.Events.{EventType, TimelineEvent, RenameEdgeRow}
use lv_dcp.Timeline.Store.{Store, events_for_symbol}
use lv_dcp.Timeline.Reconcile.{strip}
use lv_dcp.Timeline.Query.{RenamePair, pair_of}

pub record SymbolCandidate : Type 0 where
  pub symbol_id : String
  pub qualified_name : Option String
  pub file_path : String
  pub latest_event_ts : ℕ
  pub latest_event_type : EventType

pub record SymbolTimelineResult : Type 0 where
  pub symbol_id : String
  pub qualified_name : Option String
  pub file_path : Option String
  pub events : List TimelineEvent
  pub rename_predecessors : List RenamePair
  pub rename_successors : List RenamePair
  pub not_found : Bool
  pub candidates : List SymbolCandidate

abbrev pub is_code : ℕ → Char → Bool
is_code n c = elim (compare (code c) n) [ Ordering.eq ↦ true | _ ↦ false ]

abbrev pub is_hex : Char → Bool
is_hex c = char_between b'0' b'9' c || (char_between b'a' b'f' c || char_between b'A' b'F' c)

-- Digits of base 16, where one "_" may stand between two of them; `after` tells that a digit came
-- right before.
unfoldable pub are_digits : Bool → String → Bool
are_digits after String.[] = after
are_digits after (String.◌∷◌ c s) =
    are_digits (is_hex c) s && (is_hex c || (after && is_code b'_' c))

unfoldable pub skip_sign : String → String
unfolding starts_with drop_chars
skip_sign s = if starts_with "+" s || starts_with "-" s then drop_chars 1 s else s

abbrev pub skip_underscore : String → String
skip_underscore s = if starts_with "_" s then drop_chars 1 s else s

unfoldable pub skip_base : String → String
unfolding starts_with drop_chars
skip_base s =
    if starts_with "0x" s || starts_with "0X" s then skip_underscore (drop_chars 2 s) else s

-- int(s, 16) does not raise.
unfoldable pub is_hex_number : String → Bool
unfolding are_digits skip_sign skip_base strip
is_hex_number s = are_digits false (skip_base (skip_sign (strip s)))

unfoldable pub looks_like_symbol_id : String → Bool
unfolding text_length is_hex_number
looks_like_symbol_id s = leb 32 (text_length s) && (leb (text_length s) 32 && is_hex_number s)

-- LOWER, on the code of a character.
abbrev pub lower_code : Char → ℕ
lower_code c = if char_between b'A' b'Z' c then code c + 32 else code c

abbrev pub same_letter : Char → Char → Bool
same_letter c d = elim (compare (lower_code c) (lower_code d)) [ Ordering.eq ↦ true | _ ↦ false ]

-- text LIKE pattern: "%" is any text, "_" any character, and case does not count.
unfoldable pub like : String → String → Bool
like String.[] String.[] = true
like String.[] (String.◌∷◌ d t) = false
like (String.◌∷◌ c p) String.[] = like p String.[] && is_code b'%' c
like (String.◌∷◌ c p) (String.◌∷◌ d t) =
    let skip = like p (String.◌∷◌ d t) in
    let stay = like (String.◌∷◌ c p) t in
    let step = like p t in
    elim (is_code b'%' c) [
      | true ↦ skip || stay
      | false ↦ (is_code b'_' c || same_letter c d) && step
    ]

abbrev pub name_like : String → Option String → Bool
name_like partial_name none = false
name_like partial_name (some name) = like (String.◌++◌ "%" (String.◌++◌ partial_name "%")) name

-- The WHERE clause of `fuzzy_symbol_lookup`.
abbrev pub is_match : String → String → TimelineEvent → Bool
is_match project_root partial_name e =
    e.project_root == project_root && (name_like partial_name e.qualified_name && not e.orphaned)

-- The first of the rows with the greatest time, and the last of them.
abbrev pub first_of_max : TimelineEvent → List TimelineEvent → TimelineEvent
first_of_max best [] = best
first_of_max best (e ∷ es) = first_of_max (if ltb best.timestamp e.timestamp then e else best) es

abbrev pub last_of_max : TimelineEvent → List TimelineEvent → TimelineEvent
last_of_max best [] = best
last_of_max best (e ∷ es) = last_of_max (if leb best.timestamp e.timestamp then e else best) es

-- ORDER BY last_ts DESC
abbrev pub insert_recent : SymbolCandidate → List SymbolCandidate → List SymbolCandidate
insert_recent c [] = c ∷ []
insert_recent c (d ∷ ds) =
    if ltb c.latest_event_ts d.latest_event_ts then d ∷ insert_recent c ds else c ∷ d ∷ ds

unfoldable pub by_recency : List SymbolCandidate → List SymbolCandidate
by_recency [] = []
by_recency (c ∷ cs) = insert_recent c (by_recency cs)

module _ (store : Store) (project_root : String) where
  -- Every event of a symbol, the orphaned ones too, as the inner query reads them.
  abbrev pub events_of : String → List TimelineEvent
  events_of sid =
      keep (λ (e : TimelineEvent). e.project_root == project_root && e.symbol_id == sid)
        store.events

  -- One group: its latest row, with the type of the symbol's latest event.
  abbrev pub candidate_of : String → List TimelineEvent → List SymbolCandidate
  candidate_of sid [] = []
  candidate_of sid (e ∷ es) =
      let row = first_of_max e es in
      record {
        symbol_id = sid;
        qualified_name = row.qualified_name;
        file_path = row.file_path;
        latest_event_ts = row.timestamp;
        latest_event_type = (last_of_max row (events_of sid)).event_type;
      }
      ∷ []

  abbrev pub matches : String → List TimelineEvent
  matches partial_name = keep (is_match project_root partial_name) store.events

  abbrev pub group_of : String → String → List TimelineEvent
  group_of partial_name sid =
      keep (λ (e : TimelineEvent). e.symbol_id == sid) (matches partial_name)

  abbrev pub candidates_of : String → List String → List SymbolCandidate
  candidates_of partial_name [] = []
  candidates_of partial_name (sid ∷ sids) =
      candidate_of sid (group_of partial_name sid) ++ candidates_of partial_name sids

  -- GROUP BY symbol_id
  unfoldable pub matching_ids : String → List String
  unfolding distinct like
  matching_ids partial_name = distinct (map (λ e. e.symbol_id) (matches partial_name))

  unfoldable pub fuzzy_symbol_lookup : String → ℕ → List SymbolCandidate
  unfolding matching_ids by_recency like
  fuzzy_symbol_lookup partial_name limit =
      if partial_name == ""
      then []
      else take limit (by_recency (candidates_of partial_name (matching_ids partial_name)))
