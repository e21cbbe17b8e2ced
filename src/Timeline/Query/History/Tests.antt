-- ===== src/Timeline/Query/History/Tests.antt =====
-- Runs of `symbol_timeline` of libs/symbol_timeline/query.py, and its theorems at them.
use lv_dcp.Base.{ℕ, String, ◌≡◌, refl, true, false, not, none, some, [], ◌∷◌, map, arith}
use lv_dcp.Timeline.Events.{added, modified, EventType, TimelineEvent}
use lv_dcp.Timeline.Store.{Store, empty_store, order_by_time, events_for_symbol}
use lv_dcp.Timeline.Query.History.{looks_like_symbol_id, like, matching_ids, fuzzy_symbol_lookup}
use lv_dcp.Timeline.Query.History.Life.{history_of, symbol_timeline}
use lv_dcp.Timeline.Query.History.Found.{
  by_ids, is_single, is_empty, symbol_timeline-by_ids, symbol_timeline-limit_one,
}
use lv_dcp.Timeline.Query.History.Names.{history, history_of-history}

test_id : looks_like_symbol_id "0123456789abcdef0123456789ABCDEF" ≡ true
unfolding looks_like_symbol_id
test_id = refl

test_length : looks_like_symbol_id "0x_23456789abcdef0123456789ABCD_F" ≡ false
unfolding looks_like_symbol_id
test_length = refl

-- A sign, a base and "_" count among the 32 characters.
run_signed : looks_like_symbol_id "+0x_3456789abcdef0123456789ABC_F" ≡ true
unfolding looks_like_symbol_id
run_signed = refl

test_no_digit : looks_like_symbol_id "g123456789abcdef0123456789abcdef" ≡ false
unfolding looks_like_symbol_id
test_no_digit = refl

-- A "_" of the text stands for any character.
run_like : like "%net_effect%" "a.netXEffect" ≡ true
unfolding like
run_like = refl

abbrev event : String → String → EventType → ℕ → TimelineEvent
event sid name type time = record {
  project_root = "/p";
  symbol_id = sid;
  event_type = type;
  commit_sha = none;
  timestamp = time;
  author = none;
  content_hash = none;
  file_path = "a.py";
  qualified_name = some name;
  extra_json = none;
  orphaned = false;
}

-- `s` was made, changed and renamed to `t`; `u` stands beside them.
abbrev store : Store
store = record empty_store {
  events =
      event "s" "m.load" added 10
      ∷ event "s" "m.load_all" modified 20
      ∷ event "t" "m.fetch" added 30
      ∷ event "u" "m.load_one" added 15
      ∷ [];
  rename_edges =
      record {
        project_root = "/p";
        old_symbol_id = "s";
        new_symbol_id = "t";
        commit_sha = none;
        timestamp = 30;
        confidence = 900;
        is_candidate = false;
      }
      ∷ [];
}

run_lookup : map (λ c. c.symbol_id) (fuzzy_symbol_lookup store "/p" "LOAD" 5) ≡ "s" ∷ "u" ∷ []
unfolding fuzzy_symbol_lookup
run_lookup = refl

run_name : (symbol_timeline store "/p" false "fetch" 5).symbol_id ≡ "t"
unfolding symbol_timeline order_by_time
run_name = refl

is_no_id : looks_like_symbol_id "load" ≡ false
unfolding looks_like_symbol_id
is_no_id = refl

symbol_timeline-by_ids_example :
    (symbol_timeline store "/p" false "load" 5
      ≡ by_ids store "/p" false "load" 5 (matching_ids store "/p" "load"))
    × ((symbol_timeline store "/p" false "load" 5).not_found
        ≡ not (is_single (matching_ids store "/p" "load")))
symbol_timeline-by_ids_example =
    symbol_timeline-by_ids store "/p" false "load" 5 is_no_id refl (omega arith)

symbol_timeline-limit_one_example :
    (symbol_timeline store "/p" false "load" 1).not_found
    ≡ is_empty (matching_ids store "/p" "load")
symbol_timeline-limit_one_example = symbol_timeline-limit_one store "/p" false "load" is_no_id refl

history_of-history_example :
    history_of store "/p" false "t"
    ≡ history store "/p" false "t" (events_for_symbol store "/p" "t" false)
history_of-history_example = history_of-history store "/p" false "t"
