-- ===== src/Methods/GetEvents/Tests.antt =====
-- A request for the events of one contract with a first topic, and one with two filters of which
-- only the first one names a type. Topics are numbers.
use stellar_stellar_rpc.Base.{
  ℕ, ◌≡◌, refl, inl, none, some, List, [], ◌∷◌, true, false, ok, arith, pos, take, ◌==◌, ◌<◌, ◌^◌,
}
use stellar_stellar_rpc.Base.Decimal.{contains}
use stellar_stellar_rpc.Base.Weights.{All}
use stellar_stellar_rpc.BucketWindow.{LedgerRange}
use stellar_stellar_rpc.Protocol.Cursor.{to_string}
use stellar_stellar_rpc.Protocol.Cursor.Packing
use stellar_stellar_rpc.Protocol.TopicFilter.{zero_or_more}
use stellar_stellar_rpc.Protocol.Pagination.{json}
use stellar_stellar_rpc.Protocol.EventFilter.{
  Sdk, contract, system, known, EventFilter, GetEventsRequest, filters_valid,
}
use stellar_stellar_rpc.Db.Trim.{keep}
use stellar_stellar_rpc.Db.Events.{EventRow, EventQuery, in_range, topic_list, has_type}
use stellar_stellar_rpc.Methods.GetEvents.{EventsHandler, events_query, find_events, limit_of}
use stellar_stellar_rpc.Methods.GetEvents.Prefilter.{IsUniform}
use stellar_stellar_rpc.Methods.GetEvents.Scan.{IsStored, matching}
use stellar_stellar_rpc.Methods.GetEvents.Window.{window_of, find_events-window}
use stellar_stellar_rpc.Methods.GetEvents.Mixed.{names, find_events-mixed}

abbrev numbers : Sdk ℕ
numbers = record {
  equals = λ v w. v == w;
  marshal = λ v. some (v ∷ []);
  encode_contract = λ id. id;
  decode_contract = λ id. some id;
  marshal_equal = λ v w h. ground (arith, h);
  decode_encode = λ id. refl;
}

abbrev handler : EventsHandler ℕ
handler = record {
  max_limit = 100;
  default_limit = 10;
  sdk = numbers;
  toid = Packing.sdk;
  encodes = λ f e. true;
}

abbrev stored : ℕ → ℕ → EventRow ℕ
stored n v = record {
  id = to_string Packing.sdk (record { ledger = n; tx = 1; op = 0; event = 0 });
  contract_id = some (9 ∷ []);
  event_type = contract;
  event_data = some (record {
    in_successful_contract_call = true;
    event_type = contract;
    contract_id = some (9 ∷ []);
    topics = some (v ∷ 2 ∷ []);
  });
  ledger_close_time = pos n;
  transaction_hash = n ∷ [];
  topics = some (v ∷ []) ∷ some (2 ∷ []) ∷ none ∷ none ∷ [];
}

abbrev table : List (EventRow ℕ)
table = stored 5 7 ∷ stored 6 8 ∷ stored 7 7 ∷ stored 20 7 ∷ []

abbrev filter : EventFilter ℕ
filter = record {
  event_type = known contract ∷ [];
  contract_ids = (9 ∷ []) ∷ [];
  topics =
      (record { wildcard = none; sc_val = some 7 }
        ∷ record { wildcard = some zero_or_more; sc_val = none }
        ∷ [])
      ∷ [];
}

abbrev request : List (EventFilter ℕ) → GetEventsRequest ℕ
request fs = record {
  start_ledger = 5;
  end_ledger = 0;
  filters = fs;
  pagination = none;
  format = json;
}

abbrev range : LedgerRange
range = record {
  first_ledger = record { sequence = 2; close_time = pos 2 };
  last_ledger = record { sequence = 10; close_time = pos 10 };
}

request_valid_lem : filters_valid numbers (filter ∷ []) ≡ none
unfolding filters_valid
request_valid_lem = refl

one-IsUniform : IsUniform numbers (filter ∷ [])
one-IsUniform = record {
  types = inl (λ e. cc, tt);
  contracts = inl (λ e. cc, tt);
  values = inl ((refl, tt), tt);
}

table_rows : All (IsStored numbers Packing.sdk) table
unfolding topic_list
table_rows = (
  is_stored 5 7 (omega arith),
  (is_stored 6 8 (omega arith), (is_stored 7 7 (omega arith), (is_stored 20 7 (omega arith), tt))),
)
  where
    is_stored : (n v : ℕ) → n < 2 ^ 31 → IsStored numbers Packing.sdk (stored n v)
    is_stored n v h = record {
      cursor = record { ledger = n; tx = 1; op = 0; event = 0 };
      event = _;
      printable = omega (arith, h);
      spelled = refl;
      columns = record {
        contract = refl;
        kind = refl;
        blob = refl;
        values = v ∷ 2 ∷ [];
        body = refl;
        columns = refl;
      };
    }

abbrev query : EventQuery
query = record {
  cursor_range = window_of range (request (filter ∷ []));
  contract_ids = (9 ∷ []) ∷ [];
  topics = ((7 ∷ []) ∷ []) ∷ [] ∷ [] ∷ [] ∷ [];
  event_types = contract ∷ [];
}

query_lem : events_query handler (request (filter ∷ [])) range ≡ ok query
unfolding events_query contains has_type
query_lem = refl

limit_pos : 0 < limit_of 10 (request (filter ∷ []))
unfolding limit_of
limit_pos = omega arith

find_events-window_example :
    find_events handler false table (request (filter ∷ [])) query
    ≡ ok (
        take (limit_of 10 (request (filter ∷ []))) (
          matching numbers Packing.sdk (filter ∷ []) (
            keep
              (λ row. in_range Packing.sdk (window_of range (request (filter ∷ []))) row.id)
              table)))
find_events-window_example =
    find_events-window handler table (request (filter ∷ [])) range request_valid_lem one-IsUniform
      table_rows limit_pos query_lem

abbrev of_system : EventFilter ℕ
of_system = record { event_type = known system ∷ []; contract_ids = []; topics = [] }

abbrev of_contract : EventFilter ℕ
of_contract = record { event_type = []; contract_ids = (9 ∷ []) ∷ []; topics = [] }

abbrev mixed_query : EventQuery
mixed_query = record {
  cursor_range = window_of range (request (of_system ∷ of_contract ∷ []));
  contract_ids = (9 ∷ []) ∷ [];
  topics = [];
  event_types = system ∷ [];
}

mixed_valid : filters_valid numbers (of_system ∷ of_contract ∷ []) ≡ none
unfolding filters_valid
mixed_valid = refl

mixed_query_lem :
    events_query handler (request (of_system ∷ of_contract ∷ [])) range ≡ ok mixed_query
unfolding events_query contains has_type
mixed_query_lem = refl

-- a row of each kind
abbrev mixed_table : List (EventRow ℕ)
mixed_table = record (stored 5 1) { event_type = system } ∷ table

find_events-mixed_example :
    find_events handler false mixed_table (request (of_system ∷ of_contract ∷ [])) mixed_query
    ≡ find_events handler false
        (keep (names (of_system ∷ of_contract ∷ [])) mixed_table)
        (request (of_system ∷ of_contract ∷ []))
        mixed_query
find_events-mixed_example =
    find_events-mixed handler mixed_table (request (of_system ∷ of_contract ∷ [])) range false
      mixed_valid (inl (λ e. cc)) mixed_query_lem
