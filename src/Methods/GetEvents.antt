-- ===== src/Methods/GetEvents.antt =====
-- cmd/stellar-rpc/internal/methods/get_events.go. Of an EventInfo the fields are modelled that do
-- not come from encodings of the topics and the data; `encodes` tells whether these succeed.
pub mod Combine
pub mod Types
pub mod Contracts
pub mod Topics
pub mod TopicsKept
pub mod Prefilter
pub mod Valid
pub mod Scan
pub mod Window
pub mod Mixed
mod Tests
use stellar_stellar_rpc.Base.{
  ℕ, zero, suc, ◌+◌, ◌-◌, ◌^◌, min, Option, none, some, List, [], ◌∷◌, ◌++◌, Bool, true, false, not,
  ◌&&◌, ◌||◌, ltb, ◌==◌, length, if◌then◌else◌, ℤ, Outcome, ok, err, panic, u32, last?,
}
use stellar_stellar_rpc.Base.Decimal.{Bytes, contains}
use stellar_stellar_rpc.Base.Maybe.{◌>>=◌}
use stellar_stellar_rpc.BucketWindow.{LedgerRange}
use stellar_stellar_rpc.Protocol.Cursor.{Cursor, CursorRange, Toid, to_string, max_cursor}
use stellar_stellar_rpc.Protocol.Pagination.{Format}
use stellar_stellar_rpc.Protocol.TopicFilter.{SegmentFilter}
use stellar_stellar_rpc.Protocol.EventFilter.{
  Sdk, EventType, system, TypeKey, known, other, DiagnosticEvent, EventFilter, PaginationOptions,
  GetEventsRequest, request_matches, events_request_valid,
}
use stellar_stellar_rpc.Db.Events.{EventRow, EventQuery, EventsError, has_type, get_events_rows}
use mathlib.Core.Option
use stellar_stellar_rpc.Db.Store.{Db}
use stellar_stellar_rpc.Db.Reader.{get_ledger_range}
use stellar_stellar_rpc.Methods.GetEvents.Combine.{
  combine_event_types, combine_contract_ids, combine_topics,
}
use stellar_stellar_rpc.Methods.GetLedgers.{Code, internal_error, invalid_request, invalid_params}

abbrev pub ledger_scan_limit : ℕ
ledger_scan_limit = 10000

pub record Entry (V : Type 0) : Type 0 where
  pub cursor : Cursor
  pub ledger_close_timestamp : ℤ
  pub event : DiagnosticEvent V
  pub tx_hash : Bytes

pub record EventInfo : Type 0 where
  pub event_type : EventType
  pub ledger : ℕ
  pub ledger_closed_at : ℤ
  pub contract_id : Option Bytes
  pub id : Bytes
  pub op_index : ℕ
  pub tx_index : ℕ
  pub in_successful_contract_call : Bool
  pub transaction_hash : Bytes

pub record GetEventsResponse : Type 0 where
  pub events : List EventInfo
  pub cursor : Bytes
  pub range : LedgerRange

-- an error with a code of JSON-RPC, or any other
pub data EventsFailure : Type 0 where
  coded : Code → EventsFailure
  not_parsed : EventsFailure

pub record EventsHandler (V : Type 0) : Type 0 where
  pub max_limit : ℕ
  pub default_limit : ℕ
  pub sdk : Sdk V
  pub toid : Toid
  pub encodes : Format → DiagnosticEvent V → Bool

abbrev pub next_cursor : Cursor → Cursor
next_cursor c = record c { event = u32 (c.event + 1) }

abbrev start_at : ℕ → Option Cursor → Cursor
start_at start_ledger none = record { ledger = start_ledger; tx = 0; op = 0; event = 0 }
start_at start_ledger (some c) = next_cursor c

abbrev limit_at : ℕ → ℕ → ℕ
limit_at default_limit limit = if ltb 0 limit then limit else default_limit

-- the cursor of a response: of its last event at the limit, else the end of the search
unfoldable pub response_cursor : Toid → ℕ → ℕ → List EventInfo → Outcome EventsFailure Bytes
response_cursor toid limit end_ledger events =
    if length events == limit
    then elim (last? events) [ none ↦ panic | some e ↦ ok e.id ]
    else ok (to_string toid (record max_cursor { ledger = u32 (end_ledger + 2 ^ 32 - 1) }))

module _ {V : Type 0} where
  -- the first cursor of the search, and the limit
  unfoldable pub start_of : GetEventsRequest V → Cursor
  start_of g = elim g.pagination [
    | none ↦ start_at g.start_ledger none
    | some p ↦ start_at g.start_ledger p.cursor
  ]

  unfoldable pub limit_of : ℕ → GetEventsRequest V → ℕ
  limit_of default_limit g = elim g.pagination [
    | none ↦ default_limit
    | some p ↦ limit_at default_limit p.limit
  ]

  -- the first ledger behind the search
  unfoldable pub end_ledger_of : LedgerRange → GetEventsRequest V → ℕ
  unfolding start_of
  end_ledger_of range g =
      let scan_end =
        min (u32 (range.last_ledger.sequence + 1))
          (u32 ((start_of g).ledger + ledger_scan_limit)) in
      if not (g.end_ledger == 0) then min g.end_ledger scan_end else scan_end

  -- the scan function
  unfoldable pub collect_event :
      Sdk V
      → List (EventFilter V)
      → ℕ
      → DiagnosticEvent V
      → Cursor
      → ℤ
      → Bytes
      → List (Entry V)
      → Option (List (Entry V) × Bool)
  collect_event sdk filters limit e cursor close_time hash found =
      request_matches sdk filters e >>= λ b.
      let found' : List (Entry V) =
        if b
        then found
          ++ (record {
            cursor = cursor;
            ledger_close_timestamp = close_time;
            event = e;
            tx_hash = hash;
          }
              ∷ [])
        else found in
      some (found', ltb (length found') limit)

  -- `eventInfoForEvent`
  unfoldable pub event_info_for_event : EventsHandler V → Format → Entry V → Option EventInfo
  event_info_for_event h format entry = elim entry.event.topics [
    | none ↦ none
    | some _ ↦
        if not (h.encodes format entry.event)
        then none
        else some (record {
          event_type = entry.event.event_type;
          ledger = entry.cursor.ledger;
          ledger_closed_at = entry.ledger_close_timestamp;
          contract_id = Option.map h.sdk.encode_contract entry.event.contract_id;
          id = to_string h.toid entry.cursor;
          op_index = entry.cursor.op;
          tx_index = entry.cursor.tx;
          in_successful_contract_call = entry.event.in_successful_contract_call;
          transaction_hash = entry.tx_hash;
        })
  ]

  unfoldable pub event_infos : EventsHandler V → Format → List (Entry V) → Option (List EventInfo)
  unfolding event_info_for_event
  event_infos h format [] = some []
  event_infos h format (e ∷ es) =
      let rest = event_infos h format es in
      event_info_for_event h format e >>= λ i. rest >>= λ is. some (i ∷ is)

  -- the query for a request
  unfoldable pub events_query :
      EventsHandler V → GetEventsRequest V → LedgerRange → Outcome EventsFailure EventQuery
  unfolding combine_contract_ids combine_topics combine_event_types end_ledger_of
  events_query h g range =
      if ltb (start_of g).ledger range.first_ledger.sequence
        || ltb range.last_ledger.sequence (start_of g).ledger
      then err (coded invalid_request)
      else elim (combine_contract_ids h.sdk g.filters) [
        | none ↦ err (coded invalid_params)
        | some ids ↦ elim (combine_topics h.sdk g.filters ([] ∷ [] ∷ [] ∷ [] ∷ [])) [
          | err _ ↦ err (coded invalid_params)
          | panic ↦ panic
          | ok topics ↦ ok (record {
            cursor_range = record {
              start = start_of g;
              finish = record { ledger = end_ledger_of range g; tx = 0; op = 0; event = 0 };
            };
            contract_ids = ids;
            topics = topics;
            event_types = combine_event_types g.filters [];
          })
        ]
      ]

  -- the entries that a query finds
  unfoldable pub find_events :
      EventsHandler V
      → Bool
      → List (EventRow V)
      → GetEventsRequest V
      → EventQuery
      → Outcome EventsError (List (Entry V))
  unfolding get_events_rows collect_event limit_of
  find_events h query_fails table g q =
      get_events_rows h.toid query_fails table q
        (collect_event h.sdk g.filters (limit_of h.default_limit g)) []

  respond :
      EventsHandler V
      → GetEventsRequest V
      → LedgerRange
      → List (Entry V)
      → Outcome EventsFailure GetEventsResponse
  unfolding event_infos response_cursor limit_of end_ledger_of
  respond h g range found = elim (event_infos h g.format found) [
    | none ↦ err not_parsed
    | some events ↦
        elim (response_cursor h.toid (limit_of h.default_limit g) (end_ledger_of range g) events) [
          | err e ↦ err e
          | panic ↦ panic
          | ok cursor ↦ ok (record { events = events; cursor = cursor; range = range })
        ]
  ]

  -- `getEvents`, once the range of ledgers is read
  unfoldable pub get_events_in :
      EventsHandler V
      → Bool
      → List (EventRow V)
      → GetEventsRequest V
      → LedgerRange
      → Outcome EventsFailure GetEventsResponse
  unfolding events_query find_events respond
  get_events_in h query_fails table g range = elim (events_query h g range) [
    | err e ↦ err e
    | panic ↦ panic
    | ok q ↦ elim (find_events h query_fails table g q) [
      | err _ ↦ err (coded invalid_request)
      | panic ↦ panic
      | ok found ↦ respond h g range found
    ]
  ]

  -- `getEvents`
  unfoldable pub get_events :
      EventsHandler V
      → Bool
      → Db
      → List (EventRow V)
      → GetEventsRequest V
      → Outcome EventsFailure GetEventsResponse
  unfolding events_request_valid get_events_in
  get_events h query_fails db table g = elim (events_request_valid h.sdk g h.max_limit) [
    | some _ ↦ err (coded invalid_params)
    | none ↦ elim (get_ledger_range db) [
      | err _ ↦ err (coded internal_error)
      | panic ↦ panic
      | ok range ↦ get_events_in h query_fails table g range
    ]
  ]
