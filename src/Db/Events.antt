-- ===== src/Db/Events.antt =====
-- cmd/stellar-rpc/internal/db/event.go: the rows of the event table with their columns, and
-- `GetEvents`. The table is the list of its rows in the order of the key `id`, which is the order
-- that the query asks for. The text of a contract identifier that `GetEvents` puts into its logs,
-- and its logs, are left out.
use stellar_stellar_rpc.Base.{
  ℕ, zero, suc, Option, none, some, List, [], ◌∷◌, Bool, true, false, not, ◌&&◌, if◌then◌else◌, ℤ,
  Outcome, ok, err, panic, u32,
}
use stellar_stellar_rpc.Base.Decimal.{Bytes, contains}
use stellar_stellar_rpc.Base.Maybe.{◌>>=◌}
use stellar_stellar_rpc.Protocol.Cursor.{Cursor, CursorRange, Toid, to_string, parse_cursor}
use stellar_stellar_rpc.Protocol.EventFilter.{Sdk, EventType, DiagnosticEvent, same_type}
use stellar_stellar_rpc.Db.Trim.{keep, text_lt}

-- `event_data` is the event that the blob decodes to; a column that is NULL is `none`.
pub record EventRow (V : Type 0) : Type 0 where
  pub id : Bytes
  pub contract_id : Option Bytes
  pub event_type : EventType
  pub event_data : Option (DiagnosticEvent V)
  pub ledger_close_time : ℤ
  pub transaction_hash : Bytes
  pub topics : List (Option Bytes)

-- so many topic columns, the first ones from the topics
unfoldable pub topic_list :
    {V : Type 0} → (V → Option Bytes) → ℕ → List V → Option (List (Option Bytes))
topic_list marshal zero vs = some []
topic_list marshal (suc n) [] = topic_list marshal n [] >>= λ cs. some (none ∷ cs)
topic_list marshal (suc n) (v ∷ vs) =
    let rest = topic_list marshal n vs in marshal v >>= λ b. rest >>= λ cs. some (some b ∷ cs)

-- The row of the event at an index of a transaction, as `InsertEvents` makes it; `marshals` tells
-- whether the event has a blob.
unfoldable pub event_row :
    {V : Type 0}
    → Sdk V
    → Toid
    → (ledger : ℕ) → (close_time : ℤ) → (tx : ℕ) → (hash : Bytes) → (index : ℕ) → (marshals : Bool)
    → DiagnosticEvent V
    → Option (EventRow V)
unfolding topic_list
event_row sdk toid ledger close_time tx hash index marshals e =
    if not marshals
    then none
    else e.topics >>= λ vs. topic_list sdk.marshal 4 vs >>= λ cs. some (record {
      id = to_string toid (record { ledger = ledger; tx = tx; op = 0; event = u32 index });
      contract_id = e.contract_id;
      event_type = e.event_type;
      event_data = some e;
      ledger_close_time = close_time;
      transaction_hash = hash;
      topics = cs;
    })

-- `contract_id IN (...)`, when identifiers are given
unfoldable pub id_selected : List Bytes → Option Bytes → Bool
id_selected [] o = true
id_selected (c ∷ cs) none = false
id_selected (c ∷ cs) (some id) = contains (c ∷ cs) id

unfoldable pub has_type : List EventType → EventType → Bool
has_type [] t = false
has_type (u ∷ us) t = let rest = has_type us t in if same_type t u then true else rest

-- `event_type IN (...)`, when types are given
unfoldable pub type_selected : List EventType → EventType → Bool
unfolding has_type
type_selected [] t = true
type_selected (u ∷ us) t = has_type (u ∷ us) t

abbrev pub column_in : List Bytes → Option Bytes → Bool
column_in ts none = false
column_in ts (some b) = contains ts b

-- one of the conditions `topicN IN (...)` holds
unfoldable pub topics_hit : List (List Bytes) → List (Option Bytes) → Bool
topics_hit [] cs = false
topics_hit (ts ∷ tss) [] = false
topics_hit (ts ∷ tss) (c ∷ cs) =
    let rest = topics_hit tss cs in if column_in ts c then true else rest

-- there is no condition, since each list is nil
unfoldable pub no_topics : List (List Bytes) → Bool
no_topics [] = true
no_topics ([] ∷ tss) = no_topics tss
no_topics ((t ∷ ts) ∷ tss) = false

-- the disjunction of the conditions on the topics, when there are any
unfoldable pub topics_selected : List (List Bytes) → List (Option Bytes) → Bool
unfolding topics_hit no_topics
topics_selected tss cs = if no_topics tss then true else topics_hit tss cs

-- the query of `GetEvents`
pub record EventQuery : Type 0 where
  pub cursor_range : CursorRange
  pub contract_ids : List Bytes
  pub topics : List (List Bytes)
  pub event_types : List EventType

abbrev pub in_range : Toid → CursorRange → Bytes → Bool
in_range toid r id =
    not (text_lt id (to_string toid r.start)) && text_lt id (to_string toid r.finish)

-- the conditions on the columns of the filters
unfoldable pub columns_selected : {V : Type 0} → EventQuery → EventRow V → Bool
unfolding id_selected type_selected topics_selected
columns_selected q row =
    id_selected q.contract_ids row.contract_id
    && (type_selected q.event_types row.event_type && topics_selected q.topics row.topics)

abbrev pub row_selected : {V : Type 0} → Toid → EventQuery → EventRow V → Bool
row_selected toid q row = in_range toid q.cursor_range row.id && columns_selected q row

pub data EventsError : Type 0 where
  query_failed bad_cursor bad_event : EventsError

-- The loop over the rows. The scan function has a state; it tells whether to go on, and is `none`
-- for a panic.
unfoldable pub scan_rows :
    {V S : Type 0}
    → Toid
    → (DiagnosticEvent V → Cursor → ℤ → Bytes → S → Option (S × Bool))
    → List (EventRow V)
    → S
    → Outcome EventsError S
scan_rows toid f [] s = ok s
scan_rows toid f (row ∷ rows) s =
    let rest = scan_rows toid f rows in
    elim (parse_cursor toid row.id) [
      | none ↦ err bad_cursor
      | some cursor ↦ elim row.event_data [
        | none ↦ err bad_event
        | some e ↦ elim (f e cursor row.ledger_close_time row.transaction_hash s) [
          | none ↦ panic
          | some (s', true) ↦ rest s'
          | some (s', false) ↦ ok s'
        ]
      ]
    ]

-- `GetEvents`; the query may fail
unfoldable pub get_events_rows :
    {V S : Type 0}
    → Toid
    → (query_fails : Bool) → List (EventRow V)
    → EventQuery
    → (DiagnosticEvent V → Cursor → ℤ → Bytes → S → Option (S × Bool))
    → S
    → Outcome EventsError S
unfolding scan_rows columns_selected
get_events_rows toid query_fails table q f s =
    if query_fails then err query_failed else scan_rows toid f (keep (row_selected toid q) table) s
