-- ===== src/Protocol/EventFilter.antt =====
-- protocol/get_events.go: the request of getEvents, its validity and the events that it matches.
-- The values of the topics, the text form of contract identifiers (strkey) and the XDR encoding
-- belong to the Go SDK: they are the parameter `Sdk`. `none` is a panic of a topic filter.
use stellar_stellar_rpc.Base.{
  ℕ, Option, none, some, List, [], ◌∷◌, Bool, true, false, ◌&&◌, not, length, ltb, ◌==◌,
  if◌then◌else◌, ◌≡◌,
}
use stellar_stellar_rpc.Base.Decimal.{Bytes, contains}
use stellar_stellar_rpc.Base.Maybe.{◌>>=◌}
use stellar_stellar_rpc.Protocol.Cursor.{Cursor}
use stellar_stellar_rpc.Protocol.Pagination.{Format, is_valid_format}
use stellar_stellar_rpc.Protocol.TopicFilter.{SegmentFilter, FilterError, matches, topics_valid}

-- What the code uses of the Go SDK, with what it documents: equal values have one encoding, and
-- an encoded contract identifier is decoded to what it encodes.
pub record Sdk (V : Type 0) : Type 0 where
  pub equals : V → V → Bool
  pub marshal : V → Option Bytes
  pub encode_contract : Bytes → Bytes
  pub decode_contract : Bytes → Option Bytes
  pub marshal_equal : (v w : V) → equals v w ≡ true → marshal v ≡ marshal w
  pub decode_encode : (id : Bytes) → decode_contract (encode_contract id) ≡ some id

pub data EventType : Type 0 where
  system contract diagnostic : EventType

-- the key of an `EventTypeSet`: the name of a type or any other text
pub data TypeKey : Type 0 where
  known : EventType → TypeKey
  other : TypeKey

-- an event as the code reads it; `topics` is `none` when the body is not of version 0
pub record DiagnosticEvent (V : Type 0) : Type 0 where
  pub in_successful_contract_call : Bool
  pub event_type : EventType
  pub contract_id : Option Bytes
  pub topics : Option (List V)

pub record EventFilter (V : Type 0) : Type 0 where
  pub event_type : List TypeKey
  pub contract_ids : List Bytes
  pub topics : List (List (SegmentFilter V))

pub record PaginationOptions : Type 0 where
  pub cursor : Option Cursor
  pub limit : ℕ

pub record GetEventsRequest (V : Type 0) : Type 0 where
  pub start_ledger : ℕ
  pub end_ledger : ℕ
  pub filters : List (EventFilter V)
  pub pagination : Option PaginationOptions
  pub format : Format

abbrev pub same_type : EventType → EventType → Bool
same_type system system = true
same_type contract contract = true
same_type diagnostic diagnostic = true
same_type system contract = false
same_type system diagnostic = false
same_type contract system = false
same_type contract diagnostic = false
same_type diagnostic system = false
same_type diagnostic contract = false

abbrev pub is_key : EventType → TypeKey → Bool
is_key t (known u) = same_type t u
is_key t other = false

unfoldable pub has_key : List TypeKey → EventType → Bool
has_key [] t = false
has_key (k ∷ ks) t = let rest = has_key ks t in if is_key t k then true else rest

-- `EventTypeSet.matches`
unfoldable pub type_matches : List TypeKey → EventType → Bool
unfolding has_key
type_matches [] t = true
type_matches (k ∷ ks) t = has_key (k ∷ ks) t

pub data EventFilterError : Type 0 where
  bad_type too_many_ids too_many_topics bad_id : EventFilterError
  bad_topic : FilterError → EventFilterError

pub data EventsRequestError : Type 0 where
  bad_format cursor_and_range no_start limit_exceeded too_many_filters : EventsRequestError
  bad_filter : EventFilterError → EventsRequestError

-- `EventTypeSet.valid`
unfoldable pub types_valid : List TypeKey → Bool
types_valid [] = true
types_valid (known t ∷ ks) = types_valid ks
types_valid (other ∷ ks) = false

module _ {V : Type 0} (sdk : Sdk V) where
  -- `EventFilter.matchesContractIDs`
  unfoldable pub matches_contract_ids : List Bytes → Option Bytes → Bool
  matches_contract_ids [] o = true
  matches_contract_ids (id ∷ ids) none = false
  matches_contract_ids (id ∷ ids) (some c) = contains (id ∷ ids) (sdk.encode_contract c)

  unfoldable pub any_topic : List (List (SegmentFilter V)) → List V → Option Bool
  any_topic [] topics = some false
  any_topic (t ∷ ts) topics =
      let rest = any_topic ts topics in
      matches sdk.equals t topics >>= λ b. if b then some true else rest

  -- `EventFilter.matchesTopics`
  unfoldable pub matches_topics : List (List (SegmentFilter V)) → Option (List V) → Option Bool
  unfolding any_topic
  matches_topics [] topics = some true
  matches_topics (t ∷ ts) none = some false
  matches_topics (t ∷ ts) (some topics) = any_topic (t ∷ ts) topics

  -- `EventFilter.Matches`
  unfoldable pub filter_matches : EventFilter V → DiagnosticEvent V → Option Bool
  unfolding type_matches matches_contract_ids matches_topics
  filter_matches f e =
      if not (type_matches f.event_type e.event_type)
      then some false
      else if not (matches_contract_ids f.contract_ids e.contract_id)
      then some false
      else matches_topics f.topics e.topics

  unfoldable pub any_filter : List (EventFilter V) → DiagnosticEvent V → Option Bool
  unfolding filter_matches
  any_filter [] e = some false
  any_filter (f ∷ fs) e =
      let rest = any_filter fs e in filter_matches f e >>= λ b. if b then some true else rest

  -- `GetEventsRequest.Matches`
  unfoldable pub request_matches : List (EventFilter V) → DiagnosticEvent V → Option Bool
  unfolding any_filter
  request_matches [] e = some true
  request_matches (f ∷ fs) e = any_filter (f ∷ fs) e

  unfoldable pub ids_valid : List Bytes → Option EventFilterError
  ids_valid [] = none
  ids_valid (id ∷ ids) =
      let rest = ids_valid ids in
      elim (sdk.decode_contract id) [ none ↦ some bad_id | some _ ↦ rest ]

  unfoldable pub all_topics_valid : List (List (SegmentFilter V)) → Option EventFilterError
  unfolding topics_valid
  all_topics_valid [] = none
  all_topics_valid (t ∷ ts) =
      let rest = all_topics_valid ts in
      elim (topics_valid t) [ some e ↦ some (bad_topic e) | none ↦ rest ]

  -- `EventFilter.Valid`
  unfoldable pub filter_valid : EventFilter V → Option EventFilterError
  unfolding types_valid ids_valid all_topics_valid
  filter_valid f =
      if not (types_valid f.event_type)
      then some bad_type
      else if ltb 5 (length f.contract_ids)
      then some too_many_ids
      else if ltb 5 (length f.topics)
      then some too_many_topics
      else elim (ids_valid f.contract_ids) [ some e ↦ some e | none ↦ all_topics_valid f.topics ]

  unfoldable pub filters_valid : List (EventFilter V) → Option EventsRequestError
  unfolding filter_valid
  filters_valid [] = none
  filters_valid (f ∷ fs) =
      let rest = filters_valid fs in
      elim (filter_valid f) [ some e ↦ some (bad_filter e) | none ↦ rest ]

  check_filters : List (EventFilter V) → Option EventsRequestError
  unfolding filters_valid
  check_filters fs = if ltb 5 (length fs) then some too_many_filters else filters_valid fs

  check_limit : ℕ → ℕ → List (EventFilter V) → Option EventsRequestError
  unfolding check_filters
  check_limit limit max_limit fs =
      if ltb max_limit limit then some limit_exceeded else check_filters fs

  check_page : GetEventsRequest V → Option PaginationOptions → ℕ → Option EventsRequestError
  unfolding check_limit
  check_page g none max_limit =
      if g.start_ledger == 0 then some no_start else check_filters g.filters
  check_page g (some p) max_limit = elim p.cursor [
    | some _ ↦
        if not ((g.start_ledger == 0) && (g.end_ledger == 0))
        then some cursor_and_range
        else check_limit p.limit max_limit g.filters
    | none ↦ if g.start_ledger == 0 then some no_start else check_limit p.limit max_limit g.filters
  ]

  -- `GetEventsRequest.Valid`
  unfoldable pub events_request_valid : GetEventsRequest V → ℕ → Option EventsRequestError
  unfolding check_page
  events_request_valid g max_limit = elim (is_valid_format g.format) [
    | some _ ↦ some bad_format
    | none ↦ check_page g g.pagination max_limit
  ]
