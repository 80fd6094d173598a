-- ===== src/Methods/GetEvents/Combine.antt =====
-- combineContractIDs, combineEventTypes and combineTopics of
-- cmd/stellar-rpc/internal/methods/get_events.go: what the filters of a request ask of the columns of
-- the event table, taken together.
use stellar_stellar_rpc.Base.{
  ℕ, zero, suc, ◌+◌, Option, none, some, List, [], ◌∷◌, ◌++◌, if◌then◌else◌, Outcome, ok, err,
  panic,
}
use stellar_stellar_rpc.Base.Decimal.{Bytes, contains}
use stellar_stellar_rpc.Base.Maybe.{◌>>=◌}
use stellar_stellar_rpc.Protocol.TopicFilter.{SegmentFilter}
use stellar_stellar_rpc.Protocol.EventFilter.{
  Sdk, EventType, system, TypeKey, known, other, EventFilter,
}
use stellar_stellar_rpc.Db.Events.{has_type}

-- `eventType := GetEventTypeXDRFromEventType()[key]`, which is 0 for any other text
abbrev pub type_of_key : TypeKey → EventType
type_of_key (known t) = t
type_of_key other = system

unfoldable pub add_types : List TypeKey → List EventType → List EventType
add_types [] types = types
add_types (k ∷ ks) types =
    add_types ks (if has_type types (type_of_key k) then types else type_of_key k ∷ types)

module _ {V : Type 0} where
  -- `combineEventTypes`
  unfoldable pub combine_event_types : List (EventFilter V) → List EventType → List EventType
  unfolding add_types
  combine_event_types [] types = types
  combine_event_types (f ∷ fs) types = combine_event_types fs (add_types f.event_type types)

module _ {V : Type 0} (sdk : Sdk V) where
  -- the set of the texts and the list of the identifiers
  unfoldable pub add_ids : List Bytes → List Bytes × List Bytes → Option (List Bytes × List Bytes)
  add_ids [] acc = some acc
  add_ids (id ∷ ids) (seen, decoded) =
      let old = add_ids ids (seen, decoded) in
      let new = λ (d : Bytes). add_ids ids (id ∷ seen, decoded ++ (d ∷ [])) in
      if contains seen id then old else sdk.decode_contract id >>= new

  unfoldable pub add_filter_ids :
      List (EventFilter V) → List Bytes × List Bytes → Option (List Bytes × List Bytes)
  unfolding add_ids
  add_filter_ids [] acc = some acc
  add_filter_ids (f ∷ fs) acc = add_ids f.contract_ids acc >>= add_filter_ids fs

  -- `combineContractIDs`
  unfoldable pub combine_contract_ids : List (EventFilter V) → Option (List Bytes)
  unfolding add_filter_ids
  combine_contract_ids fs = add_filter_ids fs ([], []) >>= λ acc. some acc.1

  -- `encodedTopicsList[i] = append(encodedTopicsList[i], b)`
  unfoldable pub append_at : List (List Bytes) → ℕ → Bytes → Option (List (List Bytes))
  append_at [] i b = none
  append_at (ts ∷ tss) zero b = some ((ts ++ (b ∷ [])) ∷ tss)
  append_at (ts ∷ tss) (suc i) b = append_at tss i b >>= λ r. some (ts ∷ r)

  -- the topic that a segment asks for: a value without a wildcard
  abbrev pub value_of : SegmentFilter V → Option V
  value_of s = elim s.wildcard [ none ↦ s.sc_val | some _ ↦ none ]

  unfoldable pub add_segments :
      ℕ → List (SegmentFilter V) → List (List Bytes) → Outcome (Unit {0}) (List (List Bytes))
  unfolding append_at
  add_segments i [] tss = ok tss
  add_segments i (s ∷ t) tss =
      let rest = add_segments (i + 1) t in
      elim (value_of s) [
        | none ↦ rest tss
        | some v ↦ elim (sdk.marshal v) [
          | none ↦ err tt
          | some b ↦ elim (append_at tss i b) [ none ↦ panic | some tss' ↦ rest tss' ]
        ]
      ]

  unfoldable pub add_topics :
      List (List (SegmentFilter V)) → List (List Bytes) → Outcome (Unit {0}) (List (List Bytes))
  unfolding add_segments
  add_topics [] tss = ok tss
  add_topics (t ∷ ts) tss =
      let rest = add_topics ts in
      elim (add_segments 0 t tss) [ ok tss' ↦ rest tss' | err e ↦ err e | panic ↦ panic ]

  -- the loop of `combineTopics`: a filter without topics takes every condition away
  unfoldable pub combine_topics :
      List (EventFilter V) → List (List Bytes) → Outcome (Unit {0}) (List (List Bytes))
  unfolding add_topics
  combine_topics [] tss = ok tss
  combine_topics (f ∷ fs) tss =
      let rest = combine_topics fs in
      elim f.topics [
        | [] ↦ ok []
        | t ∷ ts ↦ elim (add_topics (t ∷ ts) tss) [
          | ok tss' ↦ rest tss'
          | err e ↦ err e
          | panic ↦ panic
        ]
      ]
