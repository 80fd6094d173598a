-- ===== src/Methods/GetEvents/Valid.antt =====
-- What the validity of a request gives: its filters have valid topics, and no event makes them
-- panic.
use stellar_stellar_rpc.Base.{
  ◌≡◌, refl, inl, inr, Option, none, some, List, [], ◌∷◌, Bool, true, false, arith, Bool-cases,
}
use stellar_stellar_rpc.Base.Weights.{All}
use stellar_stellar_rpc.Protocol.TopicFilter.{SegmentFilter, topics_valid}
use stellar_stellar_rpc.Protocol.TopicFilter.Matching.{fits, matches-valid}
use stellar_stellar_rpc.Protocol.EventFilter.{
  Sdk, DiagnosticEvent, EventFilter, type_matches, matches_contract_ids, any_topic, matches_topics,
  filter_matches, any_filter, request_matches, all_topics_valid, filter_valid, filters_valid,
}
use stellar_stellar_rpc.Methods.GetEvents.Prefilter.{AreValidTopics}

module _ {V : Type 0} (sdk : Sdk V) where
  all_topics_valid-All :
      (ts : List (List (SegmentFilter V)))
      → all_topics_valid sdk ts ≡ none
      → All (λ t. topics_valid t ≡ none) ts
  unfolding all_topics_valid
  all_topics_valid-All [] h = tt
  all_topics_valid-All (t ∷ ts) h = (ground (arith, h), all_topics_valid-All ts (ground (arith, h)))

  filter_valid-AreValidTopics : (f : EventFilter V) → filter_valid sdk f ≡ none → AreValidTopics f
  unfolding filter_valid
  filter_valid-AreValidTopics f h = all_topics_valid-All f.topics (ground (arith, h))

  -- A list of filters that is accepted has valid topics only.
  pub filters_valid-All :
      (fs : List (EventFilter V)) → filters_valid sdk fs ≡ none → All AreValidTopics fs
  unfolding filters_valid
  filters_valid-All [] h = tt
  filters_valid-All (f ∷ fs) h =
      (filter_valid-AreValidTopics f (ground (arith, h)), filters_valid-All fs (ground (arith, h)))

  any_topic-some :
      (ts : List (List (SegmentFilter V))) (topics : List V)
      → All (λ t. topics_valid t ≡ none) ts
      → (b : Bool) × (any_topic sdk ts topics ≡ some b)
  unfolding any_topic
  any_topic-some [] topics h = (false, refl)
  any_topic-some (t ∷ ts) topics h =
      let m = matches-valid sdk.equals t topics h.0 in
      let (b, r) = any_topic-some ts topics h.1 in
      elim (Bool-cases (fits sdk.equals t topics)) [
        | inl k ↦ (true, ground (arith, m, k))
        | inr k ↦ (b, ground (arith, m, k, r))
      ]

  matches_topics-some :
      (ts : List (List (SegmentFilter V))) (topics : Option (List V))
      → All (λ t. topics_valid t ≡ none) ts
      → (b : Bool) × (matches_topics sdk ts topics ≡ some b)
  unfolding matches_topics
  matches_topics-some [] topics h = (true, refl)
  matches_topics-some (t ∷ ts) none h = (false, refl)
  matches_topics-some (t ∷ ts) (some topics) h = any_topic-some (t ∷ ts) topics h

  filter_matches-some :
      (f : EventFilter V) (e : DiagnosticEvent V)
      → AreValidTopics f
      → (b : Bool) × (filter_matches sdk f e ≡ some b)
  unfolding filter_matches
  filter_matches-some f e h =
      let (b, m) = matches_topics-some f.topics e.topics h in
      elim (Bool-cases (type_matches f.event_type e.event_type)) [
        | inr k ↦ (false, rw k refl)
        | inl k ↦ elim (Bool-cases (matches_contract_ids sdk f.contract_ids e.contract_id)) [
          | inr l ↦ (false, rw (k, l) refl)
          | inl l ↦ (b, rw (k, l) m)
        ]
      ]

  any_filter-some :
      (fs : List (EventFilter V)) (e : DiagnosticEvent V)
      → All AreValidTopics fs
      → (b : Bool) × (any_filter sdk fs e ≡ some b)
  unfolding any_filter
  any_filter-some [] e h = (false, refl)
  any_filter-some (f ∷ fs) e h =
      let (b, m) = filter_matches-some f e h.0 in
      let (c, r) = any_filter-some fs e h.1 in
      elim (Bool-cases b) [ inl k ↦ (true, rw (m, k) refl) | inr k ↦ (c, rw (m, k) r) ]

  -- With valid topics no event makes the filters panic.
  pub request_matches-some :
      (fs : List (EventFilter V)) (e : DiagnosticEvent V)
      → All AreValidTopics fs
      → (b : Bool) × (request_matches sdk fs e ≡ some b)
  unfolding request_matches
  request_matches-some [] e h = (true, refl)
  request_matches-some (f ∷ fs) e h = any_filter-some (f ∷ fs) e h
