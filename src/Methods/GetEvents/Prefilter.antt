-- ===== src/Methods/GetEvents/Prefilter.antt =====
-- The query loses no event that the request matches, where the filters are uniform.
use stellar_stellar_rpc.Base.{
  ℕ, suc, zero, ◌+◌, ◌<◌, ◌≡◌, ◌≢◌, refl, sym, ap, ◌∙◌, ◌⊎◌, inl, inr, Option, none, some, List, [],
  ◌∷◌, ◌++◌, Bool, true, false, arith, Bool-cases, length, length-append, get_elem?, ok,
  ok-injective, if◌then◌else◌, ℤ, get_elem?-middle,
}
use mathlib.Core.Path.{subst}
use mathlib.Core.List.{append_assoc}
use stellar_stellar_rpc.Base.Decimal.{Bytes}
use stellar_stellar_rpc.Base.Maybe.{◌>>=◌, >>=-eq-some, some-injective}
use stellar_stellar_rpc.Base.Weights.{All, Any, Any-with, Any-map}
use stellar_stellar_rpc.Protocol.Cursor.{Toid}
use stellar_stellar_rpc.Protocol.TopicFilter.{SegmentFilter, topics_valid}
use stellar_stellar_rpc.Protocol.TopicFilter.Matching.{fits, matches-valid}
use stellar_stellar_rpc.Protocol.EventFilter.{
  Sdk, DiagnosticEvent, EventFilter, type_matches, matches_contract_ids, any_topic, matches_topics,
  filter_matches, any_filter, request_matches,
}
use stellar_stellar_rpc.Db.Events.{
  EventRow, EventQuery, topic_list, event_row, columns_selected, id_selected, type_selected,
  topics_selected,
}
use stellar_stellar_rpc.Methods.GetEvents.Combine.{
  combine_event_types, combine_contract_ids, combine_topics,
}
use stellar_stellar_rpc.Methods.GetEvents.Types.{type_selected-combine}
use stellar_stellar_rpc.Methods.GetEvents.Contracts.{id_selected-combine}
use stellar_stellar_rpc.Methods.GetEvents.Topics.{HoldsTopics}
use stellar_stellar_rpc.Methods.GetEvents.TopicsKept.{
  HasValues, HasNoValues, topics_selected-combine,
}

-- The filters agree in what they restrict: all of them name types or none does, likewise contracts,
-- and likewise values among their topics.
pub record IsUniform {V : Type 0} (sdk : Sdk V) (fs : List (EventFilter V)) : Type 0 where
  pub types : All (λ f. f.event_type ≢ []) fs ⊎ All (λ f. f.event_type ≡ []) fs
  pub contracts : All (λ f. f.contract_ids ≢ []) fs ⊎ All (λ f. f.contract_ids ≡ []) fs
  pub values : All (HasValues sdk) fs ⊎ All (HasNoValues sdk) fs

abbrev pub AreValidTopics : {V : Type 0} → EventFilter V → Type 0
AreValidTopics f = All (λ t. topics_valid t ≡ none) f.topics

module _ {V : Type 0} (sdk : Sdk V) where
  any_topic-Any :
      (ts : List (List (SegmentFilter V))) (topics : List V)
      → All (λ t. topics_valid t ≡ none) ts
      → any_topic sdk ts topics ≡ some true
      → Any (λ t. fits sdk.equals t topics ≡ true) ts
  unfolding any_topic
  any_topic-Any [] topics h e = cc
  any_topic-Any (t ∷ ts) topics h e = elim (Bool-cases (fits sdk.equals t topics)) [
    | inl k ↦ inl k
    | inr k ↦
        inr (
          any_topic-Any ts topics h.1 (ground (arith, e, k, matches-valid sdk.equals t topics h.0)))
  ]

  matches_topics-Any :
      (ts : List (List (SegmentFilter V))) (topics : List V)
      → All (λ t. topics_valid t ≡ none) ts
      → matches_topics sdk ts (some topics) ≡ some true
      → (ts ≡ []) ⊎ Any (λ t. fits sdk.equals t topics ≡ true) ts
  unfolding matches_topics
  matches_topics-Any [] topics h e = inl refl
  matches_topics-Any (t ∷ ts) topics h e = inr (any_topic-Any (t ∷ ts) topics h e)

  any_filter-Any :
      (fs : List (EventFilter V)) (e : DiagnosticEvent V)
      → any_filter sdk fs e ≡ some true
      → Any (λ f. filter_matches sdk f e ≡ some true) fs
  unfolding any_filter
  any_filter-Any [] e h = cc
  any_filter-Any (f ∷ fs) e h = by_first (filter_matches sdk f e) refl h (any_filter-Any fs e)
    where
      by_first :
          (o : Option Bool)
          → filter_matches sdk f e ≡ o
          → (o >>= λ b. if b then some true else any_filter sdk fs e) ≡ some true
          → (any_filter sdk fs e ≡ some true → Any (λ f. filter_matches sdk f e ≡ some true) fs)
          → Any (λ f. filter_matches sdk f e ≡ some true) (f ∷ fs)
      by_first none k h ih = cc
      by_first (some true) k h ih = inl k
      by_first (some false) k h ih = inr (ih h)

  filter_matches-parts :
      (f : EventFilter V) (e : DiagnosticEvent V)
      → filter_matches sdk f e ≡ some true
      → (type_matches f.event_type e.event_type ≡ true)
        × (matches_contract_ids sdk f.contract_ids e.contract_id ≡ true)
        × (matches_topics sdk f.topics e.topics ≡ some true)
  unfolding filter_matches
  filter_matches-parts f e h = ground (arith, h)

module _ {V : Type 0} (sdk : Sdk V) where
  HoldsTopics-beyond :
      (cs : List (Option Bytes)) (i : ℕ) (vs : List V) → 4 < i + 1 → HoldsTopics sdk cs i vs
  HoldsTopics-beyond cs i [] h = tt
  HoldsTopics-beyond cs i (v ∷ vs) h =
      ((λ b lt m. absurd (omega arith)), HoldsTopics-beyond cs (i + 1) vs (omega arith))

  topic_list-HoldsTopics :
      (pre cs : List (Option Bytes)) (i n : ℕ) (vs : List V)
      → length pre ≡ i
      → i + n ≡ 4
      → topic_list sdk.marshal n vs ≡ some cs
      → HoldsTopics sdk (pre ++ cs) i vs
  unfolding topic_list
  topic_list-HoldsTopics pre cs i zero vs e four h =
      HoldsTopics-beyond (pre ++ cs) i vs (omega arith)
  topic_list-HoldsTopics pre cs i (suc n) [] e four h = tt
  topic_list-HoldsTopics pre cs i (suc n) (v ∷ vs) e four h =
      let (b, m, k) =
        >>=-eq-some (sdk.marshal v) (λ b. topic_list sdk.marshal n vs >>= λ cs. some (some b ∷ cs))
          h in
      let (rest, l, same) =
        >>=-eq-some (topic_list sdk.marshal n vs) (λ cs. some (some b ∷ cs)) k in
      let eq : some b ∷ rest ≡ cs = cc in
      subst (λ x. HoldsTopics sdk (pre ++ x) i (v ∷ vs)) eq
        (
          (λ b' lt m'.
              ap (λ j. get_elem? (pre ++ (some b ∷ rest)) j) (sym e)
              ∙ get_elem?-middle pre (some b) rest
              ∙ ap (λ x. some (some x)) (some-injective (sym m ∙ m'))),
          subst (λ x. HoldsTopics sdk x (i + 1) vs) (append_assoc pre (some b ∷ []) rest)
              (topic_list-HoldsTopics (pre ++ (some b ∷ [])) rest (i + 1) n vs
                (omega (arith, length-append pre (some b ∷ []))) (omega arith) l),
        )

-- the columns of a row are those of an event
pub record IsRowOf {V : Type 0} (sdk : Sdk V) (row : EventRow V) (e : DiagnosticEvent V)
    : Type 0 where
  pub contract : row.contract_id ≡ e.contract_id
  pub kind : row.event_type ≡ e.event_type
  pub blob : row.event_data ≡ some e
  pub values : List V
  pub body : e.topics ≡ some values
  pub columns : topic_list sdk.marshal 4 values ≡ some row.topics

-- the conditions of a query are those of the filters
pub record IsQueryFor {V : Type 0} (sdk : Sdk V) (fs : List (EventFilter V)) (q : EventQuery)
    : Type 0 where
  pub ids : combine_contract_ids sdk fs ≡ some q.contract_ids
  pub topics : combine_topics sdk fs ([] ∷ [] ∷ [] ∷ [] ∷ []) ≡ ok q.topics
  pub types : q.event_types ≡ combine_event_types fs []

module _ {V : Type 0} (sdk : Sdk V) where
  -- The rows that `InsertEvents` writes have the columns of their events.
  pub event_row-IsRowOf :
      (toid : Toid) (ledger : ℕ) (close_time : ℤ) (tx : ℕ) (hash : Bytes) (index : ℕ)
      (marshals : Bool) (e : DiagnosticEvent V) {row : EventRow V}
      → event_row sdk toid ledger close_time tx hash index marshals e ≡ some row
      → IsRowOf sdk row e
  unfolding event_row
  event_row-IsRowOf toid ledger close_time tx hash index false e h = cc
  event_row-IsRowOf toid ledger close_time tx hash index true e h =
      let (vs, body, k) = >>=-eq-some e.topics _ h in
      let (cs, columns, same) = >>=-eq-some (topic_list sdk.marshal 4 vs) _ k in
      subst (λ r. IsRowOf sdk r e) (some-injective same)
        (record {
          contract = refl;
          kind = refl;
          blob = refl;
          values = vs;
          body = body;
          columns = columns;
        })

  columns_selected-Any :
      (fs : List (EventFilter V)) (q : EventQuery) (row : EventRow V) (e : DiagnosticEvent V)
      → IsUniform sdk fs
      → All AreValidTopics fs
      → IsQueryFor sdk fs q
      → IsRowOf sdk row e
      → Any (λ f. filter_matches sdk f e ≡ some true) fs
      → columns_selected q row ≡ true
  unfolding columns_selected
  columns_selected-Any fs q row e u valid query r a = ground (arith, by_id, by_type, by_topics)
    where
      parts :
          Any
            (λ f.
              (type_matches f.event_type e.event_type ≡ true)
              × (matches_contract_ids sdk f.contract_ids e.contract_id ≡ true)
              × (matches_topics sdk f.topics e.topics ≡ some true))
            fs
      parts = Any-map _ _ fs (λ f. filter_matches-parts sdk f e) a

      by_id : id_selected q.contract_ids row.contract_id ≡ true
      by_id = rw r.contract (
          id_selected-combine sdk fs q.contract_ids e.contract_id query.ids u.contracts
            (Any-map _ _ fs (λ f p. p.1) parts))

      by_type : type_selected q.event_types row.event_type ≡ true
      by_type =
          rw (query.types, r.kind)
            (type_selected-combine e.event_type fs u.types (Any-map _ _ fs (λ f p. p.0) parts))

      by_topics : topics_selected q.topics row.topics ≡ true
      by_topics =
          topics_selected-combine sdk fs r.values q.topics row.topics query.topics u.values
            (topic_list-HoldsTopics sdk [] row.topics 0 4 r.values refl refl r.columns)
            (Any-with AreValidTopics _ _ fs
              (λ f v p.
                matches_topics-Any sdk f.topics r.values v
                  (ap (matches_topics sdk f.topics) (sym r.body) ∙ p.2))
              valid parts)

  -- A row of an event that the request matches passes the conditions of its query, where the
  -- filters are uniform and their topics valid.
  pub columns_selected-matching :
      (fs : List (EventFilter V)) (q : EventQuery) (row : EventRow V) (e : DiagnosticEvent V)
      → IsUniform sdk fs
      → All AreValidTopics fs
      → IsQueryFor sdk fs q
      → IsRowOf sdk row e
      → request_matches sdk fs e ≡ some true
      → columns_selected q row ≡ true
  unfolding request_matches columns_selected combine_contract_ids combine_topics combine_event_types
  columns_selected-matching (f ∷ fs) q row e u valid query r h =
      columns_selected-Any (f ∷ fs) q row e u valid query r (any_filter-Any sdk (f ∷ fs) e h)
  columns_selected-matching [] q row e u valid query r h = rw (ids, query.types, topics) refl
    where
      ids : q.contract_ids ≡ []
      ids = sym (some-injective query.ids)

      topics : q.topics ≡ [] ∷ [] ∷ [] ∷ [] ∷ []
      topics = ok-injective (sym query.topics)
