-- ===== src/Methods/GetEvents/TopicsKept.antt =====
-- The conditions on the topics that all the filters give together keep what a filter matches.
use stellar_stellar_rpc.Base.{
  ℕ, ◌+◌, ◌≡◌, ◌≢◌, refl, ap, ◌∙◌, ◌⊎◌, inl, inr, Option, List, [], ◌∷◌, true, false, arith, length,
  ok, err, panic, and_then-ok,
}
use stellar_stellar_rpc.Base.Decimal.{Bytes}
use stellar_stellar_rpc.Base.Weights.{All, Any}
use stellar_stellar_rpc.Protocol.TopicFilter.{SegmentFilter}
use stellar_stellar_rpc.Protocol.TopicFilter.Matching.{fits}
use stellar_stellar_rpc.Protocol.EventFilter.{Sdk, EventFilter}
use stellar_stellar_rpc.Db.Events.{topics_hit, no_topics, topics_selected}
use stellar_stellar_rpc.Methods.GetEvents.Combine.{add_segments, add_topics, combine_topics}
use stellar_stellar_rpc.Methods.GetEvents.Topics.{
  HoldsTopics, has_value, add_segments-length, add_segments_mono, add_segments-hit,
}

module _ {V : Type 0} (sdk : Sdk V) where
  add_topics-length :
      (ts : List (List (SegmentFilter V))) (tss tss' : List (List Bytes))
      → add_topics sdk ts tss ≡ ok tss'
      → length tss' ≡ length tss
  unfolding add_topics
  add_topics-length [] tss tss' e = ground (arith, e)
  add_topics-length (t ∷ ts) tss tss' e =
      let (mid, first, later) = and_then-ok (add_segments sdk 0 t tss) (add_topics sdk ts) e in
      add_topics-length ts mid tss' later ∙ add_segments-length sdk 0 t tss mid first

  add_topics_mono :
      (ts : List (List (SegmentFilter V))) (tss tss' : List (List Bytes)) (cs : List (Option Bytes))
      → add_topics sdk ts tss ≡ ok tss'
      → topics_hit tss cs ≡ true
      → topics_hit tss' cs ≡ true
  unfolding add_topics
  add_topics_mono [] tss tss' cs e h = ground (arith, e, h)
  add_topics_mono (t ∷ ts) tss tss' cs e h =
      let (mid, first, later) = and_then-ok (add_segments sdk 0 t tss) (add_topics sdk ts) e in
      add_topics_mono ts mid tss' cs later (add_segments_mono sdk 0 t tss mid cs first h)

  add_topics-hit :
      (ts : List (List (SegmentFilter V))) (topics : List V) (tss tss' : List (List Bytes))
      (cs : List (Option Bytes))
      → length tss ≡ 4
      → All (λ t. has_value sdk t ≡ true) ts
      → HoldsTopics sdk cs 0 topics
      → Any (λ t. fits sdk.equals t topics ≡ true) ts
      → add_topics sdk ts tss ≡ ok tss'
      → topics_hit tss' cs ≡ true
  unfolding add_topics
  add_topics-hit [] topics tss tss' cs four h c a e = absurd a
  add_topics-hit (t ∷ ts) topics tss tss' cs four h c a e =
      let (mid, first, later) = and_then-ok (add_segments sdk 0 t tss) (add_topics sdk ts) e in
      elim a [
        | inl f ↦
            add_topics_mono ts mid tss' cs later
              (add_segments-hit sdk 0 t topics tss mid cs four f h.0 c first)
        | inr a' ↦
            add_topics-hit ts topics mid tss' cs (add_segments-length sdk 0 t tss mid first ∙ four)
              h.1 c a' later
      ]

  hit-selected :
      (tss : List (List Bytes)) (cs : List (Option Bytes))
      → topics_hit tss cs ≡ true
      → topics_selected tss cs ≡ true
  unfolding topics_selected
  hit-selected tss cs h = ground (arith, h)

  -- what one filter does to the lists, unless it takes every condition away
  combine_topics-ok :
      (f : EventFilter V) (fs : List (EventFilter V)) (tss tss' : List (List Bytes))
      → combine_topics sdk (f ∷ fs) tss ≡ ok tss'
      → (tss' ≡ [])
        ⊎ ((mid : List (List Bytes)) × (f.topics ≢ [])
            × (add_topics sdk f.topics tss ≡ ok mid)
            × (combine_topics sdk fs mid ≡ ok tss'))
  unfolding combine_topics
  combine_topics-ok f fs tss tss' e = by_topics f.topics e
    where
      by_topics :
          (ts : List (List (SegmentFilter V)))
          → elim ts [
            | [] ↦ ok []
            | t ∷ ts ↦ elim (add_topics sdk (t ∷ ts) tss) [
              | ok tss' ↦ combine_topics sdk fs tss'
              | err e ↦ err e
              | panic ↦ panic
            ]
          ]
            ≡ ok tss'
          → (tss' ≡ [])
            ⊎ ((mid : List (List Bytes)) × (ts ≢ [])
                × (add_topics sdk ts tss ≡ ok mid)
                × (combine_topics sdk fs mid ≡ ok tss'))
      by_topics [] e = inl (ground (arith, e))
      by_topics (t ∷ ts) e =
          let (mid, first, later) =
            and_then-ok (add_topics sdk (t ∷ ts) tss) (combine_topics sdk fs) e in
          inr (mid, (λ k. cc), first, later)

  combine_topics_mono :
      (fs : List (EventFilter V)) (tss tss' : List (List Bytes)) (cs : List (Option Bytes))
      → combine_topics sdk fs tss ≡ ok tss'
      → topics_hit tss cs ≡ true
      → topics_selected tss' cs ≡ true
  unfolding topics_selected combine_topics
  combine_topics_mono [] tss tss' cs e h = ground (arith, e, h)
  combine_topics_mono (f ∷ fs) tss tss' cs e h = elim (combine_topics-ok f fs tss tss' e) [
    | inl k ↦ rw k refl
    | inr (mid, some_topic, first, later) ↦
        combine_topics_mono fs mid tss' cs later (add_topics_mono f.topics tss mid cs first h)
  ]

  -- every topic filter asks for some value
  abbrev pub HasValues : EventFilter V → Type 0
  HasValues f = All (λ t. has_value sdk t ≡ true) f.topics

  combine_topics-hit :
      (fs : List (EventFilter V)) (topics : List V) (tss tss' : List (List Bytes))
      (cs : List (Option Bytes))
      → length tss ≡ 4
      → All HasValues fs
      → HoldsTopics sdk cs 0 topics
      → Any (λ f. (f.topics ≡ []) ⊎ Any (λ t. fits sdk.equals t topics ≡ true) f.topics) fs
      → combine_topics sdk fs tss ≡ ok tss'
      → topics_selected tss' cs ≡ true
  unfolding topics_selected
  combine_topics-hit [] topics tss tss' cs four h c a e = absurd a
  combine_topics-hit (f ∷ fs) topics tss tss' cs four h c a e =
      elim (combine_topics-ok f fs tss tss' e) [
        | inl k ↦ rw k refl
        | inr (mid, some_topic, first, later) ↦ elim a [
          | inl (inl k) ↦ absurd (some_topic k)
          | inl (inr b) ↦
              combine_topics_mono fs mid tss' cs later
                (add_topics-hit f.topics topics tss mid cs four h.0 c b first)
          | inr a' ↦
              combine_topics-hit fs topics mid tss' cs
                (add_topics-length f.topics tss mid first ∙ four) h.1 c a' later
        ]
      ]

  -- no topic filter asks for a value
  abbrev pub HasNoValues : EventFilter V → Type 0
  HasNoValues f = All (λ t. has_value sdk t ≡ false) f.topics

  add_segments-same :
      (i : ℕ) (t : List (SegmentFilter V)) (tss : List (List Bytes))
      → has_value sdk t ≡ false
      → add_segments sdk i t tss ≡ ok tss
  unfolding add_segments
  add_segments-same i [] tss h = refl
  add_segments-same i (s ∷ t) tss h = ground (arith, h, add_segments-same (i + 1) t tss)

  add_topics-same :
      (ts : List (List (SegmentFilter V))) (tss : List (List Bytes))
      → All (λ t. has_value sdk t ≡ false) ts
      → add_topics sdk ts tss ≡ ok tss
  unfolding add_topics
  add_topics-same [] tss h = refl
  add_topics-same (t ∷ ts) tss h =
      ground (arith, add_segments-same 0 t tss h.0, add_topics-same ts tss h.1)

  combine_topics-same :
      (fs : List (EventFilter V)) (tss tss' : List (List Bytes))
      → All HasNoValues fs
      → combine_topics sdk fs tss ≡ ok tss'
      → (tss' ≡ []) ⊎ (tss' ≡ tss)
  unfolding combine_topics
  combine_topics-same [] tss tss' h e = inr (ground (arith, e))
  combine_topics-same (f ∷ fs) tss tss' h e = elim (combine_topics-ok f fs tss tss' e) [
    | inl k ↦ inl k
    | inr (mid, some_topic, first, later) ↦
        let same : tss ≡ mid = ground (arith, first, add_topics-same f.topics tss h.0) in
        combine_topics-same fs tss tss' h.1 (ap (combine_topics sdk fs) same ∙ later)
  ]

  selected_of_none :
      (tss : List (List Bytes)) (cs : List (Option Bytes))
      → no_topics tss ≡ true
      → topics_selected tss cs ≡ true
  unfolding topics_selected
  selected_of_none tss cs h = ground (arith, h)

  -- Where every topic filter asks for a value, or none does, the conditions on the topics keep what
  -- a filter matches.
  pub topics_selected-combine :
      (fs : List (EventFilter V)) (topics : List V) (tss : List (List Bytes))
      (cs : List (Option Bytes))
      → combine_topics sdk fs ([] ∷ [] ∷ [] ∷ [] ∷ []) ≡ ok tss
      → All HasValues fs ⊎ All HasNoValues fs
      → HoldsTopics sdk cs 0 topics
      → Any (λ f. (f.topics ≡ []) ⊎ Any (λ t. fits sdk.equals t topics ≡ true) f.topics) fs
      → topics_selected tss cs ≡ true
  unfolding no_topics
  topics_selected-combine fs topics tss cs e (inl h) c a =
      combine_topics-hit fs topics _ tss cs refl h c a e
  topics_selected-combine fs topics tss cs e (inr h) c a = elim (combine_topics-same fs _ tss h e) [
    | inl k ↦ rw k (selected_of_none [] cs refl)
    | inr k ↦ rw k (selected_of_none _ cs refl)
  ]
