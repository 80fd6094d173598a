-- ===== src/Protocol/TopicFilter/Matching.antt =====
-- Which events a filter of topics matches, segment by segment.
use stellar_stellar_rpc.Base.{
  ◌≡◌, ◌≢◌, ◌⊎◌, refl, inl, inr, Option, none, some, List, [], ◌∷◌, Bool, true, false, ◌&&◌, arith,
  Bool-cases, if◌then◌else◌,
}
use stellar_stellar_rpc.Base.Weights.{All}
use stellar_stellar_rpc.Protocol.TopicFilter.{
  Wildcard, SegmentFilter, is_wild, is_zero_or_more, segment_matches,
  has_trailing_zero_or_more_wildcard, but_last, matches, FilterError, segment_valid, segments_valid,
  topics_valid, exact_one, zero_or_more, invalid,
}

-- `*` and `**` match any topic, a value those that equal it.
abbrev pub segment_fits : {V : Type 0} → (V → V → Bool) → SegmentFilter V → V → Bool
segment_fits equals s v =
    if is_wild s.wildcard then true else elim s.sc_val [ none ↦ false | some w ↦ equals w v ]

-- A segment is set: it has a valid wildcard or a value.
abbrev pub IsSegment : {V : Type 0} → SegmentFilter V → Type 0
IsSegment s = (is_wild s.wildcard ≡ false) → s.sc_val ≢ none

-- The topics fit one by one, and a last `**` fits any number of topics.
abbrev pub fits : {V : Type 0} → (V → V → Bool) → List (SegmentFilter V) → List V → Bool
fits equals [] [] = true
fits equals [] (v ∷ vs) = false
fits equals (s ∷ []) [] = is_zero_or_more s.wildcard
fits equals (s ∷ []) (v ∷ []) = segment_fits equals s v
fits equals (s ∷ []) (v ∷ w ∷ vs) = is_zero_or_more s.wildcard
fits equals (s ∷ u ∷ t) [] = false
fits equals (s ∷ u ∷ t) (v ∷ vs) = segment_fits equals s v && fits equals (u ∷ t) vs

module _ {V : Type 0} (equals : V → V → Bool) where
  segment_matches-some :
      (s : SegmentFilter V) (v : V)
      → IsSegment s
      → segment_matches equals s v ≡ some (segment_fits equals s v)
  unfolding segment_matches
  segment_matches-some s v h = ground (arith, h)

  zero_or_more_fits :
      (s : SegmentFilter V) (v : V)
      → is_zero_or_more s.wildcard ≡ true
      → segment_fits equals s v ≡ true
  zero_or_more_fits s v h = ground (arith, h)

  matches-cons :
      (s u : SegmentFilter V) (t : List (SegmentFilter V)) (v : V) (vs : List V) {b c : Bool}
      → segment_matches equals s v ≡ some b
      → matches equals (u ∷ t) vs ≡ some c
      → matches equals (s ∷ u ∷ t) (v ∷ vs) ≡ some (b && c)
  unfolding matches
  matches-cons s u t v vs e f = ground (arith, e, f)

  -- It does not panic when each segment is set, and is true just for the events
  -- whose topics fit one by one, where a last `**` fits any number of them.
  pub matches_lem :
      (t : List (SegmentFilter V)) (event : List V)
      → All IsSegment t
      → matches equals t event ≡ some (fits equals t event)
  unfolding matches
  matches_lem [] [] h = refl
  matches_lem [] (v ∷ vs) h = ground arith
  matches_lem (s ∷ []) [] h = ground arith
  matches_lem (s ∷ []) (v ∷ []) h =
      ground (arith, segment_matches-some s v h.0, zero_or_more_fits s v)
  matches_lem (s ∷ []) (v ∷ w ∷ vs) h = ground arith
  matches_lem (s ∷ u ∷ t) [] h = ground arith
  matches_lem (s ∷ u ∷ t) (v ∷ vs) h =
      matches-cons s u t v vs (segment_matches-some s v h.0) (matches_lem (u ∷ t) vs h.1)

segment_valid-IsSegment : {V : Type 0} (s : SegmentFilter V) → segment_valid s ≡ none → IsSegment s
unfolding segment_valid
segment_valid-IsSegment {V} s h = by_fields s.wildcard s.sc_val h
  where
    by_fields :
        (w : Option Wildcard) (v : Option V)
        → segment_valid (record { wildcard = w; sc_val = v }) ≡ none
        → is_wild w ≡ false
        → v ≢ none
    by_fields (some w) (some v) h k e = cc
    by_fields none none h k e = cc
    by_fields (some invalid) none h k e = cc
    by_fields (some exact_one) none h k e = cc
    by_fields (some zero_or_more) none h k e = cc
    by_fields none (some v) h k e = cc

segments_valid-All :
    {V : Type 0} (t : List (SegmentFilter V)) → segments_valid t ≡ none → All IsSegment t
unfolding segments_valid
segments_valid-All [] h = tt
segments_valid-All (s ∷ t) h = by_first (segment_valid s) refl h (segments_valid-All t)
  where
    by_first :
        (o : Option FilterError)
        → segment_valid s ≡ o
        → elim o [ some e ↦ some e | none ↦ segments_valid t ] ≡ none
        → (segments_valid t ≡ none → All IsSegment t)
        → All IsSegment (s ∷ t)
    by_first none e h rest = (segment_valid-IsSegment s e, rest h)
    by_first (some x) e h rest = cc

-- A last `**` is set, so the segments before it decide.
but_last-All :
    {V : Type 0} (t : List (SegmentFilter V))
    → has_trailing_zero_or_more_wildcard t ≡ true
    → All IsSegment (but_last t)
    → All IsSegment t
unfolding has_trailing_zero_or_more_wildcard but_last
but_last-All [] e h = tt
but_last-All (s ∷ []) e h = (λ k. ground (arith, e, k), tt)
but_last-All (s ∷ u ∷ t) e h = (h.0, but_last-All (u ∷ t) e h.1)

topics_valid-cases :
    {V : Type 0} (t : List (SegmentFilter V))
    → topics_valid t ≡ none
    → ((has_trailing_zero_or_more_wildcard t ≡ true) × (segments_valid (but_last t) ≡ none))
      ⊎ (segments_valid t ≡ none)
unfolding topics_valid
topics_valid-cases t h = elim (Bool-cases (has_trailing_zero_or_more_wildcard t)) [
  | inl k ↦ inl (k, ground (arith, h, k))
  | inr k ↦ inr (ground (arith, h, k))
]

-- For a filter that Valid accepts, TopicFilter.Matches does not panic, and is true just for the
-- events whose topics fit one by one, where a last `**` fits any number of them.
pub matches-valid :
    {V : Type 0} (equals : V → V → Bool) (t : List (SegmentFilter V)) (event : List V)
    → topics_valid t ≡ none
    → matches equals t event ≡ some (fits equals t event)
matches-valid equals t event h = elim (topics_valid-cases t h) [
  | inl (k, v) ↦ matches_lem equals t event (but_last-All t k (segments_valid-All (but_last t) v))
  | inr v ↦ matches_lem equals t event (segments_valid-All t v)
]
