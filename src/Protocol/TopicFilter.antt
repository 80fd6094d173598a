-- ===== src/Protocol/TopicFilter.antt =====
-- protocol/get_events.go: the filters of the topics of an event. The values of the topics and their
-- equality belong to the Go SDK: they are a type and a Boolean test.
pub mod Matching
mod Tests
use stellar_stellar_rpc.Base.{
  ℕ, zero, suc, ◌+◌, ◌-◌, Option, none, some, List, [], ◌∷◌, Bool, true, false, ◌&&◌, not, length,
  ltb, ◌==◌, if◌then◌else◌,
}

-- the texts of wildcards: `*`, `**` and any other
pub data Wildcard : Type 0 where
  exact_one zero_or_more invalid : Wildcard

pub record SegmentFilter (V : Type 0) : Type 0 where
  pub wildcard : Option Wildcard
  pub sc_val : Option V

-- is the wildcard set to a valid text
abbrev pub is_wild : Option Wildcard → Bool
is_wild (some exact_one) = true
is_wild (some zero_or_more) = true
is_wild (some invalid) = false
is_wild none = false

abbrev pub is_zero_or_more : Option Wildcard → Bool
is_zero_or_more (some zero_or_more) = true
is_zero_or_more (some exact_one) = false
is_zero_or_more (some invalid) = false
is_zero_or_more none = false

module _ {V : Type 0} (equals : V → V → Bool) where
  -- `SegmentFilter.Matches`, `none` for the panic
  unfoldable pub segment_matches : SegmentFilter V → V → Option Bool
  segment_matches s segment =
      if is_wild s.wildcard
      then some true
      else elim s.sc_val [ none ↦ none | some v ↦ some (equals v segment) ]

  -- the loop over the topics, which reads the event at each index
  unfoldable pub all_match : List (SegmentFilter V) → List V → Option Bool
  unfolding segment_matches
  all_match [] event = some true
  all_match (s ∷ topics) [] = none
  all_match (s ∷ topics) (v ∷ event) =
      let rest = all_match topics event in
      elim (segment_matches s v) [ none ↦ none | some b ↦ if not b then some false else rest ]

unfoldable pub has_trailing_zero_or_more_wildcard : {V : Type 0} → List (SegmentFilter V) → Bool
has_trailing_zero_or_more_wildcard [] = false
has_trailing_zero_or_more_wildcard (s ∷ []) = is_zero_or_more s.wildcard
has_trailing_zero_or_more_wildcard (s ∷ u ∷ t) = has_trailing_zero_or_more_wildcard (u ∷ t)

-- `t[:len(t)-1]`
unfoldable pub but_last : {V : Type 0} → List (SegmentFilter V) → List (SegmentFilter V)
but_last [] = []
but_last (s ∷ []) = []
but_last (s ∷ u ∷ t) = s ∷ but_last (u ∷ t)

module _ {V : Type 0} (equals : V → V → Bool) where
  -- `TopicFilter.Matches`
  unfoldable pub matches : List (SegmentFilter V) → List V → Option Bool
  unfolding has_trailing_zero_or_more_wildcard but_last all_match
  matches t event =
      if has_trailing_zero_or_more_wildcard t
      then if ltb (length event) (length t - 1)
        then some false
        else all_match equals (but_last t) event
      else if not (length event == length t)
      then some false
      else all_match equals t event

pub data FilterError : Type 0 where
  too_short too_long misplaced_wildcard both_set neither_set bad_wildcard : FilterError

-- `SegmentFilter.Valid`
unfoldable pub segment_valid : {V : Type 0} → SegmentFilter V → Option FilterError
segment_valid s = by_fields s.wildcard s.sc_val
  where
    by_fields : {V : Type 0} → Option Wildcard → Option V → Option FilterError
    by_fields (some w) (some v) = some both_set
    by_fields none none = some neither_set
    by_fields (some invalid) none = some bad_wildcard
    by_fields (some w) none = none
    by_fields none (some v) = none

unfoldable pub any_zero_or_more : {V : Type 0} → List (SegmentFilter V) → Bool
any_zero_or_more [] = false
any_zero_or_more (s ∷ t) =
    let rest = any_zero_or_more t in if is_zero_or_more s.wildcard then true else rest

-- the last loop of `TopicFilter.Valid`
unfoldable pub segments_valid : {V : Type 0} → List (SegmentFilter V) → Option FilterError
unfolding segment_valid
segments_valid [] = none
segments_valid (s ∷ t) =
    let rest = segments_valid t in elim (segment_valid s) [ some e ↦ some e | none ↦ rest ]

-- `TopicFilter.Valid`
unfoldable pub topics_valid : {V : Type 0} → List (SegmentFilter V) → Option FilterError
unfolding has_trailing_zero_or_more_wildcard but_last any_zero_or_more segments_valid
topics_valid t =
    if ltb (length t) 1
    then some too_short
    else let topics = if has_trailing_zero_or_more_wildcard t then but_last t else t in
      if any_zero_or_more topics
      then some misplaced_wildcard
      else if ltb 4 (length topics)
      then some too_long
      else segments_valid topics
