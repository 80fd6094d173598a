-- ===== src/Protocol/TopicFilter/Tests.antt =====
-- A filter of topics that are numbers.
use stellar_stellar_rpc.Base.{ℕ, ◌≡◌, refl, some, none, List, [], ◌∷◌, ◌==◌}
use stellar_stellar_rpc.Protocol.TopicFilter.{
  SegmentFilter, exact_one, zero_or_more, matches, topics_valid,
}
use stellar_stellar_rpc.Protocol.TopicFilter.Matching.{fits, matches-valid}

abbrev filter : List (SegmentFilter ℕ)
filter =
    record { wildcard = none; sc_val = some 7 }
    ∷ record { wildcard = some exact_one; sc_val = none }
    ∷ record { wildcard = some zero_or_more; sc_val = none }
    ∷ []

abbrev topics : List ℕ
topics = 7 ∷ 1 ∷ 2 ∷ 3 ∷ []

topics_valid_lem : topics_valid filter ≡ none
unfolding topics_valid
topics_valid_lem = refl

matches-valid_example :
    matches (λ a b. a == b) filter topics ≡ some (fits (λ a b. a == b) filter topics)
matches-valid_example = matches-valid (λ a b. a == b) filter topics topics_valid_lem
