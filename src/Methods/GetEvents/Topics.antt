-- ===== src/Methods/GetEvents/Topics.antt =====
-- The conditions of the query on the columns of topics, against the filters of the request.
use mathlib.Core.Path.{subst}
use stellar_stellar_rpc.Base.{
  ℕ, zero, suc, ◌+◌, ◌<◌, ◌≡◌, refl, sym, ◌∙◌, ◌⊎◌, inl, inr, Option, none, some, List, [], ◌∷◌,
  Bool, true, false, arith, length, get_elem?, ok, err, panic,
}
use stellar_stellar_rpc.Base.Decimal.{Bytes, contains-append_left, contains-append_end}
use stellar_stellar_rpc.Base.Maybe.{>>=-eq-some}
use stellar_stellar_rpc.Protocol.TopicFilter.{SegmentFilter, is_zero_or_more}
use stellar_stellar_rpc.Protocol.TopicFilter.Matching.{fits, segment_fits}
use stellar_stellar_rpc.Protocol.EventFilter.{Sdk}
use stellar_stellar_rpc.Db.Events.{topics_hit}
use stellar_stellar_rpc.Methods.GetEvents.Combine.{append_at, value_of, add_segments}

true_ne_false : true ≡ false → ⊥
true_ne_false h = cc

module _ {V : Type 0} (sdk : Sdk V) where
  append_at_mono :
      (tss : List (List Bytes)) (i : ℕ) (b : Bytes) (tss' : List (List Bytes))
      (cs : List (Option Bytes))
      → append_at sdk tss i b ≡ some tss'
      → topics_hit tss cs ≡ true
      → topics_hit tss' cs ≡ true
  unfolding append_at topics_hit
  append_at_mono [] i b tss' cs e h = cc
  append_at_mono (ts ∷ tss) i b tss' [] e h = cc
  append_at_mono (ts ∷ tss) zero b tss' (none ∷ cs) e h = ground (arith, e, h)
  append_at_mono (ts ∷ tss) zero b tss' (some c ∷ cs) e h =
      ground (arith, e, h, contains-append_left ts (b ∷ []) c)
  append_at_mono (ts ∷ tss) (suc i) b tss' (c ∷ cs) e h =
      let (r, found, same) = >>=-eq-some (append_at sdk tss i b) (λ r. some (ts ∷ r)) e in
      let eq : ts ∷ r ≡ tss' = cc in
      rw (← eq) (ground (arith, h, append_at_mono tss i b r cs found))

  append_at-hit :
      (tss : List (List Bytes)) (i : ℕ) (b : Bytes) (tss' : List (List Bytes))
      (cs : List (Option Bytes))
      → append_at sdk tss i b ≡ some tss'
      → get_elem? cs i ≡ some (some b)
      → topics_hit tss' cs ≡ true
  unfolding append_at topics_hit
  append_at-hit [] i b tss' cs e h = cc
  append_at-hit (ts ∷ tss) i b tss' [] e h = cc
  append_at-hit (ts ∷ tss) zero b tss' (c ∷ cs) e h = ground (arith, e, h, contains-append_end ts b)
  append_at-hit (ts ∷ tss) (suc i) b tss' (c ∷ cs) e h =
      let (r, found, same) = >>=-eq-some (append_at sdk tss i b) (λ r. some (ts ∷ r)) e in
      let eq : ts ∷ r ≡ tss' = cc in rw (← eq) (ground (arith, append_at-hit tss i b r cs found h))

  append_at-length :
      (tss : List (List Bytes)) (i : ℕ) (b : Bytes) (tss' : List (List Bytes))
      → append_at sdk tss i b ≡ some tss'
      → (i < length tss) × (length tss' ≡ length tss)
  unfolding append_at
  append_at-length [] i b tss' e = cc
  append_at-length (ts ∷ tss) zero b tss' e = ground (arith, e)
  append_at-length (ts ∷ tss) (suc i) b tss' e =
      let (r, found, same) = >>=-eq-some (append_at sdk tss i b) (λ r. some (ts ∷ r)) e in
      let eq : ts ∷ r ≡ tss' = cc in rw (← eq) (ground (arith, append_at-length tss i b r found))

  -- The columns from index `i` on hold the encodings of topics.
  abbrev pub HoldsTopics : List (Option Bytes) → ℕ → List V → Type 0
  HoldsTopics cs i [] = Unit
  HoldsTopics cs i (v ∷ vs) =
      ((b : Bytes) → i < 4 → sdk.marshal v ≡ some b → get_elem? cs i ≡ some (some b))
      × HoldsTopics cs (i + 1) vs

  -- a segment with a value and no wildcard
  abbrev pub has_value : List (SegmentFilter V) → Bool
  has_value [] = false
  has_value (s ∷ t) = elim (value_of sdk s) [ none ↦ has_value t | some _ ↦ true ]

  -- what one segment does to the lists
  abbrev Segment :
      ℕ → SegmentFilter V → List (SegmentFilter V) → List (List Bytes) → List (List Bytes) → Type 0
  Segment i s t tss tss' =
      ((value_of sdk s ≡ none) × (add_segments sdk (i + 1) t tss ≡ ok tss'))
      ⊎ ((v : V) × (b : Bytes) × (mid : List (List Bytes)) × (value_of sdk s ≡ some v)
          × (sdk.marshal v ≡ some b)
          × (append_at sdk tss i b ≡ some mid)
          × (add_segments sdk (i + 1) t mid ≡ ok tss'))

  add_segments-ok :
      (i : ℕ) (s : SegmentFilter V) (t : List (SegmentFilter V)) (tss tss' : List (List Bytes))
      → add_segments sdk i (s ∷ t) tss ≡ ok tss'
      → Segment i s t tss tss'
  unfolding add_segments
  add_segments-ok i s t tss tss' e = by_value (value_of sdk s) refl e
    where
      by_append :
          (v : V) (b : Bytes) (o : Option (List (List Bytes)))
          → value_of sdk s ≡ some v
          → sdk.marshal v ≡ some b
          → append_at sdk tss i b ≡ o
          → elim o [ none ↦ panic | some mid ↦ add_segments sdk (i + 1) t mid ] ≡ ok tss'
          → Segment i s t tss tss'
      by_append v b none h k l e = cc
      by_append v b (some mid) h k l e = inr (v, b, mid, h, k, l, e)

      by_marshal :
          (v : V) (o : Option Bytes)
          → value_of sdk s ≡ some v
          → sdk.marshal v ≡ o
          → elim o [
            | none ↦ err tt
            | some b ↦ elim (append_at sdk tss i b) [
              | none ↦ panic
              | some mid ↦ add_segments sdk (i + 1) t mid
            ]
          ]
            ≡ ok tss'
          → Segment i s t tss tss'
      by_marshal v none h k e = cc
      by_marshal v (some b) h k e = by_append v b (append_at sdk tss i b) h k refl e

      by_value :
          (o : Option V)
          → value_of sdk s ≡ o
          → elim o [
            | none ↦ add_segments sdk (i + 1) t tss
            | some v ↦ elim (sdk.marshal v) [
              | none ↦ err tt
              | some b ↦ elim (append_at sdk tss i b) [
                | none ↦ panic
                | some mid ↦ add_segments sdk (i + 1) t mid
              ]
            ]
          ]
            ≡ ok tss'
          → Segment i s t tss tss'
      by_value none h e = inl (h, e)
      by_value (some v) h e = by_marshal v (sdk.marshal v) h refl e

  pub add_segments-length :
      (i : ℕ) (t : List (SegmentFilter V)) (tss tss' : List (List Bytes))
      → add_segments sdk i t tss ≡ ok tss'
      → length tss' ≡ length tss
  unfolding add_segments
  add_segments-length i [] tss tss' e = ground (arith, e)
  add_segments-length i (s ∷ t) tss tss' e = elim (add_segments-ok i s t tss tss' e) [
    | inl (h, k) ↦ add_segments-length (i + 1) t tss tss' k
    | inr (v, b, mid, h, k, l, r) ↦
        add_segments-length (i + 1) t mid tss' r ∙ (append_at-length tss i b mid l).1
  ]

  pub add_segments_mono :
      (i : ℕ) (t : List (SegmentFilter V)) (tss tss' : List (List Bytes)) (cs : List (Option Bytes))
      → add_segments sdk i t tss ≡ ok tss'
      → topics_hit tss cs ≡ true
      → topics_hit tss' cs ≡ true
  unfolding add_segments
  add_segments_mono i [] tss tss' cs e m = ground (arith, e, m)
  add_segments_mono i (s ∷ t) tss tss' cs e m = elim (add_segments-ok i s t tss tss' e) [
    | inl (h, k) ↦ add_segments_mono (i + 1) t tss tss' cs k m
    | inr (v, b, mid, h, k, l, r) ↦
        add_segments_mono (i + 1) t mid tss' cs r (append_at_mono tss i b mid cs l m)
  ]

  -- A segment with a value fits a topic with its encoding.
  value_fits :
      (s : SegmentFilter V) (v w : V)
      → value_of sdk s ≡ some v
      → segment_fits sdk.equals s w ≡ true
      → sdk.equals v w ≡ true
  value_fits s v w h e = ground (arith, h, e)

  not_any_number :
      (s : SegmentFilter V) (v : V) → value_of sdk s ≡ some v → is_zero_or_more s.wildcard ≡ false
  not_any_number s v h = ground (arith, h)

  fits-value :
      (s : SegmentFilter V) (t : List (SegmentFilter V)) (topics : List V) (v : V)
      → value_of sdk s ≡ some v
      → fits sdk.equals (s ∷ t) topics ≡ true
      → (w : V) × (ws : List V) × (topics ≡ w ∷ ws) × (sdk.equals v w ≡ true)
  fits-value s [] [] v h f = absurd (true_ne_false (sym f ∙ not_any_number s v h))
  fits-value s [] (w ∷ []) v h f = (w, [], refl, value_fits s v w h f)
  fits-value s [] (w ∷ x ∷ ws) v h f = absurd (true_ne_false (sym f ∙ not_any_number s v h))
  fits-value s (u ∷ t) [] v h f = absurd (true_ne_false (sym f))
  fits-value s (u ∷ t) (w ∷ ws) v h f = (w, ws, refl, value_fits s v w h (ground (arith, f)))

  fits-later :
      (s : SegmentFilter V) (t : List (SegmentFilter V)) (topics : List V)
      → has_value t ≡ true
      → fits sdk.equals (s ∷ t) topics ≡ true
      → (w : V) × (ws : List V) × (topics ≡ w ∷ ws) × (fits sdk.equals t ws ≡ true)
  fits-later s [] topics h f = absurd (true_ne_false (sym h))
  fits-later s (u ∷ t) [] h f = absurd (true_ne_false (sym f))
  fits-later s (u ∷ t) (w ∷ ws) h f = (w, ws, refl, ground (arith, f))

  column :
      (i : ℕ) (topics : List V) (cs : List (Option Bytes)) (v : V) (b : Bytes)
      → i < 4
      → sdk.marshal v ≡ some b
      → HoldsTopics cs i topics
      → (w : V) × (ws : List V) × (topics ≡ w ∷ ws) × (sdk.equals v w ≡ true)
      → get_elem? cs i ≡ some (some b)
  column i topics cs v b four l c (w, ws, eq, same) =
      (subst (HoldsTopics cs i) eq c).0 b four (sym (sdk.marshal_equal v w same) ∙ l)

  -- the topics that fit a filter with a value bring a column that the lists have
  pub add_segments-hit :
      (i : ℕ) (t : List (SegmentFilter V)) (topics : List V) (tss tss' : List (List Bytes))
      (cs : List (Option Bytes))
      → length tss ≡ 4
      → fits sdk.equals t topics ≡ true
      → has_value t ≡ true
      → HoldsTopics cs i topics
      → add_segments sdk i t tss ≡ ok tss'
      → topics_hit tss' cs ≡ true
  add_segments-hit i [] topics tss tss' cs four f h c e = cc
  add_segments-hit i (s ∷ t) topics tss tss' cs four f h c e =
      elim (add_segments-ok i s t tss tss' e) [
        | inl (k, r) ↦
            let later : has_value t ≡ true = ground (arith, h, k) in
            let (w, ws, eq, f') = fits-later s t topics later f in
            add_segments-hit (i + 1) t ws tss tss' cs four f' later
              (subst (HoldsTopics cs i) eq c).1 r
        | inr (v, b, mid, k, l, m, r) ↦ add_segments_mono (i + 1) t mid tss' cs r (
            append_at-hit tss i b mid cs m (
              column i topics cs v b (omega (arith, (append_at-length tss i b mid m).0)) l c
                (fits-value s t topics v k f)))
      ]
