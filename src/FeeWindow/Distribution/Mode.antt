-- ===== src/FeeWindow/Distribution/Mode.antt =====
-- The loop for the mode: it finds the fee that occurs most often, the smallest of those.
use stellar_stellar_rpc.Base.{
  ℕ, ◌+◌, ◌≤◌, ◌<◌, ◌≡◌, refl, sym, ◌⊎◌, inr, List, [], ◌∷◌, some, last?, arith, ◌==◌, ltb, lt→ltb,
  false, true, if◌then◌else◌,
}
use native.Mathlib.Decide.{ℕ_discrete, dec_lt}
use stellar_stellar_rpc.FeeWindow.Distribution.{
  Clusters, first_cluster, count_fee, count_fees, mode_of,
}
use stellar_stellar_rpc.FeeWindow.Distribution.Sorting.{count, Ascends, count-below}

==_self : (a : ℕ) → (a == a) ≡ true
==_self a = ground arith

-- The state of the loop before the fees `rest`, where `total` tells how often each fee occurs in all.
record IsTally (total : ℕ → ℕ) (c : Clusters) (rest : List ℕ) : Type 0 where
  current : total c.last_val ≡ c.local_repetitions + 1 + count c.last_val rest
  later : (v : ℕ) → c.last_val < v → total v ≡ count v rest
  earlier : (v : ℕ) → v < c.last_val → total v ≤ c.max_repetitions + 1
  smallest : (v : ℕ) → v < c.last_val → total v ≡ c.max_repetitions + 1 → c.mode ≤ v
  best :
      ((c.mode < c.last_val) × (total c.mode ≡ c.max_repetitions + 1))
      ⊎ ((c.mode ≡ c.last_val) × (c.max_repetitions ≡ 0))

module _ (total : ℕ → ℕ) (c : Clusters) (fee : ℕ) (rest : List ℕ) (t : IsTally total c (fee ∷ rest))
    (s : Ascends c.last_val (fee ∷ rest)) where
  count_fee-IsTally : IsTally total (count_fee c fee) rest
  unfolding count_fee
  count_fee-IsTally = elim (ℕ_discrete fee c.last_val) [ yes e ↦ same e | no n ↦ fresh n ]
    where
      same : fee ≡ c.last_val → IsTally total (count_fee c fee) rest
      same e =
          rw (e, ==_self c.last_val)
            (record {
              current = ground (arith, t.current);
              later = λ v h. ground (arith, t.later v);
              earlier = t.earlier;
              smallest = t.smallest;
              best = t.best;
            })

      between : (v : ℕ) → c.last_val < v → v < fee → total v ≡ 0
      between v h k = ground (arith, t.later v, count-below v fee rest)

      last_total : c.last_val < fee → total c.last_val ≡ c.local_repetitions + 1
      last_total h = ground (arith, t.current, count-below c.last_val fee rest)

      fresh : ¬ (fee ≡ c.last_val) → IsTally total (count_fee c fee) rest
      fresh n = elim (dec_lt c.max_repetitions c.local_repetitions) [
        | yes more ↦
            rw (==_ne n, lt→ltb _ _ more)
              (record {
                current = ground (arith, t.later fee);
                later = λ v h. ground (arith, t.later v);
                earlier = λ v h. ground (arith, t.earlier v, last_total, between v);
                smallest = λ v h e. ground (arith, t.earlier v, last_total, between v);
                best = ground (arith, last_total);
              })
        | no few ↦
            rw (==_ne n, not_ltb few)
              (record {
                current = ground (arith, t.later fee);
                later = λ v h. ground (arith, t.later v);
                earlier = λ v h. ground (arith, t.earlier v, last_total, between v);
                smallest = λ v h e. ground (arith, t.smallest v, last_total, between v, t.best);
                best = ground (arith, last_total, t.best);
              })
      ]
        where
          not_ltb :
              ¬ (c.max_repetitions < c.local_repetitions)
              → ltb c.max_repetitions c.local_repetitions ≡ false
          not_ltb few = ground arith

          ==_ne : ¬ (fee ≡ c.last_val) → (fee == c.last_val) ≡ false
          ==_ne n = ground arith

last_val-count_fee : (c : Clusters) (fee : ℕ) → (count_fee c fee).last_val ≡ fee
unfolding count_fee
last_val-count_fee c fee = ground arith

count_fees-IsTally :
    (total : ℕ → ℕ) (c : Clusters) (rest : List ℕ)
    → IsTally total c rest
    → Ascends c.last_val rest
    → IsTally total (count_fees c rest) []
unfolding count_fees
count_fees-IsTally total c [] t s = t
count_fees-IsTally total c (fee ∷ rest) t s =
    count_fees-IsTally total (count_fee c fee) rest (count_fee-IsTally total c fee rest t s)
      (rw (last_val-count_fee c fee) s.1)

last_val-count_fees :
    (c : Clusters) (x : ℕ) (rest : List ℕ) {g : ℕ}
    → c.last_val ≡ x
    → last? (x ∷ rest) ≡ some g
    → (count_fees c rest).last_val ≡ g
unfolding count_fees
last_val-count_fees c x [] e h = cc
last_val-count_fees c x (fee ∷ rest) e h =
    last_val-count_fees (count_fee c fee) fee rest (last_val-count_fee c fee) h

-- a fee that occurs, none more often, and the smallest of those that occur as often
pub record IsMode (fees : List ℕ) (m : ℕ) : Type 0 where
  pub occurs : 0 < count m fees
  pub most : (v : ℕ) → count v fees ≤ count m fees
  pub least : (v : ℕ) → count v fees ≡ count m fees → m ≤ v

-- what a finished tally says of the answer
module _ (total : ℕ → ℕ) (c : Clusters) (t : IsTally total c []) where
  abbrev answer : ℕ
  answer = if ltb c.max_repetitions c.local_repetitions then c.last_val else c.mode

  answer-occurs : 0 < total answer
  answer-occurs = ground (arith, t.current, t.best)

  answer-most : (v : ℕ) → total v ≤ total answer
  answer-most v = elim (dec_lt v c.last_val) [
    | yes h ↦ ground (arith, t.current, t.best, t.earlier v h)
    | no h ↦ elim (dec_lt c.last_val v) [
      | yes k ↦ ground (arith, t.current, t.best, t.later v k)
      | no k ↦ let e : v ≡ c.last_val = omega arith in rw e (ground (arith, t.current, t.best))
    ]
  ]

  answer-least : (v : ℕ) → total v ≡ total answer → answer ≤ v
  answer-least v q = elim (dec_lt v c.last_val) [
    | yes h ↦ ground (arith, t.current, t.best, t.earlier v h, t.smallest v h)
    | no h ↦ ground (arith, t.current, t.best)
  ]

-- The mode of ascending fees, as the loop finds it.
pub mode_of-IsMode :
    (first : ℕ) (rest : List ℕ) {greatest : ℕ}
    → Ascends first rest
    → last? (first ∷ rest) ≡ some greatest
    → IsMode (first ∷ rest) (mode_of first rest greatest)
unfolding mode_of
mode_of-IsMode first rest s h = rw (sym (last_val-count_fees c first rest refl h)) (record {
  occurs = answer-occurs total final tally;
  most = answer-most total final tally;
  least = answer-least total final tally;
})
  where
    c : Clusters
    c = first_cluster first

    total : ℕ → ℕ
    total v = count v (first ∷ rest)

    final : Clusters
    final = count_fees c rest

    tally : IsTally total final []
    tally =
        count_fees-IsTally total c rest
          (record {
            current = ground arith;
            later = λ v k. ground arith;
            earlier = λ v k. ground (arith, count-below v first rest k s);
            smallest = λ v k e. ground (arith, count-below v first rest k s);
            best = inr (refl, refl);
          })
          s
