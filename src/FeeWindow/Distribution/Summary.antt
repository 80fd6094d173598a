-- ===== src/FeeWindow/Distribution/Summary.antt =====
-- What `computeFeeDistribution` returns, in terms of the fees that it is given.
use stellar_stellar_rpc.Base.{
  ℕ, ◌^◌, ◌≤◌, ◌<◌, ◌≡◌, refl, sym, ap, ◌∙◌, List, [], ◌∷◌, some, length, last?, arith, u32,
}
use stellar_stellar_rpc.FeeWindow.Distribution.{
  FeeDistribution, zero_distribution, sort, distribution_of, summarise, compute_fee_distribution,
}
use stellar_stellar_rpc.FeeWindow.Distribution.Sorting.{
  count, Ascends, IsSorted, sort-IsSorted, count-sort, count_le-sort, count_lt-sort, length-sort,
  sort-eq_of_count, count-below,
}
use stellar_stellar_rpc.FeeWindow.Distribution.Mode.{IsMode, mode_of-IsMode}
use stellar_stellar_rpc.FeeWindow.Distribution.Percentile.{IsNearestRank, percentile_lem}

-- The distribution of at least one fee.
pub record IsDistribution (fees : List ℕ) (ledger_count : ℕ) (d : FeeDistribution) : Type 0 where
  pub max_occurs : 0 < count d.max fees
  pub max_above : (v : ℕ) → 0 < count v fees → v ≤ d.max
  pub min_occurs : 0 < count d.min fees
  pub min_below : (v : ℕ) → 0 < count v fees → d.min ≤ v
  pub mode : IsMode fees d.mode
  pub p10 : IsNearestRank 10 fees d.p10
  pub p20 : IsNearestRank 20 fees d.p20
  pub p30 : IsNearestRank 30 fees d.p30
  pub p40 : IsNearestRank 40 fees d.p40
  pub p50 : IsNearestRank 50 fees d.p50
  pub p60 : IsNearestRank 60 fees d.p60
  pub p70 : IsNearestRank 70 fees d.p70
  pub p80 : IsNearestRank 80 fees d.p80
  pub p90 : IsNearestRank 90 fees d.p90
  pub p95 : IsNearestRank 95 fees d.p95
  pub p99 : IsNearestRank 99 fees d.p99
  pub counted : d.fee_count ≡ u32 (length fees)
  pub ledgers : d.ledger_count ≡ ledger_count

last?-cons : (x : ℕ) (xs : List ℕ) → (y : ℕ) × (last? (x ∷ xs) ≡ some y)
last?-cons x [] = (x, refl)
last?-cons x (z ∷ xs) = last?-cons z xs

last_above :
    (x : ℕ) (xs : List ℕ) {y : ℕ}
    → Ascends x xs
    → last? (x ∷ xs) ≡ some y
    → (0 < count y (x ∷ xs)) × ((v : ℕ) → 0 < count v (x ∷ xs) → v ≤ y)
last_above x [] s e = (ground arith, λ v h. ground arith)
last_above x (z ∷ xs) {y} s e =
    let (occurs, above) = last_above z xs s.1 e in (ground arith, λ v h. bound v h above)
  where
    bound : (v : ℕ) → 0 < count v (x ∷ z ∷ xs) → ((v : ℕ) → 0 < count v (z ∷ xs) → v ≤ y) → v ≤ y
    bound v h above = ground (arith, above v, above z)

first_below : (x : ℕ) (xs : List ℕ) → Ascends x xs → (v : ℕ) → 0 < count v (x ∷ xs) → x ≤ v
first_below x xs s v h = ground (arith, count-below v x xs)

head_occurs : (x : ℕ) (xs : List ℕ) → 0 < count x (x ∷ xs)
head_occurs x xs = ground arith

-- The distribution of ascending fees.
distribution_of_lem :
    (x : ℕ) (xs : List ℕ) (n : ℕ)
    → Ascends x xs
    → length (x ∷ xs) < 2 ^ 57
    → (d : FeeDistribution) × (distribution_of x xs n ≡ some d) × IsDistribution (x ∷ xs) n d
unfolding distribution_of
distribution_of_lem x xs n s q =
    let (g, last_eq) = last?-cons x xs in
    let (g_occurs, g_above) = last_above x xs s last_eq in
    let (v10, e10, r10) = percentile_lem x xs 10 s (omega arith) (omega arith) q in
    let (v20, e20, r20) = percentile_lem x xs 20 s (omega arith) (omega arith) q in
    let (v30, e30, r30) = percentile_lem x xs 30 s (omega arith) (omega arith) q in
    let (v40, e40, r40) = percentile_lem x xs 40 s (omega arith) (omega arith) q in
    let (v50, e50, r50) = percentile_lem x xs 50 s (omega arith) (omega arith) q in
    let (v60, e60, r60) = percentile_lem x xs 60 s (omega arith) (omega arith) q in
    let (v70, e70, r70) = percentile_lem x xs 70 s (omega arith) (omega arith) q in
    let (v80, e80, r80) = percentile_lem x xs 80 s (omega arith) (omega arith) q in
    let (v90, e90, r90) = percentile_lem x xs 90 s (omega arith) (omega arith) q in
    let (v95, e95, r95) = percentile_lem x xs 95 s (omega arith) (omega arith) q in
    let (v99, e99, r99) = percentile_lem x xs 99 s (omega arith) (omega arith) q in
    (
      _,
      rw (last_eq, e10, e20, e30, e40, e50, e60, e70, e80, e90, e95, e99),
      record {
        max_occurs = g_occurs;
        max_above = g_above;
        min_occurs = head_occurs x xs;
        min_below = first_below x xs s;
        mode = mode_of-IsMode x xs s last_eq;
        p10 = r10;
        p20 = r20;
        p30 = r30;
        p40 = r40;
        p50 = r50;
        p60 = r60;
        p70 = r70;
        p80 = r80;
        p90 = r90;
        p95 = r95;
        p99 = r99;
        counted = refl;
        ledgers = refl;
      },
    )

-- The properties of a distribution do not see the order of the fees.
IsMode-sort : (fees : List ℕ) (m : ℕ) → IsMode (sort fees) m → IsMode fees m
IsMode-sort fees m h = record {
  occurs = rw (count-sort m fees) at h.occurs;
  most = λ v. rw (count-sort v fees, count-sort m fees) at (h.most v);
  least = λ v e. h.least v (count-sort v fees ∙ e ∙ sym (count-sort m fees));
}

IsNearestRank-sort :
    (p : ℕ) (fees : List ℕ) (v : ℕ) → IsNearestRank p (sort fees) v → IsNearestRank p fees v
IsNearestRank-sort p fees v h = record {
  occurs = rw (count-sort v fees) at h.occurs;
  enough = rw (length-sort fees, count_le-sort v fees) at h.enough;
  below = rw (length-sort fees, count_lt-sort v fees) at h.below;
}

IsDistribution-sort :
    (fees : List ℕ) (n : ℕ) (d : FeeDistribution)
    → IsDistribution (sort fees) n d
    → IsDistribution fees n d
IsDistribution-sort fees n d h = record {
  max_occurs = rw (count-sort d.max fees) at h.max_occurs;
  max_above = λ v k. h.max_above v (rw (count-sort v fees) k);
  min_occurs = rw (count-sort d.min fees) at h.min_occurs;
  min_below = λ v k. h.min_below v (rw (count-sort v fees) k);
  mode = IsMode-sort fees d.mode h.mode;
  p10 = IsNearestRank-sort 10 fees d.p10 h.p10;
  p20 = IsNearestRank-sort 20 fees d.p20 h.p20;
  p30 = IsNearestRank-sort 30 fees d.p30 h.p30;
  p40 = IsNearestRank-sort 40 fees d.p40 h.p40;
  p50 = IsNearestRank-sort 50 fees d.p50 h.p50;
  p60 = IsNearestRank-sort 60 fees d.p60 h.p60;
  p70 = IsNearestRank-sort 70 fees d.p70 h.p70;
  p80 = IsNearestRank-sort 80 fees d.p80 h.p80;
  p90 = IsNearestRank-sort 90 fees d.p90 h.p90;
  p95 = IsNearestRank-sort 95 fees d.p95 h.p95;
  p99 = IsNearestRank-sort 99 fees d.p99 h.p99;
  counted = h.counted ∙ ap (λ (k : ℕ). u32 k) (length-sort fees);
  ledgers = h.ledgers;
}

summarise_lem :
    (xs : List ℕ) (n : ℕ)
    → IsSorted xs
    → 0 < length xs
    → length xs < 2 ^ 57
    → (d : FeeDistribution) × (summarise xs n ≡ some d) × IsDistribution xs n d
unfolding summarise
summarise_lem [] n s h q = absurd (omega arith)
summarise_lem (x ∷ xs) n s h q = distribution_of_lem x xs n s q

-- For at least one and fewer than 2^57 fees, `computeFeeDistribution` does not panic, and returns
-- the greatest and the least fee, the smallest of the most frequent fees, the eleven nearest-rank
-- percentiles, the number of fees as a uint32 and the number of ledgers.
pub compute_fee_distribution_lem :
    (fees : List ℕ) (n : ℕ)
    → 0 < length fees
    → length fees < 2 ^ 57
    → (d : FeeDistribution) × (compute_fee_distribution fees n ≡ some d) × IsDistribution fees n d
unfolding compute_fee_distribution
compute_fee_distribution_lem fees n h q =
    let (d, e, is) =
      summarise_lem (sort fees) n (sort-IsSorted fees) (rw (length-sort fees) h)
        (rw (length-sort fees) q) in
    (d, e, IsDistribution-sort fees n d is)

-- The distribution depends on how often each fee occurs, not on the order in which the ledgers
-- list them.
pub compute_fee_distribution-eq_of_count :
    (xs ys : List ℕ) (n : ℕ)
    → ((a : ℕ) → count a xs ≡ count a ys)
    → compute_fee_distribution xs n ≡ compute_fee_distribution ys n
unfolding compute_fee_distribution
compute_fee_distribution-eq_of_count xs ys n h =
    ap (λ (fees : List ℕ). summarise fees n) (sort-eq_of_count xs ys h)

pub compute_fee_distribution-nil : (n : ℕ) → compute_fee_distribution [] n ≡ some zero_distribution
unfolding compute_fee_distribution
compute_fee_distribution-nil n = refl
