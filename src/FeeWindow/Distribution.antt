-- ===== src/FeeWindow/Distribution.antt =====
-- `computeFeeDistribution`: sort the fees, find the mode in one pass and read off percentiles.
pub mod Sorting
pub mod Mode
pub mod Percentile
pub mod Summary
use stellar_stellar_rpc.Base.{
  ℕ, zero, suc, ◌+◌, ◌-◌, ◌*◌, ◌/◌, ◌^◌, Option, none, some, List, [], ◌∷◌, length, get_elem?,
  last?, u32, u64, ltb, leb, ◌==◌, if◌then◌else◌,
}
use stellar_stellar_rpc.Base.Maybe.{◌>>=◌}

pub record FeeDistribution : Type 0 where
  pub max : ℕ
  pub min : ℕ
  pub mode : ℕ
  pub p10 : ℕ
  pub p20 : ℕ
  pub p30 : ℕ
  pub p40 : ℕ
  pub p50 : ℕ
  pub p60 : ℕ
  pub p70 : ℕ
  pub p80 : ℕ
  pub p90 : ℕ
  pub p95 : ℕ
  pub p99 : ℕ
  pub fee_count : ℕ
  pub ledger_count : ℕ

abbrev pub zero_distribution : FeeDistribution
zero_distribution = record {
  max = 0;
  min = 0;
  mode = 0;
  p10 = 0;
  p20 = 0;
  p30 = 0;
  p40 = 0;
  p50 = 0;
  p60 = 0;
  p70 = 0;
  p80 = 0;
  p90 = 0;
  p95 = 0;
  p99 = 0;
  fee_count = 0;
  ledger_count = 0;
}

-- `slices.Sort` of the standard library, which on uint64 values has one possible result.
pub insert : ℕ → List ℕ → List ℕ
insert a [] = a ∷ []
insert a (x ∷ xs) = if leb a x then a ∷ x ∷ xs else x ∷ insert a xs

unfoldable pub sort : List ℕ → List ℕ
unfolding insert
sort [] = []
sort (x ∷ xs) = insert x (sort xs)

-- the variables of the loop that looks for the mode
pub record Clusters : Type 0 where
  pub mode : ℕ
  pub last_val : ℕ
  pub max_repetitions : ℕ
  pub local_repetitions : ℕ

abbrev pub first_cluster : ℕ → Clusters
first_cluster first = record {
  mode = first;
  last_val = first;
  max_repetitions = 0;
  local_repetitions = 0;
}

-- one round of the loop
pub count_fee : Clusters → ℕ → Clusters
count_fee c fee =
    if fee == c.last_val
    then record c { local_repetitions = c.local_repetitions + 1 }
    else if ltb c.max_repetitions c.local_repetitions
    then record {
      mode = c.last_val;
      last_val = fee;
      max_repetitions = c.local_repetitions;
      local_repetitions = 0;
    }
    else record c { last_val = fee; local_repetitions = 0 }

pub count_fees : Clusters → List ℕ → Clusters
unfolding count_fee
count_fees c [] = c
count_fees c (fee ∷ fees) = count_fees (count_fee c fee) fees

-- the mode of sorted fees `first ∷ rest` whose last is `greatest`: the loop, then the check of the
-- last cluster
unfoldable pub mode_of : ℕ → List ℕ → ℕ → ℕ
unfolding count_fees
mode_of first rest greatest =
    let c = count_fees (first_cluster first) rest in
    if ltb c.max_repetitions c.local_repetitions then greatest else c.mode

-- `fees[kth-1]` with `kth = (p*count + 100 - 1) / 100` in uint64; `none` for an index out of range
pub percentile : List ℕ → ℕ → Option ℕ
percentile fees p =
    let kth = u64 (u64 (u64 (p * u64 (length fees)) + 100) + 2 ^ 64 - 1) / 100 in
    get_elem? fees (u64 (kth + 2 ^ 64 - 1))

-- `none` is a panic.
pub distribution_of : ℕ → List ℕ → ℕ → Option FeeDistribution
unfolding percentile mode_of
distribution_of first rest ledger_count = do
  let fees = first ∷ rest
  greatest ← last? fees
  v10 ← percentile fees 10
  v20 ← percentile fees 20
  v30 ← percentile fees 30
  v40 ← percentile fees 40
  v50 ← percentile fees 50
  v60 ← percentile fees 60
  v70 ← percentile fees 70
  v80 ← percentile fees 80
  v90 ← percentile fees 90
  v95 ← percentile fees 95
  v99 ← percentile fees 99
  some (record {
    max = greatest;
    min = first;
    mode = mode_of first rest greatest;
    p10 = v10;
    p20 = v20;
    p30 = v30;
    p40 = v40;
    p50 = v50;
    p60 = v60;
    p70 = v70;
    p80 = v80;
    p90 = v90;
    p95 = v95;
    p99 = v99;
    fee_count = u32 (length fees);
    ledger_count = ledger_count;
  })

-- the rest of the function, on the sorted fees
pub summarise : List ℕ → ℕ → Option FeeDistribution
unfolding distribution_of
summarise [] ledger_count = some zero_distribution
summarise (first ∷ rest) ledger_count = distribution_of first rest ledger_count

unfoldable pub compute_fee_distribution : List ℕ → ℕ → Option FeeDistribution
unfolding sort summarise
compute_fee_distribution fees ledger_count = summarise (sort fees) ledger_count
