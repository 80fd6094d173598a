-- ===== src/FeeWindow/Distribution/Percentile.antt =====
-- Percentiles by the nearest rank.
use stellar_stellar_rpc.Base.{
  ℕ, zero, suc, ◌+◌, ◌-◌, ◌*◌, ◌/◌, ◌^◌, ◌≤◌, ◌<◌, ◌≡◌, refl, ◌∙◌, List, [], ◌∷◌, some, length,
  get_elem?, arith, u64, get_elem?-some_of_lt,
}
use native.Mathlib.Nat.{mod-eq_of_lt, le_refl}
use stellar_stellar_rpc.FeeWindow.Distribution.{percentile}
use stellar_stellar_rpc.FeeWindow.Distribution.Sorting.{count, count_le, count_lt, Ascends}

-- `v` is the nearest-rank `p`-th percentile: a fee, with at least `p` percent of the fees up to it
-- and fewer than `p` percent below it.
pub record IsNearestRank (p : ℕ) (fees : List ℕ) (v : ℕ) : Type 0 where
  pub occurs : 0 < count v fees
  pub enough : p * length fees ≤ 100 * count_le v fees
  pub below : 100 * count_lt v fees < p * length fees

count_lt-zero : (v a : ℕ) (xs : List ℕ) → v ≤ a → Ascends a xs → count_lt v xs ≡ 0
count_lt-zero v a [] h s = refl
count_lt-zero v a (x ∷ xs) h s = ground (arith, count_lt-zero v x xs)

Ascends-get_elem? :
    (a : ℕ) (xs : List ℕ) (i : ℕ) {v : ℕ} → Ascends a xs → get_elem? xs i ≡ some v → a ≤ v
Ascends-get_elem? a [] i s e = cc
Ascends-get_elem? a (x ∷ xs) zero s e = ground arith
Ascends-get_elem? a (x ∷ xs) (suc i) s e = omega (arith, Ascends-get_elem? x xs i s.1 e)

-- The element at index `i` of an ascending list: at most `i` lie below it, more than `i` up to it.
sorted_rank :
    (a : ℕ) (xs : List ℕ) (i : ℕ) {v : ℕ}
    → Ascends a xs
    → get_elem? xs i ≡ some v
    → (0 < count v xs) × (i < count_le v xs) × (count_lt v xs ≤ i)
sorted_rank a [] i s e = cc
sorted_rank a (x ∷ xs) zero s e = ground (arith, count_lt-zero x x xs)
sorted_rank a (x ∷ xs) (suc i) s e =
    ground (arith, sorted_rank x xs i s.1 e, Ascends-get_elem? x xs i s.1 e)

-- `ceiling(x/100) - 1`, as the code computes it in uint64
abbrev rank_index : ℕ → ℕ
rank_index x = u64 (u64 (u64 (u64 x + 100) + 2 ^ 64 - 1) / 100 + 2 ^ 64 - 1)

rank_index_bounds :
    (x n : ℕ)
    → 0 < x
    → x ≤ 100 * n
    → n < 2 ^ 57
    → (rank_index x < n) × (x ≤ 100 * (rank_index x + 1)) × (100 * rank_index x < x)
rank_index_bounds x n h k q = omega arith

product_bounds : (p n : ℕ) → 0 < p → p ≤ 100 → 0 < n → (0 < p * n) × (p * n ≤ 100 * n)
product_bounds p n h k m = grind arith

percentile_step :
    (fees : List ℕ) (p : ℕ)
    → length fees < 2 ^ 57
    → percentile fees p ≡ get_elem? fees (rank_index (p * length fees))
unfolding percentile
percentile_step fees p q = rw (mod-eq_of_lt {n = length fees} {m = 2 ^ 64} (omega arith))

-- Of fewer than 2^57 ascending fees, the code returns the nearest-rank percentile, for every
-- percentage from 1 to 100, and does not panic.
pub percentile_lem :
    (x : ℕ) (xs : List ℕ) (p : ℕ)
    → Ascends x xs
    → 0 < p
    → p ≤ 100
    → length (x ∷ xs) < 2 ^ 57
    → (v : ℕ) × (percentile (x ∷ xs) p ≡ some v) × IsNearestRank p (x ∷ xs) v
percentile_lem x xs p s h k q =
    let fees : List ℕ = x ∷ xs in
    let (lo, hi) = product_bounds p (length fees) h k (omega arith) in
    let (inside, up, down) = rank_index_bounds (p * length fees) (length fees) lo hi q in
    let (v, e) = get_elem?-some_of_lt fees (rank_index (p * length fees)) inside in
    let (occurs, le, lt) = sorted_rank x fees (rank_index (p * length fees)) (le_refl x, s) e in
    (
      v,
      percentile_step fees p q ∙ e,
      record { occurs = occurs; enough = omega arith; below = omega arith },
    )
