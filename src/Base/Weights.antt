-- ===== src/Base/Weights.antt =====
-- Sums of a weight over a list, what writing one element does to them, and what holds of all or any
-- of the elements.
use stellar_stellar_rpc.Base.Maybe.{some-injective}
use Prim.Native.Nat.{ℕ, zero, suc, ◌+◌, ◌≤◌}
use mathlib.Core.Path.{◌≡◌, refl, subst}
use mathlib.Core.Logic.{◌⊎◌, inl, inr}
use mathlib.Core.List.{List, [], ◌∷◌, ◌++◌}
use mathlib.Core.Option.{some}
use native.Mathlib.Omega.{arith}
use stellar_stellar_rpc.Base.Lists.{length, get_elem?, set}

module _ {ℓ} {A : Type ℓ} (w : A → ℕ) where
  unfoldable pub sum_by : List A → ℕ
  sum_by [] = 0
  sum_by (x ∷ xs) = w x + sum_by xs

  pub sum_by-set :
      (xs : List A) (i : ℕ) (x y : A)
      → get_elem? xs i ≡ some x
      → sum_by (set xs i y) + w x ≡ sum_by xs + w y
  unfolding sum_by
  sum_by-set [] i x y e = cc
  sum_by-set (z ∷ xs) zero x y e = ground arith
  sum_by-set (z ∷ xs) (suc i) x y e = omega (arith, sum_by-set xs i x y e)

  pub sum_by-le-length : (xs : List A) → ((x : A) → w x ≤ 1) → sum_by xs ≤ length xs
  unfolding sum_by
  sum_by-le-length [] h = omega arith
  sum_by-le-length (x ∷ xs) h = omega (arith, h x, sum_by-le-length xs h)

pub sum_by_mono {ℓ} :
    {A : Type ℓ} (v w : A → ℕ) (xs : List A) → ((x : A) → v x ≤ w x) → sum_by v xs ≤ sum_by w xs
unfolding sum_by
sum_by_mono v w [] h = omega arith
sum_by_mono v w (x ∷ xs) h = omega (arith, h x, sum_by_mono v w xs h)

-- every element satisfies a predicate
abbrev pub All {ℓ κ} : {A : Type ℓ} → (A → Type κ) → List A → Type κ
All P [] = Unit
All P (x ∷ xs) = P x × All P xs

-- some element satisfies a predicate
abbrev pub Any {ℓ} : {A : Type ℓ} → (A → Type 0) → List A → Type 0
Any P [] = ⊥
Any P (x ∷ xs) = P x ⊎ Any P xs

pub sum_by-zero {ℓ} :
    {A : Type ℓ} (w : A → ℕ) (xs : List A) → All (λ x. w x ≡ 0) xs → sum_by w xs ≡ 0
unfolding sum_by
sum_by-zero w [] h = refl
sum_by-zero w (x ∷ xs) h = omega (arith, h.0, sum_by-zero w xs h.1)

pub sum_by-append {ℓ} :
    {A : Type ℓ} (w : A → ℕ) (xs ys : List A) → sum_by w (xs ++ ys) ≡ sum_by w xs + sum_by w ys
unfolding sum_by
sum_by-append w [] ys = omega arith
sum_by-append w (x ∷ xs) ys = omega (arith, sum_by-append w xs ys)

pub sum_by-append_end {ℓ} :
    {A : Type ℓ} (w : A → ℕ) (xs : List A) (y : A) → sum_by w (xs ++ (y ∷ [])) ≡ sum_by w xs + w y
unfolding sum_by
sum_by-append_end w xs y = omega (arith, sum_by-append w xs (y ∷ []))

pub sum_by-cons {ℓ} :
    {A : Type ℓ} (w : A → ℕ) {xs ys : List A} {x : A}
    → xs ≡ x ∷ ys
    → sum_by w xs ≡ w x + sum_by w ys
unfolding sum_by
sum_by-cons w h = rw h refl

module _ {ℓ} {A : Type ℓ} (P : A → Type 0) where
  pub All-set : (xs : List A) (i : ℕ) (y : A) → All P xs → P y → All P (set xs i y)
  All-set [] i y h p = tt
  All-set (x ∷ xs) zero y h p = (p, h.1)
  All-set (x ∷ xs) (suc i) y h p = (h.0, All-set xs i y h.1 p)

  pub All-append_end : (xs : List A) (y : A) → All P xs → P y → All P (xs ++ (y ∷ []))
  All-append_end [] y h p = (p, tt)
  All-append_end (x ∷ xs) y h p = (h.0, All-append_end xs y h.1 p)

  pub All-get_elem? : (xs : List A) (i : ℕ) {x : A} → All P xs → get_elem? xs i ≡ some x → P x
  All-get_elem? [] i h e = cc
  All-get_elem? (y ∷ xs) zero h e = subst P (some-injective e) h.0
  All-get_elem? (y ∷ xs) (suc i) h e = All-get_elem? xs i h.1 e

pub Any-with {ℓ} :
    {A : Type ℓ} (R P Q : A → Type 0) (xs : List A)
    → ((x : A) → R x → P x → Q x)
    → All R xs
    → Any P xs
    → Any Q xs
Any-with R P Q [] f r a = a
Any-with R P Q (x ∷ xs) f r (inl p) = inl (f x r.0 p)
Any-with R P Q (x ∷ xs) f r (inr a) = inr (Any-with R P Q xs f r.1 a)

pub Any-map {ℓ} :
    {A : Type ℓ} (P Q : A → Type 0) (xs : List A) → ((x : A) → P x → Q x) → Any P xs → Any Q xs
Any-map P Q [] f a = a
Any-map P Q (x ∷ xs) f (inl p) = inl (f x p)
Any-map P Q (x ∷ xs) f (inr a) = inr (Any-map P Q xs f a)
