-- ===== src/Base/Permutations.antt =====
-- A sum of weights does not depend on the order of the list, nor do the length and a test of all.
use Prim.Native.Nat.{ℕ, ◌+◌}
use mathlib.Core.Path.{◌≡◌, refl, ap, ◌∙◌}
use mathlib.Core.Logic.{∥∥₁_elim}
use mathlib.Core.Bool.{Bool, true, false}
use mathlib.Core.List.{List, [], ◌∷◌, Permᴰ, Perm}
use native.Mathlib.Nat.{ℕ_set}
use native.Mathlib.Omega.{arith}
use stellar_stellar_rpc.Base.Lists.{length}
use stellar_stellar_rpc.Base.Weights.{sum_by}

module _ {ℓ} {A : Type ℓ} where
  orders_agree : (w : A → ℕ) {xs ys : List A} → Permᴰ xs ys → sum_by w xs ≡ sum_by w ys
  unfolding sum_by
  orders_agree w Permᴰ.nil = refl
  orders_agree w (Permᴰ.cons same tails) = λ i. w (same i) + orders_agree w tails i
  orders_agree w (Permᴰ.swap left right) = omega (arith, ap w left, ap w right)
  orders_agree w (Permᴰ.trans first later) = orders_agree w first ∙ orders_agree w later

  pub sum_by-perm : (w : A → ℕ) {xs ys : List A} → Perm xs ys → sum_by w xs ≡ sum_by w ys
  sum_by-perm w p = ∥∥₁_elim p (ℕ_set _ _) (orders_agree w)

  pub sum_by-ones : (xs : List A) → sum_by (λ x. 1) xs ≡ length xs
  unfolding sum_by
  sum_by-ones [] = refl
  sum_by-ones (x ∷ xs) = omega (arith, sum_by-ones xs)

  -- one for an element that fails a test
  abbrev pub fails : (A → Bool) → A → ℕ
  fails f x = elim (f x) [ true ↦ 0 | false ↦ 1 ]

  pub fails_not : (f : A → Bool) (x : A) → f x ≡ true → fails f x ≡ 0
  fails_not f x h = rw (fails, h) refl

  pub fails_once : (f : A → Bool) (x : A) → f x ≡ false → fails f x ≡ 1
  fails_once f x h = rw (fails, h) refl
