-- ===== src/Base/Rotation.antt =====
-- A list cut at a position and put together the other way round: what a circular buffer holds.
use Prim.Native.Nat.{ℕ, zero, suc, ◌+◌, ◌-◌, ◌≤◌, ◌<◌}
use mathlib.Core.Path.{◌≡◌, refl, ap, ◌∙◌}
use mathlib.Core.List.{List, [], ◌∷◌, ◌++◌, append-nil}
use mathlib.Core.Option.{none, some}
use native.Mathlib.Omega.{arith}
use stellar_stellar_rpc.Base.Lists.{length, get_elem?, set, take, drop, length-append, length-drop}

module _ {ℓ} {A : Type ℓ} where
  -- the elements from position `s` on, then those before it
  abbrev pub rotate : ℕ → List A → List A
  rotate s xs = drop s xs ++ take s xs

  pub set-eq-take-drop :
      (xs : List A) (s : ℕ) (b : A)
      → s < length xs
      → set xs s b ≡ take s xs ++ (b ∷ drop (suc s) xs)
  set-eq-take-drop [] s b h = absurd (omega arith)
  set-eq-take-drop (x ∷ xs) zero b h = refl
  set-eq-take-drop (x ∷ xs) (suc s) b h = ap (◌∷◌ x) (set-eq-take-drop xs s b (omega arith))

  pub drop-eq-cons :
      (xs : List A) (s : ℕ) (x : A) → get_elem? xs s ≡ some x → drop s xs ≡ x ∷ drop (suc s) xs
  drop-eq-cons [] s x h = cc
  drop-eq-cons (y ∷ xs) zero x h = cc
  drop-eq-cons (y ∷ xs) (suc s) x h = drop-eq-cons xs s x h

  pub drop-all : (xs : List A) (s : ℕ) → length xs ≤ s → drop s xs ≡ []
  drop-all [] zero h = refl
  drop-all [] (suc s) h = refl
  drop-all (x ∷ xs) zero h = absurd (omega arith)
  drop-all (x ∷ xs) (suc s) h = drop-all xs s (omega arith)

  pub drop-set : (xs : List A) (s : ℕ) (b : A) → drop (suc s) (set xs s b) ≡ drop (suc s) xs
  drop-set [] s b = refl
  drop-set (x ∷ xs) zero b = refl
  drop-set (x ∷ xs) (suc s) b = drop-set xs s b

  pub take-set :
      (xs : List A) (s : ℕ) (b : A)
      → s < length xs
      → take (suc s) (set xs s b) ≡ take s xs ++ (b ∷ [])
  take-set [] s b h = absurd (omega arith)
  take-set (x ∷ xs) zero b h = refl
  take-set (x ∷ xs) (suc s) b h = ap (◌∷◌ x) (take-set xs s b (omega arith))

  pub length-rotate : (s : ℕ) (xs : List A) → length (rotate s xs) ≡ length xs
  length-rotate zero xs = rw append-nil
  length-rotate (suc s) [] = refl
  length-rotate (suc s) (x ∷ xs) = omega (
    arith,
    length-append (drop s xs) (x ∷ take s xs),
    length-append (drop s xs) (take s xs),
    length-rotate s xs,
  )

  -- an index below the cut part and one past it
  pub get_elem?-rotate_low :
      (xs ys : List A) (s i : ℕ)
      → s + i < length xs
      → get_elem? (drop s xs ++ ys) i ≡ get_elem? xs (s + i)
  get_elem?-rotate_low [] ys s i h = absurd (omega arith)
  get_elem?-rotate_low (x ∷ xs) ys zero zero h = refl
  get_elem?-rotate_low (x ∷ xs) ys zero (suc i) h =
      get_elem?-rotate_low xs ys zero i (omega arith)
      ∙ ap (get_elem? xs) (omega arith)
      ∙ ap (get_elem? (x ∷ xs)) (add_eq i)
    where
      add_eq : (i : ℕ) → ◌≡◌ {A = ℕ} (suc i) (zero + suc i)
      add_eq i = omega arith
  get_elem?-rotate_low (x ∷ xs) ys (suc s) i h =
      get_elem?-rotate_low xs ys s i (omega arith) ∙ ap (get_elem? (x ∷ xs)) (add_eq s i)
    where
      add_eq : (s i : ℕ) → suc (s + i) ≡ suc s + i
      add_eq s i = omega arith

  pub get_elem?-append_right :
      (xs ys : List A) (i : ℕ) → get_elem? (xs ++ ys) (length xs + i) ≡ get_elem? ys i
  get_elem?-append_right [] ys i = ap (get_elem? ys) (omega arith)
  get_elem?-append_right (x ∷ xs) ys i =
      ap (get_elem? (x ∷ (xs ++ ys))) (add_eq (length xs) i) ∙ get_elem?-append_right xs ys i
    where
      add_eq : (n i : ℕ) → suc n + i ≡ suc (n + i)
      add_eq n i = omega arith

  pub get_elem?-take : (xs : List A) (s i : ℕ) → i < s → get_elem? (take s xs) i ≡ get_elem? xs i
  get_elem?-take xs zero i h = absurd (omega arith)
  get_elem?-take [] (suc s) i h = refl
  get_elem?-take (x ∷ xs) (suc s) zero h = refl
  get_elem?-take (x ∷ xs) (suc s) (suc i) h = get_elem?-take xs s i (omega arith)

  pub get_elem?-rotate_high :
      (xs : List A) (s i : ℕ)
      → s ≤ length xs
      → length xs ≤ s + i
      → i < length xs
      → get_elem? (rotate s xs) i ≡ get_elem? xs (s + i - length xs)
  get_elem?-rotate_high xs s i hs lo hi =
      ap (get_elem? (rotate s xs)) index_eq
      ∙ get_elem?-append_right (drop s xs) (take s xs) (s + i - length xs)
      ∙ get_elem?-take xs s (s + i - length xs) (omega arith)
    where
      index_eq : i ≡ length (drop s xs) + (s + i - length xs)
      index_eq = omega (arith, length-drop s xs)

  pub get_elem?-none : (xs : List A) (i : ℕ) → length xs ≤ i → get_elem? xs i ≡ none
  get_elem?-none [] i h = refl
  get_elem?-none (x ∷ xs) zero h = absurd (omega arith)
  get_elem?-none (x ∷ xs) (suc i) h = get_elem?-none xs i (omega arith)
