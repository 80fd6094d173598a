-- ===== src/Base/Lists.antt =====
-- Lists measured and indexed by native numbers, under the library's names.
use Prim.Native.Nat.{ℕ, zero, suc, ◌+◌, ◌-◌, ◌≤◌, ◌<◌}
use mathlib.Core.Path.{◌≡◌, refl, ap, ◌∙◌}
use mathlib.Core.Logic.{◌≢◌}
use mathlib.Core.List.{List, [], ◌∷◌, ◌++◌, map, append_assoc}
use mathlib.Core.Option.{Option, none, some}
use native.Mathlib.Omega.{arith}

module _ {ℓ} {A : Type ℓ} where
  abbrev pub length : List A → ℕ
  length [] = 0
  length (x ∷ xs) = suc (length xs)

  abbrev pub get_elem? : List A → ℕ → Option A
  get_elem? [] i = none
  get_elem? (x ∷ xs) zero = some x
  get_elem? (x ∷ xs) (suc i) = get_elem? xs i

  -- A write out of bounds changes nothing.
  abbrev pub set : List A → ℕ → A → List A
  set [] i v = []
  set (x ∷ xs) zero v = v ∷ xs
  set (x ∷ xs) (suc i) v = x ∷ set xs i v

  abbrev pub take : ℕ → List A → List A
  take zero xs = []
  take (suc n) [] = []
  take (suc n) (x ∷ xs) = x ∷ take n xs

  abbrev pub drop : ℕ → List A → List A
  drop zero xs = xs
  drop (suc n) [] = []
  drop (suc n) (x ∷ xs) = drop n xs

  -- the last element, when there is one
  abbrev pub last? : List A → Option A
  last? [] = none
  last? (x ∷ []) = some x
  last? (x ∷ y ∷ xs) = last? (y ∷ xs)

module _ {ℓ} {A : Type ℓ} where
  pub length-append : (xs ys : List A) → length (xs ++ ys) ≡ length xs + length ys
  length-append [] ys = omega arith
  length-append (x ∷ xs) ys = omega (arith, length-append xs ys)

  pub length-set : (xs : List A) (i : ℕ) (v : A) → length (set xs i v) ≡ length xs
  length-set [] i v = refl
  length-set (x ∷ xs) zero v = refl
  length-set (x ∷ xs) (suc i) v = ap suc (length-set xs i v)

  pub length-drop : (n : ℕ) (xs : List A) → length (drop n xs) ≡ length xs - n
  length-drop zero xs = omega arith
  length-drop (suc n) [] = omega arith
  length-drop (suc n) (x ∷ xs) = omega (arith, length-drop n xs)

  pub get_elem?-set_self :
      (xs : List A) (i : ℕ) (v : A) → i < length xs → get_elem? (set xs i v) i ≡ some v
  get_elem?-set_self [] i v h = absurd (omega arith)
  get_elem?-set_self (x ∷ xs) zero v h = refl
  get_elem?-set_self (x ∷ xs) (suc i) v h = get_elem?-set_self xs i v (omega arith)

  pub get_elem?-set_ne :
      (xs : List A) {i j : ℕ} (v : A) → i ≢ j → get_elem? (set xs i v) j ≡ get_elem? xs j
  get_elem?-set_ne [] v h = refl
  get_elem?-set_ne (x ∷ xs) {i = zero} {j = zero} v h = absurd (h refl)
  get_elem?-set_ne (x ∷ xs) {i = zero} {j = suc j} v h = refl
  get_elem?-set_ne (x ∷ xs) {i = suc i} {j = zero} v h = refl
  get_elem?-set_ne (x ∷ xs) {i = suc i} {j = suc j} v h = get_elem?-set_ne xs v (λ e. h (ap suc e))

  pub get_elem?-some_of_lt :
      (xs : List A) (i : ℕ) → i < length xs → (a : A) × (get_elem? xs i ≡ some a)
  get_elem?-some_of_lt [] i h = absurd (omega arith)
  get_elem?-some_of_lt (x ∷ xs) zero h = (x, refl)
  get_elem?-some_of_lt (x ∷ xs) (suc i) h = get_elem?-some_of_lt xs i (omega arith)

  pub get_elem?-append_left :
      (xs ys : List A) (i : ℕ) → i < length xs → get_elem? (xs ++ ys) i ≡ get_elem? xs i
  get_elem?-append_left [] ys i h = absurd (omega arith)
  get_elem?-append_left (x ∷ xs) ys zero h = refl
  get_elem?-append_left (x ∷ xs) ys (suc i) h = get_elem?-append_left xs ys i (omega arith)

  pub get_elem?-append_end : (xs : List A) (y : A) → get_elem? (xs ++ (y ∷ [])) (length xs) ≡ some y
  get_elem?-append_end [] y = refl
  get_elem?-append_end (x ∷ xs) y = get_elem?-append_end xs y

  pub last?-append_end : (xs : List A) (y : A) → last? (xs ++ (y ∷ [])) ≡ some y
  last?-append_end [] y = refl
  last?-append_end (x ∷ []) y = refl
  last?-append_end (x ∷ z ∷ xs) y = last?-append_end (z ∷ xs) y

pub take-room {ℓ} :
    {A : Type ℓ} (n k : ℕ) (xs ys : List A) (y : A)
    → k + 1 < n
    → ((xs ++ (y ∷ [])) ++ take (n - (k + 1)) ys) ≡ xs ++ take (n - k) (y ∷ ys)
take-room n k xs ys y h =
    let step : n - k ≡ suc (n - (k + 1)) = omega arith in
    rw step (append_assoc xs (y ∷ []) (take (n - (k + 1)) ys))

pub take-full {ℓ} :
    {A : Type ℓ} (n k : ℕ) (ys : List A) (y : A) → k + 1 ≡ n → take (n - k) (y ∷ ys) ≡ y ∷ []
take-full n k ys y h = let step : n - k ≡ 1 = omega arith in rw step refl

pub take_nil {ℓ} : {A : Type ℓ} (n : ℕ) {xs : List A} → xs ≡ [] → take n xs ≡ []
take_nil zero h = refl
take_nil (suc n) h = rw h refl

pub length-map {ℓ κ} :
    {A : Type ℓ} {B : Type κ} (f : A → B) (xs : List A) → length (map f xs) ≡ length xs
length-map f [] = refl
length-map f (x ∷ xs) = ap suc (length-map f xs)

pub take-append_left {ℓ} :
    {A : Type ℓ} (m : ℕ) (ys zs : List A) → m ≤ length ys → take m (ys ++ zs) ≡ take m ys
take-append_left zero ys zs h = refl
take-append_left (suc m) [] zs h = absurd (omega arith)
take-append_left (suc m) (y ∷ ys) zs h = ap (y ∷◌) (take-append_left m ys zs (omega arith))

pub take-append {ℓ} :
    {A : Type ℓ} (m : ℕ) (ys zs : List A)
    → length ys ≤ m
    → take m (ys ++ zs) ≡ ys ++ take (m - length ys) zs
take-append m [] zs h = ap (λ k. take k zs) (omega arith)
take-append zero (y ∷ ys) zs h = absurd (omega arith)
take-append (suc m) (y ∷ ys) zs h =
    ap (y ∷◌) (take-append m ys zs (omega arith) ∙ ap (λ k. ys ++ take k zs) (omega arith))

pub get_elem?-middle {ℓ} :
    {A : Type ℓ} (xs : List A) (y : A) (ys : List A)
    → get_elem? (xs ++ (y ∷ ys)) (length xs) ≡ some y
get_elem?-middle [] y ys = refl
get_elem?-middle (x ∷ xs) y ys = get_elem?-middle xs y ys
