-- ===== src/FeeWindow/Distribution/Sorting.antt =====
-- Sorting fees: the result ascends, keeps how often each fee occurs, and is the only such list.
use stellar_stellar_rpc.Base.{
  ℕ, ◌+◌, ◌≤◌, ◌<◌, ◌≡◌, refl, sym, ap, ◌∙◌, List, [], ◌∷◌, length, arith, leb, ◌==◌, if◌then◌else◌,
}
use mathlib.Core.Path.{ap₂}
use stellar_stellar_rpc.FeeWindow.Distribution.{insert, sort}

-- how often a value occurs
abbrev pub count : ℕ → List ℕ → ℕ
count a [] = 0
count a (x ∷ xs) = (if x == a then 1 else 0) + count a xs

-- how many values are at most, and below, a bound
abbrev pub count_le : ℕ → List ℕ → ℕ
count_le a [] = 0
count_le a (x ∷ xs) = (if leb x a then 1 else 0) + count_le a xs

abbrev pub count_lt : ℕ → List ℕ → ℕ
count_lt a [] = 0
count_lt a (x ∷ xs) = (if leb a x then 0 else 1) + count_lt a xs

abbrev pub Ascends : ℕ → List ℕ → Type 0
Ascends a [] = Unit
Ascends a (x ∷ xs) = (a ≤ x) × Ascends x xs

abbrev pub IsSorted : List ℕ → Type 0
IsSorted [] = Unit
IsSorted (x ∷ xs) = Ascends x xs

pub Ascends-of_le : (a b : ℕ) (xs : List ℕ) → a ≤ b → Ascends b xs → Ascends a xs
Ascends-of_le a b [] h s = tt
Ascends-of_le a b (x ∷ xs) h s = (omega arith, s.1)

insert-Ascends : (b a : ℕ) (xs : List ℕ) → b ≤ a → Ascends b xs → Ascends b (insert a xs)
unfolding insert
insert-Ascends b a [] h s = (h, tt)
insert-Ascends b a (x ∷ xs) h s = ground (arith, insert-Ascends x a xs)

insert-IsSorted : (a : ℕ) (xs : List ℕ) → IsSorted xs → IsSorted (insert a xs)
unfolding insert
insert-IsSorted a [] s = tt
insert-IsSorted a (x ∷ xs) s = ground (arith, insert-Ascends x a xs)

pub sort-IsSorted : (xs : List ℕ) → IsSorted (sort xs)
unfolding sort
sort-IsSorted [] = tt
sort-IsSorted (x ∷ xs) = insert-IsSorted x (sort xs) (sort-IsSorted xs)

-- A weight of lists that adds up over the elements does not see the order.
abbrev pub weight : (ℕ → ℕ) → List ℕ → ℕ
weight f [] = 0
weight f (x ∷ xs) = f x + weight f xs

weight-insert : (f : ℕ → ℕ) (a : ℕ) (xs : List ℕ) → weight f (insert a xs) ≡ f a + weight f xs
unfolding insert
weight-insert f a [] = refl
weight-insert f a (x ∷ xs) = ground (arith, weight-insert f a xs)

weight-sort : (f : ℕ → ℕ) (xs : List ℕ) → weight f (sort xs) ≡ weight f xs
unfolding sort
weight-sort f [] = refl
weight-sort f (x ∷ xs) = omega (arith, weight-insert f x (sort xs), weight-sort f xs)

count-weight : (a : ℕ) (xs : List ℕ) → count a xs ≡ weight (λ x. if x == a then 1 else 0) xs
count-weight a [] = refl
count-weight a (x ∷ xs) = ap (◌+◌ (if x == a then 1 else 0)) (count-weight a xs)

count_le-weight : (a : ℕ) (xs : List ℕ) → count_le a xs ≡ weight (λ x. if leb x a then 1 else 0) xs
count_le-weight a [] = refl
count_le-weight a (x ∷ xs) = ap (◌+◌ (if leb x a then 1 else 0)) (count_le-weight a xs)

count_lt-weight : (a : ℕ) (xs : List ℕ) → count_lt a xs ≡ weight (λ x. if leb a x then 0 else 1) xs
count_lt-weight a [] = refl
count_lt-weight a (x ∷ xs) = ap (◌+◌ (if leb a x then 0 else 1)) (count_lt-weight a xs)

length-weight : (xs : List ℕ) → length xs ≡ weight (λ x. 1) xs
length-weight [] = refl
length-weight (x ∷ xs) = omega (arith, length-weight xs)

pub count-sort : (a : ℕ) (xs : List ℕ) → count a (sort xs) ≡ count a xs
count-sort a xs = count-weight a (sort xs) ∙ weight-sort _ xs ∙ sym (count-weight a xs)

pub count_le-sort : (a : ℕ) (xs : List ℕ) → count_le a (sort xs) ≡ count_le a xs
count_le-sort a xs = count_le-weight a (sort xs) ∙ weight-sort _ xs ∙ sym (count_le-weight a xs)

pub count_lt-sort : (a : ℕ) (xs : List ℕ) → count_lt a (sort xs) ≡ count_lt a xs
count_lt-sort a xs = count_lt-weight a (sort xs) ∙ weight-sort _ xs ∙ sym (count_lt-weight a xs)

pub length-sort : (xs : List ℕ) → length (sort xs) ≡ length xs
length-sort xs = length-weight (sort xs) ∙ weight-sort _ xs ∙ sym (length-weight xs)

-- what stands below an ascending list does not occur in it
pub count-below : (a b : ℕ) (xs : List ℕ) → a < b → Ascends b xs → count a xs ≡ 0
count-below a b [] h s = refl
count-below a b (x ∷ xs) h s = ground (arith, count-below a x xs)

-- Two ascending lists in which each value occurs equally often are one list.
pub IsSorted-eq_of_count :
    (xs ys : List ℕ) → IsSorted xs → IsSorted ys → ((a : ℕ) → count a xs ≡ count a ys) → xs ≡ ys
IsSorted-eq_of_count [] [] s t h = refl
IsSorted-eq_of_count [] (y ∷ ys) s t h = absurd (ground (arith, h y))
IsSorted-eq_of_count (x ∷ xs) [] s t h = absurd (ground (arith, h x))
IsSorted-eq_of_count (x ∷ xs) (y ∷ ys) s t h =
    ap₂ ◌∷◌ heads (IsSorted-eq_of_count xs ys (tail_IsSorted x xs s) (tail_IsSorted y ys t) tails)
  where
    tail_IsSorted : (x : ℕ) (xs : List ℕ) → Ascends x xs → IsSorted xs
    tail_IsSorted x [] s = tt
    tail_IsSorted x (z ∷ zs) s = s.1

    heads : x ≡ y
    heads = ground (arith, h x, h y, count-below x y ys, count-below y x xs)

    tails : (a : ℕ) → count a xs ≡ count a ys
    tails a = ground (arith, h a, heads)

-- Sorting depends only on how often each fee occurs.
pub sort-eq_of_count : (xs ys : List ℕ) → ((a : ℕ) → count a xs ≡ count a ys) → sort xs ≡ sort ys
sort-eq_of_count xs ys h =
    IsSorted-eq_of_count (sort xs) (sort ys) (sort-IsSorted xs) (sort-IsSorted ys)
      λ a. count-sort a xs ∙ h a ∙ sym (count-sort a ys)
