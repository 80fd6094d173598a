-- ===== src/Base/Outcomes.antt =====
-- What a Go call comes to: a value, an error value, or a panic.
use mathlib.Core.Path.{◌≡◌, refl, ap}
use mathlib.Core.Logic.{◌≢◌, ◌⊎◌, inl, inr}

pub data Outcome {ℓ} (E A : Type ℓ) : Type ℓ where
  ok : A → Outcome E A
  err : E → Outcome E A
  panic : Outcome E A

-- what a chain with a result went through
pub and_then-ok {ℓ} :
    {E A B : Type ℓ} (o : Outcome E A) (f : A → Outcome E B) {b : B}
    → elim o [ ok a ↦ f a | err e ↦ err e | panic ↦ panic ] ≡ ok b
    → (a : A) × (o ≡ ok a) × (f a ≡ ok b)
and_then-ok (ok a) f h = (a, refl, h)
and_then-ok (err e) f h = cc
and_then-ok panic f h = cc

-- a chain of calls, each after an error check
infixl 5 ◌>>=◌
abbrev pub ◌>>=◌ {ℓ} : {E A B : Type ℓ} → Outcome E A → (A → Outcome E B) → Outcome E B
ok a >>= f = f a
err e >>= f = err e
panic >>= f = panic

pub >>=-eq-ok {ℓ} :
    {E A B : Type ℓ} (o : Outcome E A) (f : A → Outcome E B) {b : B}
    → (o >>= f) ≡ ok b
    → (a : A) × (o ≡ ok a) × (f a ≡ ok b)
>>=-eq-ok (ok a) f h = (a, refl, h)
>>=-eq-ok (err e) f h = cc
>>=-eq-ok panic f h = cc

-- no panic
abbrev pub IsCalm {ℓ} : {E A : Type ℓ} → Outcome E A → Type 0
IsCalm (ok a) = Unit
IsCalm (err e) = Unit
IsCalm panic = ⊥

pub >>=-IsCalm {ℓ} :
    {E A B : Type ℓ} (o : Outcome E A) (f : A → Outcome E B)
    → IsCalm o
    → ((a : A) → IsCalm (f a))
    → IsCalm (o >>= f)
>>=-IsCalm (ok a) f h k = k a
>>=-IsCalm (err e) f h k = tt
>>=-IsCalm panic f h k = h

pub >>=-eq-panic {ℓ} :
    {E A B : Type ℓ} (o : Outcome E A) (f : A → Outcome E B)
    → (o >>= f) ≡ panic
    → (o ≡ panic) ⊎ ((a : A) × (o ≡ ok a) × (f a ≡ panic))
>>=-eq-panic (ok a) f h = inr (a, refl, h)
>>=-eq-panic (err e) f h = cc
>>=-eq-panic panic f h = inl refl

pub IsCalm-ne-panic {ℓ} : {E A : Type ℓ} (o : Outcome E A) → IsCalm o → o ≢ panic
IsCalm-ne-panic (ok a) h e = cc
IsCalm-ne-panic (err x) h e = cc
IsCalm-ne-panic panic h e = h

-- A chain whose first call does not panic panics behind it.
pub later_panic {ℓ} :
    {E A B : Type ℓ} (o : Outcome E A) (f : A → Outcome E B)
    → IsCalm o
    → (o >>= f) ≡ panic
    → (a : A) × (o ≡ ok a) × (f a ≡ panic)
later_panic (ok a) f c h = (a, refl, h)
later_panic (err e) f c h = cc
later_panic panic f c h = absurd c

pub last_panic {ℓ} :
    {E A B : Type ℓ} (o : Outcome E A) (g : A → B) → (o >>= λ a. ok (g a)) ≡ panic → o ≡ panic
last_panic (ok a) g h = cc
last_panic (err e) g h = cc
last_panic panic g h = refl

pub then_ok {ℓ} :
    {E A B : Type ℓ} (o : Outcome E A) (f : A → Outcome E B) {a : A} → o ≡ ok a → (o >>= f) ≡ f a
then_ok o f e = ap (λ o'. o' >>= f) e

pub then_panic {ℓ} :
    {E A B : Type ℓ} (o : Outcome E A) (f : A → Outcome E B) → o ≡ panic → (o >>= f) ≡ panic
then_panic o f e = ap (λ o'. o' >>= f) e

pub ok-injective {ℓ} : {E A : Type ℓ} {x y : A} → ◌≡◌ {A = Outcome E A} (ok x) (ok y) → x ≡ y
ok-injective e = cc
