-- ===== src/Config/Validate/Accepted.antt =====
-- What holds of the options that `Validate` accepts.
use mathlib.Core.Path.{subst}
use stellar_stellar_rpc.Base.Weights.{All}
use stellar_stellar_rpc.Base.{
  ℕ, ◌≤◌, ◌≡◌, ◌≢◌, refl, sym, ap, ◌∙◌, ◌⊎◌, ok-injective, Option, none, some, List, [], ◌∷◌, ◌++◌,
  Bool, true, false, not, ltb, arith, ok, err, Bool-cases, inl, inr,
}
use stellar_stellar_rpc.Base.Decimal.{Bytes, bytes_eq, bytes_eq_iff}
use stellar_stellar_rpc.Config.Parse.{
  Texts, Value, string_value, bool_value, int_value, uint_value, strings_value, duration_value,
  other_value,
}
use stellar_stellar_rpc.Config.{
  Validator, required, positive, at_most, core_url_or_local, ConfigOption, Field, field,
}
use stellar_stellar_rpc.Config.Validate.{
  is_set, is_positive, as_uint, core_url_key, set_field, url_or_local, Verdict, valid, missing,
  invalid, value_or_unset, run_validator, verdict, validate_from, options_of, validate, all_found,
  check, invalid_value,
}

-- the key of an option and that of its maximum are not the core URL, which Validate may set
abbrev pub IsIndependent : ConfigOption → Type 0
IsIndependent o = elim o.validate [
  | none ↦ Unit
  | some required ↦ bytes_eq core_url_key o.config_key ≡ false
  | some positive ↦ bytes_eq core_url_key o.config_key ≡ false
  | some (at_most max_key) ↦
      (bytes_eq core_url_key o.config_key ≡ false) × (bytes_eq core_url_key max_key ≡ false)
  | some core_url_or_local ↦ Unit
]

-- what the function of an option asks for, of the fields at the end
abbrev pub IsAccepted : List Field → ConfigOption → Type 0
IsAccepted fs o = elim o.validate [
  | none ↦ Unit
  | some required ↦ is_set (value_or_unset (field o.config_key fs)) ≡ true
  | some positive ↦ is_positive (value_or_unset (field o.config_key fs)) ≡ true
  | some (at_most max_key) ↦ as_uint (field o.config_key fs) ≤ as_uint (field max_key fs)
  | some core_url_or_local ↦ Unit
]

-- only the core URL may differ
abbrev Keeps : List Field → List Field → Type 0
Keeps fs gs = (k : Bytes) → bytes_eq core_url_key k ≡ false → field k gs ≡ field k fs

set_field-Keeps :
    (v : Value) (fs : List Field) (k : Bytes)
    → bytes_eq core_url_key k ≡ false
    → field k (set_field core_url_key v fs) ≡ field k fs
unfolding set_field field
set_field-Keeps v [] k h = refl
set_field-Keeps v (f ∷ fs) k h = elim (Bool-cases (bytes_eq f.option.config_key core_url_key)) [
  | inl e ↦
      let same : f.option.config_key ≡ core_url_key = (bytes_eq_iff _ _).0 e in
      let d : bytes_eq f.option.config_key k ≡ false = ap (λ x. bytes_eq x k) same ∙ h in
      rw (e, d) (set_field-Keeps v fs k h)
  | inr e ↦ rw e (ground (arith, set_field-Keeps v fs k h))
]

url_or_local-Keeps :
    (t : Texts) (o : Option Value) (fs : List Field) → Keeps fs (url_or_local t o fs)
unfolding url_or_local
url_or_local-Keeps t none fs k h = refl
url_or_local-Keeps t (some (bool_value b)) fs k h = refl
url_or_local-Keeps t (some (int_value n)) fs k h = refl
url_or_local-Keeps t (some (uint_value n)) fs k h = refl
url_or_local-Keeps t (some (string_value [])) fs k h = set_field-Keeps _ fs k h
url_or_local-Keeps t (some (string_value (c ∷ s))) fs k h = refl
url_or_local-Keeps t (some (strings_value ss)) fs k h = refl
url_or_local-Keeps t (some (duration_value d)) fs k h = refl
url_or_local-Keeps t (some (other_value b)) fs k h = refl

IsAccepted-Keeps :
    (o : ConfigOption) (fs gs : List Field)
    → IsIndependent o
    → Keeps fs gs
    → IsAccepted fs o
    → IsAccepted gs o
IsAccepted-Keeps o fs gs i k a = by_validator o.validate i a
  where
    by_validator :
        (v : Option Validator)
        → IsIndependent (record o { validate = v })
        → IsAccepted fs (record o { validate = v })
        → IsAccepted gs (record o { validate = v })
    by_validator none i a = tt
    by_validator (some required) i a = rw (k o.config_key i) a
    by_validator (some positive) i a = rw (k o.config_key i) a
    by_validator (some (at_most max_key)) i a = rw (k o.config_key i.0, k max_key i.1) a
    by_validator (some core_url_or_local) i a = tt

check-valid :
    (b : Bool) (otherwise : Verdict) (fs gs : List Field)
    → (otherwise ≢ valid gs)
    → check b otherwise fs ≡ valid gs
    → (fs ≡ gs) × (b ≡ true)
check-valid true otherwise fs gs n h = (cc, refl)
check-valid false otherwise fs gs n h = absurd (n h)

fields_eq : {fs gs : List Field} → valid fs ≡ valid gs → fs ≡ gs
fields_eq h = cc

Keeps-eq : {fs gs : List Field} → fs ≡ gs → Keeps fs gs
Keeps-eq e k h = ap (field k) (sym e)

not_above : (a b : ℕ) → not (ltb a b) ≡ true → b ≤ a
not_above a b h = ground arith

verdict-valid :
    (t : Texts) (o : ConfigOption) (fs : List Field) {gs : List Field}
    → IsIndependent o
    → verdict t o fs ≡ valid gs
    → Keeps fs gs × IsAccepted gs o
unfolding run_validator
verdict-valid t o fs {gs} i h = by_validator o.validate i h
  where
    by_validator :
        (v : Option Validator)
        → IsIndependent (record o { validate = v })
        → verdict t (record o { validate = v }) fs ≡ valid gs
        → Keeps fs gs × IsAccepted gs (record o { validate = v })
    by_validator none i h = (Keeps-eq (fields_eq h), tt)
    by_validator (some required) i h =
        let (e, b) = check-valid _ missing fs gs (λ c. cc) h in
        (Keeps-eq e, subst (λ xs. is_set (value_or_unset (field o.config_key xs)) ≡ true) e b)
    by_validator (some positive) i h =
        let (e, b) = check-valid _ invalid fs gs (λ c. cc) h in
        (Keeps-eq e, subst (λ xs. is_positive (value_or_unset (field o.config_key xs)) ≡ true) e b)
    by_validator (some (at_most max_key)) i h =
        let (e, b) = check-valid _ invalid fs gs (λ c. cc) h in
        (
          Keeps-eq e,
          subst (λ xs. as_uint (field o.config_key xs) ≤ as_uint (field max_key xs)) e
              (not_above _ _ b),
        )
    by_validator (some core_url_or_local) i h =
        (subst (Keeps fs) (fields_eq h) (url_or_local-Keeps t (field core_url_key fs) fs), tt)

all_found-ok :
    (names : List Bytes) (fs : List Field) {gs : List Field}
    → all_found names fs ≡ ok gs
    → (names ≡ []) × (fs ≡ gs)
all_found-ok [] fs h = (refl, ok-injective h)
all_found-ok (name ∷ names) fs h = cc

append-ne-nil : (names : List Bytes) (name : Bytes) → names ++ (name ∷ []) ≢ []
append-ne-nil [] name h = cc
append-ne-nil (n ∷ names) name h = cc

module _ (t : Texts) where
  validate_from-ok :
      (os : List ConfigOption) (fs : List Field) (names : List Bytes) {gs : List Field}
      → All IsIndependent os
      → validate_from t os fs names ≡ ok gs
      → (names ≡ []) × Keeps fs gs × All (IsAccepted gs) os
  unfolding validate_from
  validate_from-ok [] fs names i h = let (e, k) = all_found-ok names fs h in (e, Keeps-eq k, tt)
  validate_from-ok (o ∷ os) fs names {gs} i h =
      by_verdict (λ xs ns k. validate_from-ok os xs ns i.1 k) (verdict t o fs) refl h
    where
      by_verdict :
          ((xs : List Field) (ns : List Bytes)
            → validate_from t os xs ns ≡ ok gs
            → (ns ≡ []) × Keeps xs gs × All (IsAccepted gs) os)
          → (v : Verdict) → verdict t o fs ≡ v
          → elim v [
            | valid fs' ↦ validate_from t os fs' names
            | missing ↦ validate_from t os fs (names ++ (o.name ∷ []))
            | invalid ↦ err (invalid_value o.name)
          ]
            ≡ ok gs
          → (names ≡ []) × Keeps fs gs × All (IsAccepted gs) (o ∷ os)
      by_verdict rest (valid fs') e h =
          let (z, k, a) = rest fs' names h in
          let (k', b) = verdict-valid t o fs i.0 e in
          (z, λ key n. k key n ∙ k' key n, (IsAccepted-Keeps o fs' gs i.0 k b, a))
      by_verdict rest missing e h =
          let (z, k, a) = rest fs (names ++ (o.name ∷ [])) h in
          absurd (append-ne-nil names o.name z)
      by_verdict rest invalid e h = cc

  -- When Validate accepts the options, what each of their functions asks for holds of the fields that
  -- it leaves: the required ones are set, the positive ones are positive, and no limit is above its
  -- maximum; and only the core URL may have been set. The functions do not read the core URL but for
  -- the one that sets it.
  pub validate-IsAccepted :
      (fs : List Field) {gs : List Field}
      → All IsIndependent (options_of fs)
      → validate t fs ≡ ok gs
      → All (IsAccepted gs) (options_of fs)
        × ((k : Bytes) → (bytes_eq core_url_key k ≡ true) ⊎ (field k gs ≡ field k fs))
  unfolding validate
  validate-IsAccepted fs i h =
      let (z, k, a) = validate_from-ok (options_of fs) fs [] i h in
      (
        a,
        λ key. elim (Bool-cases (bytes_eq core_url_key key)) [
          | inl e ↦ inl e
          | inr e ↦ inr (k key e)
        ],
      )
