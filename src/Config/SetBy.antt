-- ===== src/Config/SetBy.antt =====
-- The fields of a Config before and after a loader, by what its source gives for each option.
use mathlib.Core.Path.{subst}
use stellar_stellar_rpc.Base.{
  ◌≡◌, refl, sym, ap, ◌∙◌, Option, none, some, List, [], ◌∷◌, Outcome, ok, err, panic, ◌>>=◌,
  >>=-eq-ok, ok-injective, arith,
}
use stellar_stellar_rpc.Config.Parse.{Texts, Raw, Value, SetError}
use stellar_stellar_rpc.Config.{ConfigOption, Field, Config, set_value, set_from, load, with_value}

abbrev pub or_else : Option Raw → Option Raw → Option Raw
or_else none s = s
or_else (some raw) s = some raw

module _ (t : Texts) where
  -- what a source gives for the option of a field is set, and no field without one is changed
  abbrev pub SetTo : Option Raw → Field → Field → Type 0
  SetTo none f g = g ≡ f
  SetTo (some raw) f g = set_value t f raw ≡ ok g

  abbrev pub SetBy : (ConfigOption → Option Raw) → Field → Field → Type 0
  SetBy s f g = (g.option ≡ f.option) × SetTo (s f.option) f g

  abbrev pub AllSetBy : (ConfigOption → Option Raw) → List Field → List Field → Type 0
  AllSetBy s [] [] = Unit
  AllSetBy s [] (g ∷ gs) = ⊥
  AllSetBy s (f ∷ fs) [] = ⊥
  AllSetBy s (f ∷ fs) (g ∷ gs) = SetBy s f g × AllSetBy s fs gs

  set_value-option :
      (f : Field) (raw : Raw) {g : Field} → set_value t f raw ≡ ok g → g.option ≡ f.option
  unfolding set_value
  set_value-option f raw h = ground arith

  with_value-same :
      (o : ConfigOption) (u v : Value) (r : Outcome SetError Value)
      → with_value (record { option = o; value = u }) r
        ≡ with_value (record { option = o; value = v }) r
  with_value-same o u v (ok x) = refl
  with_value-same o u v (err e) = refl
  with_value-same o u v panic = refl

  set_value-same :
      (o : ConfigOption) (u v : Value) (raw : Raw)
      → set_value t (record { option = o; value = u }) raw
        ≡ set_value t (record { option = o; value = v }) raw
  unfolding set_value
  set_value-same o u v raw = with_value-same o u v _

  -- Setting a value does not depend on the one before.
  set_value-again :
      (f g : Field) (raw : Raw) {h : Field}
      → g.option ≡ f.option
      → set_value t g raw ≡ ok h
      → set_value t f raw ≡ ok h
  set_value-again f g raw {h} e k =
      subst (λ o. set_value t (record { option = o; value = f.value }) raw ≡ ok h) e
        (set_value-same g.option f.value g.value raw ∙ k)

  SetBy-trans :
      (s₁ s₂ : ConfigOption → Option Raw) (f g h : Field)
      → SetBy s₁ f g
      → SetBy s₂ g h
      → SetBy (λ o. or_else (s₂ o) (s₁ o)) f h
  SetBy-trans s₁ s₂ f g h p q =
      (q.0 ∙ p.0, later (s₂ f.option) (s₁ f.option) p.1 (subst (λ o. SetTo (s₂ o) g h) p.0 q.1))
    where
      later : (r₂ r₁ : Option Raw) → SetTo r₁ f g → SetTo r₂ g h → SetTo (or_else r₂ r₁) f h
      later none none k l = l ∙ k
      later none (some raw) k l = subst (λ x. set_value t f raw ≡ ok x) (sym l) k
      later (some raw) r₁ k l = set_value-again f g raw p.0 l

  pub AllSetBy-trans :
      (s₁ s₂ : ConfigOption → Option Raw) (fs gs hs : List Field)
      → AllSetBy s₁ fs gs
      → AllSetBy s₂ gs hs
      → AllSetBy (λ o. or_else (s₂ o) (s₁ o)) fs hs
  AllSetBy-trans s₁ s₂ [] [] [] p q = tt
  AllSetBy-trans s₁ s₂ [] [] (h ∷ hs) p q = q
  AllSetBy-trans s₁ s₂ [] (g ∷ gs) hs p q = absurd p
  AllSetBy-trans s₁ s₂ (f ∷ fs) [] hs p q = absurd p
  AllSetBy-trans s₁ s₂ (f ∷ fs) (g ∷ gs) [] p q = absurd q
  AllSetBy-trans s₁ s₂ (f ∷ fs) (g ∷ gs) (h ∷ hs) p q =
      (SetBy-trans s₁ s₂ f g h p.0 q.0, AllSetBy-trans s₁ s₂ fs gs hs p.1 q.1)

  pub AllSetBy-ext :
      (s s' : ConfigOption → Option Raw)
      → ((o : ConfigOption) → s o ≡ s' o)
      → (fs gs : List Field) → AllSetBy s fs gs
      → AllSetBy s' fs gs
  AllSetBy-ext s s' e [] [] p = tt
  AllSetBy-ext s s' e [] (g ∷ gs) p = p
  AllSetBy-ext s s' e (f ∷ fs) [] p = p
  AllSetBy-ext s s' e (f ∷ fs) (g ∷ gs) p =
      ((p.0.0, subst (λ r. SetTo r f g) (e f.option) p.0.1), AllSetBy-ext s s' e fs gs p.1)

  -- one pass over the options
  pub load-AllSetBy :
      (source : ConfigOption → Outcome SetError (Option Raw)) (s : ConfigOption → Option Raw)
      → ((o : ConfigOption) (r : Option Raw) → source o ≡ ok r → r ≡ s o)
      → (fs : List Field) {gs : List Field} → load t source fs ≡ ok gs
      → AllSetBy s fs gs
  unfolding load
  load-AllSetBy source s pure [] {gs = []} h = tt
  load-AllSetBy source s pure [] {gs = g ∷ gs} h = cc
  load-AllSetBy source s pure (f ∷ fs) {gs} h =
      let (r, er, h₁) = >>=-eq-ok (source f.option) _ h in
      let (g, eg, h₂) = >>=-eq-ok (set_from t source f r) _ h₁ in
      let (rest, es, h₃) = >>=-eq-ok (load t source fs) _ h₂ in
      subst (AllSetBy s (f ∷ fs)) (ok-injective h₃)
        (one r (pure f.option r er) eg, load-AllSetBy source s pure fs es)
    where
      one :
          (r : Option Raw) {g : Field} → r ≡ s f.option → set_from t source f r ≡ ok g → SetBy s f g
      one none {g} e k =
          let same = ok-injective k in
          (ap (λ (x : Field). x.option) (sym same), subst (λ r. SetTo r f g) e (sym same))
      one (some raw) {g} e k = (set_value-option f raw k, subst (λ r. SetTo r f g) e k)

  -- a loader: one pass, and the Config around its fields
  pub loader-AllSetBy :
      (source : ConfigOption → Outcome SetError (Option Raw)) (s : ConfigOption → Option Raw)
      → ((o : ConfigOption) (r : Option Raw) → source o ≡ ok r → r ≡ s o)
      → (around : List Field → Config) → ((fs : List Field) → (around fs).fields ≡ fs)
      → (fs : List Field) {cfg : Config} → (load t source fs >>= λ gs. ok (around gs)) ≡ ok cfg
      → AllSetBy s fs cfg.fields
  loader-AllSetBy source s pure around same fs h =
      let (gs, e, k) = >>=-eq-ok (load t source fs) _ h in
      subst (AllSetBy s fs) (sym (same gs) ∙ ap (λ (c : Config). c.fields) (ok-injective k))
        (load-AllSetBy source s pure fs e)
