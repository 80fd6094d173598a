-- ===== src/Config/Flags/Kept.antt =====
-- What the start of the program keeps of the table of options, from `AddFlags` over the command line to
-- `SetValues`.
use stellar_stellar_rpc.Base.{
  ◌≡◌, refl, sym, ap, ◌∙◌, Option, none, some, List, [], ◌∷◌, map, ok, >>=-eq-ok, ok-injective,
}
use stellar_stellar_rpc.Base.Decimal.{Bytes}
use stellar_stellar_rpc.Config.Parse.{Texts, Raw}
use stellar_stellar_rpc.Config.{CustomSetValue, ConfigOption, Field}
use stellar_stellar_rpc.Config.Flags.{
  asserted, asserted_flag, string_flag, add_named, add_flag, add_flags,
}
use stellar_stellar_rpc.Config.SetBy.{AllSetBy}

-- An option but for its default and its flag, and all those of fields.
abbrev pub stripped : ConfigOption → ConfigOption
stripped o = record o { default_value = none; flag = none }

abbrev pub stripped_of : List Field → List ConfigOption
stripped_of [] = []
stripped_of (f ∷ fs) = stripped f.option ∷ stripped_of fs

-- A field but for the state of its flag, which is all that pflag sets of it.
abbrev pub unflagged : Field → Field
unflagged f = record f { option = record f.option { flag = none } }

module _ (sprint : Raw → Bytes) where
  custom_flag-stripped :
      (o : ConfigOption) (c : Option CustomSetValue) {o' : ConfigOption}
      → elim c [ none ↦ asserted_flag o | some f ↦ ok (string_flag sprint o) ] ≡ ok o'
      → stripped o' ≡ stripped o
  unfolding asserted_flag string_flag
  custom_flag-stripped o none h =
      let (raw, _, k) = >>=-eq-ok (asserted o.kind o.default_value) _ h in
      ap stripped (sym (ok-injective k))
  custom_flag-stripped o (some c) h = ap stripped (sym (ok-injective h))

  add_named-stripped :
      (name : Bytes) (o : ConfigOption) {o' : ConfigOption}
      → add_named sprint name o ≡ ok o'
      → stripped o' ≡ stripped o
  unfolding add_named
  add_named-stripped [] o h = ap stripped (sym (ok-injective h))
  add_named-stripped (c ∷ s) o h = custom_flag-stripped o o.custom_set_value h

  pub add_flags-stripped_of :
      (fs : List Field) {gs : List Field}
      → add_flags sprint fs ≡ ok gs
      → stripped_of gs ≡ stripped_of fs
  unfolding add_flags add_flag
  add_flags-stripped_of [] h = ap stripped_of (sym (ok-injective h))
  add_flags-stripped_of (f ∷ fs) h =
      let (o, eo, h₁) = >>=-eq-ok (add_flag sprint f.option) _ h in
      let (rest, er, h₂) = >>=-eq-ok (add_flags sprint fs) _ h₁ in
      ap stripped_of (sym (ok-injective h₂))
      ∙ (λ i. add_named-stripped f.option.name f.option eo i ∷ add_flags-stripped_of fs er i)

stripped_of-unflagged : (fs : List Field) → stripped_of (map unflagged fs) ≡ stripped_of fs
stripped_of-unflagged [] = refl
stripped_of-unflagged (f ∷ fs) = ap (stripped f.option ∷◌) (stripped_of-unflagged fs)

pub same_but_flags :
    (fs gs : List Field) → map unflagged fs ≡ map unflagged gs → stripped_of fs ≡ stripped_of gs
same_but_flags fs gs e =
    sym (stripped_of-unflagged fs) ∙ ap stripped_of e ∙ stripped_of-unflagged gs

pub AllSetBy-stripped_of :
    (t : Texts) (s : ConfigOption → Option Raw) (fs gs : List Field)
    → AllSetBy t s fs gs
    → stripped_of gs ≡ stripped_of fs
AllSetBy-stripped_of t s [] [] h = refl
AllSetBy-stripped_of t s [] (g ∷ gs) h = absurd h
AllSetBy-stripped_of t s (f ∷ fs) [] h = absurd h
AllSetBy-stripped_of t s (f ∷ fs) (g ∷ gs) h =
    λ i. stripped (h.0.0 i) ∷ AllSetBy-stripped_of t s fs gs h.1 i
