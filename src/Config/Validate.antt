-- ===== src/Config/Validate.antt =====
-- cmd/stellar-rpc/internal/config/option.go and options.go: `Validate` of the options, with the
-- functions for it. The messages are left out: of a missing option its name is kept.

pub mod Accepted
use stellar_stellar_rpc.Base.{
  ℕ, zero, suc, ◌<◌, ℤ, pos, negsuc, Option, none, some, List, [], ◌∷◌, ◌++◌, Bool, true, false,
  not, ltb, ◌==◌, if◌then◌else◌, Outcome, ok, err, panic,
}
use stellar_stellar_rpc.Base.Decimal.{Bytes, bytes_eq, codes}
use stellar_stellar_rpc.Config.Parse.{
  Texts, Value, bool_value, int_value, uint_value, string_value, strings_value, duration_value,
  other_value,
}
use stellar_stellar_rpc.Config.{
  Validator, required, positive, at_most, core_url_or_local, ConfigOption, Field, field, is_empty,
}

pub data ValidateError : Type 0 where
  missing_required : (names : List Bytes) → ValidateError
  invalid_value : (name : Bytes) → ValidateError

-- `IsZero`, and no element for a slice
unfoldable pub is_set : Value → Bool
is_set (bool_value b) = b
is_set (int_value (pos n)) = ltb 0 n
is_set (int_value (negsuc n)) = true
is_set (uint_value n) = ltb 0 n
is_set (string_value []) = false
is_set (string_value (c ∷ s)) = true
is_set (strings_value []) = false
is_set (strings_value (s ∷ ss)) = true
is_set (duration_value (pos n)) = ltb 0 n
is_set (duration_value (negsuc n)) = true
is_set (other_value []) = false
is_set (other_value (c ∷ s)) = true

-- `positive`
unfoldable pub is_positive : Value → Bool
is_positive (int_value (pos n)) = ltb 0 n
is_positive (uint_value n) = ltb 0 n
is_positive _ = false

abbrev pub as_uint : Option Value → ℕ
as_uint (some (uint_value n)) = n
as_uint _ = 0

abbrev pub core_url_key : Bytes
core_url_key = codes "StellarCoreURL"

abbrev core_port_key : Bytes
core_port_key = codes "CaptiveCoreHTTPPort"

unfoldable pub set_field : Bytes → Value → List Field → List Field
set_field key v [] = []
set_field key v (f ∷ fs) =
    (if bytes_eq f.option.config_key key then record f { value = v } else f) ∷ set_field key v fs

local_url : Texts → List Field → Value
local_url t fs =
    string_value (codes "http://localhost:" ++ t.sprint (as_uint (field core_port_key fs)))

url_or_local : Texts → Option Value → List Field → List Field
unfolding local_url
url_or_local t (some (string_value [])) fs = set_field core_url_key (local_url t fs) fs
url_or_local t _ fs = fs

-- What a function for `Validate` says of an option.
pub data Verdict : Type 0 where
  valid : List Field → Verdict
  missing : Verdict
  invalid : Verdict

abbrev pub check : Bool → Verdict → List Field → Verdict
check true otherwise fs = valid fs
check false otherwise fs = otherwise

abbrev pub value_or_unset : Option Value → Value
value_or_unset none = other_value []
value_or_unset (some v) = v

-- `required`, `positive` and the functions in the table
unfoldable pub run_validator : Texts → Validator → ConfigOption → List Field → Verdict
unfolding url_or_local is_set is_positive
run_validator t required o fs = check (is_set (value_or_unset (field o.config_key fs))) missing fs
run_validator t positive o fs =
    check (is_positive (value_or_unset (field o.config_key fs))) invalid fs
run_validator t (at_most max_key) o fs =
    check (not (ltb (as_uint (field max_key fs)) (as_uint (field o.config_key fs)))) invalid fs
run_validator t core_url_or_local o fs = valid (url_or_local t (field core_url_key fs) fs)

abbrev verdict : Texts → ConfigOption → List Field → Verdict
verdict t o fs = elim o.validate [ none ↦ valid fs | some v ↦ run_validator t v o fs ]

abbrev all_found : List Bytes → List Field → Outcome ValidateError (List Field)
all_found [] fs = ok fs
all_found (name ∷ names) fs = err (missing_required (name ∷ names))

-- the loop, with the names of the missing options so far
unfoldable pub validate_from :
    Texts → List ConfigOption → List Field → List Bytes → Outcome ValidateError (List Field)
unfolding run_validator
validate_from t [] fs names = all_found names fs
validate_from t (o ∷ os) fs names = elim (verdict t o fs) [
  | valid fs' ↦ validate_from t os fs' names
  | missing ↦ validate_from t os fs (names ++ (o.name ∷ []))
  | invalid ↦ err (invalid_value o.name)
]

unfoldable pub options_of : List Field → List ConfigOption
options_of [] = []
options_of (f ∷ fs) = f.option ∷ options_of fs

-- `Options.Validate`
unfoldable pub validate : Texts → List Field → Outcome ValidateError (List Field)
unfolding options_of
validate t fs = validate_from t (options_of fs) fs []
