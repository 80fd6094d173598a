-- ===== src/Config/Parse.antt =====
-- cmd/stellar-rpc/internal/config/parse.go, and the choice of the parser in option.go. A value of an
-- interface{} is one of the types that the parsers know, or another one. Of the keys those of floats
-- are left out, which no option has; a number that is printed and read back is the number.
use stellar_stellar_rpc.Base.{
  ℕ, ◌-◌, ◌^◌, ◌%◌, ℤ, pos, negsuc, Option, none, some, List, [], ◌∷◌, ◌++◌, Bool, ltb, ◌==◌,
  if◌then◌else◌, Outcome, ok, err, ◌>>=◌,
}
use stellar_stellar_rpc.Base.Decimal.{Bytes, parse_uint}

-- `strings.ToLower`, `strconv.ParseBool`, `strconv.ParseInt`, `time.ParseDuration`,
-- `KebabToConstantCase` and the printing of a number, `none` for an error
pub record Texts : Type 0 where
  pub to_lower : Bytes → Bytes
  pub parse_bool : Bytes → Option Bool
  pub parse_int : Bytes → Option ℤ
  pub parse_duration : Bytes → Option ℤ
  pub kebab_to_constant_case : Bytes → Bytes
  pub sprint : ℕ → Bytes

-- A value of an interface{} other than nil. An element of `items` is `none` if it is not a string;
-- `level`, `format` and `tree` are a logrus.Level, a LogFormat and a toml.Tree.
pub data Raw : Type 0 where
  bool : Bool → Raw
  text : Bytes → Raw
  signed : ℤ → Raw
  unsigned : ℕ → Raw
  duration : ℤ → Raw
  texts : List Bytes → Raw
  items : List (Option Bytes) → Raw
  level : Bytes → Raw
  format : Bytes → Raw
  tree : Bytes → Raw
  other : Raw

-- The type of the field behind a ConfigKey; the numbers have a width in bits. `uint` has 64 bits, and
-- stands apart from uint64, since its parser is another one.
pub data Kind : Type 0 where
  bool_key : Kind
  int_key : (bits : ℕ) → Kind
  uint_key : (bits : ℕ) → Kind
  uint64_key : Kind
  string_key : Kind
  string_slice_key : Kind
  duration_key : Kind
  other_key : Kind

pub data Value : Type 0 where
  bool_value : Bool → Value
  int_value : ℤ → Value
  uint_value : ℕ → Value
  string_value : Bytes → Value
  strings_value : List Bytes → Value
  duration_value : ℤ → Value
  other_value : Bytes → Value

pub data SetError : Type 0 where
  invalid_boolean invalid_int invalid_uint : SetError
  overflows_uint32 cannot_be_negative invalid_duration not_a_string : SetError
  could_not_parse no_parser : SetError
  flag_not_read file_not_read unexpected_entry custom_refused : SetError

-- `reflect`'s `SetUint`: the low bits
unfoldable pub set_uint : (bits : ℕ) → ℕ → Value
set_uint bits n = uint_value (n % 2 ^ bits)

-- the two's complement of the low bits
abbrev signed_bits : ℕ → ℕ → ℤ
signed_bits bits n = if ltb n (2 ^ (bits - 1)) then pos n else negsuc (2 ^ bits - n - 1)

-- `reflect`'s `SetInt`
unfoldable pub set_int : (bits : ℕ) → ℤ → Value
set_int bits (pos n) = int_value (signed_bits bits (n % 2 ^ bits))
set_int bits (negsuc n) = int_value (signed_bits bits (2 ^ bits - 1 - n % 2 ^ bits))

unfoldable pub parse_bool : Texts → Raw → Outcome SetError Value
parse_bool t (bool b) = ok (bool_value b)
parse_bool t (text v) = elim (t.parse_bool (t.to_lower v)) [
  | none ↦ err invalid_boolean
  | some b ↦ ok (bool_value b)
]
parse_bool t _ = err could_not_parse

abbrev int64_range : ℕ → Bool
int64_range n = ltb n (2 ^ 63)

unfoldable pub parse_int : Texts → (bits : ℕ) → Raw → Outcome SetError Value
unfolding set_int
parse_int t bits (text v) = elim (t.parse_int v) [
  | none ↦ err invalid_int
  | some n ↦ ok (set_int bits n)
]
parse_int t bits (signed n) = ok (set_int bits n)
parse_int t bits (unsigned n) = if int64_range n then ok (set_int bits (pos n)) else err invalid_int
parse_int t bits _ = err could_not_parse

abbrev pub or_invalid : Option ℕ → Outcome SetError ℕ
or_invalid none = err invalid_uint
or_invalid (some n) = ok n

-- `strconv.ParseUint(v, 10, 64)`
abbrev read_uint : Bytes → Outcome SetError ℕ
read_uint v = or_invalid (parse_uint (2 ^ 64) v)

unfoldable pub parse_uint64 : Raw → Outcome SetError Value
unfolding set_uint
parse_uint64 (text v) = read_uint v >>= λ n. ok (set_uint 64 n)
parse_uint64 (signed (pos n)) = ok (set_uint 64 n)
parse_uint64 (signed (negsuc n)) = err cannot_be_negative
parse_uint64 (unsigned n) = ok (set_uint 64 n)
parse_uint64 _ = err could_not_parse

-- the test against MaxUint32, for a key of any of the widths
unfoldable pub checked_uint32 : (bits : ℕ) → ℕ → Outcome SetError Value
unfolding set_uint
checked_uint32 bits n = if ltb (2 ^ 32 - 1) n then err overflows_uint32 else ok (set_uint bits n)

unfoldable pub parse_uint32 : (bits : ℕ) → Raw → Outcome SetError Value
unfolding checked_uint32
parse_uint32 bits (text v) = read_uint v >>= λ n. checked_uint32 bits n
parse_uint32 bits (signed (pos n)) = checked_uint32 bits n
parse_uint32 bits (signed (negsuc n)) = err cannot_be_negative
parse_uint32 bits (unsigned n) = checked_uint32 bits n
parse_uint32 bits _ = err could_not_parse

unfoldable pub parse_string : Raw → Outcome SetError Value
parse_string (text v) = ok (string_value v)
parse_string _ = err could_not_parse

unfoldable pub parse_duration : Texts → Raw → Outcome SetError Value
parse_duration t (text v) = elim (t.parse_duration v) [
  | none ↦ err invalid_duration
  | some d ↦ ok (duration_value d)
]
parse_duration t (duration d) = ok (duration_value d)
parse_duration t _ = err could_not_parse

-- `strings.Split(v, ",")`, with the part that is being read
split_comma : Bytes → Bytes → List Bytes
split_comma part [] = part ∷ []
split_comma part (c ∷ s) =
    let ended = split_comma [] s in
    let longer = split_comma (part ++ (c ∷ [])) s in if c == b',' then part ∷ ended else longer

split_texts : Bytes → List Bytes
unfolding split_comma
split_texts [] = []
split_texts (c ∷ s) = split_comma [] (c ∷ s)

all_strings : List (Option Bytes) → Outcome SetError (List Bytes)
all_strings [] = ok []
all_strings (none ∷ is) = err not_a_string
all_strings (some s ∷ is) = let rest = all_strings is in rest >>= λ ss. ok (s ∷ ss)

unfoldable pub parse_string_slice : Raw → Outcome SetError Value
unfolding split_texts all_strings
parse_string_slice (text v) = ok (strings_value (split_texts v))
parse_string_slice (texts vs) = ok (strings_value vs)
parse_string_slice (items is) = all_strings is >>= λ ss. ok (strings_value ss)
parse_string_slice _ = err could_not_parse

-- the switch of `setValue`
unfoldable pub parse : Texts → Kind → Raw → Outcome SetError Value
unfolding parse_bool parse_int parse_uint64 parse_uint32 parse_string parse_duration
    parse_string_slice
parse t bool_key raw = parse_bool t raw
parse t (int_key bits) raw = parse_int t bits raw
parse t (uint_key bits) raw = parse_uint32 bits raw
parse t uint64_key raw = parse_uint64 raw
parse t string_key raw = parse_string raw
parse t string_slice_key raw = parse_string_slice raw
parse t duration_key raw = parse_duration t raw
parse t other_key raw = err no_parser
