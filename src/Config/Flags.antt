-- ===== src/Config/Flags.antt =====
-- cmd/stellar-rpc/internal/config/flags.go: which flag an option gets. A flag of pflag that is not
-- changed gives its default, which for a custom function is printed by fmt, a parameter. A type
-- assertion on a default of another type, or on nil, panics; a number is taken to have the width of
-- its key. Keys of floats, addresses and lists of numbers, and two flags of one name, which make pflag
-- panic, are left out: the table has neither.

pub mod Kept
use stellar_stellar_rpc.Base.{
  Option, none, some, List, [], ◌∷◌, false, Outcome, ok, err, panic, ◌>>=◌,
}
use stellar_stellar_rpc.Base.Decimal.{Bytes}
use stellar_stellar_rpc.Config.Parse.{
  Raw, bool, text, signed, unsigned, duration, texts, Kind, bool_key, int_key, uint_key, uint64_key,
  string_key, string_slice_key, duration_key, other_key, SetError, could_not_parse,
}
use stellar_stellar_rpc.Config.{ConfigOption, Field}

-- the default after an empty one was put in place of nil
abbrev default_or : Raw → Option Raw → Raw
default_or empty none = empty
default_or empty (some raw) = raw

-- the type assertions
asserted : Kind → Option Raw → Outcome SetError Raw
asserted bool_key (some (bool b)) = ok (bool b)
asserted duration_key (some (duration d)) = ok (duration d)
asserted (int_key bits) (some (signed n)) = ok (signed n)
asserted (uint_key bits) (some (unsigned n)) = ok (unsigned n)
asserted uint64_key (some (unsigned n)) = ok (unsigned n)
asserted string_key none = ok (text [])
asserted string_key (some (text v)) = ok (text v)
asserted string_slice_key none = ok (texts [])
asserted string_slice_key (some (texts vs)) = ok (texts vs)
asserted other_key r = err could_not_parse
asserted kind r = panic

abbrev with_flag : ConfigOption → Raw → Raw → ConfigOption
with_flag o default shown = record o {
  default_value = some default;
  flag = some (record { changed = false; get_flag = some shown });
}

asserted_flag : ConfigOption → Outcome SetError ConfigOption
unfolding asserted
asserted_flag o = asserted o.kind o.default_value >>= λ raw. ok (with_flag o raw raw)

-- for an option with a custom function
string_flag : (sprint : Raw → Bytes) → ConfigOption → ConfigOption
string_flag sprint o =
    let raw = default_or (text []) o.default_value in with_flag o raw (text (sprint raw))

add_named : (sprint : Raw → Bytes) → Bytes → ConfigOption → Outcome SetError ConfigOption
unfolding asserted_flag string_flag
add_named sprint [] o = ok o
add_named sprint (c ∷ s) o = elim o.custom_set_value [
  | none ↦ asserted_flag o
  | some f ↦ ok (string_flag sprint o)
]

-- `AddFlag`
unfoldable pub add_flag : (sprint : Raw → Bytes) → ConfigOption → Outcome SetError ConfigOption
unfolding add_named
add_flag sprint o = add_named sprint o.name o

-- `AddFlags`
unfoldable pub add_flags : (sprint : Raw → Bytes) → List Field → Outcome SetError (List Field)
add_flags sprint [] = ok []
add_flags sprint (f ∷ fs) =
    let rest = add_flags sprint fs in
    add_flag sprint f.option >>= λ o. rest >>= λ gs. ok (record f { option = o } ∷ gs)
