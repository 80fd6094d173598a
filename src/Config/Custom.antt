-- ===== src/Config/Custom.antt =====
-- The functions that set the values of some options, in cmd/stellar-rpc/internal/config/options.go
-- and log_format.go. What the machine gives, and what the libraries for log levels and TOML do, are a
-- parameter.
use stellar_stellar_rpc.Base.{ℕ, Option, none, some, ◌||◌, if◌then◌else◌, Outcome, ok, err, panic}
use stellar_stellar_rpc.Base.Decimal.{Bytes, bytes_eq, codes}
use stellar_stellar_rpc.Config.Parse.{
  Raw, text, level, format, tree, Value, string_value, other_value, SetError, custom_refused,
}
use stellar_stellar_rpc.Config.{CustomSetValue, is_empty}

-- the path that is looked up for stellar-core, the number of CPUs, the working directory, and the
-- parsers of a log level and of a table of TOML, `none` for an error
pub record Platform : Type 0 where
  pub stellar_core_binary_path : Bytes
  pub num_cpu : ℕ
  pub getwd : Option Bytes
  pub parse_level : Bytes → Option Bytes
  pub unmarshal_tree : Bytes → Option Bytes

abbrev or_refused : Option Bytes → Outcome SetError Value
or_refused none = err custom_refused
or_refused (some b) = ok (other_value b)

level_of : Platform → Raw → Outcome SetError Value
level_of p (text v) = or_refused (p.parse_level v)
level_of p (level l) = ok (other_value l)
level_of p _ = err custom_refused

-- of log-level
unfoldable pub log_level : Platform → CustomSetValue
unfolding level_of
log_level p = record { on_nil = ok none; on_value = level_of p }

-- `LogFormat.UnmarshalText`
unmarshal_text : Bytes → Outcome SetError Value
unmarshal_text v =
    if bytes_eq v (codes "text") || bytes_eq v (codes "json")
    then ok (other_value v)
    else err custom_refused

format_of : Raw → Outcome SetError Value
unfolding unmarshal_text
format_of (text v) = unmarshal_text v
format_of (format f) = ok (other_value f)
format_of _ = err custom_refused

-- of log-format
unfoldable pub log_format : CustomSetValue
unfolding format_of
log_format = record { on_nil = ok none; on_value = format_of }

abbrev working_directory : Platform → Outcome SetError Value
working_directory p = elim p.getwd [ none ↦ err custom_refused | some d ↦ ok (string_value d) ]

path_of : Platform → Raw → Outcome SetError Value
path_of p (text v) =
    if is_empty v || bytes_eq v (codes ".") then working_directory p else ok (string_value v)
path_of p _ = err custom_refused

abbrev as_set : Outcome SetError Value → Outcome SetError (Option Value)
as_set (ok v) = ok (some v)
as_set (err e) = err e
as_set panic = panic

-- of captive-core-storage-path
unfoldable pub storage_path : Platform → CustomSetValue
unfolding path_of
storage_path p = record { on_nil = as_set (working_directory p); on_value = path_of p }

-- `unmarshalTOMLTree`, for a Config in which the table was not yet set; nil is no tree
tree_of : Platform → Raw → Outcome SetError Value
tree_of p (tree b) = or_refused (p.unmarshal_tree b)
tree_of p _ = err custom_refused

unfoldable pub tree_config : Platform → CustomSetValue
unfolding tree_of
tree_config p = record { on_nil = err custom_refused; on_value = tree_of p }
