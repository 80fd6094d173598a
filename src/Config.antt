-- ===== src/Config.antt =====
-- cmd/stellar-rpc/internal/config: main.go, option.go, parse.go, toml.go and options.go. A Config is
-- the list of its options with the value of the field that each one is bound to. What a flag was set
-- to, the environment, the file and the tree that is read of it, and a few functions on texts are
-- parameters. An error ends the program, so that the fields that were set before it are not kept.
pub mod Parse
pub mod SetBy
pub mod Sources
pub mod Widths
pub mod Flags
pub mod Validate
pub mod Custom
pub mod Table
mod Tests
use stellar_stellar_rpc.Base.{
  ℕ, ◌≡◌, Option, none, some, List, [], ◌∷◌, ◌++◌, Bool, true, false, not, ◌&&◌, ◌||◌, ltb, leb,
  ◌==◌, if◌then◌else◌, length, Outcome, ok, err, panic, ◌>>=◌,
}
use stellar_stellar_rpc.Base.Decimal.{Bytes, bytes_eq, contains, codes}
use Parse.{
  Texts, Raw, text, Kind, Value, bool_value, string_value, SetError, flag_not_read, file_not_read,
  unexpected_entry, parse,
}

-- What CustomSetValue does of nil, for which it may keep the field, and of a value.
pub record CustomSetValue : Type 0 where
  pub on_nil : Outcome SetError (Option Value)
  pub on_value : Raw → Outcome SetError Value

-- A flag of pflag, with what GetFlag gives of it, `none` for an error.
pub record Flag : Type 0 where
  pub changed : Bool
  pub get_flag : Option Raw

-- The functions that options have for `Validate`; `at_most` names the field of the maximum.
pub data Validator : Type 0 where
  required positive : Validator
  at_most : (max_key : Bytes) → Validator
  core_url_or_local : Validator

-- `config_key` names the field of the Config, and `kind` is its type.
pub record ConfigOption : Type 0 where
  pub name : Bytes
  pub env_var : Bytes
  pub toml_key : Bytes
  pub default_value : Option Raw
  pub config_key : Bytes
  pub kind : Kind
  pub custom_set_value : Option CustomSetValue
  pub validate : Option Validator
  pub flag : Option Flag

pub record Field : Type 0 where
  pub option : ConfigOption
  pub value : Value

pub record Config : Type 0 where
  pub fields : List Field
  pub history_archive_user_agent : Bytes

-- `-` or `_`
is_omitted : Bytes → Bool
is_omitted key = bytes_eq key (b'-' ∷ []) || bytes_eq key (b'_' ∷ [])

abbrev pub is_empty : Bytes → Bool
is_empty [] = true
is_empty (c ∷ s) = false

unfoldable pub get_env_key : Texts → ConfigOption → Option Bytes
unfolding is_omitted
get_env_key t o =
    if is_omitted o.env_var
    then none
    else some (if is_empty o.env_var then t.kebab_to_constant_case o.name else o.env_var)

unfoldable pub get_toml_key : Texts → ConfigOption → Option Bytes
unfolding is_omitted get_env_key
get_toml_key t o =
    if is_omitted o.toml_key
    then none
    else if not (is_empty o.toml_key)
    then some o.toml_key
    else elim (get_env_key t o) [
      | some key ↦ some key
      | none ↦ some (t.kebab_to_constant_case o.name)
    ]

abbrev pub with_value : Field → Outcome SetError Value → Outcome SetError Field
with_value f (ok v) = ok (record f { value = v })
with_value f (err e) = err e
with_value f panic = panic

abbrev keep_or_set : Field → Option Value → Field
keep_or_set f none = f
keep_or_set f (some v) = record f { value = v }

-- `setValue` of nil: each of the parsers does nothing
unfoldable pub set_nil : Field → Outcome SetError Field
set_nil f = elim f.option.custom_set_value [
  | none ↦ ok f
  | some c ↦ c.on_nil >>= λ v. ok (keep_or_set f v)
]

parsed : Texts → ConfigOption → Raw → Outcome SetError Value
unfolding parse
parsed t o raw = elim o.custom_set_value [ none ↦ parse t o.kind raw | some c ↦ c.on_value raw ]

-- `setValue` of a value
unfoldable pub set_value : Texts → Field → Raw → Outcome SetError Field
unfolding parsed
set_value t f raw = with_value f (parsed t f.option raw)

-- the loops of the loaders: what a source gives for an option is set, in the order of the options
module _ (t : Texts) (source : ConfigOption → Outcome SetError (Option Raw)) where
  abbrev pub set_from : Field → Option Raw → Outcome SetError Field
  set_from f none = ok f
  set_from f (some raw) = set_value t f raw

  unfoldable pub load : List Field → Outcome SetError (List Field)
  load [] = ok []
  load (f ∷ fs) =
      let rest = load fs in
      source f.option >>= λ raw. set_from f raw >>= λ g. rest >>= λ gs. ok (g ∷ gs)

abbrev pub default_source : ConfigOption → Outcome SetError (Option Raw)
default_source o = ok o.default_value

abbrev pub user_agent : Bytes → Bytes
user_agent version = codes "stellar-rpc/" ++ version

unfoldable pub load_defaults : Texts → (version : Bytes) → Config → Outcome SetError Config
load_defaults t version cfg = do
  fields ← load t default_source cfg.fields
  ok (record { fields = fields; history_archive_user_agent = user_agent version })

abbrev pub env_value : (Bytes → Option Bytes) → Option Bytes → Option Raw
env_value lookup none = none
env_value lookup (some key) = elim (lookup key) [ none ↦ none | some v ↦ some (text v) ]

unfoldable pub env_source :
    Texts → (lookup_env : Bytes → Option Bytes) → ConfigOption → Outcome SetError (Option Raw)
unfolding get_env_key
env_source t lookup_env o = ok (env_value lookup_env (get_env_key t o))

unfoldable pub load_env : Texts → (Bytes → Option Bytes) → Config → Outcome SetError Config
load_env t lookup_env cfg = do
  fields ← load t (env_source t lookup_env) cfg.fields
  ok (record cfg { fields = fields })

abbrev flag_value : Flag → Outcome SetError (Option Raw)
flag_value f =
    if not f.changed
    then ok none
    else elim f.get_flag [ none ↦ err flag_not_read | some raw ↦ ok (some raw) ]

unfoldable pub flag_source : ConfigOption → Outcome SetError (Option Raw)
flag_source o = elim o.flag [ none ↦ ok none | some f ↦ flag_value f ]

unfoldable pub load_flags : Texts → Config → Outcome SetError Config
load_flags t cfg = do fields ← load t flag_source cfg.fields; ok (record cfg { fields = fields })

-- A toml.Tree: `Get` of a key, `none` for nil, and `Keys`.
pub record Tree : Type 0 where
  pub get : Bytes → Option Raw
  pub keys : List Bytes

-- the fields of a Config by their names
unfoldable pub field : Bytes → List Field → Option Value
field key [] = none
field key (f ∷ fs) =
    let rest = field key fs in if bytes_eq f.option.config_key key then some f.value else rest

abbrev as_text : Option Value → Bytes
as_text (some (string_value s)) = s
as_text _ = []

abbrev as_bool : Option Value → Bool
as_bool (some (bool_value b)) = b
as_bool _ = false

unfoldable pub config_path : Config → Bytes
config_path cfg = as_text (field (codes "ConfigPath") cfg.fields)

unfoldable pub strict : Config → Bool
strict cfg = as_bool (field (codes "Strict") cfg.fields)

abbrev tree_value : Tree → Option Bytes → Option Raw
tree_value tree none = none
tree_value tree (some key) = tree.get key

unfoldable pub toml_source : Texts → Tree → ConfigOption → Outcome SetError (Option Raw)
unfolding get_toml_key
toml_source t tree o = ok (tree_value tree (get_toml_key t o))

valid_keys : Texts → List Field → List Bytes
unfolding get_toml_key
valid_keys t [] = []
valid_keys t (f ∷ fs) = elim (get_toml_key t f.option) [
  | none ↦ valid_keys t fs
  | some key ↦ key ∷ valid_keys t fs
]

-- the loop over the keys of the tree
all_known : List Bytes → List Bytes → Bool
all_known valid [] = true
all_known valid (key ∷ keys) = let rest = all_known valid keys in contains valid key && rest

-- in strict mode, which the file itself may have set
unfoldable pub check_keys : Texts → Tree → (strict_before : Bool) → Config → Outcome SetError Config
unfolding strict valid_keys all_known
check_keys t tree strict_before cfg =
    if (strict cfg || strict_before) && not (all_known (valid_keys t cfg.fields) tree.keys)
    then err unexpected_entry
    else ok cfg

-- `parseToml` of the tree that was loaded
unfoldable pub parse_toml : Texts → Tree → (strict_before : Bool) → Config → Outcome SetError Config
unfolding check_keys
parse_toml t tree strict_before cfg = do
  fields ← load t (toml_source t tree) cfg.fields
  check_keys t tree strict_before (record cfg { fields = fields })

-- `loadConfigPath`; `open_toml` is `none` when the file cannot be opened or loaded
unfoldable pub load_config_path :
    Texts → (open_toml : Bytes → Option Tree) → Config → Outcome SetError Config
load_config_path t open_toml cfg = elim (open_toml (config_path cfg)) [
  | none ↦ err file_not_read
  | some tree ↦ parse_toml t tree (strict cfg) cfg
]

-- what the program is started with
pub record Surroundings : Type 0 where
  pub version : Bytes
  pub lookup_env : Bytes → Option Bytes
  pub open_toml : Bytes → Option Tree

unfoldable pub load_env_and_flags : Texts → Surroundings → Config → Outcome SetError Config
load_env_and_flags t w cfg = do cfg₁ ← load_env t w.lookup_env cfg; load_flags t cfg₁

-- the first part of `SetValues`, before the file
unfoldable pub load_without_file : Texts → Surroundings → Config → Outcome SetError Config
load_without_file t w cfg = do cfg₁ ← load_defaults t w.version cfg; load_env_and_flags t w cfg₁

unfoldable pub load_with_file : Texts → Surroundings → Config → Outcome SetError Config
load_with_file t w cfg = do cfg₁ ← load_config_path t w.open_toml cfg; load_env_and_flags t w cfg₁

-- `SetValues`
unfoldable pub set_values : Texts → Surroundings → Config → Outcome SetError Config
set_values t w cfg = do
  cfg₁ ← load_without_file t w cfg
  if is_empty (config_path cfg₁) then ok cfg₁ else load_with_file t w cfg₁

-- `ExtendedUserAgent`
unfoldable pub extended_user_agent : Config → Bytes → Bytes
extended_user_agent cfg extension =
    if is_empty cfg.history_archive_user_agent
    then extension
    else cfg.history_archive_user_agent ++ (b'/' ∷ extension)
