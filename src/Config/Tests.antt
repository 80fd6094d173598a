-- ===== src/Config/Tests.antt =====
-- A small Config from its sources, a port that does not fit, and the table with its defaults.
use stellar_stellar_rpc.Base.{
  ℕ, ◌^◌, ◌%◌, ◌≤◌, ◌<◌, ◌≡◌, refl, ◌⊎◌, none, some, List, [], ◌∷◌, true, ok, err, panic,
  if◌then◌else◌, map, false, pos, Outcome,
}
use stellar_stellar_rpc.Base.Decimal.{bytes_eq, codes, parse_uint, Bytes}
use stellar_stellar_rpc.Config.Parse.{
  Texts, Raw, text, unsigned, Kind, string_key, uint_key, bool_key, string_slice_key, Value,
  string_value, strings_value, uint_value, bool_value, duration_value, overflows_uint32, parse,
  texts, int_key, uint64_key, duration_key, other_key, int_value, other_value,
}
use stellar_stellar_rpc.Config.{
  ConfigOption, Field, Config, Tree, Surroundings, load_without_file, load_env, load_flags,
  load_defaults, load_with_file, load_config_path, load_env_and_flags, set_values, load, field,
  config_path, strict, parse_toml, set_value, env_source, flag_source, toml_source,
}
use stellar_stellar_rpc.Config.Flags.{add_flag, add_flags}
use stellar_stellar_rpc.Config.Flags.Kept.{unflagged}
use stellar_stellar_rpc.Config.SetBy.{AllSetBy}
use stellar_stellar_rpc.Config.Sources.{chosen, file_tree, set_values_lem}
use stellar_stellar_rpc.Config.Widths.{uint_key_lem}
use stellar_stellar_rpc.Config.Validate.{set_field, options_of, validate, validate_from}
use stellar_stellar_rpc.Config.Custom.{Platform, log_level, log_format, storage_path, tree_config}
use stellar_stellar_rpc.Config.Table.{options}
use stellar_stellar_rpc.Config.Table.Limits.{IsPositive, IsGiven, AtMost, accepted_limits}

-- The functions on texts do as little as they can.
abbrev texts_of_test : Texts
texts_of_test = record {
  to_lower = λ s. s;
  parse_bool = λ s. if bytes_eq s (codes "true") then some true else none;
  parse_int = λ s. none;
  parse_duration = λ s. none;
  kebab_to_constant_case = λ s. s;
  sprint = λ n. [];
}

abbrev path_option : ConfigOption
path_option = record {
  name = codes "config-path";
  env_var = codes "CONFIG_PATH";
  toml_key = codes "-";
  default_value = none;
  config_key = codes "ConfigPath";
  kind = string_key;
  custom_set_value = none;
  validate = none;
  flag = none;
}

abbrev window_option : ConfigOption
window_option = record path_option {
  name = codes "window";
  env_var = codes "WINDOW";
  toml_key = [];
  default_value = some (unsigned 10);
  config_key = codes "Window";
  kind = uint_key 32;
}

abbrev config : Config
config = record {
  fields =
      record { option = path_option; value = string_value [] }
      ∷ record { option = window_option; value = uint_value 0 }
      ∷ [];
  history_archive_user_agent = [];
}

abbrev tree : Tree
tree = record {
  get = λ key. if bytes_eq key (codes "WINDOW") then some (text (codes "30")) else none;
  keys = codes "WINDOW" ∷ [];
}

-- the file is at `f`, the environment names it and gives nothing else
abbrev surroundings : Surroundings
surroundings = record {
  version = codes "1";
  lookup_env = λ key. if bytes_eq key (codes "CONFIG_PATH") then some (codes "f") else none;
  open_toml = λ path. some tree;
}

abbrev loaded : ℕ → Config
loaded n = record {
  fields =
      record { option = path_option; value = string_value (codes "f") }
      ∷ record { option = window_option; value = uint_value n }
      ∷ [];
  history_archive_user_agent = codes "stellar-rpc/1";
}

-- The file has its say over the default.
loaded_from_file : set_values texts_of_test surroundings config ≡ ok (loaded 30)
unfolding set_values load_without_file load_with_file load_config_path load_env_and_flags load_env
    load_flags load_defaults load field config_path strict parse_toml parse_uint bytes_eq set_value
    env_source flag_source toml_source
loaded_from_file = refl

set_values_lem_example :
    (first : Config) × (load_without_file texts_of_test surroundings config ≡ ok first)
    × AllSetBy texts_of_test (chosen texts_of_test surroundings none) config.fields first.fields
    × AllSetBy texts_of_test
        (chosen texts_of_test surroundings (file_tree texts_of_test surroundings first))
        config.fields
        (loaded 30).fields
set_values_lem_example = set_values_lem texts_of_test surroundings config loaded_from_file

-- The port 70000 becomes 4464.
seventy_thousand : parse_uint (2 ^ 64) (codes "70000") ≡ some 70000
unfolding parse_uint
seventy_thousand = refl

port_stored : parse texts_of_test (uint_key 16) (text (codes "70000")) ≡ ok (uint_value 4464)
unfolding parse parse_uint
port_stored = refl

uint_key_lem_example :
    ((2 ^ 32 ≤ 70000)
      × (parse texts_of_test (uint_key 16) (text (codes "70000")) ≡ err overflows_uint32))
    ⊎ ((70000 < 2 ^ 32)
        × (70000 < 2 ^ 16)
        × (parse texts_of_test (uint_key 16) (text (codes "70000")) ≡ ok (uint_value 70000)))
    ⊎ ((70000 < 2 ^ 32)
        × (2 ^ 16 ≤ 70000)
        × (parse texts_of_test (uint_key 16) (text (codes "70000"))
            ≡ ok (uint_value (70000 % 2 ^ 16)))
        × (70000 % 2 ^ 16 < 70000))
uint_key_lem_example = uint_key_lem texts_of_test 16 (codes "70000") seventy_thousand

abbrev platform : Platform
platform = record {
  stellar_core_binary_path = codes "/usr/bin/stellar-core";
  num_cpu = 8;
  getwd = some (codes "/");
  parse_level = λ v. some v;
  unmarshal_tree = λ v. some v;
}

zero_value : Kind → Value
zero_value bool_key = bool_value false
zero_value (int_key bits) = int_value (pos 0)
zero_value (uint_key bits) = uint_value 0
zero_value uint64_key = uint_value 0
zero_value string_key = string_value []
zero_value string_slice_key = strings_value []
zero_value duration_key = duration_value (pos 0)
zero_value other_key = other_value []

zero_fields : List ConfigOption → List Field
zero_fields [] = []
zero_fields (o ∷ os) = record { option = o; value = zero_value o.kind } ∷ zero_fields os

abbrev fresh_fields : List Field
fresh_fields = zero_fields (options texts_of_test platform)

fresh_options : options_of fresh_fields ≡ options texts_of_test platform
unfolding options_of zero_fields options
fresh_options = refl

abbrev result_or {ℓ} : {E A : Type ℓ} → A → Outcome E A → A
result_or a (ok b) = b
result_or a _ = a

abbrev sprint_of_test : Raw → Bytes
sprint_of_test raw = codes "info"

abbrev flagged_fields : List Field
flagged_fields = result_or [] (add_flags sprint_of_test fresh_fields)

-- Every option of the table gets its flag, without a panic.
table_flags : add_flags sprint_of_test fresh_fields ≡ ok flagged_fields
unfolding add_flags add_flag zero_fields options
table_flags = refl

set_flag : Bytes → Raw → List Field → List Field
set_flag key raw [] = []
set_flag key raw (f ∷ fs) =
    (if bytes_eq f.option.config_key key
      then record f {
        option = record f.option { flag = some (record { changed = true; get_flag = some raw }) };
      }
      else f)
    ∷ set_flag key raw fs

-- the command line gives what is required and has no default
abbrev given_fields : List Field
given_fields = set_flag (codes "CaptiveCoreConfigPath") (text (codes "core.cfg")) (
    set_flag (codes "HistoryArchiveURLs") (texts (codes "h" ∷ []))
      (set_flag (codes "NetworkPassphrase") (text (codes "n")) flagged_fields))

given_flags : map unflagged given_fields ≡ map unflagged flagged_fields
unfolding set_flag add_flags add_flag zero_fields options bytes_eq
given_flags = refl

abbrev no_file : Surroundings
no_file = record { version = codes "1"; lookup_env = λ key. none; open_toml = λ path. none }

abbrev given_config : Config
given_config = record { fields = given_fields; history_archive_user_agent = [] }

abbrev set_config : Config
set_config = result_or given_config (set_values texts_of_test no_file given_config)

table_set : set_values texts_of_test no_file given_config ≡ ok set_config
unfolding set_values load_without_file load_env_and_flags load_env load_flags load_defaults load
    field config_path bytes_eq set_value env_source flag_source set_flag add_flags add_flag
    zero_fields options parse log_level log_format storage_path tree_config
table_set = refl

abbrev accepted_fields : List Field
accepted_fields = result_or [] (validate texts_of_test set_config.fields)

table_accepted : validate texts_of_test set_config.fields ≡ ok accepted_fields
unfolding validate options_of field bytes_eq validate_from set_values load_without_file
    load_env_and_flags load_env load_flags load_defaults load config_path set_value env_source
    flag_source set_flag add_flags add_flag zero_fields options parse log_level log_format
    storage_path tree_config set_field
table_accepted = refl

-- A Boolean option with no default would panic.
flag_panics : add_flag (λ raw. []) (record path_option { kind = bool_key }) ≡ panic
unfolding add_flag
flag_panics = refl

accepted_limits_example :
    IsPositive accepted_fields (codes "HistoryRetentionWindow")
    × IsPositive accepted_fields (codes "ClassicFeeStatsLedgerRetentionWindow")
    × IsPositive accepted_fields (codes "SorobanFeeStatsLedgerRetentionWindow")
    × IsPositive accepted_fields (codes "PreflightWorkerCount")
    × IsPositive accepted_fields (codes "PreflightWorkerQueueSize")
    × AtMost accepted_fields (codes "DefaultEventsLimit") (codes "MaxEventsLimit")
    × AtMost accepted_fields (codes "DefaultTransactionsLimit") (codes "MaxTransactionsLimit")
    × AtMost accepted_fields (codes "DefaultLedgersLimit") (codes "MaxLedgersLimit")
    × IsGiven accepted_fields (codes "StellarCoreBinaryPath")
    × IsGiven accepted_fields (codes "CaptiveCoreConfigPath")
    × IsGiven accepted_fields (codes "HistoryArchiveURLs")
    × IsGiven accepted_fields (codes "NetworkPassphrase")
accepted_limits_example =
    accepted_limits texts_of_test platform sprint_of_test no_file [] fresh_fields given_fields
      fresh_options table_flags given_flags table_set table_accepted
