-- ===== src/Config/Table.antt =====
-- The table of cmd/stellar-rpc/internal/config/options.go: the options with their names, defaults,
-- fields and functions. What the machine gives, and what the libraries for log levels and TOML do,
-- are a parameter. The texts for help and the functions that write the options as TOML are left out.

pub mod Limits
use Prim.Native.String.{String}
use stellar_stellar_rpc.Base.{
  ℕ, ◌%◌, ◌^◌, pos, Option, none, some, List, [], ◌∷◌, ◌++◌, Bool, true, false, ◌||◌, if◌then◌else◌,
  Outcome, ok, err, panic,
}
use stellar_stellar_rpc.Base.Decimal.{Bytes, bytes_eq, codes}
use stellar_stellar_rpc.Config.Parse.{
  Texts, Raw, bool, text, unsigned, duration, level, format, tree, Kind, bool_key, uint_key,
  string_key, string_slice_key, duration_key, other_key, Value, string_value, other_value, SetError,
  custom_refused,
}
use stellar_stellar_rpc.Config.{
  CustomSetValue, Validator, required, positive, at_most, core_url_or_local, ConfigOption, is_empty,
}
use stellar_stellar_rpc.Config.Custom.{Platform, log_level, log_format, storage_path, tree_config}

-- SevenDayOfLedgers
abbrev pub seven_day_of_ledgers : ℕ
seven_day_of_ledgers = 120960

-- an entry of the table, which has no flag yet
abbrev option :
    (name env_var : String)
    → (toml_key : Bytes) → Option Raw
    → (config_key : String) → Kind
    → Option CustomSetValue
    → Option Validator
    → ConfigOption
option name env_var toml_key default_value config_key kind custom validate = record {
  name = codes name;
  env_var = codes env_var;
  toml_key = toml_key;
  default_value = default_value;
  config_key = codes config_key;
  kind = kind;
  custom_set_value = custom;
  validate = validate;
  flag = none;
}

module _ (t : Texts) (p : Platform) where
  unfoldable pub core_options : List ConfigOption
  core_options =
      option "config-path" "SOROBAN_RPC_CONFIG_PATH" (codes "-") none "ConfigPath" string_key none
        none
      ∷ option "config-strict" "SOROBAN_RPC_CONFIG_STRICT" (codes "STRICT") (some (bool false))
          "Strict" bool_key none none
      ∷ option "endpoint" "" [] (some (text (codes "localhost:8000"))) "Endpoint" string_key none
          none
      ∷ option "admin-endpoint" "" [] none "AdminEndpoint" string_key none none
      ∷ option "stellar-core-url" "" [] none "StellarCoreURL" string_key none
          (some core_url_or_local)
      ∷ option "stellar-core-timeout" "" [] (some (duration (pos 2000000000))) "CoreRequestTimeout"
          duration_key none none
      ∷ option "stellar-captive-core-http-port" "" [] (some (unsigned 11626)) "CaptiveCoreHTTPPort"
          (uint_key 16) none none
      ∷ option "stellar-captive-core-http-query-port" "" [] (some (unsigned 11628))
          "CaptiveCoreHTTPQueryPort" (uint_key 16) none (some positive)
      ∷ option "stellar-captive-core-http-query-thread-pool-size" "" []
          (some (unsigned (p.num_cpu % 2 ^ 16))) "CaptiveCoreHTTPQueryThreadPoolSize" (uint_key 16)
          none none
      ∷ option "stellar-captive-core-http-query-snapshot-ledgers" "" [] (some (unsigned 4))
          "CaptiveCoreHTTPQuerySnapshotLedgers" (uint_key 16) none none
      ∷ []

  unfoldable pub program_options : List ConfigOption
  program_options =
      option "log-level" "" [] (some (level (codes "info"))) "LogLevel" other_key
        (some (log_level p)) none
      ∷ option "log-format" "" [] (some (format (codes "text"))) "LogFormat" other_key
          (some log_format) none
      ∷ option "stellar-core-binary-path" "" [] (some (text p.stellar_core_binary_path))
          "StellarCoreBinaryPath" string_key none (some required)
      ∷ option "captive-core-config-path" "" [] none "CaptiveCoreConfigPath" string_key none
          (some required)
      ∷ option "captive-core-storage-path" "" [] none "CaptiveCoreStoragePath" string_key
          (some (storage_path p)) none
      ∷ []

  unfoldable pub history_options : List ConfigOption
  history_options =
      option "history-archive-urls" "" [] none "HistoryArchiveURLs" string_slice_key none
        (some required)
      ∷ option "friendbot-url" "" [] none "FriendbotURL" string_key none none
      ∷ option "network-passphrase" "" [] none "NetworkPassphrase" string_key none (some required)
      ∷ option "db-path" "" [] (some (text (codes "soroban_rpc.sqlite"))) "SQLiteDBPath" string_key
          none none
      ∷ option "ingestion-timeout" "" [] (some (duration (pos 3000000000000))) "IngestionTimeout"
          duration_key none none
      ∷ option "checkpoint-frequency" "" [] (some (unsigned 64)) "CheckpointFrequency" (uint_key 32)
          none none
      ∷ option "history-retention-window" "" [] (some (unsigned seven_day_of_ledgers))
          "HistoryRetentionWindow" (uint_key 32) none (some positive)
      ∷ option "classic-fee-stats-retention-window" "" [] (some (unsigned 10))
          "ClassicFeeStatsLedgerRetentionWindow" (uint_key 32) none (some positive)
      ∷ option "soroban-fee-stats-retention-window" "" [] (some (unsigned 50))
          "SorobanFeeStatsLedgerRetentionWindow" (uint_key 32) none (some positive)
      ∷ []

  unfoldable pub limit_options : List ConfigOption
  limit_options =
      option "max-events-limit" "" [] (some (unsigned 10000)) "MaxEventsLimit" (uint_key 64) none
        none
      ∷ option "default-events-limit" "" [] (some (unsigned 100)) "DefaultEventsLimit" (uint_key 64)
          none (some (at_most (codes "MaxEventsLimit")))
      ∷ option "max-transactions-limit" "" [] (some (unsigned 200)) "MaxTransactionsLimit"
          (uint_key 64) none none
      ∷ option "default-transactions-limit" "" [] (some (unsigned 50)) "DefaultTransactionsLimit"
          (uint_key 64) none (some (at_most (codes "MaxTransactionsLimit")))
      ∷ option "max-ledgers-limit" "" [] (some (unsigned 200)) "MaxLedgersLimit" (uint_key 64) none
          none
      ∷ option "default-ledgers-limit" "" [] (some (unsigned 50)) "DefaultLedgersLimit"
          (uint_key 64) none (some (at_most (codes "MaxLedgersLimit")))
      ∷ option "max-healthy-ledger-latency" "" [] (some (duration (pos 30000000000)))
          "MaxHealthyLedgerLatency" duration_key none none
      ∷ option "preflight-worker-count" "" [] (some (unsigned p.num_cpu)) "PreflightWorkerCount"
          (uint_key 64) none (some positive)
      ∷ option "preflight-worker-queue-size" "" [] (some (unsigned p.num_cpu))
          "PreflightWorkerQueueSize" (uint_key 64) none (some positive)
      ∷ option "preflight-enable-debug" "" [] (some (bool true)) "PreflightEnableDebug" bool_key
          none none
      ∷ []

  unfoldable pub backlog_options : List ConfigOption
  backlog_options =
      option "" "" (t.kebab_to_constant_case (codes "request-backlog-global-queue-limit"))
        (some (unsigned 5000)) "RequestBacklogGlobalQueueLimit" (uint_key 64) none (some positive)
      ∷ option "" "" (t.kebab_to_constant_case (codes "request-backlog-get-health-queue-limit"))
          (some (unsigned 1000)) "RequestBacklogGetHealthQueueLimit" (uint_key 64) none
          (some positive)
      ∷ option "" "" (t.kebab_to_constant_case (codes "request-backlog-get-events-queue-limit"))
          (some (unsigned 1000)) "RequestBacklogGetEventsQueueLimit" (uint_key 64) none
          (some positive)
      ∷ option "" "" (t.kebab_to_constant_case (codes "request-backlog-get-network-queue-limit"))
          (some (unsigned 1000)) "RequestBacklogGetNetworkQueueLimit" (uint_key 64) none
          (some positive)
      ∷ option "" ""
          (t.kebab_to_constant_case (codes "request-backlog-get-version-info-queue-limit"))
          (some (unsigned 1000)) "RequestBacklogGetVersionInfoQueueLimit" (uint_key 64) none
          (some positive)
      ∷ option "" ""
          (t.kebab_to_constant_case (codes "request-backlog-get-latest-ledger-queue-limit"))
          (some (unsigned 1000)) "RequestBacklogGetLatestLedgerQueueLimit" (uint_key 64) none
          (some positive)
      ∷ option "" ""
          (t.kebab_to_constant_case (codes "request-backlog-get-ledger-entries-queue-limit"))
          (some (unsigned 1000)) "RequestBacklogGetLedgerEntriesQueueLimit" (uint_key 64) none
          (some positive)
      ∷ option "" ""
          (t.kebab_to_constant_case (codes "request-backlog-get-transaction-queue-limit"))
          (some (unsigned 1000)) "RequestBacklogGetTransactionQueueLimit" (uint_key 64) none
          (some positive)
      ∷ option "" ""
          (t.kebab_to_constant_case (codes "request-backlog-get-transactions-queue-limit"))
          (some (unsigned 1000)) "RequestBacklogGetTransactionsQueueLimit" (uint_key 64) none
          (some positive)
      ∷ option "" "" (t.kebab_to_constant_case (codes "request-backlog-get-ledgers-queue-limit"))
          (some (unsigned 1000)) "RequestBacklogGetLedgersQueueLimit" (uint_key 64) none
          (some positive)
      ∷ option "" ""
          (t.kebab_to_constant_case (codes "request-backlog-send-transaction-queue-limit"))
          (some (unsigned 500)) "RequestBacklogSendTransactionQueueLimit" (uint_key 64) none
          (some positive)
      ∷ option "" ""
          (t.kebab_to_constant_case (codes "request-backlog-simulate-transaction-queue-limit"))
          (some (unsigned 100)) "RequestBacklogSimulateTransactionQueueLimit" (uint_key 64) none
          (some positive)
      ∷ option "" "" (t.kebab_to_constant_case (codes "request-backlog-get-fee-stats-queue-limit"))
          (some (unsigned 100)) "RequestBacklogGetFeeStatsTransactionQueueLimit" (uint_key 64) none
          (some positive)
      ∷ []

  unfoldable pub duration_options : List ConfigOption
  duration_options =
      option "" "" (t.kebab_to_constant_case (codes "request-execution-warning-threshold"))
        (some (duration (pos 5000000000))) "RequestExecutionWarningThreshold" duration_key none none
      ∷ option "" "" (t.kebab_to_constant_case (codes "max-request-execution-duration"))
          (some (duration (pos 25000000000))) "MaxRequestExecutionDuration" duration_key none none
      ∷ option "" "" (t.kebab_to_constant_case (codes "max-get-health-execution-duration"))
          (some (duration (pos 5000000000))) "MaxGetHealthExecutionDuration" duration_key none none
      ∷ option "" "" (t.kebab_to_constant_case (codes "max-get_events-execution-duration"))
          (some (duration (pos 10000000000))) "MaxGetEventsExecutionDuration" duration_key none none
      ∷ option "" "" (t.kebab_to_constant_case (codes "max-get-network-execution-duration"))
          (some (duration (pos 5000000000))) "MaxGetNetworkExecutionDuration" duration_key none none
      ∷ option "" "" (t.kebab_to_constant_case (codes "max-get-version-info-execution-duration"))
          (some (duration (pos 5000000000))) "MaxGetVersionInfoExecutionDuration" duration_key none
          none
      ∷ option "" "" (t.kebab_to_constant_case (codes "max-get-latest-ledger-execution-duration"))
          (some (duration (pos 5000000000))) "MaxGetLatestLedgerExecutionDuration" duration_key none
          none
      ∷ option "" "" (t.kebab_to_constant_case (codes "max-get_ledger-entries-execution-duration"))
          (some (duration (pos 5000000000))) "MaxGetLedgerEntriesExecutionDuration" duration_key
          none none
      ∷ option "" "" (t.kebab_to_constant_case (codes "max-get-transaction-execution-duration"))
          (some (duration (pos 5000000000))) "MaxGetTransactionExecutionDuration" duration_key none
          none
      ∷ option "" "" (t.kebab_to_constant_case (codes "max-get-transactions-execution-duration"))
          (some (duration (pos 5000000000))) "MaxGetTransactionsExecutionDuration" duration_key none
          none
      ∷ option "" "" (t.kebab_to_constant_case (codes "max-get-ledgers-execution-duration"))
          (some (duration (pos 10000000000))) "MaxGetLedgersExecutionDuration" duration_key none
          none
      ∷ option "" "" (t.kebab_to_constant_case (codes "max-send-transaction-execution-duration"))
          (some (duration (pos 15000000000))) "MaxSendTransactionExecutionDuration" duration_key
          none none
      ∷ option "" ""
          (t.kebab_to_constant_case (codes "max-simulate-transaction-execution-duration"))
          (some (duration (pos 15000000000))) "MaxSimulateTransactionExecutionDuration" duration_key
          none none
      ∷ option "" "" (t.kebab_to_constant_case (codes "max-get-fee-stats-execution-duration"))
          (some (duration (pos 5000000000))) "MaxGetFeeStatsExecutionDuration" duration_key none
          none
      ∷ option "serve-ledgers-from-datastore" ""
          (t.kebab_to_constant_case (codes "serve-ledgers-from-datastore")) (some (bool false))
          "ServeLedgersFromDatastore" bool_key none none
      ∷ option "" "" (codes "buffered_storage_backend_config") none "BufferedStorageBackendConfig"
          other_key (some (tree_config p)) none
      ∷ option "" "" (codes "datastore_config") none "DataStoreConfig" other_key
          (some (tree_config p)) none
      ∷ []

  -- `options`
  unfoldable pub options : List ConfigOption
  unfolding core_options program_options history_options limit_options backlog_options
      duration_options
  options =
      core_options
      ++ (program_options
          ++ (history_options ++ (limit_options ++ (backlog_options ++ duration_options))))
