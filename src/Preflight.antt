-- ===== src/Preflight.antt =====
-- cmd/stellar-rpc/internal/preflight/preflight.go: what is asked of the simulation library and what it
-- answers. The library, in Rust, is a parameter: the XDR encodings of the Go SDK, `none` where a value
-- does not marshal, and the two calls. Vectors of the library are lists; the passage of memory between
-- C and Go is left out.

pub mod Pool
use stellar_stellar_rpc.Base.{ℕ, ℤ, Option, none, some, List, Bool, Outcome, ok, err, u32, u64}
use stellar_stellar_rpc.Base.Decimal.{Bytes}

-- The texts of an auth mode are only compared: the empty one, the three that are named, and others.
pub data AuthMode : Type 0 where
  auth_empty auth_enforce auth_record auth_record_allow_nonroot auth_unknown : AuthMode

-- The body of an operation by its type; `xdr` stands for the rest of it. A SorobanAuthorizationEntry
-- is its XDR.
pub data OperationBody : Type 0 where
  invoke_host_function : (xdr : Bytes) → (auth : List Bytes) → OperationBody
  extend_footprint_ttl : (xdr : Bytes) → OperationBody
  restore_footprint : (xdr : Bytes) → OperationBody
  other_operation : (type : Bytes) → OperationBody

pub record LedgerFootprint : Type 0 where
  pub read_only : List Bytes
  pub read_write : List Bytes

-- Parameters. The logger and the getter of ledger entries are the library's business.
pub record Parameters : Type 0 where
  pub source_account : Bytes
  pub op_body : OperationBody
  pub footprint : LedgerFootprint
  pub network_passphrase : Bytes
  pub ledger_seq : ℕ
  pub bucket_list_size : ℕ
  pub instruction_leeway : ℕ
  pub enable_debug : Bool
  pub auth_mode : AuthMode
  pub protocol_version : ℕ

-- GetterParameters of pool.go; the getter of ledger entries reads at `ledger_seq`
pub record GetterParameters : Type 0 where
  pub bucket_list_size : ℕ
  pub source_account : Bytes
  pub operation_body : OperationBody
  pub footprint : LedgerFootprint
  pub instruction_leeway : ℕ
  pub auth_mode : AuthMode
  pub protocol_version : ℕ
  pub ledger_seq : ℕ

-- the fields of the pool that a request reads
pub record PoolSettings : Type 0 where
  pub network_passphrase : Bytes
  pub enable_debug : Bool

-- what `WorkerPool.GetPreflight` hands on
unfoldable pub preflight_params : PoolSettings → GetterParameters → Parameters
preflight_params pool p = record {
  source_account = p.source_account;
  op_body = p.operation_body;
  footprint = p.footprint;
  network_passphrase = pool.network_passphrase;
  ledger_seq = p.ledger_seq;
  bucket_list_size = p.bucket_list_size;
  instruction_leeway = p.instruction_leeway;
  enable_debug = pool.enable_debug;
  auth_mode = p.auth_mode;
  protocol_version = p.protocol_version;
}

pub record XdrDiff : Type 0 where
  pub before : Bytes
  pub after : Bytes

pub record Preflight : Type 0 where
  pub error : Bytes
  pub events : List Bytes
  pub transaction_data : Bytes
  pub min_fee : ℤ
  pub result : Bytes
  pub auth : List Bytes
  pub cpu_instructions : ℕ
  pub memory_bytes : ℕ
  pub pre_restore_transaction_data : Bytes
  pub pre_restore_min_fee : ℤ
  pub ledger_entry_diff : List XdrDiff

-- ledger_info_t, with the values after their conversion to C
pub record LedgerInfo : Type 0 where
  pub network_passphrase : Bytes
  pub sequence_number : ℕ
  pub protocol_version : ℕ
  pub timestamp : ℕ
  pub base_reserve : ℕ
  pub bucket_list_size : ℕ

-- what the code calls: `MarshalBinary` of three types, and the two functions of the library
pub record Library : Type 0 where
  pub marshal_body : OperationBody → Option Bytes
  pub marshal_footprint : LedgerFootprint → Option Bytes
  pub marshal_account : Bytes → Option Bytes
  pub preflight_footprint_ttl_op : (op_body footprint : Bytes) → LedgerInfo → Preflight
  pub preflight_invoke_hf_op :
      (invoke_host_function source_account : Bytes)
      → LedgerInfo
      → (instruction_leeway : ℕ) → (enable_debug : Bool) → (auth_mode : ℕ) → Preflight

pub data PreflightError : Type 0 where
  not_marshalled unsupported_operation invalid_auth_mode : PreflightError

-- defaultBaseReserve
abbrev pub default_base_reserve : ℕ
default_base_reserve = 5000000

unfoldable pub get_ledger_info : (now : ℕ) → Parameters → LedgerInfo
get_ledger_info now p = record {
  network_passphrase = p.network_passphrase;
  sequence_number = u32 p.ledger_seq;
  protocol_version = u32 p.protocol_version;
  timestamp = u64 now;
  base_reserve = default_base_reserve;
  bucket_list_size = u64 p.bucket_list_size;
}

-- the number by which the library knows a mode
unfoldable pub auth_mode_number : AuthMode → Option ℕ
auth_mode_number auth_enforce = some 0
auth_mode_number auth_record = some 1
auth_mode_number auth_record_allow_nonroot = some 2
auth_mode_number auth_empty = none
auth_mode_number auth_unknown = none

-- `getFootprintTTLPreflight`
unfoldable pub get_footprint_ttl_preflight :
    Library → (now : ℕ) → Parameters → Outcome PreflightError Preflight
unfolding get_ledger_info
get_footprint_ttl_preflight l now p = elim (l.marshal_body p.op_body) [
  | none ↦ err not_marshalled
  | some op_body ↦ elim (l.marshal_footprint p.footprint) [
    | none ↦ err not_marshalled
    | some footprint ↦ ok (l.preflight_footprint_ttl_op op_body footprint (get_ledger_info now p))
  ]
]

-- `getInvokeHostFunctionPreflight`
unfoldable pub get_invoke_host_function_preflight :
    Library → (now : ℕ) → Parameters → Outcome PreflightError Preflight
unfolding get_ledger_info auth_mode_number
get_invoke_host_function_preflight l now p = elim (l.marshal_body p.op_body) [
  | none ↦ err not_marshalled
  | some op ↦ elim (l.marshal_account p.source_account) [
    | none ↦ err not_marshalled
    | some account ↦ elim (auth_mode_number p.auth_mode) [
      | none ↦ err invalid_auth_mode
      | some mode ↦ ok (
          l.preflight_invoke_hf_op op account (get_ledger_info now p) p.instruction_leeway
            p.enable_debug mode)
    ]
  ]
]

abbrev by_type : Library → ℕ → Parameters → OperationBody → Outcome PreflightError Preflight
by_type l now p (invoke_host_function xdr auth) = get_invoke_host_function_preflight l now p
by_type l now p (extend_footprint_ttl xdr) = get_footprint_ttl_preflight l now p
by_type l now p (restore_footprint xdr) = get_footprint_ttl_preflight l now p
by_type l now p (other_operation type) = err unsupported_operation

-- `GetPreflight`
unfoldable pub get_preflight : Library → (now : ℕ) → Parameters → Outcome PreflightError Preflight
unfolding get_footprint_ttl_preflight get_invoke_host_function_preflight
get_preflight l now p = by_type l now p p.op_body
