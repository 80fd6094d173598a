-- ===== src/Methods/Simulate.antt =====
-- cmd/stellar-rpc/internal/methods/simulate_transaction.go: what the handler of simulateTransaction asks
-- of the preflight and what it answers. The unions of XDR envelopes are data types with what the code
-- reads of them; the database and the preflight are arguments, `none` for an error of theirs.
pub mod Response
pub mod Calm
pub mod Footprints
pub mod Sound
pub mod StateChanges
mod Tests
use stellar_stellar_rpc.Base.{
  ℕ, ◌<◌, Option, none, some, List, [], ◌∷◌, Bool, true, false, not, ◌&&◌, ◌||◌, ltb, ◌==◌,
  if◌then◌else◌, length, Outcome, ok, err, panic, ◌>>=◌,
}
use stellar_stellar_rpc.Base.Decimal.{Bytes}
use stellar_stellar_rpc.Protocol.Pagination.{Format, is_valid_format}
use stellar_stellar_rpc.Preflight.{
  AuthMode, auth_empty, auth_enforce, auth_record, auth_record_allow_nonroot, auth_unknown,
  OperationBody, invoke_host_function, extend_footprint_ttl, restore_footprint, other_operation,
  LedgerFootprint, Preflight, GetterParameters,
}
use Response.{Xdr, ResponseError, SimulateTransactionResponse, format_response}

pub record Operation : Type 0 where
  pub source_account : Option Bytes
  pub body : OperationBody

-- TransactionExt, a union of two: with nothing, or with the SorobanTransactionData, of which the
-- footprint of its resources is read
pub data TransactionExt : Type 0 where
  ext_v0 : TransactionExt
  ext_v1 : LedgerFootprint → TransactionExt

-- TransactionEnvelope, a union of three; of a fee bump the transaction inside is read
pub data TransactionEnvelope : Type 0 where
  tx_v0 : (source_account : Bytes) → (operations : List Operation) → TransactionEnvelope
  tx :
      (source_account : Bytes)
      → (operations : List Operation) → TransactionExt
      → TransactionEnvelope
  fee_bump :
      (source_account : Bytes)
      → (operations : List Operation) → TransactionExt
      → TransactionEnvelope

abbrev pub operations_of : TransactionEnvelope → List Operation
operations_of (tx_v0 a ops) = ops
operations_of (tx a ops ext) = ops
operations_of (fee_bump a ops ext) = ops

abbrev pub account_of : TransactionEnvelope → Bytes
account_of (tx_v0 a ops) = a
account_of (tx a ops ext) = a
account_of (fee_bump a ops ext) = a

-- the test `Type != EnvelopeTypeTx`
abbrev not_tx : TransactionEnvelope → Bool
not_tx (tx_v0 a ops) = true
not_tx (tx a ops ext) = false
not_tx (fee_bump a ops ext) = true

-- the pointer `V1`, which is nil in the other arms
abbrev pub v1_of : TransactionEnvelope → Option TransactionExt
v1_of (tx_v0 a ops) = none
v1_of (tx a ops ext) = some ext
v1_of (fee_bump a ops ext) = none

abbrev ext_number : TransactionExt → ℕ
ext_number ext_v0 = 0
ext_number (ext_v1 f) = 1

-- the pointer `SorobanData`
abbrev pub soroban_data : TransactionExt → Option LedgerFootprint
soroban_data ext_v0 = none
soroban_data (ext_v1 f) = some f

pub record SimulateTransactionRequest : Type 0 where
  pub transaction : Bytes
  pub resource_config : Option ℕ
  pub auth_mode : AuthMode
  pub format : Format

pub data SimulateError : Type 0 where
  bad_format not_unmarshalled not_one_operation : SimulateError
  bad_auth_mode auth_mode_with_auth auth_mode_without_invoke : SimulateError
  unsupported_operation_type soroban_data_missing : SimulateError
  no_latest_ledger meta_not_read meta_missing unexpected_version : SimulateError
  preflight_failed not_converted : SimulateError

-- A response that has only an error, and perhaps the latest ledger.
pub record Failure : Type 0 where
  pub error : SimulateError
  pub latest_ledger : ℕ

-- what is read of a LedgerCloseMeta: its version, and the two values of V1 and of V2
pub record CloseMeta : Type 0 where
  pub version : ℕ
  pub total_byte_size_of_live_soroban_state : ℕ
  pub ledger_version : ℕ

-- `get_preflight` is the PreflightGetter, which may fail or panic.
pub record Backend : Type 0 where
  pub unmarshal : Bytes → Option TransactionEnvelope
  pub get_latest_ledger_sequence : Option ℕ
  pub get_ledger : ℕ → Option (Option CloseMeta)
  pub get_preflight : GetterParameters → Outcome (Unit {0}) Preflight

abbrev is_named : AuthMode → Bool
is_named auth_unknown = false
is_named auth_empty = true
is_named auth_enforce = true
is_named auth_record = true
is_named auth_record_allow_nonroot = true

-- the mode for an operation with auth entries, or with none
mode_for_invoke : (has_auth : Bool) → AuthMode → Outcome SimulateError AuthMode
mode_for_invoke true auth_empty = ok auth_enforce
mode_for_invoke false auth_empty = ok auth_record
mode_for_invoke true auth_record = err auth_mode_with_auth
mode_for_invoke true auth_record_allow_nonroot = err auth_mode_with_auth
mode_for_invoke has_auth mode = ok mode

mode_for_footprints : AuthMode → Outcome SimulateError AuthMode
mode_for_footprints auth_empty = ok auth_empty
mode_for_footprints mode = err auth_mode_without_invoke

mode_for : OperationBody → AuthMode → Outcome SimulateError AuthMode
unfolding mode_for_invoke mode_for_footprints
mode_for (invoke_host_function xdr auth) mode = mode_for_invoke (ltb 0 (length auth)) mode
mode_for (extend_footprint_ttl xdr) mode = mode_for_footprints mode
mode_for (restore_footprint xdr) mode = mode_for_footprints mode
mode_for (other_operation type) mode = err unsupported_operation_type

-- `validateAuthMode`: the mode that it leaves behind the pointer
unfoldable pub validate_auth_mode : OperationBody → AuthMode → Outcome SimulateError AuthMode
unfolding mode_for
validate_auth_mode body mode = if not (is_named mode) then err bad_auth_mode else mode_for body mode

abbrev pub no_footprint : LedgerFootprint
no_footprint = record { read_only = []; read_write = [] }

abbrev source_of : Option Bytes → TransactionEnvelope → Bytes
source_of none e = account_of e
source_of (some a) e = a

-- A nil pointer that is followed is a panic.
abbrev deref : {A : Type 0} → Option A → Outcome SimulateError A
deref none = panic
deref (some a) = ok a

-- `txEnvelope.V1.Tx.Ext.V != 1`
ext_is_not_one : TransactionEnvelope → Outcome SimulateError Bool
ext_is_not_one e = do ext ← deref (v1_of e); ok (not (ext_number ext == 1))

-- the condition of the guard; `&&` reads its right side only if the left one is true
lacks_data : TransactionEnvelope → Outcome SimulateError Bool
unfolding ext_is_not_one
lacks_data e = if not_tx e then ext_is_not_one e else ok false

-- `txEnvelope.V1.Tx.Ext.SorobanData.Resources.Footprint`
read_footprint : TransactionEnvelope → Outcome SimulateError LedgerFootprint
read_footprint e = do ext ← deref (v1_of e); deref (soroban_data ext)

unfoldable pub soroban_footprint : TransactionEnvelope → Outcome SimulateError LedgerFootprint
unfolding lacks_data read_footprint
soroban_footprint e = do
  missing ← lacks_data e
  if missing then err soroban_data_missing else read_footprint e

-- the switch over the type of the operation
unfoldable pub footprint_for :
    OperationBody → TransactionEnvelope → Outcome SimulateError LedgerFootprint
unfolding soroban_footprint
footprint_for (invoke_host_function xdr auth) e = ok no_footprint
footprint_for (extend_footprint_ttl xdr) e = soroban_footprint e
footprint_for (restore_footprint xdr) e = soroban_footprint e
footprint_for (other_operation type) e = err unsupported_operation_type

size_and_version : CloseMeta → Outcome SimulateError (ℕ × ℕ)
size_and_version m =
    if m.version == 1 || m.version == 2
    then ok (m.total_byte_size_of_live_soroban_state, m.ledger_version)
    else err unexpected_version

-- `getBucketListSizeAndProtocolVersion`
unfoldable pub get_bucket_list_size_and_protocol_version :
    Backend → ℕ → Outcome SimulateError (ℕ × ℕ)
unfolding size_and_version
get_bucket_list_size_and_protocol_version b latest_ledger = elim (b.get_ledger latest_ledger) [
  | none ↦ err meta_not_read
  | some none ↦ err meta_missing
  | some (some m) ↦ size_and_version m
]

abbrev pub failing : {A : Type 0} → ℕ → Outcome SimulateError A → Outcome Failure A
failing latest_ledger (ok a) = ok a
failing latest_ledger (err e) = err (record { error = e; latest_ledger = latest_ledger })
failing latest_ledger panic = panic

unfoldable pub params_of :
    SimulateTransactionRequest
    → TransactionEnvelope
    → Operation
    → AuthMode
    → LedgerFootprint
    → ℕ
    → (ℕ × ℕ)
    → GetterParameters
params_of r e op mode footprint latest_ledger (bucket_list_size, protocol_version) = record {
  bucket_list_size = bucket_list_size;
  source_account = source_of op.source_account e;
  operation_body = op.body;
  footprint = footprint;
  instruction_leeway = elim r.resource_config [ none ↦ 0 | some leeway ↦ leeway ];
  auth_mode = mode;
  protocol_version = protocol_version;
  ledger_seq = latest_ledger;
}

-- `errors` of a call before the handler knows the latest ledger, and behind it
abbrev pub or_fail : {A : Type 0} → Option A → SimulateError → Outcome SimulateError A
or_fail none e = err e
or_fail (some a) e = ok a

unfoldable pub only_operation : List Operation → Outcome SimulateError Operation
only_operation [] = err not_one_operation
only_operation (op ∷ []) = ok op
only_operation (op ∷ op' ∷ ops) = err not_one_operation

unfoldable pub format_checked : Format → Outcome SimulateError Format
format_checked f = elim (is_valid_format f) [ none ↦ ok f | some e ↦ err bad_format ]

-- what the handler reads of the request before it asks the database
pub record Reading : Type 0 where
  pub envelope : TransactionEnvelope
  pub operation : Operation
  pub mode : AuthMode
  pub footprint : LedgerFootprint

unfoldable pub read_request : Backend → SimulateTransactionRequest → Outcome SimulateError Reading
unfolding format_checked only_operation validate_auth_mode footprint_for is_valid_format
read_request b r = do
  f ← format_checked r.format
  e ← or_fail (b.unmarshal r.transaction) not_unmarshalled
  op ← only_operation (operations_of e)
  mode ← validate_auth_mode op.body r.auth_mode
  footprint ← footprint_for op.body e
  ok (record { envelope = e; operation = op; mode = mode; footprint = footprint })

abbrev pub formatted :
    Outcome ResponseError SimulateTransactionResponse
    → Outcome SimulateError SimulateTransactionResponse
formatted (ok s) = ok s
formatted (err e) = err not_converted
formatted panic = panic

abbrev pub gotten : Outcome (Unit {0}) Preflight → Outcome SimulateError Preflight
gotten (ok p) = ok p
gotten (err e) = err preflight_failed
gotten panic = panic

-- the part of the handler behind the latest ledger
unfoldable pub simulate_at :
    Xdr
    → Backend
    → SimulateTransactionRequest
    → Reading
    → (latest_ledger : ℕ) → Outcome SimulateError SimulateTransactionResponse
unfolding params_of
simulate_at x b r q latest_ledger = do
  sizes ← get_bucket_list_size_and_protocol_version b latest_ledger
  result ←
      gotten (
        b.get_preflight (params_of r q.envelope q.operation q.mode q.footprint latest_ledger sizes))
  formatted (format_response x result r.format latest_ledger)

-- the handler of NewSimulateTransactionHandler
unfoldable pub simulate_transaction :
    Xdr → Backend → SimulateTransactionRequest → Outcome Failure SimulateTransactionResponse
unfolding read_request simulate_at
simulate_transaction x b r = do
  q ← failing 0 (read_request b r)
  latest_ledger ← failing 0 (or_fail b.get_latest_ledger_sequence no_latest_ledger)
  failing latest_ledger (simulate_at x b r q latest_ledger)
