-- ===== src/FeeWindow/Ingest.antt =====
-- `FeeWindows` and `IngestFees`: the fees of one closed ledger go to the classic and to the Soroban
-- window. The XDR types and the transaction reader belong to the Stellar Go SDK: a transaction is
-- what the code reads of it, and the reader is the sequence of what its `Read` returns, whose end is
-- io.EOF. An Int64 is its uint64 bit pattern, so a conversion between the two is the identity.
pub mod InStep
pub mod Whole
use stellar_stellar_rpc.Base.{
  ℕ, zero, suc, ◌+◌, ◌-◌, ◌/◌, ◌^◌, Option, none, some, List, [], ◌∷◌, ◌++◌, Outcome, ok, err,
  panic, length, u64, ℤ, ◌==◌, not, if◌then◌else◌,
}
use stellar_stellar_rpc.BucketWindow.{LedgerBucket, AppendError}
use stellar_stellar_rpc.FeeWindow.Append.{FeeWindow, new_fee_window, append_ledger_fees}

pub data OperationType : Type 0 where
  invoke_host_function extend_footprint_ttl restore_footprint other : OperationType

-- `Ext.V` and the two amounts of `Ext.V1` that the code adds up
pub record SorobanMeta : Type 0 where
  pub ext_v : ℕ
  pub total_non_refundable : ℕ
  pub total_refundable : ℕ

pub data TransactionMeta : Type 0 where
  v3 : Option SorobanMeta → TransactionMeta
  v4 : Option SorobanMeta → TransactionMeta
  other_version : TransactionMeta

pub record LedgerTransaction : Type 0 where
  pub fee_charged : ℕ
  pub operations : List OperationType
  pub unsafe_meta : TransactionMeta

pub data Read : Type 0 where
  transaction : LedgerTransaction → Read
  read_error : Read

-- what the code reads of an xdr.LedgerCloseMeta; `none` when no reader can be made for it
pub record LedgerCloseMeta : Type 0 where
  pub ledger_sequence : ℕ
  pub ledger_close_time : ℤ
  pub reader : Option (List Read)

pub data IngestError : Type 0 where
  no_reader : IngestError
  read_failed : IngestError
  append_failed : AppendError → IngestError

-- `rollbacks` counts the calls of `db.Rollback`, whose error joins the one that is returned.
pub record FeeWindows : Type 0 where
  pub soroban_inclusion_fee_window : FeeWindow
  pub classic_fee_window : FeeWindow
  pub rollbacks : ℕ

unfoldable pub new_fee_windows : ℕ → ℕ → FeeWindows
new_fee_windows classic_retention soroban_retention = record {
  soroban_inclusion_fee_window = new_fee_window soroban_retention;
  classic_fee_window = new_fee_window classic_retention;
  rollbacks = 0;
}

-- The fee that a transaction adds, and to which window.
pub data Fee : Type 0 where
  skipped : Fee
  soroban : ℕ → Fee
  classic : ℕ → Fee

pub is_soroban : OperationType → Option (Unit {0})
is_soroban other = none
is_soroban _ = some tt

-- `SorobanMeta == nil || SorobanMeta.Ext.V != 1` skips the transaction.
pub soroban_fee : ℕ → Option SorobanMeta → Fee
soroban_fee fee_charged none = skipped
soroban_fee fee_charged (some m) =
    if not (m.ext_v == 1)
    then skipped
    else let resource_fee_charged = u64 (m.total_non_refundable + m.total_refundable) in
      soroban (u64 (fee_charged + 2 ^ 64 - resource_fee_charged))

pub soroban_meta : TransactionMeta → Option SorobanMeta
soroban_meta (v3 m) = m
soroban_meta (v4 m) = m
soroban_meta other_version = none

-- the body of the loop for one transaction
unfoldable pub fee_of : LedgerTransaction → Fee
unfolding is_soroban soroban_fee soroban_meta
fee_of tx = fee_by tx.operations
  where
    classic_fee : List OperationType → Fee
    classic_fee ops = classic (tx.fee_charged / length ops)

    fee_by : List OperationType → Fee
    fee_by [] = skipped
    fee_by (op ∷ []) = elim (is_soroban op) [
      | some _ ↦ soroban_fee tx.fee_charged (soroban_meta tx.unsafe_meta)
      | none ↦ classic_fee (op ∷ [])
    ]
    fee_by ops = classic_fee ops

-- the loop: the Soroban and the classic fees, in order, or `none` at an error of the reader
unfoldable pub collect : List Read → List ℕ → List ℕ → Option (List ℕ × List ℕ)
collect [] soroban_fees classic_fees = some (soroban_fees, classic_fees)
collect (read_error ∷ reads) soroban_fees classic_fees = none
collect (transaction tx ∷ reads) soroban_fees classic_fees = elim (fee_of tx) [
  | skipped ↦ collect reads soroban_fees classic_fees
  | soroban fee ↦ collect reads (soroban_fees ++ (fee ∷ [])) classic_fees
  | classic fee ↦ collect reads soroban_fees (classic_fees ++ (fee ∷ []))
]

abbrev pub bucket : LedgerCloseMeta → List ℕ → LedgerBucket (List ℕ)
bucket lcm fees = record {
  ledger_seq = lcm.ledger_sequence;
  ledger_close_timestamp = lcm.ledger_close_time;
  bucket_content = fees;
}

-- `errors.Join(err, fw.db.Rollback())`
abbrev pub fail : FeeWindows → IngestError → FeeWindows × Outcome IngestError (Unit {0})
fail fw e = (record fw { rollbacks = fw.rollbacks + 1 }, err e)

-- the two appends, the classic one first
unfoldable pub append_both :
    FeeWindows → LedgerCloseMeta → List ℕ → List ℕ → FeeWindows × Outcome IngestError (Unit {0})
append_both fw lcm soroban_fees classic_fees =
    let (w, r) = append_ledger_fees fw.classic_fee_window (bucket lcm classic_fees) in
    let fw1 : FeeWindows = record fw { classic_fee_window = w } in
    elim r [
      | err e ↦ fail fw1 (append_failed e)
      | panic ↦ (fw1, panic)
      | ok _ ↦
          let (w2, r2) =
            append_ledger_fees fw.soroban_inclusion_fee_window (bucket lcm soroban_fees) in
          let fw2 : FeeWindows = record fw1 { soroban_inclusion_fee_window = w2 } in
          elim r2 [
            | err e ↦ fail fw2 (append_failed e)
            | panic ↦ (fw2, panic)
            | ok _ ↦ (fw2, ok tt)
          ]
    ]

unfoldable pub ingest_fees :
    FeeWindows → LedgerCloseMeta → FeeWindows × Outcome IngestError (Unit {0})
ingest_fees fw lcm = elim lcm.reader [
  | none ↦ fail fw no_reader
  | some reads ↦ elim (collect reads [] []) [
    | none ↦ fail fw read_failed
    | some (soroban_fees, classic_fees) ↦ append_both fw lcm soroban_fees classic_fees
  ]
]
