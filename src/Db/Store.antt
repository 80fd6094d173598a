-- ===== src/Db/Store.antt =====
-- The tables, the cache and the errors of the database (cmd/stellar-rpc/internal/db/db.go), and what
-- the code reads of a closed ledger.
use stellar_stellar_rpc.Base.{ℕ, Option, List, Bool, ℤ}
use stellar_stellar_rpc.Base.Decimal.{Bytes}
use stellar_stellar_rpc.FeeWindow.Ingest.{LedgerCloseMeta}

-- An event of a transaction: do its blob and its topics marshal, and is its body of version 0.
pub record Event : Type 0 where
  pub marshals : Bool
  pub is_v0 : Bool

pub record TransactionEvents : Type 0 where
  pub diagnostic_events : List Event
  pub operation_events : List (List Event)
  pub transaction_events : List Event

-- What the inserts read of an ingest.LedgerTransaction; `none` for an error of GetTransactionEvents.
pub record Transaction : Type 0 where
  pub index : ℕ
  pub hash : Bytes
  pub is_fee_bump : Bool
  pub inner_hash : Bytes
  pub successful : Bool
  pub events : Option TransactionEvents

pub data TxRead : Type 0 where
  transaction : Transaction → TxRead
  read_error : TxRead

-- A closed ledger: what the fee windows read of it, `CountTransactions`, and what a reader of its
-- transactions returns up to io.EOF; `none` when no reader can be made.
pub record Ledger : Type 0 where
  pub lcm : LedgerCloseMeta
  pub count_transactions : ℕ
  pub tx_reader : Option (List TxRead)

abbrev pub seq : Ledger → ℕ
seq l = l.lcm.ledger_sequence

pub record TransactionRow : Type 0 where
  pub hash : Bytes
  pub ledger_sequence : ℕ
  pub application_order : ℕ

-- `ledger_close_meta` by its key; the rows of `transactions`; the id of each row of `events`, which is
-- all that the trims read (Db/Events has the rows with their columns)
pub record Tables : Type 0 where
  pub ledgers : List Ledger
  pub transactions : List TransactionRow
  pub events : List Bytes

-- `dbCache`, 0 for no ledger
pub record Cache : Type 0 where
  pub latest_ledger_seq : ℕ
  pub latest_ledger_close_time : ℤ

pub record Db : Type 0 where
  pub tables : Tables
  pub cache : Cache

pub data DbError : Type 0 where
  statement_failed : DbError
  checkpoint_failed : DbError
  empty_db : DbError
  bad_batch : DbError

-- which statements of `Commit` fail
pub record Faults : Type 0 where
  pub trim_ledgers_fails : Bool
  pub trim_transactions_fails : Bool
  pub trim_events_fails : Bool
  pub commit_fails : Bool
  pub checkpoint_fails : Bool
