-- ===== src/Ingest.antt =====
-- cmd/stellar-rpc/internal/ingest/service.go: the state is the database and the fee windows, which
-- live in memory. The ledger backend and the history archive belong to the Stellar Go SDK: they are
-- the arguments `get_ledger`, `root_has` and `prepare_range`. `TxFaults` tells which statements of
-- the transaction fail; the inserts fail as well where the data does. Metrics and logs are left out.
pub mod Atomic
pub mod Retry
mod Tests
use stellar_stellar_rpc.Base.{
  ℕ, zero, suc, ◌+◌, ◌^◌, Option, none, some, List, [], ◌∷◌, Outcome, ok, err, panic, Bool, true,
  false, u32, ◌==◌, if◌then◌else◌,
}
use stellar_stellar_rpc.FeeWindow.Ingest.{FeeWindows, IngestError, ingest_fees}
use stellar_stellar_rpc.Protocol.Cursor.{Toid}
use stellar_stellar_rpc.Db.Store.{Ledger, seq, Tables, Db, DbError, empty_db, Faults}
use stellar_stellar_rpc.Db.Insert.{insert_ledger, insert_transactions, insert_events}
use stellar_stellar_rpc.Db.Commit.{commit}
use stellar_stellar_rpc.Db.Reader.{get_latest_ledger_sequence}

pub record Service : Type 0 where
  pub db : Db
  pub fee_windows : FeeWindows

pub data ServiceError : Type 0 where
  get_ledger_failed new_tx_failed insert_failed : ServiceError
  fees_failed : IngestError → ServiceError
  db_failed : DbError → ServiceError
  empty_archives archive_failed prepare_range_failed : ServiceError

pub record TxFaults : Type 0 where
  pub new_tx_fails : Bool
  pub insert_ledger_fails : Bool
  pub insert_transactions_fails : Bool
  pub insert_events_fails : Bool
  pub commit_faults : Faults

abbrev guarded {ℓ} : {A : Type ℓ} → Bool → Option A → Option A
guarded true o = none
guarded false o = o

-- the three inserts of `ingestLedgerCloseMeta` into the tables of the transaction
unfoldable pub insert_all : Toid → TxFaults → Ledger → Tables → Option Tables
insert_all toid f l tx = elim (guarded f.insert_ledger_fails (insert_ledger l tx.ledgers)) [
  | none ↦ none
  | some ledgers ↦
      elim (guarded f.insert_transactions_fails (insert_transactions l tx.transactions)) [
        | none ↦ none
        | some transactions ↦
            elim (guarded f.insert_events_fails (insert_events toid l tx.events)) [
              | none ↦ none
              | some events ↦
                  some (record { ledgers = ledgers; transactions = transactions; events = events })
            ]
      ]
]

-- `tx.Commit`, whose error the caller returns
unfoldable pub commit_tx :
    Toid
    → ℕ
    → TxFaults
    → Ledger
    → Tables
    → FeeWindows
    → Db
    → Service × Outcome ServiceError (Unit {0})
commit_tx toid retention f l tx fw db =
    let (db', r) = commit toid retention f.commit_faults l.lcm tx db in
    elim r [
      | ok _ ↦ (record { db = db'; fee_windows = fw }, ok tt)
      | err e ↦ (record { db = db'; fee_windows = fw }, err (db_failed e))
      | panic ↦ (record { db = db'; fee_windows = fw }, panic)
    ]

-- the ledger is read: the transaction, `ingestLedgerCloseMeta` and the commit
unfoldable pub ingest_ledger :
    Toid → ℕ → TxFaults → Ledger → Service → Service × Outcome ServiceError (Unit {0})
ingest_ledger toid retention f l s =
    if f.new_tx_fails then (s, err new_tx_failed) else elim (insert_all toid f l s.db.tables) [
      | none ↦ (s, err insert_failed)
      | some tx ↦
          let (fw, r) = ingest_fees s.fee_windows l.lcm in
          elim r [
            | err e ↦ (record s { fee_windows = fw }, err (fees_failed e))
            | panic ↦ (record s { fee_windows = fw }, panic)
            | ok _ ↦ commit_tx toid retention f l tx fw s.db
          ]
    ]

unfoldable pub ingest :
    Toid
    → ℕ
    → (ℕ → Option Ledger)
    → TxFaults
    → ℕ
    → Service
    → Service × Outcome ServiceError (Unit {0})
unfolding ingest_ledger
ingest toid retention get_ledger f sequence s = elim (get_ledger sequence) [
  | none ↦ (s, err get_ledger_failed)
  | some l ↦ ingest_ledger toid retention f l s
]

-- The loop of `run`, for as many ledgers as faults are listed; `none` while it goes on.
unfoldable pub run_from :
    Toid → ℕ → (ℕ → Option Ledger) → List TxFaults → ℕ → Service → Service × Option ServiceError
run_from toid retention get_ledger [] next s = (s, none)
run_from toid retention get_ledger (f ∷ fs) next s =
    let (s', r) = ingest toid retention get_ledger f next s in
    elim r [
      | ok _ ↦ run_from toid retention get_ledger fs (u32 (next + 1)) s'
      | err e ↦ (s', some e)
      | panic ↦ (s', none)
    ]

-- the root of the history archive when the database is empty
pub from_archive : Option ℕ → Outcome ServiceError ℕ
from_archive none = err archive_failed
from_archive (some current_ledger) =
    if current_ledger == 0 then err empty_archives else ok current_ledger

pub prepared : (ℕ → Bool) → ℕ → Outcome ServiceError ℕ
prepared prepare_range next = if prepare_range next then ok next else err prepare_range_failed

pub next_after : Outcome DbError ℕ → Option ℕ → Outcome ServiceError ℕ
next_after (ok cur) root_has = ok (u32 (cur + 1))
next_after (err empty_db) root_has = from_archive root_has
next_after (err e) root_has = err (db_failed e)
next_after panic root_has = panic

unfoldable pub get_next_ledger_sequence :
    (root_has : Option ℕ) → (prepare_range : ℕ → Bool) → Service → Service × Outcome ServiceError ℕ
unfolding from_archive prepared next_after
get_next_ledger_sequence root_has prepare_range s =
    let (db, r) = get_latest_ledger_sequence s.db in
    let s' : Service = record s { db = db } in
    elim (next_after r root_has) [
      | ok next ↦ (s', prepared prepare_range next)
      | err e ↦ (s', err e)
      | panic ↦ (s', panic)
    ]
