-- ===== src/Db/Commit.antt =====
-- `writeTx.Commit` (cmd/stellar-rpc/internal/db/db.go).
use stellar_stellar_rpc.Base.{ℕ, Outcome, ok, err, if◌then◌else◌}
use stellar_stellar_rpc.FeeWindow.Ingest.{LedgerCloseMeta}
use stellar_stellar_rpc.Protocol.Cursor.{Toid}
use stellar_stellar_rpc.Db.Store.{Tables, Db, DbError, Faults, statement_failed, checkpoint_failed}
use stellar_stellar_rpc.Db.Trim.{trim_ledgers, trim_transactions, trim_events}

-- the tables of a transaction behind the three trims of `Commit`
abbrev pub trimmed : Toid → ℕ → ℕ → Tables → Tables
trimmed toid latest retention t = record {
  ledgers = trim_ledgers latest retention t.ledgers;
  transactions = trim_transactions latest retention t.transactions;
  events = trim_events toid latest retention t.events;
}

-- `writeTx.Commit` on the tables of the transaction. An error before the commit leaves the database
-- to the rollback; one of the checkpoint comes after it.
unfoldable pub commit :
    Toid → ℕ → Faults → LedgerCloseMeta → Tables → Db → Db × Outcome DbError (Unit {0})
commit toid retention f lcm tx db =
    if f.trim_ledgers_fails
    then (db, err statement_failed)
    else if f.trim_transactions_fails
    then (db, err statement_failed)
    else if f.trim_events_fails
    then (db, err statement_failed)
    else if f.commit_fails
    then (db, err statement_failed)
    else let db' : Db = record {
      tables = trimmed toid lcm.ledger_sequence retention tx;
      cache = record {
        latest_ledger_seq = lcm.ledger_sequence;
        latest_ledger_close_time = lcm.ledger_close_time;
      };
    } in
      if f.checkpoint_fails then (db', err checkpoint_failed) else (db', ok tt)
