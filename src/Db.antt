-- ===== src/Db.antt =====
-- cmd/stellar-rpc/internal/db/db.go and ledger.go, and the inserts and trims of transaction.go and
-- event.go. SQLite is not modelled: a table is the list of its rows, `ledger_close_meta` in the order
-- of its key and the others as they are inserted, a statement is what it does to them, and `Faults`
-- tells which statements fail. The keys of the transactions and events of a ledger are taken to be
-- new, as its own key is tested first. A transaction works on its own copy of the tables, which a
-- commit installs and a rollback drops.
pub mod Store
pub mod Insert
pub mod Trim
pub mod Commit
pub mod Reader
pub mod Events
pub mod Retention
pub mod Ranges
mod Tests
pub mod Migration
pub mod TransactionalCache
