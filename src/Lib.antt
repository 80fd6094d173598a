-- ===== src/Lib.antt =====
-- stellar-rpc: the retention of ledgers, the fee statistics, the ingestion, the request limits and
-- the queries for ledgers, transactions and events.
--
-- The daemon ingests closed ledgers one by one. The ingest service (Ingest; ingest/service.go) asks
-- a backend for the next ledger, inserts it with its transactions and events into the tables of a
-- write transaction (Db/Insert), gives its fees to the fee windows (FeeWindow;
-- feewindow/feewindow.go), which are in memory, and commits the transaction, which trims what leaves
-- the retention window (Db/Trim, Db/Commit; db/db.go, ledger.go, transaction.go, event.go). The fee
-- windows keep their ledgers in a ledger bucket window (BucketWindow;
-- ledgerbucketwindow/ledgerbucketwindow.go). At its start the daemon applies the migrations of the
-- database to the stored ledgers (Db/Migration; db/migration.go); a cache with transactions stands
-- beside the database (Db/TransactionalCache; db/transactionalcache.go). Requests pass a limiter of
-- the requests in flight (Network/Backlog; network/backlogQ.go) and one of their duration, which
-- answers for a handler that takes too long (Network/Duration; network/requestdurationlimiter.go),
-- and their pagination is validated against the range of ledgers that the database reports
-- (Protocol/Pagination; protocol/get_ledgers.go, get_transactions.go, format.go; Db/Reader).
-- getLedgers takes a page of ledgers from the database and from a datastore of older ones
-- (Methods/GetLedgers; methods/get_ledgers.go). getTransactions takes a page of the transactions of
-- the ledgers from its start on, and getTransaction gives one of them (Methods/Transactions;
-- methods/get_transactions.go, get_transaction.go, json.go; db/transaction.go). Events are found by
-- cursors (Protocol/Cursor; protocol/cursor.go), whose texts are the ids of the rows of the event
-- table, and chosen by filters of their types, contracts and topics (Protocol/EventFilter,
-- Protocol/TopicFilter; protocol/get_events.go): getEvents (Methods/GetEvents;
-- methods/get_events.go) queries the event table for what the filters ask for together (Db/Events;
-- db/event.go) and matches the events it gets with the request. simulateTransaction (Methods/Simulate;
-- methods/simulate_transaction.go, protocol/simulate_transaction.go) reads a transaction, asks the
-- pool of preflight workers (Preflight/Pool; preflight/pool.go) for a preflight of its operation, which
-- a worker gets from a library (Preflight; preflight/preflight.go), and formats it. What bounds all of
-- these comes from the configuration (Config; config/main.go, option.go, options.go, parse.go, toml.go,
-- flags.go): SetValues loads the defaults, the environment, the flags and a TOML file into the options
-- (Config/Sources, with the parsers of Config/Parse and the flags of Config/Flags), and Validate runs
-- the checks of the table of options (Config/Validate, Config/Custom, Config/Table). The paths are below
-- cmd/stellar-rpc/internal, those of protocol/ below the root.
--
-- Each component is a module with the source's types as records and data types, and one function for
-- each operation, named as in Go: Append is append, IngestFees is ingest_fees, Commit is commit. An
-- operation that changes state returns the new state with its result; a result that may be an error
-- or a panic is an Outcome (Base/Outcomes). Child modules hold the invariants and the theorems, and
-- the Tests modules run the definitions at concrete inputs. Base has what the components share:
-- lists, machine words, decimal texts, rotations and permutations of lists.
--
-- Numbers are natural numbers with the wrap-around of uint32 and uint64 written out. The loops are
-- recursions on a list or on the number of rounds that Go computes before it enters the loop, and
-- the select loop of a request is a relation of steps, so none needs fuel. The digits of a decimal
-- are written out for as many places as the formats of the source give, which hold every number in
-- their range.
--
-- Parameters: the packing of a ledger, a transaction and an operation into an int64 (toid of the Go
-- SDK) is a record of its two functions and of their documented laws; the backend, the history
-- archive and the datastore are functions. The encodings of values and of contract identifiers are a
-- record with their documented laws. XDR values and the readers of transactions are records of what
-- the code reads of them. Which statements of SQLite fail is a record of Booleans, and the order in
-- which it gives the rows of a query that asks for none is a function. What a handler behind the
-- limiter of durations does is a pair of relations, what a preflight gives is a relation, and the
-- library for preflights is a record of its functions. The environment, the flags of the command
-- line, the TOML reader and the functions on texts are records or functions of what the
-- configuration asks of them.
--
-- Not modelled: the other method handlers (methods/), which pass on fields or the answers of other
-- programs, the daemon's wiring and the client; metrics and logs are output, as are the help texts of
-- the options and their printing as TOML; simulation and the conversions to JSON are done by
-- libraries in Rust. Locks and the retries with backoff are left out.
pub mod Base
pub mod BucketWindow
pub mod Config
pub mod Db
pub mod FeeWindow
pub mod Ingest
pub mod Methods
pub mod Network
pub mod Preflight
pub mod Protocol
