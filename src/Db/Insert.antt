-- ===== src/Db/Insert.antt =====
-- The three inserts of a ledger: InsertLedger, InsertTransactions and InsertEvents of
-- cmd/stellar-rpc/internal/db. `none` is an error.
use stellar_stellar_rpc.Base.{
  ℕ, zero, suc, ◌+◌, Option, none, some, List, [], ◌∷◌, ◌++◌, map, Bool, true, false, not, u32, ltb,
  ◌==◌, if◌then◌else◌,
}
use stellar_stellar_rpc.Base.Decimal.{Bytes, bytes_eq}
use stellar_stellar_rpc.Base.Maybe.{◌>>=◌}
use stellar_stellar_rpc.Protocol.Cursor.{Toid, to_string}
use stellar_stellar_rpc.Db.Store.{
  Event, TransactionEvents, Transaction, TxRead, Ledger, seq, TransactionRow, transaction,
  read_error,
}

-- `InsertLedger`: the row at its place by the key, unless the key is taken
unfoldable pub insert_ledger : Ledger → List Ledger → Option (List Ledger)
insert_ledger l [] = some (l ∷ [])
insert_ledger l (x ∷ xs) =
    if ltb (seq l) (seq x)
    then some (l ∷ x ∷ xs)
    else if seq l == seq x
    then none
    else elim (insert_ledger l xs) [ none ↦ none | some ys ↦ some (x ∷ ys) ]

-- The map from hashes to transactions, in the order of the insertion of its keys. (Go iterates over
-- it in any order, which decides the order of the new rows.)
put : Bytes → Transaction → List (Bytes × Transaction) → List (Bytes × Transaction)
unfolding bytes_eq
put h tx [] = (h, tx) ∷ []
put h tx ((k, x) ∷ m) = let rest = put h tx m in if bytes_eq h k then (h, tx) ∷ m else (k, x) ∷ rest

-- both lookup entries of a fee bump, and the one of any other transaction
put_lookups : Transaction → List (Bytes × Transaction) → List (Bytes × Transaction)
unfolding put
put_lookups tx m =
    if tx.is_fee_bump then put tx.hash tx (put tx.inner_hash tx m) else put tx.hash tx m

-- The loop of `InsertTransactions`: so many reads, where io.EOF is an error as well.
unfoldable pub read_transactions :
    ℕ → List TxRead → List (Bytes × Transaction) → Option (List (Bytes × Transaction))
unfolding put_lookups
read_transactions zero reads m = some m
read_transactions (suc n) (transaction tx ∷ reads) m = read_transactions n reads (put_lookups tx m)
read_transactions (suc n) _ m = none

abbrev pub transaction_row : ℕ → Bytes × Transaction → TransactionRow
transaction_row sequence (h, tx) = record {
  hash = h;
  ledger_sequence = sequence;
  application_order = tx.index;
}

-- `InsertTransactions`
unfoldable pub insert_transactions : Ledger → List TransactionRow → Option (List TransactionRow)
unfolding read_transactions
insert_transactions l rows = if l.count_transactions == 0 then some rows else elim l.tx_reader [
  | none ↦ none
  | some reads ↦ elim (read_transactions l.count_transactions reads []) [
    | none ↦ none
    | some m ↦ some (rows ++ map (transaction_row (seq l)) m)
  ]
]

concat {ℓ} : {A : Type ℓ} → List (List A) → List A
concat [] = []
concat (x ∷ xs) = x ++ concat xs

is_none {ℓ} : {A : Type ℓ} → List A → Bool
is_none [] = true
is_none _ = false

-- `transactionEventsIntoDiagnosticEvents`, with an event for the diagnostic event that wraps it
unfoldable pub transaction_events_into_diagnostic_events : TransactionEvents → List Event
unfolding concat is_none
transaction_events_into_diagnostic_events e =
    (if is_none e.diagnostic_events then concat e.operation_events else e.diagnostic_events)
    ++ e.transaction_events

-- the rows of the events of a transaction, from index `i` on
unfoldable pub event_rows : Toid → ℕ → ℕ → ℕ → List Event → Option (List Bytes)
event_rows toid ledger tx i [] = some []
event_rows toid ledger tx i (e ∷ es) =
    let rest = event_rows toid ledger tx (i + 1) es in
    if not e.marshals
    then none
    else if not e.is_v0
    then none
    else rest >>= λ rows.
        some (to_string toid (record { ledger = ledger; tx = tx; op = 0; event = u32 i }) ∷ rows)

-- The loop of `InsertEvents`: the successful transactions up to io.EOF. The inserts of a transaction
-- without events and with an empty list of them are the same.
unfoldable pub read_events : Toid → ℕ → List TxRead → List Bytes → Option (List Bytes)
unfolding event_rows transaction_events_into_diagnostic_events
read_events toid ledger [] rows = some rows
read_events toid ledger (read_error ∷ reads) rows = none
read_events toid ledger (transaction tx ∷ reads) rows =
    if not tx.successful
    then read_events toid ledger reads rows
    else tx.events >>= λ es.
        event_rows toid ledger tx.index 0 (transaction_events_into_diagnostic_events es) >>= λ new.
        read_events toid ledger reads (rows ++ new)

-- `InsertEvents`: one row for each event, under the text of its cursor
unfoldable pub insert_events : Toid → Ledger → List Bytes → Option (List Bytes)
unfolding read_events
insert_events toid l rows =
    if l.count_transactions == 0
    then some rows
    else l.tx_reader >>= λ reads. read_events toid (seq l) reads rows
