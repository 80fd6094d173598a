-- ===== src/Methods/Transactions/Page.antt =====
-- cmd/stellar-rpc/internal/methods/get_transactions.go. Ledger sequences and transaction orders are
-- below 2^31, where int32 and uint32 agree. The text of the cursor in a response is left to the Go SDK.
use stellar_stellar_rpc.Base.{
  ℕ, zero, suc, ◌+◌, ◌-◌, Option, none, some, List, [], ◌∷◌, ◌++◌, Bool, true, false, ltb, leb,
  ◌==◌, if◌then◌else◌, length, Outcome, ok, err, panic,
}
use stellar_stellar_rpc.Base.Decimal.{Bytes, parse_int}
use stellar_stellar_rpc.Base.Maybe.{◌>>=◌}
use stellar_stellar_rpc.BucketWindow.{LedgerInfo, LedgerRange, to_ledger_seq_range}
use stellar_stellar_rpc.Protocol.Cursor.{Toid}
use stellar_stellar_rpc.Protocol.Pagination.{
  Format, json, empty, base64, unknown, Request, RequestError, validate,
}
use stellar_stellar_rpc.Methods.GetLedgers.{Code, internal_error, invalid_request, invalid_params}
use stellar_stellar_rpc.Methods.Transactions.{
  IngestTx, Tx, parse_transaction, Encoders, Encoding, as_json, transaction_to_json, jsonify_slice,
  xdr_fields, Status, status_of,
}

pub data Read : Type 0 where
  one : IngestTx → Read
  read_error : Read

-- A reader of the transactions of a ledger: what it reads from the start up to io.EOF, and behind a
-- `Seek`, which is `none` for an error other than io.EOF.
pub record TxReader : Type 0 where
  pub reads : List Read
  pub seek : ℕ → Option (List Read)

-- a ledger as the code reads it; no reader for an error
pub record LedgerTxs : Type 0 where
  pub info : LedgerInfo
  pub count_transactions : ℕ
  pub reader : Option TxReader

-- the rows of ledgers, and the sequences at which a read fails
pub record LedgerTable : Type 0 where
  pub rows : List LedgerTxs
  pub read_fails : ℕ → Bool

pub record TransactionsHandler : Type 0 where
  pub max_limit : ℕ
  pub default_limit : ℕ
  pub encoders : Encoders
  pub toid : Toid

-- toid.ID
pub record TxId : Type 0 where
  pub ledger : ℕ
  pub tx : ℕ
  pub op : ℕ

pub record TransactionInfo : Type 0 where
  pub status : Status
  pub transaction_hash : Bytes
  pub application_order : ℕ
  pub fee_bump : Bool
  pub ledger : LedgerInfo
  pub encoding : Encoding

pub record GetTransactionsResponse : Type 0 where
  pub transactions : List TransactionInfo
  pub range : LedgerRange
  pub cursor : TxId

-- `initializePagination`
start_at : TransactionsHandler → ℕ → Bytes → Option TxId
start_at h start_ledger [] = some (record { ledger = start_ledger; tx = 1; op = 1 })
start_at h start_ledger (c ∷ s) = parse_int (c ∷ s) >>= λ n.
    let (l, t, o) = h.toid.parse n in some (record { ledger = l; tx = t + 1; op = o })

unfoldable pub initialize_pagination : TransactionsHandler → Request → Option (TxId × ℕ)
unfolding start_at
initialize_pagination h req = elim req.pagination [
  | none ↦ some (record { ledger = req.start_ledger; tx = 1; op = 1 }, h.default_limit)
  | some p ↦ start_at h req.start_ledger p.cursor >>= λ start.
      some (start, if ltb 0 p.limit then p.limit else h.default_limit)
]

-- the fields by the format, as the loop assigns them from what `transactionToJSON` returns
unfoldable pub page_encoding : Encoders → Format → Tx → Option Encoding
page_encoding e json tx = transaction_to_json e tx >>= λ (result, envelope, meta).
    jsonify_slice e tx.events >>= λ events. some (
      as_json (record {
        result = result;
        result_meta = envelope;
        envelope = meta;
        diagnostic_events = events;
      }))
page_encoding e empty tx = some (xdr_fields e tx)
page_encoding e base64 tx = some (xdr_fields e tx)
page_encoding e unknown tx = some (xdr_fields e tx)

-- the body of the loop over the transactions, behind the read
unfoldable pub transaction_info : Encoders → Format → LedgerInfo → IngestTx → Option TransactionInfo
unfolding page_encoding
transaction_info e format ledger t = parse_transaction ledger t >>= λ tx.
    page_encoding e format tx >>= λ encoding. some (record {
      status = status_of tx.successful;
      transaction_hash = tx.transaction_hash;
      application_order = tx.application_order;
      fee_bump = tx.fee_bump;
      ledger = tx.ledger;
      encoding = encoding;
    })

-- The loop from transaction `i` on for so many rounds, with the transaction order of the cursor
unfoldable pub read_txs :
    (IngestTx → Option TransactionInfo)
    → (limit : ℕ) → (rounds i order : ℕ) → List Read
    → List TransactionInfo
    → Outcome Code (ℕ × Bool × List TransactionInfo)
read_txs info limit zero i order reads txns = ok (order, false, txns)
read_txs info limit (suc n) i order [] txns = ok (i, false, txns)
read_txs info limit (suc n) i order (read_error ∷ rs) txns = err invalid_params
read_txs info limit (suc n) i order (one t ∷ rs) txns =
    let rest = read_txs info limit n (i + 1) i rs in
    elim (info t) [
      | none ↦ err internal_error
      | some x ↦
          if leb limit (length (txns ++ (x ∷ [])))
          then ok (i, true, txns ++ (x ∷ []))
          else rest (txns ++ (x ∷ []))
    ]

-- the transactions from an index on, which a `Seek` goes to in the ledger of the start
abbrev pub reads_from : TxReader → (seeks : Bool) → ℕ → Option (List Read)
reads_from r true start_tx_idx = r.seek (start_tx_idx - 1)
reads_from r false start_tx_idx = some r.reads

abbrev pub with_cursor :
    ℕ
    → Outcome Code (ℕ × Bool × List TransactionInfo)
    → Outcome Code (TxId × Bool × List TransactionInfo)
with_cursor sequence (ok (order, done, txns)) =
    ok (record { ledger = sequence; tx = order; op = 1 }, done, txns)
with_cursor sequence (err e) = err e
with_cursor sequence panic = panic

-- `processTransactionsInLedger`, once the reader stands at the first transaction
unfoldable pub process_from :
    TransactionsHandler
    → LedgerTxs
    → Option (List Read)
    → (start_tx_idx : ℕ) → List TransactionInfo
    → (limit : ℕ) → Format
    → Outcome Code (TxId × Bool × List TransactionInfo)
unfolding read_txs
process_from h l none start_tx_idx txns limit format = err internal_error
process_from h l (some reads) start_tx_idx txns limit format = with_cursor l.info.sequence (
    read_txs (transaction_info h.encoders format l.info) limit
      (l.count_transactions + 1 - start_tx_idx) start_tx_idx 0 reads txns)

abbrev pub start_index : Bool → TxId → ℕ
start_index seeks start = if seeks then start.tx else 1

-- `processTransactionsInLedger`
unfoldable pub process_transactions_in_ledger :
    TransactionsHandler
    → LedgerTxs
    → TxId
    → List TransactionInfo
    → (limit : ℕ) → Format
    → Outcome Code (TxId × Bool × List TransactionInfo)
unfolding process_from
process_transactions_in_ledger h l start txns limit format = elim l.reader [
  | none ↦ err internal_error
  | some r ↦
      let seeks = l.info.sequence == start.ledger in
      process_from h l (reads_from r seeks (start_index seeks start)) (start_index seeks start) txns
        limit format
]

-- the row of a sequence
unfoldable pub find_ledger : List LedgerTxs → ℕ → Option LedgerTxs
find_ledger [] n = none
find_ledger (l ∷ ls) n =
    let rest = find_ledger ls n in if l.info.sequence == n then some l else rest

-- `fetchLedgerData`
unfoldable pub fetch_ledger_data : LedgerTable → ℕ → Outcome Code LedgerTxs
unfolding find_ledger
fetch_ledger_data table n =
    if table.read_fails n
    then err internal_error
    else elim (find_ledger table.rows n) [ none ↦ err invalid_params | some l ↦ ok l ]

abbrev pub process_fetched :
    TransactionsHandler
    → TxId
    → List TransactionInfo
    → (limit : ℕ) → Format
    → Outcome Code LedgerTxs
    → Outcome Code (TxId × Bool × List TransactionInfo)
process_fetched h start txns limit format (ok l) =
    process_transactions_in_ledger h l start txns limit format
process_fetched h start txns limit format (err e) = err e
process_fetched h start txns limit format panic = panic

-- the next round, unless the page is full
abbrev pub go_on :
    (TxId → List TransactionInfo → Outcome Code (TxId × List TransactionInfo))
    → Outcome Code (TxId × Bool × List TransactionInfo)
    → Outcome Code (TxId × List TransactionInfo)
go_on rest (ok (cursor, true, txns)) = ok (cursor, txns)
go_on rest (ok (cursor, false, txns)) = rest cursor txns
go_on rest (err e) = err e
go_on rest panic = panic

-- the loop over the ledgers, for so many rounds
unfoldable pub read_ledgers :
    TransactionsHandler
    → LedgerTable
    → TxId
    → (limit : ℕ) → Format
    → (rounds ledger_seq : ℕ) → TxId
    → List TransactionInfo
    → Outcome Code (TxId × List TransactionInfo)
unfolding fetch_ledger_data process_transactions_in_ledger
read_ledgers h table start limit format zero ledger_seq cursor txns = ok (cursor, txns)
read_ledgers h table start limit format (suc n) ledger_seq cursor txns =
    go_on (read_ledgers h table start limit format n (ledger_seq + 1))
      (process_fetched h start txns limit format (fetch_ledger_data table ledger_seq))

abbrev pub respond :
    LedgerRange → Outcome Code (TxId × List TransactionInfo) → Outcome Code GetTransactionsResponse
respond range (ok (cursor, txns)) =
    ok (record { transactions = txns; range = range; cursor = cursor })
respond range (err e) = err e
respond range panic = panic

unfoldable pub read_page :
    TransactionsHandler
    → LedgerTable
    → LedgerRange
    → Format
    → Option (TxId × ℕ)
    → Outcome Code GetTransactionsResponse
unfolding read_ledgers
read_page h table range format none = err invalid_params
read_page h table range format (some (start, limit)) = respond range (
    read_ledgers h table start limit format (range.last_ledger.sequence + 1 - start.ledger)
      start.ledger (record { ledger = 0; tx = 0; op = 0 }) [])

abbrev pub if_valid : {A : Type 0} → List RequestError → Outcome Code A → Outcome Code A
if_valid [] r = r
if_valid (e ∷ es) r = err invalid_request

-- `getTransactionsByLedgerSequence`, once the range of ledgers is read
unfoldable pub get_transactions :
    TransactionsHandler → LedgerTable → LedgerRange → Request → Outcome Code GetTransactionsResponse
unfolding read_page initialize_pagination
get_transactions h table range req =
    if_valid (validate req h.max_limit (to_ledger_seq_range range))
      (read_page h table range req.format (initialize_pagination h req))
