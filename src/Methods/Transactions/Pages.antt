-- ===== src/Methods/Transactions/Pages.antt =====
-- The pages of getTransactions.
use stellar_stellar_rpc.Base.{
  take_nil, length-map, ℕ, zero, suc, ◌+◌, ◌-◌, ◌≤◌, ◌<◌, ◌≡◌, refl, sym, ap, ◌∙◌, some, List, [],
  ◌++◌, map, true, false, arith, leb, ◌==◌, if◌then◌else◌, length, take, drop, ok,
}
use mathlib.Core.List.{append-nil}
use stellar_stellar_rpc.BucketWindow.{LedgerRange, to_ledger_seq_range}
use stellar_stellar_rpc.Protocol.Pagination.{Format, Request, validate}
use stellar_stellar_rpc.Methods.Transactions.{IngestTx}
use stellar_stellar_rpc.Methods.Transactions.Page.{
  LedgerTxs, LedgerTable, TransactionsHandler, TxId, TransactionInfo, fetch_ledger_data,
  process_fetched, read_ledgers, initialize_pagination, get_transactions, if_valid, read_page,
  respond,
}
use stellar_stellar_rpc.Methods.Transactions.InLedger.{Holds, process-take}
use stellar_stellar_rpc.Methods.Transactions.NextLedger.{read_ledgers-step}

-- what all the ledgers from `n` on give, for so many ledgers
abbrev pub infos_from :
    (ℕ → List IngestTx) → (ℕ → IngestTx → TransactionInfo) → ℕ → ℕ → List TransactionInfo
infos_from txs out zero n = []
infos_from txs out (suc k) n = map (out n) (txs n) ++ infos_from txs out k (n + 1)

-- the table has the ledgers from `n` on, for so many, and they can be read
pub record HoldsAll (h : TransactionsHandler) (format : Format) (table : LedgerTable)
    (ledgers : ℕ → LedgerTxs) (txs : ℕ → List IngestTx) (out : ℕ → IngestTx → TransactionInfo)
    (first last : ℕ) : Type 0 where
  pub here : (n : ℕ) → first ≤ n → n ≤ last → fetch_ledger_data table n ≡ ok (ledgers n)
  pub readable : (n : ℕ) → first ≤ n → n ≤ last → Holds h format (ledgers n) n (txs n) (out n)

module _ {h : TransactionsHandler} {format : Format} {table : LedgerTable} {ledgers : ℕ → LedgerTxs}
    {txs : ℕ → List IngestTx} {out : ℕ → IngestTx → TransactionInfo} {first last : ℕ}
    (v : HoldsAll h format table ledgers txs out first last) (start : TxId) (limit : ℕ)
    (some_tx : 0 < start.tx) where
  -- one ledger, from the start on if it is the first one
  part : ℕ → List IngestTx
  part n = if n == start.ledger then drop (start.tx - 1) (txs n) else txs n

  fetched :
      (n : ℕ) (txns : List TransactionInfo)
      → first ≤ n
      → n ≤ last
      → length txns < limit
      → (c : ℕ) × (process_fetched h start txns limit format (fetch_ledger_data table n)
          ≡ ok (
            record { ledger = n; tx = c; op = 1 },
            leb limit (length txns + length (map (out n) (part n))),
            txns ++ take (limit - length txns) (map (out n) (part n)),
          ))
  unfolding part
  fetched n txns lo hi lt =
      let (c, e) =
        process-take h limit format (out n) (ledgers n) n (txs n) (v.readable n lo hi) start txns
          some_tx lt in
      (
        c,
        ap (process_fetched h start txns limit format) (v.here n lo hi)
            ∙ e
            ∙ ap
                (λ k. ok (
                  record { ledger = n; tx = c; op = 1 },
                  leb limit (length txns + k),
                  txns ++ take (limit - length txns) (map (out n) (part n)),
                ))
                (sym (length-map (out n) (part n))),
      )

  read_later :
      (k n : ℕ) (cursor : TxId) (txns : List TransactionInfo)
      → first ≤ n
      → start.ledger < n
      → n + k ≤ last + 1
      → length txns < limit
      → (c : TxId) × (read_ledgers h table start limit format k n cursor txns
          ≡ ok (c, txns ++ take (limit - length txns) (infos_from txs out k n)))
  unfolding read_ledgers part
  read_later zero n cursor txns lo past hi lt = (
    cursor,
    ap (λ l. ok (cursor, l))
        (sym (ap (txns ++◌) (take_nil (limit - length txns) refl) ∙ append-nil txns)),
  )
  read_later (suc k) n cursor txns lo past hi lt =
      let (c, e) = fetched n txns lo (omega arith) lt in
      let other : (n == start.ledger) ≡ false = ground arith in
      let whole : part n ≡ txs n =
        ap (λ b. if b then drop (start.tx - 1) (txs n) else txs n) other in
      let (d, r) =
        read_ledgers-step h table start limit format k n cursor _ txns _
          (infos_from txs out k (n + 1)) lt e
          (λ txns' lt'.
            read_later k (n + 1) _ txns' (omega arith) (omega arith) (omega arith) lt') in
      (
        d,
        r
            ∙ ap
                (λ ts. ok (
                  d,
                  txns
                      ++ take (limit - length txns)
                          (map (out n) ts ++ infos_from txs out k (n + 1)),
                ))
                whole,
      )

  pub read_ledgers-take :
      (cursor : TxId)
      → first ≤ start.ledger
      → start.ledger ≤ last
      → 0 < limit
      → (c : TxId) × (read_ledgers h table start limit format
            (last + 1 - start.ledger)
            start.ledger
            cursor
            []
          ≡ ok (
            c,
            take limit (
                map (out start.ledger) (drop (start.tx - 1) (txs start.ledger))
                ++ infos_from txs out (last - start.ledger) (start.ledger + 1)),
          ))
  unfolding part
  read_ledgers-take cursor lo hi pos =
      let (c, e) = fetched start.ledger [] lo hi pos in
      let same : (start.ledger == start.ledger) ≡ true = ground arith in
      let rounds : last + 1 - start.ledger ≡ suc (last - start.ledger) = omega (arith, hi) in
      let from : part start.ledger ≡ drop (start.tx - 1) (txs start.ledger) =
        ap (λ b. if b then drop (start.tx - 1) (txs start.ledger) else txs start.ledger) same in
      let room : limit - 0 ≡ limit = omega arith in
      let (d, r) =
        read_ledgers-step h table start limit format (last - start.ledger) start.ledger cursor _ []
          _ (infos_from txs out (last - start.ledger) (start.ledger + 1)) pos e
          (λ txns' lt'.
            read_later (last - start.ledger) (start.ledger + 1) _ txns' (omega arith) (omega arith)
              (omega arith) lt') in
      (
        d,
        ap (λ k. read_ledgers h table start limit format k start.ledger cursor []) rounds
            ∙ r
            ∙ ap
                (λ ts. ok (
                  d,
                  take (limit - 0) (
                      map (out start.ledger) ts
                      ++ infos_from txs out (last - start.ledger) (start.ledger + 1)),
                ))
                from
            ∙ ap
                (λ m. ok (
                  d,
                  take m (
                      map (out start.ledger) (drop (start.tx - 1) (txs start.ledger))
                      ++ infos_from txs out (last - start.ledger) (start.ledger + 1)),
                ))
                room,
      )

-- A valid request for transactions gives those from the start on, up to the limit, of the ledgers up
-- to the last one of the range, each once and in order. The start lies in the range and is not
-- before the first transaction of its ledger, the limit is positive, and the ledgers of the range can
-- be read.
pub get_transactions_lem :
    (h : TransactionsHandler) (table : LedgerTable) (range : LedgerRange) (req : Request)
    (ledgers : ℕ → LedgerTxs) (txs : ℕ → List IngestTx) (out : ℕ → IngestTx → TransactionInfo)
    {start : TxId} {limit : ℕ}
    → validate req h.max_limit (to_ledger_seq_range range) ≡ []
    → initialize_pagination h req ≡ some (start, limit)
    → HoldsAll h req.format table ledgers txs out range.first_ledger.sequence
        range.last_ledger.sequence
    → range.first_ledger.sequence ≤ start.ledger
    → start.ledger ≤ range.last_ledger.sequence
    → 0 < start.tx
    → 0 < limit
    → (c : TxId) × (get_transactions h table range req
        ≡ ok (record {
          transactions = take limit (
              map (out start.ledger) (drop (start.tx - 1) (txs start.ledger))
              ++ infos_from txs out (range.last_ledger.sequence - start.ledger) (start.ledger + 1));
          range = range;
          cursor = c;
        }))
unfolding get_transactions read_page
get_transactions_lem h table range req ledgers txs out {start} {limit} valid page v lo hi one_on
      some_room =
    let (c, e) =
      read_ledgers-take v start limit one_on (record { ledger = 0; tx = 0; op = 0 }) lo hi
        some_room in
    (
      c,
      ap
            (λ errors.
              if_valid errors (read_page h table range req.format (initialize_pagination h req)))
            valid
          ∙ ap (read_page h table range req.format) page
          ∙ ap (respond range) e,
    )
