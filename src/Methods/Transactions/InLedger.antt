-- ===== src/Methods/Transactions/InLedger.antt =====
-- What getTransactions takes of one ledger.
use stellar_stellar_rpc.Base.{
  take-room, take-full, take_nil, ℕ, zero, suc, ◌+◌, ◌-◌, ◌<◌, ◌≡◌, refl, sym, ap, ◌∙◌, inl, inr,
  Option, some, List, [], ◌∷◌, ◌++◌, map, Bool, true, false, arith, Bool-cases, leb, ◌==◌,
  if◌then◌else◌, length, length-append, length-drop, take, drop, Outcome, ok,
}
use mathlib.Core.List.{append-nil}
use stellar_stellar_rpc.Base.Weights.{All}
use stellar_stellar_rpc.Protocol.Pagination.{Format}
use stellar_stellar_rpc.Methods.GetLedgers.{Code}
use stellar_stellar_rpc.Methods.Transactions.{IngestTx}
use stellar_stellar_rpc.Methods.Transactions.Page.{
  Read, one, TxReader, LedgerTxs, TransactionsHandler, TxId, TransactionInfo, transaction_info,
  read_txs, process_from, reads_from, with_cursor, start_index, process_transactions_in_ledger,
}

page-eq :
    (c : ℕ) {b b' : Bool} {xs ys : List TransactionInfo}
    → b ≡ b'
    → xs ≡ ys
    → ◌≡◌ {A = Outcome Code (ℕ × Bool × List TransactionInfo)} (ok (c, b, xs)) (ok (c, b', ys))
page-eq c {b' = b'} {xs = xs} p q = ap (λ b. ok (c, b, xs)) p ∙ ap (λ l. ok (c, b', l)) q

module _ (info : IngestTx → Option TransactionInfo) (limit : ℕ) where
  read_txs-full :
      (n i order : ℕ) {t : IngestTx} (rs : List Read) (txns : List TransactionInfo)
      {x : TransactionInfo}
      → info t ≡ some x
      → leb limit (length txns + 1) ≡ true
      → read_txs info limit (suc n) i order (one t ∷ rs) txns ≡ ok (i, true, txns ++ (x ∷ []))
  unfolding read_txs
  read_txs-full n i order rs txns {x = x} h full =
      let k : leb limit (length (txns ++ (x ∷ []))) ≡ true =
        ap (leb limit) (length-append txns (x ∷ [])) ∙ full in
      ground (arith, h, k)

  read_txs-room :
      (n i order : ℕ) {t : IngestTx} (rs : List Read) (txns : List TransactionInfo)
      {x : TransactionInfo}
      → info t ≡ some x
      → leb limit (length txns + 1) ≡ false
      → read_txs info limit (suc n) i order (one t ∷ rs) txns
        ≡ read_txs info limit n (i + 1) i rs (txns ++ (x ∷ []))
  unfolding read_txs
  read_txs-room n i order rs txns {x = x} h room =
      let k : leb limit (length (txns ++ (x ∷ []))) ≡ false =
        ap (leb limit) (length-append txns (x ∷ [])) ∙ room in
      ground (arith, h, k)

-- From transaction `i` on the loop takes the transactions that are there until the limit.
read_txs-take :
    (info : IngestTx → Option TransactionInfo) (out : IngestTx → TransactionInfo) (limit : ℕ)
    (ts : List IngestTx) (i order : ℕ) (txns : List TransactionInfo)
    → All (λ t. info t ≡ some (out t)) ts
    → length txns < limit
    → (c : ℕ) × (read_txs info limit (length ts) i order (map one ts) txns
        ≡ ok (
          c,
          leb limit (length txns + length ts),
          txns ++ take (limit - length txns) (map out ts),
        ))
unfolding read_txs
read_txs-take info out limit [] i order txns h lt =
    let below : leb limit (length txns + 0) ≡ false = ground arith in
    (order, rw (below, take_nil (limit - length txns) {xs = map out []} refl, append-nil txns) refl)
read_txs-take info out limit (t ∷ ts) i order txns h lt =
    elim (Bool-cases (leb limit (length txns + 1))) [
      | inl full ↦ (
        i,
        read_txs-full info limit (length ts) i order (map one ts) txns h.0 full
            ∙ page-eq i (ground (arith, full)) (
                ap (txns ++◌) (
                  sym (
                    take-full limit (length txns) (map out ts) (out t)
                      (ground (arith, full, lt))))),
      )
      | inr room ↦
          let len = length-append txns (out t ∷ []) in
          let (c, e) =
            read_txs-take info out limit ts (i + 1) i (txns ++ (out t ∷ [])) h.1
              (ground (arith, room, len)) in
          (
            c,
            read_txs-room info limit (length ts) i order (map one ts) txns h.0 room
                ∙ e
                ∙ page-eq c (ap (λ n. leb limit n) (omega (arith, len))) (
                    ap (λ n. (txns ++ (out t ∷ [])) ++ take (limit - n) (map out ts)) len
                    ∙ take-room limit (length txns) txns (map out ts) (out t)
                        (ground (arith, room))),
          )
    ]

-- A ledger that can be read: its reader gives its transactions, also behind a seek, and each of them
-- has its form in the response. A seek beyond the end is no error.
pub record Holds (h : TransactionsHandler) (format : Format) (l : LedgerTxs) (n : ℕ)
    (ts : List IngestTx) (out : IngestTx → TransactionInfo) : Type 0 where
  pub at_seq : l.info.sequence ≡ n
  pub reader : TxReader
  pub opened : l.reader ≡ some reader
  pub reads : reader.reads ≡ map one ts
  pub seeks :
      (k : ℕ)
      → (rs : List Read) × (reader.seek k ≡ some rs) × (k < length ts → rs ≡ map one (drop k ts))
  pub counted : l.count_transactions ≡ length ts
  pub encodes : All (λ t. transaction_info h.encoders format l.info t ≡ some (out t)) ts

All-drop {ℓ} : {A : Type ℓ} (P : A → Type 0) (k : ℕ) (xs : List A) → All P xs → All P (drop k xs)
All-drop P zero xs h = h
All-drop P (suc k) [] h = h
All-drop P (suc k) (x ∷ xs) h = All-drop P k xs h.1

module _ (h : TransactionsHandler) (limit : ℕ) (format : Format) (out : IngestTx → TransactionInfo)
    (l : LedgerTxs) (n : ℕ) (ts : List IngestTx) (v : Holds h format l n ts out) where
  process_from-take :
      (seeks : Bool) (idx : ℕ) (part : List IngestTx) (reads : List Read)
      (txns : List TransactionInfo)
      → reads_from v.reader seeks idx ≡ some reads
      → (0 < length part → reads ≡ map one part)
      → l.count_transactions + 1 - idx ≡ length part
      → All (λ t. transaction_info h.encoders format l.info t ≡ some (out t)) part
      → length txns < limit
      → (c : ℕ) × (process_from h l (reads_from v.reader seeks idx) idx txns limit format
          ≡ ok (
            record { ledger = n; tx = c; op = 1 },
            leb limit (length txns + length part),
            txns ++ take (limit - length txns) (map out part),
          ))
  unfolding read_txs process_from
  process_from-take seeks idx part reads txns opened same rounds encode lt =
      let (c, e) = found part reads same encode in
      (
        c,
        ap (λ rs. process_from h l rs idx txns limit format) opened
            ∙ ap
                (λ k.
                  with_cursor l.info.sequence
                    (read_txs (transaction_info h.encoders format l.info) limit k idx 0 reads txns))
                rounds
            ∙ ap (with_cursor l.info.sequence) e
            ∙ ap
                (λ m. with_cursor m (
                  ok (
                    c,
                    leb limit (length txns + length part),
                    txns ++ take (limit - length txns) (map out part),
                  )))
                v.at_seq,
      )
    where
      found :
          (part : List IngestTx) (reads : List Read)
          → (0 < length part → reads ≡ map one part)
          → All (λ t. transaction_info h.encoders format l.info t ≡ some (out t)) part
          → (c : ℕ) × (read_txs
                (transaction_info h.encoders format l.info)
                limit
                (length part)
                idx
                0
                reads
                txns
              ≡ ok (
                c,
                leb limit (length txns + length part),
                txns ++ take (limit - length txns) (map out part),
              ))
      found [] reads same encode =
          read_txs-take (transaction_info h.encoders format l.info) out limit [] idx 0 txns encode
            lt
      found (t ∷ ts) reads same encode = rw (same (omega arith)) (
          read_txs-take (transaction_info h.encoders format l.info) out limit (t ∷ ts) idx 0 txns
            encode lt)

  -- the transactions of the ledger from a start on
  abbrev pub part_from : TxId → List IngestTx
  part_from start = if n == start.ledger then drop (start.tx - 1) ts else ts

  pub process-take :
      (start : TxId) (txns : List TransactionInfo)
      → 0 < start.tx
      → length txns < limit
      → (c : ℕ) × (process_transactions_in_ledger h l start txns limit format
          ≡ ok (
            record { ledger = n; tx = c; op = 1 },
            leb limit (length txns + length (part_from start)),
            txns ++ take (limit - length txns) (map out (part_from start)),
          ))
  unfolding process_transactions_in_ledger
  process-take start txns pos lt =
      rw (v.opened, ap (λ m. m == start.ledger) v.at_seq) (by_seek (n == start.ledger))
    where
      by_seek :
          (b : Bool)
          → (c : ℕ) × (process_from h l
                (reads_from v.reader b (start_index b start))
                (start_index b start)
                txns
                limit
                format
              ≡ ok (
                record { ledger = n; tx = c; op = 1 },
                leb limit (length txns + length (if b then drop (start.tx - 1) ts else ts)),
                txns
                    ++ take
                        (limit - length txns)
                        (map out (if b then drop (start.tx - 1) ts else ts)),
              ))
      by_seek true =
          let (rs, e, same) = v.seeks (start.tx - 1) in
          process_from-take true start.tx (drop (start.tx - 1) ts) rs txns e
            (λ some_left. same (omega (arith, some_left, length-drop (start.tx - 1) ts)))
            (omega (arith, pos, v.counted, length-drop (start.tx - 1) ts))
            (All-drop _ (start.tx - 1) ts v.encodes) lt
      by_seek false =
          process_from-take false 1 ts v.reader.reads txns refl (λ p. v.reads)
            (omega (arith, v.counted)) v.encodes lt
