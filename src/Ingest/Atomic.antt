-- ===== src/Ingest/Atomic.antt =====
-- What `ingest` leaves behind when it fails: the database is as it was, but the fee windows are
-- not rolled back with it.
use stellar_stellar_rpc.Base.{
  ℕ, ◌+◌, ◌^◌, ◌<◌, ◌≡◌, ◌≢◌, refl, ap, ◌⊎◌, inl, inr, Option, none, some, List, [], Outcome, ok,
  err, Bool, true, false, arith,
}
use stellar_stellar_rpc.FeeWindow.Ingest.{
  LedgerCloseMeta, FeeWindows, IngestError, Read, collect, ingest_fees,
}
use stellar_stellar_rpc.FeeWindow.Ingest.InStep.{IsInStep, Ingested, total_fees}
use stellar_stellar_rpc.FeeWindow.Ingest.Whole.{AllOrNothing, reads_of, ingest_fees-AllOrNothing}
use stellar_stellar_rpc.Protocol.Cursor.{Toid}
use stellar_stellar_rpc.Db.Store.{
  Ledger, seq, Tables, Db, DbError, statement_failed, checkpoint_failed,
}
use stellar_stellar_rpc.Db.Commit.{commit}
use stellar_stellar_rpc.Db.Ranges.{committed}
use stellar_stellar_rpc.Ingest.{
  Service, ServiceError, TxFaults, insert_all, commit_tx, ingest_ledger, ingest, fees_failed,
  db_failed, insert_failed, new_tx_failed,
}

-- The fees of a ledger went into both windows.
abbrev pub FeesTaken : FeeWindows → LedgerCloseMeta → FeeWindows → Type 0
FeesTaken fw lcm fw' =
    (reads : List Read) × (s : List ℕ) × (c : List ℕ) × (lcm.reader ≡ some reads)
    × (collect reads [] [] ≡ some (s, c))
    × Ingested fw lcm s c (fw', ok tt)

-- An error, not of the commit, and all of the state as it was but for the count of rollbacks.
abbrev pub Kept : Service → Service × Outcome ServiceError (Unit {0}) → Type 0
Kept s p =
    (e : ServiceError) × (n : ℕ) × ((d : DbError) → e ≢ db_failed d)
    × (p ≡ (record s { fee_windows = record s.fee_windows { rollbacks = n } }, err e))

-- The commit failed: the database as it was, but the fees in the windows.
abbrev pub Lost : Ledger → Service → Service × Outcome ServiceError (Unit {0}) → Type 0
Lost l s p =
    (fw : FeeWindows) × FeesTaken s.fee_windows l.lcm fw
    × (p ≡ (record s { fee_windows = fw }, err (db_failed statement_failed)))

-- The ledger is committed to the database and its fees are in the windows; only the checkpoint that
-- follows may have failed.
abbrev pub Through :
    Toid → ℕ → TxFaults → Ledger → Service → Service × Outcome ServiceError (Unit {0}) → Type 0
Through toid retention f l s p =
    (fw : FeeWindows) × (tx : Tables) × FeesTaken s.fee_windows l.lcm fw
    × (insert_all toid f l s.db.tables ≡ some tx)
    × (p.0 ≡ record { db = committed toid retention l.lcm tx; fee_windows = fw })
    × ((p.1 ≡ ok tt) ⊎ (p.1 ≡ err (db_failed checkpoint_failed)))

module _ (toid : Toid) (retention : ℕ) (f : TxFaults) (l : Ledger) where
  commit_tx-cases :
      (tx : Tables) (fw : FeeWindows) (db : Db)
      → (commit_tx toid retention f l tx fw db
          ≡ (record { db = db; fee_windows = fw }, err (db_failed statement_failed)))
        ⊎ (commit_tx toid retention f l tx fw db
            ≡ (record { db = committed toid retention l.lcm tx; fee_windows = fw }, ok tt))
        ⊎ (commit_tx toid retention f l tx fw db ≡ (
          record { db = committed toid retention l.lcm tx; fee_windows = fw },
          err (db_failed checkpoint_failed),
        ))
  unfolding commit_tx commit
  commit_tx-cases tx fw db = ground arith

  pub ingest_ledger-no_tx :
      (s : Service)
      → f.new_tx_fails ≡ true
      → ingest_ledger toid retention f l s ≡ (s, err new_tx_failed)
  unfolding ingest_ledger
  ingest_ledger-no_tx s h = ground (arith, h)

  pub ingest_ledger-not_inserted :
      (s : Service)
      → f.new_tx_fails ≡ false
      → insert_all toid f l s.db.tables ≡ none
      → ingest_ledger toid retention f l s ≡ (s, err insert_failed)
  unfolding ingest_ledger
  ingest_ledger-not_inserted s h k = ground (arith, h, k)

  pub ingest_ledger-no_fees :
      (s : Service) {tx : Tables} {fw : FeeWindows} {e : IngestError}
      → f.new_tx_fails ≡ false
      → insert_all toid f l s.db.tables ≡ some tx
      → ingest_fees s.fee_windows l.lcm ≡ (fw, err e)
      → ingest_ledger toid retention f l s ≡ (record s { fee_windows = fw }, err (fees_failed e))
  unfolding ingest_ledger
  ingest_ledger-no_fees s h k e = ground (arith, h, k, e)

  ingest_ledger-fees :
      (s : Service) {tx : Tables} {fw : FeeWindows}
      → f.new_tx_fails ≡ false
      → insert_all toid f l s.db.tables ≡ some tx
      → ingest_fees s.fee_windows l.lcm ≡ (fw, ok tt)
      → ingest_ledger toid retention f l s ≡ commit_tx toid retention f l tx fw s.db
  unfolding ingest_ledger
  ingest_ledger-fees s h k e = ground (arith, h, k, e)

  -- the outcome of a commit, once the fees are in the windows
  committing :
      (s : Service) (tx : Tables) (fw : FeeWindows)
      → FeesTaken s.fee_windows l.lcm fw
      → insert_all toid f l s.db.tables ≡ some tx
      → Lost l s (commit_tx toid retention f l tx fw s.db)
        ⊎ Through toid retention f l s (commit_tx toid retention f l tx fw s.db)
  committing s tx fw taken inserted = elim (commit_tx-cases tx fw s.db) [
    | inl e ↦ inl (fw, taken, e)
    | inr (inl e) ↦ inr (fw, tx, taken, inserted, ap (λ p. p.0) e, inl (ap (λ p. p.1) e))
    | inr (inr e) ↦ inr (fw, tx, taken, inserted, ap (λ p. p.0) e, inr (ap (λ p. p.1) e))
  ]

  inserted-cases :
      (s : Service) (tx : Tables)
      → f.new_tx_fails ≡ false
      → insert_all toid f l s.db.tables ≡ some tx
      → AllOrNothing s.fee_windows l.lcm (ingest_fees s.fee_windows l.lcm)
      → Kept s (ingest_ledger toid retention f l s)
        ⊎ Lost l s (ingest_ledger toid retention f l s)
        ⊎ Through toid retention f l s (ingest_ledger toid retention f l s)
  inserted-cases s tx h k (inl (reads, so, cl, r, c, done)) =
      let fw : FeeWindows = (ingest_fees s.fee_windows l.lcm).0 in
      rw (ingest_ledger-fees s {tx = tx} {fw = fw} h k (λ i. (fw, done.succeeded i))) (
        inr (
          committing s tx fw
            (
              reads,
              so,
              cl,
              r,
              c,
              record {
                succeeded = refl;
                classic_holds = done.classic_holds;
                soroban_holds = done.soroban_holds;
                in_step = done.in_step;
                not_rolled_back = done.not_rolled_back;
              },
            )
            k))
  inserted-cases s tx h k (inr (same, reason)) = inl (
    fees_failed same.error,
    s.fee_windows.rollbacks + 1,
    (λ d h. cc),
    ingest_ledger-no_fees s h k (λ i. (same.same i, same.failed i)),
  )

  ingest_ledger-cases :
      (s : Service)
      → (b : Bool) → f.new_tx_fails ≡ b
      → (o : Option Tables) → insert_all toid f l s.db.tables ≡ o
      → AllOrNothing s.fee_windows l.lcm (ingest_fees s.fee_windows l.lcm)
      → Kept s (ingest_ledger toid retention f l s)
        ⊎ Lost l s (ingest_ledger toid retention f l s)
        ⊎ Through toid retention f l s (ingest_ledger toid retention f l s)
  ingest_ledger-cases s true h o k a =
      inl (new_tx_failed, s.fee_windows.rollbacks, (λ d h. cc), ingest_ledger-no_tx s h)
  ingest_ledger-cases s false h none k a =
      inl (insert_failed, s.fee_windows.rollbacks, (λ d h. cc), ingest_ledger-not_inserted s h k)
  ingest_ledger-cases s false h (some tx) k a = inserted-cases s tx h k a

pub ingest-got :
    (toid : Toid) (retention : ℕ) (get_ledger : ℕ → Option Ledger) (f : TxFaults) (sequence : ℕ)
    (l : Ledger) (s : Service)
    → get_ledger sequence ≡ some l
    → ingest toid retention get_ledger f sequence s ≡ ingest_ledger toid retention f l s
unfolding ingest
ingest-got toid retention get_ledger f sequence l s e = ground (arith, e)

-- Whatever statement fails, `ingest` does not panic, and it leaves one of three: the state as it was
-- with an error; the database as it was, an error of the commit, and the fees in the windows; or the
-- ledger in the database and in the windows, with an error only if the checkpoint failed. (The fee
-- windows are in step, and there are fewer than 2^57 fees and transactions.)
pub ingest_lem :
    (toid : Toid) (retention : ℕ) (get_ledger : ℕ → Option Ledger) (f : TxFaults) (sequence : ℕ)
    (l : Ledger) (s : Service)
    → get_ledger sequence ≡ some l
    → IsInStep s.fee_windows
    → seq l < 2 ^ 32
    → total_fees s.fee_windows (reads_of l.lcm) < 2 ^ 57
    → Kept s (ingest toid retention get_ledger f sequence s)
      ⊎ Lost l s (ingest toid retention get_ledger f sequence s)
      ⊎ Through toid retention f l s (ingest toid retention get_ledger f sequence s)
ingest_lem toid retention get_ledger f sequence l s e st word q =
    rw (ingest-got toid retention get_ledger f sequence l s e) (
      ingest_ledger-cases toid retention f l s f.new_tx_fails refl (insert_all toid f l s.db.tables)
        refl (ingest_fees-AllOrNothing s.fee_windows l.lcm st word q))
