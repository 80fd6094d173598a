-- ===== src/Ingest/Retry.antt =====
-- What becomes of the retries after a commit that failed: the fee windows hold the ledger, and
-- refuse it.
use mathlib.Core.Path.{subst}
use stellar_stellar_rpc.Base.{
  ℕ, ◌+◌, ◌^◌, ◌<◌, ◌≡◌, refl, sym, ap, ◌∙◌, ◌⊎◌, inl, inr, Option, none, some, List, [], ◌∷◌,
  Outcome, ok, err, Bool, true, false, arith,
}
use stellar_stellar_rpc.BucketWindow.{LedgerBucket}
use stellar_stellar_rpc.BucketWindow.History.{Succeeds}
use stellar_stellar_rpc.FeeWindow.Append.Current.{held}
use stellar_stellar_rpc.FeeWindow.Ingest.{
  LedgerCloseMeta, FeeWindows, Read, collect, bucket, ingest_fees, no_reader, read_failed,
}
use stellar_stellar_rpc.FeeWindow.Ingest.InStep.{
  IsInStep, Unchanged, newest_seq, newest_seq-append, total_fees,
}
use stellar_stellar_rpc.FeeWindow.Ingest.Whole.{
  reads_of, append_both-refused, ingest_fees-none, ingest_fees-unread, ingest_fees-read,
}
use stellar_stellar_rpc.Protocol.Cursor.{Toid}
use stellar_stellar_rpc.Db.Store.{Ledger, seq, Tables, statement_failed, checkpoint_failed}
use stellar_stellar_rpc.Ingest.{
  Service, ServiceError, TxFaults, insert_all, ingest_ledger, ingest, fees_failed, db_failed,
  insert_failed, new_tx_failed,
}
use stellar_stellar_rpc.Ingest.Atomic.{
  FeesTaken, Kept, ingest-got, ingest_lem, ingest_ledger-no_tx, ingest_ledger-not_inserted,
  ingest_ledger-no_fees,
}

-- The fee windows are in step, and their newest ledger is `n`.
abbrev pub IsAhead : FeeWindows → ℕ → Type 0
IsAhead fw n = IsInStep fw × (newest_seq (held fw.classic_fee_window) ≡ some n)

not_Succeeds :
    (xs : List (LedgerBucket (List ℕ))) (lcm : LedgerCloseMeta) (fees : List ℕ)
    → lcm.ledger_sequence < 2 ^ 32
    → newest_seq xs ≡ some lcm.ledger_sequence
    → ¬ Succeeds xs (bucket lcm fees)
not_Succeeds [] lcm fees word e s = cc
not_Succeeds (x ∷ xs) lcm fees word e s = ground arith

-- The windows refuse the ledger that is their newest.
ingest_fees-newest :
    (fw : FeeWindows) (lcm : LedgerCloseMeta)
    → lcm.ledger_sequence < 2 ^ 32
    → IsAhead fw lcm.ledger_sequence
    → Unchanged fw (ingest_fees fw lcm)
ingest_fees-newest fw lcm word (st, newest) = by_reader lcm.reader refl
  where
    by_fees :
        (reads : List Read)
        → lcm.reader ≡ some reads
        → (o : Option (List ℕ × List ℕ)) → collect reads [] [] ≡ o
        → Unchanged fw (ingest_fees fw lcm)
    by_fees reads r none e =
        rw (ingest_fees-unread fw lcm r e)
          (record { error = read_failed; failed = refl; same = refl })
    by_fees reads r (some (s, c)) e = rw (ingest_fees-read fw lcm r e) (
        append_both-refused fw lcm st word s c
          (not_Succeeds (held fw.classic_fee_window) lcm c word newest))

    by_reader : (o : Option (List Read)) → lcm.reader ≡ o → Unchanged fw (ingest_fees fw lcm)
    by_reader none r =
        rw (ingest_fees-none fw lcm r) (record { error = no_reader; failed = refl; same = refl })
    by_reader (some reads) r = by_fees reads r (collect reads [] []) refl

ingest_ledger-newest :
    (toid : Toid) (retention : ℕ) (f : TxFaults) (l : Ledger) (s : Service)
    → Unchanged s.fee_windows (ingest_fees s.fee_windows l.lcm)
    → Kept s (ingest_ledger toid retention f l s)
ingest_ledger-newest toid retention f l s u =
    cases f.new_tx_fails refl (insert_all toid f l s.db.tables) refl
  where
    cases :
        (b : Bool)
        → f.new_tx_fails ≡ b
        → (o : Option Tables) → insert_all toid f l s.db.tables ≡ o
        → Kept s (ingest_ledger toid retention f l s)
    cases true h o k = (
      new_tx_failed,
      s.fee_windows.rollbacks,
      (λ d h. cc),
      ingest_ledger-no_tx toid retention f l s h,
    )
    cases false h none k = (
      insert_failed,
      s.fee_windows.rollbacks,
      (λ d h. cc),
      ingest_ledger-not_inserted toid retention f l s h k,
    )
    cases false h (some tx) k = (
      fees_failed u.error,
      s.fee_windows.rollbacks + 1,
      (λ d h. cc),
      ingest_ledger-no_fees toid retention f l s h k (λ i. (u.same i, u.failed i)),
    )

FeesTaken-IsAhead :
    (fw fw' : FeeWindows) (lcm : LedgerCloseMeta)
    → FeesTaken fw lcm fw'
    → IsAhead fw' lcm.ledger_sequence
FeesTaken-IsAhead fw fw' lcm (reads, s, c, r, e, done) =
    (done.in_step, ap newest_seq done.classic_holds ∙ newest_seq-append _ (bucket lcm c))

IsAhead-rollbacks :
    (fw : FeeWindows) (m n : ℕ) → IsAhead fw m → IsAhead (record fw { rollbacks = n }) m
IsAhead-rollbacks fw m n (st, e) =
    (record { classic = st.classic; soroban = st.soroban; same = st.same }, e)

err_inj : {x y : ServiceError} → Path (Outcome ServiceError (Unit {0})) (err x) (err y) → x ≡ y
err_inj h = cc

not_through :
    (r : Outcome ServiceError (Unit {0}))
    → r ≡ err (db_failed statement_failed)
    → (r ≡ ok tt) ⊎ (r ≡ err (db_failed checkpoint_failed))
    → ⊥
not_through r e (inl h) = cc
not_through r e (inr h) = cc

-- the state behind some more attempts at a ledger, each with its faults
abbrev pub retried : Toid → ℕ → (ℕ → Option Ledger) → ℕ → List TxFaults → Service → Service
retried toid retention get_ledger sequence [] s = s
retried toid retention get_ledger sequence (f ∷ fs) s =
    retried toid retention get_ledger sequence fs (ingest toid retention get_ledger f sequence s).0

module _ (toid : Toid) (retention : ℕ) (get_ledger : ℕ → Option Ledger) (sequence : ℕ) (l : Ledger)
    (got : get_ledger sequence ≡ some l) (word : seq l < 2 ^ 32) where
  retry-Kept :
      (f : TxFaults) (s : Service)
      → IsAhead s.fee_windows (seq l)
      → Kept s (ingest toid retention get_ledger f sequence s)
  retry-Kept f s a =
      rw (ingest-got toid retention get_ledger f sequence l s got)
        (ingest_ledger-newest toid retention f l s (ingest_fees-newest s.fee_windows l.lcm word a))

  retried-IsAhead :
      (fs : List TxFaults) (s : Service)
      → IsAhead s.fee_windows (seq l)
      → IsAhead (retried toid retention get_ledger sequence fs s).fee_windows (seq l)
        × ((retried toid retention get_ledger sequence fs s).db ≡ s.db)
  retried-IsAhead [] s a = (a, refl)
  retried-IsAhead (f ∷ fs) s a =
      let (e, n, other, k) = retry-Kept f s a in
      let kept : Service = record s { fee_windows = record s.fee_windows { rollbacks = n } } in
      rw (retried, k) (retried-IsAhead fs kept (IsAhead-rollbacks s.fee_windows (seq l) n a))

  lost-IsAhead :
      (f : TxFaults) (s s' : Service)
      → IsInStep s.fee_windows
      → total_fees s.fee_windows (reads_of l.lcm) < 2 ^ 57
      → ingest toid retention get_ledger f sequence s ≡ (s', err (db_failed statement_failed))
      → IsAhead s'.fee_windows (seq l) × (s'.db ≡ s.db)
  lost-IsAhead f s s' st q e =
      elim (ingest_lem toid retention get_ledger f sequence l s got st word q) [
        | inl (x, n, other, k) ↦
            absurd (other statement_failed (err_inj (sym (ap (λ p. p.1) k) ∙ ap (λ p. p.1) e)))
        | inr (inl (fw, taken, k)) ↦
            let same : record s { fee_windows = fw } ≡ s' = ap (λ p. p.0) (sym k ∙ e) in
            (
              subst (λ z. IsAhead z.fee_windows (seq l)) same
                  (FeesTaken-IsAhead s.fee_windows fw l.lcm taken),
              ap (λ z. z.db) (sym same),
            )
        | inr (inr (fw, tx, taken, k, r, o)) ↦ absurd (not_through _ (ap (λ p. p.1) e) o)
      ]

  -- Once the commit of a ledger has failed, every further attempt at it fails, even one without any
  -- fault, and the ledger never comes into the database: the fee windows have it already, and refuse
  -- it as not contiguous.
  pub retry_fails :
      (f f' : TxFaults) (fs : List TxFaults) (s s' : Service)
      → IsInStep s.fee_windows
      → total_fees s.fee_windows (reads_of l.lcm) < 2 ^ 57
      → ingest toid retention get_ledger f sequence s ≡ (s', err (db_failed statement_failed))
      → let s'' = retried toid retention get_ledger sequence fs s' in
        (e : ServiceError) × ((ingest toid retention get_ledger f' sequence s'').1 ≡ err e)
        × ((ingest toid retention get_ledger f' sequence s'').0.db ≡ s.db)
  retry_fails f f' fs s s' st q e =
      let (ahead, same) = lost-IsAhead f s s' st q e in
      let (ahead', same') = retried-IsAhead fs s' ahead in
      let (x, n, other, k) =
        retry-Kept f' (retried toid retention get_ledger sequence fs s') ahead' in
      (x, ap (λ p. p.1) k, ap (λ p. p.0.db) k ∙ same' ∙ same)
