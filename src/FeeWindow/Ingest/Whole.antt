-- ===== src/FeeWindow/Ingest/Whole.antt =====
-- How the fees of a ledger go into both windows.
use stellar_stellar_rpc.Base.{
  ℕ, ◌+◌, ◌^◌, ◌<◌, ◌≡◌, refl, sym, ap, ◌∙◌, ◌⊎◌, inl, inr, List, [], Option, none, some, length,
  Outcome, arith,
}
use stellar_stellar_rpc.BucketWindow.History.{Succeeds, kept}
use stellar_stellar_rpc.FeeWindow.Append.{FeeWindow}
use stellar_stellar_rpc.FeeWindow.Append.Current.{
  held, append_ledger_fees-Taken, append_ledger_fees-refused,
}
use stellar_stellar_rpc.FeeWindow.Ingest.{
  LedgerCloseMeta, IngestError, FeeWindows, Read, bucket, collect, append_both, ingest_fees,
  no_reader, read_failed, append_failed, fail,
}
use stellar_stellar_rpc.FeeWindow.Ingest.InStep.{
  newest_seq, IsInStep, Succeeds-newest, dec_Succeeds, newest_seq-append, collect-length,
  fees_of-kept_with, Ingested, Unchanged, total_fees, append_both-err, append_both-ok,
}

module _ (fw : FeeWindows) (lcm : LedgerCloseMeta) (st : IsInStep fw)
    (word : lcm.ledger_sequence < 2 ^ 32) where
  pub append_both-refused :
      (s c : List ℕ)
      → ¬ Succeeds (held fw.classic_fee_window) (bucket lcm c)
      → Unchanged fw (append_both fw lcm s c)
  append_both-refused s c n =
      let (e, refused) =
        append_ledger_fees-refused fw.classic_fee_window (bucket lcm c) st.classic n word in
      rw (append_both-err fw lcm s c refused)
        (record { error = append_failed e; failed = refl; same = refl })

  append_both-taken :
      (s c : List ℕ)
      → Succeeds (held fw.classic_fee_window) (bucket lcm c)
      → total_fees fw (length s + length c) < 2 ^ 57
      → Ingested fw lcm s c (append_both fw lcm s c)
  append_both-taken s c h q =
      let fc : FeeWindow = fw.classic_fee_window in
      let fs : FeeWindow = fw.soroban_inclusion_fee_window in
      let tc =
        append_ledger_fees-Taken fc (bucket lcm c) st.classic h
          (omega (arith, fees_of-kept_with fc (bucket lcm c))) in
      let ts =
        append_ledger_fees-Taken fs (bucket lcm s) st.soroban
          (Succeeds-newest (held fc) (held fs) lcm c s st.same h)
          (omega (arith, fees_of-kept_with fs (bucket lcm s))) in
      rw (append_both-ok fw lcm s c tc.succeeded ts.succeeded) (record {
        succeeded = refl;
        classic_holds = tc.holds;
        soroban_holds = ts.holds;
        in_step = record {
          classic = tc.is_current;
          soroban = ts.is_current;
          same =
              ap newest_seq tc.holds
              ∙ newest_seq-append (kept fc.fees_per_ledger.cap (held fc)) (bucket lcm c)
              ∙ sym (
                  ap newest_seq ts.holds
                  ∙ newest_seq-append (kept fs.fees_per_ledger.cap (held fs)) (bucket lcm s));
        };
        not_rolled_back = refl;
      })

  -- The outcome of `append_both` on the fees of some reads.
  append_reads :
      (s c : List ℕ)
      → total_fees fw (length s + length c) < 2 ^ 57
      → Ingested fw lcm s c (append_both fw lcm s c)
        ⊎ (Unchanged fw (append_both fw lcm s c)
            × ¬ Succeeds (held fw.classic_fee_window) (bucket lcm []))
  append_reads s c q = elim (dec_Succeeds (held fw.classic_fee_window) (bucket lcm c) word) [
    | yes h ↦ inl (append_both-taken s c h q)
    | no n ↦ inr (
      append_both-refused s c n,
      λ h. n (
          Succeeds-newest (held fw.classic_fee_window) (held fw.classic_fee_window) lcm [] c refl
            h),
    )
  ]

-- why no fees were ingested: no reader, an error of the reader, or not the next ledger
abbrev pub Reason : FeeWindows → LedgerCloseMeta → Type 0
Reason fw lcm =
    (lcm.reader ≡ none)
    ⊎ ((reads : List Read) × (lcm.reader ≡ some reads) × (collect reads [] [] ≡ none))
    ⊎ ¬ Succeeds (held fw.classic_fee_window) (bucket lcm [])

-- All the fees that could be read are in both windows, or neither window has changed.
abbrev pub AllOrNothing :
    FeeWindows → LedgerCloseMeta → FeeWindows × Outcome IngestError (Unit {0}) → Type 0
AllOrNothing fw lcm p =
    ((reads : List Read) × (s : List ℕ) × (c : List ℕ) × (lcm.reader ≡ some reads)
      × (collect reads [] [] ≡ some (s, c))
      × Ingested fw lcm s c p)
    ⊎ (Unchanged fw p × Reason fw lcm)

abbrev pub reads_of : LedgerCloseMeta → ℕ
reads_of lcm = elim lcm.reader [ none ↦ 0 | some reads ↦ length reads ]

pub ingest_fees-none :
    (fw : FeeWindows) (lcm : LedgerCloseMeta)
    → lcm.reader ≡ none
    → ingest_fees fw lcm ≡ fail fw no_reader
unfolding ingest_fees
ingest_fees-none fw lcm r = ground arith

pub ingest_fees-unread :
    (fw : FeeWindows) (lcm : LedgerCloseMeta) {reads : List Read}
    → lcm.reader ≡ some reads
    → collect reads [] [] ≡ none
    → ingest_fees fw lcm ≡ fail fw read_failed
unfolding ingest_fees
ingest_fees-unread fw lcm r e = ground arith

pub ingest_fees-read :
    (fw : FeeWindows) (lcm : LedgerCloseMeta) {reads : List Read} {s c : List ℕ}
    → lcm.reader ≡ some reads
    → collect reads [] [] ≡ some (s, c)
    → ingest_fees fw lcm ≡ append_both fw lcm s c
unfolding ingest_fees
ingest_fees-read fw lcm r e = ground arith

module _ (fw : FeeWindows) (lcm : LedgerCloseMeta) where
  ingest_collected :
      (reads : List Read)
      → IsInStep fw
      → lcm.ledger_sequence < 2 ^ 32
      → total_fees fw (length reads) < 2 ^ 57
      → lcm.reader ≡ some reads
      → (o : Option (List ℕ × List ℕ)) → collect reads [] [] ≡ o
      → AllOrNothing fw lcm (ingest_fees fw lcm)
  ingest_collected reads st word q r none e =
      rw (ingest_fees-unread fw lcm r e)
        (inr (record { error = read_failed; failed = refl; same = refl }, inr (inl (reads, r, e))))
  ingest_collected reads st word q r (some (s, c)) e =
      rw (ingest_fees-read fw lcm r e)
        (elim (append_reads fw lcm st word s c (omega (arith, collect-length reads [] [] e))) [
          | inl done ↦ inl (reads, s, c, r, e, done)
          | inr (same, n) ↦ inr (same, inr (inr n))
        ])

  ingest_reader :
      IsInStep fw
      → lcm.ledger_sequence < 2 ^ 32
      → (o : Option (List Read)) → lcm.reader ≡ o
      → total_fees fw (reads_of lcm) < 2 ^ 57
      → AllOrNothing fw lcm (ingest_fees fw lcm)
  ingest_reader st word none r q =
      rw (ingest_fees-none fw lcm r)
        (inr (record { error = no_reader; failed = refl; same = refl }, inl r))
  ingest_reader st word (some reads) r q =
      ingest_collected reads st word (ground arith) r (collect reads [] []) refl

  -- From windows in step, `IngestFees` does not panic. Either the reader gives all transactions and
  -- the ledger succeeds the newest one: then both windows take its fees, which are those that the
  -- loop collects, stay in step, and nothing is rolled back. Or one of these fails: then it returns
  -- an error after one rollback and leaves both windows as they were. (There are fewer than 2^57
  -- fees and transactions.)
  pub ingest_fees-AllOrNothing :
      IsInStep fw
      → lcm.ledger_sequence < 2 ^ 32
      → total_fees fw (reads_of lcm) < 2 ^ 57
      → AllOrNothing fw lcm (ingest_fees fw lcm)
  ingest_fees-AllOrNothing st word q = ingest_reader st word lcm.reader refl q
