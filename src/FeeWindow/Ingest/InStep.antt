-- ===== src/FeeWindow/Ingest/InStep.antt =====
-- What it is for the classic and the Soroban window to be in step.
use stellar_stellar_rpc.Base.{
  ℕ, suc, ◌+◌, ◌^◌, ◌≤◌, ◌<◌, ◌≡◌, refl, ap, List, [], ◌∷◌, ◌++◌, Option, none, some, length,
  Outcome, ok, err, arith, u32, length-append,
}
use native.Mathlib.Decide.{ℕ_discrete}
use stellar_stellar_rpc.BucketWindow.{LedgerBucket, AppendError}
use stellar_stellar_rpc.BucketWindow.History.{Succeeds, last_seq, kept}
use stellar_stellar_rpc.FeeWindow.Append.{FeeWindow, append_ledger_fees}
use stellar_stellar_rpc.FeeWindow.Append.Current.{fees_of, held, kept_with, IsCurrent}
use stellar_stellar_rpc.FeeWindow.Ingest.{
  LedgerCloseMeta, IngestError, FeeWindows, Read, transaction, read_error, bucket, fee_of, Fee,
  skipped, soroban, classic, collect, append_both, append_failed, fail,
}

-- the sequence of the newest ledger that is held
abbrev pub newest_seq : List (LedgerBucket (List ℕ)) → Option ℕ
newest_seq [] = none
newest_seq (x ∷ xs) = some (last_seq x.ledger_seq xs)

pub record IsInStep (fw : FeeWindows) : Type 0 where
  pub classic : IsCurrent fw.classic_fee_window
  pub soroban : IsCurrent fw.soroban_inclusion_fee_window
  pub same :
      newest_seq (held fw.classic_fee_window) ≡ newest_seq (held fw.soroban_inclusion_fee_window)

-- Whether a ledger succeeds those held depends on the newest sequence alone.
pub Succeeds-newest :
    (xs ys : List (LedgerBucket (List ℕ))) (lcm : LedgerCloseMeta) (f g : List ℕ)
    → newest_seq xs ≡ newest_seq ys
    → Succeeds xs (bucket lcm f)
    → Succeeds ys (bucket lcm g)
Succeeds-newest [] [] lcm f g e s = s
Succeeds-newest [] (y ∷ ys) lcm f g e s = cc
Succeeds-newest (x ∷ xs) [] lcm f g e s = cc
Succeeds-newest (x ∷ xs) (y ∷ ys) lcm f g e s = ground arith

pub dec_Succeeds :
    (xs : List (LedgerBucket (List ℕ))) (b : LedgerBucket (List ℕ))
    → b.ledger_seq < 2 ^ 32
    → Dec (Succeeds xs b)
dec_Succeeds [] b h = yes h
dec_Succeeds (x ∷ xs) b h = ℕ_discrete b.ledger_seq (u32 (last_seq x.ledger_seq xs + 1))

last_seq-append :
    (s : ℕ) (xs : List (LedgerBucket (List ℕ))) (b : LedgerBucket (List ℕ))
    → last_seq s (xs ++ (b ∷ [])) ≡ b.ledger_seq
last_seq-append s [] b = refl
last_seq-append s (x ∷ xs) b = last_seq-append x.ledger_seq xs b

pub newest_seq-append :
    (xs : List (LedgerBucket (List ℕ))) (b : LedgerBucket (List ℕ))
    → newest_seq (xs ++ (b ∷ [])) ≡ some b.ledger_seq
newest_seq-append [] b = refl
newest_seq-append (x ∷ xs) b = ap some (last_seq-append x.ledger_seq xs b)

-- Each transaction adds at most one fee.
pub collect-length :
    (reads : List Read) (s c : List ℕ) {p : List ℕ × List ℕ}
    → collect reads s c ≡ some p
    → length p.0 + length p.1 ≤ length reads + length s + length c
unfolding collect
collect-length [] s c e = ground arith
collect-length (read_error ∷ reads) s c e = cc
collect-length (transaction tx ∷ reads) s c {p} e =
    split (fee_of tx) e (collect-length reads s c) (λ fee. collect-length reads (s ++ (fee ∷ [])) c)
      (λ fee. collect-length reads s (c ++ (fee ∷ [])))
  where
    split :
        (f : Fee)
        → elim f [
          | skipped ↦ collect reads s c
          | soroban fee ↦ collect reads (s ++ (fee ∷ [])) c
          | classic fee ↦ collect reads s (c ++ (fee ∷ []))
        ]
          ≡ some p
        → (collect reads s c ≡ some p
            → length p.0 + length p.1 ≤ length reads + length s + length c)
        → ((fee : ℕ)
            → collect reads (s ++ (fee ∷ [])) c ≡ some p
            → length p.0 + length p.1 ≤ length reads + length (s ++ (fee ∷ [])) + length c)
        → ((fee : ℕ)
            → collect reads s (c ++ (fee ∷ [])) ≡ some p
            → length p.0 + length p.1 ≤ length reads + length s + length (c ++ (fee ∷ [])))
        → length p.0 + length p.1 ≤ suc (length reads) + length s + length c
    split skipped e a b d = omega (arith, a e)
    split (soroban fee) e a b d = omega (arith, b fee e, length-append s (fee ∷ []))
    split (classic fee) e a b d = omega (arith, d fee e, length-append c (fee ∷ []))

fees_of-append :
    (xs : List (LedgerBucket (List ℕ))) (b : LedgerBucket (List ℕ))
    → length (fees_of (xs ++ (b ∷ []))) ≡ length (fees_of xs) + length b.bucket_content
fees_of-append [] b = omega (arith, length-append b.bucket_content [])
fees_of-append (x ∷ xs) b = omega (
  arith,
  length-append x.bucket_content (fees_of (xs ++ (b ∷ []))),
  length-append x.bucket_content (fees_of xs),
  fees_of-append xs b,
)

fees_of-kept :
    (cap : ℕ) (xs : List (LedgerBucket (List ℕ)))
    → length (fees_of (kept cap xs)) ≤ length (fees_of xs)
fees_of-kept cap [] = ground arith
fees_of-kept cap (x ∷ xs) = ground (arith, length-append x.bucket_content (fees_of xs))

pub fees_of-kept_with :
    (fw : FeeWindow) (b : LedgerBucket (List ℕ))
    → length (fees_of (kept_with fw b)) ≤ length (fees_of (held fw)) + length b.bucket_content
fees_of-kept_with fw b = omega (
  arith,
  fees_of-append (kept fw.fees_per_ledger.cap (held fw)) b,
  fees_of-kept fw.fees_per_ledger.cap (held fw),
)

-- `IngestFees` has put the fees of the ledger into both windows.
pub record Ingested (fw : FeeWindows) (lcm : LedgerCloseMeta) (s c : List ℕ)
    (p : FeeWindows × Outcome IngestError (Unit {0})) : Type 0 where
  pub succeeded : p.1 ≡ ok tt
  pub classic_holds : held p.0.classic_fee_window ≡ kept_with fw.classic_fee_window (bucket lcm c)
  pub soroban_holds :
      held p.0.soroban_inclusion_fee_window
      ≡ kept_with fw.soroban_inclusion_fee_window (bucket lcm s)
  pub in_step : IsInStep p.0
  pub not_rolled_back : p.0.rollbacks ≡ fw.rollbacks

-- `IngestFees` has failed with one rollback, and left both windows alone.
pub record Unchanged (fw : FeeWindows) (p : FeeWindows × Outcome IngestError (Unit {0}))
    : Type 0 where
  pub error : IngestError
  pub failed : p.1 ≡ err error
  pub same : p.0 ≡ record fw { rollbacks = fw.rollbacks + 1 }

-- the fees of both windows, with those that at most `n` transactions add
abbrev pub total_fees : FeeWindows → ℕ → ℕ
total_fees fw n =
    length (fees_of (held fw.classic_fee_window))
    + length (fees_of (held fw.soroban_inclusion_fee_window))
    + n

pub append_both-err :
    (fw : FeeWindows) (lcm : LedgerCloseMeta) (s c : List ℕ) {e : AppendError}
    → append_ledger_fees fw.classic_fee_window (bucket lcm c) ≡ (fw.classic_fee_window, err e)
    → append_both fw lcm s c ≡ fail fw (append_failed e)
unfolding append_both
append_both-err fw lcm s c h = ground arith

pub append_both-ok :
    (fw : FeeWindows) (lcm : LedgerCloseMeta) (s c : List ℕ)
    → (append_ledger_fees fw.classic_fee_window (bucket lcm c)).1 ≡ ok tt
    → (append_ledger_fees fw.soroban_inclusion_fee_window (bucket lcm s)).1 ≡ ok tt
    → append_both fw lcm s c ≡ (
      record fw {
        classic_fee_window = (append_ledger_fees fw.classic_fee_window (bucket lcm c)).0;
        soroban_inclusion_fee_window =
            (append_ledger_fees fw.soroban_inclusion_fee_window (bucket lcm s)).0;
      },
      ok tt,
    )
unfolding append_both
append_both-ok fw lcm s c h k = ground arith
