-- ===== src/FeeWindow/Tests.antt =====
-- Runs of the fee windows, and the theorems at concrete fees.
use stellar_stellar_rpc.Base.{ℕ, ◌≡◌, refl, none, some, List, [], ◌∷◌, arith, pos}
use stellar_stellar_rpc.BucketWindow
use stellar_stellar_rpc.BucketWindow.{LedgerBucket}
use stellar_stellar_rpc.BucketWindow.History.{Succeeds}
use stellar_stellar_rpc.FeeWindow.Distribution.{FeeDistribution, compute_fee_distribution}
use stellar_stellar_rpc.FeeWindow.Distribution.Summary.{
  IsDistribution, compute_fee_distribution_lem,
}
use stellar_stellar_rpc.FeeWindow.Append.{FeeWindow, new_fee_window, append_ledger_fees}
use stellar_stellar_rpc.FeeWindow.Append.Current.{
  Taken, held, new_fee_window-IsCurrent, append_ledger_fees-Taken,
}
use stellar_stellar_rpc.FeeWindow.Ingest.{
  new_fee_windows, LedgerCloseMeta, LedgerTransaction, transaction, v3, v4, other,
  invoke_host_function, other_version, fee_of, soroban, classic, skipped, ingest_fees,
}
use stellar_stellar_rpc.FeeWindow.Ingest.InStep.{IsInStep}
use stellar_stellar_rpc.FeeWindow.Ingest.Whole.{AllOrNothing, ingest_fees-AllOrNothing}

abbrev fees : List ℕ
fees = 200 ∷ 100 ∷ 100 ∷ 900 ∷ 200 ∷ []

-- 100 and 200 are equally frequent: the mode is the smaller of the two.
distribution_run :
    compute_fee_distribution fees 2
    ≡ some (record {
      max = 900;
      min = 100;
      mode = 100;
      p10 = 100;
      p20 = 100;
      p30 = 100;
      p40 = 100;
      p50 = 200;
      p60 = 200;
      p70 = 200;
      p80 = 200;
      p90 = 900;
      p95 = 900;
      p99 = 900;
      fee_count = 5;
      ledger_count = 2;
    })
unfolding compute_fee_distribution
distribution_run = refl

compute_fee_distribution_lem_example :
    (d : FeeDistribution) × (compute_fee_distribution fees 2 ≡ some d) × IsDistribution fees 2 d
compute_fee_distribution_lem_example =
    compute_fee_distribution_lem fees 2 (omega arith) (omega arith)

abbrev ledger_fees : LedgerBucket (List ℕ)
ledger_fees = record { ledger_seq = 7; ledger_close_timestamp = pos 1; bucket_content = fees }

abbrev fresh : FeeWindow
fresh = new_fee_window 3

append_ledger_fees-Taken_example : Taken fresh ledger_fees (append_ledger_fees fresh ledger_fees)
unfolding new_fee_window BucketWindow.new_ledger_bucket_window
append_ledger_fees-Taken_example =
    append_ledger_fees-Taken fresh ledger_fees
      (new_fee_window-IsCurrent 3 (omega arith) (omega arith)).0 (omega arith) (omega arith)

-- the window with ledger 7, which refuses ledger 7 again
abbrev one_ledger : FeeWindow
one_ledger = (append_ledger_fees fresh ledger_fees).0

first-Taken : Taken fresh ledger_fees (append_ledger_fees fresh ledger_fees)
unfolding new_fee_window BucketWindow.new_ledger_bucket_window
first-Taken =
    append_ledger_fees-Taken fresh ledger_fees
      (new_fee_window-IsCurrent 3 (omega arith) (omega arith)).0 (omega arith) (omega arith)

not_next : ¬ Succeeds (held one_ledger) ledger_fees
unfolding new_fee_window BucketWindow.new_ledger_bucket_window
not_next h = absurd (omega (arith, apart (held one_ledger) first-Taken.holds h))
  where
    apart :
        (xs : List (LedgerBucket (List ℕ)))
        → xs ≡ ledger_fees ∷ []
        → Succeeds xs ledger_fees
        → ◌≡◌ {A = ℕ} 7 8
    apart xs e s = rw e at s

-- a payment of two operations, and a contract call whose resource fees are 700
abbrev payment : LedgerTransaction
payment = record { fee_charged = 201; operations = other ∷ other ∷ []; unsafe_meta = other_version }

abbrev invocation : LedgerTransaction
invocation = record {
  fee_charged = 1000;
  operations = invoke_host_function ∷ [];
  unsafe_meta =
      v4 (some (record { ext_v = 1; total_non_refundable = 300; total_refundable = 400 }));
}

fees_run :
    (fee_of payment ≡ classic 100)
    × (fee_of invocation ≡ soroban 300)
    × (fee_of (record invocation { unsafe_meta = v3 none }) ≡ skipped)
unfolding fee_of
fees_run = (refl, refl, refl)

abbrev lcm : LedgerCloseMeta
lcm = record {
  ledger_sequence = 7;
  ledger_close_time = pos 70;
  reader = some (transaction payment ∷ transaction invocation ∷ []);
}

new_fee_windows-IsInStep : IsInStep (new_fee_windows 3 2)
unfolding new_fee_windows new_fee_window BucketWindow.new_ledger_bucket_window
new_fee_windows-IsInStep = record {
  classic = (new_fee_window-IsCurrent 3 (omega arith) (omega arith)).0;
  soroban = (new_fee_window-IsCurrent 2 (omega arith) (omega arith)).0;
  same = refl;
}

ingest_fees-AllOrNothing_example :
    AllOrNothing (new_fee_windows 3 2) lcm (ingest_fees (new_fee_windows 3 2) lcm)
unfolding new_fee_windows new_fee_window BucketWindow.new_ledger_bucket_window
ingest_fees-AllOrNothing_example =
    ingest_fees-AllOrNothing (new_fee_windows 3 2) lcm new_fee_windows-IsInStep (omega arith)
      (omega arith)
