-- ===== src/FeeWindow/Append.antt =====
-- `FeeWindow` and `AppendLedgerFees`: the window of the fees of each ledger, and the distribution
-- that is computed anew when a ledger comes.
pub mod Current
use stellar_stellar_rpc.Base.{
  ℕ, zero, suc, ◌+◌, Option, none, some, List, [], ◌++◌, Outcome, ok, err, panic,
}
use stellar_stellar_rpc.BucketWindow
use stellar_stellar_rpc.BucketWindow.{LedgerBucket, LedgerBucketWindow, AppendError, len, get}
use stellar_stellar_rpc.FeeWindow.Distribution.{
  FeeDistribution, zero_distribution, compute_fee_distribution,
}

pub record FeeWindow : Type 0 where
  pub fees_per_ledger : LedgerBucketWindow (List ℕ)
  pub distribution : FeeDistribution

unfoldable pub new_fee_window : ℕ → FeeWindow
new_fee_window retention_window = record {
  fees_per_ledger = BucketWindow.new_ledger_bucket_window retention_window;
  distribution = zero_distribution;
}

-- the loop over the buckets, `rounds` rounds from index `i` on
unfoldable pub gather : LedgerBucketWindow (List ℕ) → ℕ → ℕ → List ℕ → Option (List ℕ)
gather w zero i all_fees = some all_fees
gather w (suc rounds) i all_fees = elim (get w i) [
  | ok b ↦ gather w rounds (i + 1) (all_fees ++ b.bucket_content)
  | _ ↦ none
]

-- the rest of the method, once the window has taken the fees
unfoldable pub refresh :
    LedgerBucketWindow (List ℕ) → FeeWindow → FeeWindow × Outcome AppendError (Unit {0})
refresh w fw = elim (gather w (len w) 0 []) [
  | none ↦ (record fw { fees_per_ledger = w }, panic)
  | some all_fees ↦ elim (compute_fee_distribution all_fees (len w)) [
    | none ↦ (record fw { fees_per_ledger = w }, panic)
    | some d ↦ (record { fees_per_ledger = w; distribution = d }, ok tt)
  ]
]

unfoldable pub append_ledger_fees :
    FeeWindow → LedgerBucket (List ℕ) → FeeWindow × Outcome AppendError (Unit {0})
append_ledger_fees fw fees =
    let (w, r) = BucketWindow.append fw.fees_per_ledger fees in
    elim r [
      | err e ↦ (record fw { fees_per_ledger = w }, err e)
      | panic ↦ (record fw { fees_per_ledger = w }, panic)
      | ok _ ↦ refresh w fw
    ]

unfoldable pub get_fee_distribution : FeeWindow → FeeDistribution
get_fee_distribution fw = fw.distribution
