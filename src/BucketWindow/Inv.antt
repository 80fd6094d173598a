-- ===== src/BucketWindow/Inv.antt =====
-- The representation invariant of a bucket window and the list of ledgers that it stands for.
use stellar_stellar_rpc.Base.{ℕ, ◌^◌, ◌≤◌, ◌<◌, ◌≡◌, refl, List, [], arith, length}
use stellar_stellar_rpc.Base.Rotation.{rotate}
use stellar_stellar_rpc.BucketWindow.{LedgerBucket, LedgerBucketWindow, new_ledger_bucket_window}
use stellar_stellar_rpc.BucketWindow.History.{IsContiguous}

module _ {A : Type 0} where
  -- the ledgers of the window, oldest first
  abbrev pub contents : LedgerBucketWindow A → List (LedgerBucket A)
  contents w = rotate w.start w.buckets

  -- Beyond a capacity of 2^31 the index `start + i` of `Get` could wrap around.
  pub record IsValid (w : LedgerBucketWindow A) : Type 0 where
    pub cap_pos : 0 < w.cap
    pub cap_small : w.cap ≤ 2 ^ 31
    pub len_in : length w.buckets ≤ w.cap
    pub start_in : w.start < w.cap
    pub unwrapped : length w.buckets < w.cap → w.start ≡ 0
    pub contiguous : IsContiguous (contents w)

  -- A new window is valid and empty, for a retention window from 1 to 2^31.
  pub new_ledger_bucket_window-IsValid :
      (n : ℕ)
      → 0 < n
      → n ≤ 2 ^ 31
      → IsValid (new_ledger_bucket_window n) × (contents (new_ledger_bucket_window n) ≡ [])
  unfolding new_ledger_bucket_window
  new_ledger_bucket_window-IsValid n p q = (
    record {
      cap_pos = p;
      cap_small = q;
      len_in = omega arith;
      start_in = p;
      unwrapped = λ _. refl;
      contiguous = tt;
    },
    refl,
  )
