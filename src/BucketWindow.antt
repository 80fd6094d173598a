-- ===== src/BucketWindow.antt =====
-- cmd/stellar-rpc/internal/ledgerbucketwindow/ledgerbucketwindow.go: a circular buffer of the
-- ledgers of a retention window. A method with a pointer receiver returns the new window beside
-- its result; an index out of range is a panic.
pub mod History
pub mod Access
pub mod Appends
pub mod Inv
pub mod Refine
mod Tests
use stellar_stellar_rpc.Base.{
  ℕ, ◌+◌, ◌-◌, ◌%◌, Option, none, some, List, [], ◌∷◌, ◌++◌, Outcome, ok, err, panic, length,
  get_elem?, set, u32, ℤ, pos, ltb, leb, ◌==◌, if◌then◌else◌,
}

pub record LedgerBucket (A : Type 0) : Type 0 where
  pub ledger_seq : ℕ
  pub ledger_close_timestamp : ℤ
  pub bucket_content : A

-- `cap` is the capacity of the slice `buckets`, which `make` sets and no `append` outgrows.
pub record LedgerBucketWindow (A : Type 0) : Type 0 where
  pub buckets : List (LedgerBucket A)
  pub cap : ℕ
  pub start : ℕ

pub record LedgerInfo : Type 0 where
  pub sequence : ℕ
  pub close_time : ℤ

pub record LedgerRange : Type 0 where
  pub first_ledger : LedgerInfo
  pub last_ledger : LedgerInfo

-- protocol.LedgerSeqRange
pub record LedgerSeqRange : Type 0 where
  pub first_ledger : ℕ
  pub last_ledger : ℕ

-- The error of `Append`: the sequence it expects and the one it got.
pub data AppendError : Type 0 where
  not_contiguous : ℕ → ℕ → AppendError

abbrev pub zero_info : LedgerInfo
zero_info = record { sequence = 0; close_time = pos 0 }

abbrev pub zero_range : LedgerRange
zero_range = record { first_ledger = zero_info; last_ledger = zero_info }

unfoldable pub to_ledger_seq_range : LedgerRange → LedgerSeqRange
to_ledger_seq_range lr = record {
  first_ledger = lr.first_ledger.sequence;
  last_ledger = lr.last_ledger.sequence;
}

module _ {A : Type 0} where
  unfoldable pub new_ledger_bucket_window : ℕ → LedgerBucketWindow A
  new_ledger_bucket_window retention_window = record {
    buckets = [];
    cap = retention_window;
    start = 0;
  }

  abbrev pub len : LedgerBucketWindow A → ℕ
  len w = u32 (length w.buckets)

  -- the part of `Append` below the check of the sequence
  unfoldable pub place :
      LedgerBucketWindow A
      → LedgerBucket A
      → LedgerBucketWindow A × Outcome AppendError (Option (LedgerBucket A))
  place w bucket =
      if ltb (len w) (u32 w.cap)
      then (record w { buckets = w.buckets ++ (bucket ∷ []) }, ok none)
      else elim (get_elem? w.buckets w.start) [
        | none ↦ (w, panic)
        | some saved ↦ (
          record w { buckets = set w.buckets w.start bucket; start = u32 (w.start + 1) % len w },
          ok (some saved),
        )
      ]

  unfoldable pub append :
      LedgerBucketWindow A
      → LedgerBucket A
      → LedgerBucketWindow A × Outcome AppendError (Option (LedgerBucket A))
  append w bucket =
      if ltb 0 (len w)
      then elim (get_elem? w.buckets w.start) [
        | none ↦ (w, panic)
        | some head ↦
            let expected = u32 (head.ledger_seq + len w) in
            if expected == bucket.ledger_seq
            then place w bucket
            else (w, err (not_contiguous expected bucket.ledger_seq))
      ]
      else place w bucket

  unfoldable pub get : LedgerBucketWindow A → ℕ → Outcome AppendError (LedgerBucket A)
  get w i =
      if leb (len w) i
      then panic
      else elim (get_elem? w.buckets (u32 (w.start + i) % len w)) [ none ↦ panic | some b ↦ ok b ]

  abbrev pub info : LedgerBucket A → LedgerInfo
  info b = record { sequence = b.ledger_seq; close_time = b.ledger_close_timestamp }

  unfoldable pub get_ledger_range : LedgerBucketWindow A → Outcome AppendError LedgerRange
  get_ledger_range w = if len w == 0 then ok zero_range else elim (get w 0) [
    | ok first ↦ elim (get w (len w - 1)) [
      | ok last ↦ ok (record { first_ledger = info first; last_ledger = info last })
      | _ ↦ panic
    ]
    | _ ↦ panic
  ]
