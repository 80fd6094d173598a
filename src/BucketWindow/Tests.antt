-- ===== src/BucketWindow/Tests.antt =====
-- Runs of the bucket window, and the theorems at concrete windows.
use stellar_stellar_rpc.Base.{ℕ, ◌+◌, ◌≡◌, refl, some, [], ◌∷◌, ok, err, panic, arith, pos}
use stellar_stellar_rpc.BucketWindow.{
  LedgerBucket, LedgerBucketWindow, not_contiguous, append, get, get_ledger_range,
  new_ledger_bucket_window, place,
}
use stellar_stellar_rpc.BucketWindow.History
use stellar_stellar_rpc.BucketWindow.History.{head?}
use stellar_stellar_rpc.BucketWindow.Inv.{IsValid, contents}
use stellar_stellar_rpc.BucketWindow.Refine.{view, append_refines}
use stellar_stellar_rpc.BucketWindow.Access.{
  checked, get_refines, range_of, get_ledger_range_refines,
}
use stellar_stellar_rpc.BucketWindow.Appends.{append_all, append_all-newest}

abbrev ledger : ℕ → LedgerBucket ℕ
ledger n = record { ledger_seq = n; ledger_close_timestamp = pos (n + 100); bucket_content = n }

-- ledgers 5, 6, 7 in a full window whose oldest bucket stands at index 1
abbrev wrapped : LedgerBucketWindow ℕ
wrapped = record { buckets = ledger 7 ∷ ledger 5 ∷ ledger 6 ∷ []; cap = 3; start = 1 }

wrapped-IsValid : IsValid wrapped
wrapped-IsValid = omega arith

append_refines_example :
    view (append wrapped (ledger 8)) ≡ History.append 3 (contents wrapped) (ledger 8)
append_refines_example = append_refines wrapped wrapped-IsValid (ledger 8)

append_run : append wrapped (ledger 8) ≡ (
  record { buckets = ledger 7 ∷ ledger 8 ∷ ledger 6 ∷ []; cap = 3; start = 2 },
  ok (some (ledger 5)),
)
unfolding append place
append_run = refl

append_gap : (append wrapped (ledger 9)).1 ≡ err (not_contiguous 8 9)
unfolding append place
append_gap = refl

-- A window for no ledgers panics at the first append.
append_no_room : (append (new_ledger_bucket_window 0) (ledger 1)).1 ≡ panic
unfolding append place new_ledger_bucket_window
append_no_room = refl

get_refines_example : get wrapped 2 ≡ checked (some (ledger 7))
get_refines_example = get_refines wrapped wrapped-IsValid 2

get_ledger_range_refines_example :
    get_ledger_range wrapped ≡ ok (range_of (some (ledger 5)) (some (ledger 7)))
get_ledger_range_refines_example = get_ledger_range_refines wrapped wrapped-IsValid

append_all-newest_example :
    (w' : LedgerBucketWindow ℕ) × (append_all wrapped (ledger 8 ∷ ledger 9 ∷ []) ≡ some w')
    × IsValid w'
    × (w'.cap ≡ 3)
    × (contents w' ≡ ledger 7 ∷ ledger 8 ∷ ledger 9 ∷ [])
append_all-newest_example =
    append_all-newest (ledger 8 ∷ ledger 9 ∷ []) wrapped wrapped-IsValid (omega arith)
