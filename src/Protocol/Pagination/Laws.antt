-- ===== src/Protocol/Pagination/Laws.antt =====
-- Which requests are valid, as the comment of `ValidatePagination` lists it.
use stellar_stellar_rpc.Base.{ℕ, ◌≤◌, ◌≡◌, ◌≢◌, ◌↔◌, Option, none, some, [], ◌∷◌, arith}
use stellar_stellar_rpc.Base.Decimal.{Bytes}
use stellar_stellar_rpc.BucketWindow.{LedgerSeqRange}
use stellar_stellar_rpc.Protocol.Pagination.{
  unknown, LedgerPaginationOptions, Request, validate_pagination, validate,
}

abbrev pub IsWithin : ℕ → LedgerSeqRange → Type 0
IsWithin n r = (r.first_ledger ≤ n) × (n ≤ r.last_ledger)

-- With a cursor the start ledger is not set; without one it is in the range of known ledgers.
abbrev pub IsPage : ℕ → Bytes → LedgerSeqRange → Type 0
IsPage start [] r = IsWithin start r
IsPage start (c ∷ s) r = start ≡ 0

abbrev pub IsPagination : ℕ → Option LedgerPaginationOptions → ℕ → LedgerSeqRange → Type 0
IsPagination start none max_limit r = IsWithin start r
IsPagination start (some p) max_limit r = IsPage start p.cursor r × (p.limit ≤ max_limit)

IsPagination-valid :
    (start : ℕ) (p : Option LedgerPaginationOptions) (max_limit : ℕ) (r : LedgerSeqRange)
    → IsPagination start p max_limit r
    → validate_pagination start p max_limit r ≡ none
unfolding validate_pagination
IsPagination-valid start none max_limit r h = ground arith
IsPagination-valid start (some p) max_limit r h = with_cursor p.cursor h
  where
    with_cursor :
        (c : Bytes)
        → IsPage start c r × (p.limit ≤ max_limit)
        → validate_pagination start (some (record { cursor = c; limit = p.limit })) max_limit r
          ≡ none
    with_cursor [] h = ground arith
    with_cursor (c ∷ s) h = ground arith

valid-IsPagination :
    (start : ℕ) (p : Option LedgerPaginationOptions) (max_limit : ℕ) (r : LedgerSeqRange)
    → validate_pagination start p max_limit r ≡ none
    → IsPagination start p max_limit r
unfolding validate_pagination
valid-IsPagination start none max_limit r h = ground arith
valid-IsPagination start (some p) max_limit r h = with_cursor p.cursor h
  where
    with_cursor :
        (c : Bytes)
        → validate_pagination start (some (record { cursor = c; limit = p.limit })) max_limit r
          ≡ none
        → IsPage start c r × (p.limit ≤ max_limit)
    with_cursor [] h = ground arith
    with_cursor (c ∷ s) h = ground arith

-- A request is accepted just when its pagination is as documented and its format is known.
pub validate_lem :
    (req : Request) (max_limit : ℕ) (r : LedgerSeqRange)
    → (validate req max_limit r ≡ [])
      ↔ (IsPagination req.start_ledger req.pagination max_limit r × (req.format ≢ unknown))
unfolding validate
validate_lem req max_limit r = (
  λ h. ground (arith, valid-IsPagination req.start_ledger req.pagination max_limit r),
  λ h. ground (arith, IsPagination-valid req.start_ledger req.pagination max_limit r),
)
