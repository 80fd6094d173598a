-- ===== src/Protocol/Pagination.antt =====
-- protocol/get_ledgers.go, get_transactions.go and format.go: the pagination of the methods that
-- return ledgers or transactions, and its validation. `errors.Join` returns the list of the errors
-- that are not nil, nil itself when there is none.
pub mod Laws
mod Tests
use stellar_stellar_rpc.Base.{
  ℕ, ◌≤◌, ◌<◌, Option, none, some, List, [], ◌∷◌, ◌++◌, Bool, true, false, not, ◌&&◌, ltb, leb,
  ◌==◌, if◌then◌else◌,
}
use stellar_stellar_rpc.Base.Decimal.{Bytes}
use stellar_stellar_rpc.BucketWindow.{LedgerSeqRange}

-- The formats are compared as texts: the two that are named, the empty one, and any other.
pub data Format : Type 0 where
  empty base64 json unknown : Format

pub record LedgerPaginationOptions : Type 0 where
  pub cursor : Bytes
  pub limit : ℕ

-- GetLedgersRequest and GetTransactionsRequest have the same fields.
pub record Request : Type 0 where
  pub start_ledger : ℕ
  pub pagination : Option LedgerPaginationOptions
  pub format : Format

pub data RequestError : Type 0 where
  bad_page : RequestError
  both_set : RequestError
  limit_exceeded : RequestError
  bad_format : RequestError

-- `IsValidFormat`
unfoldable pub is_valid_format : Format → Option RequestError
is_valid_format unknown = some bad_format
is_valid_format _ = none

unfoldable pub is_ledger_within_range : ℕ → LedgerSeqRange → Bool
is_ledger_within_range start_ledger r =
    leb r.first_ledger start_ledger && leb start_ledger r.last_ledger

is_empty : Bytes → Bool
is_empty [] = true
is_empty (c ∷ s) = false

check_limit : ℕ → ℕ → Option RequestError
check_limit limit max_limit = if ltb max_limit limit then some limit_exceeded else none

unfoldable pub validate_pagination :
    ℕ → Option LedgerPaginationOptions → ℕ → LedgerSeqRange → Option RequestError
unfolding is_ledger_within_range is_empty check_limit
validate_pagination start_ledger none max_limit r =
    if not (is_ledger_within_range start_ledger r) then some bad_page else none
validate_pagination start_ledger (some p) max_limit r =
    if not (is_empty p.cursor)
    then if not (start_ledger == 0) then some both_set else check_limit p.limit max_limit
    else if not (is_ledger_within_range start_ledger r)
    then some bad_page
    else check_limit p.limit max_limit

-- `errors.Join` of two errors
abbrev join : Option RequestError → Option RequestError → List RequestError
join none none = []
join (some e) none = e ∷ []
join none (some e) = e ∷ []
join (some d) (some e) = d ∷ e ∷ []

-- `GetLedgersRequest.Validate`, `GetTransactionsRequest.IsValid`; the empty list is nil
unfoldable pub validate : Request → ℕ → LedgerSeqRange → List RequestError
unfolding validate_pagination is_valid_format
validate req max_limit r =
    join (validate_pagination req.start_ledger req.pagination max_limit r)
      (is_valid_format req.format)
