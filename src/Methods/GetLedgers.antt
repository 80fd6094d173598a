-- ===== src/Methods/GetLedgers.antt =====
-- cmd/stellar-rpc/internal/methods/get_ledgers.go. The datastore reader is an argument, `none` when
-- it is not configured; so is the test whether a ledger can be encoded in the format, which
-- `parseLedgerInfo` leaves to the Go SDK. Of a LedgerInfo the sequence and the close time are
-- modelled.
pub mod Segments
pub mod Pages
mod Tests
use stellar_stellar_rpc.Base.{
  ℕ, zero, suc, ◌+◌, ◌-◌, ◌^◌, Option, none, some, List, [], ◌∷◌, ◌++◌, Outcome, ok, err, panic,
  Bool, true, false, not, u32, ltb, leb, ◌==◌, if◌then◌else◌, last?,
}
use stellar_stellar_rpc.Base.Maybe.{◌>>=◌}
use stellar_stellar_rpc.Base.Decimal.{Bytes, parse_uint}
use stellar_stellar_rpc.BucketWindow.{LedgerSeqRange, LedgerInfo, LedgerRange, to_ledger_seq_range}
use stellar_stellar_rpc.Protocol.Pagination.{Format, Request, is_ledger_within_range, validate}
use stellar_stellar_rpc.Db.Store.{Ledger, seq, Db, DbError}
use stellar_stellar_rpc.Db.Reader.{get_ledger_range, batch_get_ledgers, info_of}

-- `none` is an error.
pub record Datastore : Type 0 where
  pub get_available_ledger_range : Option LedgerSeqRange
  pub get_ledgers : ℕ → ℕ → Option (List Ledger)

-- `row_order` is the order in which the database gives the rows of a query that asks for none.
pub record LedgersHandler : Type 0 where
  pub max_limit : ℕ
  pub default_limit : ℕ
  pub datastore_ledger_reader : Option Datastore
  pub row_order : List Ledger → List Ledger
  pub encodes : Format → Ledger → Bool

pub data Code : Type 0 where
  internal_error invalid_request invalid_params : Code

pub record GetLedgersResponse : Type 0 where
  pub ledgers : List LedgerInfo
  pub latest_ledger : LedgerInfo
  pub oldest_ledger : LedgerInfo
  pub cursor : ℕ

-- `parseCursor`
unfoldable pub parse_ledger_cursor : Bytes → LedgerSeqRange → Option ℕ
parse_ledger_cursor cursor r = parse_uint (2 ^ 32) cursor >>= λ n.
    if not (is_ledger_within_range (u32 (n + 1)) r) then none else some (u32 (n + 1))

page_limit : LedgersHandler → ℕ → ℕ
page_limit h limit = if limit == 0 then h.default_limit else limit

page_start : Request → Bytes → LedgerSeqRange → Option ℕ
unfolding parse_ledger_cursor
page_start req [] r = some req.start_ledger
page_start req (c ∷ s) r = parse_ledger_cursor (c ∷ s) r

-- `initializePagination`: the start and the limit
unfoldable pub initialize_pagination : LedgersHandler → Request → LedgerSeqRange → Option (ℕ × ℕ)
unfolding page_limit page_start
initialize_pagination h req r = elim req.pagination [
  | none ↦ some (req.start_ledger, h.default_limit)
  | some p ↦ page_start req p.cursor r >>= λ start. some (start, page_limit h p.limit)
]

abbrev pub fetch_from_local_db : LedgersHandler → Db → ℕ → ℕ → Outcome Code (List Ledger)
fetch_from_local_db h db start end =
    elim (batch_get_ledgers h.row_order db.tables.ledgers start end) [
      | ok ls ↦ ok ls
      | err e ↦ err internal_error
      | panic ↦ panic
    ]

abbrev pub fetch_from_datastore : LedgersHandler → ℕ → ℕ → Outcome Code (List Ledger)
fetch_from_datastore h start end = elim h.datastore_ledger_reader [
  | none ↦ err invalid_params
  | some d ↦ elim (d.get_ledgers start end) [ none ↦ err internal_error | some ls ↦ ok ls ]
]

-- the three cases of `fetchLedgers`
unfoldable pub fetch_raw : LedgersHandler → Db → LedgerSeqRange → ℕ → ℕ → Outcome Code (List Ledger)
fetch_raw h db local start end =
    if leb local.first_ledger start
    then fetch_from_local_db h db start end
    else if ltb end local.first_ledger
    then fetch_from_datastore h start end
    else elim (fetch_from_datastore h start (u32 (local.first_ledger + 2 ^ 32 - 1))) [
      | err e ↦ err e
      | panic ↦ panic
      | ok remote ↦ elim (fetch_from_local_db h db local.first_ledger end) [
        | err e ↦ err e
        | panic ↦ panic
        | ok here ↦ ok (remote ++ here)
      ]
    ]

-- the loop at its end: no more than `limit` ledgers, each of them encoded
unfoldable pub parse_ledger_infos :
    (Ledger → Bool) → ℕ → List Ledger → Outcome Code (List LedgerInfo)
parse_ledger_infos encodes zero ls = ok []
parse_ledger_infos encodes (suc limit) [] = ok []
parse_ledger_infos encodes (suc limit) (l ∷ ls) =
    let rest = parse_ledger_infos encodes limit ls in
    if not (encodes l)
    then err internal_error
    else elim rest [ ok is ↦ ok (info_of l ∷ is) | err e ↦ err e | panic ↦ panic ]

-- `fetchLedgers`; `limit` is end - start + 1 in uint32
unfoldable pub fetch_ledgers :
    LedgersHandler → Db → LedgerSeqRange → Format → ℕ → ℕ → Outcome Code (List LedgerInfo)
fetch_ledgers h db local format start end = elim (fetch_raw h db local start end) [
  | err e ↦ err e
  | panic ↦ panic
  | ok ls ↦ parse_ledger_infos (h.encodes format) (u32 (end + 2 ^ 32 + 1 - start)) ls
]

-- the range with the ledgers of the datastore, if it tells them
unfoldable pub available_range : LedgersHandler → LedgerSeqRange → LedgerSeqRange
available_range h local = elim (h.datastore_ledger_reader >>= λ d. d.get_available_ledger_range) [
  | none ↦ local
  | some r ↦ record local {
    first_ledger =
        if ltb r.first_ledger local.first_ledger then r.first_ledger else local.first_ledger;
  }
]

-- the response with the ledgers of a page, whose last one is the cursor
abbrev respond : LedgerRange → List LedgerInfo → Outcome Code GetLedgersResponse
respond range ledgers = elim (last? ledgers) [
  | none ↦ panic
  | some l ↦ ok (record {
    ledgers = ledgers;
    latest_ledger = range.last_ledger;
    oldest_ledger = range.first_ledger;
    cursor = l.sequence;
  })
]

-- `getLedgers`, once the range of the database is read
unfoldable pub get_page :
    LedgersHandler → Db → Request → LedgerRange → Outcome Code GetLedgersResponse
get_page h db req range =
    let available = available_range h (to_ledger_seq_range range) in
    elim (validate req h.max_limit available) [
      | _ ∷ _ ↦ err invalid_request
      | [] ↦ elim (initialize_pagination h req available) [
        | none ↦ err invalid_params
        | some (start, limit) ↦
            elim (fetch_ledgers h db (to_ledger_seq_range range) req.format start
              (u32 (start + limit + 2 ^ 32 - 1))) [
                | err e ↦ err e
                | panic ↦ panic
                | ok ledgers ↦ respond range ledgers
              ]
      ]
    ]

unfoldable pub get_ledgers : LedgersHandler → Db → Request → Outcome Code GetLedgersResponse
unfolding get_page
get_ledgers h db req = elim (get_ledger_range db) [
  | err e ↦ err internal_error
  | panic ↦ panic
  | ok range ↦ get_page h db req range
]
