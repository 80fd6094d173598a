-- ===== src/Protocol/Pagination/Tests.antt =====
-- The validity of requests at a concrete one.
use stellar_stellar_rpc.Base.{◌≡◌, ◌≢◌, ◌↔◌, some, [], ◌∷◌}
use stellar_stellar_rpc.Protocol.Pagination.{Request, json, unknown, validate}
use stellar_stellar_rpc.Protocol.Pagination.Laws.{IsPagination, validate_lem}
use stellar_stellar_rpc.BucketWindow.{LedgerSeqRange}

abbrev request : Request
request = record {
  start_ledger = 0;
  pagination = some (record { cursor = 53 ∷ []; limit = 10 });
  format = json;
}

abbrev known : LedgerSeqRange
known = record { first_ledger = 3; last_ledger = 9 }

validate_lem_example :
    (validate request 200 known ≡ [])
    ↔ (IsPagination request.start_ledger request.pagination 200 known × (request.format ≢ unknown))
validate_lem_example = validate_lem request 200 known
