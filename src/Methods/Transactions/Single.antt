-- ===== src/Methods/Transactions/Single.antt =====
-- cmd/stellar-rpc/internal/methods/get_transaction.go. `decode_hash` is hex.Decode, `none` for an error.
use stellar_stellar_rpc.Base.{
  ℕ, ◌/◌, Option, none, some, Bool, not, ◌==◌, if◌then◌else◌, length, Outcome, ok, err,
}
use stellar_stellar_rpc.Base.Decimal.{Bytes}
use stellar_stellar_rpc.Base.Maybe.{◌>>=◌}
use stellar_stellar_rpc.BucketWindow.{LedgerInfo, LedgerRange}
use stellar_stellar_rpc.Protocol.Pagination.{Format, json, empty, base64, unknown, is_valid_format}
use stellar_stellar_rpc.Methods.GetLedgers.{Code, internal_error, invalid_params}
use stellar_stellar_rpc.Methods.Transactions.{
  Tx, Encoders, Encoding, as_json, transaction_to_json, jsonify_slice, xdr_fields, Status,
  status_of, not_found,
}

-- what the reader of the database gives
pub data Found : Type 0 where
  tx : Tx → Found
  no_transaction failed_read : Found

pub record GetTransactionRequest : Type 0 where
  pub hash : Bytes
  pub format : Format

-- the parts of a response for a transaction that is there
pub record FoundTx : Type 0 where
  pub application_order : ℕ
  pub fee_bump : Bool
  pub ledger : LedgerInfo
  pub encoding : Encoding

pub record GetTransactionResponse : Type 0 where
  pub range : LedgerRange
  pub transaction_hash : Bytes
  pub status : Status
  pub details : Option FoundTx

-- the fields by the format
unfoldable pub single_encoding : Encoders → Format → Tx → Option Encoding
single_encoding e json t = transaction_to_json e t >>= λ (result, envelope, meta).
    jsonify_slice e t.events >>= λ events. some (
      as_json (record {
        result = result;
        result_meta = meta;
        envelope = envelope;
        diagnostic_events = events;
      }))
single_encoding e empty t = some (xdr_fields e t)
single_encoding e base64 t = some (xdr_fields e t)
single_encoding e unknown t = some (xdr_fields e t)

unfoldable pub respond :
    Encoders → GetTransactionRequest → LedgerRange → Found → Outcome Code GetTransactionResponse
unfolding single_encoding
respond e req range no_transaction =
    ok (record { range = range; transaction_hash = req.hash; status = not_found; details = none })
respond e req range failed_read = err internal_error
respond e req range (tx t) = elim (single_encoding e req.format t) [
  | none ↦ err internal_error
  | some encoding ↦ ok (record {
    range = range;
    transaction_hash = req.hash;
    status = status_of t.successful;
    details = some (record {
      application_order = t.application_order;
      fee_bump = t.fee_bump;
      ledger = t.ledger;
      encoding = encoding;
    });
  })
]

-- `GetTransaction`; the range of ledgers is read before the transaction
unfoldable pub get_transaction :
    (decode_hash : Bytes → Option Bytes)
    → Encoders
    → (range : Option LedgerRange) → (reader : Bytes → Found) → GetTransactionRequest
    → Outcome Code GetTransactionResponse
unfolding respond
get_transaction decode_hash e range reader req = elim (is_valid_format req.format) [
  | some _ ↦ err invalid_params
  | none ↦
      if not (length req.hash / 2 == 32) then err invalid_params else elim (decode_hash req.hash) [
        | none ↦ err invalid_params
        | some hash ↦ elim range [
          | none ↦ err internal_error
          | some r ↦ respond e req r (reader hash)
        ]
      ]
]
