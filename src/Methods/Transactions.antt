-- ===== src/Methods/Transactions.antt =====
-- A transaction as getTransaction and getTransactions give it: `ParseTransaction` of
-- cmd/stellar-rpc/internal/db/transaction.go, `transactionToJSON` of methods/json.go and the fields of
-- protocol/get_transactions.go. The encodings to JSON and base64 are a parameter, `none` for an error.
pub mod Page
pub mod Single
pub mod InLedger
pub mod NextLedger
pub mod Pages
pub mod Swapped
mod Tests
use stellar_stellar_rpc.Base.{ℕ, Option, none, some, List, [], ◌∷◌, map, Bool, true, false, ℤ}
use stellar_stellar_rpc.Base.Decimal.{Bytes}
use stellar_stellar_rpc.Base.Maybe.{◌>>=◌}
use stellar_stellar_rpc.BucketWindow.{LedgerInfo}
use stellar_stellar_rpc.Protocol.Pagination.{Format, json, empty, base64, unknown}

-- What the code reads of an ingest.LedgerTransaction: the XDR forms of its parts, `none` where they do
-- not marshal, and those of its merged events, `none` when these cannot be read.
pub record IngestTx : Type 0 where
  pub index : ℕ
  pub hash_string : Bytes
  pub is_fee_bump : Bool
  pub successful : Bool
  pub result : Option Bytes
  pub meta : Option Bytes
  pub envelope : Option Bytes
  pub events : Option (List (Option Bytes))

-- db.Transaction
pub record Tx : Type 0 where
  pub transaction_hash : Bytes
  pub result : Bytes
  pub meta : Bytes
  pub envelope : Bytes
  pub events : List Bytes
  pub fee_bump : Bool
  pub application_order : ℕ
  pub successful : Bool
  pub ledger : LedgerInfo

unfoldable pub all_some : List (Option Bytes) → Option (List Bytes)
all_some [] = some []
all_some (o ∷ os) = let rest = all_some os in o >>= λ b. rest >>= λ bs. some (b ∷ bs)

-- `ParseTransaction`
unfoldable pub parse_transaction : LedgerInfo → IngestTx → Option Tx
unfolding all_some
parse_transaction ledger t = t.result >>= λ result. t.meta >>= λ meta. t.envelope >>= λ envelope.
    t.events >>= λ all_events. all_some all_events >>= λ events. some (record {
      transaction_hash = t.hash_string;
      result = result;
      meta = meta;
      envelope = envelope;
      events = events;
      fee_bump = t.is_fee_bump;
      application_order = t.index;
      successful = t.successful;
      ledger = ledger;
    })

pub record Encoders : Type 0 where
  pub result_json : Bytes → Option Bytes
  pub envelope_json : Bytes → Option Bytes
  pub meta_json : Bytes → Option Bytes
  pub event_json : Bytes → Option Bytes
  pub base64_string : Bytes → Bytes

-- the four fields in one of the formats
pub record Fields : Type 0 where
  pub result : Bytes
  pub result_meta : Bytes
  pub envelope : Bytes
  pub diagnostic_events : List Bytes

pub data Encoding : Type 0 where
  as_json as_xdr : Fields → Encoding

-- `transactionToJSON`: the result, the envelope and the meta
unfoldable pub transaction_to_json : Encoders → Tx → Option (Bytes × Bytes × Bytes)
transaction_to_json e tx = e.result_json tx.result >>= λ result.
    e.envelope_json tx.envelope >>= λ envelope.
    e.meta_json tx.meta >>= λ meta. some (result, envelope, meta)

-- `jsonifySlice`
unfoldable pub jsonify_slice : Encoders → List Bytes → Option (List Bytes)
jsonify_slice e [] = some []
jsonify_slice e (b ∷ bs) =
    let rest = jsonify_slice e bs in e.event_json b >>= λ j. rest >>= λ js. some (j ∷ js)

-- the default of both switches over the format
abbrev pub xdr_fields : Encoders → Tx → Encoding
xdr_fields e tx = as_xdr (record {
  result = e.base64_string tx.result;
  result_meta = e.base64_string tx.meta;
  envelope = e.base64_string tx.envelope;
  diagnostic_events = map e.base64_string tx.events;
})

pub data Status : Type 0 where
  success failed not_found : Status

abbrev pub status_of : Bool → Status
status_of true = success
status_of false = failed
