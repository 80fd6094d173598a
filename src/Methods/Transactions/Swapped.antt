-- ===== src/Methods/Transactions/Swapped.antt =====
-- The encodings of a transaction in getTransactions, against those in getTransaction.
use stellar_stellar_rpc.Base.{◌≡◌, refl, Option, none, some, List}
use stellar_stellar_rpc.Base.Decimal.{Bytes}
use stellar_stellar_rpc.Base.Maybe.{◌>>=◌}
use mathlib.Core.Option
use stellar_stellar_rpc.Protocol.Pagination.{Format, json, empty, base64, unknown}
use stellar_stellar_rpc.Methods.Transactions.{
  Tx, Encoders, Encoding, as_json, as_xdr, transaction_to_json, jsonify_slice,
}
use stellar_stellar_rpc.Methods.Transactions.Page.{page_encoding}
use stellar_stellar_rpc.Methods.Transactions.Single.{single_encoding}

-- the fields with the envelope and the meta exchanged, in JSON
abbrev pub swapped : Encoding → Encoding
swapped (as_xdr f) = as_xdr f
swapped (as_json f) = as_json (record f { result_meta = f.envelope; envelope = f.result_meta })

-- In every format, getTransaction gives what getTransactions gives for the transaction, except that
-- in JSON the fields of the envelope and of the meta are exchanged, and fails just when it fails.
pub single_encoding-page_encoding :
    (e : Encoders) (format : Format) (tx : Tx)
    → single_encoding e format tx ≡ Option.map swapped (page_encoding e format tx)
unfolding single_encoding page_encoding
single_encoding-page_encoding e empty tx = refl
single_encoding-page_encoding e base64 tx = refl
single_encoding-page_encoding e unknown tx = refl
single_encoding-page_encoding e json tx =
    by_parts (transaction_to_json e tx) (jsonify_slice e tx.events)
  where
    by_parts :
        (o : Option (Bytes × Bytes × Bytes)) (evs : Option (List Bytes))
        → (o >>= λ (result, envelope, meta). evs >>= λ events. some (
            as_json (record {
              result = result;
              result_meta = meta;
              envelope = envelope;
              diagnostic_events = events;
            })))
          ≡ Option.map swapped (
              o >>= λ (result, envelope, meta). evs >>= λ events. some (
                as_json (record {
                  result = result;
                  result_meta = envelope;
                  envelope = meta;
                  diagnostic_events = events;
                })))
    by_parts none evs = refl
    by_parts (some p) none = refl
    by_parts (some p) (some events) = refl
