-- ===== src/Methods/Transactions/Tests.antt =====
-- A page over two ledgers of two transactions each, and a transaction in JSON.
use stellar_stellar_rpc.Base.{
  ℕ, ◌≤◌, ◌≡◌, refl, inl, inr, none, some, List, [], ◌∷◌, ◌++◌, map, true, false, ok, arith, pos,
  take, drop, ◌==◌, Bool-cases,
}
use mathlib.Core.Path.{subst}
use mathlib.Core.Option
use stellar_stellar_rpc.BucketWindow.{LedgerRange, LedgerInfo, to_ledger_seq_range}
use stellar_stellar_rpc.Protocol.Cursor.Packing
use stellar_stellar_rpc.Protocol.Pagination.{Request, base64, json, validate}
use stellar_stellar_rpc.Methods.Transactions.{
  IngestTx, Tx, parse_transaction, Encoders, xdr_fields, status_of,
}
use stellar_stellar_rpc.Methods.Transactions.Page.{
  one, LedgerTxs, LedgerTable, TransactionsHandler, TxId, TransactionInfo, transaction_info,
  page_encoding, fetch_ledger_data, initialize_pagination, get_transactions,
}
use stellar_stellar_rpc.Methods.Transactions.Single.{single_encoding}
use stellar_stellar_rpc.Methods.Transactions.InLedger.{Holds}
use stellar_stellar_rpc.Methods.Transactions.Pages.{infos_from, HoldsAll, get_transactions_lem}
use stellar_stellar_rpc.Methods.Transactions.Swapped.{swapped, single_encoding-page_encoding}

abbrev encoders : Encoders
encoders = record {
  result_json = λ b. some b;
  envelope_json = λ b. some b;
  meta_json = λ b. some b;
  event_json = λ b. some b;
  base64_string = λ b. b;
}

abbrev ingest_tx : ℕ → IngestTx
ingest_tx i = record {
  index = i;
  hash_string = i ∷ [];
  is_fee_bump = false;
  successful = true;
  result = some (1 ∷ []);
  meta = some (2 ∷ []);
  envelope = some (3 ∷ []);
  events = some [];
}

abbrev txs : ℕ → List IngestTx
txs n = ingest_tx 1 ∷ ingest_tx 2 ∷ []

abbrev info_at : ℕ → LedgerInfo
info_at n = record { sequence = n; close_time = pos n }

abbrev ledger_txs : ℕ → LedgerTxs
ledger_txs n = record {
  info = info_at n;
  count_transactions = 2;
  reader = some (record { reads = map one (txs n); seek = λ k. some (map one (drop k (txs n))) });
}

abbrev table : LedgerTable
table = record { rows = ledger_txs 5 ∷ ledger_txs 6 ∷ []; read_fails = λ n. false }

abbrev handler : TransactionsHandler
handler = record { max_limit = 10; default_limit = 3; encoders = encoders; toid = Packing.sdk }

abbrev range : LedgerRange
range = record { first_ledger = info_at 5; last_ledger = info_at 6 }

abbrev request : Request
request = record { start_ledger = 5; pagination = none; format = base64 }

abbrev tx_of : ℕ → IngestTx → Tx
tx_of n t = record {
  transaction_hash = t.hash_string;
  result = 1 ∷ [];
  meta = 2 ∷ [];
  envelope = 3 ∷ [];
  events = [];
  fee_bump = t.is_fee_bump;
  application_order = t.index;
  successful = t.successful;
  ledger = info_at n;
}

abbrev out : ℕ → IngestTx → TransactionInfo
out n t = record {
  status = status_of t.successful;
  transaction_hash = t.hash_string;
  application_order = t.index;
  fee_bump = t.is_fee_bump;
  ledger = info_at n;
  encoding = xdr_fields encoders (tx_of n t);
}

request_valid : validate request 10 (to_ledger_seq_range range) ≡ []
unfolding validate to_ledger_seq_range
request_valid = refl

first_page : initialize_pagination handler request ≡ some (record { ledger = 5; tx = 1; op = 1 }, 3)
unfolding initialize_pagination
first_page = refl

readable : (n : ℕ) → Holds handler base64 (ledger_txs n) n (txs n) (out n)
unfolding transaction_info parse_transaction
readable n = record {
  at_seq = refl;
  reader = record { reads = map one (txs n); seek = λ k. some (map one (drop k (txs n))) };
  opened = refl;
  reads = refl;
  seeks = λ k. (map one (drop k (txs n)), refl, λ h. refl);
  counted = refl;
  encodes = (refl, (refl, tt));
}

here : (n : ℕ) → 5 ≤ n → n ≤ 6 → fetch_ledger_data table n ≡ ok (ledger_txs n)
unfolding fetch_ledger_data
here n lo hi = elim (Bool-cases (n == 5)) [
  | inl five ↦
      let e : 5 ≡ n = ground (arith, five) in
      subst (λ m. fetch_ledger_data table m ≡ ok (ledger_txs m)) e refl
  | inr later ↦
      let e : 6 ≡ n = ground (arith, later, lo, hi) in
      subst (λ m. fetch_ledger_data table m ≡ ok (ledger_txs m)) e refl
]

all_held : HoldsAll handler base64 table ledger_txs txs out 5 6
all_held = record { here = here; readable = λ n lo hi. readable n }

get_transactions_lem_example :
    (c : TxId) × (get_transactions handler table range request
      ≡ ok (record {
        transactions = take 3 (map (out 5) (drop 0 (txs 5)) ++ infos_from txs out 1 6);
        range = range;
        cursor = c;
      }))
get_transactions_lem_example =
    get_transactions_lem handler table range request ledger_txs txs out request_valid first_page
      all_held (omega arith) (omega arith) (omega arith) (omega arith)

single_encoding-page_encoding_example :
    single_encoding encoders json (tx_of 5 (ingest_tx 1))
    ≡ Option.map swapped (page_encoding encoders json (tx_of 5 (ingest_tx 1)))
single_encoding-page_encoding_example =
    single_encoding-page_encoding encoders json (tx_of 5 (ingest_tx 1))
