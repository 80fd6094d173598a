-- ===== src/Methods/Simulate/Response.antt =====
-- cmd/stellar-rpc/internal/methods/simulate_transaction.go and protocol/simulate_transaction.go: the
-- response of simulateTransaction in the two formats. XDR of the Go SDK and the conversions to JSON of
-- xdr2json are a parameter, `none` for an error. A nil json.RawMessage is empty.
use stellar_stellar_rpc.Base.{
  ℕ, ℤ, Option, none, some, List, [], ◌∷◌, map, Bool, true, false, ltb, if◌then◌else◌, length, not,
  Outcome, ok, err, ◌>>=◌,
}
use stellar_stellar_rpc.Base.Decimal.{Bytes}
use stellar_stellar_rpc.Protocol.Pagination.{Format, empty, base64, json, unknown, is_valid_format}
use stellar_stellar_rpc.Preflight.{XdrDiff, Preflight}

-- the types by which ConvertBytes reads
pub data XdrType : Type 0 where
  ledger_entry soroban_transaction_data sc_val : XdrType
  soroban_authorization_entry diagnostic_event : XdrType

-- `SafeUnmarshal` of a LedgerEntry with its `LedgerKey`, `MarshalBase64` and ConvertInterface of the
-- key, the standard base64 encoding, and ConvertBytes
pub record Xdr : Type 1 where
  pub LedgerKey : Type 0
  pub ledger_key : Bytes → Option LedgerKey
  pub marshal_base64 : LedgerKey → Option Bytes
  pub convert_interface : LedgerKey → Option Bytes
  pub encode_to_string : Bytes → Bytes
  pub convert_bytes : XdrType → Bytes → Option Bytes

-- `unset` is the zero value, which stands for none of them.
pub data LedgerEntryChangeType : Type 0 where
  unset created updated deleted : LedgerEntryChangeType

pub record LedgerEntryChange : Type 0 where
  pub type : LedgerEntryChangeType
  pub key_xdr : Bytes
  pub key_json : Bytes
  pub before_xdr : Option Bytes
  pub before_json : Bytes
  pub after_xdr : Option Bytes
  pub after_json : Bytes

pub record RestorePreamble : Type 0 where
  pub transaction_data_xdr : Bytes
  pub transaction_data_json : Bytes
  pub min_resource_fee : ℤ

pub record SimulateHostFunctionResult : Type 0 where
  pub auth_xdr : Option (List Bytes)
  pub auth_json : List Bytes
  pub return_value_xdr : Option Bytes
  pub return_value_json : Bytes

pub record SimulateTransactionResponse : Type 0 where
  pub error : Bytes
  pub transaction_data_xdr : Bytes
  pub transaction_data_json : Bytes
  pub events_xdr : List Bytes
  pub events_json : List Bytes
  pub min_resource_fee : ℤ
  pub results : List SimulateHostFunctionResult
  pub restore_preamble : Option RestorePreamble
  pub state_changes : List LedgerEntryChange
  pub latest_ledger : ℕ

-- `missing_diff` is errMissingDiff.
pub data ResponseError : Type 0 where
  missing_diff bad_format not_converted : ResponseError

abbrev pub present : Bytes → Bool
present b = ltb 0 (length b)

abbrev pub converted : {A : Type 0} → Option A → Outcome ResponseError A
converted none = err not_converted
converted (some a) = ok a

abbrev pub unset_change : LedgerEntryChange
unset_change = record {
  type = unset;
  key_xdr = [];
  key_json = [];
  before_xdr = none;
  before_json = [];
  after_xdr = none;
  after_json = [];
}

-- the switch over what is present: the entry that gives the key, and the type of the change
unfoldable pub entry_and_type : XdrDiff → Outcome ResponseError (Bytes × LedgerEntryChangeType)
entry_and_type d =
    if present d.before
    then ok (d.before, if present d.after then updated else deleted)
    else if present d.after
    then ok (d.after, created)
    else err missing_diff

module _ (x : Xdr) where
  set_before_json : Bool → Bytes → LedgerEntryChange → Outcome ResponseError LedgerEntryChange
  set_before_json false b c = ok c
  set_before_json true b c = do
    j ← converted (x.convert_bytes ledger_entry b)
    ok (record c { before_json = j })

  -- `AddLedgerEntryChangeJSON`
  unfoldable pub add_ledger_entry_change_json :
      LedgerEntryChange → XdrDiff → x.LedgerKey → Outcome ResponseError LedgerEntryChange
  unfolding set_before_json
  add_ledger_entry_change_json c d key = do
    k ← converted (x.convert_interface key)
    c' ← set_before_json (present d.before) d.before (record c { key_json = k })
    set_before_json (present d.after) d.after c'

  abbrev pub encoded_if_present : Bytes → Option Bytes
  encoded_if_present b = if present b then some (x.encode_to_string b) else none

  add_ledger_entry_change_xdr :
      LedgerEntryChange → XdrDiff → x.LedgerKey → Outcome ResponseError LedgerEntryChange
  add_ledger_entry_change_xdr c d key = do
    k ← converted (x.marshal_base64 key)
    ok (record c {
      key_xdr = k;
      before_xdr = encoded_if_present d.before;
      after_xdr = encoded_if_present d.after;
    })

  -- the switch over the format
  unfoldable pub add_entries :
      Format → LedgerEntryChange → XdrDiff → x.LedgerKey → Outcome ResponseError LedgerEntryChange
  unfolding add_ledger_entry_change_json add_ledger_entry_change_xdr
  add_entries json c d key = add_ledger_entry_change_json c d key
  add_entries empty c d key = add_ledger_entry_change_xdr c d key
  add_entries base64 c d key = add_ledger_entry_change_xdr c d key
  add_entries unknown c d key = add_ledger_entry_change_xdr c d key

  abbrev if_valid : {A : Type 0} → Format → Outcome ResponseError A → Outcome ResponseError A
  if_valid f o = elim (is_valid_format f) [ none ↦ o | some e ↦ err bad_format ]

  -- `LedgerEntryChangeFromXDRDiff`
  unfoldable pub ledger_entry_change_from_xdr_diff :
      XdrDiff → Format → Outcome ResponseError LedgerEntryChange
  unfolding entry_and_type add_entries is_valid_format
  ledger_entry_change_from_xdr_diff d f = if_valid f do
    (entry_xdr, change_type) ← entry_and_type d
    key ← converted (x.ledger_key entry_xdr)
    add_entries f (record unset_change { type = change_type }) d key

  -- `getRestorePreamble`
  restore_preamble_in : Format → Preflight → Outcome ResponseError RestorePreamble
  restore_preamble_in json p = do
    j ← converted (x.convert_bytes soroban_transaction_data p.pre_restore_transaction_data)
    ok (record {
      transaction_data_xdr = [];
      transaction_data_json = j;
      min_resource_fee = p.pre_restore_min_fee;
    })
  restore_preamble_in _ p = ok (record {
    transaction_data_xdr = x.encode_to_string p.pre_restore_transaction_data;
    transaction_data_json = [];
    min_resource_fee = p.pre_restore_min_fee;
  })

  unfoldable pub get_restore_preamble :
      Preflight → Format → Outcome ResponseError (Option RestorePreamble)
  unfolding restore_preamble_in
  get_restore_preamble p f =
      if present p.pre_restore_transaction_data
      then (restore_preamble_in f p >>= λ r. ok (some r))
      else ok none

  -- `jsonifySlice` and `base64EncodeSlice`
  unfoldable pub jsonify_slice : XdrType → List Bytes → Outcome ResponseError (List Bytes)
  jsonify_slice t [] = ok []
  jsonify_slice t (v ∷ vs) =
      let rest = jsonify_slice t vs in
      converted (x.convert_bytes t v) >>= λ j. rest >>= λ js. ok (j ∷ js)

  unfoldable pub base64_encode_slice : List Bytes → List Bytes
  base64_encode_slice vs = map x.encode_to_string vs

  simulation_result_in : Format → Preflight → Outcome ResponseError SimulateHostFunctionResult
  unfolding jsonify_slice base64_encode_slice
  simulation_result_in json p = do
    rv ← converted (x.convert_bytes sc_val p.result)
    auths ← jsonify_slice soroban_authorization_entry p.auth
    ok (record {
      auth_xdr = none;
      auth_json = auths;
      return_value_xdr = none;
      return_value_json = rv;
    })
  simulation_result_in _ p = ok (record {
    auth_xdr = some (base64_encode_slice p.auth);
    auth_json = [];
    return_value_xdr = some (x.encode_to_string p.result);
    return_value_json = [];
  })

  -- `getSimulationResults`
  unfoldable pub get_simulation_results :
      Preflight → Format → Outcome ResponseError (List SimulateHostFunctionResult)
  unfolding simulation_result_in
  get_simulation_results p f =
      if not (present p.result) then ok [] else (simulation_result_in f p >>= λ r. ok (r ∷ []))

  -- A difference with no entry leaves its place as it was made.
  abbrev pub or_unset :
      Outcome ResponseError LedgerEntryChange → Outcome ResponseError LedgerEntryChange
  or_unset (err missing_diff) = ok unset_change
  or_unset o = o

  -- the loop over the differences
  unfoldable pub state_changes_of :
      List XdrDiff → Format → Outcome ResponseError (List LedgerEntryChange)
  state_changes_of [] f = ok []
  state_changes_of (d ∷ ds) f =
      let rest = state_changes_of ds f in
      or_unset (ledger_entry_change_from_xdr_diff d f) >>= λ c. rest >>= λ cs. ok (c ∷ cs)

  -- the switch over the format at the end
  unfoldable pub add_data :
      Format
      → SimulateTransactionResponse
      → Preflight
      → Outcome ResponseError SimulateTransactionResponse
  unfolding jsonify_slice base64_encode_slice
  add_data json r p = do
    j ← converted (x.convert_bytes soroban_transaction_data p.transaction_data)
    js ← jsonify_slice diagnostic_event p.events
    ok (record r { transaction_data_json = j; events_json = js })
  add_data _ r p = ok (record r {
    events_xdr = base64_encode_slice p.events;
    transaction_data_xdr = x.encode_to_string p.transaction_data;
  })

  -- `formatResponse`
  unfoldable pub format_response :
      Preflight → Format → (latest_ledger : ℕ) → Outcome ResponseError SimulateTransactionResponse
  unfolding get_simulation_results get_restore_preamble state_changes_of add_data
  format_response p f latest_ledger = do
    results ← get_simulation_results p f
    restore_preamble ← get_restore_preamble p f
    state_changes ← state_changes_of p.ledger_entry_diff f
    add_data f
        (record {
          error = p.error;
          transaction_data_xdr = [];
          transaction_data_json = [];
          events_xdr = [];
          events_json = [];
          min_resource_fee = p.min_fee;
          results = results;
          restore_preamble = restore_preamble;
          state_changes = state_changes;
          latest_ledger = latest_ledger;
        })
        p
