-- ===== src/Methods/Simulate/Tests.antt =====
-- A simulated invocation, answered with the JSON format, and a restoreFootprint without its data.
use stellar_stellar_rpc.Base.{
  ◌≡◌, refl, ◌↔◌, ◌⊎◌, pos, Option, none, some, [], ◌∷◌, false, ok, err, panic,
}
use stellar_stellar_rpc.Base.Decimal.{Bytes}
use stellar_stellar_rpc.Protocol.Pagination.{json}
use stellar_stellar_rpc.Preflight.{
  auth_empty, auth_record, auth_unknown, invoke_host_function, restore_footprint, XdrDiff,
  Preflight, GetterParameters, Library, PoolSettings, preflight_params, get_preflight,
}
use stellar_stellar_rpc.Methods.Simulate.Response.{
  Xdr, updated, unset_change, present, LedgerEntryChange, SimulateTransactionResponse,
  format_response, ledger_entry_change_from_xdr_diff,
}
use stellar_stellar_rpc.Methods.Simulate.{
  Operation, TransactionEnvelope, ext_v0, tx, operations_of, SimulateTransactionRequest,
  bad_auth_mode, auth_mode_with_auth, Backend, get_bucket_list_size_and_protocol_version,
  validate_auth_mode, simulate_transaction,
}
use stellar_stellar_rpc.Methods.Simulate.StateChanges.{AreChanges, format_response_lem}
use stellar_stellar_rpc.Methods.Simulate.Footprints.{
  LacksFootprint, GetterPanics, simulate_transaction-panic,
}
use stellar_stellar_rpc.Methods.Simulate.Sound.{
  IsCoherent, IsAnswer, IsAccepted, simulate_transaction_sound,
}

-- an encoding that adds a byte, and a conversion to JSON that adds another one
abbrev xdr : Xdr
xdr = record {
  LedgerKey = Bytes;
  ledger_key = λ b. some b;
  marshal_base64 = λ b. some (64 ∷ b);
  convert_interface = λ b. some (123 ∷ b);
  encode_to_string = λ b. 64 ∷ b;
  convert_bytes = λ t b. some (123 ∷ b);
}

abbrev changed : XdrDiff
changed = record { before = 1 ∷ []; after = 2 ∷ [] }

abbrev nothing : XdrDiff
nothing = record { before = []; after = [] }

abbrev simulated : Preflight
simulated = record {
  error = [];
  events = [];
  transaction_data = 7 ∷ [];
  min_fee = pos 100;
  result = 9 ∷ [];
  auth = [];
  cpu_instructions = 0;
  memory_bytes = 0;
  pre_restore_transaction_data = [];
  pre_restore_min_fee = pos 0;
  ledger_entry_diff = changed ∷ nothing ∷ [];
}

-- The entry before the change is nowhere in it.
abbrev change : LedgerEntryChange
change = record {
  type = updated;
  key_xdr = [];
  key_json = 123 ∷ 1 ∷ [];
  before_xdr = none;
  before_json = 123 ∷ 2 ∷ [];
  after_xdr = none;
  after_json = [];
}

abbrev response : SimulateTransactionResponse
response = record {
  error = [];
  transaction_data_xdr = [];
  transaction_data_json = 123 ∷ 7 ∷ [];
  events_xdr = [];
  events_json = [];
  min_resource_fee = pos 100;
  results =
      record {
        auth_xdr = none;
        auth_json = [];
        return_value_xdr = none;
        return_value_json = 123 ∷ 9 ∷ [];
      }
      ∷ [];
  restore_preamble = none;
  state_changes = change ∷ unset_change ∷ [];
  latest_ledger = 50;
}

json_formatted : format_response xdr simulated json 50 ≡ ok response
unfolding format_response ledger_entry_change_from_xdr_diff
json_formatted = refl

format_response_lem_example :
    AreChanges xdr json (changed ∷ nothing ∷ []) (change ∷ unset_change ∷ [])
    × (response.error ≡ [])
    × (response.min_resource_fee ≡ pos 100)
    × (response.latest_ledger ≡ 50)
    × ((response.results ≡ []) ↔ (present (9 ∷ []) ≡ false))
    × ((response.restore_preamble ≡ none) ↔ (present [] ≡ false))
format_response_lem_example = format_response_lem xdr simulated json 50 json_formatted

abbrev invoke : Operation
invoke = record { source_account = none; body = invoke_host_function (5 ∷ []) [] }

abbrev restore : Operation
restore = record { source_account = none; body = restore_footprint (6 ∷ []) }

abbrev envelope_of : Bytes → Option TransactionEnvelope
envelope_of [] = some (tx (8 ∷ []) (restore ∷ []) ext_v0)
envelope_of (b ∷ bs) = some (tx (8 ∷ []) (invoke ∷ []) ext_v0)

abbrev backend : Backend
backend = record {
  unmarshal = envelope_of;
  get_latest_ledger_sequence = some 50;
  get_ledger = λ n. some (
      some (record {
        version = 2;
        total_byte_size_of_live_soroban_state = 1000;
        ledger_version = 23;
      }));
  get_preflight = λ p. ok simulated;
}

abbrev invocation : SimulateTransactionRequest
invocation = record {
  transaction = 1 ∷ [];
  resource_config = none;
  auth_mode = auth_empty;
  format = json;
}

abbrev restoration : SimulateTransactionRequest
restoration = record invocation { transaction = [] }

invocation_answered : simulate_transaction xdr backend invocation ≡ ok response
unfolding simulate_transaction get_bucket_list_size_and_protocol_version format_response
    ledger_entry_change_from_xdr_diff
invocation_answered = refl

restoration_panics : simulate_transaction xdr backend restoration ≡ panic
unfolding simulate_transaction
restoration_panics = refl

-- a mode that records, given with auth entries, and an unknown mode
recording_with_auth :
    validate_auth_mode (invoke_host_function [] ([] ∷ [])) auth_record ≡ err auth_mode_with_auth
unfolding validate_auth_mode
recording_with_auth = refl

unknown_mode : validate_auth_mode (restore_footprint []) auth_unknown ≡ err bad_auth_mode
unfolding validate_auth_mode
unknown_mode = refl

simulate_transaction-panic_example :
    (simulate_transaction xdr backend restoration ≡ panic)
    ↔ (LacksFootprint backend restoration ⊎ GetterPanics backend restoration)
simulate_transaction-panic_example = simulate_transaction-panic xdr backend restoration

abbrev library : Library
library = record {
  marshal_body = λ b. some [];
  marshal_footprint = λ f. some [];
  marshal_account = λ a. some a;
  preflight_footprint_ttl_op = λ op f i. simulated;
  preflight_invoke_hf_op = λ op a i leeway debug mode. simulated;
}

abbrev pool : PoolSettings
pool = record { network_passphrase = 84 ∷ []; enable_debug = false }

simulate_transaction_sound_example :
    (e : TransactionEnvelope) × (op : Operation) × (p : GetterParameters) × (result : Preflight)
    × (backend.unmarshal invocation.transaction ≡ some e)
    × (operations_of e ≡ op ∷ [])
    × (p.operation_body ≡ op.body)
    × IsCoherent e invocation.auth_mode op.body p.auth_mode p.footprint
    × IsAnswer xdr backend invocation response p result
    × IsAccepted (get_preflight library 0 (preflight_params pool p))
simulate_transaction_sound_example =
    simulate_transaction_sound xdr backend invocation library 0 pool invocation_answered
