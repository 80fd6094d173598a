-- ===== src/Methods/Simulate/Calm.antt =====
-- Which parts of the handler of simulateTransaction do not panic.
use stellar_stellar_rpc.Base.{
  ℕ, Option, none, some, List, [], ◌∷◌, Outcome, ok, err, panic, IsCalm, >>=-IsCalm, arith,
}
use stellar_stellar_rpc.Base.Decimal.{Bytes}
use stellar_stellar_rpc.Protocol.Pagination.{Format, empty, base64, json, unknown}
use stellar_stellar_rpc.Preflight.{
  AuthMode, OperationBody, invoke_host_function, extend_footprint_ttl, restore_footprint,
  other_operation, XdrDiff, Preflight,
}
use stellar_stellar_rpc.Methods.Simulate.Response.{
  Xdr, XdrType, soroban_authorization_entry, diagnostic_event, SimulateTransactionResponse,
  ResponseError, converted, or_unset, ledger_entry_change_from_xdr_diff, state_changes_of,
  get_simulation_results, get_restore_preamble, jsonify_slice, add_data, format_response,
}
use stellar_stellar_rpc.Methods.Simulate.{
  Operation, SimulateError, Backend, failing, or_fail, formatted, format_checked, only_operation,
  validate_auth_mode, get_bucket_list_size_and_protocol_version,
}

pub or_fail-IsCalm : {A : Type 0} (o : Option A) (e : SimulateError) → IsCalm (or_fail o e)
or_fail-IsCalm none e = tt
or_fail-IsCalm (some a) e = tt

module _ (x : Xdr) where
  converted-IsCalm : {A : Type 0} (o : Option A) → IsCalm (converted o)
  converted-IsCalm none = tt
  converted-IsCalm (some a) = tt

  jsonify_slice-IsCalm : (t : XdrType) (vs : List Bytes) → IsCalm (jsonify_slice x t vs)
  unfolding jsonify_slice
  jsonify_slice-IsCalm t [] = tt
  jsonify_slice-IsCalm t (v ∷ vs) =
      >>=-IsCalm (converted (x.convert_bytes t v)) _ (converted-IsCalm _)
        λ j. >>=-IsCalm (jsonify_slice x t vs) _ (jsonify_slice-IsCalm t vs) λ js. tt

  change-IsCalm :
      (d : XdrDiff) (f : Format) → IsCalm (or_unset x (ledger_entry_change_from_xdr_diff x d f))
  unfolding ledger_entry_change_from_xdr_diff
  change-IsCalm d json = ground arith
  change-IsCalm d empty = ground arith
  change-IsCalm d base64 = ground arith
  change-IsCalm d unknown = tt

  state_changes_of-IsCalm : (ds : List XdrDiff) (f : Format) → IsCalm (state_changes_of x ds f)
  unfolding state_changes_of
  state_changes_of-IsCalm [] f = tt
  state_changes_of-IsCalm (d ∷ ds) f =
      >>=-IsCalm (or_unset x (ledger_entry_change_from_xdr_diff x d f)) _ (change-IsCalm d f)
        λ c. >>=-IsCalm (state_changes_of x ds f) _ (state_changes_of-IsCalm ds f) λ cs. tt

  results-IsCalm : (p : Preflight) (f : Format) → IsCalm (get_simulation_results x p f)
  unfolding get_simulation_results
  results-IsCalm p json = ground (arith, jsonify_slice-IsCalm soroban_authorization_entry p.auth)
  results-IsCalm p empty = ground arith
  results-IsCalm p base64 = ground arith
  results-IsCalm p unknown = ground arith

  preamble-IsCalm : (p : Preflight) (f : Format) → IsCalm (get_restore_preamble x p f)
  unfolding get_restore_preamble
  preamble-IsCalm p json = ground arith
  preamble-IsCalm p empty = ground arith
  preamble-IsCalm p base64 = ground arith
  preamble-IsCalm p unknown = ground arith

  add_data-IsCalm :
      (f : Format) (s : SimulateTransactionResponse) (p : Preflight) → IsCalm (add_data x f s p)
  unfolding add_data
  add_data-IsCalm json s p = ground (arith, jsonify_slice-IsCalm diagnostic_event p.events)
  add_data-IsCalm empty s p = tt
  add_data-IsCalm base64 s p = tt
  add_data-IsCalm unknown s p = tt

  pub format_response-IsCalm :
      (p : Preflight) (f : Format) (n : ℕ) → IsCalm (format_response x p f n)
  unfolding format_response
  format_response-IsCalm p f n =
      >>=-IsCalm (get_simulation_results x p f) _ (results-IsCalm p f) λ rs.
        >>=-IsCalm (get_restore_preamble x p f) _ (preamble-IsCalm p f) λ r.
          >>=-IsCalm (state_changes_of x p.ledger_entry_diff f) _
            (state_changes_of-IsCalm p.ledger_entry_diff f) λ cs. add_data-IsCalm f _ p

  pub formatted-IsCalm :
      (o : Outcome ResponseError SimulateTransactionResponse) → IsCalm o → IsCalm (formatted o)
  formatted-IsCalm (ok s) h = tt
  formatted-IsCalm (err e) h = tt
  formatted-IsCalm panic h = h

  pub sizes-IsCalm : (b : Backend) (n : ℕ) → IsCalm (get_bucket_list_size_and_protocol_version b n)
  unfolding get_bucket_list_size_and_protocol_version
  sizes-IsCalm b n = ground arith

pub format_checked-IsCalm : (f : Format) → IsCalm (format_checked f)
unfolding format_checked
format_checked-IsCalm f = ground arith

pub only_operation-IsCalm : (ops : List Operation) → IsCalm (only_operation ops)
unfolding only_operation
only_operation-IsCalm [] = tt
only_operation-IsCalm (op ∷ []) = tt
only_operation-IsCalm (op ∷ op' ∷ ops) = tt

pub validate_auth_mode-IsCalm :
    (body : OperationBody) (mode : AuthMode) → IsCalm (validate_auth_mode body mode)
unfolding validate_auth_mode
validate_auth_mode-IsCalm (invoke_host_function xdr auth) mode = ground arith
validate_auth_mode-IsCalm (extend_footprint_ttl xdr) mode = ground arith
validate_auth_mode-IsCalm (restore_footprint xdr) mode = ground arith
validate_auth_mode-IsCalm (other_operation type) mode = ground arith

pub failing-IsCalm :
    {A : Type 0} (n : ℕ) (o : Outcome SimulateError A) → IsCalm o → IsCalm (failing n o)
failing-IsCalm n (ok a) h = tt
failing-IsCalm n (err e) h = tt
failing-IsCalm n panic h = h
