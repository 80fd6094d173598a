-- ===== src/Methods/Simulate/Sound.antt =====
-- What stands behind a response of simulateTransaction, from the request to the call of the library.
use stellar_stellar_rpc.Base.{
  ℕ, ◌≡◌, refl, sym, ◌∙◌, ◌⊎◌, Option, none, some, List, [], ◌∷◌, Outcome, ok, err, panic,
  >>=-eq-ok, arith,
}
use stellar_stellar_rpc.Base.Decimal.{Bytes}
use stellar_stellar_rpc.Preflight.{
  AuthMode, auth_empty, auth_enforce, auth_record, auth_record_allow_nonroot, OperationBody,
  invoke_host_function, extend_footprint_ttl, restore_footprint, other_operation, LedgerFootprint,
  Preflight, GetterParameters, PreflightError, not_marshalled, unsupported_operation,
  invalid_auth_mode, Library, PoolSettings, preflight_params, get_preflight,
}
use stellar_stellar_rpc.Methods.Simulate.Response.{
  Xdr, ResponseError, SimulateTransactionResponse, format_response,
}
use stellar_stellar_rpc.Methods.Simulate.{
  Operation, TransactionEnvelope, operations_of, no_footprint, SimulateTransactionRequest,
  SimulateError, not_unmarshalled, Backend, failing, or_fail, formatted, format_checked,
  only_operation, validate_auth_mode, footprint_for, Reading, read_request, simulate_at,
  simulate_transaction, get_bucket_list_size_and_protocol_version, gotten, no_latest_ledger,
}
use stellar_stellar_rpc.Methods.Simulate.Footprints.{
  given_footprint, or_panic, soroban_footprint_lem, only_operation-ok, or_fail-ok, failing-ok,
}

abbrev pub default_mode : List Bytes → AuthMode
default_mode [] = auth_record
default_mode (a ∷ rest) = auth_enforce

abbrev pub IsRecording : AuthMode → Type 0
IsRecording auth_record = Unit
IsRecording auth_record_allow_nonroot = Unit
IsRecording _ = ⊥

-- What the mode and the footprint of a preflight have to do with the transaction and with the mode
-- that the request gives. An operation that has auth entries is not recorded.
abbrev pub IsCoherent :
    TransactionEnvelope → (given : AuthMode) → OperationBody → AuthMode → LedgerFootprint → Type 0
IsCoherent e given (invoke_host_function xdr auth) mode f =
    (f ≡ no_footprint)
    × ((given ≡ mode) ⊎ ((given ≡ auth_empty) × (mode ≡ default_mode auth)))
    × ((mode ≡ auth_enforce) ⊎ ((auth ≡ []) × IsRecording mode))
IsCoherent e given (extend_footprint_ttl xdr) mode f =
    (given ≡ auth_empty) × (mode ≡ auth_empty) × (given_footprint e ≡ some f)
IsCoherent e given (restore_footprint xdr) mode f =
    (given ≡ auth_empty) × (mode ≡ auth_empty) × (given_footprint e ≡ some f)
IsCoherent e given (other_operation type) mode f = ⊥

-- the library was called, or a value did not marshal
abbrev pub IsAccepted : Outcome PreflightError Preflight → Type 0
IsAccepted (ok p) = Unit
IsAccepted (err not_marshalled) = Unit
IsAccepted (err unsupported_operation) = ⊥
IsAccepted (err invalid_auth_mode) = ⊥
IsAccepted panic = ⊥

or_panic-eq-ok : (o : Option LedgerFootprint) {f : LedgerFootprint} → or_panic o ≡ ok f → o ≡ some f
or_panic-eq-ok none h = cc
or_panic-eq-ok (some g) h = cc

invoke_mode :
    (xdr : Bytes) (auth : List Bytes) (given : AuthMode) {mode : AuthMode}
    → validate_auth_mode (invoke_host_function xdr auth) given ≡ ok mode
    → ((given ≡ mode) ⊎ ((given ≡ auth_empty) × (mode ≡ default_mode auth)))
      × ((mode ≡ auth_enforce) ⊎ ((auth ≡ []) × IsRecording mode))
unfolding validate_auth_mode
invoke_mode xdr [] given h = ground arith
invoke_mode xdr (a ∷ rest) given h = ground arith

coherent :
    (e : TransactionEnvelope) (given : AuthMode) (body : OperationBody) {mode : AuthMode}
    {f : LedgerFootprint}
    → validate_auth_mode body given ≡ ok mode
    → footprint_for body e ≡ ok f
    → IsCoherent e given body mode f
unfolding validate_auth_mode footprint_for
coherent e given (invoke_host_function xdr auth) h k =
    (cc, (invoke_mode xdr auth given h).0, (invoke_mode xdr auth given h).1)
coherent e given (extend_footprint_ttl xdr) h k = (
  ground arith,
  ground arith,
  or_panic-eq-ok (given_footprint e) (sym (soroban_footprint_lem e) ∙ k),
)
coherent e given (restore_footprint xdr) h k = (
  ground arith,
  ground arith,
  or_panic-eq-ok (given_footprint e) (sym (soroban_footprint_lem e) ∙ k),
)
coherent e given (other_operation type) h k = ground arith

-- The library accepts what is coherent.
module _ (l : Library) (now : ℕ) (pool : PoolSettings) where
  coherent-IsAccepted :
      (e : TransactionEnvelope) (given : AuthMode) (p : GetterParameters) (body : OperationBody)
      → p.operation_body ≡ body
      → IsCoherent e given body p.auth_mode p.footprint
      → IsAccepted (get_preflight l now (preflight_params pool p))
  unfolding get_preflight preflight_params
  coherent-IsAccepted e given p (invoke_host_function xdr auth) h c = rw h (ground arith)
  coherent-IsAccepted e given p (extend_footprint_ttl xdr) h c = rw h (ground arith)
  coherent-IsAccepted e given p (restore_footprint xdr) h c = rw h (ground arith)
  coherent-IsAccepted e given p (other_operation type) h c = absurd c

formatted-ok :
    (o : Outcome ResponseError SimulateTransactionResponse) {s : SimulateTransactionResponse}
    → formatted o ≡ ok s
    → o ≡ ok s
formatted-ok (ok t) h = cc
formatted-ok (err e) h = cc
formatted-ok panic h = cc

gotten-ok : (o : Outcome (Unit {0}) Preflight) {p : Preflight} → gotten o ≡ ok p → o ≡ ok p
gotten-ok (ok q) h = cc
gotten-ok (err e) h = cc
gotten-ok panic h = cc

-- what the handler has read, when it goes on
abbrev IsReading : Backend → SimulateTransactionRequest → Reading → Type 0
IsReading b r q =
    (b.unmarshal r.transaction ≡ some q.envelope)
    × (operations_of q.envelope ≡ q.operation ∷ [])
    × IsCoherent q.envelope r.auth_mode q.operation.body q.mode q.footprint

read_request-IsReading :
    (b : Backend) (r : SimulateTransactionRequest) {q : Reading}
    → read_request b r ≡ ok q
    → IsReading b r q
unfolding read_request
read_request-IsReading b r {q} h =
    let (f, ef, h₁) = >>=-eq-ok (format_checked r.format) _ h in
    let (e, ee, h₂) = >>=-eq-ok (or_fail (b.unmarshal r.transaction) not_unmarshalled) _ h₁ in
    let (op, eo, h₃) = >>=-eq-ok (only_operation (operations_of e)) _ h₂ in
    let (m, em, h₄) = >>=-eq-ok (validate_auth_mode op.body r.auth_mode) _ h₃ in
    let (g, eg, h₅) = >>=-eq-ok (footprint_for op.body e) _ h₄ in
    rw (← ok-injective h₅) (
      or_fail-ok _ _ ee,
      only_operation-ok (operations_of e) eo,
      coherent e r.auth_mode op.body em eg,
    )
  where
    ok-injective : {p q : Reading} → ◌≡◌ {A = Outcome SimulateError Reading} (ok p) (ok q) → p ≡ q
    ok-injective h = cc

-- the preflight behind a response
abbrev pub IsAnswer :
    Xdr
    → Backend
    → SimulateTransactionRequest
    → SimulateTransactionResponse
    → GetterParameters
    → Preflight
    → Type 0
IsAnswer x b r s p result =
    (b.get_latest_ledger_sequence ≡ some p.ledger_seq)
    × (b.get_preflight p ≡ ok result)
    × (format_response x result r.format p.ledger_seq ≡ ok s)

module _ (x : Xdr) (b : Backend) (r : SimulateTransactionRequest) (l : Library) (now : ℕ)
    (pool : PoolSettings) {s : SimulateTransactionResponse} where
  -- An answer of simulateTransaction with no error of the handler: the request's transaction decodes to
  -- an envelope with exactly one operation; the response is formatted from a preflight of that
  -- operation at the latest ledger; the mode and the footprint of that preflight are coherent with the
  -- transaction and the request; and GetPreflight of the pool's parameters does not refuse the type of
  -- the operation or the mode.
  pub simulate_transaction_sound :
      simulate_transaction x b r ≡ ok s
      → (e : TransactionEnvelope) × (op : Operation) × (p : GetterParameters) × (result : Preflight)
        × (b.unmarshal r.transaction ≡ some e)
        × (operations_of e ≡ op ∷ [])
        × (p.operation_body ≡ op.body)
        × IsCoherent e r.auth_mode op.body p.auth_mode p.footprint
        × IsAnswer x b r s p result
        × IsAccepted (get_preflight l now (preflight_params pool p))
  unfolding simulate_transaction simulate_at
  simulate_transaction_sound h =
      let (q, eq, h₁) = >>=-eq-ok (failing 0 (read_request b r)) _ h in
      let (n, en, h₂) =
        >>=-eq-ok (failing 0 (or_fail b.get_latest_ledger_sequence no_latest_ledger)) _ h₁ in
      let (sizes, _, h₃) =
        >>=-eq-ok (get_bucket_list_size_and_protocol_version b n) _ (failing-ok n _ h₂) in
      let (result, er, h₄) = >>=-eq-ok (gotten (b.get_preflight _)) _ h₃ in
      let (decoded, one, fits) = read_request-IsReading b r (failing-ok 0 _ eq) in
      (
        q.envelope,
        q.operation,
        _,
        result,
        decoded,
        one,
        refl,
        fits,
        (or_fail-ok _ _ (failing-ok 0 _ en), gotten-ok _ er, formatted-ok _ h₄),
        coherent-IsAccepted l now pool q.envelope r.auth_mode _ q.operation.body refl fits,
      )
