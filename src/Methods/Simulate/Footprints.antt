-- ===== src/Methods/Simulate/Footprints.antt =====
-- When the handler of simulateTransaction panics: in the preflight getter, and at the footprint of a
-- transaction that lacks its SorobanTransactionData.
use stellar_stellar_rpc.Base.{
  ℕ, ◌≡◌, refl, sym, ap, ◌∙◌, ◌↔◌, ◌⊎◌, inl, inr, Option, none, some, List, [], ◌∷◌, Outcome, ok,
  err, panic, >>=-eq-panic, IsCalm-ne-panic, later_panic, last_panic, then_ok, then_panic, arith,
}
use stellar_stellar_rpc.Protocol.Pagination.{Format, is_valid_format}
use stellar_stellar_rpc.Preflight.{
  AuthMode, auth_empty, OperationBody, invoke_host_function, extend_footprint_ttl,
  restore_footprint, other_operation, LedgerFootprint, Preflight,
}
use stellar_stellar_rpc.Methods.Simulate.Response.{Xdr}
use stellar_stellar_rpc.Methods.Simulate.{
  Operation, ext_v0, ext_v1, TransactionEnvelope, tx_v0, tx, fee_bump, operations_of,
  SimulateTransactionRequest, SimulateError, Backend, failing, or_fail, not_unmarshalled,
  format_checked, only_operation, validate_auth_mode, soroban_footprint, footprint_for, Reading,
  read_request, params_of, gotten, no_latest_ledger, get_bucket_list_size_and_protocol_version,
  simulate_at, simulate_transaction,
}
use stellar_stellar_rpc.Methods.Simulate.Calm.{
  or_fail-IsCalm, format_checked-IsCalm, only_operation-IsCalm, validate_auth_mode-IsCalm,
  failing-IsCalm, sizes-IsCalm, formatted-IsCalm, format_response-IsCalm,
}

-- the footprint that comes with a transaction
abbrev pub given_footprint : TransactionEnvelope → Option LedgerFootprint
given_footprint (tx_v0 a ops) = none
given_footprint (tx a ops ext_v0) = none
given_footprint (tx a ops (ext_v1 f)) = some f
given_footprint (fee_bump a ops ext) = none

abbrev pub or_panic : Option LedgerFootprint → Outcome SimulateError LedgerFootprint
or_panic none = panic
or_panic (some f) = ok f

-- The guard never gives its error: without a footprint the code panics.
pub soroban_footprint_lem :
    (e : TransactionEnvelope) → soroban_footprint e ≡ or_panic (given_footprint e)
unfolding soroban_footprint
soroban_footprint_lem (tx_v0 a ops) = refl
soroban_footprint_lem (tx a ops ext_v0) = refl
soroban_footprint_lem (tx a ops (ext_v1 f)) = refl
soroban_footprint_lem (fee_bump a ops ext) = refl

-- extendFootprintTtl and restoreFootprint
abbrev pub IsFootprintBody : OperationBody → Type 0
IsFootprintBody (invoke_host_function xdr auth) = ⊥
IsFootprintBody (extend_footprint_ttl xdr) = Unit
IsFootprintBody (restore_footprint xdr) = Unit
IsFootprintBody (other_operation type) = ⊥

-- A well-formed request for one operation on a footprint, whose transaction comes with none.
abbrev pub LacksFootprint : Backend → SimulateTransactionRequest → Type 0
LacksFootprint b r =
    (e : TransactionEnvelope) × (op : Operation) × (b.unmarshal r.transaction ≡ some e)
    × (operations_of e ≡ op ∷ [])
    × (is_valid_format r.format ≡ none)
    × (r.auth_mode ≡ auth_empty)
    × IsFootprintBody op.body
    × (given_footprint e ≡ none)

pub format_checked-ok :
    (f : Format) {g : Format} → format_checked f ≡ ok g → is_valid_format f ≡ none
unfolding format_checked
format_checked-ok f h = ground arith

pub only_operation-ok :
    (ops : List Operation) {op : Operation} → only_operation ops ≡ ok op → ops ≡ op ∷ []
unfolding only_operation
only_operation-ok [] h = cc
only_operation-ok (op ∷ []) h = cc
only_operation-ok (op ∷ op' ∷ ops) h = cc

pub or_fail-ok :
    {A : Type 0} (o : Option A) (x : SimulateError) {a : A} → or_fail o x ≡ ok a → o ≡ some a
or_fail-ok none x h = cc
or_fail-ok (some a) x h = cc

or_panic-eq-panic : (o : Option LedgerFootprint) → or_panic o ≡ panic → o ≡ none
or_panic-eq-panic none h = refl
or_panic-eq-panic (some f) h = cc

mode_empty :
    (body : OperationBody) (mode : AuthMode) {m : AuthMode}
    → IsFootprintBody body
    → validate_auth_mode body mode ≡ ok m
    → mode ≡ auth_empty
unfolding validate_auth_mode
mode_empty (invoke_host_function xdr auth) mode h e = absurd h
mode_empty (extend_footprint_ttl xdr) mode h e = ground arith
mode_empty (restore_footprint xdr) mode h e = ground arith
mode_empty (other_operation type) mode h e = absurd h

empty_mode :
    (body : OperationBody)
    → IsFootprintBody body
    → validate_auth_mode body auth_empty ≡ ok auth_empty
unfolding validate_auth_mode
empty_mode (invoke_host_function xdr auth) h = absurd h
empty_mode (extend_footprint_ttl xdr) h = refl
empty_mode (restore_footprint xdr) h = refl
empty_mode (other_operation type) h = absurd h

footprint_panics :
    (body : OperationBody) (e : TransactionEnvelope)
    → (footprint_for body e ≡ panic) ↔ (IsFootprintBody body × (given_footprint e ≡ none))
unfolding footprint_for
footprint_panics (invoke_host_function xdr auth) e = (λ h. cc, λ h. absurd h.0)
footprint_panics (extend_footprint_ttl xdr) e = (
  λ h. (tt, or_panic-eq-panic _ (sym (soroban_footprint_lem e) ∙ h)),
  λ h. soroban_footprint_lem e ∙ ap or_panic h.1,
)
footprint_panics (restore_footprint xdr) e = (
  λ h. (tt, or_panic-eq-panic _ (sym (soroban_footprint_lem e) ∙ h)),
  λ h. soroban_footprint_lem e ∙ ap or_panic h.1,
)
footprint_panics (other_operation type) e = (λ h. cc, λ h. absurd h.0)

checked_format : (f : Format) → is_valid_format f ≡ none → format_checked f ≡ ok f
unfolding format_checked
checked_format f h = ground arith

only_operation_one : (op : Operation) → only_operation (op ∷ []) ≡ ok op
unfolding only_operation
only_operation_one op = refl

failing_panic : {A : Type 0} (n : ℕ) (o : Outcome SimulateError A) → failing n o ≡ panic → o ≡ panic
failing_panic n (ok a) h = cc
failing_panic n (err e) h = cc
failing_panic n panic h = refl

module _ (b : Backend) (r : SimulateTransactionRequest) where
  read_request-panic : read_request b r ≡ panic → LacksFootprint b r
  unfolding read_request
  read_request-panic h =
      let (f, ef, h₁) =
        later_panic (format_checked r.format) _ (format_checked-IsCalm r.format) h in
      let (e, ee, h₂) =
        later_panic (or_fail (b.unmarshal r.transaction) not_unmarshalled) _ (or_fail-IsCalm _ _)
          h₁ in
      let (op, eo, h₃) =
        later_panic (only_operation (operations_of e)) _ (only_operation-IsCalm (operations_of e))
          h₂ in
      let (m, em, h₄) =
        later_panic (validate_auth_mode op.body r.auth_mode) _
          (validate_auth_mode-IsCalm op.body r.auth_mode) h₃ in
      let (body, missing) = (footprint_panics op.body e).0 (last_panic _ _ h₄) in
      (
        e,
        op,
        or_fail-ok _ _ ee,
        only_operation-ok (operations_of e) eo,
        format_checked-ok r.format ef,
        mode_empty op.body r.auth_mode body em,
        body,
        missing,
      )

  panic-read_request : LacksFootprint b r → read_request b r ≡ panic
  unfolding read_request
  panic-read_request (e, op, decoded, one, valid, mode, body, missing) =
      then_ok (format_checked r.format) _ (checked_format r.format valid)
      ∙ then_ok (or_fail (b.unmarshal r.transaction) not_unmarshalled) _
          (ap (λ o. or_fail o not_unmarshalled) decoded)
      ∙ then_ok (only_operation (operations_of e)) _ (ap only_operation one ∙ only_operation_one op)
      ∙ then_ok (validate_auth_mode op.body r.auth_mode) _
          (ap (validate_auth_mode op.body) mode ∙ empty_mode op.body body)
      ∙ then_panic (footprint_for op.body e) _ ((footprint_panics op.body e).1 (body, missing))

pub failing-ok :
    {A : Type 0} (n : ℕ) (o : Outcome SimulateError A) {a : A} → failing n o ≡ ok a → o ≡ ok a
failing-ok n (ok a) h = cc
failing-ok n (err e) h = cc
failing-ok n panic h = cc

gotten_panic : (o : Outcome (Unit {0}) Preflight) → gotten o ≡ panic → o ≡ panic
gotten_panic (ok p) h = cc
gotten_panic (err e) h = cc
gotten_panic panic h = refl

-- The handler gets as far as to ask for a preflight, and the getter panics.
abbrev pub GetterPanics : Backend → SimulateTransactionRequest → Type 0
GetterPanics b r =
    (q : Reading) × (latest_ledger : ℕ) × (sizes : ℕ × ℕ) × (read_request b r ≡ ok q)
    × (b.get_latest_ledger_sequence ≡ some latest_ledger)
    × (get_bucket_list_size_and_protocol_version b latest_ledger ≡ ok sizes)
    × (b.get_preflight (params_of r q.envelope q.operation q.mode q.footprint latest_ledger sizes)
        ≡ panic)

module _ (x : Xdr) (b : Backend) (r : SimulateTransactionRequest) (q : Reading) (n : ℕ) where
  -- the preflight panics once the sizes are known
  abbrev AskPanics : Type 0
  AskPanics =
      (sizes : ℕ × ℕ) × (get_bucket_list_size_and_protocol_version b n ≡ ok sizes)
      × (b.get_preflight (params_of r q.envelope q.operation q.mode q.footprint n sizes) ≡ panic)

  simulate_at-panic : simulate_at x b r q n ≡ panic → AskPanics
  unfolding simulate_at
  simulate_at-panic h =
      let (sizes, es, h₁) =
        later_panic (get_bucket_list_size_and_protocol_version b n) _ (sizes-IsCalm x b n) h in
      elim (>>=-eq-panic (gotten (b.get_preflight _)) _ h₁) [
        | inl p ↦ (sizes, es, gotten_panic _ p)
        | inr (result, _, k) ↦ absurd (
            IsCalm-ne-panic _ (formatted-IsCalm x _ (format_response-IsCalm x result r.format n)) k)
      ]

  panic-simulate_at : AskPanics → simulate_at x b r q n ≡ panic
  unfolding simulate_at
  panic-simulate_at (sizes, es, p) =
      then_ok (get_bucket_list_size_and_protocol_version b n) _ es
      ∙ then_panic (gotten (b.get_preflight _)) _ (ap gotten p)

module _ (x : Xdr) (b : Backend) (r : SimulateTransactionRequest) where
  -- The handler panics exactly if the preflight getter does, once it is asked, and on well-formed
  -- requests for one extendFootprintTtl or restoreFootprint operation, with no auth mode, whose
  -- transaction does not come with a SorobanTransactionData: also those for which the code has an
  -- error message. (What the database and the encoders do is a value or an error.)
  pub simulate_transaction-panic :
      (simulate_transaction x b r ≡ panic) ↔ (LacksFootprint b r ⊎ GetterPanics b r)
  unfolding simulate_transaction
  simulate_transaction-panic = (
    λ h. elim (>>=-eq-panic (failing 0 (read_request b r)) _ h) [
      | inl p ↦ inl (read_request-panic b r (failing_panic 0 _ p))
      | inr (q, eq, k) ↦
          let (n, en, k') =
            later_panic (failing 0 (or_fail b.get_latest_ledger_sequence no_latest_ledger)) _
              (failing-IsCalm 0 _ (or_fail-IsCalm _ _)) k in
          let (sizes, es, p) = simulate_at-panic x b r q n (failing_panic n _ k') in
          inr (q, n, sizes, failing-ok 0 _ eq, or_fail-ok _ _ (failing-ok 0 _ en), es, p)
    ],
    λ h. elim h [
      | inl lacks ↦ rw (panic-read_request b r lacks) refl
      | inr (q, n, sizes, eq, en, es, p) ↦
          then_ok (failing 0 (read_request b r)) _ (ap (failing 0) eq)
          ∙ then_ok (failing 0 (or_fail b.get_latest_ledger_sequence no_latest_ledger)) _
              (ap (λ o. failing 0 (or_fail o no_latest_ledger)) en)
          ∙ ap (failing n) (panic-simulate_at x b r q n (sizes, es, p))
    ],
  )
