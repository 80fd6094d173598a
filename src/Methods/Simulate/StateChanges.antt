-- ===== src/Methods/Simulate/StateChanges.antt =====
-- What the response of simulateTransaction says of the preflight, in each of the two formats.
use stellar_stellar_rpc.Base.{
  ℕ, ◌≡◌, ◌≢◌, refl, ◌↔◌, Option, none, some, List, [], ◌∷◌, Bool, true, false, if◌then◌else◌, ok,
  >>=-eq-ok, Bool-cases, inl, inr, arith, ◌⊎◌,
}
use stellar_stellar_rpc.Protocol.Pagination.{Format, empty, base64, json, unknown}
use stellar_stellar_rpc.Preflight.{XdrDiff, Preflight}
use stellar_stellar_rpc.Methods.Simulate.Response.{
  Xdr, LedgerEntryChange, LedgerEntryChangeType, created, updated, deleted, unset_change, present,
  ledger_entry, RestorePreamble, SimulateHostFunctionResult, SimulateTransactionResponse,
  add_entries, encoded_if_present, or_unset, ledger_entry_change_from_xdr_diff, state_changes_of,
  get_simulation_results, get_restore_preamble, add_data, format_response,
}

abbrev pub type_for : (before after : Bool) → Option LedgerEntryChangeType
type_for true true = some updated
type_for true false = some deleted
type_for false true = some created
type_for false false = none

module _ (x : Xdr) where
  -- With the XDR format a change has the entry before and the entry after. With the JSON format the
  -- field of the entry before has the entry after when there is one, and the other field is empty.
  abbrev pub IsShown : Format → XdrDiff → LedgerEntryChange → Type 0
  IsShown json d c =
      (x.convert_bytes ledger_entry (if present d.after then d.after else d.before)
        ≡ some c.before_json)
      × (c.after_json ≡ [])
  IsShown empty d c =
      (c.before_xdr ≡ encoded_if_present x d.before) × (c.after_xdr ≡ encoded_if_present x d.after)
  IsShown base64 d c =
      (c.before_xdr ≡ encoded_if_present x d.before) × (c.after_xdr ≡ encoded_if_present x d.after)
  IsShown unknown d c = ⊥

  -- A difference with no entry stands for an unset change, any other one for one of its type.
  abbrev pub IsChange : Format → XdrDiff → LedgerEntryChange → Type 0
  IsChange f d c = elim (type_for (present d.before) (present d.after)) [
    | none ↦ c ≡ unset_change
    | some t ↦ (c.type ≡ t) × IsShown f d c
  ]

  -- one change for each difference, in their order
  abbrev pub AreChanges : Format → List XdrDiff → List LedgerEntryChange → Type 0
  AreChanges f [] [] = Unit
  AreChanges f [] (c ∷ cs) = ⊥
  AreChanges f (d ∷ ds) [] = ⊥
  AreChanges f (d ∷ ds) (c ∷ cs) = IsChange f d c × AreChanges f ds cs

  module _ (d : XdrDiff) (start : LedgerEntryChange) {c : LedgerEntryChange}
      (key : x.LedgerKey) where
    json_shown :
        add_entries x json start d key ≡ ok c
        → (present d.before ≡ true) ⊎ (present d.after ≡ true)
        → (c.type ≡ start.type)
          × (x.convert_bytes ledger_entry (if present d.after then d.after else d.before)
              ≡ some c.before_json)
          × (c.after_json ≡ start.after_json)
    unfolding add_entries
    json_shown h p = ground arith

    xdr_shown :
        (f : Format)
        → (f ≢ json)
        → add_entries x f start d key ≡ ok c
        → (c.type ≡ start.type)
          × (c.before_xdr ≡ encoded_if_present x d.before)
          × (c.after_xdr ≡ encoded_if_present x d.after)
    unfolding add_entries
    xdr_shown json n h = absurd (n refl)
    xdr_shown f n h = ground arith

  module _ (d : XdrDiff) {c : LedgerEntryChange} where
    from_xdr_diff-IsChange :
        (f : Format) → or_unset x (ledger_entry_change_from_xdr_diff x d f) ≡ ok c → IsChange f d c
    unfolding ledger_entry_change_from_xdr_diff add_entries
    from_xdr_diff-IsChange json h = ground arith
    from_xdr_diff-IsChange empty h = ground arith
    from_xdr_diff-IsChange base64 h = ground arith
    from_xdr_diff-IsChange unknown h = cc

  state_changes_of-AreChanges :
      (ds : List XdrDiff) (f : Format) {cs : List LedgerEntryChange}
      → state_changes_of x ds f ≡ ok cs
      → AreChanges f ds cs
  unfolding state_changes_of
  state_changes_of-AreChanges [] f {cs = []} h = tt
  state_changes_of-AreChanges [] f {cs = c ∷ cs} h = cc
  state_changes_of-AreChanges (d ∷ ds) f {cs = []} h = ground arith
  state_changes_of-AreChanges (d ∷ ds) f {cs = c ∷ cs} h =
      let (c', e, k) = >>=-eq-ok (or_unset x (ledger_entry_change_from_xdr_diff x d f)) _ h in
      let (cs', e', k') = >>=-eq-ok (state_changes_of x ds f) _ k in
      let heads : c' ≡ c = cc in
      let tails : cs' ≡ cs = cc in
      (
        from_xdr_diff-IsChange d f (rw (← heads) e),
        state_changes_of-AreChanges ds f (rw (← tails) e'),
      )

  add_data-keeps :
      (f : Format) (r : SimulateTransactionResponse) (p : Preflight)
      {s : SimulateTransactionResponse}
      → add_data x f r p ≡ ok s
      → (s.state_changes ≡ r.state_changes)
        × (s.error ≡ r.error)
        × (s.min_resource_fee ≡ r.min_resource_fee)
        × (s.latest_ledger ≡ r.latest_ledger)
        × (s.results ≡ r.results)
        × (s.restore_preamble ≡ r.restore_preamble)
  unfolding add_data
  add_data-keeps json r p h = ground arith
  add_data-keeps empty r p h = ground arith
  add_data-keeps base64 r p h = ground arith
  add_data-keeps unknown r p h = ground arith

  results-nil :
      (p : Preflight) (f : Format) {rs : List SimulateHostFunctionResult}
      → get_simulation_results x p f ≡ ok rs
      → (rs ≡ []) ↔ (present p.result ≡ false)
  unfolding get_simulation_results
  results-nil p f h = elim (Bool-cases (present p.result)) [
    | inl e ↦ ground arith
    | inr e ↦ ground arith
  ]

  restore_preamble-none :
      (p : Preflight) (f : Format) {o : Option RestorePreamble}
      → get_restore_preamble x p f ≡ ok o
      → (o ≡ none) ↔ (present p.pre_restore_transaction_data ≡ false)
  unfolding get_restore_preamble
  restore_preamble-none p f h = elim (Bool-cases (present p.pre_restore_transaction_data)) [
    | inl e ↦ ground arith
    | inr e ↦ ground arith
  ]

  -- A response with no error of its own has the error and the fee of the preflight and the latest
  -- ledger; it has results if and only if the preflight has a result, and a preamble if and only if
  -- there is data to restore; and it has one change for each difference, in their order: an unset one
  -- for a difference with no entry, and otherwise one of the type created, updated or deleted that the
  -- entries before and after make it. With the XDR format the change has both entries. With the JSON
  -- format its field for the entry before has the JSON of the entry after whenever there is one, and
  -- its field for the entry after is empty.
  pub format_response_lem :
      (p : Preflight) (f : Format) (latest_ledger : ℕ) {s : SimulateTransactionResponse}
      → format_response x p f latest_ledger ≡ ok s
      → AreChanges f p.ledger_entry_diff s.state_changes
        × (s.error ≡ p.error)
        × (s.min_resource_fee ≡ p.min_fee)
        × (s.latest_ledger ≡ latest_ledger)
        × ((s.results ≡ []) ↔ (present p.result ≡ false))
        × ((s.restore_preamble ≡ none) ↔ (present p.pre_restore_transaction_data ≡ false))
  unfolding format_response
  format_response_lem p f latest_ledger {s} h =
      let (results, e, k) = >>=-eq-ok (get_simulation_results x p f) _ h in
      let (preamble, e', k') = >>=-eq-ok (get_restore_preamble x p f) _ k in
      let (changes, e'', k'') = >>=-eq-ok (state_changes_of x p.ledger_entry_diff f) _ k' in
      let (same, error, fee, ledger, same_results, same_preamble) = add_data-keeps f _ p k'' in
      (
        rw same (state_changes_of-AreChanges p.ledger_entry_diff f e''),
        error,
        fee,
        ledger,
        rw same_results (results-nil p f e),
        rw same_preamble (restore_preamble-none p f e'),
      )
