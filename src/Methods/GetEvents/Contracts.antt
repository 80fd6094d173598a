-- ===== src/Methods/GetEvents/Contracts.antt =====
-- The condition of the query on the column of contract identifiers, against the filters of the
-- request.
use mathlib.Core.Path.{subst}
use stellar_stellar_rpc.Base.{
  ◌≡◌, ◌≢◌, refl, sym, ap, ◌∙◌, ◌⊎◌, inl, inr, Option, none, some, List, [], ◌∷◌, ◌++◌, true, false,
  arith, Bool-cases, Option-cases,
}
use stellar_stellar_rpc.Base.Decimal.{
  Bytes, bytes_eq, bytes_eq_iff, contains, contains-append_left, contains-append_end, bytes_eq_refl,
}
use stellar_stellar_rpc.Base.Weights.{All, Any}
use stellar_stellar_rpc.Base.Maybe.{>>=-eq-some, some-injective}
use stellar_stellar_rpc.Protocol.EventFilter.{Sdk, EventFilter, matches_contract_ids}
use stellar_stellar_rpc.Db.Events.{id_selected}
use stellar_stellar_rpc.Methods.GetEvents.Combine.{add_ids, add_filter_ids, combine_contract_ids}

-- The identifiers that are decoded are those of the texts seen.
abbrev pub IsDecoded : {V : Type 0} → Sdk V → List Bytes × List Bytes → Type 0
IsDecoded sdk (seen, decoded) =
    (s d : Bytes)
    → contains seen s ≡ true
    → sdk.decode_contract s ≡ some d
    → contains decoded d ≡ true

module _ {V : Type 0} (sdk : Sdk V) where
  IsDecoded-add :
      (seen decoded : List Bytes) (id d : Bytes)
      → sdk.decode_contract id ≡ some d
      → IsDecoded sdk (seen, decoded)
      → IsDecoded sdk (id ∷ seen, decoded ++ (d ∷ []))
  unfolding contains
  IsDecoded-add seen decoded id d e inv s d' h k = elim (Bool-cases (bytes_eq s id)) [
    | inl same ↦
        let same_id : d ≡ d' =
          some-injective (sym e ∙ ap sdk.decode_contract (sym ((bytes_eq_iff s id).0 same)) ∙ k) in
        rw (← same_id) (contains-append_end decoded d)
    | inr apart ↦ contains-append_left decoded (d ∷ []) d' (inv s d' (ground (arith, apart, h)) k)
  ]

  -- what the loop over the identifiers of a filter establishes
  pub record Added (ids : List Bytes) (acc acc' : List Bytes × List Bytes) : Type 0 where
    pub decoded : IsDecoded sdk acc'
    pub seen_kept : (s : Bytes) → contains acc.0 s ≡ true → contains acc'.0 s ≡ true
    pub seen : (s : Bytes) → contains ids s ≡ true → contains acc'.0 s ≡ true

  add_ids-old :
      (ids seen decoded : List Bytes) (id : Bytes)
      → contains seen id ≡ true
      → add_ids sdk (id ∷ ids) (seen, decoded) ≡ add_ids sdk ids (seen, decoded)
  unfolding add_ids
  add_ids-old ids seen decoded id h = ground (arith, h)

  add_ids-new :
      (ids seen decoded : List Bytes) (id d : Bytes)
      → contains seen id ≡ false
      → sdk.decode_contract id ≡ some d
      → add_ids sdk (id ∷ ids) (seen, decoded) ≡ add_ids sdk ids (id ∷ seen, decoded ++ (d ∷ []))
  unfolding add_ids
  add_ids-new ids seen decoded id d h e = ground (arith, h, e)

  add_ids-bad :
      (ids seen decoded : List Bytes) (id : Bytes)
      → contains seen id ≡ false
      → sdk.decode_contract id ≡ none
      → add_ids sdk (id ∷ ids) (seen, decoded) ≡ none
  unfolding add_ids
  add_ids-bad ids seen decoded id h e = ground (arith, h, e)

  contains-cons :
      (id : Bytes) (ids : List Bytes) (s : Bytes)
      → contains (id ∷ ids) s ≡ true
      → (s ≡ id) ⊎ (contains ids s ≡ true)
  unfolding contains
  contains-cons id ids s h = elim (Bool-cases (bytes_eq s id)) [
    | inl e ↦ inl ((bytes_eq_iff s id).0 e)
    | inr e ↦ inr (ground (arith, e, h))
  ]

  contains-later :
      (id : Bytes) (ids : List Bytes) (s : Bytes)
      → contains ids s ≡ true
      → contains (id ∷ ids) s ≡ true
  unfolding contains
  contains-later id ids s h = ground (arith, h)

  contains-head : (id : Bytes) (ids : List Bytes) → contains (id ∷ ids) id ≡ true
  unfolding contains
  contains-head id ids = ground (arith, bytes_eq_refl id)

  Added-cons :
      (id : Bytes) (ids : List Bytes) (acc mid acc' : List Bytes × List Bytes)
      → ((s : Bytes) → contains acc.0 s ≡ true → contains mid.0 s ≡ true)
      → contains mid.0 id ≡ true
      → Added ids mid acc'
      → Added (id ∷ ids) acc acc'
  Added-cons id ids acc mid acc' keeps has r = record {
    decoded = r.decoded;
    seen_kept = λ s h. r.seen_kept s (keeps s h);
    seen = λ s h. by_head s (contains-cons id ids s h);
  }
    where
      by_head : (s : Bytes) → (s ≡ id) ⊎ (contains ids s ≡ true) → contains acc'.0 s ≡ true
      by_head s (inl e) = rw e (r.seen_kept id has)
      by_head s (inr h) = r.seen s h

  add_ids-Added :
      (ids : List Bytes) (acc acc' : List Bytes × List Bytes)
      → IsDecoded sdk acc
      → add_ids sdk ids acc ≡ some acc'
      → Added ids acc acc'
  unfolding add_ids contains
  add_ids-Added [] acc acc' inv e =
      subst (Added [] acc) (some-injective e)
        (record { decoded = inv; seen_kept = λ s h. h; seen = λ s h. cc })
  add_ids-Added (id ∷ ids) (seen, decoded) acc' inv e = elim (Bool-cases (contains seen id)) [
    | inl h ↦
        Added-cons id ids (seen, decoded) (seen, decoded) acc' (λ s k. k) h
          (add_ids-Added ids (seen, decoded) acc' inv (sym (add_ids-old ids seen decoded id h) ∙ e))
    | inr h ↦ elim (Option-cases (sdk.decode_contract id)) [
      | inl k ↦ absurd (none_ne_some (sym (add_ids-bad ids seen decoded id h k) ∙ e))
      | inr (d, k) ↦
          Added-cons id ids (seen, decoded) (id ∷ seen, decoded ++ (d ∷ [])) acc'
            (contains-later id seen) (contains-head id seen)
            (add_ids-Added ids (id ∷ seen, decoded ++ (d ∷ [])) acc'
              (IsDecoded-add seen decoded id d k inv)
              (sym (add_ids-new ids seen decoded id d h k) ∙ e))
    ]
  ]
    where
      none_ne_some : {x : List Bytes × List Bytes} → none ≡ some x → ⊥
      none_ne_some h = cc

  add_filter_ids-seen :
      (fs : List (EventFilter V)) (acc acc' : List Bytes × List Bytes)
      → IsDecoded sdk acc
      → add_filter_ids sdk fs acc ≡ some acc'
      → IsDecoded sdk acc'
        × ((s : Bytes) → contains acc.0 s ≡ true → contains acc'.0 s ≡ true)
        × ((s : Bytes) → Any (λ f. contains f.contract_ids s ≡ true) fs → contains acc'.0 s ≡ true)
  unfolding add_filter_ids
  add_filter_ids-seen [] acc acc' inv e =
      subst
        (λ a.
          IsDecoded sdk a
          × ((s : Bytes) → contains acc.0 s ≡ true → contains a.0 s ≡ true)
          × ((s : Bytes) → ⊥ → contains a.0 s ≡ true))
        (some-injective e) (inv, (λ s h. h), (λ s h. absurd h))
  add_filter_ids-seen (f ∷ fs) acc acc' inv e =
      let (mid, first, later) =
        >>=-eq-some (add_ids sdk f.contract_ids acc) (add_filter_ids sdk fs) e in
      let a = add_ids-Added f.contract_ids acc mid inv first in
      let r = add_filter_ids-seen fs mid acc' a.decoded later in
      (
        r.0,
        (λ s h. r.1 s (a.seen_kept s h)),
        (λ s h. elim h [ inl k ↦ r.1 s (a.seen s k) | inr k ↦ r.2 s k ]),
      )

  add_filter_ids-nil :
      (fs : List (EventFilter V)) (acc : List Bytes × List Bytes)
      → All (λ f. f.contract_ids ≡ []) fs
      → add_filter_ids sdk fs acc ≡ some acc
  unfolding add_filter_ids add_ids
  add_filter_ids-nil [] acc h = refl
  add_filter_ids-nil (f ∷ fs) acc h = rw h.0 (add_filter_ids-nil fs acc h.1)

  id_selected-contains :
      (ids : List Bytes) (c : Bytes) → contains ids c ≡ true → id_selected ids (some c) ≡ true
  unfolding id_selected
  id_selected-contains [] c h = refl
  id_selected-contains (id ∷ ids) c h = h

  contains-matches :
      (ids : List Bytes) (c : Bytes)
      → ids ≢ []
      → matches_contract_ids sdk ids (some c) ≡ true
      → contains ids (sdk.encode_contract c) ≡ true
  unfolding matches_contract_ids
  contains-matches [] c h e = absurd (h refl)
  contains-matches (id ∷ ids) c h e = e

  not-matches-none : (ids : List Bytes) → ids ≢ [] → matches_contract_ids sdk ids none ≡ true → ⊥
  unfolding matches_contract_ids
  not-matches-none [] h e = h refl
  not-matches-none (id ∷ ids) h e = cc

  Any-contains :
      (fs : List (EventFilter V)) (c : Bytes)
      → All (λ f. f.contract_ids ≢ []) fs
      → Any (λ f. matches_contract_ids sdk f.contract_ids (some c) ≡ true) fs
      → Any (λ f. contains f.contract_ids (sdk.encode_contract c) ≡ true) fs
  Any-contains [] c h a = a
  Any-contains (f ∷ fs) c h (inl e) = inl (contains-matches f.contract_ids c h.0 e)
  Any-contains (f ∷ fs) c h (inr a) = inr (Any-contains fs c h.1 a)

  not-Any-none :
      (fs : List (EventFilter V))
      → All (λ f. f.contract_ids ≢ []) fs
      → Any (λ f. matches_contract_ids sdk f.contract_ids none ≡ true) fs
      → ⊥
  not-Any-none [] h a = a
  not-Any-none (f ∷ fs) h (inl e) = not-matches-none f.contract_ids h.0 e
  not-Any-none (f ∷ fs) h (inr a) = not-Any-none fs h.1 a

  combined-selected :
      (fs : List (EventFilter V)) (acc : List Bytes × List Bytes) (o : Option Bytes)
      → add_filter_ids sdk fs ([], []) ≡ some acc
      → All (λ f. f.contract_ids ≢ []) fs ⊎ All (λ f. f.contract_ids ≡ []) fs
      → Any (λ f. matches_contract_ids sdk f.contract_ids o ≡ true) fs
      → id_selected acc.1 o ≡ true
  unfolding id_selected contains
  combined-selected fs acc o e (inr h) a =
      rw (← some-injective (sym (add_filter_ids-nil fs ([], []) h) ∙ e)) refl
  combined-selected fs acc none e (inl h) a = absurd (not-Any-none fs h a)
  combined-selected fs acc (some c) e (inl h) a =
      let r = add_filter_ids-seen fs ([], []) acc (λ s d k. cc) e in
      id_selected-contains acc.1 c (
        r.0 (sdk.encode_contract c) c (r.2 (sdk.encode_contract c) (Any-contains fs c h a))
          (sdk.decode_encode c))

  -- Where all the filters name contracts, or none does, the condition on the identifiers keeps what
  -- a filter matches.
  pub id_selected-combine :
      (fs : List (EventFilter V)) (ids : List Bytes) (o : Option Bytes)
      → combine_contract_ids sdk fs ≡ some ids
      → All (λ f. f.contract_ids ≢ []) fs ⊎ All (λ f. f.contract_ids ≡ []) fs
      → Any (λ f. matches_contract_ids sdk f.contract_ids o ≡ true) fs
      → id_selected ids o ≡ true
  unfolding combine_contract_ids
  id_selected-combine fs ids o e h a =
      let (acc, found, same) = >>=-eq-some (add_filter_ids sdk fs ([], [])) (λ acc. some acc.1) e in
      rw (← some-injective same) (combined-selected fs acc o found h a)
