-- ===== src/Methods/GetEvents/Types.antt =====
-- The condition of the query on the column of event types, against the filters of the request.
use stellar_stellar_rpc.Base.{
  ◌≡◌, ◌≢◌, refl, ◌⊎◌, inl, inr, List, [], ◌∷◌, Bool, true, false, arith, Bool-cases, if◌then◌else◌,
}
use stellar_stellar_rpc.Base.Weights.{All}
use stellar_stellar_rpc.Protocol.EventFilter.{
  EventType, system, contract, diagnostic, TypeKey, known, other, EventFilter, same_type, is_key,
  has_key, type_matches,
}
use stellar_stellar_rpc.Db.Events.{has_type, type_selected}
use stellar_stellar_rpc.Methods.GetEvents.Combine.{type_of_key, add_types, combine_event_types}
use stellar_stellar_rpc.Base.Weights.{Any}

same_type_refl : (t : EventType) → same_type t t ≡ true
same_type_refl system = refl
same_type_refl contract = refl
same_type_refl diagnostic = refl

has_type-known :
    (k : TypeKey) (t : EventType) → is_key t k ≡ true → same_type t (type_of_key k) ≡ true
has_type-known (known u) t h = h
has_type-known other t h = cc

add_types_mono :
    (ks : List TypeKey) (types : List EventType) (t : EventType)
    → has_type types t ≡ true
    → has_type (add_types ks types) t ≡ true
unfolding add_types has_type
add_types_mono [] types t h = h
add_types_mono (k ∷ ks) types t h = add_types_mono ks _ t (kept (has_type types (type_of_key k)))
  where
    kept : (b : Bool) → has_type (if b then types else type_of_key k ∷ types) t ≡ true
    kept true = h
    kept false = ground (arith, h)

same_type_eq : (t u : EventType) → same_type t u ≡ true → t ≡ u
same_type_eq system system h = refl
same_type_eq contract contract h = refl
same_type_eq diagnostic diagnostic h = refl
same_type_eq system contract h = cc
same_type_eq system diagnostic h = cc
same_type_eq contract system h = cc
same_type_eq contract diagnostic h = cc
same_type_eq diagnostic system h = cc
same_type_eq diagnostic contract h = cc

add_types-has_key :
    (ks : List TypeKey) (types : List EventType) (t : EventType)
    → has_key ks t ≡ true
    → has_type (add_types ks types) t ≡ true
unfolding add_types has_key has_type
add_types-has_key [] types t h = cc
add_types-has_key (k ∷ ks) types t h = elim (Bool-cases (is_key t k)) [
  | inl e ↦ add_types_mono ks _ t (added (has_type types (type_of_key k)) refl e)
  | inr e ↦ add_types-has_key ks _ t (ground (arith, e, h))
]
  where
    added :
        (b : Bool)
        → has_type types (type_of_key k) ≡ b
        → is_key t k ≡ true
        → has_type (if b then types else type_of_key k ∷ types) t ≡ true
    added true e h = rw (same_type_eq t (type_of_key k) (has_type-known k t h)) e
    added false e h = ground (arith, has_type-known k t h)

has_key-type_matches :
    (t : EventType) (ks : List TypeKey) → ks ≢ [] → type_matches ks t ≡ true → has_key ks t ≡ true
unfolding type_matches
has_key-type_matches t [] h e = absurd (h refl)
has_key-type_matches t (k ∷ ks) h e = e

type_selected-has :
    (t : EventType) (types : List EventType)
    → has_type types t ≡ true
    → type_selected types t ≡ true
unfolding type_selected
type_selected-has t [] h = refl
type_selected-has t (u ∷ us) h = h

module _ {V : Type 0} (t : EventType) where
  combine_mono :
      (fs : List (EventFilter V)) (types : List EventType)
      → has_type types t ≡ true
      → has_type (combine_event_types fs types) t ≡ true
  unfolding combine_event_types
  combine_mono [] types h = h
  combine_mono (f ∷ fs) types h = combine_mono fs _ (add_types_mono f.event_type types t h)

  combine-has_type :
      (fs : List (EventFilter V)) (types : List EventType)
      → All (λ f. f.event_type ≢ []) fs
      → Any (λ f. type_matches f.event_type t ≡ true) fs
      → has_type (combine_event_types fs types) t ≡ true
  unfolding combine_event_types
  combine-has_type [] types h a = absurd a
  combine-has_type (f ∷ fs) types h (inl e) =
      combine_mono fs _
        (add_types-has_key f.event_type types t (has_key-type_matches t f.event_type h.0 e))
  combine-has_type (f ∷ fs) types h (inr a) = combine-has_type fs _ h.1 a

  combine-nil :
      (fs : List (EventFilter V)) → All (λ f. f.event_type ≡ []) fs → combine_event_types fs [] ≡ []
  unfolding combine_event_types add_types
  combine-nil [] h = refl
  combine-nil (f ∷ fs) h = rw h.0 (combine-nil fs h.1)

  -- Where all the filters name types, or none does, the condition on the types keeps what a filter
  -- matches.
  pub type_selected-combine :
      (fs : List (EventFilter V))
      → All (λ f. f.event_type ≢ []) fs ⊎ All (λ f. f.event_type ≡ []) fs
      → Any (λ f. type_matches f.event_type t ≡ true) fs
      → type_selected (combine_event_types fs []) t ≡ true
  unfolding type_selected
  type_selected-combine fs (inl h) a = type_selected-has t _ (combine-has_type fs [] h a)
  type_selected-combine fs (inr h) a = rw (combine-nil fs h) refl
