-- ===== src/Methods/GetEvents/Mixed.antt =====
-- Filters of which one names event types and another does not.
use stellar_stellar_rpc.Base.{
  ◌≡◌, ◌≢◌, refl, ap, ◌∙◌, inl, inr, none, List, [], ◌∷◌, Bool, true, false, ◌||◌, arith,
  Bool-cases, ok, if◌then◌else◌, err,
}
use stellar_stellar_rpc.Base.Weights.{All, Any}
use stellar_stellar_rpc.BucketWindow.{LedgerRange}
use stellar_stellar_rpc.Protocol.EventFilter.{
  Sdk, EventType, TypeKey, known, other, EventFilter, GetEventsRequest, same_type, has_key,
  types_valid, filter_valid, filters_valid,
}
use stellar_stellar_rpc.Db.Trim.{keep}
use stellar_stellar_rpc.Db.Events.{
  EventRow, EventQuery, has_type, type_selected, columns_selected, row_selected, get_events_rows,
  scan_rows, query_failed,
}
use stellar_stellar_rpc.Methods.GetEvents.{
  EventsHandler, events_query, find_events, collect_event, limit_of,
}
use stellar_stellar_rpc.Methods.GetEvents.Combine.{type_of_key, add_types, combine_event_types}
use stellar_stellar_rpc.Methods.GetEvents.Window.{events_query-IsQueryFor}

add_types-lacks :
    (t : EventType) (ks : List TypeKey) (types : List EventType)
    → types_valid ks ≡ true
    → has_key ks t ≡ false
    → has_type types t ≡ false
    → has_type (add_types ks types) t ≡ false
unfolding add_types types_valid has_key has_type
add_types-lacks t [] types v k h = h
add_types-lacks t (other ∷ ks) types v k h = cc
add_types-lacks t (known u ∷ ks) types v k h = elim (Bool-cases (same_type t u)) [
  | inl e ↦ absurd (ground (arith, e, k))
  | inr e ↦ add_types-lacks t ks _ v (ground (arith, e, k)) (added (has_type types u) e)
]
  where
    added : (b : Bool) → same_type t u ≡ false → has_type (if b then types else u ∷ types) t ≡ false
    added true e = h
    added false e = ground (arith, e, h)

add_types-kept : (ks : List TypeKey) (types : List EventType) → types ≢ [] → add_types ks types ≢ []
unfolding add_types
add_types-kept [] types h = h
add_types-kept (k ∷ ks) types h = add_types-kept ks _ (kept (has_type types (type_of_key k)))
  where
    kept : (b : Bool) → (if b then types else type_of_key k ∷ types) ≢ []
    kept true = h
    kept false = λ e. cc

add_types-named : (ks : List TypeKey) → ks ≢ [] → add_types ks [] ≢ []
unfolding add_types has_type
add_types-named [] h = absurd (h refl)
add_types-named (k ∷ ks) h = add_types-kept ks (type_of_key k ∷ []) (λ e. cc)

type_selected-lacks :
    (types : List EventType) (t : EventType)
    → types ≢ []
    → has_type types t ≡ false
    → type_selected types t ≡ false
unfolding type_selected
type_selected-lacks [] t h e = absurd (h refl)
type_selected-lacks (u ∷ us) t h e = e

module _ {V : Type 0} where
  combine-lacks :
      (t : EventType) (fs : List (EventFilter V)) (types : List EventType)
      → All (λ f. types_valid f.event_type ≡ true) fs
      → All (λ f. has_key f.event_type t ≡ false) fs
      → has_type types t ≡ false
      → has_type (combine_event_types fs types) t ≡ false
  unfolding combine_event_types
  combine-lacks t [] types v k h = h
  combine-lacks t (f ∷ fs) types v k h =
      combine-lacks t fs _ v.1 k.1 (add_types-lacks t f.event_type types v.0 k.0 h)

  combine-kept :
      (fs : List (EventFilter V)) (types : List EventType)
      → types ≢ []
      → combine_event_types fs types ≢ []
  unfolding combine_event_types
  combine-kept [] types h = h
  combine-kept (f ∷ fs) types h = combine-kept fs _ (add_types-kept f.event_type types h)

  combine-named :
      (fs : List (EventFilter V)) → Any (λ f. f.event_type ≢ []) fs → combine_event_types fs [] ≢ []
  unfolding combine_event_types add_types
  combine-named [] a = absurd a
  combine-named (f ∷ fs) (inl h) = combine-kept fs _ (add_types-named f.event_type h)
  combine-named (f ∷ fs) (inr a) = by_head f.event_type (combine-named fs a)
    where
      by_head :
          (ks : List TypeKey)
          → combine_event_types fs [] ≢ []
          → combine_event_types fs (add_types ks []) ≢ []
      by_head [] ih = ih
      by_head (k ∷ ks) ih = combine-kept fs _ (add_types-named (k ∷ ks) (λ e. cc))

  filter_valid-types :
      (sdk : Sdk V) (f : EventFilter V)
      → filter_valid sdk f ≡ none
      → types_valid f.event_type ≡ true
  unfolding filter_valid
  filter_valid-types sdk f h = elim (Bool-cases (types_valid f.event_type)) [
    | inl e ↦ e
    | inr e ↦ absurd (ground (arith, e, h))
  ]

  filters_valid-types :
      (sdk : Sdk V) (fs : List (EventFilter V))
      → filters_valid sdk fs ≡ none
      → All (λ f. types_valid f.event_type ≡ true) fs
  unfolding filters_valid
  filters_valid-types sdk [] h = tt
  filters_valid-types sdk (f ∷ fs) h =
      (filter_valid-types sdk f (ground (arith, h)), filters_valid-types sdk fs (ground (arith, h)))

  -- whether a filter names the type of a row
  abbrev pub names : List (EventFilter V) → EventRow V → Bool
  names [] row = false
  names (f ∷ fs) row = has_key f.event_type row.event_type || names fs row

  names-lacks :
      (fs : List (EventFilter V)) (row : EventRow V)
      → names fs row ≡ false
      → All (λ f. has_key f.event_type row.event_type ≡ false) fs
  names-lacks [] row h = tt
  names-lacks (f ∷ fs) row h = (ground (arith, h), names-lacks fs row (ground (arith, h)))

  -- What another test rejects may be left out before.
  keep_first :
      (p n : EventRow V → Bool)
      → ((r : EventRow V) → n r ≡ false → p r ≡ false)
      → (rows : List (EventRow V)) → keep p rows ≡ keep p (keep n rows)
  unfolding keep
  keep_first p n h [] = refl
  keep_first p n h (r ∷ rows) = elim (Bool-cases (n r)) [
    | inl e ↦ rw e (ap (λ ks. if p r then r ∷ ks else ks) (keep_first p n h rows))
    | inr e ↦ rw (e, h r e) (keep_first p n h rows)
  ]

  -- For valid filters of which one names event types, getEvents gives on any table, errors included,
  -- what it gives on the rows of that table whose types some filter names: the others are never
  -- found, even where another filter names no types and so matches the events of all types.
  pub find_events-mixed :
      (h : EventsHandler V) (table : List (EventRow V)) (g : GetEventsRequest V)
      (range : LedgerRange) (query_fails : Bool) {q : EventQuery}
      → filters_valid h.sdk g.filters ≡ none
      → Any (λ f. f.event_type ≢ []) g.filters
      → events_query h g range ≡ ok q
      → find_events h query_fails table g q
        ≡ find_events h query_fails (keep (names g.filters) table) g q
  unfolding find_events get_events_rows columns_selected has_type
  find_events-mixed h table g range query_fails {q = q} valid named e =
      ap
        (λ rows.
          if query_fails
          then err query_failed
          else scan_rows h.toid (collect_event h.sdk g.filters (limit_of h.default_limit g)) rows
              [])
        (keep_first (row_selected h.toid q) (names g.filters) rejected table)
    where
      rejected : (r : EventRow V) → names g.filters r ≡ false → row_selected h.toid q r ≡ false
      rejected r l =
          let query = (events_query-IsQueryFor h g range e).0 in
          let no_type : type_selected q.event_types r.event_type ≡ false =
            ap (λ ts. type_selected ts r.event_type) query.types
            ∙ type_selected-lacks _ r.event_type (combine-named g.filters named) (
                combine-lacks r.event_type g.filters [] (filters_valid-types h.sdk g.filters valid)
                  (names-lacks g.filters r l) refl) in
          ground (arith, no_type)
