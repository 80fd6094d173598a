-- ===== src/Methods/GetEvents/Window.antt =====
-- What getEvents finds: the first events of the cursor range that the request matches.
use stellar_stellar_rpc.Base.{
  ℕ, ◌-◌, ◌<◌, ◌≡◌, refl, ap, ◌∙◌, Option, none, some, List, [], ◌∷◌, Bool, true, false, arith,
  take, Outcome, ok, ok-injective, err, panic, if◌then◌else◌,
}
use mathlib.Core.Path.{subst}
use stellar_stellar_rpc.Methods.GetLedgers.{invalid_request, invalid_params}
use stellar_stellar_rpc.Base.Decimal.{Bytes}
use stellar_stellar_rpc.Base.Weights.{All}
use stellar_stellar_rpc.BucketWindow.{LedgerRange}
use stellar_stellar_rpc.Protocol.Cursor.{CursorRange}
use stellar_stellar_rpc.Protocol.EventFilter.{GetEventsRequest, filters_valid}
use stellar_stellar_rpc.Db.Trim.{keep}
use stellar_stellar_rpc.Db.Events.{EventRow, EventQuery, in_range, row_selected, get_events_rows}
use stellar_stellar_rpc.Methods.GetEvents.{
  EventsHandler, coded, events_query, find_events, limit_of, start_of, end_ledger_of,
}
use stellar_stellar_rpc.Methods.GetEvents.Combine.{
  combine_contract_ids, combine_topics, combine_event_types,
}
use stellar_stellar_rpc.Methods.GetEvents.Prefilter.{IsUniform, IsQueryFor}
use stellar_stellar_rpc.Methods.GetEvents.Valid.{filters_valid-All}
use stellar_stellar_rpc.Methods.GetEvents.Scan.{
  IsStored, matching, scan_rows-matching, matching-keep, All-keep,
}

minus_zero : (n : ℕ) → n - 0 ≡ n
minus_zero n = omega arith

module _ {V : Type 0} where
  -- from the first cursor of a request to the first ledger behind its search
  abbrev pub window_of : LedgerRange → GetEventsRequest V → CursorRange
  window_of range g = record {
    start = start_of g;
    finish = record { ledger = end_ledger_of range g; tx = 0; op = 0; event = 0 };
  }

  pub events_query-IsQueryFor :
      (h : EventsHandler V) (g : GetEventsRequest V) (range : LedgerRange) {q : EventQuery}
      → events_query h g range ≡ ok q
      → IsQueryFor h.sdk g.filters q × (q.cursor_range ≡ window_of range g)
  unfolding events_query
  events_query-IsQueryFor h g range {q = q} e = by_parts _ _ _ refl refl e
    where
      by_parts :
          (b : Bool) (o : Option (List Bytes)) (t : Outcome (Unit {0}) (List (List Bytes)))
          → combine_contract_ids h.sdk g.filters ≡ o
          → combine_topics h.sdk g.filters ([] ∷ [] ∷ [] ∷ [] ∷ []) ≡ t
          → (if b then err (coded invalid_request) else elim o [
            | none ↦ err (coded invalid_params)
            | some ids ↦ elim t [
              | err _ ↦ err (coded invalid_params)
              | panic ↦ panic
              | ok topics ↦ ok (record {
                cursor_range = window_of range g;
                contract_ids = ids;
                topics = topics;
                event_types = combine_event_types g.filters [];
              })
            ]
          ])
            ≡ ok q
          → IsQueryFor h.sdk g.filters q × (q.cursor_range ≡ window_of range g)
      by_parts true o t c d k = cc
      by_parts false none t c d k = cc
      by_parts false (some ids) (err x) c d k = cc
      by_parts false (some ids) panic c d k = cc
      by_parts false (some ids) (ok topics) c d k =
          subst (λ q'. IsQueryFor h.sdk g.filters q' × (q'.cursor_range ≡ window_of range g))
            (ok-injective k) (record { ids = c; topics = d; types = refl }, refl)

  -- For a request with valid filters that agree in what they restrict, getEvents finds the first
  -- events, up to the limit, of those that lie in the cursor range of the search and that the
  -- request matches, in their order: the conditions of the query and the scan lose none, take no
  -- other, and nothing panics. The limit is positive and the rows are those of InsertEvents.
  pub find_events-window :
      (h : EventsHandler V) (table : List (EventRow V)) (g : GetEventsRequest V)
      (range : LedgerRange) {q : EventQuery}
      → filters_valid h.sdk g.filters ≡ none
      → IsUniform h.sdk g.filters
      → All (IsStored h.sdk h.toid) table
      → 0 < limit_of h.default_limit g
      → events_query h g range ≡ ok q
      → find_events h false table g q
        ≡ ok (
            take (limit_of h.default_limit g) (
              matching h.sdk h.toid g.filters
                (keep (λ row. in_range h.toid (window_of range g) row.id) table)))
  unfolding find_events get_events_rows
  find_events-window h table g range {q = q} valid u stored room e =
      let ok_topics = filters_valid-All h.sdk g.filters valid in
      let (query, window) = events_query-IsQueryFor h g range e in
      scan_rows-matching h.sdk h.toid g.filters ok_topics (limit_of h.default_limit g) _ [] room
        (All-keep _ (row_selected h.toid q) table stored)
      ∙ ap (λ n. ok (take n (matching h.sdk h.toid g.filters (keep (row_selected h.toid q) table))))
          (minus_zero (limit_of h.default_limit g))
      ∙ ap (λ es. ok (take (limit_of h.default_limit g) es))
          (matching-keep h.sdk h.toid g.filters ok_topics q table u query stored
            ∙ ap
                (λ r.
                  matching h.sdk h.toid g.filters (keep (λ row. in_range h.toid r row.id) table))
                window)
