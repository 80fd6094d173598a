-- ===== src/Methods/GetEvents/Scan.antt =====
-- The loop over the rows of the event table takes what the request matches, up to the limit.
use stellar_stellar_rpc.Base.{
  take-room, take-full, take_nil, ℕ, ◌+◌, ◌-◌, ◌<◌, ◌≡◌, refl, sym, ap, ◌∙◌, inl, inr, Option, none,
  some, List, [], ◌∷◌, ◌++◌, Bool, true, false, arith, Bool-cases, length, length-append, take, ltb,
  ok, if◌then◌else◌, ℤ,
}
use mathlib.Core.List.{append-nil}
use stellar_stellar_rpc.Base.Decimal.{Bytes}
use stellar_stellar_rpc.Base.Weights.{All}
use stellar_stellar_rpc.Protocol.Cursor.{Cursor, Toid, to_string, parse_cursor}
use stellar_stellar_rpc.Protocol.Cursor.Text.{IsPrintable, parse_cursor-to_string}
use stellar_stellar_rpc.Protocol.EventFilter.{Sdk, DiagnosticEvent, EventFilter, request_matches}
use stellar_stellar_rpc.Db.Trim.{keep}
use stellar_stellar_rpc.Db.Events.{
  EventRow, EventQuery, in_range, row_selected, columns_selected, scan_rows,
}
use stellar_stellar_rpc.Methods.GetEvents.{Entry, collect_event}
use stellar_stellar_rpc.Methods.GetEvents.Prefilter.{
  IsUniform, AreValidTopics, IsRowOf, IsQueryFor, columns_selected-matching,
}
use stellar_stellar_rpc.Methods.GetEvents.Valid.{request_matches-some}

-- a row as `InsertEvents` writes it, in the range of toid
pub record IsStored {V : Type 0} (sdk : Sdk V) (toid : Toid) (row : EventRow V) : Type 0 where
  pub cursor : Cursor
  pub event : DiagnosticEvent V
  pub printable : IsPrintable cursor
  pub spelled : row.id ≡ to_string toid cursor
  pub columns : IsRowOf sdk row event

module _ {V : Type 0} where
  abbrev entry : Cursor → EventRow V → DiagnosticEvent V → Entry V
  entry c row e = record {
    cursor = c;
    ledger_close_timestamp = row.ledger_close_time;
    event = e;
    tx_hash = row.transaction_hash;
  }

  abbrev entries_if : Cursor → EventRow V → DiagnosticEvent V → Option Bool → List (Entry V)
  entries_if c row e (some true) = entry c row e ∷ []
  entries_if c row e (some false) = []
  entries_if c row e none = []

  abbrev row_entries :
      Sdk V
      → List (EventFilter V)
      → EventRow V
      → Option Cursor
      → Option (DiagnosticEvent V)
      → List (Entry V)
  row_entries sdk fs row none e = []
  row_entries sdk fs row (some c) none = []
  row_entries sdk fs row (some c) (some e) = entries_if c row e (request_matches sdk fs e)

  -- the entries of all the rows whose events match
  unfoldable pub matching : Sdk V → Toid → List (EventFilter V) → List (EventRow V) → List (Entry V)
  matching sdk toid fs [] = []
  matching sdk toid fs (row ∷ rows) =
      row_entries sdk fs row (parse_cursor toid row.id) row.event_data ++ matching sdk toid fs rows

module _ {V : Type 0} {sdk : Sdk V} {toid : Toid} {row : EventRow V}
    (r : IsStored sdk toid row) where
  parse-stored : parse_cursor toid row.id ≡ some r.cursor
  parse-stored = ap (parse_cursor toid) r.spelled ∙ parse_cursor-to_string toid r.cursor r.printable

pub All-keep {ℓ} :
    {A : Type ℓ} (P : A → Type 0) (p : A → Bool) (xs : List A) → All P xs → All P (keep p xs)
unfolding keep
All-keep P p [] h = tt
All-keep P p (x ∷ xs) h = elim (Bool-cases (p x)) [
  | inl k ↦ rw k (h.0, All-keep P p xs h.1)
  | inr k ↦ rw k (All-keep P p xs h.1)
]

module _ {V S : Type 0} (toid : Toid)
    (f : DiagnosticEvent V → Cursor → ℤ → Bytes → S → Option (S × Bool)) where
  scan_rows-step :
      (row : EventRow V) (rows : List (EventRow V)) {c : Cursor} {e : DiagnosticEvent V} {s s' : S}
      (go_on : Bool)
      → parse_cursor toid row.id ≡ some c
      → row.event_data ≡ some e
      → f e c row.ledger_close_time row.transaction_hash s ≡ some (s', go_on)
      → scan_rows toid f (row ∷ rows) s ≡ (if go_on then scan_rows toid f rows s' else ok s')
  unfolding scan_rows
  scan_rows-step row rows true p d k = ground (arith, p, d, k)
  scan_rows-step row rows false p d k = ground (arith, p, d, k)

module _ {V : Type 0} (sdk : Sdk V) (toid : Toid) (fs : List (EventFilter V))
    (valid : All AreValidTopics fs) where
  collect_event-hit :
      (limit : ℕ) (row : EventRow V) (e : DiagnosticEvent V) (c : Cursor) (found : List (Entry V))
      (go_on : Bool)
      → request_matches sdk fs e ≡ some true
      → ltb (length found + 1) limit ≡ go_on
      → collect_event sdk fs limit e c row.ledger_close_time row.transaction_hash found
        ≡ some (found ++ (entry c row e ∷ []), go_on)
  unfolding collect_event
  collect_event-hit limit row e c found go_on m k = rw m (
      ap (λ n. some (found ++ (entry c row e ∷ []), ltb n limit))
        (length-append found (entry c row e ∷ []))
      ∙ ap (λ b. some (found ++ (entry c row e ∷ []), b)) k)

  collect_event-miss :
      (limit : ℕ) (row : EventRow V) (e : DiagnosticEvent V) (c : Cursor) (found : List (Entry V))
      → request_matches sdk fs e ≡ some false
      → length found < limit
      → collect_event sdk fs limit e c row.ledger_close_time row.transaction_hash found
        ≡ some (found, true)
  unfolding collect_event
  collect_event-miss limit row e c found m lt =
      let room : ltb (length found) limit ≡ true = ground arith in
      rw m (ap (λ b. some (found, b)) room)

  matching-hit :
      {row : EventRow V} (rows : List (EventRow V)) (r : IsStored sdk toid row)
      → request_matches sdk fs r.event ≡ some true
      → matching sdk toid fs (row ∷ rows) ≡ entry r.cursor row r.event ∷ matching sdk toid fs rows
  unfolding matching
  matching-hit rows r m = rw (parse-stored r, r.columns.blob, m) refl

  matching-miss :
      {row : EventRow V} (rows : List (EventRow V)) (r : IsStored sdk toid row)
      → request_matches sdk fs r.event ≡ some false
      → matching sdk toid fs (row ∷ rows) ≡ matching sdk toid fs rows
  unfolding matching
  matching-miss rows r m = rw (parse-stored r, r.columns.blob, m) refl

  -- The loop takes the entries of the rows until the limit.
  pub scan_rows-matching :
      (limit : ℕ) (rows : List (EventRow V)) (found : List (Entry V))
      → length found < limit
      → All (IsStored sdk toid) rows
      → scan_rows toid (collect_event sdk fs limit) rows found
        ≡ ok (found ++ take (limit - length found) (matching sdk toid fs rows))
  unfolding scan_rows matching collect_event
  scan_rows-matching limit [] found lt h =
      ap ok (sym (ap (found ++◌) (take_nil (limit - length found) refl) ∙ append-nil found))
  scan_rows-matching limit (row ∷ rows) found lt (r, rs) =
      let (b, m) = request_matches-some sdk fs r.event valid in
      elim (Bool-cases b) [
        | inr k ↦
            scan_rows-step toid (collect_event sdk fs limit) row rows true (parse-stored r)
              r.columns.blob
              (collect_event-miss limit row r.event r.cursor found (m ∙ ap some k) lt)
            ∙ scan_rows-matching limit rows found lt rs
            ∙ ap (λ es. ok (found ++ take (limit - length found) es))
                (sym (matching-miss rows r (m ∙ ap some k)))
        | inl k ↦ elim (Bool-cases (ltb (length found + 1) limit)) [
          | inl l ↦
              scan_rows-step toid (collect_event sdk fs limit) row rows true (parse-stored r)
                r.columns.blob
                (collect_event-hit limit row r.event r.cursor found true (m ∙ ap some k) l)
              ∙ scan_rows-matching limit rows (found ++ (entry r.cursor row r.event ∷ []))
                  (ground (arith, l, len r)) rs
              ∙ ap ok (
                  ap
                    (λ n.
                      (found ++ (entry r.cursor row r.event ∷ []))
                      ++ take (limit - n) (matching sdk toid fs rows))
                    (len r)
                  ∙ take-room limit (length found) found (matching sdk toid fs rows)
                      (entry r.cursor row r.event) (ground (arith, l))
                  ∙ ap (λ es. found ++ take (limit - length found) es)
                      (sym (matching-hit rows r (m ∙ ap some k))))
          | inr l ↦
              scan_rows-step toid (collect_event sdk fs limit) row rows false (parse-stored r)
                r.columns.blob
                (collect_event-hit limit row r.event r.cursor found false (m ∙ ap some k) l)
              ∙ ap (λ es. ok (found ++ es))
                  (sym (
                    ap (take (limit - length found)) (matching-hit rows r (m ∙ ap some k))
                    ∙ take-full limit (length found) _ _ (ground (arith, l, lt))))
        ]
      ]
    where
      len :
          (r : IsStored sdk toid row)
          → length (found ++ (entry r.cursor row r.event ∷ [])) ≡ length found + 1
      len r = length-append found (entry r.cursor row r.event ∷ [])

  pub matching-keep :
      (q : EventQuery) (rows : List (EventRow V))
      → IsUniform sdk fs
      → IsQueryFor sdk fs q
      → All (IsStored sdk toid) rows
      → matching sdk toid fs (keep (row_selected toid q) rows)
        ≡ matching sdk toid fs (keep (λ row. in_range toid q.cursor_range row.id) rows)
  unfolding keep matching
  matching-keep q [] u query h = refl
  matching-keep q (row ∷ rows) u query (r, rs) =
      let ih = matching-keep q rows u query rs in
      let (b, m) = request_matches-some sdk fs r.event valid in
      elim (Bool-cases (in_range toid q.cursor_range row.id)) [
        | inr k ↦ rw k ih
        | inl k ↦ elim (Bool-cases (columns_selected q row)) [
          | inl l ↦ rw (k, l, ih) refl
          | inr l ↦ elim (Bool-cases b) [
            | inl w ↦ absurd (
                ground (
                  arith,
                  l,
                  columns_selected-matching sdk fs q row r.event u valid query r.columns
                      (m ∙ ap some w),
                ))
            | inr w ↦ rw (k, l, parse-stored r, r.columns.blob, m, w) ih
          ]
        ]
      ]
