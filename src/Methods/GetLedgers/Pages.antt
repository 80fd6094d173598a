-- ===== src/Methods/GetLedgers/Pages.antt =====
-- The page of ledgers that `fetchLedgers` gives, from the database, the datastore or both.
use stellar_stellar_rpc.Base.{
  ℕ, ◌+◌, ◌-◌, ◌^◌, ◌≤◌, ◌<◌, ◌≡◌, refl, ap, ◌∙◌, ◌⊎◌, some, List, [], ◌++◌, map, ok, true, u32,
  arith, min, length-append, sym,
}
use mathlib.Core.Path.{subst}
use mathlib.Core.List.{Perm, append-nil}
use mathlib.Core.List.Perm
use native.Mathlib.Decide.{dec_lt}
use stellar_stellar_rpc.Base.Permutations.{sum_by-perm, sum_by-ones, fails}
use stellar_stellar_rpc.Base.Weights.{sum_by-append}
use stellar_stellar_rpc.BucketWindow.{LedgerSeqRange}
use stellar_stellar_rpc.Protocol.Pagination.{Format}
use stellar_stellar_rpc.Db.Store.{Ledger, seq, Db}
use stellar_stellar_rpc.Db.Trim.{keep}
use stellar_stellar_rpc.Db.Reader.{batch_get_ledgers, info_of}
use stellar_stellar_rpc.Methods.GetLedgers.{
  Datastore, LedgersHandler, fetch_raw, parse_ledger_infos, fetch_ledgers,
}
use stellar_stellar_rpc.Methods.GetLedgers.Segments.{
  seg, within, keep-seg, seg_eq, seg-fails, length-seg, parse_infos,
}

-- The database holds the ledgers of `at` from the first to the last one, and gives rows in any order;
-- the datastore gives any range of the ledgers before them.
pub record Holds (h : LedgersHandler) (db : Db) (at : ℕ → Ledger) (r : LedgerSeqRange)
    : Type 0 where
  pub datastore : Datastore
  pub configured : h.datastore_ledger_reader ≡ some datastore
  pub remote :
      (s e : ℕ)
      → s ≤ e
      → e < r.first_ledger
      → datastore.get_ledgers s e ≡ some (seg at s (e + 1 - s))
  pub shuffles : (ls : List Ledger) → Perm (h.row_order ls) ls
  pub here : db.tables.ledgers ≡ seg at r.first_ledger (r.last_ledger + 1 - r.first_ledger)
  pub at_seq : (n : ℕ) → seq (at n) ≡ n
  pub first_pos : 0 < r.first_ledger
  pub first_le : r.first_ledger ≤ r.last_ledger
  pub last_lt : r.last_ledger + 1 < 2 ^ 32

-- `n` ledgers from `start` reach up to `end`, or up to the last one if that comes before it.
abbrev pub IsUpTo : ℕ → ℕ → ℕ → ℕ → Type 0
IsUpTo start n end last =
    ((start + n ≡ end + 1) × (end ≤ last)) ⊎ ((start + n ≡ last + 1) × (last ≤ end))

module _ (h : LedgersHandler) (db : Db) (r : LedgerSeqRange) where
  fetch_raw-local :
      (start end : ℕ)
      → r.first_ledger ≤ start
      → start ≤ end
      → fetch_raw h db r start end ≡ ok (h.row_order (keep (within start end) db.tables.ledgers))
  unfolding fetch_raw batch_get_ledgers
  fetch_raw-local start end k l = ground arith

  fetch_raw-remote :
      (start end : ℕ) {d : Datastore} {ls : List Ledger}
      → end < r.first_ledger
      → start ≤ end
      → h.datastore_ledger_reader ≡ some d
      → d.get_ledgers start end ≡ some ls
      → fetch_raw h db r start end ≡ ok ls
  unfolding fetch_raw
  fetch_raw-remote start end k l e g = ground (arith, e, g)

  fetch_raw-both :
      (start end : ℕ) {d : Datastore} {ls : List Ledger}
      → start < r.first_ledger
      → r.first_ledger ≤ end
      → h.datastore_ledger_reader ≡ some d
      → d.get_ledgers start (u32 (r.first_ledger + 2 ^ 32 - 1)) ≡ some ls
      → fetch_raw h db r start end
        ≡ ok (ls ++ h.row_order (keep (within r.first_ledger end) db.tables.ledgers))
  unfolding fetch_raw batch_get_ledgers
  fetch_raw-both start end k l e g = ground (arith, e, g)

  fetch_ledgers-raw :
      (format : Format) (start end : ℕ) {ls : List Ledger}
      → start ≤ end
      → end + 1 < 2 ^ 32
      → fetch_raw h db r start end ≡ ok ls
      → fetch_ledgers h db r format start end
        ≡ parse_ledger_infos (h.encodes format) (end + 1 - start) ls
  unfolding fetch_ledgers
  fetch_ledgers-raw format start end {ls} l w e =
      rw (fetch_ledgers, e) (ap (λ n. parse_ledger_infos (h.encodes format) n ls) (omega arith))

  module _ (at : ℕ → Ledger) (o : Holds h db at r) (start n end : ℕ)
      (start_le : start ≤ r.last_ledger) (le : start ≤ end) (narrow : end + 1 < 2 ^ 32)
      (up_to : IsUpTo start n end r.last_ledger) where
    reach : r.first_ledger + (r.last_ledger + 1 - r.first_ledger) ≡ r.last_ledger + 1
    reach = omega (arith, o.first_le)

    in_local :
        r.first_ledger ≤ start → fetch_raw h db r start end ≡ ok (h.row_order (seg at start n))
    in_local k =
        fetch_raw-local start end k le
        ∙ ap (λ ls. ok (h.row_order ls))
            (ap (keep (within start end)) o.here
              ∙ keep-seg at o.at_seq start end r.first_ledger (r.last_ledger + 1 - r.first_ledger) n
                  k (omega (arith, reach)) (omega arith) (omega (arith, reach)))

    in_remote : end < r.first_ledger → fetch_raw h db r start end ≡ ok (seg at start n)
    in_remote k =
        fetch_raw-remote start end k le o.configured (o.remote start end le k)
        ∙ ap ok (seg_eq at o.at_seq refl (omega (arith, o.first_le)))

    before : u32 (r.first_ledger + 2 ^ 32 - 1) ≡ r.first_ledger - 1
    before = omega (arith, o.first_pos, o.first_le, o.last_lt)

    remote_part :
        start < r.first_ledger
        → seg at start (r.first_ledger - 1 + 1 - start) ≡ seg at start (r.first_ledger - start)
    remote_part k = seg_eq at o.at_seq refl (omega (arith, o.first_pos))

    local_part :
        start < r.first_ledger
        → r.first_ledger ≤ end
        → keep (within r.first_ledger end) db.tables.ledgers
          ≡ seg at r.first_ledger (n - (r.first_ledger - start))
    local_part k l =
        ap (keep (within r.first_ledger end)) o.here
        ∙ keep-seg at o.at_seq r.first_ledger end r.first_ledger
            (r.last_ledger + 1 - r.first_ledger) (n - (r.first_ledger - start)) (omega arith)
            (omega arith) (omega arith) (omega (arith, reach, o.first_le))

    in_both :
        start < r.first_ledger
        → r.first_ledger ≤ end
        → fetch_raw h db r start end
          ≡ ok (
              seg at start (r.first_ledger - start)
              ++ h.row_order (seg at r.first_ledger (n - (r.first_ledger - start))))
    in_both k l =
        fetch_raw-both start end k l o.configured (
          rw before
            (o.remote start (r.first_ledger - 1) (omega arith) (omega (arith, o.first_pos))))
        ∙ ap ok (λ i. remote_part k i ++ h.row_order (local_part k l i))

    -- how many ledgers of the page come from the datastore
    abbrev stored : ℕ
    stored = min n (r.first_ledger - start)

    page_raw :
        (rows : List Ledger) × (fetch_raw h db r start end ≡ ok (seg at start stored ++ rows))
        × Perm rows (seg at (start + stored) (n - stored))
    page_raw = elim (dec_lt start r.first_ledger) [
      | no k ↦ (
        h.row_order (seg at start n),
        in_local (omega arith)
            ∙ ap (λ m. ok (seg at start m ++ h.row_order (seg at start n))) {x = 0} {y = stored}
                (omega arith),
        subst (Perm (h.row_order (seg at start n)))
            (seg_eq at o.at_seq {a = start} {b = start + stored} {m = n} {n = n - stored}
              (omega arith) (omega arith))
            (o.shuffles (seg at start n)),
      )
      | yes k ↦ elim (dec_lt end r.first_ledger) [
        | yes l ↦ (
          [],
          in_remote l
              ∙ ap ok (
                  seg_eq at o.at_seq {a = start} {b = start} {m = n} {n = stored} refl
                    (omega (arith, o.first_le))
                  ∙ sym (append-nil (seg at start stored))),
          subst (λ m. Perm [] (seg at (start + stored) m)) {x = 0} {y = n - stored}
              (omega (arith, o.first_le)) Perm.nil,
        )
        | no l ↦ (
          h.row_order (seg at r.first_ledger (n - (r.first_ledger - start))),
          in_both k (omega arith)
              ∙ ap
                  (λ m. ok (
                    seg at start m
                    ++ h.row_order (seg at r.first_ledger (n - (r.first_ledger - start)))))
                  {x = r.first_ledger - start} {y = stored} (omega (arith, o.first_le)),
          subst (Perm (h.row_order (seg at r.first_ledger (n - (r.first_ledger - start)))))
              (seg_eq at o.at_seq (omega (arith, o.first_le)) (omega (arith, o.first_le)))
              (o.shuffles (seg at r.first_ledger (n - (r.first_ledger - start)))),
        )
      ]
    ]

    -- With the ledgers from the first to the last one in the database and those before the first
    -- one in the datastore, fetchLedgers returns the ledgers from the start of the page to its end,
    -- or to the last one if that comes before it, each once, whether the page lies in the database,
    -- in the datastore or in both: first those of the datastore in order, then those of the database
    -- in the order in which it gives the rows of a query that asks for none. (The start is not beyond
    -- the last ledger, nor beyond the end of the page, the ledgers can be encoded, and sequences are
    -- below 2^32 - 1.)
    pub fetch_ledgers_lem :
        (format : Format)
        → ((s : ℕ) → h.encodes format (at s) ≡ true)
        → (rows : List Ledger) × (fetch_ledgers h db r format start end
            ≡ ok (map info_of (seg at start (min n (r.first_ledger - start)) ++ rows)))
          × Perm rows
              (seg at (start + min n (r.first_ledger - start)) (n - min n (r.first_ledger - start)))
    fetch_ledgers_lem format encodes =
        let (rows, e, p) = page_raw in
        let few = sym (sum_by-ones rows) ∙ sum_by-perm (λ l. 1) p ∙ sum_by-ones _ in
        let many = length-seg at o.at_seq (start + stored) (n - stored) in
        let all_len = length-append (seg at start stored) rows in
        let first_len = length-seg at o.at_seq start stored in
        let refused = fails (h.encodes format) in
        let none_refused = sum_by-append refused (seg at start stored) rows in
        let first_none = seg-fails at o.at_seq (h.encodes format) start stored encodes in
        let rest_none =
          sum_by-perm refused p
          ∙ seg-fails at o.at_seq (h.encodes format) (start + stored) (n - stored) encodes in
        (
          rows,
          fetch_ledgers-raw format start end le narrow e
              ∙ parse_infos (h.encodes format) (end + 1 - start) (seg at start stored ++ rows)
                  (omega (arith, few, many, all_len, first_len))
                  (omega (arith, none_refused, first_none, rest_none)),
          p,
        )
