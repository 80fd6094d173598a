-- ===== src/Db/Reader.antt =====
-- The range of ledgers and the ledgers in a range (cmd/stellar-rpc/internal/db/ledger.go), and
-- `getLatestLedgerSequence` (db.go).
use stellar_stellar_rpc.Base.{
  ℕ, none, some, List, [], ◌∷◌, Outcome, ok, err, panic, ◌&&◌, not, ltb, leb, ◌==◌, if◌then◌else◌,
  last?,
}
use stellar_stellar_rpc.BucketWindow.{LedgerInfo, LedgerRange}
use stellar_stellar_rpc.Db.Store.{Ledger, seq, Cache, Db, DbError, empty_db, bad_batch}
use stellar_stellar_rpc.Db.Trim.{keep}

abbrev pub info_of : Ledger → LedgerInfo
info_of l = record { sequence = seq l; close_time = l.lcm.ledger_close_time }

-- `getLedgerRangeWithCache`: the row of the least sequence, and the cache
unfoldable pub get_ledger_range_with_cache : List Ledger → Cache → Outcome DbError LedgerRange
get_ledger_range_with_cache [] c = err empty_db
get_ledger_range_with_cache (l ∷ ls) c = ok (record {
  first_ledger = info_of l;
  last_ledger = record { sequence = c.latest_ledger_seq; close_time = c.latest_ledger_close_time };
})

-- `getLedgerRangeWithoutCache`: the rows of the least and of the greatest sequence
unfoldable pub get_ledger_range_without_cache : List Ledger → Outcome DbError LedgerRange
get_ledger_range_without_cache [] = err empty_db
get_ledger_range_without_cache (l ∷ ls) = elim (last? (l ∷ ls)) [
  | none ↦ panic
  | some m ↦ ok (record { first_ledger = info_of l; last_ledger = info_of m })
]

-- `ledgerReader.GetLedgerRange`, and that of a read transaction, which has copied the cache
unfoldable pub get_ledger_range : Db → Outcome DbError LedgerRange
get_ledger_range db =
    if not (db.cache.latest_ledger_seq == 0)
    then get_ledger_range_with_cache db.tables.ledgers db.cache
    else get_ledger_range_without_cache db.tables.ledgers

-- `getLatestLedgerSequence`: fills the cache when it is empty
unfoldable pub get_latest_ledger_sequence : Db → Db × Outcome DbError ℕ
get_latest_ledger_sequence db =
    if not (db.cache.latest_ledger_seq == 0)
    then (db, ok db.cache.latest_ledger_seq)
    else elim (get_ledger_range db) [
      | err e ↦ (db, err e)
      | panic ↦ (db, panic)
      | ok r ↦ (
        record db {
          cache = record {
            latest_ledger_seq = r.last_ledger.sequence;
            latest_ledger_close_time = r.last_ledger.close_time;
          };
        },
        ok r.last_ledger.sequence,
      )
    ]

-- `BatchGetLedgers`: the rows of a range of sequences. The query asks for no order: which one SQLite
-- gives them in is a parameter.
unfoldable pub batch_get_ledgers :
    (row_order : List Ledger → List Ledger) → List Ledger → ℕ → ℕ → Outcome DbError (List Ledger)
unfolding keep
batch_get_ledgers row_order rows start end =
    if ltb end start
    then err bad_batch
    else ok (row_order (keep (λ l. leb start (seq l) && leb (seq l) end) rows))
