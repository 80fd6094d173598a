-- ===== src/Db/Tests.antt =====
-- The trims and the range of ledgers at concrete tables.
use stellar_stellar_rpc.Base.{ℕ, ◌≡◌, refl, none, List, [], ◌∷◌, map, ok, false, arith, pos}
use stellar_stellar_rpc.Protocol.Cursor.Packing.{sdk}
use stellar_stellar_rpc.Db.Store.{Ledger, TransactionRow, Tables, Db, Faults}
use stellar_stellar_rpc.Db.Commit.{commit, trimmed}
use stellar_stellar_rpc.Db.Reader.{get_ledger_range, get_ledger_range_without_cache}
use stellar_stellar_rpc.Db.Retention.{row_id, retained_tables, trimmed_lem}
use stellar_stellar_rpc.Db.Ranges.{commit-get_ledger_range}

abbrev ledger : ℕ → Ledger
ledger n = record {
  lcm = record { ledger_sequence = n; ledger_close_time = pos n; reader = none };
  count_transactions = 0;
  tx_reader = none;
}

abbrev rows : List Ledger
rows = ledger 7 ∷ ledger 8 ∷ ledger 9 ∷ []

abbrev positions : List (ℕ × ℕ × ℕ)
positions = (7, 1, 0) ∷ (8, 1, 0) ∷ (8, 2, 3) ∷ (9, 1, 0) ∷ []

abbrev transaction_rows : List TransactionRow
transaction_rows =
    record { hash = 1 ∷ []; ledger_sequence = 7; application_order = 1 }
    ∷ record { hash = 2 ∷ []; ledger_sequence = 8; application_order = 1 }
    ∷ record { hash = 3 ∷ []; ledger_sequence = 9; application_order = 1 }
    ∷ []

abbrev tables : Tables
tables = record {
  ledgers = rows;
  transactions = transaction_rows;
  events = map (row_id sdk) positions;
}

trimmed_lem_example :
    trimmed sdk 9 2 tables ≡ retained_tables sdk 9 2 rows transaction_rows positions
trimmed_lem_example =
    trimmed_lem sdk 9 2 rows transaction_rows positions (omega arith) (omega arith)
      (omega arith, (omega arith, (omega arith, (omega arith, tt))))

abbrev no_faults : Faults
no_faults = record {
  trim_ledgers_fails = false;
  trim_transactions_fails = false;
  trim_events_fails = false;
  commit_fails = false;
  checkpoint_fails = false;
}

abbrev before : Db
before = record {
  tables = record { ledgers = []; transactions = []; events = [] };
  cache = record { latest_ledger_seq = 8; latest_ledger_close_time = pos 8 };
}

abbrev after : Db
after = (commit sdk 2 no_faults (ledger 9).lcm tables before).0

commit_run : commit sdk 2 no_faults (ledger 9).lcm tables before ≡ (after, ok tt)
unfolding commit
commit_run = refl

commit-get_ledger_range_example :
    get_ledger_range after ≡ get_ledger_range_without_cache after.tables.ledgers
commit-get_ledger_range_example =
    commit-get_ledger_range sdk 2 no_faults (ledger 9) tables before after commit_run refl
      (omega arith) (omega arith) (omega arith)
