-- ===== src/Methods/GetLedgers/Tests.antt =====
-- Pages of ledgers from a datastore and a database, of which the second one holds ledgers 5 to 8.
use mathlib.Core.List.{reverse, reverse_perm, Perm}
use stellar_stellar_rpc.Base.{
  ℕ, ◌+◌, ◌-◌, ◌≡◌, refl, none, some, List, [], ◌∷◌, ◌++◌, map, ok, err, true, arith, pos,
}
use stellar_stellar_rpc.BucketWindow.{LedgerSeqRange, to_ledger_seq_range}
use stellar_stellar_rpc.Protocol.Pagination.{base64, json, Request, validate}
use stellar_stellar_rpc.Db.Store.{Ledger, Db}
use stellar_stellar_rpc.Base.Decimal.{parse_uint}
use stellar_stellar_rpc.Db.Reader.{
  info_of, get_ledger_range, get_ledger_range_with_cache, batch_get_ledgers,
}
use stellar_stellar_rpc.Methods.GetLedgers.{
  initialize_pagination, available_range, fetch_raw, parse_ledger_infos, Datastore, LedgersHandler,
  invalid_params, fetch_ledgers, get_ledgers,
}
use stellar_stellar_rpc.Methods.GetLedgers.Pages.{Holds, fetch_ledgers_lem}
use stellar_stellar_rpc.Methods.GetLedgers.Segments.{seg}

abbrev ledger : ℕ → Ledger
ledger n = record {
  lcm = record { ledger_sequence = n; ledger_close_time = pos n; reader = none };
  count_transactions = 0;
  tx_reader = none;
}

abbrev store : Datastore
store = record {
  get_available_ledger_range = some (record { first_ledger = 2; last_ledger = 6 });
  get_ledgers = λ s e. some (seg ledger s (e + 1 - s));
}

-- The rows of a query come the other way round.
abbrev handler : LedgersHandler
handler = record {
  max_limit = 10;
  default_limit = 3;
  datastore_ledger_reader = some store;
  row_order = reverse;
  encodes = λ f l. true;
}

abbrev db : Db
db = record {
  tables = record { ledgers = seg ledger 5 4; transactions = []; events = [] };
  cache = record { latest_ledger_seq = 8; latest_ledger_close_time = pos 8 };
}

abbrev local : LedgerSeqRange
local = record { first_ledger = 5; last_ledger = 8 }

held : Holds handler db ledger local
held = record {
  datastore = store;
  configured = refl;
  remote = λ s e h k. refl;
  shuffles = reverse_perm;
  here = refl;
  at_seq = λ n. refl;
  first_pos = omega arith;
  first_le = omega arith;
  last_lt = omega arith;
}

fetch_ledgers_lem_example :
    (rows : List Ledger) × (fetch_ledgers handler db local json 3 6
      ≡ ok (map info_of (seg ledger 3 2 ++ rows)))
    × Perm rows (seg ledger 5 2)
fetch_ledgers_lem_example =
    fetch_ledgers_lem handler db local ledger held 3 4 6 (omega arith) (omega arith) (omega arith)
      (omega arith) json (λ s. refl)

-- The page goes down from ledger 6, and its cursor, that of the last row, is 5.
unordered_page :
    fetch_ledgers handler db local json 3 6
    ≡ ok (map info_of (ledger 3 ∷ ledger 4 ∷ ledger 6 ∷ ledger 5 ∷ []))
unfolding fetch_ledgers fetch_raw batch_get_ledgers parse_ledger_infos
unordered_page = refl

abbrev after : ℕ → Request
after digit = record {
  start_ledger = 0;
  pagination = some (record { cursor = (48 + digit) ∷ []; limit = 0 });
  format = base64;
}

-- The ledgers behind cursor 6 are 7 and 8; with the rows the other way round the cursor is that of
-- ledger 7, with which the next page has ledger 8 again.
next_page :
    get_ledgers handler db (after 6)
    ≡ ok (record {
      ledgers = map info_of (ledger 8 ∷ ledger 7 ∷ []);
      latest_ledger = record { sequence = 8; close_time = pos 8 };
      oldest_ledger = record { sequence = 5; close_time = pos 5 };
      cursor = 7;
    })
unfolding get_ledgers get_ledger_range get_ledger_range_with_cache validate initialize_pagination
    parse_uint available_range to_ledger_seq_range fetch_ledgers fetch_raw batch_get_ledgers
    parse_ledger_infos
next_page = refl

-- The cursor of the latest ledger is refused.
latest_cursor : get_ledgers handler db (after 8) ≡ err invalid_params
unfolding get_ledgers get_ledger_range get_ledger_range_with_cache validate initialize_pagination
    parse_uint available_range to_ledger_seq_range fetch_ledgers fetch_raw batch_get_ledgers
    parse_ledger_infos
latest_cursor = refl
