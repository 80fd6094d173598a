-- ===== src/Ingest/Tests.antt =====
-- A ledger at a service, with and without faults.
use stellar_stellar_rpc.Base.{
  ℕ, ◌^◌, ◌<◌, ◌≡◌, refl, Option, none, some, [], ◌∷◌, Outcome, ok, err, true, false, arith, pos,
  ◌==◌, if◌then◌else◌, ◌⊎◌,
}
use stellar_stellar_rpc.BucketWindow
use stellar_stellar_rpc.BucketWindow.{get}
use stellar_stellar_rpc.FeeWindow.Distribution.{compute_fee_distribution}
use stellar_stellar_rpc.FeeWindow.Append.{new_fee_window, append_ledger_fees, refresh, gather}
use stellar_stellar_rpc.FeeWindow.Append.Current.{new_fee_window-IsCurrent}
use stellar_stellar_rpc.FeeWindow.Ingest.{
  new_fee_windows, transaction, other, other_version, ingest_fees, collect, fee_of, append_both,
}
use stellar_stellar_rpc.FeeWindow.Ingest.InStep.{IsInStep, total_fees}
use stellar_stellar_rpc.FeeWindow.Ingest.Whole.{reads_of}
use stellar_stellar_rpc.Protocol.Cursor.Packing.{sdk}
use stellar_stellar_rpc.Db.Store
use stellar_stellar_rpc.Db.Insert.{insert_ledger, insert_transactions, insert_events}
use stellar_stellar_rpc.Db.Commit.{commit}
use stellar_stellar_rpc.Db.Trim.{trim_ledgers, trim_transactions, trim_events}
use stellar_stellar_rpc.Db.Store.{Ledger, Faults, statement_failed}
use stellar_stellar_rpc.Ingest.{
  Service, ServiceError, TxFaults, commit_tx, insert_all, ingest, db_failed,
}
use stellar_stellar_rpc.Ingest.Atomic.{Kept, Lost, Through, ingest_lem}
use stellar_stellar_rpc.Ingest.Retry.{retried, retry_fails}

abbrev ledger : Ledger
ledger = record {
  lcm = record {
    ledger_sequence = 7;
    ledger_close_time = pos 100;
    reader = some (
        transaction (record {
          fee_charged = 300;
          operations = other ∷ other ∷ other ∷ [];
          unsafe_meta = other_version;
        })
        ∷ []);
  };
  count_transactions = 1;
  tx_reader = some (
      Store.transaction (record {
        index = 1;
        hash = 11 ∷ [];
        is_fee_bump = false;
        inner_hash = [];
        successful = true;
        events = some (record {
          diagnostic_events = [];
          operation_events = (record { marshals = true; is_v0 = true } ∷ []) ∷ [];
          transaction_events = [];
        });
      })
      ∷ []);
}

abbrev backend : ℕ → Option Ledger
backend n = if n == 7 then some ledger else none

abbrev service : Service
service = record {
  db = record {
    tables = record { ledgers = []; transactions = []; events = [] };
    cache = record { latest_ledger_seq = 0; latest_ledger_close_time = pos 0 };
  };
  fee_windows = new_fee_windows 3 5;
}

service-IsInStep : IsInStep service.fee_windows
unfolding new_fee_windows new_fee_window BucketWindow.new_ledger_bucket_window
service-IsInStep = record {
  classic = (new_fee_window-IsCurrent 3 (omega arith) (omega arith)).0;
  soroban = (new_fee_window-IsCurrent 5 (omega arith) (omega arith)).0;
  same = refl;
}

abbrev no_faults : Faults
no_faults = record {
  trim_ledgers_fails = false;
  trim_transactions_fails = false;
  trim_events_fails = false;
  commit_fails = false;
  checkpoint_fails = false;
}

abbrev all_well : TxFaults
all_well = record {
  new_tx_fails = false;
  insert_ledger_fails = false;
  insert_transactions_fails = false;
  insert_events_fails = false;
  commit_faults = no_faults;
}

abbrev commit_fails : TxFaults
commit_fails = record all_well { commit_faults = record no_faults { commit_fails = true } }

abbrev attempt : TxFaults → Service × Outcome ServiceError (Unit {0})
attempt f = ingest sdk 10 backend f 7 service

attempt-well : (attempt all_well).1 ≡ ok tt
unfolding ingest commit_tx insert_all insert_ledger insert_transactions insert_events commit
    trim_ledgers trim_transactions trim_events ingest_fees collect fee_of append_both
    append_ledger_fees refresh gather get compute_fee_distribution BucketWindow.append
    BucketWindow.place new_fee_windows new_fee_window BucketWindow.new_ledger_bucket_window
attempt-well = refl

attempt-commit_fails :
    attempt commit_fails ≡ ((attempt commit_fails).0, err (db_failed statement_failed))
unfolding ingest commit_tx insert_all insert_ledger insert_transactions insert_events commit
    trim_ledgers trim_transactions trim_events ingest_fees collect fee_of append_both
    append_ledger_fees refresh gather get compute_fee_distribution BucketWindow.append
    BucketWindow.place new_fee_windows new_fee_window BucketWindow.new_ledger_bucket_window
attempt-commit_fails = refl

fees_lt : total_fees service.fee_windows (reads_of ledger.lcm) < 2 ^ 57
unfolding new_fee_windows new_fee_window BucketWindow.new_ledger_bucket_window
fees_lt = omega arith

ingest_lem_example :
    Kept service (attempt all_well)
    ⊎ Lost ledger service (attempt all_well)
    ⊎ Through sdk 10 all_well ledger service (attempt all_well)
ingest_lem_example =
    ingest_lem sdk 10 backend all_well 7 ledger service refl service-IsInStep (omega arith) fees_lt

retry_fails_example :
    (e : ServiceError) × ((ingest sdk 10 backend all_well 7
        (retried sdk 10 backend 7 (all_well ∷ []) (attempt commit_fails).0)).1
      ≡ err e)
    × ((ingest sdk 10 backend all_well 7
          (retried sdk 10 backend 7 (all_well ∷ []) (attempt commit_fails).0)).0.db
        ≡ service.db)
retry_fails_example =
    retry_fails sdk 10 backend 7 ledger refl (omega arith) commit_fails all_well (all_well ∷ [])
      service (attempt commit_fails).0 service-IsInStep fees_lt attempt-commit_fails
