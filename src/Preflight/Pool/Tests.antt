-- ===== src/Preflight/Pool/Tests.antt =====
-- A pool of one worker: a preflight from its call to its answer, and `Close` behind it.
use stellar_stellar_rpc.Base.{ℕ, ◌≤◌, ◌≡◌, refl, none, List, [], ◌∷◌, true, false, arith, pos}
use stellar_stellar_rpc.Base.Weights.{sum_by, All}
use stellar_stellar_rpc.Preflight.{auth_record, invoke_host_function, Parameters, Preflight}
use stellar_stellar_rpc.Preflight.Pool.{
  WorkerResult, db_observed, fetched_observed, run_observed, result, returned, panicked, receiving,
  exited, closed, WorkerPool, HasExited, before, new_preflight_worker_pool, go_on, enqueue,
  start_run, end_run, deliver, enter, send, receive, finish, answer, exit, flag, close_channel,
  close_returns, Reach, here, next,
}
use stellar_stellar_rpc.Preflight.Pool.Counts.{is_running, is_waiting}
use stellar_stellar_rpc.Preflight.Pool.Owners.{IsAnswered}
use stellar_stellar_rpc.Preflight.Pool.Safety.{requests_of, pool_lem, close_lem, panic_reachable}

abbrev parameters : Parameters
parameters = record {
  source_account = 1 ∷ [];
  op_body = invoke_host_function (2 ∷ []) [];
  footprint = record { read_only = []; read_write = [] };
  network_passphrase = 84 ∷ [];
  ledger_seq = 50;
  bucket_list_size = 1000;
  instruction_leeway = 0;
  enable_debug = false;
  auth_mode = auth_record;
  protocol_version = 23;
}

abbrev preflight : Preflight
preflight = record {
  error = [];
  events = [];
  transaction_data = [];
  min_fee = pos 100;
  result = 9 ∷ [];
  auth = [];
  cpu_instructions = 0;
  memory_bytes = 0;
  pre_restore_transaction_data = [];
  pre_restore_min_fee = pos 0;
  ledger_entry_diff = [];
}

abbrev outcome : WorkerResult
outcome = record { preflight = preflight; err = none }

-- a preflight that gives the result after a call with three keys, which took five milliseconds
data Once (p : Parameters) : WorkerResult → List (ℕ × ℕ) → Type 0 where
  once : Once p outcome ((5, 3) ∷ [])

abbrev served : WorkerPool
served = record {
  capacity = 1;
  is_closed = false;
  channel_closed = false;
  queue = [];
  concurrent_requests = 0;
  queue_full_errors = 0;
  observations = run_observed false ∷ db_observed false 5 ∷ fetched_observed 3 ∷ [];
  workers = receiving ∷ [];
  callers = returned parameters (result outcome) ∷ [];
  closer = before;
}

served-Reach : Reach Once (new_preflight_worker_pool 1 1 (parameters ∷ [])) served
unfolding new_preflight_worker_pool go_on enqueue start_run end_run deliver
served-Reach =
    next
      (next
        (next (next (next here (enter 0 refl refl)) (send 0 refl refl (omega arith)))
          (receive 0 refl refl))
        (finish 0 refl once))
      (answer 0 refl refl)

pool_lem_example :
    (◌≤◌ 0 1)
    × (sum_by is_running (receiving ∷ []) ≤ 1)
    × (◌≡◌ {A = ℕ} 0 (sum_by is_running (receiving ∷ [])))
    × (requests_of served 0 ≡ 0)
    × IsAnswered Once (returned parameters (result outcome))
pool_lem_example = pool_lem 1 1 (parameters ∷ []) 0 served-Reach refl

abbrev shut : WorkerPool
shut = record served {
  is_closed = true;
  channel_closed = true;
  workers = exited ∷ [];
  closer = closed;
}

shut-Reach : Reach Once (new_preflight_worker_pool 1 1 (parameters ∷ [])) shut
shut-Reach =
    next
      (next (next (next served-Reach (flag refl refl)) (close_channel refl))
        (exit 0 refl refl refl))
      (close_returns refl (refl, tt))

close_lem_example :
    (shut.queue ≡ [])
    × All HasExited (exited ∷ [])
    × (◌≡◌ {A = ℕ} 0 0)
    × (is_waiting (returned parameters (result outcome)) ≡ 0)
close_lem_example = close_lem 1 1 (parameters ∷ []) 0 shut-Reach (omega arith) refl refl

panic_reachable_example :
    (s : WorkerPool) × Reach Once (new_preflight_worker_pool 1 1 (parameters ∷ [])) s
    × (s.callers ≡ panicked ∷ [])
panic_reachable_example = panic_reachable Once 1 1 parameters
