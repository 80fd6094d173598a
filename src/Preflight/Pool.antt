-- ===== src/Preflight/Pool.antt =====
-- cmd/stellar-rpc/internal/preflight/pool.go: the workers that run preflights, and the queue before them.
-- The callers of `GetPreflight`, the workers and `Close` take steps that interleave in any order. What a
-- preflight gives is a parameter: `Runs` relates the parameters, the result and the calls of the getter
-- of ledger entries, each with its milliseconds and its number of keys. The context of a caller may be
-- done at any time. Times of runs are left out of the observations of metrics.
pub mod Counts
pub mod Inv
pub mod Owners
pub mod Safety
mod Tests
use stellar_stellar_rpc.Base.{
  ℕ, zero, suc, ◌+◌, ◌-◌, ◌≤◌, ◌<◌, ◌≡◌, Option, none, some, List, [], ◌∷◌, ◌++◌, map, Bool, true,
  false, ltb, if◌then◌else◌, length, get_elem?, set, u32, u64,
}
use stellar_stellar_rpc.Base.Weights.{All}
use stellar_stellar_rpc.Preflight.{Parameters, Preflight, PreflightError}

pub record WorkerResult : Type 0 where
  pub preflight : Preflight
  pub err : Option PreflightError

-- The channel for the result is that of the caller with the number `caller`.
pub record WorkerRequest : Type 0 where
  pub params : Parameters
  pub caller : ℕ

-- metricsLedgerEntryGetterWrapper
pub record GetterMetrics : Type 0 where
  pub total_duration_ms : ℕ
  pub ledger_entries_fetched : ℕ

-- what `GetLedgerEntries` of the wrapper counts of one call
unfoldable pub count_call : GetterMetrics → (milliseconds keys : ℕ) → GetterMetrics
count_call m milliseconds keys = record {
  total_duration_ms = u64 (m.total_duration_ms + milliseconds);
  ledger_entries_fetched = u32 (m.ledger_entries_fetched + u32 keys);
}

unfoldable pub count_calls : GetterMetrics → List (ℕ × ℕ) → GetterMetrics
unfolding count_call
count_calls m [] = m
count_calls m ((milliseconds, keys) ∷ calls) = count_calls (count_call m milliseconds keys) calls

abbrev pub no_calls : GetterMetrics
no_calls = record { total_duration_ms = 0; ledger_entries_fetched = 0 }

-- what a caller returns
pub data Answer : Type 0 where
  pool_closed : Answer
  context_done : Answer
  queue_full : Answer
  result : WorkerResult → Answer

-- Where a caller stands in `GetPreflight`.
pub data Caller : Type 0 where
  idle : Parameters → Caller  -- before the call
  entered : Parameters → Caller  -- behind the load of isClosed
  waiting : Parameters → Caller  -- receiving from its channel
  returned : Parameters → Answer → Caller
  panicked : Caller  -- by a send on a closed channel

-- Where a worker stands in `work`.
pub data Worker : Type 0 where
  receiving : Worker
  running : WorkerRequest → Worker
  sending : WorkerRequest → WorkerResult → GetterMetrics → Worker
  exited : Worker

-- Where the first call of `Close` stands; the other ones return at once.
pub data Closer : Type 0 where
  before flagged awaiting closed : Closer

-- what is given to the metrics; the flag tells whether there was an error
pub data Observation : Type 0 where
  run_observed : (failed : Bool) → Observation
  db_observed : (failed : Bool) → (total_duration_ms : ℕ) → Observation
  fetched_observed : (ledger_entries_fetched : ℕ) → Observation

pub record WorkerPool : Type 0 where
  pub capacity : ℕ
  pub is_closed : Bool
  pub channel_closed : Bool
  pub queue : List WorkerRequest
  pub concurrent_requests : ℕ
  pub queue_full_errors : ℕ
  pub observations : List Observation
  pub workers : List Worker
  pub callers : List Caller
  pub closer : Closer

abbrev pub failed : WorkerResult → Bool
failed r = elim r.err [ none ↦ false | some e ↦ true ]

unfoldable pub replicate_workers : ℕ → List Worker
replicate_workers zero = []
replicate_workers (suc n) = receiving ∷ replicate_workers n

-- `NewPreflightWorkerPool`, with the callers to come
unfoldable pub new_preflight_worker_pool :
    (worker_count job_queue_capacity : ℕ) → List Parameters → WorkerPool
unfolding replicate_workers
new_preflight_worker_pool worker_count job_queue_capacity calls = record {
  capacity = job_queue_capacity;
  is_closed = false;
  channel_closed = false;
  queue = [];
  concurrent_requests = 0;
  queue_full_errors = 0;
  observations = [];
  workers = replicate_workers worker_count;
  callers = map idle calls;
  closer = before;
}

-- a caller goes on to its next place
unfoldable pub go_on : WorkerPool → ℕ → Caller → WorkerPool
go_on s i c = record s { callers = set s.callers i c }

unfoldable pub enqueue : WorkerPool → (i : ℕ) → Parameters → WorkerPool
enqueue s i p = record s {
  queue = s.queue ++ (record { params = p; caller = i } ∷ []);
  callers = set s.callers i (waiting p);
}

unfoldable pub refuse : WorkerPool → (i : ℕ) → Parameters → WorkerPool
refuse s i p = record s {
  queue_full_errors = s.queue_full_errors + 1;
  callers = set s.callers i (returned p queue_full);
}

-- a worker receives a request and begins to run it
unfoldable pub start_run : WorkerPool → (j : ℕ) → WorkerRequest → WorkerPool
start_run s j r = record s {
  concurrent_requests = s.concurrent_requests + 1;
  workers = set s.workers j (running r);
}

unfoldable pub end_run :
    WorkerPool → (j : ℕ) → WorkerRequest → WorkerResult → List (ℕ × ℕ) → WorkerPool
unfolding count_calls
end_run s j r res calls = record s {
  concurrent_requests = s.concurrent_requests - 1;
  observations = s.observations ++ (run_observed (failed res) ∷ []);
  workers = set s.workers j (sending r res (count_calls no_calls calls));
}

-- what the caller observes of the getter before it returns
unfoldable pub observe_getter : WorkerResult → GetterMetrics → List Observation
observe_getter res m =
    (if ltb 0 m.ledger_entries_fetched
      then db_observed (failed res) m.total_duration_ms ∷ []
      else [])
    ++ (fetched_observed m.ledger_entries_fetched ∷ [])

-- a result goes from a worker to its caller
unfoldable pub deliver :
    WorkerPool → (j : ℕ) → WorkerRequest → Parameters → WorkerResult → GetterMetrics → WorkerPool
unfolding observe_getter
deliver s j r p res m = record s {
  observations = s.observations ++ observe_getter res m;
  workers = set s.workers j receiving;
  callers = set s.callers r.caller (returned p (result res));
}

abbrev pub HasExited : Worker → Type 0
HasExited w = w ≡ exited

-- The steps. A send is ready when the queue has room or, with an empty queue, when a worker receives;
-- the default case is taken when it is not.
pub data Move (Runs : Parameters → WorkerResult → List (ℕ × ℕ) → Type 0) (s : WorkerPool)
    : WorkerPool → Type 0 where
  enter :
      (i : ℕ) {p : Parameters}
      → get_elem? s.callers i ≡ some (idle p)
      → s.is_closed ≡ false
      → Move Runs s (go_on s i (entered p))
  turn_away :
      (i : ℕ) {p : Parameters}
      → get_elem? s.callers i ≡ some (idle p)
      → s.is_closed ≡ true
      → Move Runs s (go_on s i (returned p pool_closed))
  send :
      (i : ℕ) {p : Parameters}
      → get_elem? s.callers i ≡ some (entered p)
      → s.channel_closed ≡ false
      → length s.queue < s.capacity
      → Move Runs s (enqueue s i p)
  send_directly :
      (i j : ℕ) {p : Parameters}
      → get_elem? s.callers i ≡ some (entered p)
      → s.channel_closed ≡ false
      → s.queue ≡ []
      → get_elem? s.workers j ≡ some receiving
      → Move Runs s (start_run (go_on s i (waiting p)) j (record { params = p; caller = i }))
  send_panics :
      (i : ℕ) {p : Parameters}
      → get_elem? s.callers i ≡ some (entered p)
      → s.channel_closed ≡ true
      → Move Runs s (go_on s i panicked)
  cancel :
      (i : ℕ) {p : Parameters}
      → get_elem? s.callers i ≡ some (entered p)
      → Move Runs s (go_on s i (returned p context_done))
  default :
      (i : ℕ) {p : Parameters}
      → get_elem? s.callers i ≡ some (entered p)
      → s.channel_closed ≡ false
      → s.capacity ≤ length s.queue
      → Move Runs s (refuse s i p)
  receive :
      (j : ℕ) {r : WorkerRequest} {rest : List WorkerRequest}
      → get_elem? s.workers j ≡ some receiving
      → s.queue ≡ r ∷ rest
      → Move Runs s (start_run (record s { queue = rest }) j r)
  finish :
      (j : ℕ) {r : WorkerRequest} {res : WorkerResult} {calls : List (ℕ × ℕ)}
      → get_elem? s.workers j ≡ some (running r)
      → Runs r.params res calls
      → Move Runs s (end_run s j r res calls)
  answer :
      (j : ℕ) {r : WorkerRequest} {p : Parameters} {res : WorkerResult} {m : GetterMetrics}
      → get_elem? s.workers j ≡ some (sending r res m)
      → get_elem? s.callers r.caller ≡ some (waiting p)
      → Move Runs s (deliver s j r p res m)
  exit :
      (j : ℕ)
      → get_elem? s.workers j ≡ some receiving
      → s.queue ≡ []
      → s.channel_closed ≡ true
      → Move Runs s (record s { workers = set s.workers j exited })
  flag :
      s.closer ≡ before
      → s.is_closed ≡ false
      → Move Runs s (record s { is_closed = true; closer = flagged })
  close_channel :
      s.closer ≡ flagged → Move Runs s (record s { channel_closed = true; closer = awaiting })
  close_returns :
      s.closer ≡ awaiting → All HasExited s.workers → Move Runs s (record s { closer = closed })

pub data Reach (Runs : Parameters → WorkerResult → List (ℕ × ℕ) → Type 0) (s : WorkerPool)
    : WorkerPool → Type 0 where
  here : Reach Runs s s
  next : {t u : WorkerPool} → Reach Runs s t → Move Runs t u → Reach Runs s u
