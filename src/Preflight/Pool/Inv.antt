-- ===== src/Preflight/Pool/Inv.antt =====
-- What holds of a pool between any two steps.

pub mod Requests
pub mod Closing
pub mod Reached
use mathlib.Core.Path.{subst}
use stellar_stellar_rpc.Base.{
  ℕ, zero, suc, ◌+◌, ◌≤◌, ◌≡◌, refl, ◌⊎◌, inl, inr, some, List, [], ◌∷◌, map, Bool, true, false,
  arith, length, set, get_elem?, length-append, sym,
}
use stellar_stellar_rpc.Base.Weights.{
  sum_by, sum_by-set, sum_by-append_end, All, All-get_elem?, sum_by-cons,
}
use stellar_stellar_rpc.Preflight.{Parameters}
use stellar_stellar_rpc.Preflight.Pool.{
  WorkerResult, WorkerRequest, Caller, idle, entered, waiting, returned, panicked, Worker,
  receiving, running, sending, exited, Closer, before, flagged, awaiting, closed, WorkerPool,
  HasExited, new_preflight_worker_pool, go_on, enqueue, refuse, start_run, end_run, deliver,
  count_calls, no_calls, pool_closed, context_done, queue_full, result, replicate_workers, Move,
  enter, turn_away, send, send_directly, send_panics, cancel, default, receive, finish, answer,
  exit, flag, close_channel, close_returns, Reach, here, next, GetterMetrics,
}
use stellar_stellar_rpc.Preflight.Pool.Counts.{
  for_caller, handles, is_running, is_exited, is_waiting, waiting_at, waiting_at-set,
}

-- the two flags by the place of `Close`
abbrev pub FlagsFit : Closer → Bool → Bool → Type 0
FlagsFit before is_closed channel_closed = (is_closed ≡ false) × (channel_closed ≡ false)
FlagsFit flagged is_closed channel_closed = (is_closed ≡ true) × (channel_closed ≡ false)
FlagsFit awaiting is_closed channel_closed = (is_closed ≡ true) × (channel_closed ≡ true)
FlagsFit closed is_closed channel_closed = (is_closed ≡ true) × (channel_closed ≡ true)

abbrev pub ExitedFit : Closer → List Worker → Type 0
ExitedFit closed ws = All HasExited ws
ExitedFit _ ws = Unit

pub record Inv (s : WorkerPool) : Type 0 where
  pub room : length s.queue ≤ s.capacity
  pub gauge : s.concurrent_requests ≡ sum_by is_running s.workers
  pub counted :
      (i : ℕ)
      → sum_by (for_caller i) s.queue + sum_by (handles i) s.workers ≡ waiting_at s.callers i
  pub flags : FlagsFit s.closer s.is_closed s.channel_closed
  pub drained : (sum_by is_exited s.workers ≡ 0) ⊎ ((s.channel_closed ≡ true) × (s.queue ≡ []))
  pub ended : ExitedFit s.closer s.workers
