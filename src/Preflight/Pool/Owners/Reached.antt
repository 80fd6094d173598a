-- ===== src/Preflight/Pool/Owners/Reached.antt =====
-- Whose request is whose in every pool that is reached from a new one.
use stellar_stellar_rpc.Base.{ℕ, zero, suc, refl, List, [], ◌∷◌, map}
use stellar_stellar_rpc.Base.Weights.{All, All-set}
use stellar_stellar_rpc.Preflight.{Parameters}
use stellar_stellar_rpc.Preflight.Pool.{
  WorkerResult, pool_closed, context_done, Caller, idle, entered, returned, panicked, exited,
  WorkerPool, new_preflight_worker_pool, replicate_workers, Move, enter, turn_away, send,
  send_directly, send_panics, cancel, default, receive, finish, answer, exit, flag, close_channel,
  close_returns, Reach, here, next,
}
use stellar_stellar_rpc.Preflight.Pool.Inv.{Inv}
use stellar_stellar_rpc.Preflight.Pool.Inv.Reached.{Move-Inv, Reach-Inv}
use stellar_stellar_rpc.Preflight.Pool.Owners.{
  Holds, IsAnswered, Owners, go_on-Owners, enqueue-Owners, refuse-Owners, start_run-Owners,
  send_directly-Owners, end_run-Owners, deliver-Owners,
}

module _ (Runs : Parameters → WorkerResult → List (ℕ × ℕ) → Type 0) where
  Move-Owners : {s t : WorkerPool} → Move Runs s t → Inv s → Owners Runs s → Owners Runs t
  Move-Owners (enter i e h) v o = go_on-Owners Runs _ i (entered _) e refl v o tt
  Move-Owners (turn_away i e h) v o = go_on-Owners Runs _ i (returned _ pool_closed) e refl v o tt
  Move-Owners (send i e h k) v o = enqueue-Owners Runs _ i _ e v o
  Move-Owners (send_directly i j e h q e') v o = send_directly-Owners Runs _ i j _ e v o
  Move-Owners (send_panics i e h) v o = go_on-Owners Runs _ i panicked e refl v o tt
  Move-Owners (cancel i e) v o = go_on-Owners Runs _ i (returned _ context_done) e refl v o tt
  Move-Owners (default i e h k) v o = refuse-Owners Runs _ i _ e v o
  Move-Owners (receive j e q) v o = start_run-Owners Runs _ j _ _ q o
  Move-Owners (finish j e run) v o = end_run-Owners Runs _ j _ _ _ e run o
  Move-Owners (answer j e e') v o =
      deliver-Owners Runs _ j _ _ _ _ e e' (Move-Inv {Runs = Runs} (answer j e e') v) o
  Move-Owners (exit j e q c) v o = record {
    queued = o.queued;
    held = All-set (Holds Runs _) _ j exited o.held tt;
    answered = o.answered;
  }
  Move-Owners (flag e h) v o = record { queued = o.queued; held = o.held; answered = o.answered }
  Move-Owners (close_channel e) v o = record {
    queued = o.queued;
    held = o.held;
    answered = o.answered;
  }
  Move-Owners (close_returns e a) v o = record {
    queued = o.queued;
    held = o.held;
    answered = o.answered;
  }

  workers_hold : (cs : List Caller) (n : ℕ) → All (Holds Runs cs) (replicate_workers n)
  unfolding replicate_workers
  workers_hold cs zero = tt
  workers_hold cs (suc n) = (tt, workers_hold cs n)

  idle-IsAnswered : (calls : List Parameters) → All (IsAnswered Runs) (map idle calls)
  idle-IsAnswered [] = tt
  idle-IsAnswered (p ∷ calls) = (tt, idle-IsAnswered calls)

  pub Reach-Owners :
      (worker_count capacity : ℕ) (calls : List Parameters) {s : WorkerPool}
      → Reach Runs (new_preflight_worker_pool worker_count capacity calls) s
      → Owners Runs s
  unfolding new_preflight_worker_pool
  Reach-Owners n c calls here = record {
    queued = tt;
    held = workers_hold _ n;
    answered = idle-IsAnswered calls;
  }
  Reach-Owners n c calls (next r m) =
      Move-Owners m (Reach-Inv {Runs = Runs} n c calls r) (Reach-Owners n c calls r)
