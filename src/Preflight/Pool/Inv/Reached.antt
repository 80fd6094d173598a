-- ===== src/Preflight/Pool/Inv/Reached.antt =====
-- What holds of every pool that is reached from a new one.
use stellar_stellar_rpc.Base.{ℕ, refl, List, arith}
use stellar_stellar_rpc.Preflight.{Parameters}
use stellar_stellar_rpc.Preflight.Pool.{
  WorkerResult, idle, entered, returned, panicked, WorkerPool, new_preflight_worker_pool,
  pool_closed, context_done, Move, enter, turn_away, send, send_directly, send_panics, cancel,
  default, receive, finish, answer, exit, flag, close_channel, close_returns, Reach, here, next,
}
use stellar_stellar_rpc.Preflight.Pool.Inv.{Inv}
use stellar_stellar_rpc.Preflight.Pool.Inv.Requests.{
  go_on-Inv, enqueue-Inv, refuse-Inv, start_run-Inv, end_run-Inv, send_directly-Inv, deliver-Inv,
}
use stellar_stellar_rpc.Preflight.Pool.Inv.Closing.{
  exit-Inv, flag-Inv, close_channel-Inv, close_returns-Inv, new-Inv,
}

module _ {Runs : Parameters → WorkerResult → List (ℕ × ℕ) → Type 0} where
  pub Move-Inv : {s t : WorkerPool} → Move Runs s t → Inv s → Inv t
  Move-Inv (enter i e o) v = go_on-Inv _ i (idle _) (entered _) e refl refl v
  Move-Inv (turn_away i e o) v = go_on-Inv _ i (idle _) (returned _ pool_closed) e refl refl v
  Move-Inv (send i e o h) v = enqueue-Inv _ i _ e o (omega arith) v
  Move-Inv (send_directly i j e o q e') v = send_directly-Inv _ i j _ e o e' v
  Move-Inv (send_panics i e o) v = go_on-Inv _ i (entered _) panicked e refl refl v
  Move-Inv (cancel i e) v = go_on-Inv _ i (entered _) (returned _ context_done) e refl refl v
  Move-Inv (default i e o h) v = refuse-Inv _ i _ e v
  Move-Inv (receive j e q) v = start_run-Inv _ j _ _ e q v
  Move-Inv (finish j e r) v = end_run-Inv _ j _ _ _ e v
  Move-Inv (answer j e e') v = deliver-Inv _ j _ _ _ _ e e' v
  Move-Inv (exit j e q c) v = exit-Inv _ j e q c v
  Move-Inv (flag e o) v = flag-Inv _ e v
  Move-Inv (close_channel e) v = close_channel-Inv _ e v
  Move-Inv (close_returns e a) v = close_returns-Inv _ e a v

  -- It holds from the start on.
  pub Reach-Inv :
      (worker_count capacity : ℕ) (calls : List Parameters) {s : WorkerPool}
      → Reach Runs (new_preflight_worker_pool worker_count capacity calls) s
      → Inv s
  Reach-Inv n c calls here = new-Inv n c calls
  Reach-Inv n c calls (next r m) = Move-Inv m (Reach-Inv n c calls r)
