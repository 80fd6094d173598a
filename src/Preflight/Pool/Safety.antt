-- ===== src/Preflight/Pool/Safety.antt =====
-- What the pool guarantees in every reachable state, and when a caller panics.
use mathlib.Core.Path.{subst}
use stellar_stellar_rpc.Base.{
  ℕ, zero, suc, ◌+◌, ◌≤◌, ◌<◌, ◌≡◌, refl, ap, ◌∙◌, inl, inr, some, List, [], ◌∷◌, arith, get_elem?,
  length, length-set,
}
use stellar_stellar_rpc.Base.Weights.{sum_by, sum_by-zero, sum_by-le-length, All, All-get_elem?}
use stellar_stellar_rpc.Preflight.{Parameters}
use stellar_stellar_rpc.Preflight.Pool.{
  WorkerResult, Caller, panicked, Worker, receiving, running, sending, exited, closed, WorkerPool,
  HasExited, new_preflight_worker_pool, replicate_workers, go_on, enqueue, refuse, start_run,
  end_run, deliver, Move, enter, turn_away, send, send_directly, send_panics, cancel, default,
  receive, finish, answer, exit, flag, close_channel, close_returns, Reach, here, next,
}
use stellar_stellar_rpc.Preflight.Pool.Counts.{
  for_caller, handles, is_running, is_exited, is_waiting,
}
use stellar_stellar_rpc.Preflight.Pool.Inv.{ExitedFit}
use stellar_stellar_rpc.Preflight.Pool.Inv.Reached.{Reach-Inv}
use stellar_stellar_rpc.Preflight.Pool.Owners.{IsAnswered, waiting_at-some}
use stellar_stellar_rpc.Preflight.Pool.Owners.Reached.{Reach-Owners}

-- the requests of a caller that are in the queue or with a worker
unfoldable pub requests_of : WorkerPool → ℕ → ℕ
requests_of s i = sum_by (for_caller i) s.queue + sum_by (handles i) s.workers

abbrev Same : WorkerPool → WorkerPool → Type 0
Same s t = (length t.workers ≡ length s.workers) × (t.capacity ≡ s.capacity)

length-replicate_workers : (n : ℕ) → length (replicate_workers n) ≡ n
unfolding replicate_workers
length-replicate_workers zero = refl
length-replicate_workers (suc n) = ap suc (length-replicate_workers n)

running-le-one : (w : Worker) → is_running w ≤ 1
running-le-one receiving = omega arith
running-le-one (running r) = omega arith
running-le-one (sending r res m) = omega arith
running-le-one exited = omega arith

all_exited : (w : Worker → ℕ) (ws : List Worker) → w exited ≡ 0 → All HasExited ws → sum_by w ws ≡ 0
unfolding sum_by
all_exited w [] z h = refl
all_exited w (x ∷ ws) z h = omega (arith, ap w h.0, all_exited w ws z h.1)

exited_count : (ws : List Worker) → All HasExited ws → sum_by is_exited ws ≡ length ws
unfolding sum_by
exited_count [] h = refl
exited_count (x ∷ ws) h = omega (arith, ap is_exited h.0, exited_count ws h.1)

module _ {Runs : Parameters → WorkerResult → List (ℕ × ℕ) → Type 0} where
  Move-Same : {s t : WorkerPool} → Move Runs s t → Same s t
  unfolding go_on enqueue refuse start_run end_run deliver
  Move-Same (enter i e h) = (refl, refl)
  Move-Same (turn_away i e h) = (refl, refl)
  Move-Same (send i e h k) = (refl, refl)
  Move-Same (send_directly i j e h q e') = (length-set _ j _, refl)
  Move-Same (send_panics i e h) = (refl, refl)
  Move-Same (cancel i e) = (refl, refl)
  Move-Same (default i e h k) = (refl, refl)
  Move-Same (receive j e q) = (length-set _ j _, refl)
  Move-Same (finish j e run) = (length-set _ j _, refl)
  Move-Same (answer j e e') = (length-set _ j _, refl)
  Move-Same (exit j e q c) = (length-set _ j _, refl)
  Move-Same (flag e h) = (refl, refl)
  Move-Same (close_channel e) = (refl, refl)
  Move-Same (close_returns e a) = (refl, refl)

  module _ (worker_count capacity : ℕ) (calls : List Parameters) where
    Reach-Same :
        {s : WorkerPool}
        → Reach Runs (new_preflight_worker_pool worker_count capacity calls) s
        → (length s.workers ≡ worker_count) × (s.capacity ≡ capacity)
    unfolding new_preflight_worker_pool
    Reach-Same here = (length-replicate_workers worker_count, refl)
    Reach-Same (next r m) =
        let (l, c) = Move-Same m in let (l', c') = Reach-Same r in (l ∙ l', c ∙ c')

    module _ {s : WorkerPool} (i : ℕ) {c : Caller} where
      -- In every reachable state the queue holds no more requests than its capacity, no more preflights
      -- than there are workers run at the same time, and the gauge is their number. A caller that waits
      -- has exactly one request in the queue or with a worker, any other caller has none; and a caller
      -- that has returned a result has that of a preflight of its own parameters.
      pub pool_lem :
          Reach Runs (new_preflight_worker_pool worker_count capacity calls) s
          → get_elem? s.callers i ≡ some c
          → (length s.queue ≤ capacity)
            × (sum_by is_running s.workers ≤ worker_count)
            × (s.concurrent_requests ≡ sum_by is_running s.workers)
            × (requests_of s i ≡ is_waiting c)
            × IsAnswered Runs c
      unfolding requests_of
      pool_lem r e =
          let v = Reach-Inv worker_count capacity calls r in
          let o = Reach-Owners Runs worker_count capacity calls r in
          let (l, k) = Reach-Same r in
          (
            omega (arith, v.room, k),
            omega (arith, sum_by-le-length is_running s.workers running-le-one, l),
            v.gauge,
            omega (arith, v.counted i, waiting_at-some Runs s.callers i e),
            All-get_elem? (IsAnswered Runs) s.callers i o.answered e,
          )

    module _ {s : WorkerPool} (i : ℕ) {c : Caller} where
      -- With at least one worker, when `Close` has returned: all workers have left, nothing is in the
      -- queue, no preflight runs, and no caller waits, so that every request that was accepted has
      -- been answered.
      pub close_lem :
          Reach Runs (new_preflight_worker_pool worker_count capacity calls) s
          → 0 < worker_count
          → s.closer ≡ closed
          → get_elem? s.callers i ≡ some c
          → (s.queue ≡ [])
            × All HasExited s.workers
            × (s.concurrent_requests ≡ 0)
            × (is_waiting c ≡ 0)
      close_lem r h done e =
          let v = Reach-Inv worker_count capacity calls r in
          let (l, k) = Reach-Same r in
          let gone : All HasExited s.workers = subst (λ x. ExitedFit x s.workers) done v.ended in
          let empty : s.queue ≡ [] = elim v.drained [
            | inl z ↦ absurd (omega (arith, exited_count s.workers gone))
            | inr q ↦ q.1
          ] in
          (
            empty,
            gone,
            omega (arith, v.gauge, all_exited is_running s.workers refl gone),
            omega (
              arith,
              v.counted i,
              ap (sum_by (for_caller i)) empty,
              sum_by-zero (for_caller i) [] tt,
              all_exited (handles i) s.workers refl gone,
              waiting_at-some Runs s.callers i e,
            ),
          )

-- Whatever the size of the pool, a caller can find it open and still panic: when `Close` closes the
-- channel between the caller's test and its send.
pub panic_reachable :
    (Runs : Parameters → WorkerResult → List (ℕ × ℕ) → Type 0) (worker_count capacity : ℕ)
    (p : Parameters)
    → (s : WorkerPool) × Reach Runs (new_preflight_worker_pool worker_count capacity (p ∷ [])) s
      × (s.callers ≡ panicked ∷ [])
unfolding new_preflight_worker_pool go_on
panic_reachable Runs worker_count capacity p = (
  _,
  next (next (next (next here (enter 0 refl refl)) (flag refl refl)) (close_channel refl))
      (send_panics 0 refl refl),
  refl,
)
