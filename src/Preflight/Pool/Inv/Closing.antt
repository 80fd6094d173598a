-- ===== src/Preflight/Pool/Inv/Closing.antt =====
-- The steps of `Close`, and a new pool.
use mathlib.Core.Path.{subst}
use stellar_stellar_rpc.Base.{
  ℕ, zero, suc, ◌≡◌, refl, inl, inr, some, List, [], ◌∷◌, map, true, arith, set, get_elem?, sym,
}
use stellar_stellar_rpc.Base.Weights.{sum_by, sum_by-set, All}
use stellar_stellar_rpc.Preflight.{Parameters}
use stellar_stellar_rpc.Preflight.Pool.{
  idle, Worker, receiving, exited, Closer, before, flagged, awaiting, closed, WorkerPool, HasExited,
  new_preflight_worker_pool, replicate_workers,
}
use stellar_stellar_rpc.Preflight.Pool.Counts.{handles, is_running, is_exited, waiting_at}
use stellar_stellar_rpc.Preflight.Pool.Inv.{Inv, FlagsFit}
use stellar_stellar_rpc.Preflight.Pool.Inv.Requests.{worker_ended}

pub exit-Inv :
    (s : WorkerPool) (j : ℕ)
    → get_elem? s.workers j ≡ some receiving
    → s.queue ≡ []
    → s.channel_closed ≡ true
    → Inv s
    → Inv (record s { workers = set s.workers j exited })
exit-Inv s j e q c v = record {
  room = v.room;
  gauge = ground (arith, v.gauge, sum_by-set is_running s.workers j receiving exited e);
  counted = λ k. ground (arith, v.counted k, sum_by-set (handles k) s.workers j receiving exited e);
  flags = v.flags;
  drained = inr (c, q);
  ended = worker_ended s j receiving exited e refl v;
}

flags_at :
    (s : WorkerPool) {c : Closer} → s.closer ≡ c → Inv s → FlagsFit c s.is_closed s.channel_closed
flags_at s e v = subst (λ c. FlagsFit c s.is_closed s.channel_closed) e v.flags

pub flag-Inv :
    (s : WorkerPool)
    → s.closer ≡ before
    → Inv s
    → Inv (record s { is_closed = true; closer = flagged })
flag-Inv s e v = record {
  room = v.room;
  gauge = v.gauge;
  counted = v.counted;
  flags = (refl, (flags_at s e v).1);
  drained = v.drained;
  ended = tt;
}

pub close_channel-Inv :
    (s : WorkerPool)
    → s.closer ≡ flagged
    → Inv s
    → Inv (record s { channel_closed = true; closer = awaiting })
close_channel-Inv s e v = record {
  room = v.room;
  gauge = v.gauge;
  counted = v.counted;
  flags = ((flags_at s e v).0, refl);
  drained = ground (arith, v.drained, (flags_at s e v).1);
  ended = tt;
}

pub close_returns-Inv :
    (s : WorkerPool)
    → s.closer ≡ awaiting
    → All HasExited s.workers
    → Inv s
    → Inv (record s { closer = closed })
close_returns-Inv s e a v = record {
  room = v.room;
  gauge = v.gauge;
  counted = v.counted;
  flags = flags_at s e v;
  drained = v.drained;
  ended = a;
}

workers-zero : (w : Worker → ℕ) (n : ℕ) → w receiving ≡ 0 → sum_by w (replicate_workers n) ≡ 0
unfolding replicate_workers sum_by
workers-zero w zero h = refl
workers-zero w (suc n) h = omega (arith, workers-zero w n h)

idle_at : (calls : List Parameters) (i : ℕ) → waiting_at (map idle calls) i ≡ 0
idle_at [] i = refl
idle_at (p ∷ calls) zero = refl
idle_at (p ∷ calls) (suc i) = idle_at calls i

pub new-Inv :
    (worker_count capacity : ℕ) (calls : List Parameters)
    → Inv (new_preflight_worker_pool worker_count capacity calls)
unfolding new_preflight_worker_pool sum_by
new-Inv n c calls = record {
  room = omega arith;
  gauge = sym (workers-zero is_running n refl);
  counted = λ i. omega (arith, workers-zero (handles i) n refl, idle_at calls i);
  flags = (refl, refl);
  drained = inl (workers-zero is_exited n refl);
  ended = tt;
}
