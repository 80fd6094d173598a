-- ===== src/Preflight/Pool/Inv/Requests.antt =====
-- The steps of the callers and of the workers keep what holds of a pool.
use stellar_stellar_rpc.Base.{
  ℕ, ◌+◌, ◌≤◌, ◌≡◌, refl, some, List, [], ◌∷◌, false, arith, length, set, get_elem?, length-append,
}
use stellar_stellar_rpc.Base.Weights.{sum_by-set, sum_by-append_end, All-get_elem?, sum_by-cons}
use stellar_stellar_rpc.Preflight.{Parameters}
use stellar_stellar_rpc.Preflight.Pool.{
  WorkerResult, WorkerRequest, Caller, entered, waiting, returned, Worker, receiving, running,
  sending, exited, Closer, before, flagged, awaiting, closed, WorkerPool, HasExited, go_on, enqueue,
  refuse, start_run, end_run, deliver, count_calls, no_calls, queue_full, result, GetterMetrics,
}
use stellar_stellar_rpc.Preflight.Pool.Counts.{
  for_caller, handles, is_running, is_exited, is_waiting, waiting_at-set,
}
use stellar_stellar_rpc.Preflight.Pool.Inv.{Inv, ExitedFit}

pub go_on-Inv :
    (s : WorkerPool) (i : ℕ) (c d : Caller)
    → get_elem? s.callers i ≡ some c
    → is_waiting c ≡ 0
    → is_waiting d ≡ 0
    → Inv s
    → Inv (go_on s i d)
unfolding go_on
go_on-Inv s i c d e hc hd v = record {
  room = v.room;
  gauge = v.gauge;
  counted = λ k. ground (arith, v.counted k, waiting_at-set s.callers i k c d e);
  flags = v.flags;
  drained = v.drained;
  ended = v.ended;
}

pub enqueue-Inv :
    (s : WorkerPool) (i : ℕ) (p : Parameters)
    → get_elem? s.callers i ≡ some (entered p)
    → s.channel_closed ≡ false
    → length s.queue + 1 ≤ s.capacity
    → Inv s
    → Inv (enqueue s i p)
unfolding enqueue
enqueue-Inv s i p e o h v = record {
  room = ground (arith, length-append s.queue (record { params = p; caller = i } ∷ []));
  gauge = v.gauge;
  counted = λ k. ground (
    arith,
    v.counted k,
    sum_by-append_end (for_caller k) s.queue (record { params = p; caller = i }),
    waiting_at-set s.callers i k (entered p) (waiting p) e,
  );
  flags = v.flags;
  drained = ground (arith, v.drained);
  ended = v.ended;
}

pub refuse-Inv :
    (s : WorkerPool) (i : ℕ) (p : Parameters)
    → get_elem? s.callers i ≡ some (entered p)
    → Inv s
    → Inv (refuse s i p)
unfolding refuse
refuse-Inv s i p e v = record {
  room = v.room;
  gauge = v.gauge;
  counted = λ k.
      ground
        (arith, v.counted k, waiting_at-set s.callers i k (entered p) (returned p queue_full) e);
  flags = v.flags;
  drained = v.drained;
  ended = v.ended;
}

-- a worker changes its place
pub worker_ended :
    (s : WorkerPool) (j : ℕ) (w w' : Worker)
    → get_elem? s.workers j ≡ some w
    → is_exited w ≡ 0
    → Inv s
    → ExitedFit s.closer (set s.workers j w')
worker_ended s j w w' e h v = by_place s.closer s.workers v.ended e
  where
    by_place :
        (c : Closer) (ws : List Worker)
        → ExitedFit c ws
        → get_elem? ws j ≡ some w
        → ExitedFit c (set ws j w')
    by_place before ws k e = tt
    by_place flagged ws k e = tt
    by_place awaiting ws k e = tt
    by_place closed ws k e =
        let x : w ≡ exited = All-get_elem? HasExited ws j k e in absurd (ground (arith, x, h))

pub start_run-Inv :
    (s : WorkerPool) (j : ℕ) (r : WorkerRequest) (rest : List WorkerRequest)
    → get_elem? s.workers j ≡ some receiving
    → s.queue ≡ r ∷ rest
    → Inv s
    → Inv (start_run (record s { queue = rest }) j r)
unfolding start_run
start_run-Inv s j r rest e q v = record {
  room = ground (arith, v.room);
  gauge = ground (arith, v.gauge, sum_by-set is_running s.workers j receiving (running r) e);
  counted = λ k. ground (
    arith,
    v.counted k,
    sum_by-cons (for_caller k) q,
    sum_by-set (handles k) s.workers j receiving (running r) e,
  );
  flags = v.flags;
  drained = ground (arith, v.drained, sum_by-set is_exited s.workers j receiving (running r) e);
  ended = worker_ended s j receiving (running r) e refl v;
}

pub end_run-Inv :
    (s : WorkerPool) (j : ℕ) (r : WorkerRequest) (res : WorkerResult) (calls : List (ℕ × ℕ))
    → get_elem? s.workers j ≡ some (running r)
    → Inv s
    → Inv (end_run s j r res calls)
unfolding end_run
end_run-Inv s j r res calls e v =
    let w' : Worker = sending r res (count_calls no_calls calls) in
    record {
      room = v.room;
      gauge = ground (arith, v.gauge, sum_by-set is_running s.workers j (running r) w' e);
      counted =
          λ k. ground (arith, v.counted k, sum_by-set (handles k) s.workers j (running r) w' e);
      flags = v.flags;
      drained = ground (arith, v.drained, sum_by-set is_exited s.workers j (running r) w' e);
      ended = worker_ended s j (running r) w' e refl v;
    }

pub send_directly-Inv :
    (s : WorkerPool) (i j : ℕ) (p : Parameters)
    → get_elem? s.callers i ≡ some (entered p)
    → s.channel_closed ≡ false
    → get_elem? s.workers j ≡ some receiving
    → Inv s
    → Inv (start_run (go_on s i (waiting p)) j (record { params = p; caller = i }))
unfolding start_run go_on
send_directly-Inv s i j p e o e' v =
    let w' : Worker = running (record { params = p; caller = i }) in
    record {
      room = v.room;
      gauge = ground (arith, v.gauge, sum_by-set is_running s.workers j receiving w' e');
      counted = λ k. ground (
        arith,
        v.counted k,
        sum_by-set (handles k) s.workers j receiving w' e',
        waiting_at-set s.callers i k (entered p) (waiting p) e,
      );
      flags = v.flags;
      drained = ground (arith, v.drained, sum_by-set is_exited s.workers j receiving w' e');
      ended = worker_ended s j receiving w' e' refl v;
    }

pub deliver-Inv :
    (s : WorkerPool) (j : ℕ) (r : WorkerRequest) (p : Parameters) (res : WorkerResult)
    (m : GetterMetrics)
    → get_elem? s.workers j ≡ some (sending r res m)
    → get_elem? s.callers r.caller ≡ some (waiting p)
    → Inv s
    → Inv (deliver s j r p res m)
unfolding deliver
deliver-Inv s j r p res m e e' v = record {
  room = v.room;
  gauge = ground (arith, v.gauge, sum_by-set is_running s.workers j (sending r res m) receiving e);
  counted = λ k. ground (
    arith,
    v.counted k,
    sum_by-set (handles k) s.workers j (sending r res m) receiving e,
    waiting_at-set s.callers r.caller k (waiting p) (returned p (result res)) e',
  );
  flags = v.flags;
  drained =
      ground (arith, v.drained, sum_by-set is_exited s.workers j (sending r res m) receiving e);
  ended = worker_ended s j (sending r res m) receiving e refl v;
}
