-- ===== src/Preflight/Pool/Owners.antt =====
-- Whose request is whose: what the pool holds for a caller has the parameters of that caller, and so
-- has the preflight that it is answered with.

pub mod Reached
use mathlib.Core.Path.{subst}
use stellar_stellar_rpc.Base.{
  ℕ, zero, suc, ◌≡◌, refl, sym, ◌∙◌, some, List, [], ◌∷◌, map, arith, set, get_elem?,
  get_elem?-set_ne,
}
use stellar_stellar_rpc.Base.Weights.{sum_by, All, All-set, All-append_end, All-get_elem?}
use stellar_stellar_rpc.Preflight.{Parameters}
use stellar_stellar_rpc.Preflight.Pool.{
  WorkerResult, WorkerRequest, pool_closed, context_done, queue_full, result, Caller, idle, entered,
  waiting, returned, panicked, Worker, receiving, running, sending, exited, WorkerPool,
  GetterMetrics, new_preflight_worker_pool, replicate_workers, go_on, enqueue, refuse, start_run,
  end_run, deliver, Move, enter, turn_away, send, send_directly, send_panics, cancel, default,
  receive, finish, answer, exit, flag, close_channel, close_returns, Reach, here, next,
}
use stellar_stellar_rpc.Preflight.Pool.Counts.{for_caller, handles, is_waiting, waiting_at}
use stellar_stellar_rpc.Preflight.Pool.Inv.{Inv}
use stellar_stellar_rpc.Preflight.Pool.Inv.Reached.{Move-Inv, Reach-Inv}

-- The caller of a request waits for it.
abbrev pub Owns : List Caller → WorkerRequest → Type 0
Owns cs r = get_elem? cs r.caller ≡ some (waiting r.params)

module _ (Runs : Parameters → WorkerResult → List (ℕ × ℕ) → Type 0) where
  abbrev pub Ran : Parameters → WorkerResult → Type 0
  Ran p res = (calls : List (ℕ × ℕ)) × Runs p res calls

  abbrev pub Holds : List Caller → Worker → Type 0
  Holds cs receiving = Unit
  Holds cs (running r) = Owns cs r
  Holds cs (sending r res m) = Owns cs r × Ran r.params res
  Holds cs exited = Unit

  -- A caller that is answered with a result has that of a preflight of its own parameters.
  abbrev pub IsAnswered : Caller → Type 0
  IsAnswered (returned p (result res)) = Ran p res
  IsAnswered (returned p pool_closed) = Unit
  IsAnswered (returned p context_done) = Unit
  IsAnswered (returned p queue_full) = Unit
  IsAnswered (idle p) = Unit
  IsAnswered (entered p) = Unit
  IsAnswered (waiting p) = Unit
  IsAnswered panicked = Unit

  pub record Owners (s : WorkerPool) : Type 0 where
    pub queued : All (Owns s.callers) s.queue
    pub held : All (Holds s.callers) s.workers
    pub answered : All IsAnswered s.callers

  Owns-set :
      (cs : List Caller) (k : ℕ) (d : Caller) (r : WorkerRequest)
      → for_caller k r ≡ 0
      → Owns cs r
      → Owns (set cs k d) r
  Owns-set cs k d r z h = get_elem?-set_ne cs d (λ (e : k ≡ r.caller). ground arith) ∙ h

  queue-set :
      (cs : List Caller) (k : ℕ) (d : Caller) (q : List WorkerRequest)
      → sum_by (for_caller k) q ≡ 0
      → All (Owns cs) q
      → All (Owns (set cs k d)) q
  unfolding sum_by
  queue-set cs k d [] z h = tt
  queue-set cs k d (r ∷ q) z h =
      (Owns-set cs k d r (omega arith) h.0, queue-set cs k d q (omega arith) h.1)

  Holds-set :
      (cs : List Caller) (k : ℕ) (d : Caller) (w : Worker)
      → handles k w ≡ 0
      → Holds cs w
      → Holds (set cs k d) w
  Holds-set cs k d receiving z h = tt
  Holds-set cs k d (running r) z h = Owns-set cs k d r z h
  Holds-set cs k d (sending r res m) z h = (Owns-set cs k d r z h.0, h.1)
  Holds-set cs k d exited z h = tt

  workers-set :
      (cs : List Caller) (k : ℕ) (d : Caller) (ws : List Worker)
      → sum_by (handles k) ws ≡ 0
      → All (Holds cs) ws
      → All (Holds (set cs k d)) ws
  unfolding sum_by
  workers-set cs k d [] z h = tt
  workers-set cs k d (w ∷ ws) z h =
      (Holds-set cs k d w (omega arith) h.0, workers-set cs k d ws (omega arith) h.1)

  set_self :
      (cs : List Caller) (k : ℕ) {c : Caller} (d : Caller)
      → get_elem? cs k ≡ some c
      → get_elem? (set cs k d) k ≡ some d
  set_self [] k d e = cc
  set_self (x ∷ cs) zero d e = refl
  set_self (x ∷ cs) (suc k) d e = set_self cs k d e

  pub waiting_at-some :
      (cs : List Caller) (k : ℕ) {c : Caller}
      → get_elem? cs k ≡ some c
      → waiting_at cs k ≡ is_waiting c
  waiting_at-some cs k e = rw (e, waiting_at) refl

  -- A caller that waits for nothing goes on.
  module _ (s : WorkerPool) (i : ℕ) {c : Caller} (d : Caller) (e : get_elem? s.callers i ≡ some c)
      (h : is_waiting c ≡ 0) (v : Inv s) (o : Owners s) where
    others_queued : All (Owns (set s.callers i d)) s.queue
    others_queued =
        queue-set s.callers i d s.queue (omega (arith, v.counted i, waiting_at-some s.callers i e))
          o.queued

    others_held : All (Holds (set s.callers i d)) s.workers
    others_held =
        workers-set s.callers i d s.workers
          (omega (arith, v.counted i, waiting_at-some s.callers i e)) o.held

    pub go_on-Owners : IsAnswered d → Owners (go_on s i d)
    unfolding go_on
    go_on-Owners a = record {
      queued = others_queued;
      held = others_held;
      answered = All-set IsAnswered s.callers i d o.answered a;
    }

  pub enqueue-Owners :
      (s : WorkerPool) (i : ℕ) (p : Parameters)
      → get_elem? s.callers i ≡ some (entered p)
      → Inv s
      → Owners s
      → Owners (enqueue s i p)
  unfolding enqueue
  enqueue-Owners s i p e v o = record {
    queued =
        All-append_end (Owns (set s.callers i (waiting p))) s.queue
          (record { params = p; caller = i }) (others_queued s i (waiting p) e refl v o)
          (set_self s.callers i (waiting p) e);
    held = others_held s i (waiting p) e refl v o;
    answered = All-set IsAnswered s.callers i (waiting p) o.answered tt;
  }

  pub refuse-Owners :
      (s : WorkerPool) (i : ℕ) (p : Parameters)
      → get_elem? s.callers i ≡ some (entered p)
      → Inv s
      → Owners s
      → Owners (refuse s i p)
  unfolding refuse
  refuse-Owners s i p e v o = record {
    queued = others_queued s i (returned p queue_full) e refl v o;
    held = others_held s i (returned p queue_full) e refl v o;
    answered = All-set IsAnswered s.callers i (returned p queue_full) o.answered tt;
  }

  pub start_run-Owners :
      (s : WorkerPool) (j : ℕ) (r : WorkerRequest) (rest : List WorkerRequest)
      → s.queue ≡ r ∷ rest
      → Owners s
      → Owners (start_run (record s { queue = rest }) j r)
  unfolding start_run
  start_run-Owners s j r rest q o =
      let owned : All (Owns s.callers) (r ∷ rest) = subst (All (Owns s.callers)) q o.queued in
      record {
        queued = owned.1;
        held = All-set (Holds s.callers) s.workers j (running r) o.held owned.0;
        answered = o.answered;
      }

  pub send_directly-Owners :
      (s : WorkerPool) (i j : ℕ) (p : Parameters)
      → get_elem? s.callers i ≡ some (entered p)
      → Inv s
      → Owners s
      → Owners (start_run (go_on s i (waiting p)) j (record { params = p; caller = i }))
  unfolding start_run go_on
  send_directly-Owners s i j p e v o = record {
    queued = others_queued s i (waiting p) e refl v o;
    held =
        All-set (Holds (set s.callers i (waiting p))) s.workers j
          (running (record { params = p; caller = i })) (others_held s i (waiting p) e refl v o)
          (set_self s.callers i (waiting p) e);
    answered = All-set IsAnswered s.callers i (waiting p) o.answered tt;
  }

  pub end_run-Owners :
      (s : WorkerPool) (j : ℕ) (r : WorkerRequest) (res : WorkerResult) (calls : List (ℕ × ℕ))
      → get_elem? s.workers j ≡ some (running r)
      → Runs r.params res calls
      → Owners s
      → Owners (end_run s j r res calls)
  unfolding end_run
  end_run-Owners s j r res calls e run o = record {
    queued = o.queued;
    held =
        All-set (Holds s.callers) s.workers j _ o.held
          (All-get_elem? (Holds s.callers) s.workers j o.held e, (calls, run));
    answered = o.answered;
  }

  pub deliver-Owners :
      (s : WorkerPool) (j : ℕ) (r : WorkerRequest) (p : Parameters) (res : WorkerResult)
      (m : GetterMetrics)
      → get_elem? s.workers j ≡ some (sending r res m)
      → get_elem? s.callers r.caller ≡ some (waiting p)
      → Inv (deliver s j r p res m)
      → Owners s
      → Owners (deliver s j r p res m)
  unfolding deliver
  deliver-Owners s j r p res m e e' v o =
      let mine = All-get_elem? (Holds s.callers) s.workers j o.held e in
      let same : r.params ≡ p = waiting-injective (sym mine.0 ∙ e') in
      let none_left = v.counted r.caller in
      let gone =
        waiting_at-some _ r.caller (set_self s.callers r.caller (returned p (result res)) e') in
      record {
        queued =
            queue-set s.callers r.caller (returned p (result res)) s.queue
              (omega (arith, none_left, gone)) o.queued;
        held =
            workers-set s.callers r.caller (returned p (result res)) (set s.workers j receiving)
              (omega (arith, none_left, gone))
              (All-set (Holds s.callers) s.workers j receiving o.held tt);
        answered =
            All-set IsAnswered s.callers r.caller (returned p (result res)) o.answered
              (subst (λ (q : Parameters). Ran q res) same mine.1);
      }
    where
      waiting-injective : {p q : Parameters} → some (waiting p) ≡ some (waiting q) → p ≡ q
      waiting-injective e = cc
