-- ===== src/Preflight/Pool/Counts.antt =====
-- How many requests of a caller the pool holds, and whether the caller waits for one.
use stellar_stellar_rpc.Base.{
  ℕ, zero, suc, ◌+◌, ◌≡◌, none, some, List, [], ◌∷◌, arith, ◌==◌, if◌then◌else◌, get_elem?, set,
}
use stellar_stellar_rpc.Preflight.Pool.{
  WorkerRequest, Caller, idle, entered, waiting, returned, panicked, Worker, receiving, running,
  sending, exited,
}

abbrev pub for_caller : ℕ → WorkerRequest → ℕ
for_caller i r = if r.caller == i then 1 else 0

-- a worker that runs a request of the caller, or holds its result
abbrev pub handles : ℕ → Worker → ℕ
handles i receiving = 0
handles i (running r) = for_caller i r
handles i (sending r res m) = for_caller i r
handles i exited = 0

abbrev pub is_running : Worker → ℕ
is_running receiving = 0
is_running (running r) = 1
is_running (sending r res m) = 0
is_running exited = 0

abbrev pub is_exited : Worker → ℕ
is_exited receiving = 0
is_exited (running r) = 0
is_exited (sending r res m) = 0
is_exited exited = 1

abbrev pub is_waiting : Caller → ℕ
is_waiting (idle p) = 0
is_waiting (entered p) = 0
is_waiting (waiting p) = 1
is_waiting (returned p a) = 0
is_waiting panicked = 0

abbrev pub waiting_at : List Caller → ℕ → ℕ
waiting_at cs i = elim (get_elem? cs i) [ none ↦ 0 | some c ↦ is_waiting c ]

pub waiting_at-set :
    (cs : List Caller) (k i : ℕ) (c d : Caller)
    → get_elem? cs k ≡ some c
    → waiting_at (set cs k d) i + (if k == i then is_waiting c else 0)
      ≡ waiting_at cs i + (if k == i then is_waiting d else 0)
waiting_at-set [] k i c d e = cc
waiting_at-set (x ∷ cs) zero zero c d e = ground arith
waiting_at-set (x ∷ cs) zero (suc i) c d e = ground arith
waiting_at-set (x ∷ cs) (suc k) zero c d e = ground arith
waiting_at-set (x ∷ cs) (suc k) (suc i) c d e = ground (arith, waiting_at-set cs k i c d e)
