-- ===== src/Network/Backlog.antt =====
-- cmd/stellar-rpc/internal/network/backlogQ.go: the limit on the requests in flight. `ServeHTTP` and
-- `Handle` take the same steps on the shared `backlogQLimiter`; each atomic access is a step of its
-- own, and any number of goroutines interleave. The downstream handler may return or panic: the
-- deferred function runs in both cases, so leaving it is one step.
pub mod Inv
pub mod Safety
mod Tests
use stellar_stellar_rpc.Base.{
  ℕ, zero, suc, ◌+◌, ◌-◌, ◌^◌, ◌≤◌, ◌<◌, ◌≡◌, ◌≢◌, Option, none, some, List, [], ◌∷◌, u64,
  get_elem?, set,
}
use mathlib.Core.Option

-- RequestBacklogQueueNoLimit
abbrev pub no_limit : ℕ
no_limit = 2 ^ 64 - 1

-- `gauge` is the value of the gauge, `none` for nil; `logged` counts the messages of the logger, if
-- there is one.
pub record BacklogQLimiter : Type 0 where
  pub limit : ℕ
  pub pending : ℕ
  pub gauge : Option ℕ
  pub limit_reached : ℕ
  pub logged : Option ℕ

-- Where a goroutine stands in `ServeHTTP` or `Handle`.
pub data Pc : Type 0 where
  idle : Pc  -- no request yet
  passing : Pc  -- in the downstream handler, without a limit
  added : (new_pending : ℕ) → Pc  -- behind the first AddUint64
  turned_away : Pc  -- behind the AddUint64 that takes the increment back
  running : Pc  -- in the downstream handler
  left : Pc  -- in the deferred function, behind its AddUint64
  counted_out : Pc  -- before the StoreUint64
  served : Pc  -- returned what the downstream handler gave
  refused : Pc  -- returned the error for a full queue

abbrev inc : Option ℕ → Option ℕ
inc = Option.map (λ n. n + 1)

abbrev dec : Option ℕ → Option ℕ
dec = Option.map (λ n. n - 1)

-- `AddUint64(&q.pending, ^uint64(0))`
abbrev pub decrement : BacklogQLimiter → BacklogQLimiter
decrement q = record q { pending = u64 (q.pending + (2 ^ 64 - 1)) }

pub data Move (q : BacklogQLimiter) : Pc → BacklogQLimiter → Pc → Type 0 where
  pass : q.limit ≡ no_limit → Move q idle q passing
  passed : Move q passing q served
  add :
      q.limit ≢ no_limit
      → Move q idle (record q { pending = u64 (q.pending + 1) }) (added (u64 (q.pending + 1)))
  turn_away : {n : ℕ} → q.limit < n → Move q (added n) (decrement q) turned_away
  first_refusal :
      q.limit_reached ≡ 0
      → Move q turned_away (record q { limit_reached = 1; logged = inc q.logged }) refused
  later_refusal : q.limit_reached ≢ 0 → Move q turned_away q refused
  admit : {n : ℕ} → n ≤ q.limit → Move q (added n) (record q { gauge = inc q.gauge }) running
  leave : Move q running (decrement q) left
  count_out : Move q left (record q { gauge = dec q.gauge }) counted_out
  reset : Move q counted_out (record q { limit_reached = 0 }) served
  next_served : Move q served q idle
  next_refused : Move q refused q idle

pub record System : Type 0 where
  pub limiter : BacklogQLimiter
  pub goroutines : List Pc

pub data Step (s : System) : System → Type 0 where
  step :
      (i : ℕ) {p p' : Pc} {q : BacklogQLimiter}
      → get_elem? s.goroutines i ≡ some p
      → Move s.limiter p q p'
      → Step s (record { limiter = q; goroutines = set s.goroutines i p' })

-- `MakeHTTPBacklogQueueLimiter`, `MakeJrpcBacklogQueueLimiter`
unfoldable pub make_backlog_q_limiter : ℕ → Option ℕ → Option ℕ → BacklogQLimiter
make_backlog_q_limiter limit gauge logged = record {
  limit = limit;
  pending = 0;
  gauge = gauge;
  limit_reached = 0;
  logged = logged;
}

abbrev pub replicate : ℕ → List Pc
replicate zero = []
replicate (suc n) = idle ∷ replicate n

-- `n` goroutines before their first request, with a gauge at 0 or none
abbrev pub init : ℕ → ℕ → System
init n limit = record {
  limiter = make_backlog_q_limiter limit (some 0) (some 0);
  goroutines = replicate n;
}

pub data Reach (n limit : ℕ) : System → Type 0 where
  start : Reach n limit (init n limit)
  later : {s t : System} → Reach n limit s → Step s t → Reach n limit t
