-- ===== src/Network/Duration.antt =====
-- cmd/stellar-rpc/internal/network/requestdurationlimiter.go: the limit on the duration of a request.
-- `ServeHTTP` and `Handle` start two timers and a goroutine with the downstream handler, and then loop
-- over one select. The loop, the goroutine, the timers and the client take steps that interleave in
-- any order. What the handler does is a parameter: `J` is what it works on, `D` what its channel gives
-- at the end. Durations are not negative; logs are left out.
pub mod Http
pub mod Rpc
pub mod Inv
pub mod Bounds
pub mod Progress
pub mod Gone
pub mod Response
pub mod Result
mod Tests
use stellar_stellar_rpc.Base.{
  ℕ, zero, suc, ◌+◌, ◌-◌, ◌^◌, ◌≤◌, ◌<◌, ◌≡◌, Bool, true, false, not, ◌&&◌, ltb, ◌==◌,
  if◌then◌else◌,
}

-- RequestDurationLimiterNoLimit
abbrev pub no_limit : ℕ
no_limit = 2 ^ 63 - 1

pub record RequestDurationLimiter : Type 0 where
  pub warning_threshold : ℕ
  pub limit_threshold : ℕ

-- `MakeHTTPRequestDurationLimiter`, `MakeJrpcRequestDurationLimiter`
unfoldable pub make_request_duration_limiter : ℕ → ℕ → RequestDurationLimiter
make_request_duration_limiter warning_threshold limit_threshold = record {
  warning_threshold =
      if ltb limit_threshold warning_threshold then limit_threshold else warning_threshold;
  limit_threshold = limit_threshold;
}

-- a nil channel, that of a timer that runs, one with the time in it, and one that was read
pub data Channel : Type 0 where
  nil armed ready drained : Channel

-- the goroutine of the downstream handler, with what it sends when it is through
pub data Job (J D : Type 0) : Type 0 where
  working : J → Job J D
  ended : D → Job J D

-- How the select loop ends: by the limit or with what the goroutine sent. The flag tells whether the
-- context of the request was done at that moment.
pub data Verdict (D : Type 0) : Type 0 where
  timed_out : (gone : Bool) → Verdict D
  completed : (gone : Bool) → D → Verdict D

pub data Loop (D : Type 0) : Type 0 where
  waiting : (warn : Bool) → Loop D
  answered : Verdict D → Loop D

-- one request, with what it adds to the two counters
pub record Serving (J D : Type 0) : Type 0 where
  pub clock : ℕ
  pub warning_ch : Channel
  pub limit_ch : Channel
  pub job : Job J D
  pub client_gone : Bool
  pub loop : Loop D
  pub warnings : ℕ
  pub limits : ℕ

abbrev pub timer : Bool → Channel
timer true = armed
timer false = nil

abbrev pub counted : Bool → ℕ
counted true = 1
counted false = 0

-- the request when it enters the loop; with no limit the limiter only calls the handler
unfoldable pub begin : {J D : Type 0} → RequestDurationLimiter → J → Serving J D
begin q j = record {
  clock = 0;
  warning_ch = timer (not (q.warning_threshold == 0) && ltb q.warning_threshold q.limit_threshold);
  limit_ch = timer (not (q.limit_threshold == 0));
  job = working j;
  client_gone = false;
  loop = waiting false;
  warnings = 0;
  limits = 0;
}

unfoldable pub passes_through : RequestDurationLimiter → Bool
passes_through q = q.limit_threshold == no_limit

-- The steps; the flag marks those of the select loop. A handler goes on working after the answer of
-- the loop, and a channel that is ready is chosen whenever it is.
pub data Move {J D : Type 0} (works : J → J → Type 0) (ends : J → D → Type 0)
    (q : RequestDurationLimiter) (s : Serving J D) : Bool → Serving J D → Type 0 where
  tick : Move works ends q s false (record s { clock = s.clock + 1 })
  warning_fires :
      s.warning_ch ≡ armed
      → q.warning_threshold ≤ s.clock
      → Move works ends q s false (record s { warning_ch = ready })
  limit_fires :
      s.limit_ch ≡ armed
      → q.limit_threshold ≤ s.clock
      → Move works ends q s false (record s { limit_ch = ready })
  work :
      {j j' : J}
      → s.job ≡ working j
      → works j j'
      → Move works ends q s false (record s { job = working j' })
  finish :
      {j : J} {d : D}
      → s.job ≡ working j
      → ends j d
      → Move works ends q s false (record s { job = ended d })
  leave : Move works ends q s false (record s { client_gone = true })
  take_warning :
      {warn : Bool}
      → s.loop ≡ waiting warn
      → s.warning_ch ≡ ready
      → Move works ends q s true (record s { warning_ch = drained; loop = waiting true })
  take_limit :
      {warn : Bool}
      → s.loop ≡ waiting warn
      → s.limit_ch ≡ ready
      → Move works ends q s true (record s {
        limit_ch = drained;
        limits = s.limits + 1;
        loop = answered (timed_out s.client_gone);
      })
  take_completed :
      {warn : Bool} {d : D}
      → s.loop ≡ waiting warn
      → s.job ≡ ended d
      → Move works ends q s true (record s {
        warnings = s.warnings + counted warn;
        loop = answered (completed s.client_gone d);
      })

-- a run of steps, with the number of rounds of the select loop
pub data Run {J D : Type 0} (works : J → J → Type 0) (ends : J → D → Type 0)
    (q : RequestDurationLimiter) (s : Serving J D) : ℕ → Serving J D → Type 0 where
  start : Run works ends q s 0 s
  step :
      {n : ℕ} {b : Bool} {t u : Serving J D}
      → Run works ends q s n t
      → Move works ends q t b u
      → Run works ends q s (n + counted b) u
