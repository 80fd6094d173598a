-- ===== src/Network/Duration/Inv.antt =====
-- What holds of a request between any two steps, and how many rounds the select loop has made.
use stellar_stellar_rpc.Base.{
  ℕ, ◌+◌, ◌≤◌, ◌<◌, ◌≡◌, Bool, not, arith, ltb, ◌==◌, ◌&&◌, Bool-cases, inl, inr, ◌⊎◌, ◌*◌,
}
use stellar_stellar_rpc.Network.Duration.{
  RequestDurationLimiter, Channel, nil, armed, ready, drained, Job, ended, timed_out, completed,
  Loop, waiting, answered, Serving, counted, begin, Move, tick, warning_fires, limit_fires, work,
  finish, leave, take_warning, take_limit, take_completed, Run, start, step,
}

abbrev pub is_fired : Channel → ℕ
is_fired nil = 0
is_fired armed = 0
is_fired ready = 1
is_fired drained = 1

abbrev pub is_drained : Channel → ℕ
is_drained drained = 1
is_drained nil = 0
is_drained armed = 0
is_drained ready = 0

abbrev pub is_on : Channel → ℕ
is_on nil = 0
is_on armed = 1
is_on ready = 1
is_on drained = 1

abbrev pub by_limit : {D : Type 0} → Loop D → ℕ
by_limit (waiting warn) = 0
by_limit (answered (timed_out gone)) = 1
by_limit (answered (completed gone d)) = 0

abbrev pub by_handler : {D : Type 0} → Loop D → ℕ
by_handler (waiting warn) = 0
by_handler (answered (timed_out gone)) = 0
by_handler (answered (completed gone d)) = 1

-- the local `warn` while the loop runs
abbrev WarnIs : {D : Type 0} → Loop D → ℕ → Type 0
WarnIs (waiting warn) n = n ≡ counted warn
WarnIs (answered v) n = n ≤ 1

abbrev HandlerSent : {J D : Type 0} → Loop D → Job J D → Type 0
HandlerSent (waiting warn) job = Unit
HandlerSent (answered (timed_out gone)) job = Unit
HandlerSent (answered (completed gone d)) job = job ≡ ended d

pub record Inv {J D : Type 0} (q : RequestDurationLimiter) (n : ℕ) (s : Serving J D) : Type 0 where
  pub warning_fired : (is_fired s.warning_ch ≤ 0) ⊎ (q.warning_threshold ≤ s.clock)
  pub limit_fired : (is_fired s.limit_ch ≤ 0) ⊎ (q.limit_threshold ≤ s.clock)
  pub warning_on :
      (is_on s.warning_ch ≤ 0)
      ⊎ ((0 < q.warning_threshold) × (q.warning_threshold < q.limit_threshold))
  pub limit_on : is_on s.limit_ch ≡ counted (not (q.limit_threshold == 0))
  pub limit_counted : s.limits ≡ is_drained s.limit_ch
  pub limit_taken : is_drained s.limit_ch ≡ by_limit s.loop
  pub warning_counted : s.warnings ≡ is_drained s.warning_ch * by_handler s.loop
  pub warn_local : WarnIs s.loop (is_drained s.warning_ch)
  pub rounds : n ≡ is_drained s.warning_ch + (by_limit s.loop + by_handler s.loop)
  pub sent : HandlerSent s.loop s.job

module _ {J D : Type 0} {works : J → J → Type 0} {ends : J → D → Type 0}
    {q : RequestDurationLimiter} where
  Move-Inv :
      {n : ℕ} {b : Bool} {s t : Serving J D}
      → Move works ends q s b t
      → Inv q n s
      → Inv q (n + counted b) t
  Move-Inv tick v = ground arith
  Move-Inv (warning_fires e h) v = ground arith
  Move-Inv (limit_fires e h) v = ground arith
  Move-Inv (work e h) v = ground arith
  Move-Inv (finish e h) v = ground arith
  Move-Inv leave v = ground arith
  Move-Inv (take_warning e h) v = ground arith
  Move-Inv (take_limit e h) v = ground arith
  Move-Inv (take_completed e h) v = ground arith

module _ {J D : Type 0} {q : RequestDurationLimiter} where
  begin-Inv : (j : J) → Inv {J = J} {D = D} q 0 (begin q j)
  unfolding begin
  begin-Inv j =
      elim (Bool-cases
        (not (q.warning_threshold == 0) && ltb q.warning_threshold q.limit_threshold)) [
          | inl e ↦ ground (arith, e)
          | inr e ↦ ground (arith, e)
        ]

module _ {J D : Type 0} {works : J → J → Type 0} {ends : J → D → Type 0}
    {q : RequestDurationLimiter} where
  -- The invariant holds after every run from the start of the loop.
  pub Run-Inv : (j : J) {n : ℕ} {s : Serving J D} → Run works ends q (begin q j) n s → Inv q n s
  Run-Inv j start = begin-Inv j
  Run-Inv j (step r m) = Move-Inv m (Run-Inv j r)
