-- ===== src/Network/Duration/Progress.antt =====
-- A handler that never comes back does not keep the limiter from its answer.
use stellar_stellar_rpc.Base.{ℕ, zero, suc, ◌+◌, ◌≤◌, ◌<◌, ◌≡◌, refl, Bool, arith, ◌∙◌, ap}
use stellar_stellar_rpc.Network.Duration.{
  RequestDurationLimiter, Channel, nil, armed, ready, drained, timed_out, waiting, answered,
  Serving, begin, tick, limit_fires, take_limit, Run, start, step,
}
use stellar_stellar_rpc.Network.Duration.Inv.{Inv, Run-Inv}

-- a handler that does nothing more
abbrev pub Stuck : {A B : Type 0} → A → B → Type 0
Stuck a b = ⊥

module _ {J D : Type 0} (q : RequestDurationLimiter) where
  -- what waiting alone changes
  record Waited (k : ℕ) (s t : Serving J D) : Type 0 where
    run : Run Stuck Stuck q s 0 t
    clock : k ≤ t.clock
    limit_ch : t.limit_ch ≡ s.limit_ch
    loop : t.loop ≡ s.loop
    client_gone : t.client_gone ≡ s.client_gone

  wait : (k : ℕ) (s : Serving J D) → (t : Serving J D) × Waited k s t
  wait zero s = (
    s,
    record { run = start; clock = omega arith; limit_ch = refl; loop = refl; client_gone = refl },
  )
  wait (suc k) s =
      let (t, w) = wait k s in
      (
        record t { clock = t.clock + 1 },
        record {
          run = step w.run tick;
          clock = omega (arith, w.clock);
          limit_ch = w.limit_ch;
          loop = w.loop;
          client_gone = w.client_gone;
        },
      )

  TimesOut : Serving J D → Type 0
  TimesOut s =
      (t : Serving J D) × Run Stuck Stuck q s 1 t × (t.loop ≡ answered (timed_out s.client_gone))

  by_channel :
      {n : ℕ} {s : Serving J D} {warn : Bool} (c : Channel)
      → s.limit_ch ≡ c
      → s.loop ≡ waiting warn
      → 0 < q.limit_threshold
      → Inv q n s
      → TimesOut s
  unfolding TimesOut
  by_channel nil e l p v = absurd (ground arith)
  by_channel drained e l p v = absurd (ground arith)
  by_channel ready e l p v = (_, step start (take_limit l e), refl)
  by_channel {s = s} armed e l p v =
      let (t, w) = wait q.limit_threshold s in
      (
        _,
        step (step w.run (limit_fires (w.limit_ch ∙ e) w.clock)) (take_limit (w.loop ∙ l) refl),
        ap (λ g. answered (timed_out g)) w.client_gone,
      )

  -- From every reachable state in which the loop waits, with a positive limit, the passing of time and
  -- the limit's timer alone lead to the answer by the limit, in one round, without any step of the
  -- handler.
  pub times_out :
      {works : J → J → Type 0} {ends : J → D → Type 0} (j : J) {n : ℕ} {s : Serving J D}
      {warn : Bool}
      → 0 < q.limit_threshold
      → Run works ends q (begin q j) n s
      → s.loop ≡ waiting warn
      → (t : Serving J D) × Run Stuck Stuck q s 1 t × (t.loop ≡ answered (timed_out s.client_gone))
  unfolding TimesOut
  times_out j {s = s} p r l = by_channel s.limit_ch refl l p (Run-Inv j r)
