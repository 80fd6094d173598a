-- ===== src/Network/Duration/Bounds.antt =====
-- The answers of the limiter: how many rounds they take, what justifies them, and that they are final.
use stellar_stellar_rpc.Base.{ℕ, ◌≤◌, ◌<◌, ◌≡◌, refl, Bool, true, false, arith, ◌⊎◌, ◌∙◌}
use stellar_stellar_rpc.Network.Duration.{
  RequestDurationLimiter, ended, Verdict, timed_out, completed, Loop, waiting, answered, Serving,
  begin, Move, tick, warning_fires, limit_fires, work, finish, leave, take_warning, take_limit,
  take_completed, Run, start, step,
}
use stellar_stellar_rpc.Network.Duration.Inv.{Inv, Run-Inv}

-- What stands behind the loop of a request: nothing is counted while it waits; a timeout means that
-- the limit has passed; another answer is what the handler has sent.
abbrev pub IsJustified : {J D : Type 0} → RequestDurationLimiter → Serving J D → Loop D → Type 0
IsJustified q s (waiting warn) =
    (s.limits ≡ 0) × (s.warnings ≡ 0) × ((warn ≡ false) ⊎ (q.warning_threshold ≤ s.clock))
IsJustified q s (answered (timed_out gone)) =
    (0 < q.limit_threshold) × (q.limit_threshold ≤ s.clock) × (s.limits ≡ 1) × (s.warnings ≡ 0)
IsJustified q s (answered (completed gone d)) =
    (s.job ≡ ended d)
    × (s.limits ≡ 0)
    × ((s.warnings ≡ 0)
        ⊎ ((s.warnings ≡ 1)
            × (0 < q.warning_threshold)
            × (q.warning_threshold < q.limit_threshold)
            × (q.warning_threshold ≤ s.clock)))

module _ {J D : Type 0} {q : RequestDurationLimiter} where
  Inv-IsJustified :
      {n : ℕ} {s : Serving J D} (l : Loop D) → s.loop ≡ l → Inv q n s → IsJustified q s l
  Inv-IsJustified (waiting true) e v = ground arith
  Inv-IsJustified (waiting false) e v = ground arith
  Inv-IsJustified (answered (timed_out gone)) e v = ground arith
  Inv-IsJustified (answered (completed gone d)) e v = ground arith

  Inv-rounds : {n : ℕ} {s : Serving J D} → Inv q n s → n ≤ 2
  Inv-rounds {s = s} v = ground arith

module _ {J D : Type 0} {works : J → J → Type 0} {ends : J → D → Type 0}
    {q : RequestDurationLimiter} (j : J) where
  -- From the start of the loop on, the select loop makes at most two rounds, and at any time: it has
  -- counted nothing while it waits; it has answered by the limit only after a positive limit has
  -- passed, and counted that once; and any other answer is what the handler has sent, with at most
  -- one warning counted, and that only after the warning threshold, which is below the limit.
  pub answer-IsJustified :
      {n : ℕ} {s : Serving J D}
      → Run works ends q (begin q j) n s
      → (n ≤ 2) × IsJustified q s s.loop
  answer-IsJustified r = (Inv-rounds (Run-Inv j r), Inv-IsJustified _ refl (Run-Inv j r))

module _ {J D : Type 0} {works : J → J → Type 0} {ends : J → D → Type 0}
    {q : RequestDurationLimiter} where
  final_step :
      {b : Bool} {s t : Serving J D} {v : Verdict D}
      → Move works ends q s b t
      → s.loop ≡ answered v
      → (b ≡ false) × (t.loop ≡ answered v) × (t.limits ≡ s.limits) × (t.warnings ≡ s.warnings)
  final_step tick e = (refl, e, refl, refl)
  final_step (warning_fires f h) e = (refl, e, refl, refl)
  final_step (limit_fires f h) e = (refl, e, refl, refl)
  final_step (work f h) e = (refl, e, refl, refl)
  final_step (finish f h) e = (refl, e, refl, refl)
  final_step leave e = (refl, e, refl, refl)
  final_step (take_warning f h) e = cc
  final_step (take_limit f h) e = cc
  final_step (take_completed f h) e = cc

  -- After the answer the loop makes no further round, and the answer and the counters do not change,
  -- whatever the handler still does.
  pub answered_final :
      {s : Serving J D} {v : Verdict D} {n : ℕ} {t : Serving J D}
      → Run works ends q s n t
      → s.loop ≡ answered v
      → (n ≡ 0) × (t.loop ≡ answered v) × (t.limits ≡ s.limits) × (t.warnings ≡ s.warnings)
  answered_final start e = (refl, e, refl, refl)
  answered_final (step r m) e =
      let (z, a, l, w) = answered_final r e in
      let (f, a', l', w') = final_step m a in (ground (arith, z, f), a', l' ∙ l, w' ∙ w)
