-- ===== src/Network/Backlog/Tests.antt =====
-- A run of two goroutines at a limit of one request, and the theorems in its states.
use stellar_stellar_rpc.Base.{ℕ, ◌≤◌, ◌<◌, ◌≡◌, ◌↔◌, refl, some, [], ◌∷◌, arith}
use stellar_stellar_rpc.Base.Weights.{sum_by}
use stellar_stellar_rpc.Network.Backlog.{
  turned_away, running, refused, served, System, step, Reach, start, later, add, admit, turn_away,
  first_refusal, leave, count_out, reset, make_backlog_q_limiter,
}
use stellar_stellar_rpc.Network.Backlog.Inv.{holds}
use stellar_stellar_rpc.Network.Backlog.Safety.{
  in_downstream, in_flight-le-limit, quiet_limiter, GetsTo, admitted_iff_room,
}

-- The first goroutine is in the handler, the second has been turned away.
abbrev busy : System
busy = record {
  limiter = record { limit = 1; pending = 1; gauge = some 1; limit_reached = 1; logged = some 1 };
  goroutines = running ∷ refused ∷ [];
}

busy-Reach : Reach 2 1 busy
unfolding make_backlog_q_limiter
busy-Reach =
    later
      (later
        (later
          (later (later start (step 0 refl (add (omega arith))))
            (step 0 refl (admit (omega arith))))
          (step 1 refl (add (omega arith))))
        (step 1 refl (turn_away (omega arith))))
      (step 1 refl (first_refusal refl))

-- The first request has been served.
abbrev quiet : System
quiet = record {
  limiter = record { limit = 1; pending = 0; gauge = some 0; limit_reached = 0; logged = some 1 };
  goroutines = served ∷ refused ∷ [];
}

quiet-Reach : Reach 2 1 quiet
quiet-Reach =
    later (later (later busy-Reach (step 0 refl leave)) (step 0 refl count_out)) (step 0 refl reset)

in_flight-le-limit_example : sum_by in_downstream busy.goroutines ≤ 1
in_flight-le-limit_example = in_flight-le-limit (omega arith) (omega arith) busy-Reach

quiet_limiter_example : ◌≡◌ {A = ℕ} 0 0 × (quiet.limiter.gauge ≡ some 0)
quiet_limiter_example = quiet_limiter (omega arith) quiet-Reach (omega arith)

admitted_iff_room_example :
    (GetsTo busy.limiter running ↔ (sum_by holds busy.goroutines < 1))
    × (GetsTo busy.limiter turned_away ↔ (1 ≤ sum_by holds busy.goroutines))
admitted_iff_room_example = admitted_iff_room (omega arith) (omega arith) busy-Reach
