-- ===== src/Network/Backlog/Safety.antt =====
-- What the limiter guarantees in every reachable state.
use stellar_stellar_rpc.Base.{
  ℕ, ◌+◌, ◌^◌, ◌≤◌, ◌<◌, ◌≡◌, ◌≢◌, ◌↔◌, refl, sym, ap, ◌∙◌, some, List, [], ◌∷◌, arith, u64,
}
use stellar_stellar_rpc.Base.Weights.{sum_by, sum_by-le-length, sum_by-zero, All}
use stellar_stellar_rpc.Network.Backlog.{
  no_limit, BacklogQLimiter, Pc, idle, passing, added, turned_away, running, served, refused, Move,
  add, turn_away, admit, System, Reach,
}
use stellar_stellar_rpc.Network.Backlog.Inv.{
  holds, holds-le-one, admitted, gauged, unlimited, Reach-Inv,
}

-- one in the downstream handler
abbrev pub in_downstream : Pc → ℕ
in_downstream passing = 1
in_downstream running = 1
in_downstream _ = 0

in_downstream-le :
    (limit : ℕ) (gs : List Pc)
    → sum_by in_downstream gs ≤ sum_by (admitted limit) gs + sum_by unlimited gs
unfolding sum_by
in_downstream-le limit [] = omega arith
in_downstream-le limit (p ∷ gs) = omega (arith, split p, in_downstream-le limit gs)
  where
    split : (p : Pc) → in_downstream p ≤ admitted limit p + unlimited p
    split idle = omega arith
    split p = omega arith

-- With a limit, and fewer than 2^64 goroutines, no more requests than the limit are in the
-- downstream handler at any time, however the goroutines interleave.
pub in_flight-le-limit :
    {n limit : ℕ} {s : System}
    → n < 2 ^ 64
    → limit ≢ no_limit
    → Reach n limit s
    → sum_by in_downstream s.goroutines ≤ limit
in_flight-le-limit {limit = limit} {s = s} small h r =
    let v = Reach-Inv small r in
    ground (arith, v.within, v.none_unlimited, in_downstream-le limit s.goroutines)

-- between two requests
abbrev pub IsQuiet : Pc → Type 0
IsQuiet idle = Unit
IsQuiet served = Unit
IsQuiet refused = Unit
IsQuiet _ = ⊥

quiet_zero :
    (w : Pc → ℕ) (gs : List Pc)
    → w idle ≡ 0
    → w served ≡ 0
    → w refused ≡ 0
    → All IsQuiet gs
    → All (λ p. w p ≡ 0) gs
quiet_zero w [] a b c h = tt
quiet_zero w (p ∷ gs) a b c h = (one p h.0, quiet_zero w gs a b c h.1)
  where
    one : (p : Pc) → IsQuiet p → w p ≡ 0
    one idle q = a
    one served q = b
    one refused q = c
    one p q = absurd q

-- Nothing leaks: when no request is being handled, `pending` and the gauge are back at 0.
pub quiet_limiter :
    {n limit : ℕ} {s : System}
    → n < 2 ^ 64
    → Reach n limit s
    → All IsQuiet s.goroutines
    → (s.limiter.pending ≡ 0) × (s.limiter.gauge ≡ some 0)
quiet_limiter {s = s} small r q =
    let v = Reach-Inv small r in
    (
      v.counted ∙ sum_by-zero holds s.goroutines (quiet_zero holds s.goroutines refl refl refl q),
      v.gauge_counts
          ∙ ap some
              (sum_by-zero gauged s.goroutines (quiet_zero gauged s.goroutines refl refl refl q)),
    )

-- The next request of an idle goroutine, when its increment comes now, gets to a place behind the test
-- of the limit.
abbrev pub GetsTo : BacklogQLimiter → Pc → Type 0
GetsTo q place =
    (q₁ : BacklogQLimiter) × (q₂ : BacklogQLimiter) × (new_pending : ℕ) × Move q idle q₁
      (added new_pending)
    × Move q₁ (added new_pending) q₂ place

GetsTo-running :
    {q : BacklogQLimiter} → q.limit ≢ no_limit → GetsTo q running ↔ (u64 (q.pending + 1) ≤ q.limit)
GetsTo-running {q = q} h = (passed_test, λ k. (_, _, _, add h, admit k))
  where
    passed_test : GetsTo q running → u64 (q.pending + 1) ≤ q.limit
    passed_test (q₁, q₂, n, add _, admit k) = k

GetsTo-turned_away :
    {q : BacklogQLimiter}
    → q.limit ≢ no_limit
    → GetsTo q turned_away ↔ (q.limit < u64 (q.pending + 1))
GetsTo-turned_away {q = q} h = (failed_test, λ k. (_, _, _, add h, turn_away k))
  where
    failed_test : GetsTo q turned_away → q.limit < u64 (q.pending + 1)
    failed_test (q₁, q₂, n, add _, turn_away k) = k

-- A request whose increment comes now gets into the downstream handler just when fewer increments
-- than the limit stand, and is turned away just when as many as the limit do. There is a limit, and
-- with fewer than 2^64 - 1 goroutines the counter does not wrap.
pub admitted_iff_room :
    {n limit : ℕ} {s : System}
    → n + 1 < 2 ^ 64
    → limit ≢ no_limit
    → Reach n limit s
    → (GetsTo s.limiter running ↔ (sum_by holds s.goroutines < limit))
      × (GetsTo s.limiter turned_away ↔ (limit ≤ sum_by holds s.goroutines))
admitted_iff_room {s = s} small limited r =
    let v = Reach-Inv (omega arith) r in
    let few = sum_by-le-length holds s.goroutines holds-le-one in
    let has_limit : s.limiter.limit ≢ no_limit = λ e. limited (sym v.limit_kept ∙ e) in
    let next : u64 (s.limiter.pending + 1) ≡ sum_by holds s.goroutines + 1 =
      omega (arith, v.counted, v.size, few) in
    let runs = GetsTo-running has_limit in
    let turns = GetsTo-turned_away has_limit in
    (
      (
        λ k. omega (arith, runs.0 k, next, v.limit_kept),
        λ k. runs.1 (omega (arith, next, v.limit_kept)),
      ),
      (
        λ k. omega (arith, turns.0 k, next, v.limit_kept),
        λ k. turns.1 (omega (arith, next, v.limit_kept)),
      ),
    )
