-- ===== src/Network/Backlog/Inv.antt =====
-- What holds of the limiter between any two steps: `pending` and the gauge count the goroutines, and
-- no more are admitted than the limit allows.
use stellar_stellar_rpc.Base.{
  ℕ, zero, suc, ◌+◌, ◌^◌, ◌≤◌, ◌<◌, ◌≡◌, ◌⊎◌, inr, refl, ap, some, List, arith, length, get_elem?,
  set, leb, if◌then◌else◌, length-set,
}
use stellar_stellar_rpc.Base.Weights.{sum_by, sum_by-set, sum_by-le-length, sum_by_mono}
use stellar_stellar_rpc.Network.Backlog.{
  no_limit, BacklogQLimiter, Pc, idle, passing, added, running, left, Move, pass, passed, add,
  turn_away, first_refusal, later_refusal, admit, leave, count_out, reset, next_served,
  next_refused, System, Step, step, make_backlog_q_limiter, replicate, init, Reach, start, later,
}

-- a goroutine whose increment of `pending` stands
abbrev pub holds : Pc → ℕ
holds (added n) = 1
holds running = 1
holds _ = 0

-- one that has passed the test of the limit, or will, and has not left
abbrev pub admitted : ℕ → Pc → ℕ
admitted limit (added n) = if leb n limit then 1 else 0
admitted limit running = 1
admitted limit _ = 0

-- one that the gauge counts
abbrev pub gauged : Pc → ℕ
gauged running = 1
gauged left = 1
gauged _ = 0

-- one in the downstream handler with no limit
abbrev pub unlimited : Pc → ℕ
unlimited passing = 1
unlimited _ = 0

pub record Inv (n limit : ℕ) (s : System) : Type 0 where
  pub size : length s.goroutines ≡ n
  pub limit_kept : s.limiter.limit ≡ limit
  pub counted : s.limiter.pending ≡ sum_by holds s.goroutines
  pub within : sum_by (admitted limit) s.goroutines ≤ limit
  pub none_unlimited : (limit ≡ no_limit) ⊎ (sum_by unlimited s.goroutines ≡ 0)
  pub gauge_counts : s.limiter.gauge ≡ some (sum_by gauged s.goroutines)

-- how the sums change when goroutine `i` goes from `p` to `p'`
record Sums (n limit : ℕ) (gs : List Pc) (i : ℕ) (p p' : Pc) : Type 0 where
  held : sum_by holds (set gs i p') + holds p ≡ sum_by holds gs + holds p'
  let_in :
      sum_by (admitted limit) (set gs i p') + admitted limit p
      ≡ sum_by (admitted limit) gs + admitted limit p'
  in_gauge : sum_by gauged (set gs i p') + gauged p ≡ sum_by gauged gs + gauged p'
  free : sum_by unlimited (set gs i p') + unlimited p ≡ sum_by unlimited gs + unlimited p'
  few : sum_by holds (set gs i p') ≤ n
  few_before : sum_by holds gs ≤ n
  fewer : sum_by (admitted limit) (set gs i p') ≤ sum_by holds (set gs i p')

pub holds-le-one : (p : Pc) → holds p ≤ 1
holds-le-one (added n) = omega arith
holds-le-one p = omega arith

admitted-le-holds : (limit : ℕ) (p : Pc) → admitted limit p ≤ holds p
admitted-le-holds limit (added n) = ground arith
admitted-le-holds limit p = omega arith

sums :
    (n limit : ℕ) (gs : List Pc) (i : ℕ) (p p' : Pc)
    → get_elem? gs i ≡ some p
    → length gs ≡ n
    → Sums n limit gs i p p'
sums n limit gs i p p' here size = record {
  held = sum_by-set holds gs i p p' here;
  let_in = sum_by-set (admitted limit) gs i p p' here;
  in_gauge = sum_by-set gauged gs i p p' here;
  free = sum_by-set unlimited gs i p p' here;
  few = omega (arith, sum_by-le-length holds (set gs i p') holds-le-one, length-set gs i p');
  few_before = omega (arith, sum_by-le-length holds gs holds-le-one);
  fewer = sum_by_mono (admitted limit) holds (set gs i p') (admitted-le-holds limit);
}

module _ {n limit : ℕ} (small : n < 2 ^ 64) where
  Move-Inv :
      {q q' : BacklogQLimiter} {p p' : Pc} (gs : List Pc) (i : ℕ)
      → Move q p q' p'
      → Sums n limit gs i p p'
      → Inv n limit (record { limiter = q; goroutines = gs })
      → Inv n limit (record { limiter = q'; goroutines = set gs i p' })
  Move-Inv {p' = p'} gs i (pass e) f v = ground (arith, length-set gs i p')
  Move-Inv {p' = p'} gs i passed f v = ground (arith, length-set gs i p')
  Move-Inv {p' = p'} gs i (add e) f v = ground (arith, length-set gs i p')
  Move-Inv {p' = p'} gs i (turn_away e) f v = ground (arith, length-set gs i p')
  Move-Inv {p' = p'} gs i (first_refusal e) f v = ground (arith, length-set gs i p')
  Move-Inv {p' = p'} gs i (later_refusal e) f v = ground (arith, length-set gs i p')
  Move-Inv {p' = p'} gs i (admit e) f v = ground (arith, length-set gs i p')
  Move-Inv {p' = p'} gs i leave f v = ground (arith, length-set gs i p')
  Move-Inv {p' = p'} gs i count_out f v = ground (arith, length-set gs i p')
  Move-Inv {p' = p'} gs i reset f v = ground (arith, length-set gs i p')
  Move-Inv {p' = p'} gs i next_served f v = ground (arith, length-set gs i p')
  Move-Inv {p' = p'} gs i next_refused f v = ground (arith, length-set gs i p')

  -- Every step keeps the invariant.
  pub Step-Inv : {s t : System} → Step s t → Inv n limit s → Inv n limit t
  Step-Inv {s} (step i {p} {p'} here mv) v =
      Move-Inv s.goroutines i mv (sums n limit s.goroutines i p p' here v.size) v

length-replicate : (n : ℕ) → length (replicate n) ≡ n
length-replicate zero = refl
length-replicate (suc n) = ap suc (length-replicate n)

sum_by-replicate : (w : Pc → ℕ) (n : ℕ) → w idle ≡ 0 → sum_by w (replicate n) ≡ 0
unfolding sum_by
sum_by-replicate w zero h = refl
sum_by-replicate w (suc n) h = omega (arith, sum_by-replicate w n h)

init-Inv : (n limit : ℕ) → Inv n limit (init n limit)
unfolding make_backlog_q_limiter
init-Inv n limit = record {
  size = length-replicate n;
  limit_kept = refl;
  counted = omega (arith, sum_by-replicate holds n refl);
  within = omega (arith, sum_by-replicate (admitted limit) n refl);
  none_unlimited = inr (sum_by-replicate unlimited n refl);
  gauge_counts = ap some (sum_by_zero n);
}
  where
    sum_by_zero : (n : ℕ) → ◌≡◌ {A = ℕ} 0 (sum_by gauged (replicate n))
    sum_by_zero n = omega (arith, sum_by-replicate gauged n refl)

pub Reach-Inv : {n limit : ℕ} {s : System} → n < 2 ^ 64 → Reach n limit s → Inv n limit s
Reach-Inv {n} {limit} small start = init-Inv n limit
Reach-Inv small (later r st) = Step-Inv small st (Reach-Inv small r)
