-- ===== src/Network/Duration/Gone.antt =====
-- When the select loop finds that the client is gone.
use stellar_stellar_rpc.Base.{ℕ, ◌≡◌, refl, Bool, true, false}
use stellar_stellar_rpc.Network.Duration.{
  RequestDurationLimiter, Loop, waiting, timed_out, completed, answered, Serving, begin, tick,
  warning_fires, limit_fires, work, finish, leave, take_warning, take_limit, take_completed, Run,
  start, step,
}
use stellar_stellar_rpc.Network.Duration.Http.{BufferedResponseWriter, Completed, Works, Ends}

-- A flag of the verdict that tells that the client is gone is true of it.
abbrev pub FoundGone : Bool → Loop Completed → Type 0
FoundGone client_gone (answered (timed_out true)) = client_gone ≡ true
FoundGone client_gone (answered (completed true d)) = client_gone ≡ true
FoundGone client_gone _ = Unit

left : (b : Bool) (l : Loop Completed) → FoundGone b l → FoundGone true l
left b (waiting warn) g = tt
left b (answered (timed_out true)) g = refl
left b (answered (timed_out false)) g = tt
left b (answered (completed true d)) g = refl
left b (answered (completed false d)) g = tt

found_by_limit : (b : Bool) → FoundGone b (answered (timed_out b))
found_by_limit true = refl
found_by_limit false = tt

found_completed : (b : Bool) (d : Completed) → FoundGone b (answered (completed b d))
found_completed true d = refl
found_completed false d = tt

pub Run-FoundGone :
    {q : RequestDurationLimiter} (w : BufferedResponseWriter) {n : ℕ}
    {s : Serving BufferedResponseWriter Completed}
    → Run Works Ends q (begin q w) n s
    → FoundGone s.client_gone s.loop
unfolding begin
Run-FoundGone w start = tt
Run-FoundGone w (step r tick) = Run-FoundGone w r
Run-FoundGone w (step r (warning_fires e k)) = Run-FoundGone w r
Run-FoundGone w (step r (limit_fires e k)) = Run-FoundGone w r
Run-FoundGone w (step r (work e k)) = Run-FoundGone w r
Run-FoundGone w (step r (finish e k)) = Run-FoundGone w r
Run-FoundGone w (step r leave) = left _ _ (Run-FoundGone w r)
Run-FoundGone w (step r (take_warning e k)) = tt
Run-FoundGone w (step r (take_limit e k)) = found_by_limit _
Run-FoundGone w (step r (take_completed {d = d} e k)) = found_completed _ d
