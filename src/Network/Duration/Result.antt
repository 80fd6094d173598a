-- ===== src/Network/Duration/Result.antt =====
-- What `Handle` returns is justified by the time or by the handler.
use stellar_stellar_rpc.Base.{ℕ, ◌≤◌, ◌<◌, ◌≡◌, Option, none, some, true, false}
use mathlib.Core.Path.{subst}
use stellar_stellar_rpc.Network.Duration.{
  RequestDurationLimiter, ended, Verdict, timed_out, completed, answered, Serving, begin, Run,
}
use stellar_stellar_rpc.Network.Duration.Rpc.{
  exceeded_limit, internal_issue, context_done, RequestResultOutput, Ends, result,
}
use stellar_stellar_rpc.Network.Duration.Bounds.{IsJustified, answer-IsJustified}
use stellar_stellar_rpc.Network.Duration.Progress.{Stuck}

-- The result of the handler after it returned, or no data with an error: the limit's or the context's
-- behind a positive limit, the internal one after a panic.
pub data IsResult {A E : Type 0} (q : RequestDurationLimiter) (nil : A)
    (s : Serving (Unit {0}) (Option (RequestResultOutput A E)))
    : RequestResultOutput A E → Type 0 where
  of_handler : (r : RequestResultOutput A E) → s.job ≡ ended (some r) → IsResult q nil s r
  panicked :
      s.job ≡ ended none
      → IsResult q nil s (record { result_data = nil; error = some internal_issue })
  limited :
      0 < q.limit_threshold
      → q.limit_threshold ≤ s.clock
      → IsResult q nil s (record { result_data = nil; error = some exceeded_limit })
  cancelled :
      0 < q.limit_threshold
      → q.limit_threshold ≤ s.clock
      → IsResult q nil s (record { result_data = nil; error = some context_done })

module _ {A E : Type 0} (q : RequestDurationLimiter) (nil : A) where
  verdict-IsResult :
      {s : Serving (Unit {0}) (Option (RequestResultOutput A E))}
      (v : Verdict (Option (RequestResultOutput A E)))
      → IsJustified q s (answered v)
      → IsResult q nil s (result nil v)
  unfolding result
  verdict-IsResult (timed_out true) (p, l, c, w) = cancelled p l
  verdict-IsResult (timed_out false) (p, l, c, w) = limited p l
  verdict-IsResult (completed gone (some r)) (e, c, w) = of_handler r e
  verdict-IsResult (completed gone none) (e, c, w) = panicked e

  -- When the select loop of Handle has answered, it returns what the handler has returned, the error
  -- for an internal issue if the handler has panicked, or, behind a positive limit, an error with no
  -- data.
  pub result-IsResult :
      {n : ℕ} {s : Serving (Unit {0}) (Option (RequestResultOutput A E))}
      {v : Verdict (Option (RequestResultOutput A E))}
      → Run Stuck Ends q (begin q tt) n s
      → s.loop ≡ answered v
      → IsResult q nil s (result nil v)
  result-IsResult {s = s} {v = v} r e =
      verdict-IsResult v (subst (IsJustified q s) e (answer-IsJustified tt r).1)
