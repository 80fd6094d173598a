-- ===== src/Network/Duration/Tests.antt =====
-- A request that is warned of and answered, one that is timed out, and one over JSON-RPC that panics.
use stellar_stellar_rpc.Base.{ℕ, ◌≤◌, ◌≡◌, refl, Option, none, [], ◌∷◌, true, false, arith}
use stellar_stellar_rpc.Network.Duration.{
  RequestDurationLimiter, armed, drained, working, ended, timed_out, completed, waiting, answered,
  Serving, begin, tick, warning_fires, work, finish, take_warning, take_completed, Run, start, step,
}
use stellar_stellar_rpc.Network.Duration.Http.{
  Header, BufferedResponseWriter, write, make_buffered_response_writer, apply, Completed, Works,
  calls, Ends, returns, output,
}
use stellar_stellar_rpc.Network.Duration.Rpc
use stellar_stellar_rpc.Network.Duration.Bounds.{IsJustified, answer-IsJustified}
use stellar_stellar_rpc.Network.Duration.Progress.{Stuck, times_out}
use stellar_stellar_rpc.Network.Duration.Response.{IsResponse, statuses, output-IsResponse}
use stellar_stellar_rpc.Network.Duration.Result.{IsResult, result-IsResult}

abbrev limiter : RequestDurationLimiter
limiter = record { warning_threshold = 1; limit_threshold = 2 }

abbrev header : Header
header k = []

abbrev empty : BufferedResponseWriter
empty = record { header = header; buffer = []; status_code = 0 }

abbrev greeting : BufferedResponseWriter
greeting = record { header = header; buffer = 104 ∷ 105 ∷ []; status_code = 0 }

abbrev warned : Serving BufferedResponseWriter Completed
warned = record {
  clock = 1;
  warning_ch = drained;
  limit_ch = armed;
  job = working greeting;
  client_gone = false;
  loop = waiting true;
  warnings = 0;
  limits = 0;
}

abbrev done : Serving BufferedResponseWriter Completed
done = record warned {
  job = ended (record { writer = greeting; err_strings = [] });
  loop = answered (completed false (record { writer = greeting; err_strings = [] }));
  warnings = 1;
}

warned-Run : Run Works Ends limiter (begin limiter (make_buffered_response_writer header)) 1 warned
unfolding begin make_buffered_response_writer apply
warned-Run =
    step
      (step (step (step start tick) (work refl (calls (write (104 ∷ 105 ∷ [])))))
        (warning_fires refl (omega arith)))
      (take_warning refl refl)

done-Run : Run Works Ends limiter (begin limiter (make_buffered_response_writer header)) 2 done
done-Run = step (step warned-Run (finish refl returns)) (take_completed refl refl)

answer-IsJustified_example : (2 ≤ 2) × IsJustified limiter done done.loop
answer-IsJustified_example = answer-IsJustified (make_buffered_response_writer header) done-Run

later-Run : Run Works Ends limiter done 0 (record done { clock = 2 })
later-Run = step start tick

times_out_example :
    (t : Serving BufferedResponseWriter Completed) × Run Stuck Stuck limiter warned 1 t
    × (t.loop ≡ answered (timed_out false))
times_out_example =
    times_out limiter (make_buffered_response_writer header) (omega arith) warned-Run refl

output-IsResponse_example :
    IsResponse limiter header done
      (completed false (record { writer = greeting; err_strings = [] }))
      (output (completed false (record { writer = greeting; err_strings = [] })))
    × (statuses (output (completed false (record { writer = greeting; err_strings = [] }))) ≤ 1)
output-IsResponse_example = output-IsResponse limiter header done-Run refl

abbrev panicked : Serving (Unit {0}) (Option (Rpc.RequestResultOutput ℕ ℕ))
panicked = record {
  clock = 0;
  warning_ch = armed;
  limit_ch = armed;
  job = ended none;
  client_gone = false;
  loop = answered (completed false none);
  warnings = 0;
  limits = 0;
}

panicked-Run : Run Stuck Rpc.Ends limiter (begin limiter tt) 1 panicked
unfolding begin
panicked-Run = step (step start (finish refl Rpc.panics)) (take_completed refl refl)

result-IsResult_example : IsResult limiter 0 panicked (Rpc.result 0 (completed false none))
result-IsResult_example = result-IsResult limiter 0 panicked-Run refl
