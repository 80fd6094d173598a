-- ===== src/Network/Duration/Response.antt =====
-- The HTTP response is all of the handler's or none of it.
use stellar_stellar_rpc.Base.{
  ℕ, ◌+◌, ◌≤◌, ◌≡◌, refl, sym, ap, ◌∙◌, List, [], ◌∷◌, ◌++◌, Bool, true, false, if◌then◌else◌, ◌==◌,
  arith, length,
}
use mathlib.Core.List.{append_assoc, append-nil}
use mathlib.Core.Path.{subst}
use stellar_stellar_rpc.Base.Decimal.{Bytes}
use stellar_stellar_rpc.Network.Duration.{
  RequestDurationLimiter, Job, working, ended, Verdict, timed_out, completed, answered, Serving,
  begin, Move, tick, warning_fires, limit_fires, work, finish, leave, take_warning, take_limit,
  take_completed, Run, start, step,
}
use stellar_stellar_rpc.Network.Duration.Http.{
  Header, BufferedResponseWriter, Call, set_header, write_header, write, Output, replace_header,
  send_header, send, make_buffered_response_writer, put, apply, status_output, write_out, Completed,
  Works, calls, Ends, returns, panics, output,
}
use stellar_stellar_rpc.Network.Duration.Bounds.{IsJustified, answer-IsJustified}
use stellar_stellar_rpc.Network.Duration.Gone.{FoundGone, Run-FoundGone}

-- what a list of calls writes, the status it sets last, 0 if none, and the map it leaves
abbrev pub written : List Call → Bytes
written [] = []
written (set_header key v ∷ cs) = written cs
written (write_header n ∷ cs) = written cs
written (write b ∷ cs) = b ++ written cs

abbrev pub last_status : ℕ → List Call → ℕ
last_status n [] = n
last_status n (set_header key v ∷ cs) = last_status n cs
last_status n (write_header m ∷ cs) = last_status m cs
last_status n (write b ∷ cs) = last_status n cs

abbrev pub headers : Header → List Call → Header
headers h [] = h
headers h (set_header key v ∷ cs) = headers (put h key v) cs
headers h (write_header n ∷ cs) = headers h cs
headers h (write b ∷ cs) = headers h cs

-- a body is sent with one call, an empty one with none
abbrev sent_body : Bytes → List Output
sent_body [] = []
sent_body (b ∷ bs) = send (b ∷ bs) ∷ []

abbrev after : BufferedResponseWriter → List Call → BufferedResponseWriter
after w cs = record {
  header = headers w.header cs;
  buffer = w.buffer ++ written cs;
  status_code = last_status w.status_code cs;
}

-- A response, by the verdict of the loop: nothing or a timeout, behind the limit; an error, after a
-- panic; or all that the handler called until it returned, with the last status. Nothing instead of a
-- timeout, and no body, only for a client that is gone.
pub data IsResponse (q : RequestDurationLimiter) (h : Header)
    (s : Serving BufferedResponseWriter Completed) : Verdict Completed → List Output → Type 0 where
  abandoned :
      q.limit_threshold ≤ s.clock → s.client_gone ≡ true → IsResponse q h s (timed_out true) []
  gateway_timeout :
      q.limit_threshold ≤ s.clock → IsResponse q h s (timed_out false) (send_header 504 ∷ [])
  internal_error :
      {gone : Bool} {line : Bytes} {lines : List Bytes} {d : Completed}
      → s.job ≡ ended d
      → d.err_strings ≡ line ∷ lines
      → IsResponse q h s (completed gone d) (send_header 500 ∷ [])
  of_handler :
      (cs : List Call) {d : Completed}
      → s.job ≡ ended d
      → d.err_strings ≡ []
      → d.writer ≡ after (make_buffered_response_writer h) cs
      → IsResponse q h s (completed false d) (
          replace_header (headers h cs)
          ∷ (status_output (last_status 0 cs) ++ sent_body (written cs)))
  headers_only :
      (cs : List Call) {d : Completed}
      → s.job ≡ ended d
      → d.err_strings ≡ []
      → d.writer ≡ after (make_buffered_response_writer h) cs
      → s.client_gone ≡ true
      → IsResponse q h s
          (completed true d)
          (replace_header (headers h cs) ∷ status_output (last_status 0 cs))

after_nil : (w : BufferedResponseWriter) → after w [] ≡ w
after_nil w = ap (λ b. record w { buffer = b }) (append-nil w.buffer)

after-cons :
    (w : BufferedResponseWriter) (c : Call) (cs : List Call)
    → after (apply w c) cs ≡ after w (c ∷ cs)
unfolding apply
after-cons w (set_header key v) cs = refl
after-cons w (write_header n) cs = refl
after-cons w (write b) cs =
    ap (λ x. record (after w (write b ∷ cs)) { buffer = x }) (append_assoc w.buffer b (written cs))

apply-after :
    (w : BufferedResponseWriter) (cs : List Call) (c : Call)
    → apply (after w cs) c ≡ after w (cs ++ (c ∷ []))
apply-after w [] c =
    ap (λ x. apply x c) (after_nil w) ∙ sym (after_nil (apply w c)) ∙ after-cons w c []
apply-after w (d ∷ cs) c =
    ap (λ x. apply x c) (sym (after-cons w d cs))
    ∙ apply-after (apply w d) cs c
    ∙ after-cons w d (cs ++ (c ∷ []))

abbrev WriterOf : Header → Job BufferedResponseWriter Completed → Type 0
WriterOf h (working w) = (cs : List Call) × (w ≡ after (make_buffered_response_writer h) cs)
WriterOf h (ended d) = (cs : List Call) × (d.writer ≡ after (make_buffered_response_writer h) cs)

module _ (h : Header) where
  Works-WriterOf :
      {w w' : BufferedResponseWriter}
      → Works w w'
      → WriterOf h (working w)
      → WriterOf h (working w')
  Works-WriterOf (calls c) (cs, e) = (cs ++ (c ∷ []), ap (λ x. apply x c) e ∙ apply-after _ cs c)

  Ends-WriterOf :
      {w : BufferedResponseWriter} {d : Completed}
      → Ends w d
      → WriterOf h (working w)
      → WriterOf h (ended d)
  Ends-WriterOf returns o = o
  Ends-WriterOf (panics l n st) o = o

  Move-WriterOf :
      {q : RequestDurationLimiter} {b : Bool} {s t : Serving BufferedResponseWriter Completed}
      → Move Works Ends q s b t
      → WriterOf h s.job
      → WriterOf h t.job
  Move-WriterOf tick o = o
  Move-WriterOf (warning_fires e k) o = o
  Move-WriterOf (limit_fires e k) o = o
  Move-WriterOf (work e k) o = Works-WriterOf k (subst (WriterOf h) e o)
  Move-WriterOf (finish e k) o = Ends-WriterOf k (subst (WriterOf h) e o)
  Move-WriterOf leave o = o
  Move-WriterOf (take_warning e k) o = o
  Move-WriterOf (take_limit e k) o = o
  Move-WriterOf (take_completed e k) o = o

  Run-WriterOf :
      {q : RequestDurationLimiter} {n : ℕ} {s : Serving BufferedResponseWriter Completed}
      → Run Works Ends q (begin q (make_buffered_response_writer h)) n s
      → WriterOf h s.job
  unfolding begin make_buffered_response_writer
  Run-WriterOf start = ([], refl)
  Run-WriterOf (step r m) = Move-WriterOf m (Run-WriterOf r)

  write_out-live :
      (cs : List Call)
      → write_out false (after (make_buffered_response_writer h) cs)
        ≡ replace_header (headers h cs)
          ∷ (status_output (last_status 0 cs) ++ sent_body (written cs))
  unfolding write_out make_buffered_response_writer
  write_out-live cs = by_body (written cs)
    where
      by_body :
          (bs : Bytes)
          → (if length bs == 0
              then replace_header (headers h cs) ∷ status_output (last_status 0 cs)
              else replace_header (headers h cs)
                ∷ (status_output (last_status 0 cs) ++ (send bs ∷ [])))
            ≡ replace_header (headers h cs) ∷ (status_output (last_status 0 cs) ++ sent_body bs)
      by_body [] =
          ap (replace_header (headers h cs) ∷◌)
            (sym (append-nil (status_output (last_status 0 cs))))
      by_body (b ∷ bs) = ground arith

  write_out-gone :
      (cs : List Call)
      → write_out true (after (make_buffered_response_writer h) cs)
        ≡ replace_header (headers h cs) ∷ status_output (last_status 0 cs)
  unfolding write_out make_buffered_response_writer
  write_out-gone cs = by_body (written cs)
    where
      by_body :
          (bs : Bytes)
          → (if length bs == 0
              then replace_header (headers h cs) ∷ status_output (last_status 0 cs)
              else replace_header (headers h cs) ∷ (status_output (last_status 0 cs) ++ []))
            ≡ replace_header (headers h cs) ∷ status_output (last_status 0 cs)
      by_body [] = refl
      by_body (b ∷ bs) = ground (arith, append-nil (status_output (last_status 0 cs)))

  answer-IsResponse :
      {q : RequestDurationLimiter} {s : Serving BufferedResponseWriter Completed}
      (v : Verdict Completed)
      → IsJustified q s (answered v)
      → WriterOf h s.job
      → FoundGone s.client_gone (answered v)
      → IsResponse q h s v (output v)
  unfolding output
  answer-IsResponse (timed_out true) (p, l, c, w) o g = abandoned l g
  answer-IsResponse (timed_out false) (p, l, c, w) o g = gateway_timeout l
  answer-IsResponse {q = q} {s = s} (completed gone d) (e, c, w) o g =
      let (cs, made) = subst (WriterOf h) e o in by_lines d.err_strings gone cs made refl g
    where
      by_lines :
          (ls : List Bytes) (gone : Bool) (cs : List Call)
          → d.writer ≡ after (make_buffered_response_writer h) cs
          → d.err_strings ≡ ls
          → FoundGone s.client_gone (answered (completed gone d))
          → IsResponse q h s
              (completed gone d)
              (if length ls == 0 then write_out gone d.writer else send_header 500 ∷ [])
      by_lines [] false cs m l g =
          subst (IsResponse q h s (completed false d))
            (sym (ap (write_out false) m ∙ write_out-live cs)) (of_handler cs e l m)
      by_lines [] true cs m l g =
          subst (IsResponse q h s (completed true d))
            (sym (ap (write_out true) m ∙ write_out-gone cs)) (headers_only cs e l m g)
      by_lines (x ∷ ls) gone cs m l g =
          subst (IsResponse q h s (completed gone d)) (ground arith) (internal_error e l)

-- how many statuses are sent
abbrev pub statuses : List Output → ℕ
statuses [] = 0
statuses (replace_header h ∷ os) = statuses os
statuses (send_header n ∷ os) = statuses os + 1
statuses (send b ∷ os) = statuses os

IsResponse-statuses :
    {q : RequestDurationLimiter} {h : Header} {s : Serving BufferedResponseWriter Completed}
    {v : Verdict Completed} {os : List Output}
    → IsResponse q h s v os
    → statuses os ≤ 1
IsResponse-statuses (abandoned l g) = omega arith
IsResponse-statuses (gateway_timeout l) = omega arith
IsResponse-statuses (internal_error e l) = omega arith
IsResponse-statuses (of_handler cs e l m) = by_status (last_status 0 cs) (written cs)
  where
    by_status : (n : ℕ) (bs : Bytes) → statuses (status_output n ++ sent_body bs) ≤ 1
    by_status n [] = ground arith
    by_status n (b ∷ bs) = ground arith
IsResponse-statuses (headers_only cs e l m g) = by_status (last_status 0 cs)
  where
    by_status : (n : ℕ) → statuses (status_output n) ≤ 1
    by_status n = ground arith

-- When the select loop of ServeHTTP has answered with a verdict, the calls on the server's writer are
-- the response for it: behind the limit a timeout, or nothing if the client is gone; after a panic
-- an error; and otherwise the headers, the last status and the whole body of all that the handler has
-- called until it returned, the body left out only if the client is gone. There is at most one
-- status.
pub output-IsResponse :
    (q : RequestDurationLimiter) (h : Header) {n : ℕ} {s : Serving BufferedResponseWriter Completed}
    {v : Verdict Completed}
    → Run Works Ends q (begin q (make_buffered_response_writer h)) n s
    → s.loop ≡ answered v
    → IsResponse q h s v (output v) × (statuses (output v) ≤ 1)
output-IsResponse q h {s = s} {v = v} r e =
    let a =
      answer-IsResponse h v (subst (IsJustified q s) e (answer-IsJustified _ r).1)
        (Run-WriterOf h r) (subst (FoundGone s.client_gone) e (Run-FoundGone _ r)) in
    (a, IsResponse-statuses a)
