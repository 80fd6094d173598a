-- ===== src/Network/Duration/Http.antt =====
-- cmd/stellar-rpc/internal/network/requestdurationlimiter.go, the HTTP variant: `bufferedResponseWriter`
-- and what `ServeHTTP` does to the response writer. The response writer of net/http is its sequence of
-- calls; a header map is a function from a key to its values.
use stellar_stellar_rpc.Base.{
  ℕ, zero, suc, List, [], ◌∷◌, ◌++◌, Bool, true, false, not, if◌then◌else◌, ◌==◌, length,
}
use stellar_stellar_rpc.Base.Decimal.{Bytes, bytes_eq}
use stellar_stellar_rpc.Network.Duration.{Verdict, timed_out, completed}

abbrev pub Header : Type 0
Header = Bytes → List Bytes

pub record BufferedResponseWriter : Type 0 where
  pub header : Header
  pub buffer : Bytes
  pub status_code : ℕ

-- a call of a handler on its response writer
pub data Call : Type 0 where
  set_header : (key : Bytes) → List Bytes → Call
  write_header : (status_code : ℕ) → Call
  write : Bytes → Call

-- a call on the writer of the server; the first one empties the map and fills it
pub data Output : Type 0 where
  replace_header : Header → Output
  send_header : (status_code : ℕ) → Output
  send : Bytes → Output

unfoldable pub make_buffered_response_writer : Header → BufferedResponseWriter
make_buffered_response_writer header = record { header = header; buffer = []; status_code = 0 }

abbrev pub put : Header → Bytes → List Bytes → Header
put h key v k = if bytes_eq key k then v else h k

-- `Header`, `WriteHeader` and `Write`
unfoldable pub apply : BufferedResponseWriter → Call → BufferedResponseWriter
apply w (set_header key v) = record w { header = put w.header key v }
apply w (write_header status_code) = record w { status_code = status_code }
apply w (write buf) = record w { buffer = w.buffer ++ buf }

abbrev pub status_output : ℕ → List Output
status_output n = if not (n == 0) then send_header n ∷ [] else []

-- `WriteOut`; the flag tells whether the context is done
unfoldable pub write_out : Bool → BufferedResponseWriter → List Output
write_out gone w =
    if length w.buffer == 0
    then replace_header w.header ∷ status_output w.status_code
    else replace_header w.header
      ∷ (status_output w.status_code ++ (if not gone then send w.buffer ∷ [] else []))

-- The lines that a panic gives: the first one, and those of the stack behind the ones that are
-- skipped, up to the first one that names the method.
abbrev take_until : (Bytes → Bool) → List Bytes → List Bytes
take_until names [] = []
take_until names (l ∷ ls) = let rest = take_until names ls in l ∷ (if names l then [] else rest)

unfoldable pub drop_lines : ℕ → List Bytes → List Bytes
drop_lines zero ls = ls
drop_lines (suc n) [] = []
drop_lines (suc n) (l ∷ ls) = drop_lines n ls

-- `CallStack`
unfoldable pub call_stack :
    (first_line : Bytes) → (names : Bytes → Bool) → (unwind : ℕ) → List Bytes → List Bytes
unfolding drop_lines
call_stack first_line names unwind stack = first_line ∷ take_until names (drop_lines unwind stack)

-- What the goroutine's channel gives: the buffer, and the lines of a panic or none.
pub record Completed : Type 0 where
  pub writer : BufferedResponseWriter
  pub err_strings : List Bytes

pub data Works (w : BufferedResponseWriter) : BufferedResponseWriter → Type 0 where
  calls : (c : Call) → Works w (apply w c)

pub data Ends (w : BufferedResponseWriter) : Completed → Type 0 where
  returns : Ends w (record { writer = w; err_strings = [] })
  panics :
      (first_line : Bytes) (names : Bytes → Bool) (stack : List Bytes)
      → Ends w (record { writer = w; err_strings = call_stack first_line names 8 stack })

-- The calls on the server's writer when the select loop ends
unfoldable pub output : Verdict Completed → List Output
unfolding write_out
output (timed_out true) = []
output (timed_out false) = send_header 504 ∷ []
output (completed gone d) =
    if length d.err_strings == 0 then write_out gone d.writer else send_header 500 ∷ []
