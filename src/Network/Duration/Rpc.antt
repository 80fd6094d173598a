-- ===== src/Network/Duration/Rpc.antt =====
-- cmd/stellar-rpc/internal/network/requestdurationlimiter.go, the JSON-RPC variant: what `Handle`
-- returns. `A` is the type of the results and `E` that of the handler's errors.
use stellar_stellar_rpc.Base.{Option, none, some, true, false}
use stellar_stellar_rpc.Network.Duration.{Verdict, timed_out, completed}

pub data RpcError (E : Type 0) : Type 0 where
  exceeded_limit : RpcError E  -- ErrRequestExceededProcessingLimitThreshold
  internal_issue : RpcError E  -- ErrFailToProcessDueToInternalIssue
  context_done : RpcError E  -- the error of the context
  of_handler : E → RpcError E

-- the data and the error of the handler, both of which are passed on
pub record RequestResultOutput (A E : Type 0) : Type 0 where
  pub result_data : A
  pub error : Option (RpcError E)

-- The handler works on nothing of the limiter's; after a panic its channel is closed with no result.
pub data Ends {A E : Type 0} : Unit {0} → Option (RequestResultOutput A E) → Type 0 where
  returns : (r : RequestResultOutput A E) → Ends tt (some r)
  panics : Ends tt none

unfoldable pub result :
    {A E : Type 0}
    → (nil : A) → Verdict (Option (RequestResultOutput A E))
    → RequestResultOutput A E
result nil (timed_out true) = record { result_data = nil; error = some context_done }
result nil (timed_out false) = record { result_data = nil; error = some exceeded_limit }
result nil (completed gone (some r)) = r
result nil (completed gone none) = record { result_data = nil; error = some internal_issue }
