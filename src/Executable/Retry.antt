-- ===== src/Executable/Retry.antt =====
-- Executable.js (`_shouldRetryExceptionally`, `delayForAttempt`) and grpc/GrpcStatus.js under src/.
use native.Mathlib.Nat.{pow-succ'}
use hedera_sdk_js.Common.{
  ℕ, ◌*◌, ◌^◌, ◌≤◌, ◌≡◌, min, Bool, true, false, ◌&&◌, ◌||◌, ◌==◌, leb, if◌then◌else◌, arith, suc,
  Option, none, some,
}

pub data ExecutionState : Type 0 where
  finished retry error : ExecutionState

-- What `_execute` is rejected with. A gRPC error has its code, and whether its message speaks of a
-- reset stream; `other` is any other error, the exceeded gRPC deadline among them.
pub data Rejection : Type 0 where
  grpc : ℕ → Bool → Rejection
  http : Rejection
  other : Rejection

abbrev pub code_resource_exhausted : ℕ
code_resource_exhausted = 8

abbrev pub code_internal : ℕ
code_internal = 13

abbrev pub code_unavailable : ℕ
code_unavailable = 14

abbrev pub code_timeout : ℕ
code_timeout = 17

abbrev pub code_grpc_web : ℕ
code_grpc_web = 18

-- `GrpcStatus._fromValue` has a status for the codes 0 to 18, and throws for any other.
unfoldable pub grpc_status_from_value : ℕ → Option ℕ
grpc_status_from_value code = if leb code 18 then some code else none

-- `error instanceof GrpcServiceError || error instanceof HttpError`, and `_shouldRetryExceptionally`.
unfoldable pub should_retry_exceptionally : Rejection → Bool
should_retry_exceptionally (grpc code rst_stream) =
    code == code_timeout
    || code == code_unavailable
    || code == code_resource_exhausted
    || code == code_grpc_web
    || (code == code_internal && rst_stream)
should_retry_exceptionally http = true
should_retry_exceptionally other = false

-- The wait before the next attempt, in milliseconds; backoffs are whole numbers.
unfoldable pub delay_for_attempt : Bool → ℕ → ℕ → ℕ → ℕ
delay_for_attempt is_local_node attempt min_backoff max_backoff =
    if is_local_node then min_backoff else min (min_backoff * 2 ^ attempt) max_backoff

-- Where the minimal backoff is at most the maximal one, the wait after an attempt never exceeds the
-- maximal one, and never shrinks from one attempt to the next.
pub delay_for_attempt_bounds :
    (attempt min_backoff max_backoff : ℕ)
    → min_backoff ≤ max_backoff
    → (delay_for_attempt false attempt min_backoff max_backoff ≤ max_backoff)
      × (delay_for_attempt false attempt min_backoff max_backoff
          ≤ delay_for_attempt false (suc attempt) min_backoff max_backoff)
unfolding delay_for_attempt
delay_for_attempt_bounds attempt min_backoff max_backoff h =
    omega (arith, pow-succ' 2 attempt, doubled)
  where
    doubled : min_backoff * 2 ^ suc attempt ≡ 2 * (min_backoff * 2 ^ attempt)
    doubled = rw (pow-succ' 2 attempt) (omega arith)
