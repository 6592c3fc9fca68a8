-- ===== src/Executable.antt =====
-- Executable.js and grpc/GrpcStatus.js under src/: the retry loop of every request.
-- What the outside decides in one attempt is a `Moment`: the clock where it is read, the random
-- numbers, and the reply. `_mapResponse` and `_mapStatusError` are represented by what they are
-- called with, `_shouldRetry` is a parameter, logging is left out. A status is its code.
pub mod Retry
pub mod Loop
pub mod Costs
pub mod Outcomes
use hedera_sdk_js.Common.{
  ℕ, zero, suc, ◌+◌, ◌-◌, ◌*◌, ◌^◌, min, Bool, true, false, not, ◌&&◌, ◌||◌, String, List, [], ◌∷◌,
  ◌++◌, Option, none, some, length, if◌then◌else◌, ◌==◌, leb, str_eq,
}
use hedera_sdk_js.LockableList.{LockableList}
use hedera_sdk_js.LockableList
use hedera_sdk_js.Network.{Network}
use Retry.{Rejection, ExecutionState}

-- The part of a request that `execute` works with, and the settings fixed at its start.
pub record Request : Type 0 where
  pub node_account_ids : LockableList String
  pub transaction_node_ids : List String
  pub max_attempts : ℕ
  pub min_backoff : Option ℕ
  pub max_backoff : Option ℕ
  pub request_timeout : Option ℕ

pub record Client : Type 0 where
  pub network : Network
  pub max_attempts : Option ℕ
  pub min_backoff : ℕ
  pub max_backoff : ℕ
  pub request_timeout : Option ℕ

pub data BackoffError : Type 0 where
  min_backoff_null min_backoff_too_large max_backoff_null max_backoff_too_small : BackoffError

pub record Settings : Type 0 where
  pub is_local_node : Bool
  pub start_time : ℕ
  pub timeout : Option ℕ
  pub attempts : ℕ
  pub min_backoff : ℕ
  pub max_backoff : ℕ
  pub transaction_node_ids : List String

pub data Reply (R : Type 0) : Type 0 where
  responded : R → Reply R
  rejected : Rejection → Reply R

pub record Moment (R : Type 0) : Type 0 where
  pub checked : ℕ
  pub picked : ℕ
  pub tested : ℕ
  pub failed : ℕ
  pub draws : ℕ → ℕ
  pub reply : Reply R

-- `persistentError`: the last rejection or status.
pub data Persistent : Type 0 where
  rejection : Rejection → Persistent
  status : ℕ → Persistent

pub data Event : Type 0 where
  sent : ℕ → Event
  waited : ℕ → Event

pub record Run : Type 0 where
  pub node_ids : LockableList String
  pub network : Network
  pub persistent : Option Persistent
  pub events : List Event

pub data Result (R : Type 0) : Type 0 where
  finished : R → Option String → Result R
  status_error : R → Option String → Result R
  thrown : Rejection → Result R
  timeout_exceeded : Option String → Result R
  max_attempts_reached : Option Persistent → Option String → Result R
  all_nodes_unhealthy : Result R
  node_not_recognized : Result R
  no_valid_nodes : Result R
  no_healthy_nodes : Result R
  list_locked : Result R
  unknown_grpc_status : Result R
  type_error : Result R

-- What one attempt comes to.
pub data Step (R : Type 0) : Type 0 where
  again : Run → Step R
  stop : Run → Result R → Step R

-- `setMinBackoff` and `setMaxBackoff` of a request; `none` is `null`.
unfoldable pub set_min_backoff : Request → Option ℕ → Option Request
set_min_backoff q none = none
set_min_backoff q (some b) = elim q.max_backoff [
  | none ↦ some (record q { min_backoff = some b })
  | some most ↦ if leb b most then some (record q { min_backoff = some b }) else none
]

unfoldable pub set_max_backoff : Request → Option ℕ → Option Request
set_max_backoff q none = none
set_max_backoff q (some b) = elim q.min_backoff [
  | none ↦ some (record q { max_backoff = some b })
  | some least ↦ if leb least b then some (record q { max_backoff = some b }) else none
]
