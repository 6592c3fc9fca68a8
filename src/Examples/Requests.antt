-- ===== src/Examples/Requests.antt =====
-- Executable.js and the rules of `_shouldRetry` under src/ at concrete inputs.
use hedera_sdk_js.Common.{
  ℕ, ◌≡◌, ◌≢◌, ◌≤◌, ◌⊎◌, inl, inr, refl, ◌*◌, ◌+◌, String, Bool, true, false, List, [], ◌∷◌, Option,
  none, some, arith, length, if◌then◌else◌, ◌==◌,
}
use hedera_sdk_js.Common.Outcome.{returns}
use hedera_sdk_js.LockableList.{LockableList, current, get}
use hedera_sdk_js.LockableList
use hedera_sdk_js.Node.{ms}
use hedera_sdk_js.Chunks.{TransactionId}
use hedera_sdk_js.Executable.{
  Request, Client, Moment, responded, rejected, Run, Result, finished, Reply,
}
use hedera_sdk_js.Executable.Retry.{
  ExecutionState, retry, http, delay_for_attempt, delay_for_attempt_bounds,
}
use hedera_sdk_js.Executable.Retry
use hedera_sdk_js.Executable.Loop.{execute, settings}
use hedera_sdk_js.Executable.Costs.{execute_cost, sends, total_wait}
use hedera_sdk_js.Executable.Outcomes.{execute-Explained, Explained}
use hedera_sdk_js.Statuses.{
  transaction_state, query_state, receipt_state, record_state, receipt_should_retry,
  transaction_expired, success, fee_schedule_file_part_uploaded, Ids,
}
use hedera_sdk_js.Statuses.Laws.{transaction_state-query_state, expired_lem, waiting}
use hedera_sdk_js.Statuses.Receipts.{
  Answer, execute-receipt, unvalidated_lem, receipt_state-record_state,
}
use hedera_sdk_js.Examples.{two_nodes}

-- A receipt query for node 0.0.3.
abbrev request : Request
request = record {
  node_account_ids = record { list = some "0.0.3" ∷ []; locked = false; index = some 0 };
  transaction_node_ids = [];
  max_attempts = 10;
  min_backoff = none;
  max_backoff = none;
  request_timeout = none;
}

abbrev client : Client
client = record {
  network = two_nodes;
  max_attempts = none;
  min_backoff = 250;
  max_backoff = 8000;
  request_timeout = none;
}

-- The receipt says success, or it was not found.
abbrev answer : Bool → Answer
answer true = record { code = none; receipt = 22 }
answer false = record { code = some 0; receipt = 18 }

abbrev judge : Bool → ℕ × ExecutionState
judge true = (22, Retry.finished)
judge false = (18, retry)

-- The receipt is there from the second attempt on.
abbrev reply_of : ℕ → Reply Bool
reply_of attempt = if attempt == 1 then responded false else responded true

abbrev world : ℕ → Moment Bool
world attempt = record {
  checked = attempt;
  picked = attempt;
  tested = attempt;
  failed = attempt;
  draws = λ i. 0;
  reply = reply_of attempt;
}

judged :
    (r : Bool) → receipt_should_retry true (answer r).code (answer r).receipt ≡ returns (judge r)
unfolding receipt_should_retry receipt_state
judged true = refl
judged false = refl

execute-Explained_example :
    Explained judge world 1
      ((settings request client none 0).attempts + 1)
      (execute judge request client none 0 world).1
execute-Explained_example = execute-Explained judge request client none 0 world

execute_cost_example :
    (sends (execute judge request client none 0 world).0.events ≤ 10)
    × (total_wait (execute judge request client none 0 world).0.events ≤ 10 * 8000)
unfolding settings hedera_sdk_js.Network.Update.install hedera_sdk_js.Network.create
    hedera_sdk_js.Common.random_below hedera_sdk_js.Node.set_min_backoff hedera_sdk_js.Node.new_node
execute_cost_example = execute_cost judge request client none 0 world

execute-receipt_example :
    ((answer true).receipt ≡ success) ⊎ ((answer true).receipt ≡ fee_schedule_file_part_uploaded)
unfolding execute hedera_sdk_js.Network.Update.install hedera_sdk_js.Network.create
    hedera_sdk_js.Common.random_below hedera_sdk_js.Node.set_min_backoff hedera_sdk_js.Node.new_node
    hedera_sdk_js.Executable.Loop.attempt_once LockableList.is_empty
    hedera_sdk_js.Network.Selection.get_node current hedera_sdk_js.Network.Map.map_get
    hedera_sdk_js.Network.Readmission.readmit_nodes hedera_sdk_js.Node.is_healthy
    hedera_sdk_js.Network.Map.map_set hedera_sdk_js.Node.get_channel LockableList.advance
    hedera_sdk_js.Network.Readmission.decrease_backoff hedera_sdk_js.Node.decrease_backoff
execute-receipt_example =
    execute-receipt answer judge request client none 0 world true (some "0.0.3") judged refl

abbrev failed : ℕ × ExecutionState
failed = (10, Retry.finished)

unvalidated_lem_example : failed.1 ≢ Retry.error
unfolding receipt_should_retry receipt_state
unvalidated_lem_example = unvalidated_lem none 10 failed (inl refl) refl

receipt_state-record_state_example : receipt_state true 10 ≡ record_state true 10
receipt_state-record_state_example =
    receipt_state-record_state true 10 (omega arith) (omega arith) (omega arith)

abbrev id_at : ℕ → TransactionId
id_at t = record { account_id = "0.0.2"; seconds = t; nanos = 0 }

abbrev renewed : String → TransactionId
renewed operator = record { account_id = operator; seconds = 9; nanos = 0 }

transaction_state-query_state_example :
    transaction_state (waiting (some (id_at 1) ∷ []) 0 none "0.0.2") renewed 12
    ≡ (query_state 12, waiting (some (id_at 1) ∷ []) 0 none "0.0.2")
transaction_state-query_state_example =
    transaction_state-query_state (waiting (some (id_at 1) ∷ []) 0 none "0.0.2") renewed 12
      (omega arith)

abbrev two_ids : List (Option TransactionId)
two_ids = some (id_at 1) ∷ some (id_at 2) ∷ []

abbrev after : ExecutionState × Ids
after = transaction_state (waiting two_ids 1 none "0.0.2") renewed transaction_expired

expired_lem_example :
    (after.0 ≡ retry)
    × (current after.1.transaction_ids ≡ some (renewed "0.0.2"))
    × (get after.1.transaction_ids (some 0) ≡ some (id_at 1))
    × (after.1.transaction_ids.index ≡ some 1)
    × (length after.1.transaction_ids.list ≡ 2)
expired_lem_example = expired_lem two_ids 1 0 none "0.0.2" renewed refl (omega arith) (omega arith)
