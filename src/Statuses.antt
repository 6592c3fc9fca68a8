-- ===== src/Statuses.antt =====
-- `_shouldRetry` of transaction/Transaction.js, query/Query.js, transaction/TransactionReceiptQuery.js
-- and transaction/TransactionRecordQuery.js under src/, with `Status._fromCode` of Status.js: what the
-- status of a response makes of the execution. A `Status` is its code; logging is left out. The
-- timestamp that `_buildNewTransactionIdList` generates is an argument.
pub mod Laws
pub mod Receipts
use hedera_sdk_js.Common.{
  ℕ, Bool, true, false, not, ◌&&◌, ◌||◌, String, List, [], ◌∷◌, Option, none, some, if◌then◌else◌,
  ◌==◌, leb,
}
use hedera_sdk_js.Common.Outcome.{Outcome, returns, throws, ◌>>=◌}
use hedera_sdk_js.LockableList.{LockableList, set}
use hedera_sdk_js.Chunks.{TransactionId}
use hedera_sdk_js.Executable.Retry.{ExecutionState, finished, retry, error}

abbrev pub ok : ℕ
ok = 0

abbrev pub transaction_expired : ℕ
transaction_expired = 4

abbrev pub busy : ℕ
busy = 12

abbrev pub receipt_not_found : ℕ
receipt_not_found = 18

abbrev pub record_not_found : ℕ
record_not_found = 19

abbrev pub unknown : ℕ
unknown = 21

abbrev pub success : ℕ
success = 22

abbrev pub platform_not_active : ℕ
platform_not_active = 67

abbrev pub platform_transaction_not_created : ℕ
platform_transaction_not_created = 69

abbrev pub fee_schedule_file_part_uploaded : ℕ
fee_schedule_file_part_uploaded = 104

pub data StatusError : Type 0 where
  unhandled_code : StatusError

abbrev between : ℕ → ℕ → ℕ → Bool
between low high code = leb low code && leb code high

-- `Status._fromCode`: the codes that it has a status for.
unfoldable pub handled : ℕ → Bool
handled code =
    leb code 108
    || between 110 113 code
    || code == 150
    || between 155 160 code
    || between 162 387 code

unfoldable pub from_code : ℕ → Outcome StatusError ℕ
unfolding handled
from_code code = if handled code then returns code else throws unhandled_code

-- `nodeTransactionPrecheckCode`, which is OK where it is null.
unfoldable pub precheck : Option ℕ → Outcome StatusError ℕ
unfolding from_code
precheck none = from_code ok
precheck (some code) = from_code code

abbrev pub Verdict : Type 0
Verdict = ℕ × ExecutionState

-- `Query._shouldRetry`, of the status.
unfoldable pub query_state : ℕ → ExecutionState
query_state s =
    if s == busy
      || s == unknown
      || s == platform_transaction_not_created
      || s == platform_not_active
    then retry
    else if s == ok
    then finished
    else error

unfoldable pub query_should_retry : Option ℕ → Outcome StatusError Verdict
unfolding precheck query_state
query_should_retry code = do s ← precheck code; returns (s, query_state s)

-- What `Transaction._shouldRetry` works with. `regenerate` is `none` where it is null.
pub record Ids : Type 0 where
  pub transaction_ids : LockableList TransactionId
  pub operator_account_id : Option String
  pub regenerate : Option Bool

abbrev pub write_id : Ids → TransactionId → Option ℕ → Ids
write_id t id none = t
write_id t id (some index) = record t { transaction_ids = set t.transaction_ids index id }

abbrev with_operator : Ids → (String → TransactionId) → Option String → Ids
with_operator t generated none = t
with_operator t generated (some operator) = write_id t (generated operator) t.transaction_ids.index

-- `_buildNewTransactionIdList`. At an index that is NaN the write sets no element.
unfoldable pub build_new_transaction_id_list : Ids → (String → TransactionId) → Ids
unfolding set
build_new_transaction_id_list t generated =
    if t.transaction_ids.locked then t else with_operator t generated t.operator_account_id

abbrev pub is_false : Option Bool → Bool
is_false none = false
is_false (some b) = not b

-- `Transaction._shouldRetry`, of the status.
unfoldable pub transaction_state : Ids → (String → TransactionId) → ℕ → ExecutionState × Ids
unfolding build_new_transaction_id_list
transaction_state t generated s =
    if s == busy
      || s == unknown
      || s == platform_transaction_not_created
      || s == platform_not_active
    then (retry, t)
    else if s == ok
    then (finished, t)
    else if s == transaction_expired
    then (if t.transaction_ids.locked || is_false t.regenerate
        then (error, t)
        else (retry, build_new_transaction_id_list t generated))
    else (error, t)

unfoldable pub transaction_should_retry :
    Ids → (String → TransactionId) → Option ℕ → Outcome StatusError (Verdict × Ids)
unfolding precheck transaction_state
transaction_should_retry t generated code = do
  s ← precheck code
  returns ((s, (transaction_state t generated s).0), (transaction_state t generated s).1)

-- The status of the receipt in the response to a receipt query.
unfoldable pub receipt_state : Bool → ℕ → ExecutionState
receipt_state validate s =
    if s == busy || s == unknown || s == receipt_not_found
    then retry
    else if s == success || s == fee_schedule_file_part_uploaded
    then finished
    else if validate
    then error
    else finished

abbrev pub receipt_verdict : Bool → ℕ → Outcome StatusError Verdict
receipt_verdict validate code = do s ← from_code code; returns (s, receipt_state validate s)

abbrev pub after_receipt_precheck : Bool → ℕ → ℕ → Outcome StatusError Verdict
after_receipt_precheck validate receipt s =
    if s == busy || s == unknown || s == receipt_not_found || s == platform_not_active
    then returns (s, retry)
    else if s == ok
    then receipt_verdict validate receipt
    else returns (s, error)

-- `TransactionReceiptQuery._shouldRetry`, of the precheck code and the code of the receipt.
unfoldable pub receipt_should_retry : Bool → Option ℕ → ℕ → Outcome StatusError Verdict
unfolding precheck
receipt_should_retry validate code receipt = do
  s ← precheck code
  after_receipt_precheck validate receipt s

-- The status of the receipt in the response to a record query.
unfoldable pub record_state : Bool → ℕ → ExecutionState
record_state validate s =
    if s == ok || s == busy || s == unknown || s == receipt_not_found || s == record_not_found
    then retry
    else if s == success
    then finished
    else if validate
    then error
    else finished

abbrev pub record_verdict : Bool → ℕ → Outcome StatusError Verdict
record_verdict validate code = do s ← from_code code; returns (s, record_state validate s)

abbrev pub after_record_precheck : Bool → Bool → ℕ → ℕ → Outcome StatusError Verdict
after_record_precheck validate cost_answer receipt s =
    if s == busy
      || s == unknown
      || s == receipt_not_found
      || s == record_not_found
      || s == platform_not_active
    then returns (s, retry)
    else if s == ok
    then (if cost_answer then returns (s, finished) else record_verdict validate receipt)
    else returns (s, error)

-- `TransactionRecordQuery._shouldRetry`. `cost_answer`: the response only tells the cost.
unfoldable pub record_should_retry : Bool → Bool → Option ℕ → ℕ → Outcome StatusError Verdict
unfolding precheck
record_should_retry validate cost_answer code receipt = do
  s ← precheck code
  after_record_precheck validate cost_answer receipt s
