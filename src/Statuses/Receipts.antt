-- ===== src/Statuses/Receipts.antt =====
-- The receipt query and the record query under src/: how their rules compare, and what `execute`
-- returns when it is run with the rule of a receipt query.
use hedera_sdk_js.Common.{
  ℕ, ◌≡◌, ◌≢◌, ◌⊎◌, inl, inr, Bool, true, false, String, Option, none, some, arith,
}
use hedera_sdk_js.Common.Outcome.{returns, >>=-eq-returns}
use hedera_sdk_js.Executable.{Request, Client, Moment, finished}
use hedera_sdk_js.Executable.Retry.{ExecutionState, retry, error}
use hedera_sdk_js.Executable.Retry
use hedera_sdk_js.Executable.Loop.{execute}
use hedera_sdk_js.Executable.Outcomes.{execute-Explained}
use hedera_sdk_js.Statuses.{
  Verdict, from_code, precheck, handled, receipt_state, receipt_should_retry, record_state,
  record_not_found, fee_schedule_file_part_uploaded, success, ok, receipt_verdict,
  after_receipt_precheck,
}

-- Receipt queries and record queries judge the status of a receipt alike, unless it is OK,
-- RECORD_NOT_FOUND or FEE_SCHEDULE_FILE_PART_UPLOADED.
pub receipt_state-record_state :
    (validate : Bool) (s : ℕ)
    → s ≢ ok
    → s ≢ record_not_found
    → s ≢ fee_schedule_file_part_uploaded
    → receipt_state validate s ≡ record_state validate s
unfolding receipt_state record_state
receipt_state-record_state validate s a b c = ground arith

-- With validation, only the two statuses of success are final.
validated-finished :
    (s : ℕ)
    → receipt_state true s ≡ Retry.finished
    → (s ≡ success) ⊎ (s ≡ fee_schedule_file_part_uploaded)
unfolding receipt_state
validated-finished s h = ground arith

judged-finished :
    (code : ℕ) (v : Verdict)
    → receipt_verdict true code ≡ returns v
    → v.1 ≡ Retry.finished
    → (code ≡ success) ⊎ (code ≡ fee_schedule_file_part_uploaded)
unfolding from_code receipt_state
judged-finished code v h k = ground arith

after-finished :
    (receipt s : ℕ) (v : Verdict)
    → after_receipt_precheck true receipt s ≡ returns v
    → v.1 ≡ Retry.finished
    → (receipt ≡ success) ⊎ (receipt ≡ fee_schedule_file_part_uploaded)
after-finished receipt s v h k = ground (arith, judged-finished receipt v)

-- The same for the whole response.
pub receipt_should_retry-finished :
    (code : Option ℕ) (receipt : ℕ) (v : Verdict)
    → receipt_should_retry true code receipt ≡ returns v
    → v.1 ≡ Retry.finished
    → (receipt ≡ success) ⊎ (receipt ≡ fee_schedule_file_part_uploaded)
unfolding receipt_should_retry
receipt_should_retry-finished code receipt v h k =
    let (s, checked, rest) =
      >>=-eq-returns (precheck code) (after_receipt_precheck true receipt) h in
    after-finished receipt s v rest k

unvalidated-judged : (code : ℕ) (v : Verdict) → receipt_verdict false code ≡ returns v → v.1 ≢ error
unfolding from_code receipt_state
unvalidated-judged code v h k = ground arith

-- A receipt query that does not validate the status never judges a response whose precheck code is
-- OK, or absent, to be an error.
pub unvalidated_lem :
    (code : Option ℕ) (receipt : ℕ) (v : Verdict)
    → (code ≡ none) ⊎ (code ≡ some ok)
    → receipt_should_retry false code receipt ≡ returns v
    → v.1 ≢ error
unfolding receipt_should_retry precheck from_code handled
unvalidated_lem code receipt v (inl a) h k = unvalidated-judged receipt v (rw a at h) k
unvalidated_lem code receipt v (inr a) h k = unvalidated-judged receipt v (rw a at h) k

-- The response to a receipt query: the precheck code and the status of the receipt.
pub record Answer : Type 0 where
  pub code : Option ℕ
  pub receipt : ℕ

-- A receipt query that validates the status and is executed returns only a response whose receipt
-- says success, or that a part of the fee schedule was uploaded: for every network, every sequence
-- of replies and every clock, where `_shouldRetry` throws for none of the responses.
pub execute-receipt :
    {R : Type 0} (answer : R → Answer) (f : R → ℕ × ExecutionState) (q : Request) (client : Client)
    (request_timeout : Option ℕ) (start_time : ℕ) (world : ℕ → Moment R) (r : R)
    (account : Option String)
    → ((r : R) → receipt_should_retry true (answer r).code (answer r).receipt ≡ returns (f r))
    → (execute f q client request_timeout start_time world).1 ≡ finished r account
    → ((answer r).receipt ≡ success) ⊎ ((answer r).receipt ≡ fee_schedule_file_part_uploaded)
execute-receipt answer f q client request_timeout start_time world r account judged e =
    let explained = execute-Explained f q client request_timeout start_time world in
    let (k, low, high, fits) = rw e at explained in
    receipt_should_retry-finished (answer r).code (answer r).receipt (f r) (judged r) fits.1
