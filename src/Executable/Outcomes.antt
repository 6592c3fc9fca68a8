-- ===== src/Executable/Outcomes.antt =====
-- `execute`, Executable.js under src/: what a result says of the replies that were received.
use hedera_sdk_js.Common.{
  contains, ℕ, zero, suc, ◌+◌, ◌≤◌, ◌<◌, ◌≡◌, refl, false, ◌||◌, String, [], Option, none, some,
  length, if◌then◌else◌, leb, arith, inl, inr, Bool-cases, if_both,
}
use hedera_sdk_js.Common.Outcome.{Outcome, returns, throws}
use hedera_sdk_js.LockableList.{current, is_empty}
use hedera_sdk_js.Network.{Network, NetworkError, no_healthy_node}
use hedera_sdk_js.Network.Selection.{get_node}
use hedera_sdk_js.Node.{is_healthy}
use hedera_sdk_js.Executable.Retry.{Rejection, ExecutionState, should_retry_exceptionally}
use hedera_sdk_js.Executable.{
  Request, Client, Settings, Reply, responded, rejected, Moment, sent, Run, Result, finished,
  status_error, thrown, timeout_exceeded, max_attempts_reached, Step, again, stop,
  all_nodes_unhealthy, node_not_recognized, no_valid_nodes, no_healthy_nodes, list_locked,
  unknown_grpc_status, type_error,
}
use hedera_sdk_js.Executable.Loop.{
  choose_node, first_node, listed_node, fix_node, fixed, Choice, on_state, on_reply, check_account,
  try_choice, opened, step_list, log_event, some_valid, is_last_node, timed_out, on_rejection,
  on_response, send, try_node, attempt_once, attempt_loop, execute, settings, known_status,
  continue_loop, network_error,
}
use hedera_sdk_js.LockableList.{LockableList, ListError}

module _ {R : Type 0} (f : R → ℕ × ExecutionState) where
  -- The result of an attempt fits its reply: a response is returned or reported as an error only if
  -- `_shouldRetry` says so of it, and a rejection is thrown only if it may not be retried.
  abbrev pub Fits : Reply R → Result R → Type 0
  Fits reply (finished r account) = (reply ≡ responded r) × ((f r).1 ≡ ExecutionState.finished)
  Fits reply (status_error r account) = (reply ≡ responded r) × ((f r).1 ≡ ExecutionState.error)
  Fits reply (thrown e) = (reply ≡ rejected e) × (should_retry_exceptionally e ≡ false)
  Fits reply (timeout_exceeded account) = Unit
  Fits reply (max_attempts_reached last account) = ⊥
  Fits reply all_nodes_unhealthy = Unit
  Fits reply node_not_recognized = Unit
  Fits reply no_valid_nodes = ⊥
  Fits reply no_healthy_nodes = Unit
  Fits reply list_locked = Unit
  Fits reply unknown_grpc_status = Unit
  Fits reply type_error = Unit

  abbrev StepFits : Reply R → Step R → Type 0
  StepFits reply (again run) = Unit
  StepFits reply (stop run result) = Fits reply result

  on_state-Fits :
      (x : ExecutionState) (s : Settings) (attempt : ℕ) (run : Run) (account : Option String)
      (r : R)
      → (f r).1 ≡ x
      → StepFits (responded r) (on_state x s attempt run account r)
  unfolding on_state
  on_state-Fits ExecutionState.retry s attempt run account r e = tt
  on_state-Fits ExecutionState.finished s attempt run account r e = (refl, e)
  on_state-Fits ExecutionState.error s attempt run account r e = (refl, e)

  on_rejection-Fits :
      (m : Moment R) (run : Run) (node : ℕ) (e : Rejection)
      → StepFits (rejected e) (on_rejection m run node e)
  unfolding on_rejection
  on_rejection-Fits m run node e = elim (Bool-cases (should_retry_exceptionally e)) [
    | inl retry ↦ rw retry tt
    | inr no_retry ↦ rw no_retry (refl, no_retry)
  ]

  on_reply-Fits :
      (s : Settings) (m : Moment R) (attempt : ℕ) (run : Run) (c : Choice) (reply : Reply R)
      → StepFits reply (on_reply f s m attempt run c reply)
  unfolding on_reply on_response
  on_reply-Fits s m attempt run c (rejected e) =
      if_both (StepFits (rejected e)) (known_status e) (on_rejection m run c.node e)
        (stop run unknown_grpc_status) (on_rejection-Fits m run c.node e) tt
  on_reply-Fits s m attempt run c (responded r) = on_state-Fits (f r).1 s attempt _ c.account r refl

  send-Fits :
      (s : Settings) (m : Moment R) (attempt : ℕ) (c : Choice)
      → StepFits m.reply (send f s m attempt c)
  unfolding send
  send-Fits s m attempt c =
      let P = StepFits m.reply in
      let unhealthy = is_last_node c.run.node_ids || leb (length c.run.node_ids.list) 1 in
      let out = log_event (sent c.node) (step_list (opened c)) in
      if_both P (is_healthy ((opened c).network.store c.node) m.tested)
        (on_reply f s m attempt out c m.reply)
        (if unhealthy then stop (opened c) all_nodes_unhealthy else again (step_list (opened c)))
        (on_reply-Fits s m attempt out c m.reply)
        (if_both P unhealthy (stop (opened c) all_nodes_unhealthy) (again (step_list (opened c))) tt
          tt)

  check_account-Fits :
      (s : Settings) (m : Moment R) (attempt : ℕ) (c : Choice) (account : Option String)
      → StepFits m.reply (check_account f s m attempt c account)
  unfolding check_account
  check_account-Fits s m attempt c none = tt
  check_account-Fits s m attempt c (some account) =
      if_both (StepFits m.reply) (contains s.transaction_node_ids account) (send f s m attempt c)
        (again (step_list c.run)) (send-Fits s m attempt c) tt

  try_node-Fits :
      (s : Settings) (m : Moment R) (attempt : ℕ) (c : Choice)
      → StepFits m.reply (try_node f s m attempt c)
  unfolding try_node
  try_node-Fits s m attempt c =
      if_both (StepFits m.reply) (leb (length s.transaction_node_ids) 0) (send f s m attempt c)
        (check_account f s m attempt c c.account) (send-Fits s m attempt c)
        (check_account-Fits s m attempt c c.account)

  -- No node could be chosen.
  abbrev ChoiceFits : Reply R → Outcome (Result R) Choice → Type 0
  ChoiceFits reply (returns c) = Unit
  ChoiceFits reply (throws e) = Fits reply e

  network_error-Fits : (reply : Reply R) (e : NetworkError) → Fits reply (network_error e)
  network_error-Fits reply no_healthy_node = tt
  network_error-Fits reply NetworkError.type_error = tt

  fixed-Fits :
      (reply : Reply R) (run : Run) (r : ℕ) (network : Network)
      (o : Outcome ListError (LockableList String))
      → ChoiceFits reply (fixed run r network o)
  unfolding fixed
  fixed-Fits reply run r network (throws e) = tt
  fixed-Fits reply run r network (returns ids) = tt

  fix_node-Fits :
      (reply : Reply R) (run : Run) (r : ℕ) (network : Network)
      → ChoiceFits reply (fix_node run r network)
  unfolding fix_node
  fix_node-Fits reply run r network = fixed-Fits reply run r network _

  first_node-Fits :
      (reply : Reply R) (run : Run) (o : Outcome NetworkError (Option ℕ × Network))
      → ChoiceFits reply (first_node run o)
  unfolding first_node
  first_node-Fits reply run (throws e) = network_error-Fits reply e
  first_node-Fits reply run (returns (none, network)) = tt
  first_node-Fits reply run (returns (some r, network)) = fix_node-Fits reply run r network

  listed_node-Fits :
      (reply : Reply R) (run : Run) (o : Outcome NetworkError (Option ℕ × Network))
      → ChoiceFits reply (listed_node run o)
  unfolding listed_node
  listed_node-Fits reply run (throws e) = network_error-Fits reply e
  listed_node-Fits reply run (returns (none, network)) = tt
  listed_node-Fits reply run (returns (some r, network)) = tt

  choose_node-Fits : (m : Moment R) (run : Run) → ChoiceFits m.reply (choose_node m run)
  unfolding choose_node
  choose_node-Fits m run =
      if_both (ChoiceFits m.reply) (is_empty run.node_ids)
        (first_node run (get_node run.network none m.picked m.draws))
        (listed_node run (get_node run.network (current run.node_ids) m.picked m.draws))
        (first_node-Fits m.reply run _) (listed_node-Fits m.reply run _)

  try_choice-Fits :
      (s : Settings) (m : Moment R) (attempt : ℕ) (run : Run) (chosen : Outcome (Result R) Choice)
      → ChoiceFits m.reply chosen
      → StepFits m.reply (try_choice f s m attempt run chosen)
  unfolding try_choice
  try_choice-Fits s m attempt run (throws e) h = h
  try_choice-Fits s m attempt run (returns c) h = try_node-Fits s m attempt c

  attempt_once-Fits :
      (s : Settings) (m : Moment R) (attempt : ℕ) (run : Run)
      → StepFits m.reply (attempt_once f s m attempt run)
  unfolding attempt_once
  attempt_once-Fits s m attempt run =
      if_both (StepFits m.reply) (timed_out s m.checked)
        (stop run (timeout_exceeded (if is_empty run.node_ids then none else current run.node_ids)))
        (try_choice f s m attempt run (choose_node m run)) tt
        (try_choice-Fits s m attempt run (choose_node m run) (choose_node-Fits m run))

  -- A result is the outcome of running out of attempts, of a list with no valid node, or fits the
  -- reply of one of the attempts `from`, …, `to` - 1.
  abbrev pub Explained : (ℕ → Moment R) → ℕ → ℕ → Result R → Type 0
  Explained world from to (max_attempts_reached last account) = Unit
  Explained world from to no_valid_nodes = Unit
  Explained world from to result = (k : ℕ) × (from ≤ k) × (k < to) × Fits (world k).reply result

  explain :
      (world : ℕ → Moment R) (from to k : ℕ) (result : Result R)
      → from ≤ k
      → k < to
      → Fits (world k).reply result
      → Explained world from to result
  explain world from to k (max_attempts_reached last account) a b fits = tt
  explain world from to k no_valid_nodes a b fits = tt
  explain world from to k result a b fits = (k, a, b, fits)

  explain_later :
      (world : ℕ → Moment R) (from to : ℕ) (result : Result R)
      → Explained world (from + 1) to result
      → Explained world from to result
  explain_later world from to (max_attempts_reached last account) h = tt
  explain_later world from to no_valid_nodes h = tt
  explain_later world from to result (k, a, b, fits) = (k, omega arith, b, fits)

  continue-Explained :
      (world : ℕ → Moment R) (from to : ℕ) (rest : Run → Run × Result R) (st : Step R)
      → from < to
      → StepFits (world from).reply st
      → ((next : Run) → Explained world (from + 1) to (rest next).1)
      → Explained world from to (continue_loop rest st).1
  continue-Explained world from to rest (again next) h fits later =
      explain_later world from to _ (later next)
  continue-Explained world from to rest (stop last result) h fits later =
      explain world from to from result (omega arith) h fits

  attempt_loop-Explained :
      (s : Settings) (world : ℕ → Moment R) (left attempt to : ℕ) (run : Run)
      → attempt + left ≡ to
      → Explained world attempt to (attempt_loop f s world left attempt run).1
  unfolding attempt_loop
  attempt_loop-Explained s world zero attempt to run e = tt
  attempt_loop-Explained s world (suc left) attempt to run e =
      continue-Explained world attempt to (attempt_loop f s world left (attempt + 1))
        (attempt_once f s (world attempt) attempt run) (omega arith)
        (attempt_once-Fits s (world attempt) attempt run)
        (λ next. attempt_loop-Explained s world left (attempt + 1) to next (omega arith))

-- Every result but that of running out of attempts or of having no valid node is explained by the
-- reply to one of the attempts 1, …, maxAttempts: a response that is returned was received and is
-- `Finished` by `_shouldRetry`, one that is reported as an error was received and is `Error`, and an
-- error that is thrown was received and may not be retried. Of a result without a reply, such as a
-- timeout, only the attempt is named.
pub execute-Explained :
    {R : Type 0} (f : R → ℕ × ExecutionState) (q : Request) (client : Client)
    (request_timeout : Option ℕ) (start_time : ℕ) (world : ℕ → Moment R)
    → Explained f world 1
        ((settings q client request_timeout start_time).attempts + 1)
        (execute f q client request_timeout start_time world).1
unfolding execute
execute-Explained {R} f q client request_timeout start_time world =
    let s = settings q client request_timeout start_time in
    let run : Run = record {
      node_ids = q.node_account_ids;
      network = client.network;
      persistent = none;
      events = [];
    } in
    let P = λ (o : Run × Result R). Explained f world 1 (s.attempts + 1) o.1 in
    let loop = attempt_loop f s world s.attempts 1 run in
    let explained =
      attempt_loop-Explained f s world s.attempts 1 (s.attempts + 1) run (omega arith) in
    if_both P _ loop
      (if some_valid q.transaction_node_ids q.node_account_ids.list
        then loop
        else (run, no_valid_nodes))
      explained (if_both P _ loop (run, no_valid_nodes) explained tt)
