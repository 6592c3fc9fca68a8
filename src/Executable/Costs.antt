-- ===== src/Executable/Costs.antt =====
-- `execute`, Executable.js under src/: how often a request is sent, and how long it waits.
use hedera_sdk_js.Common.{
  contains, ℕ, zero, suc, ◌+◌, ◌*◌, ◌≤◌, ◌≡◌, refl, ◌||◌, String, List, [], ◌∷◌, ◌++◌, Option, none,
  some, length, if◌then◌else◌, leb, arith, inl, inr, Bool-cases, if_both, ap, ◌∙◌,
}
use hedera_sdk_js.Common.Outcome.{Outcome, returns, throws}
use hedera_sdk_js.LockableList.{set_list, current, is_empty}
use hedera_sdk_js.Network.{Network, NetworkError}
use hedera_sdk_js.Network.Readmission.{decrease_backoff}
use hedera_sdk_js.Node.{is_healthy}
use hedera_sdk_js.Executable.Retry.{
  Rejection, ExecutionState, should_retry_exceptionally, delay_for_attempt,
}
use hedera_sdk_js.Executable.{
  no_valid_nodes, all_nodes_unhealthy, unknown_grpc_status, Request, Client, Settings, Reply,
  responded, rejected, Moment, Event, sent, waited, Run, Result, timeout_exceeded, Step, again,
  stop,
}
use hedera_sdk_js.Executable.Loop.{
  choose_node, first_node, listed_node, fix_node, Choice, on_state, on_reply, check_account,
  try_choice, some_valid, is_last_node, timed_out, opened, step_list, log_event, on_rejection,
  on_response, send, try_node, attempt_once, attempt_loop, execute, settings, known_status,
  note_status, continue_loop,
}

-- How often a request was sent, and for how long it waited between attempts.
abbrev pub sends : List Event → ℕ
sends [] = 0
sends (sent node ∷ es) = suc (sends es)
sends (waited t ∷ es) = sends es

abbrev pub total_wait : List Event → ℕ
total_wait [] = 0
total_wait (sent node ∷ es) = total_wait es
total_wait (waited t ∷ es) = t + total_wait es

sends-append : (es fs : List Event) → sends (es ++ fs) ≡ sends es + sends fs
sends-append [] fs = omega arith
sends-append (sent node ∷ es) fs = omega (arith, sends-append es fs)
sends-append (waited t ∷ es) fs = omega (arith, sends-append es fs)

total_wait-append : (es fs : List Event) → total_wait (es ++ fs) ≡ total_wait es + total_wait fs
total_wait-append [] fs = omega arith
total_wait-append (sent node ∷ es) fs = omega (arith, total_wait-append es fs)
total_wait-append (waited t ∷ es) fs = omega (arith, total_wait-append es fs)

-- The longest wait.
abbrev pub wait_cap : Settings → ℕ
wait_cap s = if s.is_local_node then s.min_backoff else s.max_backoff

-- From one run to the next the request is sent at most once, and waits no longer than the cap.
pub record Costs (s : Settings) (before after : Run) : Type 0 where
  send_once : sends after.events ≤ sends before.events + 1
  wait_once : total_wait after.events ≤ total_wait before.events + wait_cap s

-- And it is not sent.
record Waits (s : Settings) (before after : Run) : Type 0 where
  no_send : sends after.events ≡ sends before.events
  wait_once : total_wait after.events ≤ total_wait before.events + wait_cap s

delay_le_cap :
    (s : Settings) (attempt : ℕ)
    → delay_for_attempt s.is_local_node attempt s.min_backoff s.max_backoff ≤ wait_cap s
unfolding delay_for_attempt
delay_le_cap s attempt = elim (Bool-cases s.is_local_node) [
  | inl e ↦ rw e (omega arith)
  | inr e ↦ rw e (omega arith)
]

note_status-events : (code : ℕ) (run : Run) → (note_status code run).events ≡ run.events
note_status-events code run = ground arith

module _ {R : Type 0} where
  abbrev pub run_of : Step R → Run
  run_of (again run) = run
  run_of (stop run result) = run

  on_state-Waits :
      (x : ExecutionState) (s : Settings) (attempt : ℕ) (run : Run) (account : Option String)
      (r : R)
      → Waits s run (run_of (on_state x s attempt run account r))
  unfolding on_state
  on_state-Waits ExecutionState.retry s attempt run account r =
      let delay = delay_for_attempt s.is_local_node attempt s.min_backoff s.max_backoff in
      omega (
        arith,
        sends-append run.events (waited delay ∷ []),
        total_wait-append run.events (waited delay ∷ []),
        delay_le_cap s attempt,
      )
  on_state-Waits ExecutionState.finished s attempt run account r = omega arith
  on_state-Waits ExecutionState.error s attempt run account r = omega arith

  on_rejection-Waits :
      (s : Settings) (m : Moment R) (run : Run) (node : ℕ) (e : Rejection)
      → Waits s run (run_of (on_rejection m run node e))
  unfolding on_rejection
  on_rejection-Waits s m run node e =
      if_both (λ st. Waits s run (run_of st)) (should_retry_exceptionally e) _ _ (omega arith)
        (omega arith)

  on_reply-Waits :
      (f : R → ℕ × ExecutionState) (s : Settings) (m : Moment R) (attempt : ℕ) (run : Run)
      (c : Choice) (reply : Reply R)
      → Waits s run (run_of (on_reply f s m attempt run c reply))
  unfolding on_reply on_rejection on_response
  on_reply-Waits f s m attempt run c (rejected e) =
      let P = λ (st : Step R). Waits s run (run_of st) in
      if_both P (known_status e) (on_rejection m run c.node e) (stop run unknown_grpc_status)
        (on_rejection-Waits s m run c.node e) (omega arith)
  on_reply-Waits f s m attempt run c (responded r) =
      let after =
        note_status (f r).0 (record run { network = decrease_backoff run.network c.node }) in
      let same : after.events ≡ run.events = note_status-events (f r).0 _ in
      let w = on_state-Waits (f r).1 s attempt after c.account r in
      record { no_send = w.no_send ∙ ap sends same; wait_once = rw same at w.wait_once }

  send-Costs :
      (f : R → ℕ × ExecutionState) (s : Settings) (m : Moment R) (attempt : ℕ) (c : Choice)
      → Costs s c.run (run_of (send f s m attempt c))
  unfolding send
  send-Costs f s m attempt c =
      let P = λ (st : Step R). Costs s c.run (run_of st) in
      let out = log_event (sent c.node) (step_list (opened c)) in
      if_both P (is_healthy ((opened c).network.store c.node) m.tested)
        (on_reply f s m attempt out c m.reply)
        (if is_last_node c.run.node_ids || leb (length c.run.node_ids.list) 1
          then stop (opened c) all_nodes_unhealthy
          else again (step_list (opened c)))
        (omega (
          arith,
          on_reply-Waits f s m attempt out c m.reply,
          sends-append c.run.events (sent c.node ∷ []),
          total_wait-append c.run.events (sent c.node ∷ []),
        ))
        (if_both P _ (stop (opened c) all_nodes_unhealthy) (again (step_list (opened c)))
          (omega arith) (omega arith))

  check_account-Costs :
      (f : R → ℕ × ExecutionState) (s : Settings) (m : Moment R) (attempt : ℕ) (c : Choice)
      (account : Option String)
      → Costs s c.run (run_of (check_account f s m attempt c account))
  unfolding check_account
  check_account-Costs f s m attempt c none = omega arith
  check_account-Costs f s m attempt c (some account) =
      if_both (λ st. Costs s c.run (run_of st)) (contains s.transaction_node_ids account)
        (send f s m attempt c) (again (step_list c.run)) (send-Costs f s m attempt c) (omega arith)

  try_node-Costs :
      (f : R → ℕ × ExecutionState) (s : Settings) (m : Moment R) (attempt : ℕ) (c : Choice)
      → Costs s c.run (run_of (try_node f s m attempt c))
  unfolding try_node
  try_node-Costs f s m attempt c =
      if_both (λ st. Costs s c.run (run_of st)) (leb (length s.transaction_node_ids) 0)
        (send f s m attempt c) (check_account f s m attempt c c.account)
        (send-Costs f s m attempt c) (check_account-Costs f s m attempt c c.account)

  fix_node-events :
      (run : Run) (r : ℕ) (network : Network) (c : Choice)
      → fix_node {R = R} run r network ≡ returns c
      → c.run.events ≡ run.events
  unfolding fix_node set_list
  fix_node-events run r network c e = ground arith

  first_node-events :
      (run : Run) (o : Outcome NetworkError (Option ℕ × Network)) (c : Choice)
      → first_node {R = R} run o ≡ returns c
      → c.run.events ≡ run.events
  unfolding first_node
  first_node-events run (throws e) c h = cc
  first_node-events run (returns (none, network)) c h = cc
  first_node-events run (returns (some r, network)) c h = fix_node-events run r network c h

  listed_node-events :
      (run : Run) (o : Outcome NetworkError (Option ℕ × Network)) (c : Choice)
      → listed_node {R = R} run o ≡ returns c
      → c.run.events ≡ run.events
  unfolding listed_node
  listed_node-events run (throws e) c h = cc
  listed_node-events run (returns (none, network)) c h = cc
  listed_node-events run (returns (some r, network)) c h = ground arith

  choose_node-events :
      (m : Moment R) (run : Run) (c : Choice)
      → choose_node m run ≡ returns c
      → c.run.events ≡ run.events
  unfolding choose_node
  choose_node-events m run c e = elim (Bool-cases (is_empty run.node_ids)) [
    | inl none_set ↦ first_node-events run _ c (rw none_set at e)
    | inr listed ↦ listed_node-events run _ c (rw listed at e)
  ]

  try_choice-Costs :
      (f : R → ℕ × ExecutionState) (s : Settings) (m : Moment R) (attempt : ℕ) (run : Run)
      (chosen : Outcome (Result R) Choice)
      → ((c : Choice) → chosen ≡ returns c → c.run.events ≡ run.events)
      → Costs s run (run_of (try_choice f s m attempt run chosen))
  unfolding try_choice
  try_choice-Costs f s m attempt run (throws e) same = omega arith
  try_choice-Costs f s m attempt run (returns c) same =
      omega
        (arith, try_node-Costs f s m attempt c, ap sends (same c refl), ap total_wait (same c refl))

  attempt_once-Costs :
      (f : R → ℕ × ExecutionState) (s : Settings) (m : Moment R) (attempt : ℕ) (run : Run)
      → Costs s run (run_of (attempt_once f s m attempt run))
  unfolding attempt_once
  attempt_once-Costs f s m attempt run =
      if_both (λ st. Costs s run (run_of st)) (timed_out s m.checked)
        (stop run (timeout_exceeded (if is_empty run.node_ids then none else current run.node_ids)))
        (try_choice f s m attempt run (choose_node m run)) (omega arith)
        (try_choice-Costs f s m attempt run (choose_node m run) (choose_node-events m run))

  continue-Costs :
      (s : Settings) (run : Run) (left : ℕ) (rest : Run → Run × Result R) (st : Step R)
      → Costs s run (run_of st)
      → ((next : Run)
          → (sends (rest next).0.events ≤ sends next.events + left)
            × (total_wait (rest next).0.events ≤ total_wait next.events + left * wait_cap s))
      → (sends (continue_loop rest st).0.events ≤ sends run.events + suc left)
        × (total_wait (continue_loop rest st).0.events
            ≤ total_wait run.events + suc left * wait_cap s)
  continue-Costs s run left rest (again next) c h = omega (arith, h next)
  continue-Costs s run left rest (stop last result) c h = omega (arith)

  attempt_loop-Costs :
      (f : R → ℕ × ExecutionState) (s : Settings) (world : ℕ → Moment R) (left attempt : ℕ)
      (run : Run)
      → (sends (attempt_loop f s world left attempt run).0.events ≤ sends run.events + left)
        × (total_wait (attempt_loop f s world left attempt run).0.events
            ≤ total_wait run.events + left * wait_cap s)
  unfolding attempt_loop
  attempt_loop-Costs f s world zero attempt run = omega arith
  attempt_loop-Costs f s world (suc left) attempt run =
      continue-Costs s run left (attempt_loop f s world left (attempt + 1))
        (attempt_once f s (world attempt) attempt run)
        (attempt_once-Costs f s (world attempt) attempt run)
        (attempt_loop-Costs f s world left (attempt + 1))

-- Whatever the network, the clock and the replies do, a request is sent at most as often as it has
-- attempts, and waits in all at most that many times the longest wait.
pub execute_cost :
    {R : Type 0} (f : R → ℕ × ExecutionState) (q : Request) (client : Client)
    (request_timeout : Option ℕ) (start_time : ℕ) (world : ℕ → Moment R)
    → (let s = settings q client request_timeout start_time in
        let events = (execute f q client request_timeout start_time world).0.events in
        (sends events ≤ s.attempts) × (total_wait events ≤ s.attempts * wait_cap s))
unfolding execute
execute_cost {R} f q client request_timeout start_time world =
    let s = settings q client request_timeout start_time in
    let run : Run = record {
      node_ids = q.node_account_ids;
      network = client.network;
      persistent = none;
      events = [];
    } in
    let P = λ (o : Run × Result R).
      (sends o.0.events ≤ s.attempts) × (total_wait o.0.events ≤ s.attempts * wait_cap s) in
    let loop = attempt_loop f s world s.attempts 1 run in
    let cost : (sends loop.0.events ≤ s.attempts)
        × (total_wait loop.0.events ≤ s.attempts * wait_cap s) =
      omega (arith, attempt_loop-Costs f s world s.attempts 1 run) in
    if_both P _ loop
      (if some_valid q.transaction_node_ids q.node_account_ids.list
        then loop
        else (run, no_valid_nodes))
      cost (if_both P _ loop (run, no_valid_nodes) cost (omega arith))
