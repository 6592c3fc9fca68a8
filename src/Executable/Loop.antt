-- ===== src/Executable/Loop.antt =====
-- `execute`, Executable.js under src/.
use hedera_sdk_js.Common.{
  ℕ, zero, suc, ◌+◌, Bool, true, false, ◌||◌, String, List, [], ◌∷◌, ◌++◌, Option, none, some,
  length, if◌then◌else◌, ◌==◌, leb, contains,
}
use hedera_sdk_js.Common.Outcome.{Outcome, returns, throws}
use hedera_sdk_js.NodeAddress.{Address, address_eq}
use hedera_sdk_js.Node.{get_channel, is_healthy}
use hedera_sdk_js.LockableList.{LockableList, ListError, set_list, advance, current, is_empty}
use hedera_sdk_js.Network.{Network, NetworkError, no_healthy_node, update, key_of}
use hedera_sdk_js.Network.Selection.{get_node}
use hedera_sdk_js.Network.Readmission.{increase_backoff, decrease_backoff}
use hedera_sdk_js.Executable.Retry.{
  Rejection, grpc, http, other, ExecutionState, should_retry_exceptionally, grpc_status_from_value,
  delay_for_attempt,
}
use hedera_sdk_js.Executable.{
  Request, Client, Settings, Reply, responded, rejected, Moment, rejection, status, Event, sent,
  waited, Run, Result, finished, status_error, thrown, timeout_exceeded, max_attempts_reached,
  all_nodes_unhealthy, node_not_recognized, no_valid_nodes, no_healthy_nodes, list_locked,
  unknown_grpc_status, type_error, Step, again, stop,
}

-- `startTime + this._requestTimeout <= Date.now()`, in milliseconds.
abbrev pub timed_out : Settings → ℕ → Bool
timed_out s now = elim s.timeout [ none ↦ false | some t ↦ leb (s.start_time + t) now ]

-- The chosen node and its account. `getNode` also readmits nodes.
pub record Choice : Type 0 where
  pub run : Run
  pub node : ℕ
  pub account : Option String

abbrev pub network_error : {R : Type 0} → NetworkError → Result R
network_error no_healthy_node = no_healthy_nodes
network_error NetworkError.type_error = type_error

abbrev pub step_list : Run → Run
step_list run = record run { node_ids = (advance run.node_ids).1 }

abbrev pub log_event : Event → Run → Run
log_event e run = record run { events = run.events ++ e ∷ [] }

abbrev pub note_status : ℕ → Run → Run
note_status code run =
    if code == 0 || code == 22 then run else record run { persistent = some (status code) }

abbrev pub known_status : Rejection → Bool
known_status (grpc code rst) = elim (grpc_status_from_value code) [ none ↦ false | some c ↦ true ]
known_status http = true
known_status other = true

abbrev pub is_last_node : LockableList String → Bool
is_last_node l = elim l.index [ none ↦ false | some i ↦ i + 1 == length l.list ]

-- `node.getChannel()`.
abbrev pub opened : Choice → Run
opened c = record c.run {
  network = record c.run.network {
    store = update c.run.network.store c.node (get_channel (c.run.network.store c.node)).1;
  };
}

module _ {R : Type 0} where
  unfoldable pub fixed :
      Run → ℕ → Network → Outcome ListError (LockableList String) → Outcome (Result R) Choice
  fixed run r network (throws e) = throws list_locked
  fixed run r network (returns ids) = returns (record {
    run = record run { node_ids = ids; network = network };
    node = r;
    account = some (key_of network r);
  })

  unfoldable pub fix_node : Run → ℕ → Network → Outcome (Result R) Choice
  unfolding fixed
  fix_node run r network = fixed run r network (set_list run.node_ids (key_of network r ∷ []))

  -- Of an empty list: the node's account becomes the list.
  unfoldable pub first_node :
      Run → Outcome NetworkError (Option ℕ × Network) → Outcome (Result R) Choice
  unfolding fix_node
  first_node run (throws e) = throws (network_error e)
  first_node run (returns (none, network)) = throws type_error
  first_node run (returns (some r, network)) = fix_node run r network

  -- Of the current account of the list.
  unfoldable pub listed_node :
      Run → Outcome NetworkError (Option ℕ × Network) → Outcome (Result R) Choice
  listed_node run (throws e) = throws (network_error e)
  listed_node run (returns (none, network)) = throws node_not_recognized
  listed_node run (returns (some r, network)) =
      returns (record {
        run = record run { network = network };
        node = r;
        account = current run.node_ids;
      })

  unfoldable pub choose_node : Moment R → Run → Outcome (Result R) Choice
  unfolding first_node listed_node
  choose_node m run =
      if is_empty run.node_ids
      then first_node run (get_node run.network none m.picked m.draws)
      else listed_node run (get_node run.network (current run.node_ids) m.picked m.draws)

  -- The `catch` block.
  unfoldable pub on_rejection : Moment R → Run → ℕ → Rejection → Step R
  on_rejection m run node e =
      let noted = record run { persistent = some (rejection e) } in
      let retried = record noted { network = increase_backoff run.network node m.failed } in
      if should_retry_exceptionally e then again retried else stop noted (thrown e)

  -- The `switch` on the execution state.
  unfoldable pub on_state : ExecutionState → Settings → ℕ → Run → Option String → R → Step R
  on_state ExecutionState.retry s attempt run account response = again (
      log_event (waited (delay_for_attempt s.is_local_node attempt s.min_backoff s.max_backoff))
        run)
  on_state ExecutionState.finished s attempt run account response =
      stop run (finished response account)
  on_state ExecutionState.error s attempt run account response =
      stop run (status_error response account)

  unfoldable pub on_response :
      (R → ℕ × ExecutionState) → Settings → ℕ → Run → ℕ → Option String → R → Step R
  unfolding on_state
  on_response should_retry s attempt run node account response =
      on_state (should_retry response).1 s attempt
        (note_status (should_retry response).0
          (record run { network = decrease_backoff run.network node }))
        account response

  -- What the reply leads to.
  unfoldable pub on_reply :
      (R → ℕ × ExecutionState) → Settings → Moment R → ℕ → Run → Choice → Reply R → Step R
  unfolding on_rejection on_response
  on_reply should_retry s m attempt run c (rejected e) =
      if known_status e then on_rejection m run c.node e else stop run unknown_grpc_status
  on_reply should_retry s m attempt run c (responded response) =
      on_response should_retry s attempt run c.node c.account response

  -- From `node.getChannel()` to the end of the loop's body.
  unfoldable pub send : (R → ℕ × ExecutionState) → Settings → Moment R → ℕ → Choice → Step R
  unfolding on_reply
  send should_retry s m attempt c =
      let out = log_event (sent c.node) (step_list (opened c)) in
      if is_healthy ((opened c).network.store c.node) m.tested
      then on_reply should_retry s m attempt out c m.reply
      else if is_last_node c.run.node_ids || leb (length c.run.node_ids.list) 1
      then stop (opened c) all_nodes_unhealthy
      else again (step_list (opened c))

  -- The test against the node ids that the transaction was built for.
  unfoldable pub check_account :
      (R → ℕ × ExecutionState) → Settings → Moment R → ℕ → Choice → Option String → Step R
  unfolding send
  check_account should_retry s m attempt c none = stop c.run type_error
  check_account should_retry s m attempt c (some account) =
      if contains s.transaction_node_ids account
      then send should_retry s m attempt c
      else again (step_list c.run)

  unfoldable pub try_node : (R → ℕ × ExecutionState) → Settings → Moment R → ℕ → Choice → Step R
  unfolding send check_account
  try_node should_retry s m attempt c =
      if leb (length s.transaction_node_ids) 0
      then send should_retry s m attempt c
      else check_account should_retry s m attempt c c.account

  unfoldable pub try_choice :
      (R → ℕ × ExecutionState) → Settings → Moment R → ℕ → Run → Outcome (Result R) Choice → Step R
  unfolding try_node
  try_choice should_retry s m attempt run (throws e) = stop run e
  try_choice should_retry s m attempt run (returns c) = try_node should_retry s m attempt c

  unfoldable pub attempt_once : (R → ℕ × ExecutionState) → Settings → Moment R → ℕ → Run → Step R
  unfolding choose_node try_choice
  attempt_once should_retry s m attempt run =
      if timed_out s m.checked
      then stop run
          (timeout_exceeded (if is_empty run.node_ids then none else current run.node_ids))
      else try_choice should_retry s m attempt run (choose_node m run)

  abbrev pub continue_loop : (Run → Run × Result R) → Step R → Run × Result R
  continue_loop rest (again next) = rest next
  continue_loop rest (stop last result) = (last, result)

  -- `for (let attempt = 1; attempt <= maxAttempts; …)`, with the attempts that are left.
  unfoldable pub attempt_loop :
      (R → ℕ × ExecutionState) → Settings → (ℕ → Moment R) → ℕ → ℕ → Run → Run × Result R
  attempt_loop should_retry s world zero attempt run =
      (run, max_attempts_reached run.persistent (current run.node_ids))
  attempt_loop should_retry s world (suc left) attempt run =
      continue_loop (attempt_loop should_retry s world left (attempt + 1))
        (attempt_once should_retry s (world attempt) attempt run)

-- `a ?? b`.
abbrev pub or_default : {A : Type 0} → Option A → A → A
or_default none d = d
or_default (some a) d = a

abbrev pub or_else : {A : Type 0} → Option A → Option A → Option A
or_else none d = d
or_else (some a) d = some a

abbrev pub local_address : Address
local_address = record { host = "127.0.0.1"; port = 50211 }

abbrev pub any_at : Network → List ℕ → Address → Bool
any_at n [] a = false
any_at n (r ∷ rs) a = address_eq (n.store r).address a || any_at n rs a

-- The settings that `execute` fixes before its loop.
unfoldable pub settings : Request → Client → Option ℕ → ℕ → Settings
settings q client request_timeout start_time =
    let is_local = any_at client.network client.network.nodes local_address in
    record {
      is_local_node = is_local;
      start_time = start_time;
      timeout = or_else q.request_timeout (or_else request_timeout client.request_timeout);
      attempts = if is_local then 1000 else or_default client.max_attempts q.max_attempts;
      min_backoff = or_default q.min_backoff client.min_backoff;
      max_backoff = or_default q.max_backoff client.max_backoff;
      transaction_node_ids = q.transaction_node_ids;
    }

abbrev pub some_valid : List String → List (Option String) → Bool
some_valid ids [] = false
some_valid ids (none ∷ xs) = some_valid ids xs
some_valid ids (some x ∷ xs) = contains ids x || some_valid ids xs

-- `execute` after `_beforeExecute`, which belongs to the subclasses.
unfoldable pub execute :
    {R : Type 0}
    → (R → ℕ × ExecutionState)
    → Request
    → Client
    → Option ℕ
    → ℕ
    → (ℕ → Moment R)
    → Run × Result R
unfolding attempt_loop settings
execute should_retry q client request_timeout start_time world =
    let s = settings q client request_timeout start_time in
    let run : Run = record {
      node_ids = q.node_account_ids;
      network = client.network;
      persistent = none;
      events = [];
    } in
    let loop = attempt_loop should_retry s world s.attempts 1 run in
    if leb (length q.transaction_node_ids) 0
    then loop
    else if some_valid q.transaction_node_ids q.node_account_ids.list
    then loop
    else (run, no_valid_nodes)
