-- ===== src/Node.antt =====
-- ManagedNodeAddress.js, ManagedNode.js and Node.js under src/: one proxy of a consensus node.
-- Times and backoffs are counted in ticks of 2^-20 ms, so that `this._currentBackoff / 2`, which
-- JavaScript computes in floating point, is exact for twenty halvings in a row; the factor between
-- the default bounds is below 2^9. `Date.now()` is the argument `now`. An address is kept as its
-- host and port, the account id and the ledger id as their texts. The `compare` of two nodes, which
-- nothing calls, is left out.
pub mod Backoff
use hedera_sdk_js.Common.{
  ℕ, ◌+◌, ◌*◌, ◌/◌, ◌-◌, ◌^◌, min, max, String, Bool, true, false, Option, none, some, leb,
  if◌then◌else◌,
}
use hedera_sdk_js.NodeAddress.{Address, address_to_secure, address_to_insecure}

abbrev pub ms : ℕ
ms = 2 ^ 20

pub record Channel : Type 0 where
  pub target : Address
  pub cert : Option String

pub record Node : Type 0 where
  pub address : Address
  pub account_id : String
  pub cert : Option String
  pub channel : Option Channel
  pub last_used : ℕ
  pub readmit_time : ℕ
  pub use_count : ℕ
  pub bad_grpc_status_count : ℕ
  pub min_backoff : ℕ
  pub max_backoff : ℕ
  pub current_backoff : ℕ

-- `new Node({ newNode })`.
unfoldable pub new_node : Address → String → ℕ → Node
new_node address account_id now = record {
  address = address;
  account_id = account_id;
  cert = none;
  channel = none;
  last_used = now;
  readmit_time = now;
  use_count = 0;
  bad_grpc_status_count = 0;
  min_backoff = 8000 * ms;
  max_backoff = 1000 * 60 * 60 * ms;
  current_backoff = 8000 * ms;
}

-- `new Node({ cloneNode })`: the clone's maximum is the minimum of the node that it is made from.
unfoldable pub clone_node : Address → Node → Node
clone_node address node = record {
  address = address;
  account_id = node.account_id;
  cert = node.cert;
  channel = node.channel;
  last_used = node.last_used;
  readmit_time = node.readmit_time;
  use_count = node.use_count;
  bad_grpc_status_count = node.bad_grpc_status_count;
  min_backoff = node.min_backoff;
  max_backoff = node.min_backoff;
  current_backoff = node.current_backoff;
}

unfoldable pub to_secure : Node → Node
unfolding clone_node
to_secure node = clone_node (address_to_secure node.address) node

unfoldable pub to_insecure : Node → Node
unfolding clone_node
to_insecure node = clone_node (address_to_insecure node.address) node

abbrev pub get_key : Node → String
get_key node = node.account_id

unfoldable pub set_min_backoff : Node → ℕ → Node
set_min_backoff node min_backoff = record node {
  current_backoff =
      if leb node.current_backoff min_backoff then min_backoff else node.current_backoff;
  min_backoff = min_backoff;
}

unfoldable pub set_max_backoff : Node → ℕ → Node
set_max_backoff node max_backoff = record node {
  current_backoff =
      if leb node.current_backoff max_backoff then max_backoff else node.current_backoff;
  max_backoff = max_backoff;
}

abbrev the_channel : Option Channel → Channel → Channel
the_channel none made = made
the_channel (some held) made = held

-- `getChannel` writes the time to `__lastUsed`, a property that nothing reads.
unfoldable pub get_channel : Node → Channel × Node
get_channel node = (c, record node { use_count = node.use_count + 1; channel = some c })
  where
    c : Channel
    c = the_channel node.channel (record { target = node.address; cert = node.cert })

unfoldable pub is_healthy : Node → ℕ → Bool
is_healthy node now = leb node.readmit_time now

unfoldable pub increase_backoff : Node → ℕ → Node
increase_backoff node now =
    let backoff = min (node.current_backoff * 2) node.max_backoff in
    record node { current_backoff = backoff; readmit_time = now + backoff }

unfoldable pub decrease_backoff : Node → Node
decrease_backoff node = record node {
  current_backoff = max (node.current_backoff / 2) node.min_backoff;
}

-- `getRemainingTime() > t` for a time left; a negative remainder reads as 0.
unfoldable pub get_remaining_time : Node → ℕ
get_remaining_time node = node.readmit_time - node.last_used

unfoldable pub close : Node → Node
close node = record node { channel = none }
