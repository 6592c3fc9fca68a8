-- ===== src/Network.antt =====
-- client/ManagedNetwork.js and client/Network.js under src/: the nodes that a client knows.
-- Nodes are mutable objects that three containers share, so the state has a store of nodes, and
-- the containers hold references. The Map from account ids to nodes is an association list in
-- insertion order. `maxNodeAttempts` and `maxNodesPerTransaction` are only read if positive: 0
-- stands for every value that is not. Random numbers and the time are arguments. The state in
-- which an exception leaves the network is not kept.
pub mod Map
pub mod Removal
pub mod Readmission
pub mod Selection
pub mod Shuffle
pub mod Update
pub mod Configuration
use hedera_sdk_js.Common.{
  ℕ, zero, suc, ◌+◌, ◌*◌, ◌≡◌, refl, String, Bool, true, false, not, List, [], ◌∷◌, ◌++◌, Option,
  none, some, length, get_elem?, erase_idx, if◌then◌else◌, ◌==◌, ltb,
}
use hedera_sdk_js.Common.Outcome.{Outcome, returns, throws, ◌>>=◌}
use hedera_sdk_js.Node
use hedera_sdk_js.Node.{Node, ms, get_key}
use Map.{RefMap, map_get, map_set, map_delete}

pub record Network : Type 0 where
  pub store : ℕ → Node
  pub fresh : ℕ
  pub nodes : List ℕ
  pub healthy : List ℕ
  pub network : RefMap
  pub ledger_id : Option String
  pub min_backoff : ℕ
  pub max_backoff : ℕ
  pub max_node_attempts : ℕ
  pub node_min_readmit_period : ℕ
  pub node_max_readmit_period : ℕ
  pub earliest_readmit_time : ℕ
  pub max_nodes_per_transaction : ℕ
  pub transport_security : Bool

-- `type_error`: a property of `undefined` is read.
pub data NetworkError : Type 0 where
  type_error no_healthy_node : NetworkError

-- The constructor. No reference is in use, so the store may hold any node.
unfoldable pub create : Node → ℕ → Network
create any now = record {
  store = λ _. any;
  fresh = 0;
  nodes = [];
  healthy = [];
  network = [];
  ledger_id = none;
  min_backoff = 8000 * ms;
  max_backoff = 1000 * 60 * 60 * ms;
  max_node_attempts = 0;
  node_min_readmit_period = 8000 * ms;
  node_max_readmit_period = 1000 * 60 * 60 * ms;
  earliest_readmit_time = now + 8000 * ms;
  max_nodes_per_transaction = 0;
  transport_security = false;
}

abbrev pub update : (ℕ → Node) → ℕ → Node → ℕ → Node
update store r node q = if r == q then node else store q

abbrev pub key_of : Network → ℕ → String
key_of n r = get_key (n.store r)

-- `this._network.get(key).splice(j, 1)` at the first `j` that holds the node.
unfoldable pub remove_first : ℕ → List ℕ → List ℕ
remove_first r [] = []
remove_first r (x ∷ xs) = if x == r then xs else x ∷ remove_first r xs

pub without_node : Network → ℕ → List ℕ → Network
without_node n r [] = record n { network = map_delete (key_of n r) n.network }
without_node n r (x ∷ xs) = record n { network = map_set (key_of n r) (x ∷ xs) n.network }

unfoldable pub remove_node_from_network : Network → ℕ → Outcome NetworkError Network
unfolding without_node remove_first
remove_node_from_network n r = elim (map_get (key_of n r) n.network) [
  | none ↦ throws type_error
  | some refs ↦ returns (without_node n r (remove_first r refs))
]

unfoldable pub close_node : Network → ℕ → Outcome NetworkError Network
unfolding remove_node_from_network
close_node n i = elim (get_elem? n.nodes i) [
  | none ↦ throws type_error
  | some r ↦ do
    m ← remove_node_from_network (record n { store = update n.store r (Node.close (n.store r)) }) r
    returns (record m { nodes = erase_idx m.nodes i })
]

close_all : (ℕ → Node) → List ℕ → ℕ → Node
close_all store [] = store
close_all store (r ∷ rs) = close_all (update store r (Node.close (store r))) rs

-- `close` leaves the list of healthy nodes as it is.
unfoldable pub close : Network → Network
unfolding close_all
close n = record n { store = close_all n.store n.nodes; network = []; nodes = [] }
