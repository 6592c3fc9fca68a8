-- ===== src/Network/Update.antt =====
-- `ManagedNetwork._setNetwork` with `Network._getNodesToRemove` and `_createNodeFromNetworkEntry`,
-- and `Network.setTransportSecurity`, client/ManagedNetwork.js and client/Network.js under src/.
-- The new network is a Map from addresses to account ids, here a list of its entries in order.
pub mod Closing
pub mod Entries
pub mod Laws
pub mod Indexing
use hedera_sdk_js.Common.{
  ℕ, zero, suc, ◌+◌, ◌≡◌, Bool, true, false, not, ◌&&◌, ◌||◌, String, List, [], ◌∷◌, ◌++◌, Option,
  none, some, length, get_elem?, select, if◌then◌else◌, str_eq, ◌==◌,
}
use hedera_sdk_js.Common.Outcome.{Outcome, returns, throws, ◌>>=◌}
use hedera_sdk_js.NodeAddress.{Address, address_eq}
use hedera_sdk_js.Node
use hedera_sdk_js.Node.{
  Node, get_key, new_node, set_min_backoff, is_healthy, to_secure, to_insecure,
}
use hedera_sdk_js.Network.{Network, NetworkError, update}
use hedera_sdk_js.Network.Map.{RefMap, map_get, map_set}
use hedera_sdk_js.Network.Removal.{close_nodes}
use hedera_sdk_js.Network.Shuffle.{shuffle}

abbrev pub Entries : Type 0
Entries = List (Address × String)

abbrev pub account_at : Address → Entries → Option String
account_at a [] = none
account_at a ((b, account) ∷ es) = if address_eq b a then some account else account_at a es

-- The network has the node's address, with the node's account.
abbrev pub stays : Entries → Node → Bool
stays es node = elim (account_at node.address es) [
  | none ↦ false
  | some account ↦ str_eq account node.account_id
]

-- The indexes below `i`, from the last to the first, of the nodes that fail `p`.
unfoldable pub indexes : (ℕ → Bool) → List ℕ → ℕ → List ℕ
indexes p xs zero = []
indexes p xs (suc i) = elim (get_elem? xs i) [
  | none ↦ indexes p xs i
  | some r ↦ if p r then indexes p xs i else i ∷ indexes p xs i
]

unfoldable pub get_nodes_to_remove : Network → Entries → List ℕ
unfolding indexes
get_nodes_to_remove n es = indexes (λ r. stays es (n.store r)) n.nodes (length n.nodes)

abbrev pub any : (ℕ → Bool) → List ℕ → Bool
any p [] = false
any p (r ∷ rs) = p r || any p rs

abbrev pub has_account : (ℕ → Node) → List ℕ → String → Bool
has_account store rs account = any (λ r. str_eq (store r).account_id account) rs

abbrev pub has_address : (ℕ → Node) → List ℕ → Address → Bool
has_address store rs a = any (λ r. address_eq (store r).address a) rs

-- The nodes, the store and the next free reference, while entries are added.
pub record Adding : Type 0 where
  pub store : ℕ → Node
  pub fresh : ℕ
  pub nodes : List ℕ

unfoldable pub create_node : Network → ℕ → Adding → Address → String → Adding
create_node n now s a account = record {
  store = update s.store s.fresh (set_min_backoff (new_node a account now) n.min_backoff);
  fresh = s.fresh + 1;
  nodes = s.nodes ++ s.fresh ∷ [];
}

-- `kept` are the nodes that were not closed: an entry is passed over if one of them has its
-- account and one of them has its address.
unfoldable pub add_entries : Network → ℕ → Adding → Entries → Adding
unfolding create_node
add_entries n now s [] = s
add_entries n now s ((a, account) ∷ es) =
    add_entries n now
      (if has_account n.store n.nodes account && has_address n.store n.nodes a
        then s
        else create_node n now s a account)
      es

abbrev pub or_empty : Option (List ℕ) → List ℕ
or_empty none = []
or_empty (some refs) = refs

unfoldable pub group : (ℕ → Node) → List ℕ → RefMap → RefMap
group store [] m = m
group store (r ∷ rs) m =
    let key = get_key (store r) in
    group store rs (map_set key (or_empty (map_get key m) ++ r ∷ []) m)

-- The last part of `_setNetwork`, once the old nodes are closed.
unfoldable pub install : Network → Entries → ℕ → (ℕ → ℕ) → Network
unfolding add_entries group shuffle
install n es now draws =
    let s = add_entries n now (record { store = n.store; fresh = n.fresh; nodes = n.nodes }) es in
    let nodes = shuffle draws s.nodes in
    let healthy = select (λ r. is_healthy (s.store r) now) nodes in
    record n {
      store = s.store;
      fresh = s.fresh;
      nodes = nodes;
      healthy = healthy;
      network = group s.store healthy [];
      ledger_id = none;
    }

unfoldable pub set_network : Network → Entries → ℕ → (ℕ → ℕ) → Outcome NetworkError Network
unfolding get_nodes_to_remove install
set_network n es now draws = do
  m ← close_nodes (get_nodes_to_remove n es) n
  returns (install m es now draws)

-- `setTransportSecurity`: each node is closed and replaced by a clone, in place. `setCert` does nothing.
unfoldable pub reconnect : Bool → Adding → List ℕ → Adding
reconnect secure s [] = s
reconnect secure s (r ∷ rs) =
    let old = Node.close (s.store r) in
    let new = if secure then to_secure old else to_insecure old in
    reconnect secure
      (record {
        store = update (update s.store r old) s.fresh new;
        fresh = s.fresh + 1;
        nodes = s.nodes ++ s.fresh ∷ [];
      })
      rs

abbrev bool_eq : Bool → Bool → Bool
bool_eq true b = b
bool_eq false b = not b

unfoldable pub set_transport_security : Network → Bool → Network
unfolding reconnect group
set_transport_security n secure =
    let s = reconnect secure (record { store = n.store; fresh = n.fresh; nodes = [] }) n.nodes in
    if bool_eq n.transport_security secure then n else record n {
      store = s.store;
      fresh = s.fresh;
      nodes = s.nodes;
      healthy = s.nodes;
      network = group s.store s.nodes [];
      transport_security = secure;
    }
