-- ===== src/Network/Configuration.antt =====
-- The settings of client/ManagedNetwork.js and client/Network.js under src/. A ledger id is kept as
-- its text; the deprecated `setNetworkName`, which attaches address book entries, is left out.
use hedera_sdk_js.Common.{
  ℕ, ◌+◌, ◌≤◌, ◌≡◌, refl, true, String, List, [], ◌∷◌, Option, includes, Distinct, if◌then◌else◌,
  arith,
}
use hedera_sdk_js.Node
use hedera_sdk_js.Node.{Node}
use hedera_sdk_js.Network.{Network, update}

unfoldable pub for_nodes : (Node → Node) → List ℕ → (ℕ → Node) → ℕ → Node
for_nodes f [] store = store
for_nodes f (r ∷ rs) store = for_nodes f rs (update store r (f (store r)))

unfoldable pub set_ledger_id : Network → Option String → Network
set_ledger_id n ledger_id = record n { ledger_id = ledger_id }

unfoldable pub set_max_node_attempts : Network → ℕ → Network
set_max_node_attempts n attempts = record n { max_node_attempts = attempts }

unfoldable pub set_max_nodes_per_transaction : Network → ℕ → Network
set_max_nodes_per_transaction n count = record n { max_nodes_per_transaction = count }

unfoldable pub set_min_backoff : Network → ℕ → Network
unfolding for_nodes Node.set_min_backoff
set_min_backoff n min_backoff = record n {
  min_backoff = min_backoff;
  store = for_nodes (λ node. Node.set_min_backoff node min_backoff) n.nodes n.store;
}

unfoldable pub set_max_backoff : Network → ℕ → Network
unfolding for_nodes Node.set_max_backoff
set_max_backoff n max_backoff = record n {
  max_backoff = max_backoff;
  store = for_nodes (λ node. Node.set_max_backoff node max_backoff) n.nodes n.store;
}

unfoldable pub set_node_min_readmit_period : Network → ℕ → ℕ → Network
set_node_min_readmit_period n period now = record n {
  node_min_readmit_period = period;
  earliest_readmit_time = now + period;
}

unfoldable pub set_node_max_readmit_period : Network → ℕ → Network
set_node_max_readmit_period n period = record n { node_max_readmit_period = period }

-- Each node of a list without repetitions is changed once, and no other node.
pub for_nodes_lem :
    (f : Node → Node) (rs : List ℕ) (store : ℕ → Node) (q : ℕ)
    → Distinct rs
    → for_nodes f rs store q ≡ (if includes rs q then f (store q) else store q)
unfolding for_nodes
for_nodes_lem f [] store q d = refl
for_nodes_lem f (r ∷ rs) store q d =
    ground (arith, for_nodes_lem f rs (update store r (f (store r))) q d.1)

-- If the nodes are listed without repetitions, setting the maximal backoff takes the current backoff
-- of each of them to that maximum at least, never makes it less than it was, and sets the maximum.
pub set_max_backoff-ge :
    (n : Network) (max_backoff q : ℕ)
    → Distinct n.nodes
    → includes n.nodes q ≡ true
    → (max_backoff ≤ ((set_max_backoff n max_backoff).store q).current_backoff)
      × ((n.store q).current_backoff ≤ ((set_max_backoff n max_backoff).store q).current_backoff)
      × (((set_max_backoff n max_backoff).store q).max_backoff ≡ max_backoff)
unfolding set_max_backoff
set_max_backoff-ge n max_backoff q d i = ground (
  arith,
  for_nodes_lem (λ (node : Node). Node.set_max_backoff node max_backoff) n.nodes n.store q d,
)
