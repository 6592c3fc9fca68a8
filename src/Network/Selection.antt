-- ===== src/Network/Selection.antt =====
-- The choice of nodes for a request, client/ManagedNetwork.js and client/Network.js under src/.
-- `draws` gives the random numbers, one for each call of `Math.random()` in order.
pub mod Laws
use hedera_sdk_js.Common.{
  ℕ, zero, suc, ◌+◌, ◌-◌, ◌/◌, min, Bool, true, false, not, String, List, [], ◌∷◌, map, Option,
  none, some, length, get_elem?, select, if◌then◌else◌, leb, ltb, str_eq, random_below,
}
use hedera_sdk_js.Common.Outcome.{Outcome, returns, throws, ◌>>=◌}
use hedera_sdk_js.Node.{Node, get_key}
use hedera_sdk_js.Network.{Network, NetworkError, type_error, no_healthy_node, key_of}
use hedera_sdk_js.Network.Map.{RefMap, map_get}
use hedera_sdk_js.Network.Removal.{remove_dead_nodes}
use hedera_sdk_js.Network.Readmission.{readmit_nodes}

-- The loop over `count` rounds: `round` counts them from 0.
unfoldable pub pick_loop : (ℕ → Node) → (ℕ → ℕ) → ℕ → ℕ → List ℕ → List ℕ
pick_loop store draws round zero healthy = []
pick_loop store draws round (suc left) healthy =
    elim (get_elem? healthy (random_below (draws round) (length healthy))) [
      | none ↦ []
      | some r ↦
          r
          ∷ pick_loop store draws (round + 1) left
              (select (λ q. not (str_eq (get_key (store q)) (get_key (store r)))) healthy)
    ]

-- The nodes, and the network after the removals and readmissions.
unfoldable pub get_number_of_most_healthy_nodes :
    Network → ℕ → ℕ → (ℕ → ℕ) → Outcome NetworkError (List ℕ × Network)
unfolding pick_loop
get_number_of_most_healthy_nodes n count now draws = do
  m ← remove_dead_nodes n
  let k = readmit_nodes m now
  returns (pick_loop k.store draws 0 (min count (length k.healthy)) k.healthy, k)

unfoldable pub get_number_of_nodes_for_transaction : Network → ℕ
get_number_of_nodes_for_transaction n =
    if ltb 0 n.max_nodes_per_transaction
    then n.max_nodes_per_transaction
    else if leb (length n.nodes) 9
    then length n.nodes
    else (length n.nodes + 3 - 1) / 3

unfoldable pub get_node_account_ids_for_execute :
    Network → ℕ → (ℕ → ℕ) → Outcome NetworkError (List String × Network)
unfolding get_number_of_most_healthy_nodes get_number_of_nodes_for_transaction
get_node_account_ids_for_execute n now draws = do
  (rs, m) ← get_number_of_most_healthy_nodes n (get_number_of_nodes_for_transaction n) now draws
  returns (map (key_of m) rs, m)

abbrev pub values : RefMap → List (List ℕ)
values [] = []
values ((k, refs) ∷ m) = refs ∷ values m

-- `network[randomAccountId][random]`, over all the accounts.
unfoldable pub random_node : RefMap → ℕ → ℕ → Outcome NetworkError (Option ℕ)
random_node m draw₀ draw₁ = elim (get_elem? (values m) (random_below draw₀ (length (values m)))) [
  | none ↦ throws type_error
  | some refs ↦ returns (get_elem? refs (random_below draw₁ (length refs)))
]

-- `getNode(key)`. An account that the network does not know is replaced by a random one.
unfoldable pub get_node_for : Network → String → (ℕ → ℕ) → Outcome NetworkError (Option ℕ)
unfolding random_node
get_node_for n key draws = elim (map_get key n.network) [
  | none ↦ random_node n.network (draws 0) (draws 1)
  | some refs ↦ returns (get_elem? refs (random_below (draws 0) (length refs)))
]

-- `getNode()`.
unfoldable pub get_any_node : Network → (ℕ → ℕ) → Outcome NetworkError (Option ℕ)
get_any_node n draws =
    if leb (length n.healthy) 0
    then throws no_healthy_node
    else returns (get_elem? n.healthy (random_below (draws 0) (length n.healthy)))

unfoldable pub get_node :
    Network → Option String → ℕ → (ℕ → ℕ) → Outcome NetworkError (Option ℕ × Network)
unfolding get_node_for get_any_node
get_node n none now draws = do
  r ← get_any_node (readmit_nodes n now) draws
  returns (r, readmit_nodes n now)
get_node n (some key) now draws = do
  r ← get_node_for (readmit_nodes n now) key draws
  returns (r, readmit_nodes n now)
