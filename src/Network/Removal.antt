-- ===== src/Network/Removal.antt =====
-- `ManagedNetwork._removeDeadNodes`, client/ManagedNetwork.js under src/, and the loop of
-- `_setNetwork` that closes the nodes at given indexes.
pub mod Laws
pub mod Totality
use hedera_sdk_js.Common.{
  ℕ, zero, suc, Bool, true, false, not, List, [], ◌∷◌, Option, none, some, length, get_elem?, ltb,
  if◌then◌else◌,
}
use hedera_sdk_js.Common.Outcome.{Outcome, returns, throws, ◌>>=◌}
use hedera_sdk_js.Node.{Node}
use hedera_sdk_js.Network.{Network, NetworkError, close_node}

-- `for (const i of indexes) this._closeNode(i)`.
unfoldable pub close_nodes : List ℕ → Network → Outcome NetworkError Network
close_nodes [] n = returns n
close_nodes (i ∷ is) n = close_node n i >>= close_nodes is

-- `!(node._badGrpcStatusCount < this._maxNodeAttempts)`.
abbrev pub is_dead : ℕ → (ℕ → Node) → ℕ → Bool
is_dead attempts store r = not (ltb (store r).bad_grpc_status_count attempts)

abbrev pub dead_at : Network → ℕ → Bool
dead_at n i = elim (get_elem? n.nodes i) [
  | none ↦ false
  | some r ↦ is_dead n.max_node_attempts n.store r
]

-- `for (let i = …; i >= 0; i--)`: the argument is `i + 1`.
unfoldable pub remove_dead_loop : ℕ → Network → Outcome NetworkError Network
remove_dead_loop zero n = returns n
remove_dead_loop (suc i) n = elim (dead_at n i) [
  | true ↦ close_node n i >>= remove_dead_loop i
  | false ↦ remove_dead_loop i n
]

unfoldable pub remove_dead_nodes : Network → Outcome NetworkError Network
unfolding remove_dead_loop
remove_dead_nodes n =
    let loop = remove_dead_loop (length n.nodes) n in
    if ltb 0 n.max_node_attempts then loop else returns n
