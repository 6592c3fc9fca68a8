-- ===== src/Examples/Networks.antt =====
-- ManagedNetwork.js and Network.js under src/ at concrete inputs.
use hedera_sdk_js.Common.{
  ℕ, ◌≡◌, ◌≤◌, refl, sym, ◌*◌, ◌+◌, ◌^◌, min, String, Bool, true, false, not, ◌||◌, ◌&&◌, List, [],
  ◌∷◌, Option, none, some, arith, length, select, includes, Distinct, count, ltb, leb, ◌==◌, str_eq,
  if◌then◌else◌, All,
}
use hedera_sdk_js.Common.Outcome.{returns, throws}
use hedera_sdk_js.Node.{Node, ms, new_node}
use hedera_sdk_js.Node
use hedera_sdk_js.Network.{Network, type_error, create, key_of}
use hedera_sdk_js.Network.Map.{map_get}
use hedera_sdk_js.Network.Update.{install, set_network, or_empty, Entries}
use hedera_sdk_js.Network.Update.Entries.{serves}
use hedera_sdk_js.Network.Update.Laws.{set_network_lem, install-network}
use hedera_sdk_js.Network.Removal.{remove_dead_nodes}
use hedera_sdk_js.Network.Removal.Totality.{Indexed, remove_dead_nodes-Indexed}
use hedera_sdk_js.Network.Removal.Laws.{remove_dead_nodes_lem}
use hedera_sdk_js.Network.Readmission.{readmit_nodes, increase_backoff}
use hedera_sdk_js.Network.Readmission.Laws.{readmit_nodes-includes, increase_backoff_lem}
use hedera_sdk_js.Network.Update.Indexing.{set_network-Indexed}
use hedera_sdk_js.Network.Selection.{pick_loop}
use hedera_sdk_js.Network.Selection.Laws.{pick_loop_lem, KeysDistinct, Sub}
use hedera_sdk_js.Network.Shuffle.{shuffle, count-shuffle}
use hedera_sdk_js.Network.Configuration.{set_max_backoff, set_max_backoff-ge}
use hedera_sdk_js.Examples.{address, spare, zeros, two_entries, two_nodes}

-- Node 0 is to be removed, node 1 stays, and a third node is new.
abbrev moved_entries : Entries
moved_entries = (address 2, "0.0.4") ∷ (address 3, "0.0.5") ∷ []

two_nodes-Indexed : Indexed two_nodes
unfolding install create hedera_sdk_js.Common.random_below map_get Node.is_healthy
    Node.set_min_backoff new_node hedera_sdk_js.Network.Map.map_set
two_nodes-Indexed = record { distinct = (refl, (refl, tt)); listed = (refl, (refl, tt)) }

set_network_lem_example :
    (m : Network) × (set_network two_nodes moved_entries 1 zeros ≡ returns m)
    × (serves m.store m.nodes (address 3) "0.0.5" ≡ true)
unfolding install create hedera_sdk_js.Common.random_below
set_network_lem_example =
    set_network_lem two_nodes moved_entries 1 zeros (address 3) "0.0.5" two_nodes-Indexed
      (refl, (refl, tt)) (omega arith, (omega arith, tt))

set_network-Indexed_example : Indexed two_nodes
unfolding install create set_network hedera_sdk_js.Network.Removal.close_nodes
    hedera_sdk_js.Common.random_below Node.set_min_backoff new_node
set_network-Indexed_example =
    set_network-Indexed (create spare 0) two_nodes two_entries 0 zeros tt tt refl (refl, (refl, tt))

-- A node that is backed off when the network is set is in no list, and cannot be removed later.
set_network-backed_off :
    set_network (install (increase_backoff two_nodes 1 7) two_entries 8 zeros) [] 9 zeros
    ≡ throws type_error
unfolding set_network install create hedera_sdk_js.Network.Removal.close_nodes increase_backoff
    hedera_sdk_js.Common.random_below Node.increase_backoff Node.set_min_backoff new_node
    hedera_sdk_js.Network.close_node map_get Node.is_healthy hedera_sdk_js.Network.Map.map_set
    Node.close
set_network-backed_off = refl

install-network_example :
    (or_empty (map_get "0.0.4" two_nodes.network)
      ≡ select (λ r. str_eq (key_of two_nodes r) "0.0.4") two_nodes.healthy)
    × (two_nodes.healthy ≡ select (λ r. leb (two_nodes.store r).readmit_time 0) two_nodes.nodes)
install-network_example = install-network (create spare 0) two_entries 0 zeros "0.0.4"

-- Node 0 answered badly three times, and two are allowed.
abbrev failing : Network
failing = record two_nodes {
  max_node_attempts = 2;
  store = λ (r : ℕ). record (two_nodes.store r) { bad_grpc_status_count = if r == 0 then 3 else 0 };
}

abbrev survived : Network
survived = record failing {
  nodes = 1 ∷ [];
  network = ("0.0.4", 1 ∷ []) ∷ [];
  store = λ (r : ℕ). if 0 == r then Node.close (failing.store 0) else failing.store r;
}

remove_dead_nodes_lem_example :
    (survived.nodes ≡ select (λ r. ltb (failing.store r).bad_grpc_status_count 2) failing.nodes)
    × (survived.healthy ≡ failing.healthy)
    × (Node.close (survived.store 0) ≡ Node.close (failing.store 0))
unfolding remove_dead_nodes install create hedera_sdk_js.Common.random_below
    hedera_sdk_js.Network.close_node map_get Node.is_healthy Node.set_min_backoff new_node
    hedera_sdk_js.Network.Map.map_set Node.close hedera_sdk_js.Network.Map.map_delete
remove_dead_nodes_lem_example = remove_dead_nodes_lem failing survived 0 (omega arith) refl

-- Node 1 failed at time 7.
abbrev backed_off : Network
backed_off = increase_backoff two_nodes 1 7

increase_backoff_lem_example :
    (backed_off.healthy ≡ 0 ∷ [])
    × ((backed_off.store 1).readmit_time ≡ 7 + 16000 * ms)
    × (backed_off.store 0 ≡ two_nodes.store 0)
unfolding install create hedera_sdk_js.Common.random_below Node.is_healthy Node.set_min_backoff
    new_node
increase_backoff_lem_example = increase_backoff_lem two_nodes 1 7 0 (refl, (refl, tt))

readmit_nodes-includes_example : includes (readmit_nodes backed_off (16001 * ms)).healthy 1 ≡ true
unfolding increase_backoff install create hedera_sdk_js.Common.random_below Node.is_healthy
    Node.set_min_backoff new_node Node.increase_backoff
readmit_nodes-includes_example = readmit_nodes-includes backed_off (16001 * ms) 1 (omega arith)

pick_loop_lem_example :
    (length (pick_loop two_nodes.store zeros 0 1 two_nodes.healthy) ≤ 1)
    × Sub (pick_loop two_nodes.store zeros 0 1 two_nodes.healthy) two_nodes.healthy
    × KeysDistinct two_nodes.store (pick_loop two_nodes.store zeros 0 1 two_nodes.healthy)
pick_loop_lem_example = pick_loop_lem two_nodes.store zeros 0 1 two_nodes.healthy

-- Ten nodes.
abbrev ten_nodes : Network
ten_nodes = record two_nodes { nodes = 0 ∷ 1 ∷ 2 ∷ 3 ∷ 4 ∷ 5 ∷ 6 ∷ 7 ∷ 8 ∷ 9 ∷ [] }

count-shuffle_example : count 4 (shuffle zeros (4 ∷ 5 ∷ 4 ∷ 6 ∷ [])) ≡ 2
count-shuffle_example = count-shuffle zeros (4 ∷ 5 ∷ 4 ∷ 6 ∷ []) 4

-- A maximum below the backoff of a node that failed.
set_max_backoff-ge_example :
    (9000 * ms ≤ ((set_max_backoff backed_off (9000 * ms)).store 1).current_backoff)
    × ((backed_off.store 1).current_backoff
        ≤ ((set_max_backoff backed_off (9000 * ms)).store 1).current_backoff)
    × (((set_max_backoff backed_off (9000 * ms)).store 1).max_backoff ≡ 9000 * ms)
unfolding increase_backoff install create hedera_sdk_js.Common.random_below
set_max_backoff-ge_example = set_max_backoff-ge backed_off (9000 * ms) 1 (refl, (refl, tt)) refl

failing-Indexed : Indexed failing
unfolding install create hedera_sdk_js.Common.random_below map_get Node.is_healthy
    Node.set_min_backoff new_node hedera_sdk_js.Network.Map.map_set
failing-Indexed = record { distinct = (refl, (refl, tt)); listed = (refl, (refl, tt)) }

remove_dead_nodes-Indexed_example :
    (m : Network) × (remove_dead_nodes failing ≡ returns m) × Indexed m
remove_dead_nodes-Indexed_example = remove_dead_nodes-Indexed failing failing-Indexed
