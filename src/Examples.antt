-- ===== src/Examples.antt =====
-- Tests: the theorems at concrete inputs. Here is the data that they share.
mod Lists
mod Nodes
mod Networks
mod Requests
mod Contents
mod Ids
mod Amounts
mod Groups
mod Signatures
mod Subscriptions
mod Mnemonics
use hedera_sdk_js.Common.{ℕ, String, List, [], ◌∷◌, Option, none, some, Bool, true, false}
use hedera_sdk_js.NodeAddress.{Address}
use hedera_sdk_js.Node.{Node, new_node}
use hedera_sdk_js.Network.{Network, create}
use hedera_sdk_js.Network.Update.{Entries, install}

abbrev pub address : ℕ → Address
address port = record { host = "10.0.0.1"; port = port }

abbrev pub spare : Node
spare = new_node (address 0) "0.0.0" 0

abbrev pub zeros : ℕ → ℕ
zeros i = 0

abbrev pub two_entries : Entries
two_entries = (address 1, "0.0.3") ∷ (address 2, "0.0.4") ∷ []

-- A network of two healthy nodes, 0 and 1.
abbrev pub two_nodes : Network
two_nodes = install (create spare 0) two_entries 0 zeros
