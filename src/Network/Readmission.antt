-- ===== src/Network/Readmission.antt =====
-- `ManagedNetwork._readmitNodes`, which client/ManagedNetwork.js under src/ calls before a node is
-- chosen, and `increaseBackoff`, which takes a failed node out of the healthy ones.
pub mod Laws
use hedera_sdk_js.Common.{
  ℕ, zero, suc, ◌+◌, ◌-◌, ◌*◌, ◌^◌, min, max, Bool, true, false, ◌&&◌, List, [], ◌∷◌, ◌++◌,
  if◌then◌else◌, ◌==◌, leb, ltb,
}
use hedera_sdk_js.Node
use hedera_sdk_js.Node.{Node, ms}
use hedera_sdk_js.Network.{Network, update}

-- `Number.MAX_SAFE_INTEGER`, in ticks.
abbrev pub max_safe_integer : ℕ
max_safe_integer = (2 ^ 53 - 1) * ms

-- The inner loop: whether the node is among the healthy ones, and the next readmit time so far.
unfoldable pub find_healthy : ℕ → ℕ → ℕ → Bool → List ℕ → ℕ → Bool × ℕ
find_healthy r readmit now searching [] next = (false, next)
find_healthy r readmit now searching (h ∷ hs) next =
    let next' = if searching && ltb now readmit then min readmit next else next in
    let rest = find_healthy r readmit now searching hs next' in
    if r == h then (true, next') else rest

-- The outer loop.
unfoldable pub readmit_loop : (ℕ → Node) → ℕ → List ℕ → List ℕ → ℕ → Bool → List ℕ × ℕ
readmit_loop store now [] healthy next searching = (healthy, next)
readmit_loop store now (r ∷ rs) healthy next searching =
    let readmit = (store r).readmit_time in
    let (found, next') = find_healthy r readmit now searching healthy next in
    let push = if found then false else leb readmit now in
    readmit_loop store now rs (if push then healthy ++ r ∷ [] else healthy) next'
      (if found then searching else false)

unfoldable pub readmit_nodes : Network → ℕ → Network
unfolding readmit_loop find_healthy
readmit_nodes n now =
    if leb n.earliest_readmit_time now
    then (let (healthy, next) = readmit_loop n.store now n.nodes n.healthy max_safe_integer true in
        record n {
          healthy = healthy;
          earliest_readmit_time =
              min (max next n.node_min_readmit_period) n.node_max_readmit_period;
        })
    else n

-- `for (i = 0; …; i++) if (healthy[i] == node) healthy.splice(i, 1)`: after a splice the element
-- that moved up to `i` is passed over.
unfoldable pub drop_healthy : ℕ → List ℕ → List ℕ
drop_healthy r [] = []
drop_healthy r (h ∷ []) = if h == r then [] else h ∷ []
drop_healthy r (h ∷ k ∷ hs) = elim (h == r) [
  | true ↦ k ∷ drop_healthy r hs
  | false ↦ h ∷ drop_healthy r (k ∷ hs)
]

unfoldable pub increase_backoff : Network → ℕ → ℕ → Network
unfolding drop_healthy
increase_backoff n r now = record n {
  store = update n.store r (Node.increase_backoff (n.store r) now);
  healthy = drop_healthy r n.healthy;
}

unfoldable pub decrease_backoff : Network → ℕ → Network
decrease_backoff n r = record n { store = update n.store r (Node.decrease_backoff (n.store r)) }
