-- ===== src/Network/Update/Closing.antt =====
-- client/ManagedNetwork.js under src/: the nodes left after closing those not in the new network.
use hedera_sdk_js.Common.{
  ℕ, zero, suc, ◌≤◌, ◌<◌, ◌≡◌, refl, sym, ap, ◌∙◌, subst, Bool, List, [], ◌∷◌, ◌++◌, length,
  get_elem?, get_elem?-some, take, drop, erase_idx, length-erase_idx, select, arith, inl, inr,
  Bool-cases,
}
use hedera_sdk_js.Common.Outcome.{returns, ◌>>=◌, >>=-eq-returns}
use hedera_sdk_js.Network.{Network, close_node}
use hedera_sdk_js.Network.Removal.{close_nodes}
use hedera_sdk_js.Network.Removal.Laws.{
  Kept, Kept-refl, Kept-trans, close_node_lem, dead_round, living_round, returns-injective,
}
use hedera_sdk_js.Network.Removal.Totality.{Indexed, close_node-Indexed}
use hedera_sdk_js.Network.Update.{indexes}

get_elem?-erase_idx :
    (xs : List ℕ) (i j : ℕ) → j < i → get_elem? (erase_idx xs i) j ≡ get_elem? xs j
get_elem?-erase_idx [] i j h = refl
get_elem?-erase_idx (x ∷ xs) zero j h = absurd (omega arith)
get_elem?-erase_idx (x ∷ xs) (suc i) zero h = refl
get_elem?-erase_idx (x ∷ xs) (suc i) (suc j) h = get_elem?-erase_idx xs i j (omega arith)

indexes-erase_idx :
    (p : ℕ → Bool) (xs : List ℕ) (i j : ℕ) → j ≤ i → indexes p (erase_idx xs i) j ≡ indexes p xs j
unfolding indexes
indexes-erase_idx p xs i zero h = refl
indexes-erase_idx p xs i (suc j) h =
    ground
      (arith, get_elem?-erase_idx xs i j (omega arith), indexes-erase_idx p xs i j (omega arith))

-- Closing the nodes below `i` that fail `p` leaves those that pass.
pub close_nodes_lem :
    (p : ℕ → Bool) (i : ℕ) (n m : Network)
    → i ≤ length n.nodes
    → close_nodes (indexes p n.nodes i) n ≡ returns m
    → Kept n m × (m.nodes ≡ select p (take i n.nodes) ++ drop i n.nodes)
unfolding close_nodes indexes
close_nodes_lem p zero n m h e =
    subst (λ k. Kept n k × (k.nodes ≡ n.nodes)) (returns-injective e) (Kept-refl n, refl)
close_nodes_lem p (suc i) n m h e =
    let (r, at) = get_elem?-some n.nodes i h in
    elim (Bool-cases (p r)) [
      | inl stay ↦
          let going : close_nodes (indexes p n.nodes i) n ≡ returns m =
            rw (at, stay, indexes) at e in
          let (kept, left) = close_nodes_lem p i n m (omega arith) going in
          (kept, left ∙ living_round p n.nodes i r at stay)
      | inr leave ↦
          let closing : (close_node n i >>= close_nodes (indexes p n.nodes i)) ≡ returns m =
            rw (at, leave, indexes, close_nodes) at e in
          let (k, first, rest) =
            >>=-eq-returns (close_node n i) (close_nodes (indexes p n.nodes i)) closing in
          let (kept, nodes) = close_node_lem n i r k at first in
          let room : i ≤ length k.nodes =
            omega (arith, ap length nodes, length-erase_idx n.nodes i h) in
          let same : indexes p k.nodes i ≡ indexes p n.nodes i =
            ap (λ xs. indexes p xs i) nodes ∙ indexes-erase_idx p n.nodes i i (omega arith) in
          let (later, left) =
            close_nodes_lem p i k m room (ap (λ is. close_nodes is k) same ∙ rest) in
          (Kept-trans kept later, left ∙ rw nodes (dead_round p n.nodes i r at leave))
    ]

-- Nodes of an indexed network can be closed at descending indexes.
pub close_nodes-Indexed :
    (p : ℕ → Bool) (i : ℕ) (n : Network)
    → i ≤ length n.nodes
    → Indexed n
    → (m : Network) × (close_nodes (indexes p n.nodes i) n ≡ returns m) × Indexed m
unfolding close_nodes indexes
close_nodes-Indexed p zero n h x = (n, refl, x)
close_nodes-Indexed p (suc i) n h x =
    let (r, at) = get_elem?-some n.nodes i h in
    elim (Bool-cases (p r)) [
      | inl stay ↦
          let (m, rest, z) = close_nodes-Indexed p i n (omega arith) x in
          (m, rw (at, stay, indexes) rest, z)
      | inr leave ↦
          let (k, first, y, nodes) = close_node-Indexed n i r x at in
          let room : i ≤ length k.nodes =
            omega (arith, ap length nodes, length-erase_idx n.nodes i h) in
          let (m, rest, z) = close_nodes-Indexed p i k room y in
          let same : indexes p k.nodes i ≡ indexes p n.nodes i =
            ap (λ xs. indexes p xs i) nodes ∙ indexes-erase_idx p n.nodes i i (omega arith) in
          let chain : (close_node n i >>= close_nodes (indexes p n.nodes i)) ≡ returns m =
            ap (λ o. o >>= close_nodes (indexes p n.nodes i)) first
            ∙ ap (λ is. close_nodes is k) (sym same)
            ∙ rest in
          (m, rw (at, leave, indexes, close_nodes) chain, z)
    ]
