-- ===== src/Network/Removal/Laws.antt =====
-- client/ManagedNetwork.js under src/: which nodes are left after the removals, and when they fail.
use hedera_sdk_js.Common.{
  ℕ, zero, suc, ◌≤◌, ◌<◌, ◌≡◌, refl, sym, ap, ◌∙◌, subst, fun_ext, Bool, true, false, not, List, [],
  ◌∷◌, ◌++◌, none, some, length, get_elem?, get_elem?-some, length-erase_idx, take, drop, take_all,
  drop_all, erase_idx, select, if◌then◌else◌, ltb, arith, inl, inr, Option-cases, Bool-cases,
  append-nil, lt→ltb,
}
use hedera_sdk_js.Common.Outcome.{Outcome, returns, throws, ◌>>=◌, >>=-eq-returns}
use hedera_sdk_js.Node
use hedera_sdk_js.Node.{Node}
use hedera_sdk_js.Network.{
  Network, NetworkError, type_error, close_node, key_of, update, without_node,
  remove_node_from_network, remove_first,
}
use hedera_sdk_js.Network.Map.{map_get}
use hedera_sdk_js.Network.Removal.{is_dead, remove_dead_loop, remove_dead_nodes}

-- What closing nodes leaves alone: every node but for its channel, and the healthy nodes.
pub record Kept (n m : Network) : Type 0 where
  pub same : (q : ℕ) → Node.close (m.store q) ≡ Node.close (n.store q)
  pub healthy : m.healthy ≡ n.healthy
  pub fresh : m.fresh ≡ n.fresh
  pub attempts : m.max_node_attempts ≡ n.max_node_attempts

pub Kept-refl : (n : Network) → Kept n n
Kept-refl n = record { same = λ q. refl; healthy = refl; fresh = refl; attempts = refl }

pub Kept-trans : {n m k : Network} → Kept n m → Kept m k → Kept n k
Kept-trans a b = record {
  same = λ q. b.same q ∙ a.same q;
  healthy = b.healthy ∙ a.healthy;
  fresh = b.fresh ∙ a.fresh;
  attempts = b.attempts ∙ a.attempts;
}

close-update :
    (store : ℕ → Node) (r q : ℕ)
    → Node.close (update store r (Node.close (store r)) q) ≡ Node.close (store q)
unfolding Node.close
close-update store r q = ground arith

pub returns-injective :
    {m k : Network} → ◌≡◌ {A = Outcome NetworkError Network} (returns m) (returns k) → m ≡ k
returns-injective e = cc

-- The network that holds the closed node's object.
abbrev pub closed : Network → ℕ → Network
closed n r = record n { store = update n.store r (Node.close (n.store r)) }

pub key_of-closed : (n : Network) (r : ℕ) → key_of (closed n r) r ≡ key_of n r
unfolding Node.close
key_of-closed n r = ground arith

-- Closing the i-th node fails exactly if its account is not in the map of accounts.
pub close_node_fails :
    (n : Network) (i r : ℕ)
    → get_elem? n.nodes i ≡ some r
    → map_get (key_of n r) n.network ≡ none
    → close_node n i ≡ throws type_error
unfolding close_node
close_node_fails n i r e h =
    let lost : map_get (key_of (closed n r) r) n.network ≡ none =
      ap (λ k. map_get k n.network) (key_of-closed n r) ∙ h in
    rw (e, close_node) (rw (lost, remove_node_from_network))

-- The network after the i-th node, `r`, was taken out of the list of its account.
abbrev pub dropped : Network → ℕ → ℕ → List ℕ → Network
dropped n i r refs =
    let w = without_node (closed n r) r refs in record w { nodes = erase_idx w.nodes i }

pub close_node_works :
    (n : Network) (i r : ℕ) (refs : List ℕ)
    → get_elem? n.nodes i ≡ some r
    → map_get (key_of (closed n r) r) n.network ≡ some refs
    → close_node n i ≡ returns (dropped n i r (remove_first r refs))
unfolding close_node
close_node_works n i r refs e found = rw (e, close_node) (rw (found, remove_node_from_network))

dropped-Kept :
    (n : Network) (i r : ℕ) (refs : List ℕ)
    → Kept n (dropped n i r refs) × ((dropped n i r refs).nodes ≡ erase_idx n.nodes i)
unfolding without_node
dropped-Kept n i r [] =
    (record { same = close-update n.store r; healthy = refl; fresh = refl; attempts = refl }, refl)
dropped-Kept n i r (x ∷ xs) =
    (record { same = close-update n.store r; healthy = refl; fresh = refl; attempts = refl }, refl)

pub close_node_lem :
    (n : Network) (i r : ℕ) (m : Network)
    → get_elem? n.nodes i ≡ some r
    → close_node n i ≡ returns m
    → Kept n m × (m.nodes ≡ erase_idx n.nodes i)
close_node_lem n i r m e h = elim (Option-cases (map_get (key_of (closed n r) r) n.network)) [
  | inl lost ↦
      cc (close_node_fails n i r e (ap (λ k. map_get k n.network) (sym (key_of-closed n r)) ∙ lost))
  | inr (refs, found) ↦
      subst (λ k. Kept n k × (k.nodes ≡ erase_idx n.nodes i))
        (returns-injective (sym (close_node_works n i r refs e found) ∙ h))
        (dropped-Kept n i r (remove_first r refs))
]

-- Going down from the end, the loop replaces the part that it has seen by its living nodes.
select-take :
    (p : ℕ → Bool) (xs : List ℕ) (i r : ℕ)
    → get_elem? xs i ≡ some r
    → select p (take (suc i) xs) ++ drop (suc i) xs
      ≡ select p (take i xs) ++ (if p r then r ∷ drop (suc i) xs else drop (suc i) xs)
select-take p [] i r e = cc
select-take p (x ∷ xs) zero r e = ground arith
select-take p (x ∷ xs) (suc i) r e = ground (arith, select-take p xs i r e)

take-erase_idx : (xs : List ℕ) (i : ℕ) → take i (erase_idx xs i) ≡ take i xs
take-erase_idx [] i = refl
take-erase_idx (x ∷ xs) zero = refl
take-erase_idx (x ∷ xs) (suc i) = ap (◌∷◌ x) (take-erase_idx xs i)

drop-erase_idx : (xs : List ℕ) (i : ℕ) → drop i (erase_idx xs i) ≡ drop (suc i) xs
drop-erase_idx [] zero = refl
drop-erase_idx [] (suc i) = refl
drop-erase_idx (x ∷ xs) zero = refl
drop-erase_idx (x ∷ xs) (suc i) = drop-erase_idx xs i

drop-get_elem? : (xs : List ℕ) (i r : ℕ) → get_elem? xs i ≡ some r → drop i xs ≡ r ∷ drop (suc i) xs
drop-get_elem? [] i r e = cc
drop-get_elem? (x ∷ xs) zero r e = ground arith
drop-get_elem? (x ∷ xs) (suc i) r e = drop-get_elem? xs i r e

bad_count-Kept :
    (n m : Network) (r : ℕ)
    → Kept n m
    → (m.store r).bad_grpc_status_count ≡ (n.store r).bad_grpc_status_count
unfolding Node.close
bad_count-Kept n m r k = ap (λ (x : Node). x.bad_grpc_status_count) (k.same r)

is_dead-Kept :
    (n m : Network) (r : ℕ)
    → Kept n m
    → is_dead m.max_node_attempts m.store r ≡ is_dead n.max_node_attempts n.store r
is_dead-Kept n m r k = rw (k.attempts, bad_count-Kept n m r k)

abbrev living : Network → ℕ → Bool
living n r = not (is_dead n.max_node_attempts n.store r)

living_lem :
    (n : Network) → living n ≡ (λ r. ltb (n.store r).bad_grpc_status_count n.max_node_attempts)
living_lem n = fun_ext λ r. ground arith

living-Kept : (n m : Network) → Kept n m → living m ≡ living n
living-Kept n m k = fun_ext λ r. ap not (is_dead-Kept n m r k)

-- A round that closes the i-th node, and one that keeps it.
pub dead_round :
    (p : ℕ → Bool) (xs : List ℕ) (i r : ℕ)
    → get_elem? xs i ≡ some r
    → p r ≡ false
    → select p (take i (erase_idx xs i)) ++ drop i (erase_idx xs i)
      ≡ select p (take (suc i) xs) ++ drop (suc i) xs
dead_round p xs i r e dead =
    rw (take-erase_idx xs i, drop-erase_idx xs i) (sym (rw dead at (select-take p xs i r e)))

pub living_round :
    (p : ℕ → Bool) (xs : List ℕ) (i r : ℕ)
    → get_elem? xs i ≡ some r
    → p r ≡ true
    → select p (take i xs) ++ drop i xs ≡ select p (take (suc i) xs) ++ drop (suc i) xs
living_round p xs i r e alive =
    rw (drop-get_elem? xs i r e) (sym (rw alive at (select-take p xs i r e)))

-- The rest of the loop, after a round that closed a node.
dead_case :
    (n k m : Network) (i r : ℕ)
    → get_elem? n.nodes i ≡ some r
    → is_dead n.max_node_attempts n.store r ≡ true
    → Kept n k
    → k.nodes ≡ erase_idx n.nodes i
    → Kept k m
    → m.nodes ≡ select (living k) (take i k.nodes) ++ drop i k.nodes
    → Kept n m × (m.nodes ≡ select (living n) (take (suc i) n.nodes) ++ drop (suc i) n.nodes)
dead_case n k m i r at dead kept nodes later left = (
  Kept-trans kept later,
  left ∙ rw (living-Kept n k kept, nodes) (dead_round (living n) n.nodes i r at (ap not dead)),
)

remove_dead_loop_lem :
    (i : ℕ) (n m : Network)
    → i ≤ length n.nodes
    → remove_dead_loop i n ≡ returns m
    → Kept n m × (m.nodes ≡ select (living n) (take i n.nodes) ++ drop i n.nodes)
unfolding remove_dead_loop
remove_dead_loop_lem zero n m h e =
    subst (λ k. Kept n k × (k.nodes ≡ n.nodes)) (returns-injective e) (Kept-refl n, refl)
remove_dead_loop_lem (suc i) n m h e =
    let (r, at) = get_elem?-some n.nodes i h in
    elim (Bool-cases (is_dead n.max_node_attempts n.store r)) [
      | inl dead ↦
          let closing : (close_node n i >>= remove_dead_loop i) ≡ returns m =
            rw (at, dead, remove_dead_loop) at e in
          let (k, first, rest) = >>=-eq-returns (close_node n i) (remove_dead_loop i) closing in
          let (kept, nodes) = close_node_lem n i r k at first in
          let room : i ≤ length k.nodes =
            omega (arith, ap length nodes, length-erase_idx n.nodes i h) in
          let (later, left) = remove_dead_loop_lem i k m room rest in
          dead_case n k m i r at dead kept nodes later left
      | inr alive ↦
          let going : remove_dead_loop i n ≡ returns m = rw (at, alive, remove_dead_loop) at e in
          let (kept, left) = remove_dead_loop_lem i n m (omega arith) going in
          (kept, left ∙ living_round (living n) n.nodes i r at (ap not alive))
    ]

-- When `_removeDeadNodes` with a positive limit returns, the nodes left are those, in their order,
-- whose count of bad statuses is below the limit; nothing of a node but its channel has changed, and
-- the list of healthy nodes is as before, closed nodes included.
pub remove_dead_nodes_lem :
    (n m : Network) (q : ℕ)
    → 0 < n.max_node_attempts
    → remove_dead_nodes n ≡ returns m
    → (m.nodes ≡ select (λ r. ltb (n.store r).bad_grpc_status_count n.max_node_attempts) n.nodes)
      × (m.healthy ≡ n.healthy)
      × (Node.close (m.store q) ≡ Node.close (n.store q))
unfolding remove_dead_nodes
remove_dead_nodes_lem n m q h e =
    let loop : remove_dead_loop (length n.nodes) n ≡ returns m = rw (lt→ltb _ _ h) at e in
    let (kept, nodes) = remove_dead_loop_lem (length n.nodes) n m (omega arith) loop in
    (
      nodes
          ∙ rw
              (
                take_all (length n.nodes) n.nodes (omega arith),
                drop_all (length n.nodes) n.nodes (omega arith),
              )
              (append-nil _ ∙ ap (λ p. select p n.nodes) (living_lem n)),
      kept.healthy,
      kept.same q,
    )
