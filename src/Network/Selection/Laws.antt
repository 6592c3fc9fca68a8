-- ===== src/Network/Selection/Laws.antt =====
-- client/ManagedNetwork.js and client/Network.js under src/: what the choice of nodes guarantees.
use hedera_sdk_js.Common.{
  ℕ, zero, suc, ◌+◌, ◌*◌, ◌≤◌, ◌<◌, ◌≡◌, refl, min, Bool, true, false, not, String, List, [], ◌∷◌,
  length, get_elem?, select, if◌then◌else◌, arith, includes, includes-get_elem?, includes-select,
  All, str_eq, eq_iff, random_below, random_below-lt, get_elem?-some, Option-cases, inl, inr,
}
use hedera_sdk_js.Node.{Node, get_key}
use hedera_sdk_js.Network.{Network}
use hedera_sdk_js.Network.Selection.{pick_loop, get_number_of_nodes_for_transaction}

-- `key` is the account of one of the nodes.
abbrev pub has_key : (ℕ → Node) → List ℕ → String → Bool
has_key store [] key = false
has_key store (r ∷ rs) key = if str_eq (get_key (store r)) key then true else has_key store rs key

-- No two of the nodes have the same account.
abbrev pub KeysDistinct : (ℕ → Node) → List ℕ → Type 0
KeysDistinct store [] = Unit {0}
KeysDistinct store (r ∷ rs) = (has_key store rs (get_key (store r)) ≡ false) × KeysDistinct store rs

abbrev pub Sub : List ℕ → List ℕ → Type 0
Sub xs ys = All (λ x. includes ys x ≡ true) xs

Sub-select : (p : ℕ → Bool) (xs ys : List ℕ) → Sub xs (select p ys) → Sub xs ys
Sub-select p [] ys s = tt
Sub-select p (x ∷ xs) ys s = ground (arith, includes-select p ys x, Sub-select p xs ys s.1)

abbrev other : (ℕ → Node) → String → ℕ → Bool
other store key q = not (str_eq (get_key (store q)) key)

has_key-Sub :
    (store : ℕ → Node) (key : String) (xs ys : List ℕ)
    → Sub xs (select (λ q. not (str_eq (get_key (store q)) key)) ys)
    → has_key store xs key ≡ false
has_key-Sub store key [] ys s = refl
has_key-Sub store key (x ∷ xs) ys s = ground (
  arith,
  includes-select (λ (q : ℕ). not (str_eq (get_key (store q)) key)) ys x,
  has_key-Sub store key xs ys s.1,
)

-- At most `count` nodes are chosen, from the healthy ones, and no two for the same account.
pub pick_loop_lem :
    (store : ℕ → Node) (draws : ℕ → ℕ) (round count : ℕ) (healthy : List ℕ)
    → (length (pick_loop store draws round count healthy) ≤ count)
      × Sub (pick_loop store draws round count healthy) healthy
      × KeysDistinct store (pick_loop store draws round count healthy)
unfolding pick_loop
pick_loop_lem store draws round zero healthy = (omega arith, tt, tt)
pick_loop_lem store draws round (suc left) healthy =
    elim (Option-cases (get_elem? healthy (random_below (draws round) (length healthy)))) [
      | inl e ↦ rw (e, pick_loop) (omega arith, tt, tt)
      | inr (r, e) ↦
          rw (e, pick_loop)
            (let (len, sub, keys) = pick_loop_lem store draws (round + 1) left _ in
              (
                omega arith,
                (
                  includes-get_elem? healthy _ r e,
                  Sub-select (other store (get_key (store r))) _ healthy sub,
                ),
                (has_key-Sub store (get_key (store r)) _ healthy sub, keys),
              ))
    ]

select_others :
    (store : ℕ → Node) (key : String) (xs : List ℕ)
    → has_key store xs key ≡ false
    → select (other store key) xs ≡ xs
select_others store key [] h = refl
select_others store key (x ∷ xs) h = ground (arith, select_others store key xs)

includes-has_key :
    (store : ℕ → Node) (r : ℕ) (xs : List ℕ)
    → includes xs r ≡ true
    → has_key store xs (get_key (store r)) ≡ true
includes-has_key store r [] h = h
includes-has_key store r (x ∷ xs) h =
    ground (arith, eq_iff (get_key (store x)) (get_key (store r)), includes-has_key store r xs)

length-select_others :
    (store : ℕ → Node) (r : ℕ) (xs : List ℕ)
    → KeysDistinct store xs
    → includes xs r ≡ true
    → length (select (other store (get_key (store r))) xs) + 1 ≡ length xs
length-select_others store r [] d h = cc
length-select_others store r (x ∷ xs) d h = ground (
  arith,
  eq_iff (get_key (store x)) (get_key (store r)),
  select_others store (get_key (store r)) xs,
  includes-has_key store r xs,
  length-select_others store r xs d.1,
)

has_key-select :
    (store : ℕ → Node) (p : ℕ → Bool) (key : String) (xs : List ℕ)
    → has_key store xs key ≡ false
    → has_key store (select p xs) key ≡ false
has_key-select store p key [] h = refl
has_key-select store p key (x ∷ xs) h = ground (arith, has_key-select store p key xs)

select-KeysDistinct :
    (store : ℕ → Node) (p : ℕ → Bool) (xs : List ℕ)
    → KeysDistinct store xs
    → KeysDistinct store (select p xs)
select-KeysDistinct store p [] d = tt
select-KeysDistinct store p (x ∷ xs) d =
    ground
      (arith, has_key-select store p (get_key (store x)) xs, select-KeysDistinct store p xs d.1)

-- If the healthy nodes have different accounts, as many nodes are chosen as there are, up to
-- `count`, whatever the random numbers are.
pub length-pick_loop :
    (store : ℕ → Node) (draws : ℕ → ℕ) (round count : ℕ) (healthy : List ℕ)
    → KeysDistinct store healthy
    → length (pick_loop store draws round count healthy) ≡ min count (length healthy)
unfolding pick_loop
length-pick_loop store draws round zero healthy d = omega arith
length-pick_loop store draws round (suc left) [] d = ground arith
length-pick_loop store draws round (suc left) (x ∷ xs) d =
    let healthy : List ℕ = x ∷ xs in
    let (r, e) =
      get_elem?-some healthy (random_below (draws round) (length healthy))
        (random_below-lt _ _ (omega arith)) in
    let others = select (other store (get_key (store r))) healthy in
    rw (e, pick_loop)
      (omega (
        arith,
        length-pick_loop store draws (round + 1) left others
            (select-KeysDistinct store (other store (get_key (store r))) healthy d),
        length-select_others store r healthy d (includes-get_elem? healthy _ r e),
      ))

-- Where `maxNodesPerTransaction` is not set and there are nodes, a transaction goes to at least one
-- node, at most to all, and at least to a third of them.
pub get_number_of_nodes_for_transaction_lem :
    (n : Network)
    → n.max_nodes_per_transaction ≡ 0
    → 0 < length n.nodes
    → (1 ≤ get_number_of_nodes_for_transaction n)
      × (get_number_of_nodes_for_transaction n ≤ length n.nodes)
      × (length n.nodes ≤ 3 * get_number_of_nodes_for_transaction n)
unfolding get_number_of_nodes_for_transaction
get_number_of_nodes_for_transaction_lem n e h = ground arith
