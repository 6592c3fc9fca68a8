-- ===== src/Network/Update/Laws.antt =====
-- `_setNetwork`, client/ManagedNetwork.js under src/: the network that it installs.
use hedera_sdk_js.Common.{
  ℕ, ◌≡◌, refl, sym, ap, ◌∙◌, subst, Bool, true, false, String, List, [], ◌∷◌, ◌++◌, length, All,
  includes, count, arith, inl, inr, Bool-cases, str_eq, eq_iff, select, take_all, drop_all,
  append-nil, append_assoc, ltb, leb,
}
use hedera_sdk_js.Common.Outcome.{Outcome, returns, ◌>>=◌, >>=-eq-returns}
use hedera_sdk_js.NodeAddress.{Address}
use hedera_sdk_js.Node
use hedera_sdk_js.Node.{Node, get_key, is_healthy}
use hedera_sdk_js.Network.{Network, NetworkError, key_of}
use hedera_sdk_js.Network.Map.{RefMap, map_get, map_set, map_get-map_set}
use hedera_sdk_js.Network.Shuffle.{shuffle, count-shuffle}
use hedera_sdk_js.Network.Removal.{close_nodes}
use hedera_sdk_js.Network.Removal.Laws.{Kept, returns-injective}
use hedera_sdk_js.Network.Update.{
  Entries, stays, any, Adding, add_entries, install, set_network, get_nodes_to_remove, group,
  or_empty,
}
use hedera_sdk_js.Network.Removal.Totality.{Indexed}
use hedera_sdk_js.Network.Update.Closing.{close_nodes_lem, close_nodes-Indexed}
use hedera_sdk_js.Network.Update.Entries.{
  is_at, serves, is_entry, UniqueAddresses, Below, AllStay, add_entries-serves, served_entries,
}

pub includes-count : (xs : List ℕ) (a : ℕ) → includes xs a ≡ ltb 0 (count a xs)
includes-count [] a = ground arith
includes-count (x ∷ xs) a = ground (arith, includes-count xs a)

includes-shuffle :
    (draws : ℕ → ℕ) (xs : List ℕ) (a : ℕ) → includes (shuffle draws xs) a ≡ includes xs a
includes-shuffle draws xs a =
    includes-count (shuffle draws xs) a
    ∙ ap (λ (k : ℕ). ltb 0 k) (count-shuffle draws xs a)
    ∙ sym (includes-count xs a)

any-includes :
    (p : ℕ → Bool) (xs : List ℕ) (a : ℕ) → includes xs a ≡ true → p a ≡ true → any p xs ≡ true
any-includes p [] a h e = cc
any-includes p (x ∷ xs) a h e = ground (arith, any-includes p xs a)

any_mono :
    (p : ℕ → Bool) (xs ys : List ℕ)
    → ((a : ℕ) → includes xs a ≡ true → includes ys a ≡ true)
    → any p xs ≡ true
    → any p ys ≡ true
any_mono p [] ys sub h = cc
any_mono p (x ∷ xs) ys sub h = elim (Bool-cases (p x)) [
  | inl e ↦ any-includes p ys x (sub x (ground arith)) e
  | inr e ↦ any_mono p xs ys (λ a i. sub a (ground arith)) (rw e at h)
]

Bool-antisym : (x y : Bool) → (x ≡ true → y ≡ true) → (y ≡ true → x ≡ true) → x ≡ y
Bool-antisym true y f g = sym (f refl)
Bool-antisym false true f g = g refl
Bool-antisym false false f g = refl

any-shuffle : (p : ℕ → Bool) (draws : ℕ → ℕ) (xs : List ℕ) → any p (shuffle draws xs) ≡ any p xs
any-shuffle p draws xs =
    Bool-antisym _ _
      (any_mono p (shuffle draws xs) xs (λ a i. sym (includes-shuffle draws xs a) ∙ i))
      (any_mono p xs (shuffle draws xs) (λ a i. includes-shuffle draws xs a ∙ i))

All-select : (p : ℕ → Bool) (xs : List ℕ) → All (λ r. p r ≡ true) (select p xs)
All-select p [] = tt
All-select p (x ∷ xs) = ground (arith, All-select p xs)

pub Below-select : (k : ℕ) (p : ℕ → Bool) (xs : List ℕ) → Below k xs → Below k (select p xs)
Below-select k p [] b = tt
Below-select k p (x ∷ xs) b = ground (arith, Below-select k p xs b.1)

stays-Kept :
    (es : Entries) (n m : Network) (r : ℕ) → Kept n m → stays es (m.store r) ≡ stays es (n.store r)
unfolding Node.close
stays-Kept es n m r k = ap (stays es) (k.same r)

AllStay-Kept :
    (es : Entries) (n m : Network) (rs : List ℕ)
    → Kept n m
    → All (λ r. stays es (n.store r) ≡ true) rs
    → AllStay es m.store rs
AllStay-Kept es n m [] k a = tt
AllStay-Kept es n m (r ∷ rs) k a = (stays-Kept es n m r k ∙ a.0, AllStay-Kept es n m rs k a.1)

install-serves :
    (n : Network) (es : Entries) (now : ℕ) (draws : ℕ → ℕ) (a : Address) (account : String)
    → UniqueAddresses es
    → Below n.fresh n.nodes
    → AllStay es n.store n.nodes
    → serves (install n es now draws).store (install n es now draws).nodes a account
      ≡ is_entry es a account
unfolding install
install-serves n es now draws a account u b s =
    let start : Adding = record { store = n.store; fresh = n.fresh; nodes = n.nodes } in
    any-shuffle (is_at (add_entries n now start es).store a account) draws
      (add_entries n now start es).nodes
    ∙ add_entries-serves n now start es a account b
    ∙ served_entries n es a account u s

-- What the first part leaves: the nodes that stay, in their order.
pub staying :
    (n k : Network) (es : Entries)
    → close_nodes (get_nodes_to_remove n es) n ≡ returns k
    → Kept n k × (k.nodes ≡ select (λ r. stays es (n.store r)) n.nodes)
unfolding get_nodes_to_remove
staying n k es e =
    let p = λ (r : ℕ). stays es (n.store r) in
    let (kept, left) = close_nodes_lem p (length n.nodes) n k (omega arith) e in
    (
      kept,
      left
          ∙ rw
              (
                take_all (length n.nodes) n.nodes (omega arith),
                drop_all (length n.nodes) n.nodes (omega arith),
              )
              (append-nil _),
    )

-- When `_setNetwork` returns, the network has a node for an account at an address exactly if that is
-- an entry of the map that it was given. The map has each address once, and the references of the
-- nodes are below the next free one.
pub set_network-serves :
    (n m : Network) (es : Entries) (now : ℕ) (draws : ℕ → ℕ) (a : Address) (account : String)
    → UniqueAddresses es
    → Below n.fresh n.nodes
    → set_network n es now draws ≡ returns m
    → serves m.store m.nodes a account ≡ is_entry es a account
unfolding set_network
set_network-serves n m es now draws a account u b e =
    let (k, closing, rest) =
      >>=-eq-returns (close_nodes (get_nodes_to_remove n es) n)
        (λ k. returns (install k es now draws)) e in
    let (kept, nodes) = staying n k es closing in
    let p = λ (r : ℕ). stays es (n.store r) in
    subst (λ m. serves m.store m.nodes a account ≡ is_entry es a account) (returns-injective rest)
      (install-serves k es now draws a account u
        (rw (kept.fresh, nodes) (Below-select n.fresh p n.nodes b))
        (rw nodes (AllStay-Kept es n k _ kept (All-select p n.nodes))))

group_step :
    (store : ℕ → Node) (r : ℕ) (rs : List ℕ) (m : RefMap) (key : String)
    → (or_empty (
          map_get key
            (map_set (get_key (store r)) (or_empty (map_get (get_key (store r)) m) ++ r ∷ []) m))
        ++ select (λ q. str_eq (get_key (store q)) key) rs)
      ≡ or_empty (map_get key m) ++ select (λ q. str_eq (get_key (store q)) key) (r ∷ rs)
group_step store r rs m key =
    let own = get_key (store r) in
    let refs : List ℕ = or_empty (map_get own m) ++ r ∷ [] in
    ground (
      arith,
      map_get-map_set own key refs m,
      eq_iff own key,
      append_assoc (or_empty (map_get own m)) (r ∷ [])
          (select (λ (q : ℕ). str_eq (get_key (store q)) key) rs),
    )

-- The list of an account in the grouped map: those of the account, behind what was there.
group_lem :
    (store : ℕ → Node) (rs : List ℕ) (m : RefMap) (key : String)
    → or_empty (map_get key (group store rs m))
      ≡ or_empty (map_get key m) ++ select (λ r. str_eq (get_key (store r)) key) rs
unfolding group
group_lem store [] m key = sym (append-nil _)
group_lem store (r ∷ rs) m key =
    let own = get_key (store r) in
    let refs : List ℕ = or_empty (map_get own m) ++ r ∷ [] in
    group_lem store rs (map_set own refs m) key ∙ group_step store r rs m key

-- `_setNetwork` returns on a network in which every node is in the list of its account and occurs
-- once among the nodes, which have references below the next free one, for every map that has each
-- address once. The network that results has a node for an account at an address exactly if that is
-- an entry of the map.
pub set_network_lem :
    (n : Network) (es : Entries) (now : ℕ) (draws : ℕ → ℕ) (a : Address) (account : String)
    → Indexed n
    → UniqueAddresses es
    → Below n.fresh n.nodes
    → (m : Network) × (set_network n es now draws ≡ returns m)
      × (serves m.store m.nodes a account ≡ is_entry es a account)
unfolding set_network get_nodes_to_remove
set_network_lem n es now draws a account x u b =
    let (k, closing, y) =
      close_nodes-Indexed (λ r. stays es (n.store r)) (length n.nodes) n (omega arith) x in
    let finish : Network → Outcome NetworkError Network = λ k. returns (install k es now draws) in
    let done : set_network n es now draws ≡ returns (install k es now draws) =
      ap (λ o. o >>= finish) closing in
    (
      install k es now draws,
      done,
      set_network-serves n (install k es now draws) es now draws a account u b done,
    )

-- The installed map gives, for each account, its healthy nodes in the shuffled order; the healthy
-- nodes are the nodes whose readmit time has come.
pub install-network :
    (n : Network) (es : Entries) (now : ℕ) (draws : ℕ → ℕ) (key : String)
    → (let m = install n es now draws in
        (or_empty (map_get key m.network) ≡ select (λ r. str_eq (key_of m r) key) m.healthy)
        × (m.healthy ≡ select (λ r. leb (m.store r).readmit_time now) m.nodes))
unfolding install is_healthy map_get
install-network n es now draws key =
    let m = install n es now draws in (group_lem m.store m.healthy [] key, refl)
