-- ===== src/Network/Update/Indexing.antt =====
-- `_setNetwork`, client/ManagedNetwork.js under src/: when every node is in the list of its account.
use hedera_sdk_js.Common.{
  ℕ, ◌≤◌, ◌≡◌, refl, sym, ap, ◌∙◌, subst, Bool, true, false, ◌&&◌, String, List, [], ◌∷◌, Option,
  none, some, All, includes, includes-select, Distinct, Distinct-snoc, select-Distinct, count,
  arith, inl, inr, Bool-cases, str_eq, eq_refl, leb, ◌==◌,
}
use hedera_sdk_js.Common.Outcome.{returns, >>=-eq-returns}
use hedera_sdk_js.NodeAddress.{Address}
use hedera_sdk_js.Network.{Network, key_of}
use hedera_sdk_js.Network.Map.{map_get}
use hedera_sdk_js.Network.Shuffle.{shuffle, count-shuffle}
use hedera_sdk_js.Network.Removal.Laws.{returns-injective}
use hedera_sdk_js.Network.Removal.{close_nodes}
use hedera_sdk_js.Network.Removal.Totality.{Indexed, refs_of, refs_at}
use hedera_sdk_js.Network.Update.{
  Entries, Adding, create_node, add_entries, install, set_network, get_nodes_to_remove, or_empty,
  stays, has_account, has_address,
}
use hedera_sdk_js.Network.Update.Entries.{Below, add_or_skip, add_or_skip-Below}
use hedera_sdk_js.Network.Update.Laws.{includes-count, install-network, staying, Below-select}

count-Distinct : (xs : List ℕ) (a : ℕ) → Distinct xs → count a xs ≤ 1
count-Distinct [] a d = omega arith
count-Distinct (x ∷ xs) a d = ground (arith, count-Distinct xs a d.1, includes-count xs a)

Distinct-count : (xs : List ℕ) → ((a : ℕ) → count a xs ≤ 1) → Distinct xs
Distinct-count [] h = tt
Distinct-count (x ∷ xs) h =
    (ground (arith, h x, includes-count xs x), Distinct-count xs (λ a. ground (arith, h a)))

shuffle-Distinct : (draws : ℕ → ℕ) (xs : List ℕ) → Distinct xs → Distinct (shuffle draws xs)
shuffle-Distinct draws xs d =
    Distinct-count (shuffle draws xs)
      (λ a. omega (arith, count-shuffle draws xs a, count-Distinct xs a d))

Below-fresh : (k : ℕ) (xs : List ℕ) → Below k xs → includes xs k ≡ false
Below-fresh k [] b = refl
Below-fresh k (x ∷ xs) b = ground (arith, Below-fresh k xs b.1)

add_or_skip-Distinct :
    (skip : Bool) (n : Network) (now : ℕ) (s : Adding) (b : Address) (j : String)
    → Below s.fresh s.nodes
    → Distinct s.nodes
    → Distinct (add_or_skip skip n now s b j).nodes
unfolding add_or_skip create_node
add_or_skip-Distinct true n now s b j below d = d
add_or_skip-Distinct false n now s b j below d =
    Distinct-snoc s.nodes s.fresh d (Below-fresh s.fresh s.nodes below)

add_entries-Distinct :
    (n : Network) (now : ℕ) (s : Adding) (es : Entries)
    → Below s.fresh s.nodes
    → Distinct s.nodes
    → Distinct (add_entries n now s es).nodes
unfolding add_entries add_or_skip
add_entries-Distinct n now s [] below d = d
add_entries-Distinct n now s ((b, j) ∷ es) below d =
    let skip = has_account n.store n.nodes j && has_address n.store n.nodes b in
    add_entries-Distinct n now (add_or_skip skip n now s b j) es
      (add_or_skip-Below skip n now s b j below) (add_or_skip-Distinct skip n now s b j below d)

All-includes : (P : ℕ → Type 0) (xs : List ℕ) → ((q : ℕ) → includes xs q ≡ true → P q) → All P xs
All-includes P [] f = tt
All-includes P (x ∷ xs) f = (f x (ground arith), All-includes P xs (λ q i. f q (ground arith)))

All-at : (P : ℕ → Type 0) (xs : List ℕ) (q : ℕ) → All P xs → includes xs q ≡ true → P q
All-at P [] q a i = cc
All-at P (x ∷ xs) q a i = elim (Bool-cases (x == q)) [
  | inl e ↦ subst P (ground arith) a.0
  | inr e ↦ All-at P xs q a.1 (ground arith)
]

refs_of-or_empty : (o : Option (List ℕ)) → refs_of o ≡ or_empty o
refs_of-or_empty none = refl
refs_of-or_empty (some refs) = refl

abbrev pub AllHealthy : Network → ℕ → Type 0
AllHealthy m now = All (λ r. leb (m.store r).readmit_time now ≡ true) m.nodes

install-listed :
    (n : Network) (es : Entries) (now q : ℕ) (draws : ℕ → ℕ)
    → AllHealthy (install n es now draws) now
    → includes (install n es now draws).nodes q ≡ true
    → includes (refs_at (install n es now draws).network (key_of (install n es now draws) q)) q
      ≡ true
install-listed n es now q draws healthy i =
    let m = install n es now draws in
    let (groups, alive) = install-network n es now draws (key_of m q) in
    let now_healthy = All-at (λ r. leb (m.store r).readmit_time now ≡ true) m.nodes q healthy i in
    let inside : includes m.healthy q ≡ true =
      ap (λ hs. includes hs q) alive
      ∙ includes-select (λ r. leb (m.store r).readmit_time now) m.nodes q
      ∙ rw (now_healthy, i) refl in
    ap (λ refs. includes refs q) (refs_of-or_empty (map_get (key_of m q) m.network) ∙ groups)
    ∙ includes-select (λ r. str_eq (key_of m r) (key_of m q)) m.healthy q
    ∙ rw (eq_refl (key_of m q), inside) refl

install-Distinct :
    (n : Network) (es : Entries) (now : ℕ) (draws : ℕ → ℕ)
    → Below n.fresh n.nodes
    → Distinct n.nodes
    → Distinct (install n es now draws).nodes
unfolding install
install-Distinct n es now draws b d =
    let start : Adding = record { store = n.store; fresh = n.fresh; nodes = n.nodes } in
    shuffle-Distinct draws (add_entries n now start es).nodes
      (add_entries-Distinct n now start es b d)

-- If the nodes occur once, with references below the next free one, `_setNetwork` returns, and the
-- readmit time of every node of the new network has come, then every node of the new network is in
-- the list of its account and occurs once.
pub set_network-Indexed :
    (n m : Network) (es : Entries) (now : ℕ) (draws : ℕ → ℕ)
    → Distinct n.nodes
    → Below n.fresh n.nodes
    → set_network n es now draws ≡ returns m
    → AllHealthy m now
    → Indexed m
unfolding set_network
set_network-Indexed n m es now draws d b e healthy =
    let (k, closing, rest) =
      >>=-eq-returns (close_nodes (get_nodes_to_remove n es) n)
        (λ k. returns (install k es now draws)) e in
    let (kept, nodes) = staying n k es closing in
    let p = λ (r : ℕ). stays es (n.store r) in
    let same : install k es now draws ≡ m = returns-injective rest in
    let all_healthy : AllHealthy (install k es now draws) now =
      subst (λ m. AllHealthy m now) (sym same) healthy in
    subst Indexed same (record {
      distinct =
          install-Distinct k es now draws
            (rw (kept.fresh, nodes) (Below-select n.fresh p n.nodes b))
            (rw nodes (select-Distinct p n.nodes d));
      listed =
          All-includes
            (λ q.
              includes
                (refs_at (install k es now draws).network (key_of (install k es now draws) q)) q
              ≡ true)
            (install k es now draws).nodes (λ q i. install-listed k es now q draws all_healthy i);
    })
