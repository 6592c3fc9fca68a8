-- ===== src/Network/Removal/Totality.antt =====
-- client/ManagedNetwork.js under src/: nodes whose accounts are in the map of accounts can be removed.
use hedera_sdk_js.Common.{
  ℕ, zero, suc, ◌≤◌, ◌≡◌, ◌≢◌, refl, sym, ap, ◌∙◌, subst, Bool, true, false, List, [], String, ◌∷◌,
  Option, none, some, length, get_elem?, get_elem?-some, length-erase_idx, erase_idx, ltb, arith,
  inl, inr, Bool-cases, All, includes, includes-get_elem?, Distinct, str_eq, eq_iff,
}
use hedera_sdk_js.Common.Outcome.{returns, ◌>>=◌}
use hedera_sdk_js.Node
use hedera_sdk_js.Node.{Node, get_key}
use hedera_sdk_js.Network.{Network, close_node, key_of, without_node, remove_first}
use hedera_sdk_js.Network.Map.{RefMap, map_get, map_set, map_delete, map_get-map_set}
use hedera_sdk_js.Network.Removal.{is_dead, remove_dead_loop, remove_dead_nodes}
use hedera_sdk_js.Network.Removal.Laws.{closed, dropped, close_node_works, key_of-closed}

-- The references that a map has for an account.
abbrev pub refs_of : Option (List ℕ) → List ℕ
refs_of none = []
refs_of (some refs) = refs

abbrev pub refs_at : RefMap → String → List ℕ
refs_at m key = refs_of (map_get key m)

-- Every node is in the list of its account, and occurs once among the nodes.
pub record Indexed (n : Network) : Type 0 where
  pub distinct : Distinct n.nodes
  pub listed : All (λ q. includes (refs_at n.network (key_of n q)) q ≡ true) n.nodes

map_get-map_delete :
    (k j : String) (m : RefMap) → str_eq k j ≡ false → map_get j (map_delete k m) ≡ map_get j m
unfolding map_get map_delete
map_get-map_delete k j [] h = refl
map_get-map_delete k j ((i, refs) ∷ m) h =
    ground (arith, eq_iff k j, eq_iff i k, eq_iff i j, map_get-map_delete k j m h)

includes-remove_first :
    (r q : ℕ) (xs : List ℕ) → q ≢ r → includes xs q ≡ true → includes (remove_first r xs) q ≡ true
unfolding remove_first
includes-remove_first r q [] ne h = h
includes-remove_first r q (x ∷ xs) ne h = ground (arith, includes-remove_first r q xs ne)

-- The map after one reference was taken out of the list of an account.
without_ref : String → RefMap → List ℕ → RefMap
without_ref k m [] = map_delete k m
without_ref k m (x ∷ xs) = map_set k (x ∷ xs) m

map_get-map_set_same :
    (k j : String) (refs : List ℕ) (m : RefMap)
    → str_eq k j ≡ true
    → map_get j (map_set k refs m) ≡ some refs
map_get-map_set_same k j refs m same = ground (arith, map_get-map_set k j refs m)

map_get-map_set_other :
    (k j : String) (refs : List ℕ) (m : RefMap)
    → str_eq k j ≡ false
    → map_get j (map_set k refs m) ≡ map_get j m
map_get-map_set_other k j refs m differ = ground (arith, map_get-map_set k j refs m)

abbrev has : ℕ → Option (List ℕ) → Bool
has q o = includes (refs_of o) q

refs_at-without_ref :
    (k j : String) (m : RefMap) (q : ℕ) (rest : List ℕ)
    → str_eq k j ≡ true
    → includes rest q ≡ true
    → includes (refs_at (without_ref k m rest) j) q ≡ true
unfolding without_ref
refs_at-without_ref k j m q [] same h = ground arith
refs_at-without_ref k j m q (x ∷ xs) same h =
    ap (has q) (map_get-map_set_same k j (x ∷ xs) m same) ∙ h

refs_at-without_other :
    (k j : String) (m : RefMap) (q : ℕ) (rest : List ℕ)
    → str_eq k j ≡ false
    → includes (refs_at m j) q ≡ true
    → includes (refs_at (without_ref k m rest) j) q ≡ true
unfolding without_ref
refs_at-without_other k j m q [] differ h = ap (has q) (map_get-map_delete k j m differ) ∙ h
refs_at-without_other k j m q (x ∷ xs) differ h =
    ap (has q) (map_get-map_set_other k j (x ∷ xs) m differ) ∙ h

refs_at-kept :
    (k j : String) (m : RefMap) (r q : ℕ) (refs : List ℕ)
    → map_get k m ≡ some refs
    → q ≢ r
    → includes (refs_at m j) q ≡ true
    → includes (refs_at (without_ref k m (remove_first r refs)) j) q ≡ true
refs_at-kept k j m r q refs found ne h = elim (Bool-cases (str_eq k j)) [
  | inl same ↦
      let here : map_get j m ≡ some refs =
        ap (λ i. map_get i m) (sym ((eq_iff k j).0 same)) ∙ found in
      refs_at-without_ref k j m q (remove_first r refs) same
        (includes-remove_first r q refs ne (sym (ap (has q) here) ∙ h))
  | inr differ ↦ refs_at-without_other k j m q (remove_first r refs) differ h
]

dropped_network :
    (n : Network) (i r : ℕ) (refs : List ℕ)
    → (dropped n i r refs).network ≡ without_ref (key_of (closed n r) r) n.network refs
unfolding without_ref without_node
dropped_network n i r [] = refl
dropped_network n i r (x ∷ xs) = refl

dropped_nodes :
    (n : Network) (i r : ℕ) (refs : List ℕ) → (dropped n i r refs).nodes ≡ erase_idx n.nodes i
unfolding without_node
dropped_nodes n i r [] = refl
dropped_nodes n i r (x ∷ xs) = refl

dropped_key : (n : Network) (i r q : ℕ) (refs : List ℕ) → key_of (dropped n i r refs) q ≡ key_of n q
unfolding without_node Node.close
dropped_key n i r q [] = ground arith
dropped_key n i r q (x ∷ xs) = ground arith

All-other :
    (P Q : ℕ → Type 0) (xs : List ℕ) (r : ℕ)
    → includes xs r ≡ false
    → ((q : ℕ) → q ≢ r → P q → Q q)
    → All P xs
    → All Q xs
All-other P Q [] r h f a = tt
All-other P Q (x ∷ xs) r h f a =
    (f x (λ e. ground arith) a.0, All-other P Q xs r (ground arith) f a.1)

All-erase_idx :
    (P Q : ℕ → Type 0) (xs : List ℕ) (i r : ℕ)
    → get_elem? xs i ≡ some r
    → Distinct xs
    → ((q : ℕ) → q ≢ r → P q → Q q)
    → All P xs
    → All Q (erase_idx xs i)
All-erase_idx P Q [] i r e d f a = tt
All-erase_idx P Q (x ∷ xs) zero r e d f a = All-other P Q xs r (ground arith) f a.1
All-erase_idx P Q (x ∷ xs) (suc i) r e d f a = (
  f x (λ same. ground (arith, includes-get_elem? xs i r e)) a.0,
  All-erase_idx P Q xs i r e d.1 f a.1,
)

includes-erase_idx :
    (xs : List ℕ) (i x : ℕ) → includes xs x ≡ false → includes (erase_idx xs i) x ≡ false
includes-erase_idx [] i x h = h
includes-erase_idx (y ∷ ys) zero x h = ground arith
includes-erase_idx (y ∷ ys) (suc i) x h = ground (arith, includes-erase_idx ys i x)

Distinct-erase_idx : (xs : List ℕ) (i : ℕ) → Distinct xs → Distinct (erase_idx xs i)
Distinct-erase_idx [] i d = tt
Distinct-erase_idx (x ∷ xs) zero d = d.1
Distinct-erase_idx (x ∷ xs) (suc i) d = (includes-erase_idx xs i x d.0, Distinct-erase_idx xs i d.1)

All-get_elem? : (P : ℕ → Type 0) (xs : List ℕ) (i r : ℕ) → get_elem? xs i ≡ some r → All P xs → P r
All-get_elem? P [] i r e a = cc
All-get_elem? P (x ∷ xs) zero r e a = subst P (ground arith) a.0
All-get_elem? P (x ∷ xs) (suc i) r e a = All-get_elem? P xs i r e a.1

some_refs : (o : Option (List ℕ)) (r : ℕ) → has r o ≡ true → (refs : List ℕ) × (o ≡ some refs)
some_refs none r h = cc
some_refs (some refs) r h = (refs, refl)

-- A node of an indexed network can be closed, and the network stays indexed.
pub close_node-Indexed :
    (n : Network) (i r : ℕ)
    → Indexed n
    → get_elem? n.nodes i ≡ some r
    → (m : Network) × (close_node n i ≡ returns m) × Indexed m × (m.nodes ≡ erase_idx n.nodes i)
close_node-Indexed n i r x e =
    let Listed = λ (k : Network) (q : ℕ). includes (refs_at k.network (key_of k q)) q ≡ true in
    let (refs, found) =
      some_refs (map_get (key_of n r) n.network) r
        (All-get_elem? (Listed n) n.nodes i r e x.listed) in
    let at : map_get (key_of (closed n r) r) n.network ≡ some refs =
      ap (λ k. map_get k n.network) (key_of-closed n r) ∙ found in
    let m = dropped n i r (remove_first r refs) in
    let nodes = dropped_nodes n i r (remove_first r refs) in
    let keep : (q : ℕ) → q ≢ r → Listed n q → Listed m q = λ q ne h.
      ap (λ k. includes (refs_at m.network k) q) (dropped_key n i r q (remove_first r refs))
      ∙ ap (λ net. includes (refs_at net (key_of n q)) q)
          (dropped_network n i r (remove_first r refs))
      ∙ refs_at-kept (key_of (closed n r) r) (key_of n q) n.network r q refs at ne h in
    (
      m,
      close_node_works n i r refs e at,
      record {
        distinct = subst Distinct (sym nodes) (Distinct-erase_idx n.nodes i x.distinct);
        listed =
            subst (All (Listed m)) (sym nodes)
              (All-erase_idx (Listed n) (Listed m) n.nodes i r e x.distinct keep x.listed);
      },
      nodes,
    )

abbrev LoopReturns : ℕ → Network → Type 0
LoopReturns i n = (m : Network) × (remove_dead_loop i n ≡ returns m) × Indexed m

remove_dead_loop-returns : (i : ℕ) (n : Network) → i ≤ length n.nodes → Indexed n → LoopReturns i n
unfolding remove_dead_loop
remove_dead_loop-returns zero n h x = (n, refl, x)
remove_dead_loop-returns (suc i) n h x =
    let (r, at) = get_elem?-some n.nodes i h in
    elim (Bool-cases (is_dead n.max_node_attempts n.store r)) [
      | inl dead ↦
          let (k, first, y, nodes) = close_node-Indexed n i r x at in
          let room : i ≤ length k.nodes =
            omega (arith, ap length nodes, length-erase_idx n.nodes i h) in
          let (m, rest, z) = remove_dead_loop-returns i k room y in
          let chain : (close_node n i >>= remove_dead_loop i) ≡ returns m =
            ap (λ o. o >>= remove_dead_loop i) first ∙ rest in
          (m, rw (at, dead, remove_dead_loop) chain, z)
      | inr alive ↦
          let (m, rest, z) = remove_dead_loop-returns i n (omega arith) x in
          (m, rw (at, alive, remove_dead_loop) rest, z)
    ]

-- Where every node is in the list of its account, and occurs once among the nodes,
-- `_removeDeadNodes` returns, and leaves a network of that kind.
pub remove_dead_nodes-Indexed :
    (n : Network) → Indexed n → (m : Network) × (remove_dead_nodes n ≡ returns m) × Indexed m
unfolding remove_dead_nodes
remove_dead_nodes-Indexed n x = elim (Bool-cases (ltb 0 n.max_node_attempts)) [
  | inl limited ↦
      let (m, done, y) = remove_dead_loop-returns (length n.nodes) n (omega arith) x in
      (m, rw limited done, y)
  | inr free ↦ (n, rw free refl, x)
]
