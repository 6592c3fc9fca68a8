-- ===== src/Network/Update/Entries.antt =====
-- client/ManagedNetwork.js under src/: the addresses and accounts that the nodes serve, before and
-- after the entries of the new network are added.
use hedera_sdk_js.Common.{
  ℕ, ◌+◌, ◌<◌, ◌≡◌, refl, sym, ap, ◌∙◌, Bool, true, false, not, ◌&&◌, ◌||◌, String, List, [], ◌∷◌,
  ◌++◌, none, some, All, arith, inl, inr, Bool-cases, Option-cases, ◌↔◌, ◌⊎◌, if◌then◌else◌, str_eq,
  eq_iff,
}
use hedera_sdk_js.NodeAddress.{Address, address_eq, address_eq_iff}
use hedera_sdk_js.Node.{Node, new_node, set_min_backoff}
use hedera_sdk_js.Network.{Network, update}
use hedera_sdk_js.Network.Update.{
  Entries, account_at, stays, any, has_account, has_address, Adding, create_node, add_entries,
}

-- The node has this address and this account.
abbrev pub is_at : (ℕ → Node) → Address → String → ℕ → Bool
is_at store a account r = address_eq (store r).address a && str_eq (store r).account_id account

abbrev pub serves : (ℕ → Node) → List ℕ → Address → String → Bool
serves store rs a account = any (is_at store a account) rs

-- The new network has this account at this address.
abbrev pub is_entry : Entries → Address → String → Bool
is_entry es a account = elim (account_at a es) [ none ↦ false | some b ↦ str_eq b account ]

-- The keys of a Map are different.
abbrev pub UniqueAddresses : Entries → Type 0
UniqueAddresses [] = Unit {0}
UniqueAddresses ((a, account) ∷ es) = (account_at a es ≡ none) × UniqueAddresses es

abbrev pub Below : ℕ → List ℕ → Type 0
Below k rs = All (λ r. r < k) rs

abbrev pub AllStay : Entries → (ℕ → Node) → List ℕ → Type 0
AllStay es store rs = All (λ r. stays es (store r) ≡ true) rs

account_at-eq :
    (es : Entries) (b a : Address) → address_eq b a ≡ true → account_at b es ≡ account_at a es
account_at-eq es b a h = ap (λ c. account_at c es) ((address_eq_iff b a).0 h)

stays-is_entry :
    (es : Entries) (node : Node) (a : Address) (account : String)
    → stays es node ≡ true
    → (address_eq node.address a && str_eq node.account_id account) ≡ true
    → is_entry es a account ≡ true
stays-is_entry es node a account s h =
    ground (arith, account_at-eq es node.address a, eq_iff node.account_id account)

-- A node that stays serves an entry.
pub serves-is_entry :
    (es : Entries) (store : ℕ → Node) (rs : List ℕ) (a : Address) (account : String)
    → AllStay es store rs
    → serves store rs a account ≡ true
    → is_entry es a account ≡ true
serves-is_entry es store [] a account s h = cc
serves-is_entry es store (r ∷ rs) a account s h = elim (Bool-cases (is_at store a account r)) [
  | inl here ↦ stays-is_entry es (store r) a account s.0 here
  | inr there ↦ serves-is_entry es store rs a account s.1 (rw there at h)
]

stays_at :
    (es : Entries) (node : Node) (a : Address) (account : String)
    → stays es node ≡ true
    → account_at a es ≡ some account
    → address_eq node.address a ≡ true
    → str_eq node.account_id account ≡ true
stays_at es node a account s e h = ground (
  arith,
  account_at-eq es node.address a h,
  eq_iff account node.account_id,
  eq_iff node.account_id account,
)

-- An entry whose address is taken by a node that stays is served.
pub taken-serves :
    (es : Entries) (store : ℕ → Node) (rs : List ℕ) (a : Address) (account : String)
    → AllStay es store rs
    → account_at a es ≡ some account
    → has_address store rs a ≡ true
    → serves store rs a account ≡ true
taken-serves es store [] a account s e h = cc
taken-serves es store (r ∷ rs) a account s e h =
    elim (Bool-cases (address_eq (store r).address a)) [
      | inl here ↦ rw (here, stays_at es (store r) a account s.0 e here)
      | inr there ↦ rw (there, taken-serves es store rs a account s.1 e (rw there at h))
    ]

serves-taken :
    (store : ℕ → Node) (rs : List ℕ) (a : Address) (account : String)
    → serves store rs a account ≡ true
    → (has_account store rs account && has_address store rs a) ≡ true
serves-taken store [] a account h = h
serves-taken store (r ∷ rs) a account h = elim (Bool-cases (is_at store a account r)) [
  | inl here ↦ ground arith
  | inr there ↦ ground (arith, serves-taken store rs a account (rw there at h))
]

any-update :
    (g : Node → Bool) (store : ℕ → Node) (k : ℕ) (node : Node) (rs : List ℕ)
    → Below k rs
    → any (λ r. g (update store k node r)) rs ≡ any (λ r. g (store r)) rs
any-update g store k node [] b = refl
any-update g store k node (r ∷ rs) b = ground (arith, any-update g store k node rs b.1)

any-append : (p : ℕ → Bool) (rs qs : List ℕ) → any p (rs ++ qs) ≡ (any p rs || any p qs)
any-append p [] qs = refl
any-append p (r ∷ rs) qs = ground (arith, any-append p rs qs)

Below-snoc : (k : ℕ) (rs : List ℕ) → Below k rs → Below (k + 1) (rs ++ k ∷ [])
Below-snoc k [] b = (omega arith, tt)
Below-snoc k (r ∷ rs) b = (omega arith, Below-snoc k rs b.1)

-- The entries that are not passed over.
abbrev pub added : Network → Entries → Address → String → Bool
added n [] a account = false
added n ((b, j) ∷ es) a account =
    (not (has_account n.store n.nodes j && has_address n.store n.nodes b)
      && (address_eq b a && str_eq j account))
    || added n es a account

create_node-serves :
    (n : Network) (now : ℕ) (s : Adding) (b a : Address) (j account : String)
    → Below s.fresh s.nodes
    → serves (create_node n now s b j).store (create_node n now s b j).nodes a account
      ≡ (serves s.store s.nodes a account || (address_eq b a && str_eq j account))
unfolding create_node new_node set_min_backoff
create_node-serves n now s b a j account below =
    let new : Node = set_min_backoff (new_node b j now) n.min_backoff in
    ground (
      arith,
      any-append (is_at (update s.store s.fresh new) a account) s.nodes (s.fresh ∷ []),
      any-update (λ node. address_eq node.address a && str_eq node.account_id account) s.store
          s.fresh new s.nodes below,
    )

unfoldable pub add_or_skip : Bool → Network → ℕ → Adding → Address → String → Adding
add_or_skip skip n now s b j = if skip then s else create_node n now s b j

add_or_skip-serves :
    (skip : Bool) (n : Network) (now : ℕ) (s : Adding) (b a : Address) (j account : String)
    → Below s.fresh s.nodes
    → serves (add_or_skip skip n now s b j).store (add_or_skip skip n now s b j).nodes a account
      ≡ (serves s.store s.nodes a account || (not skip && (address_eq b a && str_eq j account)))
unfolding add_or_skip
add_or_skip-serves true n now s b a j account below = ground arith
add_or_skip-serves false n now s b a j account below =
    create_node-serves n now s b a j account below

pub add_or_skip-Below :
    (skip : Bool) (n : Network) (now : ℕ) (s : Adding) (b : Address) (j : String)
    → Below s.fresh s.nodes
    → Below (add_or_skip skip n now s b j).fresh (add_or_skip skip n now s b j).nodes
unfolding add_or_skip create_node
add_or_skip-Below true n now s b j below = below
add_or_skip-Below false n now s b j below = Below-snoc s.fresh s.nodes below

or_assoc : (x y z : Bool) → ((x || y) || z) ≡ (x || (y || z))
or_assoc x y z = ground arith

pub add_entries-serves :
    (n : Network) (now : ℕ) (s : Adding) (es : Entries) (a : Address) (account : String)
    → Below s.fresh s.nodes
    → serves (add_entries n now s es).store (add_entries n now s es).nodes a account
      ≡ (serves s.store s.nodes a account || added n es a account)
unfolding add_entries add_or_skip
add_entries-serves n now s [] a account below = ground arith
add_entries-serves n now s ((b, j) ∷ es) a account below =
    let skip = has_account n.store n.nodes j && has_address n.store n.nodes b in
    let rest =
      add_entries-serves n now (add_or_skip skip n now s b j) es a account
        (add_or_skip-Below skip n now s b j below) in
    rest
    ∙ ap (λ x. x || added n es a account) (add_or_skip-serves skip n now s b a j account below)
    ∙ or_assoc _ _ (added n es a account)

added-is_entry :
    (n : Network) (es : Entries) (a : Address) (account : String)
    → UniqueAddresses es
    → added n es a account ≡ true
    → account_at a es ≡ some account
added-is_entry n [] a account u h = cc
added-is_entry n ((b, j) ∷ es) a account u h =
    ground (arith, account_at-eq es b a, eq_iff j account, added-is_entry n es a account u.1)

is_entry-added :
    (n : Network) (es : Entries) (a : Address) (account : String)
    → account_at a es ≡ some account
    → (has_account n.store n.nodes account && has_address n.store n.nodes a) ≡ false
    → added n es a account ≡ true
is_entry-added n [] a account e h = cc
is_entry-added n ((b, j) ∷ es) a account e h =
    ground (arith, address_eq_iff b a, eq_iff j account, is_entry-added n es a account)

is_entry_iff :
    (es : Entries) (a : Address) (account : String)
    → (is_entry es a account ≡ true) ↔ (account_at a es ≡ some account)
is_entry_iff es a account = elim (Option-cases (account_at a es)) [
  | inl e ↦ rw e (ground arith)
  | inr (b, e) ↦ rw e (ground (arith, eq_iff b account))
]

and_right : (x y : Bool) → (x && y) ≡ true → y ≡ true
and_right true y h = h
and_right false y h = cc

or_eq :
    (x y z : Bool)
    → (z ≡ true → (x ≡ true) ⊎ (y ≡ true))
    → (x ≡ true → z ≡ true)
    → (y ≡ true → z ≡ true)
    → (x || y) ≡ z
or_eq true y z f g h = sym (g refl)
or_eq false true z f g h = sym (h refl)
or_eq false false false f g h = refl
or_eq false false true f g h = elim (f refl) [ inl e ↦ e | inr e ↦ e ]

-- Together, the nodes that stay and the entries that are added serve the entries.
pub served_entries :
    (n : Network) (es : Entries) (a : Address) (account : String)
    → UniqueAddresses es
    → AllStay es n.store n.nodes
    → (serves n.store n.nodes a account || added n es a account) ≡ is_entry es a account
served_entries n es a account u s =
    or_eq _ _ _
      (λ e.
        let at = (is_entry_iff es a account).0 e in
        elim (Bool-cases (has_account n.store n.nodes account && has_address n.store n.nodes a)) [
          | inl taken ↦ inl (taken-serves es n.store n.nodes a account s at (and_right _ _ taken))
          | inr free ↦ inr (is_entry-added n es a account at free)
        ])
      (serves-is_entry es n.store n.nodes a account s)
      (λ e. (is_entry_iff es a account).1 (added-is_entry n es a account u e))
