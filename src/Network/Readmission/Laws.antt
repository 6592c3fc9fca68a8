-- ===== src/Network/Readmission/Laws.antt =====
-- client/ManagedNetwork.js under src/: who is healthy after a readmission and after a failure.
use hedera_sdk_js.Common.{
  ℕ, ◌+◌, ◌≤◌, ◌≡◌, refl, min, Bool, true, false, ◌&&◌, ◌||◌, List, [], ◌∷◌, ◌++◌, if◌then◌else◌,
  ◌==◌, leb, ltb, arith, includes, Distinct, includes-append, Distinct-snoc, select, not, le→leb,
  sym, ◌∙◌, ◌*◌, Bool-cases, inl, inr,
}
use hedera_sdk_js.Node
use hedera_sdk_js.Node.{Node, ms}
use hedera_sdk_js.Network.{Network}
use hedera_sdk_js.Network.Readmission.{
  find_healthy, readmit_loop, readmit_nodes, drop_healthy, increase_backoff, max_safe_integer,
}

-- The node's time has come.
abbrev pub is_due : (ℕ → Node) → ℕ → ℕ → Bool
is_due store now r = leb (store r).readmit_time now

find_healthy-includes :
    (r readmit now : ℕ) (searching : Bool) (hs : List ℕ) (next : ℕ)
    → (find_healthy r readmit now searching hs next).0 ≡ includes hs r
unfolding find_healthy
find_healthy-includes r readmit now searching [] next = refl
find_healthy-includes r readmit now searching (h ∷ hs) next = ground (
  arith,
  find_healthy-includes r readmit now searching hs
      (if searching && ltb now readmit then min readmit next else next),
)

includes_step :
    (store : ℕ → Node) (now r : ℕ) (rs healthy : List ℕ) (found : Bool) (q : ℕ)
    → found ≡ includes healthy r
    → (includes
          (if if found then false else is_due store now r then healthy ++ r ∷ [] else healthy)
          q
        || (includes rs q && is_due store now q))
      ≡ (includes healthy q || (includes (r ∷ rs) q && is_due store now q))
includes_step store now r rs healthy found q e = ground (arith, includes-append healthy (r ∷ []) q)

Distinct-step :
    (r : ℕ) (healthy : List ℕ) (found due : Bool)
    → found ≡ includes healthy r
    → Distinct healthy
    → Distinct (if if found then false else due then healthy ++ r ∷ [] else healthy)
Distinct-step r healthy true due e d = d
Distinct-step r healthy false true e d = Distinct-snoc healthy r d (sym e)
Distinct-step r healthy false false e d = d

readmit_loop-includes :
    (store : ℕ → Node) (now : ℕ) (rs healthy : List ℕ) (next : ℕ) (searching : Bool) (q : ℕ)
    → includes (readmit_loop store now rs healthy next searching).0 q
      ≡ (includes healthy q || (includes rs q && is_due store now q))
unfolding readmit_loop
readmit_loop-includes store now [] healthy next searching q = ground arith
readmit_loop-includes store now (r ∷ rs) healthy next searching q =
    let readmit = (store r).readmit_time in
    let found = (find_healthy r readmit now searching healthy next).0 in
    let push = if found then false else leb readmit now in
    let rest =
      readmit_loop-includes store now rs (if push then healthy ++ r ∷ [] else healthy)
        (find_healthy r readmit now searching healthy next).1 (if found then searching else false)
        q in
    rest
    ∙ includes_step store now r rs healthy found q
        (find_healthy-includes r readmit now searching healthy next)

readmit_loop-Distinct :
    (store : ℕ → Node) (now : ℕ) (rs healthy : List ℕ) (next : ℕ) (searching : Bool)
    → Distinct healthy
    → Distinct (readmit_loop store now rs healthy next searching).0
unfolding readmit_loop
readmit_loop-Distinct store now [] healthy next searching d = d
readmit_loop-Distinct store now (r ∷ rs) healthy next searching d =
    let readmit = (store r).readmit_time in
    readmit_loop-Distinct store now rs _ _ _ (
      Distinct-step r healthy _ (leb readmit now)
        (find_healthy-includes r readmit now searching healthy next) d)

-- When a readmission is due, a node is healthy afterwards exactly if it was before, or is a known
-- node whose own readmit time has come: the minimal and the maximal readmit period play no part in
-- which nodes are readmitted.
pub readmit_nodes-includes :
    (n : Network) (now q : ℕ)
    → n.earliest_readmit_time ≤ now
    → includes (readmit_nodes n now).healthy q
      ≡ (includes n.healthy q || (includes n.nodes q && is_due n.store now q))
unfolding readmit_nodes
readmit_nodes-includes n now q h =
    rw (le→leb _ _ h) (readmit_loop-includes n.store now n.nodes n.healthy max_safe_integer true q)

-- A readmission keeps the list of healthy nodes free of repetitions.
pub readmit_nodes-Distinct :
    (n : Network) (now : ℕ) → Distinct n.healthy → Distinct (readmit_nodes n now).healthy
unfolding readmit_nodes
readmit_nodes-Distinct n now d = elim (Bool-cases (leb n.earliest_readmit_time now)) [
  | inl due ↦ rw due (readmit_loop-Distinct n.store now n.nodes n.healthy max_safe_integer true d)
  | inr early ↦ rw early d
]

drop_healthy-id : (r : ℕ) (hs : List ℕ) → includes hs r ≡ false → drop_healthy r hs ≡ hs
unfolding drop_healthy
drop_healthy-id r [] h = refl
drop_healthy-id r (x ∷ []) h = ground arith
drop_healthy-id r (x ∷ y ∷ hs) h = ground (arith, drop_healthy-id r (y ∷ hs), drop_healthy-id r hs)

-- Without repetitions, the loop removes exactly the failed node.
pub drop_healthy-select :
    (r : ℕ) (hs : List ℕ) → Distinct hs → drop_healthy r hs ≡ select (λ h. not (h == r)) hs
unfolding drop_healthy
drop_healthy-select r [] d = refl
drop_healthy-select r (x ∷ []) d = ground arith
drop_healthy-select r (x ∷ y ∷ hs) d = ground (
  arith,
  drop_healthy-id r hs,
  drop_healthy-select r hs d.1.1,
  drop_healthy-select r (y ∷ hs) d.1,
)

-- If the healthy nodes are listed without repetitions, a failure at the time `now` takes exactly the
-- node out of them, sets its readmit time to its doubled backoff (up to the maximum) from now on,
-- and changes no other node.
pub increase_backoff_lem :
    (n : Network) (r now q : ℕ)
    → Distinct n.healthy
    → ((increase_backoff n r now).healthy ≡ select (λ h. not (h == r)) n.healthy)
      × (((increase_backoff n r now).store r).readmit_time
          ≡ now + min ((n.store r).current_backoff * 2) (n.store r).max_backoff)
      × ((increase_backoff n r now).store q
          ≡ (if r == q then Node.increase_backoff (n.store r) now else n.store q))
unfolding increase_backoff Node.increase_backoff
increase_backoff_lem n r now q d = (drop_healthy-select r n.healthy d, ground arith, ground arith)
