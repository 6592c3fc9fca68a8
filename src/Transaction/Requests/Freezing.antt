-- ===== src/Transaction/Requests/Freezing.antt =====
-- transaction/Transaction.js under src/: the requests of a transaction that was just frozen.
use hedera_sdk_js.Common.{
  ℕ, ◌+◌, ◌*◌, ◌≡◌, ◌<◌, refl, sym, ap, ◌∙◌, subst, Bool, true, false, ◌&&◌, String, map, Option,
  none, some, length, if◌then◌else◌, arith, Bool-cases, inl, inr,
}
use hedera_sdk_js.Common.Outcome.{Outcome, returns, >>=-eq-returns}
use hedera_sdk_js.LockableList.{set_list, get, current, is_empty, read}
use hedera_sdk_js.Chunks.{TransactionId}
use hedera_sdk_js.Transaction.{
  Signed, Transaction, Client, TransactionError, make_signed, build_signed, build_ids, freeze_with,
  with_client, choose_nodes, set_node_account_ids, check_transaction_id, is_missing, locked_error,
}
use hedera_sdk_js.Transaction.Requests.{make_request}
use hedera_sdk_js.Transaction.Requests.Laws.{make_request_lem, read-map}

module _ {Data Sig : Type 0} where
  -- The signed and the encoded transactions are the same lists, with the same signer keys.
  pub record SameLists (t m : Transaction Data Sig) : Type 0 where
    pub signed : m.signed ≡ t.signed
    pub transactions : m.transactions ≡ t.transactions
    pub keys : m.signer_public_keys ≡ t.signer_public_keys

  returned :
      {x y : Transaction Data Sig}
      → ◌≡◌ {A = Outcome TransactionError (Transaction Data Sig)} (returns x) (returns y)
      → x ≡ y
  returned e = cc

  pub if_true :
      (b : Bool) (x y : Transaction Data Sig) {z : Transaction Data Sig}
      → b ≡ true
      → (if b then x else y) ≡ z
      → x ≡ z
  if_true b x y h e = rw h at e

  pub if_false :
      (b : Bool) (x y : Transaction Data Sig) {z : Transaction Data Sig}
      → b ≡ false
      → (if b then x else y) ≡ z
      → y ≡ z
  if_false b x y h e = rw h at e

  choose_nodes-SameLists :
      (client : Option (Client Data Sig)) (t m : Transaction Data Sig)
      → choose_nodes client t ≡ returns m
      → SameLists t m
  unfolding choose_nodes
  choose_nodes-SameLists none t m e = cc
  choose_nodes-SameLists (some c) t m e =
      let (ids, first, rest) =
        >>=-eq-returns (locked_error (set_list t.node_account_ids c.node_account_ids)) _ e in
      subst (SameLists t) (returned rest)
        (record { signed = refl; transactions = refl; keys = refl })

  set_node_account_ids-SameLists :
      (client : Option (Client Data Sig)) (t m : Transaction Data Sig)
      → set_node_account_ids client t ≡ returns m
      → SameLists t m
  unfolding set_node_account_ids
  set_node_account_ids-SameLists client t m e = elim (Bool-cases (is_empty t.node_account_ids)) [
    | inl empty ↦ choose_nodes-SameLists client t m (rw empty at e)
    | inr there ↦
        subst (SameLists t) (returned (rw there at e))
          (record { signed = refl; transactions = refl; keys = refl })
  ]

  check_transaction_id_lem :
      (t m : Transaction Data Sig) → check_transaction_id t ≡ returns m → t ≡ m
  unfolding check_transaction_id
  check_transaction_id_lem t m e =
      elim (Bool-cases (is_missing t.operator_account_id && is_empty t.transaction_ids)) [
        | inl bad ↦ cc (rw bad at e)
        | inr good ↦ returned (rw good at e)
      ]

  -- What `freezeWith` builds the signed transactions from.
  pub freeze_with_lem :
      (client : Option (Client Data Sig)) (generated : String → TransactionId)
      (t m : Transaction Data Sig)
      → freeze_with client generated t ≡ returns m
      → (made : Transaction Data Sig) × SameLists t made
        × ((if made.sign_on_demand then made else build_signed made) ≡ m)
  unfolding freeze_with build_ids
  freeze_with_lem client generated t m e =
      let (noded, e1, rest1) =
        >>=-eq-returns (set_node_account_ids client (with_client client t)) _ e in
      let (checked, e2, rest2) = >>=-eq-returns (check_transaction_id noded) _ rest1 in
      let same = set_node_account_ids-SameLists client (with_client client t) noded e1 in
      let checked_same : SameLists t checked =
        subst (SameLists t) (check_transaction_id_lem noded checked e2)
          (record { signed = same.signed; transactions = same.transactions; keys = same.keys }) in
      (
        build_ids checked generated,
        record {
          signed = checked_same.signed;
          transactions = checked_same.transactions;
          keys = checked_same.keys;
        },
        returned rest2,
      )

  pub unlocked_lem :
      (made : Transaction Data Sig)
      → made.signed.locked ≡ false
      → build_signed made ≡ record made {
        signed = record made.signed {
          list = map (λ node. some (make_signed made node)) made.node_account_ids.list;
          index = some 0;
        };
      }
  unfolding build_signed
  unlocked_lem made h = rw h refl

  build_signed-node_account_ids :
      (made : Transaction Data Sig) → (build_signed made).node_account_ids ≡ made.node_account_ids
  unfolding build_signed
  build_signed-node_account_ids made = ground arith

  build_signed-transaction_ids :
      (made : Transaction Data Sig) → (build_signed made).transaction_ids ≡ made.transaction_ids
  unfolding build_signed
  build_signed-transaction_ids made = ground arith

  built_request :
      (made : Transaction Data Sig) (j : ℕ)
      → made.sign_on_demand ≡ false
      → made.signed.locked ≡ false
      → made.transactions.locked ≡ false
      → made.transaction_ids.index ≡ some 0
      → made.node_account_ids.index ≡ some j
      → j < length made.node_account_ids.list
      → (s : Signed Data Sig) × (k : Transaction Data Sig) × (make_request (build_signed made)
          ≡ returns (some s, k))
        × (s.body.node ≡ current made.node_account_ids)
        × (s.body.transaction_id ≡ current made.transaction_ids)
  unfolding build_signed make_signed current get
  built_request made j demand unlocked open_list at_id at_node h =
      let all = map (λ node. some (make_signed made node)) made.node_account_ids.list in
      let b : Transaction Data Sig = record made {
        signed = record made.signed { list = all; index = some 0 };
      } in
      let s = make_signed made (read made.node_account_ids.list j) in
      let flat : 0 * length made.node_account_ids.list + j ≡ j = omega arith in
      let there : read all (0 * length made.node_account_ids.list + j) ≡ some s =
        ap (λ index. read all index) flat
        ∙ read-map (make_signed made) made.node_account_ids.list j h in
      let (k, e) = make_request_lem b 0 j s demand open_list at_id at_node there in
      (
        s,
        k,
        ap make_request (unlocked_lem made unlocked) ∙ e,
        ap (get made.node_account_ids) (sym at_node),
        refl,
      )

  -- Where the lists of signed and encoded transactions are not locked, and a transaction that is not
  -- signed on demand was frozen, the request that it makes at its first id and at a node that is in
  -- range is a signed transaction whose body names this node and this id.
  pub make_request-freeze_with :
      (client : Option (Client Data Sig)) (generated : String → TransactionId)
      (t m : Transaction Data Sig) (j : ℕ)
      → t.signed.locked ≡ false
      → t.transactions.locked ≡ false
      → freeze_with client generated t ≡ returns m
      → m.sign_on_demand ≡ false
      → m.transaction_ids.index ≡ some 0
      → m.node_account_ids.index ≡ some j
      → j < length m.node_account_ids.list
      → (s : Signed Data Sig) × (k : Transaction Data Sig) × (make_request m ≡ returns (some s, k))
        × (s.body.node ≡ current m.node_account_ids)
        × (s.body.transaction_id ≡ current m.transaction_ids)
  make_request-freeze_with client generated t m j unlocked open_list e demand at_id at_node h =
      let (made, same, built) = freeze_with_lem client generated t m e in
      let free : made.signed.locked ≡ false = ap (λ l. l.locked) same.signed ∙ unlocked in
      let free' : made.transactions.locked ≡ false =
        ap (λ l. l.locked) same.transactions ∙ open_list in
      elim (Bool-cases made.sign_on_demand) [
        | inl on ↦ cc (
            sym on ∙ ap (λ m. m.sign_on_demand) (if_true made.sign_on_demand _ _ on built) ∙ demand)
        | inr off ↦
            let at : build_signed made ≡ m = if_false made.sign_on_demand _ _ off built in
            let ids : made.transaction_ids ≡ m.transaction_ids =
              sym (build_signed-transaction_ids made) ∙ ap (λ m. m.transaction_ids) at in
            let nodes : made.node_account_ids ≡ m.node_account_ids =
              sym (build_signed-node_account_ids made) ∙ ap (λ m. m.node_account_ids) at in
            let (s, k, made_request, node, id) =
              built_request made j off free free' (ap (λ l. l.index) ids ∙ at_id)
                (ap (λ l. l.index) nodes ∙ at_node)
                (subst (λ l. j < length l.list) (sym nodes) h) in
            (
              s,
              k,
              ap make_request (sym at) ∙ made_request,
              node ∙ ap current nodes,
              id ∙ ap current ids,
            )
      ]
