-- ===== src/Transaction/Signing/Frozen.antt =====
-- transaction/Transaction.js under src/: the signatures of a transaction from its freezing on.
use hedera_sdk_js.Common.{
  ◌≡◌, ◌<◌, refl, sym, ap, ◌∙◌, subst, true, false, String, List, [], ◌∷◌, map, Option, some,
  length, ltb, All, arith, Bool-cases, inl, inr,
}
use hedera_sdk_js.Common.Outcome.{returns}
use hedera_sdk_js.Chunks.{TransactionId}
use hedera_sdk_js.Transaction.{Transaction, Client, make_signed, build_signed, freeze_with}
use hedera_sdk_js.Transaction.Requests.Freezing.{freeze_with_lem, unlocked_lem, if_true, if_false}
use hedera_sdk_js.Transaction.Signing.Keeps.{Carries, IsSigned, bodies}
use hedera_sdk_js.Transaction.Signing.Laws.{Edit, edits, edits-IsSigned}
use hedera_sdk_js.Transaction.Signing.Prefixes.{UniqueTexts}

module _ {Data Sig : Type 0} where
  unsigned-Carries :
      (made : Transaction Data Sig) (nodes : List (Option String))
      → All (Carries []) (map (λ node. some (make_signed made node)) nodes)
  unfolding make_signed
  unsigned-Carries made [] = tt
  unsigned-Carries made (x ∷ nodes) = (refl, unsigned-Carries made nodes)

  some_node :
      (made : Transaction Data Sig) (nodes : List (Option String))
      → 0 < length nodes
      → ltb 0 (length (map (λ node. some (make_signed made node)) nodes)) ≡ true
  some_node made [] h = absurd (omega arith)
  some_node made (x ∷ nodes) h = ground arith

  build_signed-IsSigned :
      (made : Transaction Data Sig)
      → made.signed.locked ≡ false
      → made.signer_public_keys ≡ []
      → made.sign_on_demand ≡ false
      → 0 < length made.node_account_ids.list
      → IsSigned (build_signed made)
  build_signed-IsSigned made free none_yet demand h =
      subst IsSigned (sym (unlocked_lem made free)) (record {
        carries =
            subst
              (λ keys.
                All (Carries keys)
                  (map (λ node. some (make_signed made node)) made.node_account_ids.list))
              (sym none_yet) (unsigned-Carries made made.node_account_ids.list);
        unique = subst UniqueTexts (sym none_yet) tt;
        not_on_demand = demand;
        frozen = some_node made made.node_account_ids.list h;
      })

  build_signed-nodes :
      (made : Transaction Data Sig)
      → made.signed.locked ≡ false
      → (build_signed made).node_account_ids ≡ made.node_account_ids
  build_signed-nodes made free = ap (λ m. m.node_account_ids) (unlocked_lem made free)

  -- Without signer keys, freezing makes signed transactions that agree with them.
  pub freeze_with-IsSigned :
      (client : Option (Client Data Sig)) (generated : String → TransactionId)
      (t m : Transaction Data Sig)
      → freeze_with client generated t ≡ returns m
      → t.signed.locked ≡ false
      → t.signer_public_keys ≡ []
      → m.sign_on_demand ≡ false
      → 0 < length m.node_account_ids.list
      → IsSigned m
  freeze_with-IsSigned client generated t m e free none_yet demand h =
      let (made, same, built) = freeze_with_lem client generated t m e in
      let free' : made.signed.locked ≡ false = ap (λ l. l.locked) same.signed ∙ free in
      elim (Bool-cases made.sign_on_demand) [
        | inl on ↦ cc (
            sym on ∙ ap (λ m. m.sign_on_demand) (if_true made.sign_on_demand _ _ on built) ∙ demand)
        | inr off ↦
            let at : build_signed made ≡ m = if_false made.sign_on_demand _ _ off built in
            let nodes : made.node_account_ids ≡ m.node_account_ids =
              sym (build_signed-nodes made free') ∙ ap (λ m. m.node_account_ids) at in
            subst IsSigned at (
              build_signed-IsSigned made free' (same.keys ∙ none_yet) off
                (subst (λ l. 0 < length l.list) (sym nodes) h))
      ]

  -- Let a transaction that has no signer keys, and whose list of signed transactions is not locked, be
  -- frozen for one node or more, not to be signed on demand. However it is then signed and signatures
  -- are added and removed, one after the other, without an error and without being frozen again: its
  -- signer keys are different, each of its signed transactions carries exactly one signature of each
  -- of them, and the bodies stay the ones that were frozen.
  pub edits-freeze_with :
      (client : Option (Client Data Sig)) (generated : String → TransactionId)
      (ds : List (Edit Data Sig)) (t m k : Transaction Data Sig)
      → freeze_with client generated t ≡ returns m
      → t.signed.locked ≡ false
      → t.signer_public_keys ≡ []
      → m.sign_on_demand ≡ false
      → 0 < length m.node_account_ids.list
      → edits generated ds m ≡ returns k
      → IsSigned k × (bodies k.signed.list ≡ bodies m.signed.list)
  edits-freeze_with client generated ds t m k e free none_yet demand h f =
      edits-IsSigned generated ds m k
        (freeze_with-IsSigned client generated t m e free none_yet demand h) f
