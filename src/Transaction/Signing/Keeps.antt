-- ===== src/Transaction/Signing/Keeps.antt =====
-- transaction/Transaction.js under src/: what a change of the signatures keeps.
use hedera_sdk_js.Common.{
  suc, ◌≡◌, refl, sym, ap, ◌∙◌, subst, true, false, not, ◌||◌, String, List, [], ◌∷◌, ◌++◌, Option,
  none, some, length, if◌then◌else◌, ltb, contains, without, All, Bool-cases, inl, inr,
}
use hedera_sdk_js.Common.Outcome.{Outcome, returns, >>=-eq-returns}
use hedera_sdk_js.LockableList.{set_locked, clear}
use hedera_sdk_js.Chunks.{TransactionId}
use hedera_sdk_js.Transaction.{Body, Signed, Transaction, TransactionError, is_frozen}
use hedera_sdk_js.Transaction.Signing.{
  SignatureMap, pairs_of, sign_all, sign_now, sign_with, ensure_frozen, signature_for, add_all,
  add_new, remove_all, remove_present, clear_all,
}
use hedera_sdk_js.Transaction.Signing.Prefixes.{
  UniqueTexts, without-UniqueTexts, snoc-UniqueTexts, returned, prefixes, prefixes-snoc,
  keep_map-prefixes, emptied-prefixes,
}

module _ {Data Sig : Type 0} where
  -- Exactly these keys have signed it, in this order.
  abbrev pub Carries : List String → Option (Signed Data Sig) → Type 0
  Carries keys none = Unit {0}
  Carries keys (some s) = prefixes (pairs_of s.sig_map) ≡ keys

  -- A frozen transaction that is not signed on demand: each signed transaction carries one signature of
  -- each signer key, in the order of the keys, and no other.
  pub record IsSigned (t : Transaction Data Sig) : Type 0 where
    pub carries : All (Carries t.signer_public_keys) t.signed.list
    pub unique : UniqueTexts t.signer_public_keys
    pub not_on_demand : t.sign_on_demand ≡ false
    pub frozen : ltb 0 (length t.signed.list) ≡ true

  abbrev pub bodies : List (Option (Signed Data Sig)) → List (Option (Body Data))
  bodies [] = []
  bodies (none ∷ ss) = none ∷ bodies ss
  bodies (some s ∷ ss) = some s.body ∷ bodies ss

  pub length-bodies : (ss : List (Option (Signed Data Sig))) → length (bodies ss) ≡ length ss
  length-bodies [] = refl
  length-bodies (none ∷ ss) = ap suc (length-bodies ss)
  length-bodies (some s ∷ ss) = ap suc (length-bodies ss)

  pub sign_all-Carries :
      (key : String) (signer : Body Data → Sig) (keys : List String)
      (ss : List (Option (Signed Data Sig)))
      → All (Carries keys) ss
      → All (Carries (keys ++ key ∷ [])) (sign_all key signer ss)
        × (bodies (sign_all key signer ss) ≡ bodies ss)
  unfolding sign_all
  sign_all-Carries key signer keys [] a = (tt, refl)
  sign_all-Carries key signer keys (none ∷ ss) a =
      let (c, b) = sign_all-Carries key signer keys ss a.1 in ((tt, c), ap (◌∷◌ none) b)
  sign_all-Carries key signer keys (some s ∷ ss) a =
      let (c, b) = sign_all-Carries key signer keys ss a.1 in
      (
        (prefixes-snoc (pairs_of s.sig_map) _ ∙ ap (λ ks. ks ++ key ∷ []) a.0, c),
        ap (◌∷◌ (some s.body)) b,
      )

  pub add_all-Carries :
      (signatures : SignatureMap Sig) (key : String) (keys : List String)
      (ss rs : List (Option (Signed Data Sig)))
      → All (Carries keys) ss
      → add_all signatures key ss ≡ returns rs
      → All (Carries (keys ++ key ∷ [])) rs × (bodies rs ≡ bodies ss)
  unfolding add_all
  add_all-Carries signatures key keys [] rs a e =
      subst (λ rs. All (Carries (keys ++ key ∷ [])) rs × (bodies rs ≡ [])) (returned e) (tt, refl)
  add_all-Carries signatures key keys (none ∷ ss) rs a e =
      let (rest, first, e') = >>=-eq-returns (add_all signatures key ss) _ e in
      let (c, b) = add_all-Carries signatures key keys ss rest a.1 first in
      subst (λ rs. All (Carries (keys ++ key ∷ [])) rs × (bodies rs ≡ none ∷ bodies ss))
        (returned e') ((tt, c), ap (◌∷◌ none) b)
  add_all-Carries signatures key keys (some s ∷ ss) rs a e =
      let (signature, found, e1) =
        >>=-eq-returns (signature_for signatures key s.body.transaction_id s.body.node) _ e in
      let (rest, first, e2) = >>=-eq-returns (add_all signatures key ss) _ e1 in
      let (c, b) = add_all-Carries signatures key keys ss rest a.1 first in
      subst (λ rs. All (Carries (keys ++ key ∷ [])) rs × (bodies rs ≡ some s.body ∷ bodies ss))
        (returned e2)
        (
          (prefixes-snoc (pairs_of s.sig_map) _ ∙ ap (λ ks. ks ++ key ∷ []) a.0, c),
          ap (◌∷◌ (some s.body)) b,
        )

  pub remove_all-Carries :
      (key : String) (keys : List String) (ss : List (Option (Signed Data Sig)))
      → All (Carries keys) ss
      → All (Carries (without key keys)) (remove_all key ss).0
        × (bodies (remove_all key ss).0 ≡ bodies ss)
  unfolding remove_all
  remove_all-Carries key keys [] a = (tt, refl)
  remove_all-Carries key keys (none ∷ ss) a =
      let (c, b) = remove_all-Carries key keys ss a.1 in ((tt, c), ap (◌∷◌ none) b)
  remove_all-Carries key keys (some s ∷ ss) a =
      let (c, b) = remove_all-Carries key keys ss a.1 in
      ((keep_map-prefixes key keys s.sig_map a.0, c), ap (◌∷◌ (some s.body)) b)

  pub clear_all-Carries :
      (ss : List (Option (Signed Data Sig)))
      → All (Carries []) (clear_all ss) × (bodies (clear_all ss) ≡ bodies ss)
  unfolding clear_all
  clear_all-Carries [] = (tt, refl)
  clear_all-Carries (none ∷ ss) = let (c, b) = clear_all-Carries ss in ((tt, c), ap (◌∷◌ none) b)
  clear_all-Carries (some s ∷ ss) =
      let (c, b) = clear_all-Carries ss in
      ((emptied-prefixes s.sig_map, c), ap (◌∷◌ (some s.body)) b)

  -- The bodies are the ones that were frozen, and the transaction is signed.
  abbrev pub Keeps : Transaction Data Sig → Transaction Data Sig → Type 0
  Keeps t m = IsSigned m × (bodies m.signed.list ≡ bodies t.signed.list)

  pub still_frozen :
      (ss rs : List (Option (Signed Data Sig)))
      → bodies rs ≡ bodies ss
      → ltb 0 (length ss) ≡ true
      → ltb 0 (length rs) ≡ true
  still_frozen ss rs b h = rw (sym (length-bodies rs) ∙ ap length b ∙ length-bodies ss) h

  pub frozen_lem :
      (generated : String → TransactionId) (t : Transaction Data Sig)
      → IsSigned t
      → ensure_frozen generated t ≡ returns t
  unfolding ensure_frozen
  frozen_lem generated t x = rw x.frozen refl

  pub sign_new-Keeps :
      (key : String) (signer : Body Data → Sig) (t : Transaction Data Sig)
      → IsSigned t
      → contains t.signer_public_keys key ≡ false
      → Keeps t (sign_now key signer t)
  unfolding sign_now set_locked clear
  sign_new-Keeps key signer t x new =
      let (c, b) = sign_all-Carries key signer t.signer_public_keys t.signed.list x.carries in
      rw x.not_on_demand (
        record {
          carries = c;
          unique = snoc-UniqueTexts t.signer_public_keys key x.unique new;
          not_on_demand = refl;
          frozen = still_frozen t.signed.list (sign_all key signer t.signed.list) b x.frozen;
        },
        b,
      )

  pub sign_with-Keeps :
      (key : String) (signer : Body Data → Sig) (t m : Transaction Data Sig)
      → IsSigned t
      → sign_with key signer t ≡ returns m
      → Keeps t m
  unfolding sign_with is_frozen
  sign_with-Keeps key signer t m x e =
      let ready : not (t.sign_on_demand || (t.sign_on_demand || ltb 0 (length t.signed.list)))
          ≡ false =
        rw (x.not_on_demand, x.frozen) refl in
      let e' : ◌≡◌ {A = Outcome TransactionError (Transaction Data Sig)}
          (returns (if contains t.signer_public_keys key then t else sign_now key signer t))
          (returns m) =
        rw ready at e in
      elim (Bool-cases (contains t.signer_public_keys key)) [
        | inl old ↦ subst (Keeps t) (returned (rw old at e')) (x, refl)
        | inr new ↦ subst (Keeps t) (returned (rw new at e')) (sign_new-Keeps key signer t x new)
      ]

  pub add_new-Keeps :
      (key : String) (signatures : SignatureMap Sig) (t m : Transaction Data Sig)
      → IsSigned t
      → add_new key signatures t ≡ returns m
      → Keeps t m
  unfolding add_new
  add_new-Keeps key signatures t m x e = elim (Bool-cases (contains t.signer_public_keys key)) [
    | inl old ↦ subst (Keeps t) (returned (rw old at e)) (x, refl)
    | inr new ↦
        let (ss, first, e') =
          >>=-eq-returns (add_all signatures key t.signed.list) _ (rw new at e) in
        let (c, b) =
          add_all-Carries signatures key t.signer_public_keys t.signed.list ss x.carries first in
        subst (Keeps t) (returned e') (
          record {
            carries = c;
            unique = snoc-UniqueTexts t.signer_public_keys key x.unique new;
            not_on_demand = x.not_on_demand;
            frozen = still_frozen t.signed.list ss b x.frozen;
          },
          b,
        )
  ]

  pub remove_present-Keeps :
      (key : String) (t m : Transaction Data Sig) (removed : List Sig)
      → IsSigned t
      → remove_present key t ≡ returns (m, removed)
      → Keeps t m
  unfolding remove_present
  remove_present-Keeps key t m removed x e = elim (Bool-cases (contains t.signer_public_keys key)) [
    | inl old ↦
        let (c, b) = remove_all-Carries key t.signer_public_keys t.signed.list x.carries in
        subst (Keeps t) (ap (λ o. o.0) (returned (rw old at e))) (
          record {
            carries = c;
            unique = without-UniqueTexts key t.signer_public_keys x.unique;
            not_on_demand = x.not_on_demand;
            frozen = still_frozen t.signed.list (remove_all key t.signed.list).0 b x.frozen;
          },
          b,
        )
    | inr new ↦ cc (rw new at e)
  ]
