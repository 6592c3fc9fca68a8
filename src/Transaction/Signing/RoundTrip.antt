-- ===== src/Transaction/Signing/RoundTrip.antt =====
-- transaction/Transaction.js under src/: a signature that is added and removed again.
use hedera_sdk_js.Common.{
  ◌≡◌, refl, ap, ◌∙◌, subst, true, false, String, List, [], ◌∷◌, ◌++◌, Option, none, some, contains,
  without, without-snoc, eq_refl, All,
}
use hedera_sdk_js.Common.Outcome.{returns, ◌>>=◌}
use hedera_sdk_js.LockableList.{set_locked, clear}
use hedera_sdk_js.Chunks.{TransactionId}
use hedera_sdk_js.Transaction.{Body, SigPair, Signed, Transaction, is_frozen}
use hedera_sdk_js.Transaction.Signing.{
  pairs_of, sign_all, sign_now, sign_with, remove_all, pop, remove_present, remove_signature,
}
use hedera_sdk_js.Transaction.Signing.Keeps.{Carries, IsSigned, sign_new-Keeps, frozen_lem}
use hedera_sdk_js.Transaction.Signing.Prefixes.{
  prefixes, keep_pairs-snoc, taken-snoc, contains-snoc,
}

module _ {Data Sig : Type 0} where
  -- What signed transactions consist of: bodies with their signatures.
  abbrev pub contents :
      List (Option (Signed Data Sig)) → List (Option (Body Data × List (SigPair Sig)))
  contents [] = []
  contents (none ∷ ss) = none ∷ contents ss
  contents (some s ∷ ss) = some (s.body, pairs_of s.sig_map) ∷ contents ss

  -- What a signer makes of the bodies.
  abbrev pub signatures : (Body Data → Sig) → List (Option (Signed Data Sig)) → List Sig
  signatures signer [] = []
  signatures signer (none ∷ ss) = signatures signer ss
  signatures signer (some s ∷ ss) = signer s.body ∷ signatures signer ss

  remove_all-sign_all :
      (key : String) (signer : Body Data → Sig) (keys : List String)
      (ss : List (Option (Signed Data Sig)))
      → contains keys key ≡ false
      → All (Carries keys) ss
      → (contents (remove_all key (sign_all key signer ss)).0 ≡ contents ss)
        × ((remove_all key (sign_all key signer ss)).1 ≡ signatures signer ss)
  unfolding remove_all sign_all
  remove_all-sign_all key signer keys [] new a = (refl, refl)
  remove_all-sign_all key signer keys (none ∷ ss) new a =
      let (c, r) = remove_all-sign_all key signer keys ss new a.1 in (ap (◌∷◌ none) c, r)
  remove_all-sign_all key signer keys (some s ∷ ss) new a =
      let (c, r) = remove_all-sign_all key signer keys ss new a.1 in
      let fresh : contains (prefixes (pairs_of s.sig_map)) key ≡ false =
        ap (λ ks. contains ks key) a.0 ∙ new in
      let kept = keep_pairs-snoc key (signer s.body) (pairs_of s.sig_map) fresh in
      let gone = taken-snoc key (signer s.body) (pairs_of s.sig_map) fresh in
      (
        ap (λ ps. some (s.body, ps) ∷ contents (remove_all key (sign_all key signer ss)).0) kept
            ∙ ap (◌∷◌ (some (s.body, pairs_of s.sig_map))) c,
        ap (λ gs. gs ++ (remove_all key (sign_all key signer ss)).1) gone
            ∙ ap (◌∷◌ (signer s.body)) r,
      )

  -- A frozen transaction after it was signed.
  abbrev after : String → (Body Data → Sig) → Transaction Data Sig → Transaction Data Sig
  after key signer t = record t {
    transactions = clear t.transactions;
    transaction_ids = set_locked t.transaction_ids;
    node_account_ids = set_locked t.node_account_ids;
    signed = record t.signed { list = sign_all key signer t.signed.list };
    signer_public_keys = t.signer_public_keys ++ key ∷ [];
  }

  sign_now-after :
      (key : String) (signer : Body Data → Sig) (t : Transaction Data Sig)
      → t.sign_on_demand ≡ false
      → sign_now key signer t ≡ after key signer t
  unfolding sign_now
  sign_now-after key signer t h = rw h refl

  sign_with-after :
      (key : String) (signer : Body Data → Sig) (t : Transaction Data Sig)
      → IsSigned t
      → contains t.signer_public_keys key ≡ false
      → sign_with key signer t ≡ returns (after key signer t)
  unfolding sign_with sign_now is_frozen
  sign_with-after key signer t x new = rw (x.frozen, x.not_on_demand, new) refl

  abbrev remove_known : String → Transaction Data Sig → Transaction Data Sig × List Sig
  remove_known key t = (
    record t {
      signed = record t.signed { list = (remove_all key t.signed.list).0 };
      signer_public_keys = without key t.signer_public_keys;
      public_keys = without key t.public_keys;
      signers = pop t.signers;
    },
    (remove_all key t.signed.list).1,
  )

  remove_present-known :
      (key : String) (t : Transaction Data Sig)
      → contains t.signer_public_keys key ≡ true
      → remove_present key t ≡ returns (remove_known key t)
  unfolding remove_present
  remove_present-known key t h = rw h refl

  -- Let a frozen transaction not be signed on demand, let its signer keys be different, and let each of
  -- its signed transactions carry exactly one signature of each of them (`IsSigned`). Signing it by a key
  -- that has not signed it succeeds, and so does removing that signature. The removal gives back what the
  -- signer made of each body, and leaves the bodies, their signatures and the signer keys as they were
  -- before.
  pub remove_signature-sign_with :
      (key : String) (signer : Body Data → Sig) (generated : String → TransactionId)
      (t : Transaction Data Sig)
      → IsSigned t
      → contains t.signer_public_keys key ≡ false
      → (m : Transaction Data Sig) × (k : Transaction Data Sig) × (sign_with key signer t
          ≡ returns m)
        × (remove_signature key generated m ≡ returns (k, signatures signer t.signed.list))
        × (contents k.signed.list ≡ contents t.signed.list)
        × (k.signer_public_keys ≡ t.signer_public_keys)
  unfolding sign_with is_frozen remove_signature
  remove_signature-sign_with key signer generated t x new =
      let m = sign_now key signer t in
      let (y, b) = sign_new-Keeps key signer t x new in
      let u = after key signer t in
      let z : IsSigned u = subst IsSigned (sign_now-after key signer t x.not_on_demand) y in
      let known : contains u.signer_public_keys key ≡ true =
        contains-snoc t.signer_public_keys key key ∙ rw (new, eq_refl key) refl in
      let (kept, gone) =
        remove_all-sign_all key signer t.signer_public_keys t.signed.list new x.carries in
      (
        u,
        (remove_known key u).0,
        sign_with-after key signer t x new,
        ap (λ o. o >>= remove_present key) (frozen_lem generated u z)
            ∙ remove_present-known key u known
            ∙ ap (λ gs. returns ((remove_known key u).0, gs)) gone,
        kept,
        without-snoc key t.signer_public_keys new,
      )
