-- ===== src/Transaction/Signing/Laws.antt =====
-- transaction/Transaction.js under src/: signed transactions and the set of signer keys agree.
use hedera_sdk_js.Common.{◌≡◌, refl, ◌∙◌, subst, String, List, [], ◌∷◌}
use hedera_sdk_js.Common.Outcome.{Outcome, returns, ◌>>=◌, >>=-eq-returns}
use hedera_sdk_js.Chunks.{TransactionId}
use hedera_sdk_js.Transaction.{Body, Transaction, TransactionError}
use hedera_sdk_js.Transaction.Signing.{
  SignatureMap, sign_with, add_signature, remove_present, remove_signature, clear_all,
  remove_all_signatures,
}
use hedera_sdk_js.Transaction.Signing.Keeps.{
  IsSigned, bodies, clear_all-Carries, Keeps, still_frozen, frozen_lem, sign_with-Keeps,
  add_new-Keeps, remove_present-Keeps,
}
use hedera_sdk_js.Transaction.Signing.Prefixes.{returned}

-- One change of the signatures.
pub data Edit (Data Sig : Type 0) : Type 0 where
  sign : String → (Body Data → Sig) → Edit Data Sig
  attach : String → SignatureMap Sig → Edit Data Sig
  detach : String → Edit Data Sig
  detach_all : Edit Data Sig

module _ {Data Sig : Type 0} where
  unfoldable pub edit :
      (String → TransactionId)
      → Edit Data Sig
      → Transaction Data Sig
      → Outcome TransactionError (Transaction Data Sig)
  unfolding sign_with add_signature remove_signature remove_all_signatures
  edit generated (sign key signer) t = sign_with key signer t
  edit generated (attach key signatures) t = add_signature key signatures generated t
  edit generated (detach key) t = remove_signature key generated t >>= λ o. returns o.0
  edit generated detach_all t = remove_all_signatures generated t

  unfoldable pub edits :
      (String → TransactionId)
      → List (Edit Data Sig)
      → Transaction Data Sig
      → Outcome TransactionError (Transaction Data Sig)
  unfolding edit
  edits generated [] t = returns t
  edits generated (e ∷ es) t = edit generated e t >>= edits generated es

  edit-Keeps :
      (generated : String → TransactionId) (d : Edit Data Sig) (t m : Transaction Data Sig)
      → IsSigned t
      → edit generated d t ≡ returns m
      → Keeps t m
  unfolding edit
  edit-Keeps generated (sign key signer) t m x e = sign_with-Keeps key signer t m x e
  edit-Keeps generated (attach key signatures) t m x e =
      add_new-Keeps key signatures t m x (rw (frozen_lem generated t x) at e)
  edit-Keeps generated (detach key) t m x e =
      let ((k, removed), first, e') =
        >>=-eq-returns (remove_present key t) _ (rw (frozen_lem generated t x) at e) in
      subst (Keeps t) (returned e') (remove_present-Keeps key t k removed x first)
  edit-Keeps generated detach_all t m x e =
      let (c, b) = clear_all-Carries t.signed.list in
      subst (Keeps t) (returned (rw (frozen_lem generated t x) at e)) (
        record {
          carries = c;
          unique = tt;
          not_on_demand = x.not_on_demand;
          frozen = still_frozen t.signed.list (clear_all t.signed.list) b x.frozen;
        },
        b,
      )

  -- Let a frozen transaction not be signed on demand, let its signer keys be different, and let each of
  -- its signed transactions carry exactly one signature of each of them (`IsSigned`). However it is then
  -- signed and signatures are added and removed, one after the other, without an error and without
  -- being frozen again: all this holds of the result, and the bodies are still the same.
  pub edits-IsSigned :
      (generated : String → TransactionId) (ds : List (Edit Data Sig)) (t m : Transaction Data Sig)
      → IsSigned t
      → edits generated ds t ≡ returns m
      → IsSigned m × (bodies m.signed.list ≡ bodies t.signed.list)
  unfolding edits
  edits-IsSigned generated [] t m x e = subst (Keeps t) (returned e) (x, refl)
  edits-IsSigned generated (d ∷ ds) t m x e =
      let (k, first, rest) = >>=-eq-returns (edit generated d t) (edits generated ds) e in
      let (y, b) = edit-Keeps generated d t k x first in
      let (z, c) = edits-IsSigned generated ds k m y rest in (z, c ∙ b)
