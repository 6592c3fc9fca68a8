-- ===== src/Transaction/Signing.antt =====
-- transaction/Transaction.js under src/: signing a transaction, adding signatures, and removing them.
-- `_toProtobufSignature` makes the pair of the key and the signature.
pub mod Prefixes
pub mod Keeps
pub mod Laws
pub mod Frozen
pub mod RoundTrip
use hedera_sdk_js.Common.{
  ℕ, zero, suc, ◌+◌, Bool, true, false, not, ◌||◌, String, List, [], ◌∷◌, ◌++◌, map, Option, none,
  some, length, if◌then◌else◌, ltb, contains, without, str_eq,
}
use hedera_sdk_js.Common.Outcome.{Outcome, returns, throws, ◌>>=◌}
use hedera_sdk_js.LockableList.{LockableList, set_locked, clear}
use hedera_sdk_js.Chunks.{TransactionId}
use hedera_sdk_js.Transaction.{
  Body, SigPair, Signed, Operator, Client, Transaction, TransactionError, no_operator, not_frozen,
  key_has_not_signed, id_or_node_missing, signature_missing, is_frozen, freeze_with,
}

-- `signatureMap.get(node)?.get(transactionId)?.get(publicKey)`.
abbrev pub SignatureMap : Type 0 → Type 0
SignatureMap Sig = String → TransactionId → String → Option Sig

-- `xs.pop()`.
unfoldable pub pop {ℓ} : {A : Type ℓ} → List A → List A
pop [] = []
pop (x ∷ []) = []
pop (x ∷ y ∷ xs) = x ∷ pop (y ∷ xs)

module _ {Sig : Type 0} where
  abbrev pub pairs_of : Option (List (SigPair Sig)) → List (SigPair Sig)
  pairs_of none = []
  pairs_of (some pairs) = pairs

  abbrev pub or_missing : Option Sig → Outcome TransactionError Sig
  or_missing none = throws signature_missing
  or_missing (some signature) = returns signature

  abbrev pub signature_for :
      SignatureMap Sig
      → String
      → Option TransactionId
      → Option String
      → Outcome TransactionError Sig
  signature_for signatures key none _ = throws id_or_node_missing
  signature_for signatures key (some id) none = throws id_or_node_missing
  signature_for signatures key (some id) (some node) = or_missing (signatures node id key)

  -- `_removeSignaturesFromTransaction`: the pairs that stay, and the signatures that were removed.
  unfoldable pub keep_pairs : String → List (SigPair Sig) → List (SigPair Sig)
  keep_pairs key [] = []
  keep_pairs key (p ∷ ps) = if str_eq p.prefix key then keep_pairs key ps else p ∷ keep_pairs key ps

  unfoldable pub taken : String → List (SigPair Sig) → List Sig
  taken key [] = []
  taken key (p ∷ ps) = if str_eq p.prefix key then p.signature ∷ taken key ps else taken key ps

  abbrev pub keep_map : String → Option (List (SigPair Sig)) → Option (List (SigPair Sig))
  keep_map key none = none
  keep_map key (some pairs) = some (keep_pairs key pairs)

  abbrev pub emptied : Option (List (SigPair Sig)) → Option (List (SigPair Sig))
  emptied none = none
  emptied (some pairs) = some []

module _ {Data Sig : Type 0} where
  abbrev pub push_pair : String → Sig → Signed Data Sig → Signed Data Sig
  push_pair key signature s = record s {
    sig_map = some (pairs_of s.sig_map ++ record { prefix = key; signature = signature } ∷ []);
  }

  -- The loop of `signWith` over the signed transactions.
  unfoldable pub sign_all :
      String → (Body Data → Sig) → List (Option (Signed Data Sig)) → List (Option (Signed Data Sig))
  sign_all key signer [] = []
  sign_all key signer (none ∷ ss) = none ∷ sign_all key signer ss
  sign_all key signer (some s ∷ ss) =
      some (push_pair key (signer s.body) s) ∷ sign_all key signer ss

  -- `signWith`, after its guards.
  unfoldable pub sign_now : String → (Body Data → Sig) → Transaction Data Sig → Transaction Data Sig
  unfolding sign_all set_locked clear
  sign_now key signer t =
      let noted = record t {
        transactions = clear t.transactions;
        signer_public_keys = t.signer_public_keys ++ key ∷ [];
      } in
      if t.sign_on_demand
      then record noted {
        public_keys = t.public_keys ++ key ∷ [];
        signers = t.signers ++ some signer ∷ [];
      }
      else record noted {
        transaction_ids = set_locked t.transaction_ids;
        node_account_ids = set_locked t.node_account_ids;
        signed = record t.signed { list = sign_all key signer t.signed.list };
      }

  unfoldable pub sign_with :
      String
      → (Body Data → Sig)
      → Transaction Data Sig
      → Outcome TransactionError (Transaction Data Sig)
  unfolding sign_now is_frozen
  sign_with key signer t =
      if not (t.sign_on_demand || is_frozen t)
      then throws not_frozen
      else returns (if contains t.signer_public_keys key then t else sign_now key signer t)

  -- `signWithOperator`.
  unfoldable pub sign_with_operator :
      Client Data Sig
      → (String → TransactionId)
      → Transaction Data Sig
      → Outcome TransactionError (Transaction Data Sig)
  unfolding sign_with freeze_with is_frozen
  sign_with_operator client generated t = elim client.operator [
    | none ↦ throws no_operator
    | some operator ↦ do
      frozen ← (if is_frozen t then returns t else freeze_with (some client) generated t)
      sign_with operator.public_key operator.signer frozen
  ]

  -- `isFrozen() || freeze()`, the first step of what follows.
  unfoldable pub ensure_frozen :
      (String → TransactionId)
      → Transaction Data Sig
      → Outcome TransactionError (Transaction Data Sig)
  unfolding freeze_with
  ensure_frozen generated t =
      if ltb 0 (length t.signed.list) then returns t else freeze_with none generated t

  -- The loop of `addSignature`.
  unfoldable pub add_all :
      SignatureMap Sig
      → String
      → List (Option (Signed Data Sig))
      → Outcome TransactionError (List (Option (Signed Data Sig)))
  add_all signatures key [] = returns []
  add_all signatures key (none ∷ ss) = do rest ← add_all signatures key ss; returns (none ∷ rest)
  add_all signatures key (some s ∷ ss) = do
    signature ← signature_for signatures key s.body.transaction_id s.body.node
    rest ← add_all signatures key ss
    returns (some (push_pair key signature s) ∷ rest)

  abbrev pub added :
      String → Transaction Data Sig → List (Option (Signed Data Sig)) → Transaction Data Sig
  added key t ss = record t {
    transactions = record t.transactions { list = []; index = some 0 };
    transaction_ids = record t.transaction_ids { locked = true };
    node_account_ids = record t.node_account_ids { locked = true };
    signed = record t.signed { list = ss; locked = true };
    signer_public_keys = t.signer_public_keys ++ key ∷ [];
    public_keys = t.public_keys ++ key ∷ [];
    signers = t.signers ++ none ∷ [];
  }

  unfoldable pub add_new :
      String
      → SignatureMap Sig
      → Transaction Data Sig
      → Outcome TransactionError (Transaction Data Sig)
  unfolding add_all
  add_new key signatures t =
      if contains t.signer_public_keys key
      then returns t
      else (add_all signatures key t.signed.list >>= λ ss. returns (added key t ss))

  unfoldable pub add_signature :
      String
      → SignatureMap Sig
      → (String → TransactionId)
      → Transaction Data Sig
      → Outcome TransactionError (Transaction Data Sig)
  unfolding add_new ensure_frozen
  add_signature key signatures generated t = ensure_frozen generated t >>= add_new key signatures

  unfoldable pub remove_all :
      String → List (Option (Signed Data Sig)) → List (Option (Signed Data Sig)) × List Sig
  unfolding keep_pairs taken
  remove_all key [] = ([], [])
  remove_all key (none ∷ ss) = (none ∷ (remove_all key ss).0, (remove_all key ss).1)
  remove_all key (some s ∷ ss) = (
    some (record s { sig_map = keep_map key s.sig_map }) ∷ (remove_all key ss).0,
    taken key (pairs_of s.sig_map) ++ (remove_all key ss).1,
  )

  -- `removeSignature`: the last signer is dropped, whichever key it belongs to.
  unfoldable pub remove_present :
      String → Transaction Data Sig → Outcome TransactionError (Transaction Data Sig × List Sig)
  unfolding remove_all pop
  remove_present key t =
      if contains t.signer_public_keys key
      then returns (
        record t {
          signed = record t.signed { list = (remove_all key t.signed.list).0 };
          signer_public_keys = without key t.signer_public_keys;
          public_keys = without key t.public_keys;
          signers = pop t.signers;
        },
        (remove_all key t.signed.list).1,
      )
      else throws key_has_not_signed

  unfoldable pub remove_signature :
      String
      → (String → TransactionId)
      → Transaction Data Sig
      → Outcome TransactionError (Transaction Data Sig × List Sig)
  unfolding remove_present ensure_frozen
  remove_signature key generated t = ensure_frozen generated t >>= remove_present key

  -- `removeAllSignatures`, without the signatures that it collects.
  unfoldable pub clear_all : List (Option (Signed Data Sig)) → List (Option (Signed Data Sig))
  clear_all [] = []
  clear_all (none ∷ ss) = none ∷ clear_all ss
  clear_all (some s ∷ ss) = some (record s { sig_map = emptied s.sig_map }) ∷ clear_all ss

  unfoldable pub remove_all_signatures :
      (String → TransactionId)
      → Transaction Data Sig
      → Outcome TransactionError (Transaction Data Sig)
  unfolding clear_all ensure_frozen
  remove_all_signatures generated t = do
    frozen ← ensure_frozen generated t
    returns (record frozen {
      signed = record frozen.signed { list = clear_all frozen.signed.list };
      signer_public_keys = [];
      public_keys = [];
      signers = [];
    })
