-- ===== src/Transaction/Requests.antt =====
-- transaction/Transaction.js under src/: the transactions that are sent, one for each node of each chunk.
-- `_buildTransaction` encodes a signed transaction; of an index without one the encoding throws. An index
-- that is NaN is `none`.
pub mod Laws
pub mod Freezing
use hedera_sdk_js.Common.{
  ℕ, zero, suc, ◌+◌, ◌-◌, ◌*◌, Bool, true, false, not, String, List, [], ◌∷◌, ◌++◌, Option, none,
  some, length, if◌then◌else◌, ltb, ◌&&◌,
}
use hedera_sdk_js.Common.Outcome.{Outcome, returns, throws, ◌>>=◌}
use hedera_sdk_js.LockableList.{
  LockableList, get, set, set_if_absent, next, read, set_locked, is_empty, current,
}
use hedera_sdk_js.Chunks.{TransactionId}
use hedera_sdk_js.Transaction.{
  Body, SigPair, Signed, Transaction, TransactionError, list_is_locked, id_missing,
  signature_missing, no_signed_transaction, is_signed_on_demand, make_signed, build_signed,
  is_frozen, not_frozen,
}

abbrev pub holes {ℓ} : {A : Type ℓ} → ℕ → List (Option A)
holes zero = []
holes (suc n) = none ∷ holes n

abbrev pub is_absent {ℓ} : {A : Type ℓ} → Option A → Bool
is_absent none = true
is_absent (some a) = false

abbrev pub flat_index : Option ℕ → ℕ → Option ℕ → Option ℕ
flat_index none count _ = none
flat_index (some id) count none = none
flat_index (some id) count (some node) = some (id * count + node)

module _ {A : Type 0} where
  -- `for (let i = length; i < index; i++) transactions.push(null)`.
  unfoldable pub pad : LockableList A → ℕ → Outcome TransactionError (LockableList A)
  pad l index =
      if ltb (length l.list) index
      then (if l.locked
          then throws list_is_locked
          else returns (record l { list = l.list ++ holes (index - length l.list) }))
      else returns l

  -- The write, which replaces what is there or fills the hole.
  unfoldable pub fill : LockableList A → ℕ → A → LockableList A
  unfolding set set_if_absent
  fill l index item =
      set_if_absent (if is_absent (read l.list index) then l else set l index item) index item

module _ {Data Sig : Type 0} where
  abbrev pub signed_at : Option (Signed Data Sig) → Outcome TransactionError (Signed Data Sig)
  signed_at none = throws no_signed_transaction
  signed_at (some s) = returns s

  unfoldable pub build_transaction :
      ℕ → Transaction Data Sig → Outcome TransactionError (Transaction Data Sig)
  unfolding pad fill get
  build_transaction index t = do
    padded ← pad t.transactions index
    s ← signed_at (get t.signed (some index))
    returns (record t { transactions = fill padded index s })

  -- `_buildAllTransactions`: the loop, with the rounds that are left and the index.
  unfoldable pub build_all :
      ℕ → ℕ → Transaction Data Sig → Outcome TransactionError (Transaction Data Sig)
  unfolding build_transaction
  build_all zero index t = returns t
  build_all (suc left) index t = build_transaction index t >>= build_all left (index + 1)

  -- The loop of `_signTransaction` over the keys.
  unfoldable pub sign_pairs :
      Body Data → List String → List (Option (Body Data → Sig)) → List (SigPair Sig)
  sign_pairs body [] signers = []
  sign_pairs body (key ∷ keys) [] = sign_pairs body keys []
  sign_pairs body (key ∷ keys) (none ∷ signers) = sign_pairs body keys signers
  sign_pairs body (key ∷ keys) (some signer ∷ signers) =
      record { prefix = key; signature = signer body } ∷ sign_pairs body keys signers

  -- `_signTransaction`, which also goes on to the next node.
  unfoldable pub sign_transaction : Transaction Data Sig → Signed Data Sig × Transaction Data Sig
  unfolding next make_signed sign_pairs
  sign_transaction t =
      let s = make_signed t (next t.node_account_ids).0 in
      (
        record s { sig_map = some (sign_pairs s.body t.public_keys t.signers) },
        record t { node_account_ids = (next t.node_account_ids).1 },
      )

  unfoldable pub request_at :
      Option ℕ
      → Transaction Data Sig
      → Outcome TransactionError (Option (Signed Data Sig) × Transaction Data Sig)
  unfolding build_transaction get
  request_at none t = throws no_signed_transaction
  request_at (some index) t = do
    built ← build_transaction index t
    returns (get built.transactions (some index), built)

  -- `_makeRequestAsync`.
  unfoldable pub make_request :
      Transaction Data Sig
      → Outcome TransactionError (Option (Signed Data Sig) × Transaction Data Sig)
  unfolding request_at sign_transaction
  make_request t =
      if t.sign_on_demand
      then returns (some (sign_transaction t).0, (sign_transaction t).1)
      else request_at
          (flat_index t.transaction_ids.index (length t.node_account_ids.list)
            t.node_account_ids.index)
          t

  abbrev pub id_of :
      Option TransactionId
      → Transaction Data Sig
      → Outcome TransactionError (TransactionId × Transaction Data Sig)
  id_of none t = throws id_missing
  id_of (some id) t = returns (id, t)

  -- `_getTransactionId`, which locks the ids.
  unfoldable pub get_transaction_id :
      Transaction Data Sig → Outcome TransactionError (TransactionId × Transaction Data Sig)
  unfolding is_empty set_locked current
  get_transaction_id t =
      if is_empty t.transaction_ids
      then throws id_missing
      else id_of (current t.transaction_ids)
          (record t { transaction_ids = set_locked t.transaction_ids })

  -- `toBytes` of a frozen transaction: the transactions that are encoded.
  unfoldable pub to_bytes_frozen :
      Transaction Data Sig
      → Outcome TransactionError (List (Option (Signed Data Sig)) × Transaction Data Sig)
  unfolding build_all set_locked
  to_bytes_frozen t =
      if t.sign_on_demand
      then throws is_signed_on_demand
      else (build_all (length t.signed.list) 0 (record t {
        transaction_ids = set_locked t.transaction_ids;
        node_account_ids = set_locked t.node_account_ids;
      })
          >>= λ built. returns (built.transactions.list, built))
