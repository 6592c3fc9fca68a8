-- ===== src/Transaction.antt =====
-- transaction/Transaction.js under src/: what a transaction consists of, freezing it, and making the
-- requests that are sent. The bytes of a body, and those of a signed transaction, are represented by what
-- they encode; `Data` is what a kind of transaction makes of its fields, `Sig` is a signature. A public
-- key is the hexadecimal text of its bytes; a signer is a function, and `none` where it is null. What a
-- client provides is a `Client`, with the accounts that its network chooses; the validation of checksums
-- is left out. The timestamp that is generated is an argument.
pub mod Signing
pub mod Requests
use hedera_sdk_js.Common.{
  ℕ, zero, suc, ◌+◌, ◌*◌, Bool, true, false, not, ◌&&◌, ◌||◌, String, List, [], ◌∷◌, ◌++◌, map,
  Option, none, some, length, if◌then◌else◌, ◌==◌, ltb,
}
use hedera_sdk_js.Common.Outcome.{Outcome, returns, throws, ◌>>=◌}
use hedera_sdk_js.LockableList.{LockableList, ListError, set_list, current, is_empty}
use hedera_sdk_js.Chunks.{TransactionId}
use hedera_sdk_js.Statuses.{Ids, build_new_transaction_id_list}

pub record Body (Data : Type 0) : Type 0 where
  pub content : Data
  pub fee : Option ℕ
  pub memo : String
  pub transaction_id : Option TransactionId
  pub node : Option String
  pub valid_duration : ℕ

pub record SigPair (Sig : Type 0) : Type 0 where
  pub prefix : String
  pub signature : Sig

-- `sig_map` is `none` where the map of signatures, or its list, is null.
pub record Signed (Data Sig : Type 0) : Type 0 where
  pub body : Body Data
  pub sig_map : Option (List (SigPair Sig))

pub record Operator (Data Sig : Type 0) : Type 0 where
  pub account_id : String
  pub public_key : String
  pub signer : Body Data → Sig

pub record Transaction (Data Sig : Type 0) : Type 0 where
  pub content : Data
  pub transactions : LockableList (Signed Data Sig)
  pub signed : LockableList (Signed Data Sig)
  pub transaction_ids : LockableList TransactionId
  pub node_account_ids : LockableList String
  pub signer_public_keys : List String
  pub public_keys : List String
  pub signers : List (Option (Body Data → Sig))
  pub sign_on_demand : Bool
  pub operator_account_id : Option String
  pub operator : Option (Operator Data Sig)
  pub max_fee : Option ℕ
  pub default_max_fee : ℕ
  pub regenerate : Option Bool
  pub memo : String
  pub valid_duration : ℕ

pub record Client (Data Sig : Type 0) : Type 0 where
  pub sign_on_demand : Bool
  pub operator : Option (Operator Data Sig)
  pub default_max_fee : Option ℕ
  pub default_regenerate : Bool
  pub node_account_ids : List String

pub data TransactionError : Type 0 where
  list_is_locked node_required id_required no_operator not_frozen key_has_not_signed :
      TransactionError
  id_or_node_missing signature_missing id_missing is_signed_on_demand no_signed_transaction :
      TransactionError

abbrev pub locked_error : {A : Type 0} → Outcome ListError A → Outcome TransactionError A
locked_error (returns a) = returns a
locked_error (throws e) = throws list_is_locked

abbrev pub is_missing : Option String → Bool
is_missing none = true
is_missing (some s) = false

abbrev pub or_else : {A : Type 0} → Option A → Option A → Option A
or_else none other = other
or_else (some a) other = some a

module _ {Data Sig : Type 0} where
  -- `_isFrozen`.
  unfoldable pub is_frozen : Transaction Data Sig → Bool
  is_frozen t = t.sign_on_demand || ltb 0 (length t.signed.list)

  -- `_makeTransactionBody` and `_makeSignedTransaction`.
  unfoldable pub make_signed : Transaction Data Sig → Option String → Signed Data Sig
  unfolding current
  make_signed t node = record {
    body = record {
      content = t.content;
      fee = t.max_fee;
      memo = t.memo;
      transaction_id = current t.transaction_ids;
      node = node;
      valid_duration = t.valid_duration;
    };
    sig_map = some [];
  }

  -- `_buildSignedTransactions`.
  unfoldable pub build_signed : Transaction Data Sig → Transaction Data Sig
  unfolding make_signed
  build_signed t = if t.signed.locked then t else record t {
    signed = record t.signed {
      list = map (λ node. some (make_signed t node)) t.node_account_ids.list;
      index = some 0;
    };
  }

  abbrev pub operator_of : Option (Client Data Sig) → Option (Operator Data Sig)
  operator_of none = none
  operator_of (some client) = client.operator

  abbrev pub account_of : Option (Operator Data Sig) → Option String
  account_of none = none
  account_of (some operator) = some operator.account_id

  abbrev pub default_fee : Option (Client Data Sig) → ℕ → ℕ
  default_fee none fee = fee
  default_fee (some client) fee = elim client.default_max_fee [
    | none ↦ fee
    | some client_fee ↦ client_fee
  ]

  abbrev pub regeneration : Option (Client Data Sig) → Option Bool → Option Bool
  regeneration none own = own
  regeneration (some client) own = or_else own (some client.default_regenerate)

  abbrev pub demands : Option (Client Data Sig) → Bool
  demands none = false
  demands (some client) = client.sign_on_demand

  -- The fields that `freezeWith` takes over first.
  abbrev pub with_client : Option (Client Data Sig) → Transaction Data Sig → Transaction Data Sig
  with_client client t = record t {
    sign_on_demand = demands client;
    operator = operator_of client;
    operator_account_id = or_else t.operator_account_id (account_of (operator_of client));
    max_fee = or_else t.max_fee (some (default_fee client t.default_max_fee));
    regenerate = regeneration client t.regenerate;
  }

  unfoldable pub choose_nodes :
      Option (Client Data Sig)
      → Transaction Data Sig
      → Outcome TransactionError (Transaction Data Sig)
  unfolding set_list
  choose_nodes none t = throws node_required
  choose_nodes (some c) t = do
    ids ← locked_error (set_list t.node_account_ids c.node_account_ids)
    returns (record t { node_account_ids = ids })

  -- `_setNodeAccountIds`.
  unfoldable pub set_node_account_ids :
      Option (Client Data Sig)
      → Transaction Data Sig
      → Outcome TransactionError (Transaction Data Sig)
  unfolding is_empty choose_nodes
  set_node_account_ids client t =
      if is_empty t.node_account_ids then choose_nodes client t else returns t

  -- `_setTransactionId`.
  unfoldable pub check_transaction_id :
      Transaction Data Sig → Outcome TransactionError (Transaction Data Sig)
  unfolding is_empty
  check_transaction_id t =
      if is_missing t.operator_account_id && is_empty t.transaction_ids
      then throws id_required
      else returns t

  -- `_buildNewTransactionIdList`.
  unfoldable pub build_ids : Transaction Data Sig → (String → TransactionId) → Transaction Data Sig
  unfolding build_new_transaction_id_list
  build_ids t generated =
      let ids : Ids = record {
        transaction_ids = t.transaction_ids;
        operator_account_id = t.operator_account_id;
        regenerate = t.regenerate;
      } in
      record t { transaction_ids = (build_new_transaction_id_list ids generated).transaction_ids }

  unfoldable pub freeze_with :
      Option (Client Data Sig)
      → (String → TransactionId)
      → Transaction Data Sig
      → Outcome TransactionError (Transaction Data Sig)
  unfolding set_node_account_ids check_transaction_id build_ids build_signed
  freeze_with client generated t = do
    noded ← set_node_account_ids client (with_client client t)
    checked ← check_transaction_id noded
    let made = build_ids checked generated
    returns (if made.sign_on_demand then made else build_signed made)
