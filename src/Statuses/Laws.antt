-- ===== src/Statuses/Laws.antt =====
-- `_shouldRetry` under src/: how the rules of the kinds of requests compare, and the new transaction id.
use hedera_sdk_js.Common.{
  ℕ, suc, zero, ◌≡◌, ◌≢◌, ◌<◌, refl, ap, Bool, false, String, List, [], ◌∷◌, Option, some, arith,
  length,
}
use hedera_sdk_js.LockableList.{set, get, current, read, write}
use hedera_sdk_js.Chunks.{TransactionId}
use hedera_sdk_js.Executable.Retry.{retry}
use hedera_sdk_js.Statuses.{
  Ids, query_state, transaction_state, build_new_transaction_id_list, transaction_expired, is_false,
}

-- Transactions and queries judge a status alike, and a transaction keeps its ids, unless the status is
-- TRANSACTION_EXPIRED.
pub transaction_state-query_state :
    (t : Ids) (generated : String → TransactionId) (s : ℕ)
    → s ≢ transaction_expired
    → transaction_state t generated s ≡ (query_state s, t)
unfolding transaction_state query_state
transaction_state-query_state t generated s h = ground arith

read-write :
    (xs : List (Option TransactionId)) (i : ℕ) (a : TransactionId)
    → i < length xs
    → read (write xs i a) i ≡ some a
read-write [] i a h = absurd (omega arith)
read-write (x ∷ xs) zero a h = refl
read-write (x ∷ xs) (suc i) a h = read-write xs i a (omega arith)

read-write-other :
    (xs : List (Option TransactionId)) (i j : ℕ) (a : TransactionId)
    → i < length xs
    → j ≢ i
    → read (write xs i a) j ≡ read xs j
read-write-other [] i j a h ne = absurd (omega arith)
read-write-other (x ∷ xs) zero zero a h ne = absurd (ne refl)
read-write-other (x ∷ xs) zero (suc j) a h ne = refl
read-write-other (x ∷ xs) (suc i) zero a h ne = refl
read-write-other (x ∷ xs) (suc i) (suc j) a h ne =
    read-write-other xs i j a (omega arith) (λ e. ne (ap suc e))

length-write :
    (xs : List (Option TransactionId)) (i : ℕ) (a : TransactionId)
    → i < length xs
    → length (write xs i a) ≡ length xs
length-write [] i a h = absurd (omega arith)
length-write (x ∷ xs) zero a h = refl
length-write (x ∷ xs) (suc i) a h = ap suc (length-write xs i a (omega arith))

-- A transaction whose ids are not locked.
abbrev pub waiting : List (Option TransactionId) → ℕ → Option Bool → String → Ids
waiting ids index regenerate operator = record {
  transaction_ids = record { list = ids; locked = false; index = some index };
  operator_account_id = some operator;
  regenerate = regenerate;
}

-- A transaction that expired is retried under a new id. Where its ids are not locked, their
-- regeneration was not switched off, there is an operator, and the index is in range, the state is
-- `Retry`, the current id is the one generated for the operator, and the other ids, the index and the
-- number of ids are kept.
pub expired_lem :
    (ids : List (Option TransactionId)) (index j : ℕ) (regenerate : Option Bool) (operator : String)
    (generated : String → TransactionId)
    → is_false regenerate ≡ false
    → index < length ids
    → j ≢ index
    → (let after =
          transaction_state (waiting ids index regenerate operator) generated transaction_expired in
        (after.0 ≡ retry)
        × (current after.1.transaction_ids ≡ some (generated operator))
        × (get after.1.transaction_ids (some j) ≡ read ids j)
        × (after.1.transaction_ids.index ≡ some index)
        × (length after.1.transaction_ids.list ≡ length ids))
unfolding transaction_state build_new_transaction_id_list set current get
expired_lem ids index j regenerate operator generated on h ne = ground (
  arith,
  read-write ids index (generated operator) h,
  read-write-other ids index j (generated operator) h ne,
  length-write ids index (generated operator) h,
)
