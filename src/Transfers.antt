-- ===== src/Transfers.antt =====
-- account/TransferTransaction.js and token/AbstractTokenTransferTransaction.js under src/: the transfers
-- that a transaction collects. Accounts and tokens are numbered ids, without aliases; an amount is the
-- 64 bits of a Long. The branches on the types of the arguments are not modelled.
pub mod Totals
pub mod Decimals
pub mod Grouping
use hedera_sdk_js.Common.{
  ℕ, ◌+◌, ◌^◌, ◌%◌, Bool, true, false, not, ◌&&◌, ◌||◌, List, [], ◌∷◌, ◌++◌, Option, none, some,
  if◌then◌else◌, ◌==◌,
}
use hedera_sdk_js.Common.Outcome.{Outcome, returns, throws, ◌>>=◌}
use hedera_sdk_js.EntityId.{Id3, Sign, less, same, more, compare_ids}

pub record HbarTransfer : Type 0 where
  pub account_id : Id3
  pub amount : ℕ
  pub is_approved : Bool

pub record TokenTransfer : Type 0 where
  pub token_id : Id3
  pub account_id : Id3
  pub expected_decimals : Option ℕ
  pub amount : ℕ
  pub is_approved : Bool

pub record Transfers : Type 0 where
  pub frozen : Bool
  pub hbar_transfers : List HbarTransfer
  pub token_transfers : List TokenTransfer

pub data TransferError : Type 0 where
  is_immutable decimals_mismatch : TransferError

abbrev pub is_same : Sign → Bool
is_same less = false
is_same same = true
is_same more = false

-- `a.compare(b) === 0`.
unfoldable pub same_id : Id3 → Id3 → Bool
unfolding compare_ids
same_id a b = is_same (compare_ids a b)

-- `Long.add`.
abbrev pub add_long : ℕ → ℕ → ℕ
add_long a b = (a + b) % 2 ^ 64

-- The loop of `_addHbarTransfer`, and the push after it.
unfoldable pub add_hbar : List HbarTransfer → Id3 → ℕ → Bool → List HbarTransfer
add_hbar [] account amount approved =
    record { account_id = account; amount = amount; is_approved = approved } ∷ []
add_hbar (t ∷ ts) account amount approved =
    let rest = add_hbar ts account amount approved in
    if same_id t.account_id account
    then record t { amount = add_long t.amount amount } ∷ ts
    else t ∷ rest

unfoldable pub add_hbar_transfer : Transfers → Id3 → ℕ → Bool → Outcome TransferError Transfers
unfolding add_hbar
add_hbar_transfer t account amount approved =
    if t.frozen
    then throws is_immutable
    else returns (record t { hbar_transfers = add_hbar t.hbar_transfers account amount approved })

abbrev pub is_row : Id3 → Id3 → TokenTransfer → Bool
is_row token account t = same_id t.token_id token && same_id t.account_id account

abbrev pub new_row : Id3 → Id3 → ℕ → Bool → Option ℕ → TokenTransfer
new_row token account amount approved decimals = record {
  token_id = token;
  account_id = account;
  expected_decimals = decimals;
  amount = amount;
  is_approved = approved;
}

-- The loop of `_addTokenTransfer`, and the push after it. A merge overwrites the decimals.
unfoldable pub add_token : List TokenTransfer → Id3 → Id3 → ℕ → Bool → Option ℕ → List TokenTransfer
add_token [] token account amount approved decimals =
    new_row token account amount approved decimals ∷ []
add_token (t ∷ ts) token account amount approved decimals =
    let rest = add_token ts token account amount approved decimals in
    if is_row token account t
    then record t { amount = add_long t.amount amount; expected_decimals = decimals } ∷ ts
    else t ∷ rest

unfoldable pub add_token_transfer :
    Transfers → Id3 → Id3 → ℕ → Bool → Outcome TransferError Transfers
unfolding add_token
add_token_transfer t token account amount approved =
    if t.frozen
    then throws is_immutable
    else returns (record t {
      token_transfers = add_token t.token_transfers token account amount approved none;
    })

-- `expectedDecimals != null && expectedDecimals !== decimals`.
abbrev pub clashes : Option ℕ → ℕ → Bool
clashes none decimals = false
clashes (some d) decimals = not (d == decimals)

-- One round of the loop of `addTokenTransferWithDecimals`.
abbrev pub with_decimals : Id3 → Id3 → ℕ → ℕ → TokenTransfer → TokenTransfer
with_decimals token account amount decimals t =
    if same_id t.token_id token
    then record t {
      expected_decimals = some decimals;
      amount = if same_id t.account_id account then add_long t.amount amount else t.amount;
    }
    else t

abbrev pub prepend :
    TokenTransfer
    → Bool
    → Outcome TransferError (List TokenTransfer × Bool)
    → Outcome TransferError (List TokenTransfer × Bool)
prepend row found (throws e) = throws e
prepend row found (returns (rows, later)) = returns (row ∷ rows, found || later)

-- The loop: the rows after it, and whether the account was found.
unfoldable pub decimals_loop :
    List TokenTransfer → Id3 → Id3 → ℕ → ℕ → Outcome TransferError (List TokenTransfer × Bool)
decimals_loop [] token account amount decimals = returns ([], false)
decimals_loop (t ∷ ts) token account amount decimals =
    let rest = decimals_loop ts token account amount decimals in
    if same_id t.token_id token && clashes t.expected_decimals decimals
    then throws decimals_mismatch
    else prepend (with_decimals token account amount decimals t) (is_row token account t) rest

abbrev pub or_push : TokenTransfer → List TokenTransfer × Bool → List TokenTransfer
or_push row (rows, true) = rows
or_push row (rows, false) = rows ++ row ∷ []

unfoldable pub add_token_transfer_with_decimals :
    Transfers → Id3 → Id3 → ℕ → ℕ → Outcome TransferError Transfers
unfolding decimals_loop
add_token_transfer_with_decimals t token account amount decimals =
    if t.frozen
    then throws is_immutable
    else (decimals_loop t.token_transfers token account amount decimals >>= λ found.
        returns (record t {
          token_transfers = or_push (new_row token account amount false (some decimals)) found;
        }))
