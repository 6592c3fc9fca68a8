-- ===== src/Transfers/Totals.antt =====
-- account/TransferTransaction.js and token/AbstractTokenTransferTransaction.js under src/: what the merged
-- transfers amount to.
use hedera_sdk_js.Common.{
  ℕ, ◌+◌, ◌^◌, ◌%◌, ◌≡◌, ◌<◌, ◌≤◌, refl, ◌∙◌, Bool, true, false, ◌&&◌, List, [], ◌∷◌, Option,
  if◌then◌else◌, arith,
}
use hedera_sdk_js.EntityId.{Id3, compare_ids}
use hedera_sdk_js.Transfers.{HbarTransfer, TokenTransfer, same_id, add_hbar, add_token, is_row}

same_id_congr : (a b q : Id3) → same_id a b ≡ true → same_id a q ≡ same_id b q
unfolding same_id compare_ids
same_id_congr a b q h = ground arith

-- One call of `addHbarTransfer` or `addApprovedHbarTransfer`.
pub record Call : Type 0 where
  pub account : Id3
  pub amount : ℕ
  pub approved : Bool

pub add_calls : List HbarTransfer → List Call → List HbarTransfer
add_calls ts [] = ts
add_calls ts (c ∷ cs) = add_calls (add_hbar ts c.account c.amount c.approved) cs

-- What an account gets in all, modulo 2^64.
abbrev pub hbar_total : Id3 → List HbarTransfer → ℕ
hbar_total q [] = 0
hbar_total q (t ∷ ts) =
    ((if same_id t.account_id q then t.amount else 0) + hbar_total q ts) % 2 ^ 64

abbrev pub asked_total : Id3 → List Call → ℕ
asked_total q [] = 0
asked_total q (c ∷ cs) = ((if same_id c.account q then c.amount else 0) + asked_total q cs) % 2 ^ 64

hbar_total-add_hbar :
    (ts : List HbarTransfer) (account q : Id3) (amount : ℕ) (approved : Bool)
    → hbar_total q (add_hbar ts account amount approved)
      ≡ ((if same_id account q then amount else 0) + hbar_total q ts) % 2 ^ 64
unfolding add_hbar
hbar_total-add_hbar [] account q amount approved = refl
hbar_total-add_hbar (t ∷ ts) account q amount approved =
    ground (
      arith,
      hbar_total-add_hbar ts account q amount approved,
      same_id_congr t.account_id account q,
    )

hbar_total-below : (q : Id3) (ts : List HbarTransfer) → hbar_total q ts < 2 ^ 64
hbar_total-below q [] = omega arith
hbar_total-below q (t ∷ ts) = omega arith

-- The merged transfers of any sequence of calls give every account what the calls gave it, modulo
-- 2^64, on top of what it had.
pub hbar_total-add_calls :
    (cs : List Call) (ts : List HbarTransfer) (q : Id3)
    → hbar_total q (add_calls ts cs) ≡ (asked_total q cs + hbar_total q ts) % 2 ^ 64
unfolding add_calls
hbar_total-add_calls [] ts q = omega (arith, hbar_total-below q ts)
hbar_total-add_calls (c ∷ cs) ts q = omega (
  arith,
  hbar_total-add_calls cs (add_hbar ts c.account c.amount c.approved) q,
  hbar_total-add_hbar ts c.account q c.amount c.approved,
)

-- How many rows an account has.
abbrev pub rows_of : Id3 → List HbarTransfer → ℕ
rows_of q [] = 0
rows_of q (t ∷ ts) = (if same_id t.account_id q then 1 else 0) + rows_of q ts

same_id_sym : (a b : Id3) → same_id a b ≡ same_id b a
unfolding same_id compare_ids
same_id_sym a b = ground arith

rows_of-other :
    (ts : List HbarTransfer) (account q : Id3) (amount : ℕ) (approved : Bool)
    → same_id account q ≡ false
    → rows_of q (add_hbar ts account amount approved) ≡ rows_of q ts
unfolding add_hbar
rows_of-other [] account q amount approved h = ground arith
rows_of-other (t ∷ ts) account q amount approved h =
    ground (arith, rows_of-other ts account q amount approved)

rows_of-add_hbar :
    (ts : List HbarTransfer) (account q : Id3) (amount : ℕ) (approved : Bool)
    → rows_of q ts ≤ 1
    → rows_of q (add_hbar ts account amount approved) ≤ 1
unfolding add_hbar
rows_of-add_hbar [] account q amount approved h = ground arith
rows_of-add_hbar (t ∷ ts) account q amount approved h = ground (
  arith,
  rows_of-add_hbar ts account q amount approved,
  rows_of-other ts account q amount approved,
  same_id_congr account q t.account_id,
  same_id_sym t.account_id q,
  same_id_sym t.account_id account,
)

rows_of-add_calls :
    (cs : List Call) (ts : List HbarTransfer) (q : Id3)
    → rows_of q ts ≤ 1
    → rows_of q (add_calls ts cs) ≤ 1
unfolding add_calls
rows_of-add_calls [] ts q h = h
rows_of-add_calls (c ∷ cs) ts q h =
    rows_of-add_calls cs (add_hbar ts c.account c.amount c.approved) q
      (rows_of-add_hbar ts c.account q c.amount c.approved h)

asked_total-small : (cs : List Call) (q : Id3) → (asked_total q cs + 0) % 2 ^ 64 ≡ asked_total q cs
asked_total-small [] q = refl
asked_total-small (c ∷ cs) q = omega arith

-- A transaction that starts with no hbar transfers has, after any sequence of calls, at most one row
-- for each account, and gives the account what the calls gave it, modulo 2^64.
pub add_calls_lem :
    (cs : List Call) (q : Id3)
    → (rows_of q (add_calls [] cs) ≤ 1) × (hbar_total q (add_calls [] cs) ≡ asked_total q cs)
add_calls_lem cs q =
    (rows_of-add_calls cs [] q (omega arith), hbar_total-add_calls cs [] q ∙ asked_total-small cs q)

-- What an account gets of a token, modulo 2^64.
abbrev pub token_total : Id3 → Id3 → List TokenTransfer → ℕ
token_total token q [] = 0
token_total token q (t ∷ ts) =
    ((if is_row token q t then t.amount else 0) + token_total token q ts) % 2 ^ 64

-- A token transfer adds its amount, modulo 2^64, to what its account gets of its token, and nothing
-- to any other account or token.
pub token_total-add_token :
    (ts : List TokenTransfer) (token account kind q : Id3) (amount : ℕ) (approved : Bool)
    (decimals : Option ℕ)
    → token_total kind q (add_token ts token account amount approved decimals)
      ≡ ((if same_id token kind && same_id account q then amount else 0) + token_total kind q ts)
        % 2 ^ 64
unfolding add_token
token_total-add_token [] token account kind q amount approved decimals = refl
token_total-add_token (t ∷ ts) token account kind q amount approved decimals = ground (
  arith,
  token_total-add_token ts token account kind q amount approved decimals,
  same_id_congr t.account_id account q,
  same_id_congr t.token_id token kind,
)
