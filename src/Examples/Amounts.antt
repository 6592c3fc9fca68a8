-- ===== src/Examples/Amounts.antt =====
-- The transfers of a transaction under src/ at concrete inputs.
use hedera_sdk_js.Common.{ℕ, ◌^◌, ◌-◌, ◌≡◌, ◌≤◌, refl, true, false, List, [], ◌∷◌, none}
use hedera_sdk_js.Common.Outcome.{returns}
use hedera_sdk_js.EntityId.{Id3}
use hedera_sdk_js.Transfers.{
  Transfers, TokenTransfer, same_id, add_token, add_token_transfer_with_decimals,
}
use hedera_sdk_js.Transfers.Totals.{
  Call, add_calls, add_calls_lem, rows_of, hbar_total, token_total, token_total-add_token,
}
use hedera_sdk_js.Transfers.Decimals.{any_differs, add_token_transfer_with_decimals_lem}

abbrev account : ℕ → Id3
account num = record { shard = 0; realm = 0; num = num }

-- Account 7 gets 5, account 8 gets 3, and account 7 pays 4.
abbrev calls : List Call
calls =
    record { account = account 7; amount = 5; approved = false }
    ∷ record { account = account 8; amount = 3; approved = false }
    ∷ record { account = account 7; amount = 2 ^ 64 - 4; approved = true }
    ∷ []

add_calls_lem_example :
    (rows_of (account 7) (add_calls [] calls) ≤ 1)
    × (hbar_total (account 7) (add_calls [] calls) ≡ 1)
unfolding same_id
add_calls_lem_example = add_calls_lem calls (account 7)

abbrev row : TokenTransfer
row = record {
  token_id = account 50;
  account_id = account 7;
  expected_decimals = none;
  amount = 10;
  is_approved = false;
}

token_total-add_token_example :
    token_total
      (account 50)
      (account 7)
      (add_token (row ∷ []) (account 50) (account 7) 5 false none)
    ≡ 15
unfolding same_id
token_total-add_token_example =
    token_total-add_token (row ∷ []) (account 50) (account 7) (account 50) (account 7) 5 false none

abbrev collected : Transfers
collected = record { frozen = false; hbar_transfers = []; token_transfers = row ∷ [] }

add_token_transfer_with_decimals_lem_example :
    (m : Transfers) × (add_token_transfer_with_decimals collected (account 50) (account 8) 5 2
      ≡ returns m)
    × (any_differs (account 50) 2 m.token_transfers ≡ false)
unfolding same_id
add_token_transfer_with_decimals_lem_example =
    add_token_transfer_with_decimals_lem collected (account 50) (account 8) 5 2 refl refl
