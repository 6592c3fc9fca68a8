-- ===== src/Examples/Groups.antt =====
-- token/AbstractTokenTransferTransaction.js under src/ at concrete inputs: groups of transfers.
use hedera_sdk_js.Common.{ℕ, ◌≡◌, refl, false, List, [], ◌∷◌, none, map}
use hedera_sdk_js.EntityId.{Id3}
use hedera_sdk_js.Transfers.{TokenTransfer, same_id}
use hedera_sdk_js.Transfers.Grouping.{NftTransfer, group_transfers}
use hedera_sdk_js.Transfers.Grouping.Collected.{collected}
use hedera_sdk_js.Transfers.Grouping.Complete.{group_transfers_lem}

abbrev token : ℕ → Id3
token num = record { shard = 0; realm = 0; num = num }

abbrev row : ℕ → TokenTransfer
row num = record {
  token_id = token num;
  account_id = token 9;
  expected_decimals = none;
  amount = 5;
  is_approved = false;
}

abbrev nft : ℕ → ℕ → NftTransfer
nft num sender = record {
  token_id = token num;
  sender = token sender;
  receiver = token 9;
  serial = 1;
}

abbrev rows : List TokenTransfer
rows = row 1 ∷ row 3 ∷ []

-- Sorted by their senders.
abbrev nfts : List NftTransfer
nfts = nft 2 10 ∷ nft 1 11 ∷ []

group_transfers_lem_example :
    (collected (λ g. g.transfers) (token 1) (group_transfers rows nfts).token_transfer_list
      ≡ row 1 ∷ [])
    × (collected (λ g. g.nfts) (token 1) (group_transfers rows nfts).token_transfer_list
        ≡ nft 1 11 ∷ [])
    × ((group_transfers rows nfts).transfers ≡ [])
    × ((group_transfers rows nfts).nfts ≡ [])
unfolding same_id
group_transfers_lem_example = group_transfers_lem (token 1) rows nfts

-- The first token gets two groups.
two_groups_of_one :
    map (λ g. g.token) (group_transfers rows nfts).token_transfer_list
    ≡ token 1 ∷ token 2 ∷ token 1 ∷ token 3 ∷ []
unfolding group_transfers hedera_sdk_js.EntityId.compare_ids same_id
two_groups_of_one = refl
