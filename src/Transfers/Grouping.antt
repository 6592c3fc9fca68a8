-- ===== src/Transfers/Grouping.antt =====
-- token/AbstractTokenTransferTransaction.js under src/: `_makeTransactionData` groups the transfers by their
-- tokens. `transfers` and `nfts` are the sorted lists.
pub mod Collected
pub mod Complete
use hedera_sdk_js.Common.{
  ℕ, zero, suc, ◌+◌, Bool, true, false, ◌||◌, List, [], ◌∷◌, ◌++◌, Option, none, length,
  if◌then◌else◌,
}
use hedera_sdk_js.EntityId.{Id3, Sign, less, same, more, compare_ids}
use hedera_sdk_js.Transfers.{TokenTransfer, same_id}

pub record NftTransfer : Type 0 where
  pub token_id : Id3
  pub sender : Id3
  pub receiver : Id3
  pub serial : ℕ

pub record Group : Type 0 where
  pub token : Id3
  pub decimals : Option ℕ
  pub transfers : List TokenTransfer
  pub nfts : List NftTransfer

pub record Grouping : Type 0 where
  pub transfers : List TokenTransfer
  pub nfts : List NftTransfer
  pub token_transfer_list : List Group

abbrev pub add_transfer : TokenTransfer → Group → Group
add_transfer t g = record g { transfers = g.transfers ++ t ∷ [] }

abbrev pub add_nft : NftTransfer → Group → Group
add_nft n g = record g { nfts = g.nfts ++ n ∷ [] }

-- The group that was made last.
unfoldable pub last_is : Id3 → List Group → Bool
last_is id [] = false
last_is id (g ∷ []) = same_id g.token id
last_is id (g ∷ h ∷ gs) = last_is id (h ∷ gs)

unfoldable pub on_last : (Group → Group) → List Group → List Group
on_last f [] = []
on_last f (g ∷ []) = f g ∷ []
on_last f (g ∷ h ∷ gs) = g ∷ on_last f (h ∷ gs)

-- The loops that look for a group of a token; the last one is taken.
unfoldable pub has_group : Id3 → List Group → Bool
has_group id [] = false
has_group id (g ∷ gs) = same_id g.token id || has_group id gs

unfoldable pub on_group : Id3 → (Group → Group) → List Group → List Group
unfolding has_group
on_group id f [] = []
on_group id f (g ∷ gs) =
    if has_group id gs then g ∷ on_group id f gs else (if same_id g.token id then f g else g) ∷ gs

abbrev pub group_of : TokenTransfer → List NftTransfer → Group
group_of t ns = record {
  token = t.token_id;
  decimals = t.expected_decimals;
  transfers = t ∷ [];
  nfts = ns;
}

abbrev pub nft_group : NftTransfer → Group
nft_group n = record { token = n.token_id; decimals = none; transfers = []; nfts = n ∷ [] }

-- A new group, where neither token is that of the last group.
abbrev pub by_order :
    Sign
    → TokenTransfer
    → List TokenTransfer
    → NftTransfer
    → List NftTransfer
    → List Group
    → Grouping
by_order same t ts n ns gs = record {
  transfers = ts;
  nfts = ns;
  token_transfer_list = gs ++ group_of t (n ∷ []) ∷ [];
}
by_order less t ts n ns gs = record {
  transfers = ts;
  nfts = n ∷ ns;
  token_transfer_list = gs ++ group_of t [] ∷ [];
}
by_order more t ts n ns gs = record {
  transfers = t ∷ ts;
  nfts = ns;
  token_transfer_list = gs ++ nft_group n ∷ [];
}

-- One round of the loop.
unfoldable pub round : List TokenTransfer → List NftTransfer → List Group → Grouping
unfolding last_is on_last has_group on_group
round [] [] gs = record { transfers = []; nfts = []; token_transfer_list = gs }
round (t ∷ ts) [] gs = record {
  transfers = ts;
  nfts = [];
  token_transfer_list =
      if has_group t.token_id gs
      then on_group t.token_id (add_transfer t) gs
      else gs ++ group_of t [] ∷ [];
}
round [] (n ∷ ns) gs = record {
  transfers = [];
  nfts = ns;
  token_transfer_list =
      if has_group n.token_id gs
      then on_group n.token_id (add_nft n) gs
      else gs ++ nft_group n ∷ [];
}
round (t ∷ ts) (n ∷ ns) gs =
    if last_is t.token_id gs
    then record { transfers = ts; nfts = n ∷ ns; token_transfer_list = on_last (add_transfer t) gs }
    else if last_is n.token_id gs
    then record { transfers = t ∷ ts; nfts = ns; token_transfer_list = on_last (add_nft n) gs }
    else by_order (compare_ids t.token_id n.token_id) t ts n ns gs

-- The loop, of this many rounds.
unfoldable pub rounds : ℕ → Grouping → Grouping
unfolding round
rounds zero s = s
rounds (suc left) s = rounds left (round s.transfers s.nfts s.token_transfer_list)

unfoldable pub group_transfers : List TokenTransfer → List NftTransfer → Grouping
unfolding rounds
group_transfers ts ns =
    rounds (length ts + length ns) (record { transfers = ts; nfts = ns; token_transfer_list = [] })
