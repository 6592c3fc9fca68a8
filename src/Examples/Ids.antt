-- ===== src/Examples/Ids.antt =====
-- EntityIdHelper.js under src/ at concrete inputs.
use hedera_sdk_js.Common.{ℕ, ◌≡◌, ◌≢◌, refl, ◌^◌, ◌+◌, List, [], ◌∷◌, some, arith}
use hedera_sdk_js.EntityId.{Id3}
use hedera_sdk_js.EntityId.Checksum.{checksum}
use hedera_sdk_js.EntityId.Detection.{checksum_change}
use hedera_sdk_js.EntityId.Solidity.{
  from_solidity_address, to_solidity_address, convert_to_number, double_unit, round_even,
  from_solidity-to_solidity,
}

-- "0.0.123" has the checksum "vfmkw" on the main network.
abbrev text : List ℕ
text = b'0' ∷ b'.' ∷ b'0' ∷ b'.' ∷ b'1' ∷ b'2' ∷ b'3' ∷ []

main_net : checksum (0 ∷ []) text ≡ b'v' ∷ b'f' ∷ b'm' ∷ b'k' ∷ b'w' ∷ []
unfolding checksum
main_net = refl

-- "0.0.123" and "0.0.193".
checksum_change_example :
    checksum (0 ∷ []) text ≢ checksum (0 ∷ []) (b'0' ∷ b'.' ∷ b'0' ∷ b'.' ∷ b'1' ∷ b'9' ∷ b'3' ∷ [])
checksum_change_example =
    checksum_change (0 ∷ []) (b'0' ∷ b'.' ∷ b'0' ∷ b'.' ∷ b'1' ∷ []) (b'3' ∷ []) b'2' b'9'
      (omega arith) (omega arith) (omega arith)

abbrev id : ℕ → Id3
id num = record { shard = 0; realm = 1; num = num }

-- A number of more than 32 bits loses the upper ones.
from_solidity-to_solidity_example :
    from_solidity_address (to_solidity_address (id (2 ^ 32 + 7))) ≡ some (id 7)
from_solidity-to_solidity_example =
    from_solidity-to_solidity (id (2 ^ 32 + 7)) (omega arith) (omega arith) (omega arith)

-- 2^53 + 1 is rounded to 2^53, and 2^53 + 3 to 2^53 + 4.
rounded : from_solidity_address (to_solidity_address (id (2 ^ 53 + 1))) ≡ some (id 0)
unfolding to_solidity_address from_solidity_address convert_to_number double_unit round_even
rounded = refl

rounded_up : convert_to_number (2 ^ 53 + 3) ≡ 2 ^ 53 + 4
unfolding convert_to_number double_unit round_even
rounded_up = refl
