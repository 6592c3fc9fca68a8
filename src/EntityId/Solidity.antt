-- ===== src/EntityId/Solidity.antt =====
-- `toSolidityAddress` and `fromSolidityAddress`, EntityIdHelper.js under src/, on bytes: the
-- hexadecimal text is left out. `convertToNumber`, util.js under src/, reads the decimal digits of a
-- Long as a double; `DataView.setUint32` writes a number modulo 2^32, the highest byte first.
use native.Mathlib.Nat.{pow-succ'}
use hedera_sdk_js.Common.{
  ℕ, ◌+◌, ◌*◌, ◌/◌, ◌%◌, ◌^◌, ◌≡◌, List, [], ◌∷◌, ◌++◌, Option, none, some, length, if◌then◌else◌,
  ◌==◌, arith, take, drop, ◌<◌, ◌||◌, ◌&&◌, zero, suc, ltb, subst, sym,
}
use hedera_sdk_js.EntityId.{Id3}

-- The distance of neighbouring doubles at a number: 1 below 2^53, and twice as much for each further
-- bit. A Long is below 2^63, and so has 10 further bits.
unfoldable pub double_unit : ℕ → ℕ → ℕ → ℕ
double_unit zero unit v = unit
double_unit (suc fuel) unit v =
    let further = double_unit fuel (unit * 2) v in if ltb v (unit * 2 ^ 53) then unit else further

-- The multiple of the unit that is nearest, and the even one of two.
unfoldable pub round_even : ℕ → ℕ → ℕ
round_even unit v =
    let quotient = v / unit in
    let twice = v % unit * 2 in
    if ltb unit twice || (twice == unit && quotient % 2 == 1)
    then (quotient + 1) * unit
    else quotient * unit

unfoldable pub convert_to_number : ℕ → ℕ
convert_to_number v = round_even (double_unit 10 1 v) v

abbrev pub uint32_bytes : ℕ → List ℕ
uint32_bytes x = (x / 2 ^ 24 % 256) ∷ (x / 2 ^ 16 % 256) ∷ (x / 2 ^ 8 % 256) ∷ (x % 256) ∷ []

abbrev pub zeros : List ℕ
zeros = 0 ∷ 0 ∷ 0 ∷ 0 ∷ []

-- Bytes 0 to 3, 8 to 11 and 16 to 19 are written.
unfoldable pub to_solidity_address : Id3 → List ℕ
to_solidity_address id =
    uint32_bytes (convert_to_number id.shard)
    ++ zeros
    ++ uint32_bytes (convert_to_number id.realm)
    ++ zeros
    ++ uint32_bytes (convert_to_number id.num)

-- `Long.fromBytesBE`.
abbrev pub from_bytes_be : List ℕ → ℕ → ℕ
from_bytes_be [] v = v
from_bytes_be (b ∷ bs) v = from_bytes_be bs (v * 256 + b)

unfoldable pub from_solidity_address : List ℕ → Option Id3
from_solidity_address addr =
    if length addr == 20
    then some (record {
      shard = from_bytes_be (take 4 addr) 0;
      realm = from_bytes_be (take 8 (drop 4 addr)) 0;
      num = from_bytes_be (take 8 (drop 12 addr)) 0;
    })
    else none

-- The unit that is found for a Long has the number among its first 2^53 multiples.
double_unit_lem :
    (fuel unit v : ℕ) → v < unit * 2 ^ 53 * 2 ^ fuel → v < double_unit fuel unit v * 2 ^ 53
unfolding double_unit
double_unit_lem zero unit v h = omega arith
double_unit_lem (suc fuel) unit v h =
    let scaled : unit * 2 * 2 ^ 53 * 2 ^ fuel ≡ unit * 2 ^ 53 * 2 ^ suc fuel =
      rw (pow-succ' 2 fuel) (grind arith) in
    let further = double_unit_lem fuel (unit * 2) v (subst (λ b. v < b) (sym scaled) h) in
    ground arith

-- Ten steps are enough for a Long.
double_unit-Long : (v : ℕ) → v < 2 ^ 63 → v < double_unit 10 1 v * 2 ^ 53
double_unit-Long v h = double_unit_lem 10 1 v h

pub convert_to_number-exact : (v : ℕ) → v < 2 ^ 53 → convert_to_number v ≡ v
unfolding convert_to_number double_unit round_even
convert_to_number-exact v h = ground arith

read_back :
    (shard realm num : ℕ)
    → from_solidity_address
        (uint32_bytes shard ++ zeros ++ uint32_bytes realm ++ zeros ++ uint32_bytes num)
      ≡ some (record { shard = shard % 2 ^ 32; realm = realm % 2 ^ 32; num = num % 2 ^ 32 })
unfolding from_solidity_address
read_back shard realm num = ground arith

-- If the numbers of an id are below 2^53, reading its address back gives each of them modulo 2^32: the
-- id itself if its numbers fit into 32 bits, and another one if not.
pub from_solidity-to_solidity :
    (id : Id3)
    → id.shard < 2 ^ 53
    → id.realm < 2 ^ 53
    → id.num < 2 ^ 53
    → from_solidity_address (to_solidity_address id)
      ≡ some
          (record { shard = id.shard % 2 ^ 32; realm = id.realm % 2 ^ 32; num = id.num % 2 ^ 32 })
unfolding to_solidity_address
from_solidity-to_solidity id h k l =
    rw
      (
        convert_to_number-exact id.shard h,
        convert_to_number-exact id.realm k,
        convert_to_number-exact id.num l,
      )
      (read_back id.shard id.realm id.num)
