-- ===== src/EntityId.antt =====
-- EntityIdHelper.js under src/. A Long is its 64 bits, as a number below 2^64; texts of ids are
-- lists of character codes, of which `_checksum` is only given digits and dots. The regular
-- expressions and the aliases of accounts are not modelled.
pub mod Checksum
pub mod Detection
pub mod Solidity
use hedera_sdk_js.Common.{
  ℕ, zero, suc, ◌+◌, ◌*◌, ◌^◌, ◌%◌, ◌<◌, ◌≡◌, Bool, true, false, ◌||◌, List, [], ◌∷◌, Option, none,
  some, if◌then◌else◌, leb, ltb, arith, ◌≢◌, ◌==◌,
}
use hedera_sdk_js.Common.Outcome.{Outcome, returns, throws}

pub record Id3 : Type 0 where
  pub shard : ℕ
  pub realm : ℕ
  pub num : ℕ

pub data EntityIdError : Type 0 where
  invalid_entity_id negative_number : EntityIdError

-- `Long.isNegative`.
abbrev pub is_negative : ℕ → Bool
is_negative x = leb (2 ^ 63) x

abbrev pub non_negative : ℕ → ℕ → ℕ → Outcome EntityIdError Id3
non_negative shard realm num =
    if is_negative shard || is_negative realm || is_negative num
    then throws negative_number
    else returns (record { shard = shard; realm = realm; num = num })

-- `constructor(props, realmOrNull, numOrNull)` where `props` is a number.
unfoldable pub construct : ℕ → Option ℕ → Option ℕ → Outcome EntityIdError Id3
construct props none none = non_negative 0 0 props
construct props (some realm) (some num) = non_negative props realm num
construct props none (some num) = throws invalid_entity_id
construct props (some realm) none = throws invalid_entity_id

-- The same where `props` is an object, whose missing fields are 0.
abbrev pub or_zero : Option ℕ → ℕ
or_zero none = 0
or_zero (some x) = x

unfoldable pub construct_from : Option ℕ → Option ℕ → ℕ → Outcome EntityIdError Id3
construct_from shard realm num = non_negative (or_zero shard) (or_zero realm) num

pub data Sign : Type 0 where
  less same more : Sign

-- `Long.compare`, of two numbers that are not negative.
abbrev pub long_compare : ℕ → ℕ → Sign
long_compare a b = if ltb a b then less else if ltb b a then more else same

abbrev pub then_compare : Sign → Sign → Sign
then_compare less next = less
then_compare same next = next
then_compare more next = more

-- `compare`: the first field that differs decides.
unfoldable pub compare_ids : Id3 → Id3 → Sign
compare_ids a b =
    then_compare (long_compare a.shard b.shard)
      (then_compare (long_compare a.realm b.realm) (long_compare a.num b.num))

long_compare_trans :
    (x y z : ℕ)
    → long_compare x y ≢ more
    → long_compare y z ≢ more
    → long_compare x z ≡ (if x == y then long_compare y z else less)
long_compare_trans x y z h k = ground arith

-- Ids that ascend from the first to the second and to the third ascend from the first to the third,
-- and the third compares as more than the first.
pub compare_ids_trans :
    (a b c : Id3)
    → compare_ids a b ≡ less
    → compare_ids b c ≡ less
    → (compare_ids a c ≡ less) × (compare_ids c a ≡ more)
unfolding compare_ids
compare_ids_trans a b c h k = ground arith
