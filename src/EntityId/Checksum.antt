-- ===== src/EntityId/Checksum.antt =====
-- `_checksum`, `validateChecksum` and `toStringWithChecksum`, EntityIdHelper.js under src/ (the
-- checksum of HIP-15). JavaScript divides by 26 in floating point and cuts the fraction off when it
-- makes a character; for numbers below 26^5 that is the division of whole numbers.
use hedera_sdk_js.Common.{
  ℕ, zero, suc, ◌+◌, ◌-◌, ◌*◌, ◌/◌, ◌%◌, Bool, true, false, ◌&&◌, List, [], ◌∷◌, ◌++◌, map, Option,
  none, some, length, if◌then◌else◌, ◌==◌,
}
use hedera_sdk_js.Common.Outcome.{Outcome, returns, throws}

abbrev pub p3 : ℕ
p3 = 26 * 26 * 26

abbrev pub p5 : ℕ
p5 = 26 * 26 * 26 * 26 * 26

abbrev pub m : ℕ
m = 1000003

abbrev pub w : ℕ
w = 31

-- A dot counts 10.
abbrev pub digit : ℕ → ℕ
digit c = if c == b'.' then 10 else c - b'0'

pub record Sums : Type 0 where
  pub s : ℕ
  pub s0 : ℕ
  pub s1 : ℕ

-- The loop over the digits; `even` says whether the index is.
unfoldable pub sum_digits : List ℕ → Bool → Sums → Sums
sum_digits [] even t = t
sum_digits (d ∷ ds) true t =
    sum_digits ds false (record t { s = (w * t.s + d) % p3; s0 = (t.s0 + d) % 11 })
sum_digits (d ∷ ds) false t =
    sum_digits ds true (record t { s = (w * t.s + d) % p3; s1 = (t.s1 + d) % 11 })

-- The loop over the bytes of the ledger id.
unfoldable pub hash_ledger : List ℕ → ℕ → ℕ
hash_ledger [] sh = sh
hash_ledger (b ∷ bs) sh = hash_ledger bs ((w * sh + b) % p5)

-- The last loop: a letter in front for each round.
unfoldable pub letters : ℕ → ℕ → List ℕ → List ℕ
letters zero c answer = answer
letters (suc left) c answer = letters left (c / 26) ((b'a' + c % 26) ∷ answer)

abbrev pub start : Sums
start = record { s = 0; s0 = 0; s1 = 0 }

abbrev pub address_sums : List ℕ → Sums
address_sums addr = sum_digits (map digit addr) true start

-- The checksum as a number, before and after the final permutation.
unfoldable pub checksum_number : List ℕ → List ℕ → ℕ
unfolding sum_digits hash_ledger
checksum_number ledger_id addr =
    let t = address_sums addr in
    let sh = hash_ledger (ledger_id ++ 0 ∷ 0 ∷ 0 ∷ 0 ∷ 0 ∷ 0 ∷ []) 0 in
    ((((length addr % 5) * 11 + t.s0) * 11 + t.s1) * p3 + t.s + sh) % p5

unfoldable pub checksum : List ℕ → List ℕ → List ℕ
unfolding checksum_number letters
checksum ledger_id addr = letters 5 (checksum_number ledger_id addr * m % p5) []

pub data ChecksumError : Type 0 where
  bad_entity_id client_null no_ledger_id : ChecksumError

abbrev pub list_eq : List ℕ → List ℕ → Bool
list_eq [] [] = true
list_eq [] (y ∷ ys) = false
list_eq (x ∷ xs) [] = false
list_eq (x ∷ xs) (y ∷ ys) = x == y && list_eq xs ys

-- `validateChecksum`: the address is the text `shard.realm.num`.
unfoldable pub validate_checksum :
    Option (List ℕ) → List ℕ → Option (List ℕ) → Outcome ChecksumError (Unit {0})
unfolding checksum
validate_checksum none addr given = returns tt
validate_checksum (some ledger_id) addr none = returns tt
validate_checksum (some ledger_id) addr (some given) =
    if list_eq given (checksum ledger_id addr) then returns tt else throws bad_entity_id

-- `toStringWithChecksum`, for the ledger id of a client, if there is a client.
unfoldable pub to_string_with_checksum :
    List ℕ → Option (Option (List ℕ)) → Outcome ChecksumError (List ℕ)
unfolding checksum
to_string_with_checksum text none = throws client_null
to_string_with_checksum text (some none) = throws no_ledger_id
to_string_with_checksum text (some (some ledger_id)) =
    returns (text ++ b'-' ∷ checksum ledger_id text)
