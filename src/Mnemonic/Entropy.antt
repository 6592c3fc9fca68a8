-- ===== src/Mnemonic/Entropy.antt =====
-- packages/cryptography/src/util/entropy.js under src/: bytes from the words of a mnemonic. A typed array of
-- bytes keeps each value modulo 256. BigNumber's arithmetic is that of ℕ.
use Prim.Native.Nat.{bit_xor}
use hedera_sdk_js.Common.{
  ℕ, zero, suc, ◌+◌, ◌*◌, ◌/◌, ◌%◌, ◌^◌, Bool, true, false, not, ◌&&◌, String, List, [], ◌∷◌, ◌++◌,
  map, Option, none, some, length, take, drop, if◌then◌else◌, ◌==◌, str_eq,
}
use hedera_sdk_js.Common.Outcome.{Outcome, returns, throws, ◌>>=◌}
use hedera_sdk_js.Mnemonic.Bits.{bit, groups}

abbrev pub later : Option ℕ → Option ℕ
later none = none
later (some i) = some (i + 1)

-- `words.indexOf(word)`, where `none` is -1.
unfoldable pub index_of : List String → String → Option ℕ
index_of [] word = none
index_of (w ∷ ws) word = if str_eq w word then some 0 else later (index_of ws word)

-- Equality of texts of binary digits.
unfoldable pub bits_eq : List Bool → List Bool → Bool
bits_eq [] [] = true
bits_eq [] (c ∷ cs) = false
bits_eq (b ∷ bs) [] = false
bits_eq (b ∷ bs) (c ∷ cs) = (if b then c else not c) && bits_eq bs cs

-- The loop of `convertRadix` over the digits.
unfoldable pub radix_value : ℕ → ℕ → List ℕ → ℕ
radix_value radix num [] = num
radix_value radix num (d ∷ ds) = radix_value radix (num * radix + d) ds

-- And the one that writes the result, from the last place to the first.
unfoldable pub radix_digits : ℕ → ℕ → ℕ → List ℕ → List ℕ
radix_digits radix zero num result = result
radix_digits radix (suc left) num result =
    radix_digits radix left (num / radix) (num % radix % 256 ∷ result)

unfoldable pub convert_radix : List ℕ → ℕ → ℕ → ℕ → List ℕ
unfolding radix_value radix_digits
convert_radix nums from to len = radix_digits to len (radix_value from 0 nums) []

abbrev pub last_or : ℕ → List ℕ → ℕ
last_or d [] = d
last_or d (x ∷ xs) = last_or x xs

abbrev pub without_last : List ℕ → List ℕ
without_last [] = []
without_last (x ∷ []) = []
without_last (x ∷ y ∷ xs) = x ∷ without_last (y ∷ xs)

abbrev pub indices : List String → (String → String) → List String → List ℕ
indices words lower [] = []
indices words lower (w ∷ ws) =
    elim (index_of words (lower w)) [ none ↦ 0 | some i ↦ i ] ∷ indices words lower ws

-- `legacy1`, of words that are all in the list: the bytes and the checksum.
unfoldable pub legacy1 : List String → (String → String) → List String → List ℕ × ℕ
unfolding convert_radix index_of
legacy1 words lower ws =
    let bytes = convert_radix (indices words lower ws) (length words) 256 33 in
    let checksum = last_or 0 bytes in (map (λ b. bit_xor b checksum) (without_last bytes), checksum)

unfoldable pub crc_bits : ℕ → ℕ → ℕ
crc_bits zero crc = crc
crc_bits (suc left) crc = crc_bits left (bit_xor (crc / 2) (if crc % 2 == 0 then 0 else 0xb2))

-- The loop of `crc8`, which leaves out the last byte.
unfoldable pub crc_loop : ℕ → List ℕ → ℕ
unfolding crc_bits
crc_loop crc [] = crc
crc_loop crc (b ∷ bs) = crc_loop (crc_bits 8 (bit_xor crc b)) bs

unfoldable pub crc8 : List ℕ → ℕ
unfolding crc_loop
crc8 bytes = bit_xor (crc_loop 0xff (without_last bytes)) 0xff

-- `(n & (1 << place)) !== 0`.
abbrev pub test_bit : ℕ → ℕ → Bool
test_bit n place = n / 2 ^ place % 2 == 1

-- The bits of a number, from this place down.
unfoldable pub bits_down : ℕ → ℕ → List Bool
bits_down zero n = []
bits_down (suc places) n = test_bit n places ∷ bits_down places n

-- `bytesToBits`.
unfoldable pub bytes_to_bits : List ℕ → List Bool
unfolding bits_down
bytes_to_bits [] = []
bytes_to_bits (b ∷ bs) = bits_down 8 b ++ bytes_to_bits bs

pub data EntropyError : Type 0 where
  word_not_found checksum_mismatch : EntropyError

abbrev pub found : Option ℕ → Outcome EntropyError ℕ
found none = throws word_not_found
found (some i) = returns i

-- The bits of the words, eleven of each.
unfoldable pub concat_bits :
    List String → (String → String) → List String → Outcome EntropyError (List Bool)
unfolding index_of bits_down
concat_bits words lower [] = returns []
concat_bits words lower (w ∷ ws) = do
  i ← found (index_of words (lower w))
  rest ← concat_bits words lower ws
  returns (bits_down 11 i ++ rest)

-- A byte is or-ed together from its bits; each place is written once.
unfoldable pub byte_of : List Bool → ℕ
byte_of [] = 0
byte_of (b ∷ bs) = bit b * 2 ^ length bs + byte_of bs

-- `bits[i] === hashBits[i]` for the bits that are left; there is nothing past the end of the hash.
unfoldable pub starts_with : List Bool → List Bool → Bool
starts_with [] hash = true
starts_with (b ∷ bs) [] = false
starts_with (b ∷ bs) (c ∷ cs) = (if b then c else not c) && starts_with bs cs

-- The checksum of `legacy2` for so many words. A number that is no multiple of three has no whole number of
-- bits for the checksum, and the bit that is compared first is undefined.
unfoldable pub check_entropy : (List ℕ → List ℕ) → ℕ → List Bool → Outcome EntropyError (List ℕ)
check_entropy sha256 count bits =
    let divider = count / 3 * 32 in
    let entropy = map byte_of (groups 8 (take divider bits)) in
    if count % 3 == 0 && starts_with (drop divider bits) (bytes_to_bits (sha256 entropy))
    then returns entropy
    else throws checksum_mismatch

unfoldable pub legacy2 :
    List String
    → (String → String)
    → (List ℕ → List ℕ)
    → List String
    → Outcome EntropyError (List ℕ)
legacy2 words lower sha256 ws = concat_bits words lower ws >>= check_entropy sha256 (length ws)
