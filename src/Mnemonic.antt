-- ===== src/Mnemonic.antt =====
-- packages/cryptography/src/Mnemonic.js under src/: a mnemonic is made of random bytes, and checked. `words` is
-- `bip39Words`, which Mnemonic/Words has; `legacy` is `legacyWords`, `lower` is `toLowerCase`. The digest
-- (SHA-256) is a parameter that takes and gives bytes. A text of binary digits is a list of bits. A mnemonic
-- is the list of its words.
pub mod Words
pub mod Bits
pub mod Groups
pub mod Entropy
pub mod Generated
pub mod Accepted
pub mod WordList
pub mod Legacy
pub mod Radix
use hedera_sdk_js.Common.{
  ℕ, zero, suc, ◌+◌, ◌-◌, ◌*◌, ◌/◌, Bool, true, false, not, ◌&&◌, ◌||◌, String, List, [], ◌∷◌, ◌++◌,
  map, Option, none, some, length, take, drop, get_elem?, if◌then◌else◌, ◌==◌, contains, str_eq,
}
use hedera_sdk_js.Common.Outcome.{Outcome, returns, throws, ◌>>=◌}
use hedera_sdk_js.Mnemonic.Bits.{binary, parse, groups, join}
use hedera_sdk_js.Mnemonic.Entropy.{index_of, legacy1, crc8, bits_eq}

pub data MnemonicError : Type 0 where
  bad_length checksum_mismatch unsupported_length : MnemonicError
  unknown_words : List ℕ → MnemonicError

-- `bytesToBinary`.
unfoldable pub bytes_to_binary : List ℕ → List Bool
bytes_to_binary bytes = join (map (binary 8) bytes)

-- `deriveChecksumBits`.
unfoldable pub derive_checksum_bits : (List ℕ → List ℕ) → List ℕ → List Bool
derive_checksum_bits sha256 entropy =
    take (length entropy * 8 / 32) (bytes_to_binary (sha256 entropy))

-- `undefined`, which `words` is given out of range, is an empty text.
abbrev pub or_undefined : Option String → String
or_undefined none = ""
or_undefined (some word) = word

-- `words[index]`.
abbrev pub word_at : List String → ℕ → String
word_at words index = or_undefined (get_elem? words index)

-- `_generate`, from the random bytes.
unfoldable pub generate_from : List String → (List ℕ → List ℕ) → List ℕ → List String
generate_from words sha256 seed =
    let bits = bytes_to_binary seed ++ derive_checksum_bits sha256 seed in
    map (λ g. word_at words (parse g)) (groups 11 bits)

-- `_generate`: the number of the random bytes depends on the length. `random` gives so many bytes.
unfoldable pub generate :
    List String → (List ℕ → List ℕ) → (ℕ → List ℕ) → ℕ → Outcome MnemonicError (List String)
generate words sha256 random len =
    if len == 12
    then returns (generate_from words sha256 (random 16))
    else if len == 24
    then returns (generate_from words sha256 (random 32))
    else throws unsupported_length

-- The indices of the words that are in no list.
unfoldable pub unknown_from : List String → ℕ → List String → List ℕ
unknown_from words index [] = []
unknown_from words index (w ∷ ws) =
    if contains words w
    then unknown_from words (index + 1) ws
    else index ∷ unknown_from words (index + 1) ws

abbrev pub refuse_unknown : List ℕ → Outcome MnemonicError (Unit {0})
refuse_unknown [] = returns tt
refuse_unknown (i ∷ is) = throws (unknown_words (i ∷ is))

abbrev pub index_or_zero : Option ℕ → ℕ
index_or_zero none = 0
index_or_zero (some i) = i

-- The bits of a mnemonic whose words are all in the list.
unfoldable pub mnemonic_bits : List String → List String → List Bool
mnemonic_bits words ws = join (map (λ w. binary 11 (index_or_zero (index_of words w))) ws)

-- The bits that encode the entropy, and the bytes of these.
unfoldable pub entropy_bytes : List Bool → List ℕ
entropy_bytes bits = map parse (groups 8 (take (length bits / 33 * 32) bits))

-- The checksum of the bits must be that of their entropy.
unfoldable pub check_bits :
    (List ℕ → List ℕ) → List Bool → List String → Outcome MnemonicError (List String)
check_bits sha256 bits ws =
    if bits_eq (derive_checksum_bits sha256 (entropy_bytes bits))
      (drop (length bits / 33 * 32) bits)
    then returns ws
    else throws checksum_mismatch

-- `_validate` of 12 or 24 words, which gives back the words.
unfoldable pub validate_standard :
    List String → (List ℕ → List ℕ) → List String → Outcome MnemonicError (List String)
validate_standard words sha256 ws = do
  known ← refuse_unknown (unknown_from words 0 ws)
  check_bits sha256 (mnemonic_bits words ws) ws

-- And of the 22 words of a legacy mnemonic.
unfoldable pub validate_legacy :
    List String → (String → String) → List String → Outcome MnemonicError (List String)
validate_legacy legacy lower ws = do
  known ← refuse_unknown (unknown_from legacy 0 (map lower ws))
  let decoded = legacy1 legacy lower ws
  if decoded.1 == crc8 decoded.0 then returns ws else throws checksum_mismatch

unfoldable pub validate :
    List String
    → List String
    → (String → String)
    → (List ℕ → List ℕ)
    → List String
    → Outcome MnemonicError (List String)
validate words legacy lower sha256 ws =
    if length ws == 22
    then validate_legacy legacy lower ws
    else if not (length ws == 12 || length ws == 24)
    then throws bad_length
    else validate_standard words sha256 ws
