-- ===== src/Examples/Mnemonics.antt =====
-- packages/cryptography/src/Mnemonic.js under src/ at concrete inputs: the list of words is the real one, the
-- digest is always zero.
use hedera_sdk_js.Common.{
  ℕ, ◌*◌, ◌^◌, ◌%◌, ◌<◌, ◌≡◌, ◌⊎◌, ◌↔◌, inl, refl, String, List, [], ◌∷◌, All, length, arith,
}
use hedera_sdk_js.Common.Outcome.{returns}
use hedera_sdk_js.Mnemonic.{generate_from, validate, entropy_bytes, mnemonic_bits}
use hedera_sdk_js.Mnemonic.Words.{bip39_words}
use hedera_sdk_js.Mnemonic.WordList.{bip39_words-IsWordList}
use hedera_sdk_js.Mnemonic.Generated.{IsDigest, AreBytes, validate-generate_from}
use hedera_sdk_js.Mnemonic.Accepted.{validate_iff}
use hedera_sdk_js.Mnemonic.Entropy.{legacy2, convert_radix, radix_value}
use hedera_sdk_js.Mnemonic.Legacy.{legacy2-generate_from}
use hedera_sdk_js.Mnemonic.Radix.{convert_radix_lem}

abbrev digest : List ℕ → List ℕ
digest bs =
    0 ∷ 0 ∷ 0 ∷ 0 ∷ 0 ∷ 0 ∷ 0 ∷ 0 ∷ 0 ∷ 0 ∷ 0 ∷ 0 ∷ 0 ∷ 0 ∷ 0 ∷ 0 ∷ 0 ∷ 0 ∷ 0 ∷ 0 ∷ 0 ∷ 0 ∷ 0 ∷ 0
    ∷ 0 ∷ 0 ∷ 0 ∷ 0 ∷ 0 ∷ 0 ∷ 0 ∷ 0 ∷ []

digest-IsDigest : IsDigest digest
digest-IsDigest = record { size = λ bs. refl; bytes = λ bs. omega arith }

abbrev seed : List ℕ
seed = 0 ∷ 0 ∷ 0 ∷ 0 ∷ 0 ∷ 0 ∷ 0 ∷ 0 ∷ 0 ∷ 0 ∷ 0 ∷ 0 ∷ 0 ∷ 0 ∷ 0 ∷ 0 ∷ []

abbrev abandoned : List String
abandoned =
    "abandon" ∷ "abandon" ∷ "abandon" ∷ "abandon" ∷ "abandon" ∷ "abandon" ∷ "abandon" ∷ "abandon"
    ∷ "abandon" ∷ "abandon" ∷ "abandon" ∷ "abandon" ∷ []

abbrev same : String → String
same s = s

generated : generate_from bip39_words digest seed ≡ abandoned
unfolding generate_from hedera_sdk_js.Mnemonic.Bits.groups hedera_sdk_js.Mnemonic.bytes_to_binary
    hedera_sdk_js.Mnemonic.Bits.binary bip39_words hedera_sdk_js.Mnemonic.Bits.parse
    hedera_sdk_js.Mnemonic.derive_checksum_bits
generated = refl

seed-AreBytes : AreBytes seed
seed-AreBytes = omega arith

validate-generate_from_example :
    (length (generate_from bip39_words digest seed) * 4 ≡ 48)
    × (validate bip39_words [] same digest (generate_from bip39_words digest seed)
        ≡ returns (generate_from bip39_words digest seed))
    × (entropy_bytes (mnemonic_bits bip39_words (generate_from bip39_words digest seed)) ≡ seed)
validate-generate_from_example =
    validate-generate_from bip39_words [] same digest seed bip39_words-IsWordList digest-IsDigest
      (inl refl) seed-AreBytes

validate_iff_example : (validate bip39_words [] same digest abandoned ≡ returns abandoned) ↔ (
    (seed : List ℕ) × ((length seed ≡ 16) ⊎ (length seed ≡ 32))
    × AreBytes seed
    × (generate_from bip39_words digest seed ≡ abandoned))
validate_iff_example =
    validate_iff bip39_words [] same digest abandoned bip39_words-IsWordList digest-IsDigest
      (λ e. omega arith)

legacy2-generate_from_example :
    legacy2 bip39_words same digest (generate_from bip39_words digest seed) ≡ returns seed
legacy2-generate_from_example =
    legacy2-generate_from bip39_words same digest seed bip39_words-IsWordList digest-IsDigest
      (λ i h. refl) (inl refl) seed-AreBytes

convert_radix_lem_example :
    (length (convert_radix (1 ∷ 2 ∷ 3 ∷ []) 4096 256 5) ≡ 5)
    × All (λ d. d < 256) (convert_radix (1 ∷ 2 ∷ 3 ∷ []) 4096 256 5)
    × (radix_value 256 0 (convert_radix (1 ∷ 2 ∷ 3 ∷ []) 4096 256 5)
        ≡ radix_value 4096 0 (1 ∷ 2 ∷ 3 ∷ []) % 256 ^ 5)
convert_radix_lem_example =
    convert_radix_lem (1 ∷ 2 ∷ 3 ∷ []) 4096 256 5 (omega arith) (omega arith)
