-- ===== src/Mnemonic/Legacy.antt =====
-- packages/cryptography/src/util/entropy.js under src/: the legacy decoding of 12 or 24 words agrees with
-- the generation.
use native.Mathlib.Nat.{div-div-eq-div-mul, pow-succ'}
use hedera_sdk_js.Common.{
  ℕ, zero, suc, ◌+◌, ◌*◌, ◌/◌, ◌%◌, ◌^◌, ◌≡◌, ◌≤◌, ◌<◌, ◌⊎◌, refl, sym, ap, ◌∙◌, Bool, true, false,
  ◌&&◌, String, List, [], ◌∷◌, ◌++◌, map, length, take, drop, some, if◌then◌else◌, ◌==◌, arith, inl,
  inr,
}
use hedera_sdk_js.Common.Outcome.{Outcome, returns, throws, ◌>>=◌}
use hedera_sdk_js.Mnemonic.{bytes_to_binary, derive_checksum_bits, word_at, generate_from}
use hedera_sdk_js.Mnemonic.Bits.{
  bit, binary, parse_onto, parse, groups, join, to_bits, binary-to_bits,
}
use hedera_sdk_js.Mnemonic.Groups.{
  to_bits-parse, Sized, take-exact, drop-exact, groups-join, join-groups, parse-lt,
}
use hedera_sdk_js.Mnemonic.Entropy.{
  index_of, bits_down, test_bit, byte_of, bytes_to_bits, concat_bits, found, starts_with,
  check_entropy, legacy2, EntropyError, checksum_mismatch,
}
use hedera_sdk_js.Mnemonic.Generated.{
  IsWordList, IsDigest, AreBytes, bytes-Sized, parse-bytes, length-bytes_to_binary, all_bits,
  all_bits-Sized, word_of, word_index, length-generated,
}

test_bit-half : (n places : ℕ) → test_bit n (suc places) ≡ test_bit (n / 2) places
test_bit-half n places =
    ap (λ (k : ℕ). k % 2 == 1)
      (ap (λ (p : ℕ). n / p) (pow-succ' 2 places) ∙ sym (div-div-eq-div-mul n 2 (2 ^ places)))

bits_down-half :
    (places n : ℕ) → bits_down (suc places) n ≡ bits_down places (n / 2) ++ (n % 2 == 1) ∷ []
unfolding bits_down
bits_down-half zero n = let e : n / 1 ≡ n = omega arith in ap (λ (k : ℕ). (k % 2 == 1) ∷ []) e
bits_down-half (suc places) n = λ i. test_bit-half n places i ∷ bits_down-half places n i

-- The tests of single bits and the digits of `toString(2)` are the same.
bits_down-to_bits : (places n : ℕ) → bits_down places n ≡ to_bits places n
unfolding bits_down to_bits
bits_down-to_bits zero n = refl
bits_down-to_bits (suc places) n =
    bits_down-half places n ∙ ap (λ bs. bs ++ (n % 2 == 1) ∷ []) (bits_down-to_bits places (n / 2))

parse_onto-byte_of : (n : ℕ) (bs : List Bool) → parse_onto n bs ≡ n * 2 ^ length bs + byte_of bs
unfolding parse_onto byte_of
parse_onto-byte_of n [] = omega arith
parse_onto-byte_of n (b ∷ bs) =
    parse_onto-byte_of (n * 2 + bit b) bs
    ∙ regroup n (bit b) (2 ^ length bs) (byte_of bs)
    ∙ ap (λ (p : ℕ). n * p + (bit b * 2 ^ length bs + byte_of bs)) (sym (pow-succ' 2 (length bs)))
  where
    regroup : (n b p y : ℕ) → (n * 2 + b) * p + y ≡ n * (2 * p) + (b * p + y)
    regroup n b p y = grind arith

byte_of-parse : (bs : List Bool) → byte_of bs ≡ parse bs
unfolding parse
byte_of-parse bs = omega (arith, parse_onto-byte_of 0 bs)

bytes_of-parse : (gs : List (List Bool)) → map byte_of gs ≡ map parse gs
bytes_of-parse [] = refl
bytes_of-parse (g ∷ gs) = λ i. byte_of-parse g i ∷ bytes_of-parse gs i

bytes_to_bits-binary : (bs : List ℕ) → AreBytes bs → bytes_to_bits bs ≡ bytes_to_binary bs
unfolding bytes_to_bits bytes_to_binary
bytes_to_bits-binary [] h = refl
bytes_to_bits-binary (b ∷ bs) h =
    λ i. (bits_down-to_bits 8 b ∙ sym (binary-to_bits 7 b h.0)) i ++ bytes_to_bits-binary bs h.1 i

starts_with-take : (n : ℕ) (hash : List Bool) → starts_with (take n hash) hash ≡ true
unfolding starts_with
starts_with-take zero hash = refl
starts_with-take (suc n) [] = refl
starts_with-take (suc n) (true ∷ hash) = starts_with-take n hash
starts_with-take (suc n) (false ∷ hash) = starts_with-take n hash

whole_bytes : (seed : List ℕ) → AreBytes seed → map parse (groups 8 (bytes_to_binary seed)) ≡ seed
unfolding bytes_to_binary
whole_bytes seed bytes =
    ap (map parse) (groups-join 7 (map (binary 8) seed) (bytes-Sized seed bytes))
    ∙ parse-bytes seed bytes

checksum_starts :
    (sha256 : List ℕ → List ℕ) (seed : List ℕ)
    → AreBytes (sha256 seed)
    → starts_with (derive_checksum_bits sha256 seed) (bytes_to_bits (sha256 seed)) ≡ true
unfolding derive_checksum_bits
checksum_starts sha256 seed h =
    ap (starts_with (take (length seed * 8 / 32) (bytes_to_binary (sha256 seed))))
      (bytes_to_bits-binary (sha256 seed) h)
    ∙ starts_with-take (length seed * 8 / 32) (bytes_to_binary (sha256 seed))

module _ (words : List String) (lower : String → String) (sha256 : List ℕ → List ℕ)
    (list : IsWordList words) (digest : IsDigest sha256)
    (lowered : (i : ℕ) → i < 2048 → lower (word_at words i) ≡ word_at words i) where
  concat_bits-words :
      (gs : List (List Bool))
      → Sized 11 gs
      → concat_bits words lower (map (word_of words sha256 list digest) gs) ≡ returns (join gs)
  unfolding concat_bits
  concat_bits-words [] h = refl
  concat_bits-words (g ∷ gs) h =
      let w = word_of words sha256 list digest g in
      let at : index_of words (lower w) ≡ some (parse g) =
        ap (index_of words) (lowered (parse g) (parse-lt 11 g h.0))
        ∙ word_index words sha256 list digest g h.0 in
      let finish : Outcome EntropyError (List Bool) → ℕ → Outcome EntropyError (List Bool) =
        λ o i. o >>= λ rest. returns (bits_down 11 i ++ rest) in
      ap
        (λ o.
          found o >>= finish (concat_bits words lower (map (word_of words sha256 list digest) gs)))
        at
      ∙ ap (λ o. finish o (parse g)) (concat_bits-words gs h.1)
      ∙ ap (λ bs. returns (bs ++ join gs)) (bits_down-to_bits 11 (parse g) ∙ to_bits-parse 11 g h.0)

  module _ (c : ℕ) (seed : List ℕ) (len : length seed ≡ 4 * c) (few : c ≤ 256)
      (bytes : AreBytes seed) where
    concat_bits-generated :
        concat_bits words lower (generate_from words sha256 seed)
        ≡ returns (all_bits words sha256 list digest seed)
    unfolding generate_from
    concat_bits-generated =
        let bits = all_bits words sha256 list digest seed in
        concat_bits-words (groups 11 bits)
          (all_bits-Sized words sha256 list digest c seed len few bytes).0
        ∙ ap returns (join-groups 10 bits)

    check_entropy-generated :
        check_entropy sha256 (3 * c) (all_bits words sha256 list digest seed) ≡ returns seed
    unfolding check_entropy
    check_entropy-generated =
        let front = bytes_to_binary seed in
        let cs = derive_checksum_bits sha256 seed in
        let divider = 3 * c / 3 * 32 in
        let size : length front ≡ divider = omega (arith, length-bytes_to_binary seed bytes) in
        let test : List ℕ → List Bool → Outcome EntropyError (List ℕ) = λ e d.
          if 3 * c % 3 == 0 && starts_with d (bytes_to_bits (sha256 e))
          then returns e
          else throws checksum_mismatch in
        let whole : 3 * c % 3 ≡ 0 = omega arith in
        ap (λ e. test e (drop divider (front ++ cs))) (entropy divider size)
        ∙ ap (test seed) (drop-exact divider front cs size)
        ∙ rw (whole, checksum) refl
      where
        entropy :
            (divider : ℕ)
            → length (bytes_to_binary seed) ≡ divider
            → map byte_of (groups 8 (take divider (all_bits words sha256 list digest seed))) ≡ seed
        entropy divider size =
            ap (λ bs. map byte_of (groups 8 bs))
              (take-exact divider (bytes_to_binary seed) (derive_checksum_bits sha256 seed) size)
            ∙ bytes_of-parse (groups 8 (bytes_to_binary seed))
            ∙ whole_bytes seed bytes

        checksum :
            starts_with (derive_checksum_bits sha256 seed) (bytes_to_bits (sha256 seed)) ≡ true
        checksum = checksum_starts sha256 seed (digest.bytes seed)

    legacy2-generated : legacy2 words lower sha256 (generate_from words sha256 seed) ≡ returns seed
    unfolding legacy2
    legacy2-generated =
        ap (λ o. o >>= check_entropy sha256 (length (generate_from words sha256 seed)))
          concat_bits-generated
        ∙ ap (λ (n : ℕ). check_entropy sha256 n (all_bits words sha256 list digest seed))
            (length-generated words sha256 list digest c seed len few bytes)
        ∙ check_entropy-generated

-- Where the list has 2048 different words that are in lower case, and the digest 32 bytes: the legacy decoding
-- of the mnemonic that is generated from 16 or 32 bytes succeeds and gives these bytes.
pub legacy2-generate_from :
    (words : List String) (lower : String → String) (sha256 : List ℕ → List ℕ) (seed : List ℕ)
    → IsWordList words
    → IsDigest sha256
    → ((i : ℕ) → i < 2048 → lower (word_at words i) ≡ word_at words i)
    → (length seed ≡ 16) ⊎ (length seed ≡ 32)
    → AreBytes seed
    → legacy2 words lower sha256 (generate_from words sha256 seed) ≡ returns seed
legacy2-generate_from words lower sha256 seed list digest lowered (inl short) bytes =
    legacy2-generated words lower sha256 list digest lowered 4 seed short (omega arith) bytes
legacy2-generate_from words lower sha256 seed list digest lowered (inr long) bytes =
    legacy2-generated words lower sha256 list digest lowered 8 seed long (omega arith) bytes
