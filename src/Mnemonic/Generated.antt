-- ===== src/Mnemonic/Generated.antt =====
-- packages/cryptography/src/Mnemonic.js under src/: a mnemonic that was generated is valid.
use hedera_sdk_js.Common.{
  ℕ, suc, ◌+◌, ◌*◌, ◌/◌, ◌^◌, ◌≡◌, ◌≤◌, ◌<◌, ◌⊎◌, refl, sym, ap, ◌∙◌, Bool, true, false, String,
  List, [], ◌∷◌, ◌++◌, map, Option, none, some, length, drop, if◌then◌else◌, contains, str_eq, All,
  length-append, length-map, arith, Bool-cases, inl, inr,
}
use hedera_sdk_js.Common.Outcome.{Outcome, returns, throws, ◌>>=◌}
use hedera_sdk_js.Mnemonic.{
  MnemonicError, checksum_mismatch, bytes_to_binary, derive_checksum_bits, word_at, generate_from,
  unknown_from, refuse_unknown, index_or_zero, mnemonic_bits, entropy_bytes, check_bits,
  validate_standard, validate,
}
use hedera_sdk_js.Mnemonic.Bits.{binary, parse, groups, join, length-to_bits, binary-to_bits}
use hedera_sdk_js.Mnemonic.Entropy.{index_of, bits_eq, later}
use hedera_sdk_js.Mnemonic.Groups.{
  parse-to_bits, to_bits-parse, parse-lt, Sized, take-exact, drop-exact, groups-join, join-groups,
  length-take, groups-Sized,
}

-- What the code relies on in its list of words: 2048 words, all different.
pub record IsWordList (words : List String) : Type 0 where
  pub size : length words ≡ 2048
  pub indexed : (i : ℕ) → i < 2048 → index_of words (word_at words i) ≡ some i

-- What it relies on in the digest: 32 bytes.
pub record IsDigest (sha256 : List ℕ → List ℕ) : Type 0 where
  pub size : (bs : List ℕ) → length (sha256 bs) ≡ 32
  pub bytes : (bs : List ℕ) → All (λ b. b < 256) (sha256 bs)

abbrev pub AreBytes : List ℕ → Type 0
AreBytes bs = All (λ b. b < 256) bs

pub length-binary : (width n : ℕ) → n < 2 ^ suc width → length (binary (suc width) n) ≡ suc width
length-binary width n h = ap length (binary-to_bits width n h) ∙ length-to_bits (suc width) n

pub parse-binary : (width n : ℕ) → n < 2 ^ suc width → parse (binary (suc width) n) ≡ n
parse-binary width n h = ap parse (binary-to_bits width n h) ∙ parse-to_bits (suc width) n h

pub binary-parse :
    (width : ℕ) (bs : List Bool) → length bs ≡ suc width → binary (suc width) (parse bs) ≡ bs
binary-parse width bs h =
    binary-to_bits width (parse bs) (parse-lt (suc width) bs h) ∙ to_bits-parse (suc width) bs h

pub bytes-Sized : (bs : List ℕ) → AreBytes bs → Sized 8 (map (binary 8) bs)
bytes-Sized [] h = tt
bytes-Sized (b ∷ bs) h = (length-binary 7 b h.0, bytes-Sized bs h.1)

pub length-join :
    (size : ℕ) (gs : List (List Bool)) → Sized size gs → length (join gs) ≡ length gs * size
length-join size [] h = omega arith
length-join size (g ∷ gs) h =
    let more : suc (length gs) * size ≡ length gs * size + size = omega arith in
    omega (arith, length-append g (join gs), h.0, length-join size gs h.1)

pub length-bytes_to_binary :
    (bs : List ℕ) → AreBytes bs → length (bytes_to_binary bs) ≡ length bs * 8
unfolding bytes_to_binary
length-bytes_to_binary bs h =
    length-join 8 (map (binary 8) bs) (bytes-Sized bs h)
    ∙ ap (λ (n : ℕ). n * 8) (length-map (binary 8) bs)

pub parse-bytes : (bs : List ℕ) → AreBytes bs → map parse (map (binary 8) bs) ≡ bs
parse-bytes [] h = refl
parse-bytes (b ∷ bs) h = λ i. parse-binary 7 b h.0 i ∷ parse-bytes bs h.1 i

pub bits_eq_refl : (bs : List Bool) → bits_eq bs bs ≡ true
unfolding bits_eq
bits_eq_refl [] = refl
bits_eq_refl (true ∷ bs) = bits_eq_refl bs
bits_eq_refl (false ∷ bs) = bits_eq_refl bs

contains_indexed :
    (ws : List String) (w : String) {i : ℕ} → index_of ws w ≡ some i → contains ws w ≡ true
unfolding index_of
contains_indexed [] w h = cc
contains_indexed (v ∷ ws) w h = elim (Bool-cases (str_eq v w)) [
  | inl here ↦ rw here refl
  | inr other ↦
      let (i, e) = later_some (index_of ws w) (rw other at h) in rw other (contains_indexed ws w e)
]
  where
    later_some : (o : Option ℕ) {i : ℕ} → later o ≡ some i → (j : ℕ) × (o ≡ some j)
    later_some none h = cc
    later_some (some j) h = (j, refl)

module _ (words : List String) (sha256 : List ℕ → List ℕ) (list : IsWordList words)
    (digest : IsDigest sha256) where
  abbrev pub word_of : List Bool → String
  word_of g = word_at words (parse g)

  pub word_index : (g : List Bool) → length g ≡ 11 → index_of words (word_of g) ≡ some (parse g)
  word_index g h = list.indexed (parse g) (parse-lt 11 g h)

  -- The words for groups of bits encode these bits.
  pub mnemonic_bits-words :
      (gs : List (List Bool)) → Sized 11 gs → mnemonic_bits words (map word_of gs) ≡ join gs
  unfolding mnemonic_bits
  mnemonic_bits-words [] h = refl
  mnemonic_bits-words (g ∷ gs) h = λ i.
      (ap (λ o. binary 11 (index_or_zero o)) (word_index g h.0) ∙ binary-parse 10 g h.0) i
      ++ mnemonic_bits-words gs h.1 i

  known_words :
      (gs : List (List Bool)) (index : ℕ)
      → Sized 11 gs
      → unknown_from words index (map word_of gs) ≡ []
  unfolding unknown_from
  known_words [] index h = refl
  known_words (g ∷ gs) index h =
      rw (contains_indexed words (word_of g) (word_index g h.0)) (known_words gs (index + 1) h.1)

  abbrev pub all_bits : List ℕ → List Bool
  all_bits seed = bytes_to_binary seed ++ derive_checksum_bits sha256 seed

  module _ (c : ℕ) (seed : List ℕ) (len : length seed ≡ 4 * c) (few : c ≤ 256)
      (bytes : AreBytes seed) where
    pub length-checksum : length (derive_checksum_bits sha256 seed) ≡ c
    unfolding derive_checksum_bits
    length-checksum =
        let count : length seed * 8 / 32 ≡ c = omega arith in
        length-take (length seed * 8 / 32) (bytes_to_binary (sha256 seed)) (
          omega (arith, length-bytes_to_binary (sha256 seed) (digest.bytes seed), digest.size seed))
        ∙ count

    pub all_bits-Sized :
        Sized 11 (groups 11 (all_bits seed)) × (length (groups 11 (all_bits seed)) ≡ 3 * c)
    all_bits-Sized = groups-Sized 10 (3 * c) (all_bits seed) (
        omega (
          arith,
          length-append (bytes_to_binary seed) (derive_checksum_bits sha256 seed),
          length-bytes_to_binary seed bytes,
          length-checksum,
        ))

    divider : length (all_bits seed) / 33 * 32 ≡ length (bytes_to_binary seed)
    divider = omega (
      arith,
      length-append (bytes_to_binary seed) (derive_checksum_bits sha256 seed),
      length-bytes_to_binary seed bytes,
      length-checksum,
    )

    entropy_bytes-bits : entropy_bytes (all_bits seed) ≡ seed
    unfolding entropy_bytes bytes_to_binary
    entropy_bytes-bits =
        ap (λ bs. map parse (groups 8 bs))
          (take-exact (length (all_bits seed) / 33 * 32) (bytes_to_binary seed)
            (derive_checksum_bits sha256 seed) (sym divider))
        ∙ ap (map parse) (groups-join 7 (map (binary 8) seed) (bytes-Sized seed bytes))
        ∙ parse-bytes seed bytes

    bits-generated : mnemonic_bits words (generate_from words sha256 seed) ≡ all_bits seed
    unfolding generate_from
    bits-generated =
        mnemonic_bits-words (groups 11 (all_bits seed)) all_bits-Sized.0
        ∙ join-groups 10 (all_bits seed)

    pub seed-generated :
        entropy_bytes (mnemonic_bits words (generate_from words sha256 seed)) ≡ seed
    seed-generated = ap entropy_bytes bits-generated ∙ entropy_bytes-bits

    pub length-generated : length (generate_from words sha256 seed) ≡ 3 * c
    unfolding generate_from
    length-generated = length-map word_of (groups 11 (all_bits seed)) ∙ all_bits-Sized.1

    check_bits-all : (ws : List String) → check_bits sha256 (all_bits seed) ws ≡ returns ws
    unfolding check_bits
    check_bits-all ws =
        let cs = derive_checksum_bits sha256 seed in
        let test : List Bool → List Bool → Outcome MnemonicError (List String) =
          λ x y. if bits_eq x y then returns ws else throws checksum_mismatch in
        ap
          (λ e.
            test (derive_checksum_bits sha256 e)
              (drop (length (all_bits seed) / 33 * 32) (all_bits seed)))
          entropy_bytes-bits
        ∙ ap (test cs)
            (drop-exact (length (all_bits seed) / 33 * 32) (bytes_to_binary seed) cs (sym divider))
        ∙ rw (bits_eq_refl cs) refl

    pub validate_standard-generated :
        validate_standard words sha256 (generate_from words sha256 seed)
        ≡ returns (generate_from words sha256 seed)
    unfolding validate_standard generate_from
    validate_standard-generated =
        let ws = generate_from words sha256 seed in
        ap (λ is. refuse_unknown is >>= λ known. check_bits sha256 (mnemonic_bits words ws) ws)
          (known_words (groups 11 (all_bits seed)) 0 all_bits-Sized.0)
        ∙ ap (λ bits. check_bits sha256 bits ws) bits-generated
        ∙ check_bits-all ws

-- Let the list have 2048 different words, and the digest 32 bytes. The mnemonic that is generated from 16 or
-- from 32 bytes has 12 or 24 words and is valid, and its words encode these bytes.
pub validate-generate_from :
    (words legacy : List String) (lower : String → String) (sha256 : List ℕ → List ℕ)
    (seed : List ℕ)
    → IsWordList words
    → IsDigest sha256
    → (length seed ≡ 16) ⊎ (length seed ≡ 32)
    → AreBytes seed
    → (length (generate_from words sha256 seed) * 4 ≡ length seed * 3)
      × (validate words legacy lower sha256 (generate_from words sha256 seed)
          ≡ returns (generate_from words sha256 seed))
      × (entropy_bytes (mnemonic_bits words (generate_from words sha256 seed)) ≡ seed)
unfolding validate
validate-generate_from words legacy lower sha256 seed list digest (inl short) bytes =
    let len = length-generated words sha256 list digest 4 seed short (omega arith) bytes in
    (
      omega (arith, len),
      rw len
          (validate_standard-generated words sha256 list digest 4 seed short (omega arith) bytes),
      seed-generated words sha256 list digest 4 seed short (omega arith) bytes,
    )
validate-generate_from words legacy lower sha256 seed list digest (inr long) bytes =
    let len = length-generated words sha256 list digest 8 seed long (omega arith) bytes in
    (
      omega (arith, len),
      rw len (validate_standard-generated words sha256 list digest 8 seed long (omega arith) bytes),
      seed-generated words sha256 list digest 8 seed long (omega arith) bytes,
    )
