-- ===== src/Mnemonic/Accepted.antt =====
-- packages/cryptography/src/Mnemonic.js under src/: only mnemonics that could have been generated are valid.
use hedera_sdk_js.Common.{
  ℕ, suc, ◌+◌, ◌*◌, ◌/◌, ◌≡◌, ◌≢◌, ◌<◌, ◌⊎◌, ◌↔◌, refl, ap, ◌∙◌, subst, Bool, true, false, String,
  List, [], ◌∷◌, ◌++◌, map, some, length, take, drop, ◌==◌, contains, str_eq, eq_iff, All,
  length-map, take-append-drop, arith, Bool-cases, inl, inr,
}
use hedera_sdk_js.Common.Outcome.{returns, >>=-eq-returns}
use hedera_sdk_js.Mnemonic.{
  bytes_to_binary, derive_checksum_bits, word_at, generate_from, unknown_from, refuse_unknown,
  index_or_zero, mnemonic_bits, entropy_bytes, check_bits, validate_standard, validate,
}
use hedera_sdk_js.Mnemonic.Bits.{binary, parse, groups, join}
use hedera_sdk_js.Mnemonic.Entropy.{index_of, bits_eq}
use hedera_sdk_js.Mnemonic.Groups.{
  parse-lt, Sized, groups-join, join-groups, length-take, groups-Sized,
}
use hedera_sdk_js.Mnemonic.Generated.{
  IsWordList, IsDigest, validate-generate_from, AreBytes, length-binary, parse-binary, binary-parse,
  length-join,
}

-- A word that is in a list is found at its index.
record IsAt (ws : List String) (w : String) : Type 0 where
  place : ℕ
  found : index_of ws w ≡ some place
  bounded : place < length ws
  there : word_at ws place ≡ w

contains-IsAt : (ws : List String) (w : String) → contains ws w ≡ true → IsAt ws w
unfolding index_of
contains-IsAt [] w h = cc
contains-IsAt (v ∷ ws) w h = elim (Bool-cases (str_eq v w)) [
  | inl here ↦ record {
    place = 0;
    found = rw here refl;
    bounded = omega arith;
    there = (eq_iff v w).0 here;
  }
  | inr other ↦
      let later_on = contains-IsAt ws w (rw other at h) in
      record {
        place = later_on.place + 1;
        found = rw (other, later_on.found) refl;
        bounded = omega (arith, later_on.bounded);
        there = moved v ws later_on.place ∙ later_on.there;
      }
]
  where
    moved : (v : String) (ws : List String) (i : ℕ) → word_at (v ∷ ws) (i + 1) ≡ word_at ws i
    moved v ws i = let e : i + 1 ≡ suc i = omega arith in ap (word_at (v ∷ ws)) e

abbrev Known : List String → List String → Type 0
Known words ws = All (λ w. contains words w ≡ true) ws

unknown_from-nil :
    (words : List String) (index : ℕ) (ws : List String)
    → unknown_from words index ws ≡ []
    → Known words ws
unfolding unknown_from
unknown_from-nil words index [] h = tt
unknown_from-nil words index (w ∷ ws) h = elim (Bool-cases (contains words w)) [
  | inl known ↦ (known, unknown_from-nil words (index + 1) ws (rw known at h))
  | inr unknown ↦ cc (rw unknown at h)
]

bits_eq_sound : (bs cs : List Bool) → bits_eq bs cs ≡ true → bs ≡ cs
unfolding bits_eq
bits_eq_sound [] [] h = refl
bits_eq_sound [] (c ∷ cs) h = cc
bits_eq_sound (b ∷ bs) [] h = cc
bits_eq_sound (true ∷ bs) (true ∷ cs) h = ap (◌∷◌ true) (bits_eq_sound bs cs h)
bits_eq_sound (true ∷ bs) (false ∷ cs) h = cc
bits_eq_sound (false ∷ bs) (true ∷ cs) h = cc
bits_eq_sound (false ∷ bs) (false ∷ cs) h = ap (◌∷◌ false) (bits_eq_sound bs cs h)

parsed-AreBytes : (gs : List (List Bool)) → Sized 8 gs → AreBytes (map parse gs)
parsed-AreBytes [] h = tt
parsed-AreBytes (g ∷ gs) h = (parse-lt 8 g h.0, parsed-AreBytes gs h.1)

binary-parsed : (gs : List (List Bool)) → Sized 8 gs → map (binary 8) (map parse gs) ≡ gs
binary-parsed [] h = refl
binary-parsed (g ∷ gs) h = λ i. binary-parse 7 g h.0 i ∷ binary-parsed gs h.1 i

-- The bytes of a text of whole bytes, written out again.
entropy_bytes-lem :
    (bits : List Bool) (count : ℕ)
    → length (take (length bits / 33 * 32) bits) ≡ count * 8
    → (bytes_to_binary (entropy_bytes bits) ≡ take (length bits / 33 * 32) bits)
      × AreBytes (entropy_bytes bits)
      × (length (entropy_bytes bits) ≡ count)
unfolding entropy_bytes bytes_to_binary
entropy_bytes-lem bits count h =
    let front = take (length bits / 33 * 32) bits in
    let (sized, len) = groups-Sized 7 count front h in
    (
      ap join (binary-parsed (groups 8 front) sized) ∙ join-groups 7 front,
      parsed-AreBytes (groups 8 front) sized,
      length-map parse (groups 8 front) ∙ len,
    )

refuse_unknown-returns : (is : List ℕ) {o : Unit {0}} → refuse_unknown is ≡ returns o → is ≡ []
refuse_unknown-returns [] h = refl
refuse_unknown-returns (i ∷ is) h = cc

check_bits-returns :
    (sha256 : List ℕ → List ℕ) (bits : List Bool) (ws vs : List String)
    → check_bits sha256 bits ws ≡ returns vs
    → derive_checksum_bits sha256 (entropy_bytes bits) ≡ drop (length bits / 33 * 32) bits
unfolding check_bits
check_bits-returns sha256 bits ws vs h =
    let cs = derive_checksum_bits sha256 (entropy_bytes bits) in
    let ds = drop (length bits / 33 * 32) bits in
    elim (Bool-cases (bits_eq cs ds)) [
      | inl same ↦ bits_eq_sound cs ds same
      | inr other ↦ cc (rw other at h)
    ]

module _ (words : List String) (list : IsWordList words) where
  abbrev code : String → List Bool
  code w = binary 11 (index_or_zero (index_of words w))

  code-Known :
      (w : String)
      → contains words w ≡ true
      → (length (code w) ≡ 11) × (word_at words (parse (code w)) ≡ w)
  code-Known w h =
      let at = contains-IsAt words w h in
      let size = list.size in
      let low : at.place < 2048 = omega (arith, at.bounded) in
      let same : index_or_zero (index_of words w) ≡ at.place = ap index_or_zero at.found in
      (
        ap (λ (i : ℕ). length (binary 11 i)) same ∙ length-binary 10 at.place low,
        ap (λ (i : ℕ). word_at words (parse (binary 11 i))) same
            ∙ ap (word_at words) (parse-binary 10 at.place low)
            ∙ at.there,
      )

  codes-Known :
      (ws : List String)
      → Known words ws
      → Sized 11 (map code ws) × (map (λ g. word_at words (parse g)) (map code ws) ≡ ws)
  codes-Known [] h = (tt, refl)
  codes-Known (w ∷ ws) h =
      let (len, back) = code-Known w h.0 in
      let (lens, backs) = codes-Known ws h.1 in ((len, lens), λ i. back i ∷ backs i)

  accepted :
      (sha256 : List ℕ → List ℕ) (c : ℕ) (ws vs : List String)
      → length ws ≡ 3 * c
      → validate_standard words sha256 ws ≡ returns vs
      → (generate_from words sha256 (entropy_bytes (mnemonic_bits words ws)) ≡ ws)
        × AreBytes (entropy_bytes (mnemonic_bits words ws))
        × (length (entropy_bytes (mnemonic_bits words ws)) ≡ 4 * c)
  unfolding validate_standard mnemonic_bits generate_from
  accepted sha256 c ws vs len h =
      let bits = mnemonic_bits words ws in
      let (o, first, rest) = >>=-eq-returns (refuse_unknown (unknown_from words 0 ws)) _ h in
      let known =
        unknown_from-nil words 0 ws (refuse_unknown-returns (unknown_from words 0 ws) first) in
      let (sized, back) = codes-Known ws known in
      let total : length bits ≡ 33 * c =
        omega (arith, length-join 11 (map code ws) sized, length-map code ws) in
      let front = take (length bits / 33 * 32) bits in
      let (written, bytes, count) =
        entropy_bytes-lem bits (4 * c)
          (length-take (length bits / 33 * 32) bits (omega arith) ∙ omega arith) in
      let whole : bytes_to_binary (entropy_bytes bits)
            ++ derive_checksum_bits sha256 (entropy_bytes bits)
          ≡ bits =
        (λ i. written i ++ check_bits-returns sha256 bits ws vs rest i)
        ∙ take-append-drop (length bits / 33 * 32) bits in
      (
        ap (λ bs. map (λ g. word_at words (parse g)) (groups 11 bs)) whole
            ∙ ap (map (λ g. word_at words (parse g))) (groups-join 10 (map code ws) sized)
            ∙ back,
        bytes,
        count,
      )

seed_of :
    (words : List String) (list : IsWordList words) (sha256 : List ℕ → List ℕ) (ws : List String)
    → (length ws ≡ 12) ⊎ (length ws ≡ 24)
    → validate_standard words sha256 ws ≡ returns ws
    → (seed : List ℕ) × ((length seed ≡ 16) ⊎ (length seed ≡ 32))
      × AreBytes seed
      × (generate_from words sha256 seed ≡ ws)
seed_of words list sha256 ws (inl twelve) h =
    let (e, bytes, len) = accepted words list sha256 4 ws ws twelve h in
    (entropy_bytes (mnemonic_bits words ws), inl len, bytes, e)
seed_of words list sha256 ws (inr twenty_four) h =
    let (e, bytes, len) = accepted words list sha256 8 ws ws twenty_four h in
    (entropy_bytes (mnemonic_bits words ws), inr len, bytes, e)

-- What gets past the tests on the number of words.
standard_of :
    (words legacy : List String) (lower : String → String) (sha256 : List ℕ → List ℕ)
    (ws vs : List String)
    → length ws ≢ 22
    → validate words legacy lower sha256 ws ≡ returns vs
    → ((length ws ≡ 12) ⊎ (length ws ≡ 24)) × (validate_standard words sha256 ws ≡ returns vs)
unfolding validate
standard_of words legacy lower sha256 ws vs other h =
    let long : (length ws == 22) ≡ false = ground arith in
    let past = rw long at h in
    elim (Bool-cases (length ws == 12)) [
      | inl twelve ↦ (inl (ground arith), rw twelve at past)
      | inr more ↦ elim (Bool-cases (length ws == 24)) [
        | inl twenty_four ↦ (inr (ground arith), rw (more, twenty_four) at past)
        | inr neither ↦ cc (rw (more, neither) at past)
      ]
    ]

-- A mnemonic that is not of 22 words is valid exactly if it is the one that is generated from some 16 or 32
-- bytes, where the list has 2048 different words and the digest 32 bytes.
pub validate_iff :
    (words legacy : List String) (lower : String → String) (sha256 : List ℕ → List ℕ)
    (ws : List String)
    → IsWordList words
    → IsDigest sha256
    → length ws ≢ 22
    → (validate words legacy lower sha256 ws ≡ returns ws) ↔ (
        (seed : List ℕ) × ((length seed ≡ 16) ⊎ (length seed ≡ 32))
        × AreBytes seed
        × (generate_from words sha256 seed ≡ ws))
validate_iff words legacy lower sha256 ws list digest other = (
  λ h.
      let (len, standard) = standard_of words legacy lower sha256 ws ws other h in
      seed_of words list sha256 ws len standard,
  λ (seed, len, bytes, e).
      subst (λ vs. validate words legacy lower sha256 vs ≡ returns vs) e
        (validate-generate_from words legacy lower sha256 seed list digest len bytes).1,
)
