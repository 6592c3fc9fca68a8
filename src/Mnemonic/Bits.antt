-- ===== src/Mnemonic/Bits.antt =====
-- packages/cryptography/src/Mnemonic.js under src/: texts of binary digits, as lists of bits.
use hedera_sdk_js.Common.{
  ℕ, zero, suc, ◌+◌, ◌-◌, ◌*◌, ◌/◌, ◌%◌, ◌^◌, ◌≡◌, ◌<◌, refl, sym, ap, ◌∙◌, Bool, true, false, List,
  [], ◌∷◌, ◌++◌, length, take, drop, if◌then◌else◌, ltb, ◌==◌, append_assoc, length-append, arith,
  Bool-cases, inl, inr,
}

abbrev pub bit : Bool → ℕ
bit true = 1
bit false = 0

-- `n.toString(2)`: no zeros in front, but one digit at least. The fuel is above `n`.
unfoldable pub digits : ℕ → ℕ → List Bool
digits zero n = []
digits (suc f) n =
    let rest = digits f (n / 2) ++ (n % 2 == 1) ∷ [] in if ltb n 2 then (n == 1) ∷ [] else rest

abbrev pub zeros : ℕ → List Bool
zeros zero = []
zeros (suc n) = false ∷ zeros n

-- `n.toString(2).padStart(width, "0")`.
unfoldable pub binary : ℕ → ℕ → List Bool
unfolding digits
binary width n = let text = digits (suc n) n in zeros (width - length text) ++ text

-- `parseInt(text, 2)`, after what has been read.
unfoldable pub parse_onto : ℕ → List Bool → ℕ
parse_onto n [] = n
parse_onto n (b ∷ bs) = parse_onto (n * 2 + bit b) bs

-- `binaryToByte`.
unfoldable pub parse : List Bool → ℕ
unfolding parse_onto
parse bs = parse_onto 0 bs

-- `text.match(/(.{1,size})/g)`, with the rounds that are left.
unfoldable pub groups_loop : ℕ → ℕ → List Bool → List (List Bool)
groups_loop zero size bs = []
groups_loop (suc left) size [] = []
groups_loop (suc left) size (b ∷ bs) =
    take size (b ∷ bs) ∷ groups_loop left size (drop size (b ∷ bs))

unfoldable pub groups : ℕ → List Bool → List (List Bool)
unfolding groups_loop
groups size bs = groups_loop (length bs) size bs

-- `texts.join("")`.
abbrev pub join : List (List Bool) → List Bool
join [] = []
join (g ∷ gs) = g ++ join gs

-- The lower `width` bits of a number.
unfoldable pub to_bits : ℕ → ℕ → List Bool
to_bits zero n = []
to_bits (suc width) n = to_bits width (n / 2) ++ (n % 2 == 1) ∷ []

pub length-to_bits : (width n : ℕ) → length (to_bits width n) ≡ width
unfolding to_bits
length-to_bits zero n = refl
length-to_bits (suc width) n =
    omega (
      arith,
      length-append (to_bits width (n / 2)) ((n % 2 == 1) ∷ []),
      length-to_bits width (n / 2),
    )

zeros-snoc : (n : ℕ) → zeros n ++ false ∷ [] ≡ zeros (suc n)
zeros-snoc zero = refl
zeros-snoc (suc n) = ap (◌∷◌ false) (zeros-snoc n)

to_bits-zero : (width : ℕ) → to_bits width 0 ≡ zeros width
unfolding to_bits
to_bits-zero zero = refl
to_bits-zero (suc width) = ap (λ bs. bs ++ false ∷ []) (to_bits-zero width) ∙ zeros-snoc width

digits-small : (f n : ℕ) → ltb n 2 ≡ true → digits (suc f) n ≡ (n % 2 == 1) ∷ []
unfolding digits
digits-small f n h =
    let same : n ≡ n % 2 = ground arith in rw h (ap (λ (k : ℕ). (k == 1) ∷ []) same)

digits-large :
    (f n : ℕ) → ltb n 2 ≡ false → digits (suc f) n ≡ digits f (n / 2) ++ (n % 2 == 1) ∷ []
unfolding digits
digits-large f n h = rw h refl

padded : ℕ → List Bool → List Bool
padded width bs = zeros (width - length bs) ++ bs

padded-snoc :
    (width : ℕ) (bs : List Bool) (b : Bool)
    → padded (suc width) (bs ++ b ∷ []) ≡ padded width bs ++ b ∷ []
unfolding padded
padded-snoc width bs b =
    let same : suc width - length (bs ++ b ∷ []) ≡ width - length bs =
      omega (arith, length-append bs (b ∷ [])) in
    ap (λ (k : ℕ). zeros k ++ (bs ++ b ∷ [])) same
    ∙ sym (append_assoc (zeros (width - length bs)) bs (b ∷ []))

one_digit :
    (width n : ℕ) → ltb n 2 ≡ true → padded (suc width) ((n % 2 == 1) ∷ []) ≡ to_bits (suc width) n
unfolding padded to_bits
one_digit width n small =
    let none_left : n / 2 ≡ 0 = ground arith in
    let room : suc width - 1 ≡ width = omega arith in
    ap (λ (k : ℕ). zeros k ++ (n % 2 == 1) ∷ []) room
    ∙ ap (λ bs. bs ++ (n % 2 == 1) ∷ [])
        (sym (to_bits-zero width) ∙ ap (to_bits width) (sym none_left))

-- The digits of a number, padded, are its bits.
digits-to_bits :
    (f width n : ℕ)
    → n < f
    → n < 2 ^ suc width
    → padded (suc width) (digits f n) ≡ to_bits (suc width) n
unfolding to_bits
digits-to_bits zero width n fuel h = absurd (omega arith)
digits-to_bits (suc f) zero n fuel h =
    let one_bit : ltb n 2 ≡ true = ground arith in
    ap (padded 1) (digits-small f n one_bit) ∙ one_digit 0 n one_bit
digits-to_bits (suc f) (suc width) n fuel h = elim (Bool-cases (ltb n 2)) [
  | inl small ↦
      ap (padded (suc (suc width))) (digits-small f n small) ∙ one_digit (suc width) n small
  | inr large ↦
      ap (padded (suc (suc width))) (digits-large f n large)
      ∙ padded-snoc (suc width) (digits f (n / 2)) (n % 2 == 1)
      ∙ ap (λ bs. bs ++ (n % 2 == 1) ∷ [])
          (digits-to_bits f width (n / 2) (ground arith) (half width n h))
]
  where
    half : (width n : ℕ) → n < 2 ^ suc (suc width) → n / 2 < 2 ^ suc width
    half width n h = omega arith

pub binary-to_bits :
    (width n : ℕ) → n < 2 ^ suc width → binary (suc width) n ≡ to_bits (suc width) n
unfolding binary padded
binary-to_bits width n h = digits-to_bits (suc n) width n (omega arith) h
