-- ===== src/Mnemonic/Groups.antt =====
-- packages/cryptography/src/Mnemonic.js under src/: reading back what was written as binary digits.
use hedera_sdk_js.Common.{
  ℕ, zero, suc, ◌+◌, ◌*◌, ◌/◌, ◌%◌, ◌^◌, ◌≡◌, ◌≤◌, ◌<◌, refl, sym, ap, ◌∙◌, Bool, true, false, List,
  [], ◌∷◌, ◌++◌, length, take, drop, ◌==◌, All, append_assoc, append-nil, length-append,
  length-drop, take-append-drop, arith,
}
use native.Mathlib.Nat.{pow-suc}
use hedera_sdk_js.Mnemonic.Bits.{bit, parse_onto, parse, groups_loop, groups, join, to_bits}

parse_onto-snoc :
    (n : ℕ) (bs : List Bool) (b : Bool) → parse_onto n (bs ++ b ∷ []) ≡ parse_onto n bs * 2 + bit b
unfolding parse_onto
parse_onto-snoc n [] b = refl
parse_onto-snoc n (c ∷ bs) b = parse_onto-snoc (n * 2 + bit c) bs b

bit_of : (n : ℕ) → n / 2 * 2 + bit (n % 2 == 1) ≡ n
bit_of n = ground arith

pub parse-to_bits : (width n : ℕ) → n < 2 ^ width → parse (to_bits width n) ≡ n
unfolding parse parse_onto to_bits
parse-to_bits zero n h = omega arith
parse-to_bits (suc width) n h =
    parse_onto-snoc 0 (to_bits width (n / 2)) (n % 2 == 1)
    ∙ ap (λ (k : ℕ). k * 2 + bit (n % 2 == 1)) (parse-to_bits width (n / 2) (omega arith))
    ∙ bit_of n

to_bits-push :
    (width n : ℕ) (b : Bool) → to_bits (suc width) (n * 2 + bit b) ≡ to_bits width n ++ b ∷ []
unfolding to_bits
to_bits-push width n true =
    let e : (n * 2 + 1) / 2 ≡ n = omega arith in
    let m : (n * 2 + 1) % 2 ≡ 1 = omega arith in rw (e, m) refl
to_bits-push width n false =
    let e : (n * 2 + 0) / 2 ≡ n = omega arith in
    let m : (n * 2 + 0) % 2 ≡ 0 = omega arith in rw (e, m) refl

to_bits-parse_onto :
    (bs : List Bool) (width n : ℕ)
    → to_bits (width + length bs) (parse_onto n bs) ≡ to_bits width n ++ bs
unfolding parse_onto
to_bits-parse_onto [] width n =
    let e : width + 0 ≡ width = omega arith in
    ap (λ (w : ℕ). to_bits w n) e ∙ sym (append-nil (to_bits width n))
to_bits-parse_onto (b ∷ bs) width n =
    let e : width + suc (length bs) ≡ suc width + length bs = omega arith in
    ap (λ (w : ℕ). to_bits w (parse_onto (n * 2 + bit b) bs)) e
    ∙ to_bits-parse_onto bs (suc width) (n * 2 + bit b)
    ∙ ap (λ cs. cs ++ bs) (to_bits-push width n b)
    ∙ append_assoc (to_bits width n) (b ∷ []) bs

pub to_bits-parse : (width : ℕ) (bs : List Bool) → length bs ≡ width → to_bits width (parse bs) ≡ bs
unfolding parse to_bits
to_bits-parse width bs h =
    let e : width ≡ 0 + length bs = omega arith in
    ap (λ (w : ℕ). to_bits w (parse bs)) e ∙ to_bits-parse_onto bs 0 0

bit-le : (b : Bool) → bit b ≤ 1
bit-le true = omega arith
bit-le false = omega arith

parse_onto-lt : (bs : List Bool) (n : ℕ) → parse_onto n bs < (n + 1) * 2 ^ length bs
unfolding parse_onto
parse_onto-lt [] n = omega arith
parse_onto-lt (b ∷ bs) n =
    let p = 2 ^ length bs in
    let twice : (n + 1) * 2 ^ suc (length bs) ≡ (n * 2 + 2) * p =
      ap (λ (q : ℕ). (n + 1) * q) (pow-suc 2 (length bs)) ∙ regroup n p in
    let more : (n * 2 + bit b + 1) * p ≤ (n * 2 + 2) * p = mul_mono p (omega (arith, bit-le b)) in
    omega (arith, parse_onto-lt bs (n * 2 + bit b))
  where
    regroup : (n p : ℕ) → (n + 1) * (p * 2) ≡ (n * 2 + 2) * p
    regroup n p = grind arith

    mul_mono : {k m : ℕ} (p : ℕ) → k ≤ m → k * p ≤ m * p
    mul_mono p h = grind arith

pub parse-lt : (width : ℕ) (bs : List Bool) → length bs ≡ width → parse bs < 2 ^ width
unfolding parse
parse-lt width bs h = rw (← h) (omega (arith, parse_onto-lt bs 0))

-- All these texts have this length.
abbrev pub Sized : ℕ → List (List Bool) → Type 0
Sized size gs = All (λ g. length g ≡ size) gs

pub take-exact : (size : ℕ) (g bs : List Bool) → length g ≡ size → take size (g ++ bs) ≡ g
take-exact zero [] bs h = refl
take-exact zero (b ∷ g) bs h = absurd (omega arith)
take-exact (suc size) [] bs h = absurd (omega arith)
take-exact (suc size) (b ∷ g) bs h = ap (◌∷◌ b) (take-exact size g bs (omega arith))

pub drop-exact : (size : ℕ) (g bs : List Bool) → length g ≡ size → drop size (g ++ bs) ≡ bs
drop-exact zero [] bs h = refl
drop-exact zero (b ∷ g) bs h = absurd (omega arith)
drop-exact (suc size) [] bs h = absurd (omega arith)
drop-exact (suc size) (b ∷ g) bs h = drop-exact size g bs (omega arith)

groups_loop-join :
    (size : ℕ) (gs : List (List Bool)) (left : ℕ)
    → Sized (suc size) gs
    → length (join gs) ≤ left
    → groups_loop left (suc size) (join gs) ≡ gs
unfolding groups_loop
groups_loop-join size [] zero a h = refl
groups_loop-join size [] (suc left) a h = refl
groups_loop-join size ([] ∷ gs) left a h = absurd (omega (arith, a.0))
groups_loop-join size ((b ∷ g) ∷ gs) zero a h = absurd (omega arith)
groups_loop-join size ((b ∷ g) ∷ gs) (suc left) a h =
    let rest = groups_loop-join size gs left a.1 (omega (arith, h, length-append g (join gs))) in
    λ i.
      take-exact (suc size) (b ∷ g) (join gs) a.0 i
      ∷ (ap (groups_loop left (suc size)) (drop-exact (suc size) (b ∷ g) (join gs) a.0) ∙ rest) i

-- Texts of the same length that were joined are found again.
pub groups-join :
    (size : ℕ) (gs : List (List Bool)) → Sized (suc size) gs → groups (suc size) (join gs) ≡ gs
unfolding groups
groups-join size gs a = groups_loop-join size gs (length (join gs)) a (omega arith)

join-groups_loop :
    (left size : ℕ) (bs : List Bool) → length bs ≤ left → join (groups_loop left (suc size) bs) ≡ bs
unfolding groups_loop
join-groups_loop zero size [] h = refl
join-groups_loop zero size (b ∷ bs) h = absurd (omega arith)
join-groups_loop (suc left) size [] h = refl
join-groups_loop (suc left) size (b ∷ bs) h =
    ap (λ cs. b ∷ (take size bs ++ cs))
      (join-groups_loop left size (drop size bs) (omega (arith, length-drop size bs)))
    ∙ ap (◌∷◌ b) (take-append-drop size bs)

pub join-groups : (size : ℕ) (bs : List Bool) → join (groups (suc size) bs) ≡ bs
unfolding groups
join-groups size bs = join-groups_loop (length bs) size bs (omega arith)

pub length-take : (n : ℕ) (bs : List Bool) → n ≤ length bs → length (take n bs) ≡ n
length-take zero bs h = refl
length-take (suc n) [] h = absurd (omega arith)
length-take (suc n) (b ∷ bs) h = ap suc (length-take n bs (omega arith))

one_more : (count size : ℕ) → suc count * suc size ≡ count * suc size + suc size
one_more count size = omega arith

groups_loop-Sized :
    (left size count : ℕ) (bs : List Bool)
    → length bs ≡ count * suc size
    → length bs ≤ left
    → Sized (suc size) (groups_loop left (suc size) bs)
      × (length (groups_loop left (suc size) bs) ≡ count)
unfolding groups_loop
groups_loop-Sized zero size zero [] h f = (tt, refl)
groups_loop-Sized (suc left) size zero [] h f = (tt, refl)
groups_loop-Sized left size zero (b ∷ bs) h f = absurd (omega arith)
groups_loop-Sized zero size (suc count) bs h f = absurd (omega (arith, one_more count size))
groups_loop-Sized (suc left) size (suc count) [] h f = absurd (omega (arith, one_more count size))
groups_loop-Sized (suc left) size (suc count) (b ∷ bs) h f =
    let enough : size ≤ length bs = omega (arith, one_more count size) in
    let rest =
      groups_loop-Sized left size count (drop size bs)
        (omega (arith, length-drop size bs, one_more count size))
        (omega (arith, length-drop size bs)) in
    ((ap suc (length-take size bs enough), rest.0), ap suc rest.1)

-- A text of so many groups is cut into these.
pub groups-Sized :
    (size count : ℕ) (bs : List Bool)
    → length bs ≡ count * suc size
    → Sized (suc size) (groups (suc size) bs) × (length (groups (suc size) bs) ≡ count)
unfolding groups
groups-Sized size count bs h = groups_loop-Sized (length bs) size count bs h (omega arith)
