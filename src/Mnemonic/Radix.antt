-- ===== src/Mnemonic/Radix.antt =====
-- packages/cryptography/src/util/entropy.js under src/: a change of the radix keeps the number.
use native.Mathlib.Nat.{
  pow-zero, pow-suc, div-add-mod', mod-lt, mod-eq_of_lt, mul-add-mod_self_left,
}
use hedera_sdk_js.Common.{
  ℕ, zero, suc, ◌+◌, ◌*◌, ◌/◌, ◌%◌, ◌^◌, ◌≡◌, ◌≤◌, ◌<◌, sym, ap, ◌∙◌, List, [], ◌∷◌, length, All,
  arith,
}
use hedera_sdk_js.Mnemonic.Entropy.{radix_value, radix_digits, convert_radix}

mod_split : (n p r : ℕ) → 0 < p → 0 < r → n % (p * r) ≡ n / r % p * r + n % r
mod_split n p r hp hr =
    let q = n / r in
    let rest = q % p * r + n % r in
    let small : rest < p * r = below (q % p) p (n % r) r (mod-lt q hp) (mod-lt n hr) in
    let whole : n ≡ p * r * (q / p) + rest =
      sym (div-add-mod' n r)
      ∙ ap (λ (k : ℕ). k * r + n % r) (sym (div-add-mod' q p))
      ∙ regroup (q / p) p (q % p) r (n % r) in
    ap (λ (k : ℕ). k % (p * r)) whole
    ∙ mul-add-mod_self_left (p * r) (q / p) rest
    ∙ mod-eq_of_lt small
  where
    regroup : (k p t r m : ℕ) → (k * p + t) * r + m ≡ p * r * k + (t * r + m)
    regroup k p t r m = grind arith

    below : (a p b r : ℕ) → a < p → b < r → a * r + b < p * r
    below a p b r h k = grind arith

module _ (to : ℕ) (pos : 0 < to) (small : to ≤ 256) where
  byte_digit : (n : ℕ) → n % to % 256 ≡ n % to
  byte_digit n = mod-eq_of_lt (omega (arith, mod-lt n pos))

  pow_pos : (k : ℕ) → 0 < to ^ k
  pow_pos zero = rw (pow-zero to) (omega arith)
  pow_pos (suc k) = rw (pow-suc to k) (grind (arith, pow_pos k))

  radix_value-digits :
      (left n : ℕ) (result : List ℕ)
      → radix_value to 0 (radix_digits to left n result) ≡ radix_value to (n % to ^ left) result
  unfolding radix_value radix_digits
  radix_value-digits zero n result =
      ap (λ (k : ℕ). radix_value to k result)
        (sym (ap (λ (p : ℕ). n % p) (pow-zero to) ∙ omega arith))
  radix_value-digits (suc left) n result =
      radix_value-digits left (n / to) (n % to % 256 ∷ result)
      ∙ ap (λ (d : ℕ). radix_value to (n / to % to ^ left * to + d) result) (byte_digit n)
      ∙ ap (λ (k : ℕ). radix_value to k result)
          (sym (mod_split n (to ^ left) to (pow_pos left) pos)
            ∙ ap (λ (p : ℕ). n % p) (sym (pow-suc to left)))

  radix_digits-all :
      (left n : ℕ) (result : List ℕ)
      → All (λ d. d < to) result
      → All (λ d. d < to) (radix_digits to left n result)
        × (length (radix_digits to left n result) ≡ left + length result)
  unfolding radix_digits
  radix_digits-all zero n result h = (h, omega arith)
  radix_digits-all (suc left) n result h =
      let digit : n % to % 256 < to = omega (arith, mod-lt n pos, byte_digit n) in
      let (digits, len) = radix_digits-all left (n / to) (n % to % 256 ∷ result) (digit, h) in
      (digits, omega (arith, len))

-- Converted into a radix of 256 or less, a list of digits has the length that is asked for, each place is
-- a digit of that radix, and the number is the same up to multiples of the radix to that length.
pub convert_radix_lem :
    (nums : List ℕ) (from to len : ℕ)
    → 0 < to
    → to ≤ 256
    → (length (convert_radix nums from to len) ≡ len)
      × All (λ d. d < to) (convert_radix nums from to len)
      × (radix_value to 0 (convert_radix nums from to len) ≡ radix_value from 0 nums % to ^ len)
unfolding convert_radix radix_value
convert_radix_lem nums from to len pos small =
    let n = radix_value from 0 nums in
    let (digits, size) = radix_digits-all to pos small len n [] tt in
    (omega (arith, size), digits, radix_value-digits to pos small len n [])
