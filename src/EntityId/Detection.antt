-- ===== src/EntityId/Detection.antt =====
-- EntityIdHelper.js under src/: what the checksum tells apart.
use hedera_sdk_js.Common.{
  ℕ, suc, ◌+◌, ◌-◌, ◌*◌, ◌%◌, ◌≤◌, ◌<◌, ◌≡◌, ◌≢◌, refl, ap, sym, ◌∙◌, Bool, true, false, List, [],
  ◌∷◌, ◌++◌, map, length, arith, All, ◌⊎◌, inl, inr,
}
use hedera_sdk_js.EntityId.Checksum.{
  p3, p5, m, w, digit, Sums, sum_digits, hash_ledger, letters, start, address_sums, checksum_number,
  checksum,
}

-- The number that five letters spell.
letter_value : List ℕ → ℕ → ℕ
letter_value [] v = v
letter_value (l ∷ ls) v = letter_value ls (v * 26 + (l - b'a'))

letter_value-letters : (c : ℕ) → c < p5 → letter_value (letters 5 c []) 0 ≡ c
unfolding letter_value letters
letter_value-letters c h = omega arith

-- The permutation is undone by the inverse of 1000003 modulo 26^5.
permutation_undone : (c : ℕ) → c < p5 → (c * m % p5) * 8610443 % p5 ≡ c
permutation_undone c h = omega arith

mod-below : (x : ℕ) → x % p5 < p5
mod-below x = omega arith

-- Five letters from a to z.
abbrev pub IsLetter : ℕ → Type 0
IsLetter l = (b'a' ≤ l) × (l ≤ b'z')

pub letters_lem : (c : ℕ) → (length (letters 5 c []) ≡ 5) × All IsLetter (letters 5 c [])
unfolding letters
letters_lem c = omega arith

checksum_number-below : (ledger_id addr : List ℕ) → checksum_number ledger_id addr < p5
unfolding checksum_number
checksum_number-below ledger_id addr = omega arith

-- The same checksum comes of the same number only.
pub checksum-injective :
    (ledger_id addr other : List ℕ)
    → checksum ledger_id addr ≡ checksum ledger_id other
    → checksum_number ledger_id addr ≡ checksum_number ledger_id other
unfolding checksum
checksum-injective ledger_id addr other e =
    let c = checksum_number ledger_id addr in
    let c' = checksum_number ledger_id other in
    let v : c * m % p5 ≡ c' * m % p5 =
      sym (letter_value-letters (c * m % p5) (mod-below (c * m)))
      ∙ ap (λ (ls : List ℕ). letter_value ls 0) e
      ∙ letter_value-letters (c' * m % p5) (mod-below (c' * m)) in
    sym (permutation_undone c (checksum_number-below ledger_id addr))
    ∙ ap (λ (x : ℕ). x * 8610443 % p5) v
    ∙ permutation_undone c' (checksum_number-below ledger_id other)

Bounded : Sums → Type 0
Bounded t = (t.s < p3) × (t.s0 < 11) × (t.s1 < 11)

sum_digits-Bounded :
    (ds : List ℕ) (even : Bool) (t : Sums) → Bounded t → Bounded (sum_digits ds even t)
unfolding sum_digits Bounded
sum_digits-Bounded [] even t b = b
sum_digits-Bounded (d ∷ ds) true t b = sum_digits-Bounded ds false _ (omega arith)
sum_digits-Bounded (d ∷ ds) false t b = sum_digits-Bounded ds true _ (omega arith)

number-sums :
    (k l s0 s1 s t0 t1 t sh : ℕ)
    → k ≡ l
    → (s < p3) × (s0 < 11) × (s1 < 11)
    → (t < p3) × (t0 < 11) × (t1 < 11)
    → ((((k % 5) * 11 + s0) * 11 + s1) * p3 + s + sh) % p5
      ≡ ((((l % 5) * 11 + t0) * 11 + t1) * p3 + t + sh) % p5
    → (s0 ≡ t0) × (s1 ≡ t1)
number-sums k l s0 s1 s t0 t1 t sh q b c e = omega arith

-- The number determines the sums of an address of a known length.
checksum_number-sums :
    (ledger_id addr other : List ℕ)
    → length addr ≡ length other
    → checksum_number ledger_id addr ≡ checksum_number ledger_id other
    → ((address_sums addr).s0 ≡ (address_sums other).s0)
      × ((address_sums addr).s1 ≡ (address_sums other).s1)
unfolding checksum_number Bounded
checksum_number-sums ledger_id addr other len e =
    number-sums (length addr) (length other) _ _ _ _ _ _
      (hash_ledger (ledger_id ++ 0 ∷ 0 ∷ 0 ∷ 0 ∷ 0 ∷ 0 ∷ []) 0) len
      (sum_digits-Bounded (map digit addr) true start (omega arith))
      (sum_digits-Bounded (map digit other) true start (omega arith)) e

-- The sums of the digits at even and at odd places.
places : Bool → List ℕ → Bool → ℕ
places which [] even = 0
places true (d ∷ ds) true = d + places true ds false
places true (d ∷ ds) false = places true ds true
places false (d ∷ ds) true = places false ds false
places false (d ∷ ds) false = d + places false ds true

sum_digits-places :
    (ds : List ℕ) (even : Bool) (t : Sums)
    → ((sum_digits ds even t).s0 % 11 ≡ (t.s0 + places true ds even) % 11)
      × ((sum_digits ds even t).s1 % 11 ≡ (t.s1 + places false ds even) % 11)
unfolding sum_digits places
sum_digits-places [] even t = omega arith
sum_digits-places (d ∷ ds) true t =
    omega (
      arith,
      sum_digits-places ds false (record t { s = (w * t.s + d) % p3; s0 = (t.s0 + d) % 11 }),
    )
sum_digits-places (d ∷ ds) false t =
    omega
      (arith, sum_digits-places ds true (record t { s = (w * t.s + d) % p3; s1 = (t.s1 + d) % 11 }))

-- Changing one digit changes one of the two sums by the difference.
places_change :
    (xs ys : List ℕ) (a b : ℕ) (even : Bool)
    → ((places true (xs ++ a ∷ ys) even + b ≡ places true (xs ++ b ∷ ys) even + a)
        ⊎ (places false (xs ++ a ∷ ys) even + b ≡ places false (xs ++ b ∷ ys) even + a))
unfolding places
places_change [] ys a b true = inl (omega arith)
places_change [] ys a b false = inr (omega arith)
places_change (x ∷ xs) ys a b true = ground (arith, places_change xs ys a b false)
places_change (x ∷ xs) ys a b false = ground (arith, places_change xs ys a b true)

map-append-cons :
    (xs ys : List ℕ) (a : ℕ) → map digit (xs ++ a ∷ ys) ≡ map digit xs ++ digit a ∷ map digit ys
map-append-cons [] ys a = refl
map-append-cons (x ∷ xs) ys a = ap (◌∷◌ (digit x)) (map-append-cons xs ys a)

change-lengths : (xs ys : List ℕ) (a b : ℕ) → length (xs ++ a ∷ ys) ≡ length (xs ++ b ∷ ys)
change-lengths [] ys a b = omega arith
change-lengths (x ∷ xs) ys a b = ap suc (change-lengths xs ys a b)

sums_differ :
    (xs ys : List ℕ) (a b : ℕ)
    → a ≤ 10
    → b ≤ 10
    → (sum_digits (xs ++ a ∷ ys) true start).s0 ≡ (sum_digits (xs ++ b ∷ ys) true start).s0
    → (sum_digits (xs ++ a ∷ ys) true start).s1 ≡ (sum_digits (xs ++ b ∷ ys) true start).s1
    → a ≡ b
sums_differ xs ys a b la lb e0 e1 =
    let p = sum_digits-places (xs ++ a ∷ ys) true start in
    let q = sum_digits-places (xs ++ b ∷ ys) true start in
    omega (arith, p, q, places_change xs ys a b true)

-- A checksum detects the change of a single character: for every ledger id, two addresses of digits
-- and dots that differ in one character, which is a digit or a dot in both, have different checksums.
pub checksum_change :
    (ledger_id xs ys : List ℕ) (a b : ℕ)
    → digit a ≤ 10
    → digit b ≤ 10
    → digit a ≢ digit b
    → checksum ledger_id (xs ++ a ∷ ys) ≢ checksum ledger_id (xs ++ b ∷ ys)
checksum_change ledger_id xs ys a b la lb ne e =
    let sums =
      checksum_number-sums ledger_id (xs ++ a ∷ ys) (xs ++ b ∷ ys) (change-lengths xs ys a b)
        (checksum-injective ledger_id (xs ++ a ∷ ys) (xs ++ b ∷ ys) e) in
    let s0 : List ℕ → ℕ = λ (ds : List ℕ). (sum_digits ds true start).s0 in
    let s1 : List ℕ → ℕ = λ (ds : List ℕ). (sum_digits ds true start).s1 in
    let ea = map-append-cons xs ys a in
    let eb = map-append-cons xs ys b in
    ne (
      sums_differ (map digit xs) (map digit ys) (digit a) (digit b) la lb
        (sym (ap s0 ea) ∙ sums.0 ∙ ap s0 eb) (sym (ap s1 ea) ∙ sums.1 ∙ ap s1 eb))
