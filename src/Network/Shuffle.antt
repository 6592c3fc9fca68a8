-- ===== src/Network/Shuffle.antt =====
-- `shuffle`, util.js under src/, over references: the argument of the loop is `currentIndex`.
use hedera_sdk_js.Common.{
  ℕ, zero, suc, ◌+◌, ◌≤◌, ◌<◌, ◌≡◌, refl, ◌∙◌, List, [], ◌∷◌, none, some, length, get_elem?, set,
  get_elem?-some, count, arith, random_below, random_below-lt, if◌then◌else◌, ◌==◌, length-set,
  Option-cases, inl, inr,
}

-- `temporary = xs[i]; xs[i] = xs[j]; xs[j] = temporary`.
unfoldable pub swap : List ℕ → ℕ → ℕ → List ℕ
swap xs i j = elim (get_elem? xs i) [
  | none ↦ xs
  | some a ↦ elim (get_elem? xs j) [ none ↦ xs | some b ↦ set (set xs i b) j a ]
]

unfoldable pub shuffle_loop : (ℕ → ℕ) → ℕ → List ℕ → List ℕ
unfolding swap
shuffle_loop draws zero xs = xs
shuffle_loop draws (suc i) xs = shuffle_loop draws i (swap xs i (random_below (draws i) (suc i)))

unfoldable pub shuffle : (ℕ → ℕ) → List ℕ → List ℕ
unfolding shuffle_loop
shuffle draws xs = shuffle_loop draws (length xs) xs

-- A write moves one occurrence from the old value to the new one.
count-set :
    (a : ℕ) (xs : List ℕ) (i old new : ℕ)
    → get_elem? xs i ≡ some old
    → count a (set xs i new) + count a (old ∷ []) ≡ count a xs + count a (new ∷ [])
count-set a [] i old new e = ground arith
count-set a (x ∷ xs) zero old new e = ground arith
count-set a (x ∷ xs) (suc i) old new e = omega (arith, count-set a xs i old new e)

get_elem?-set :
    (xs : List ℕ) (i j old new a : ℕ)
    → get_elem? xs i ≡ some old
    → get_elem? xs j ≡ some a
    → get_elem? (set xs i new) j ≡ some (if i == j then new else a)
get_elem?-set [] i j old new a e f = ground arith
get_elem?-set (x ∷ xs) zero zero old new a e f = ground arith
get_elem?-set (x ∷ xs) zero (suc j) old new a e f = ground arith
get_elem?-set (x ∷ xs) (suc i) zero old new a e f = ground arith
get_elem?-set (x ∷ xs) (suc i) (suc j) old new a e f =
    ground (arith, get_elem?-set xs i j old new a e f)

swap_counts :
    (a : ℕ) (xs : List ℕ) (i j x y : ℕ)
    → get_elem? xs i ≡ some x
    → get_elem? xs j ≡ some y
    → count a (set (set xs i y) j x) ≡ count a xs
swap_counts a xs i j x y ei ej =
    let second =
      count-set a (set xs i y) j (if i == j then y else y) x (get_elem?-set xs i j x y y ei ej) in
    ground (arith, count-set a xs i x y ei, second)

length-swap : (xs : List ℕ) (i j : ℕ) → length (swap xs i j) ≡ length xs
unfolding swap
length-swap xs i j = elim (Option-cases (get_elem? xs i)) [
  | inl e ↦ rw (e, swap)
  | inr (a, e) ↦
      rw (e, swap)
        (elim (Option-cases (get_elem? xs j)) [
          | inl f ↦ rw f
          | inr (b, f) ↦ rw f (length-set (set xs i b) j a ∙ length-set xs i b)
        ])
]

count-swap :
    (a : ℕ) (xs : List ℕ) (i j : ℕ)
    → i < length xs
    → j < length xs
    → count a (swap xs i j) ≡ count a xs
unfolding swap
count-swap a xs i j hi hj =
    let (x, ei) = get_elem?-some xs i hi in
    let (y, ej) = get_elem?-some xs j hj in
    rw (ei, swap) (rw (ej, swap) (swap_counts a xs i j x y ei ej))

count-shuffle_loop :
    (draws : ℕ → ℕ) (i : ℕ) (xs : List ℕ) (a : ℕ)
    → i ≤ length xs
    → count a (shuffle_loop draws i xs) ≡ count a xs
unfolding shuffle_loop
count-shuffle_loop draws zero xs a h = refl
count-shuffle_loop draws (suc i) xs a h =
    let j = random_below (draws i) (suc i) in
    let below : j < suc i = random_below-lt (draws i) (suc i) (omega arith) in
    count-shuffle_loop draws i (swap xs i j) a (omega (arith, length-swap xs i j))
    ∙ count-swap a xs i j h (omega arith)

-- Shuffling keeps every element as often as it was there, whatever the random numbers are.
pub count-shuffle : (draws : ℕ → ℕ) (xs : List ℕ) (a : ℕ) → count a (shuffle draws xs) ≡ count a xs
unfolding shuffle
count-shuffle draws xs a = count-shuffle_loop draws (length xs) xs a (omega arith)
