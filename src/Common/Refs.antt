-- ===== src/Common/Refs.antt =====
-- Lists of object references. A reference is a number, and `==` on objects compares references.
use Prim.Native.Nat.{ℕ, zero, suc, ◌+◌}
use mathlib.Core.Path.{◌≡◌, refl}
use mathlib.Core.Bool.{Bool, true, false, ◌||◌}
use mathlib.Core.List.{List, [], ◌∷◌, ◌++◌}
use mathlib.Core.Option.{some}
use native.Mathlib.Omega.{arith}
use hedera_sdk_js.Common.Tests.{◌==◌, if◌then◌else◌}
use hedera_sdk_js.Common.Lists.{get_elem?, select}

abbrev pub includes : List ℕ → ℕ → Bool
includes [] a = false
includes (x ∷ xs) a = x == a || includes xs a

abbrev pub Distinct : List ℕ → Type 0
Distinct [] = Unit {0}
Distinct (x ∷ xs) = (includes xs x ≡ false) × Distinct xs

abbrev pub count : ℕ → List ℕ → ℕ
count a [] = 0
count a (x ∷ xs) = (if x == a then 1 else 0) + count a xs

pub includes-append :
    (xs ys : List ℕ) (a : ℕ) → includes (xs ++ ys) a ≡ (includes xs a || includes ys a)
includes-append [] ys a = refl
includes-append (x ∷ xs) ys a = ground (arith, includes-append xs ys a)

pub includes-get_elem? : (xs : List ℕ) (i a : ℕ) → get_elem? xs i ≡ some a → includes xs a ≡ true
includes-get_elem? [] i a h = ground arith
includes-get_elem? (x ∷ xs) zero a h = ground arith
includes-get_elem? (x ∷ xs) (suc i) a h = ground (arith, includes-get_elem? xs i a h)

pub includes-select :
    (p : ℕ → Bool) (xs : List ℕ) (a : ℕ)
    → includes (select p xs) a ≡ (if p a then includes xs a else false)
includes-select p [] a = ground arith
includes-select p (x ∷ xs) a = ground (arith, includes-select p xs a)

pub select-Distinct : (p : ℕ → Bool) (xs : List ℕ) → Distinct xs → Distinct (select p xs)
select-Distinct p [] d = tt
select-Distinct p (x ∷ xs) d = ground (arith, includes-select p xs x, select-Distinct p xs d.1)

pub Distinct-snoc :
    (xs : List ℕ) (a : ℕ) → Distinct xs → includes xs a ≡ false → Distinct (xs ++ a ∷ [])
Distinct-snoc [] a d h = ground arith
Distinct-snoc (x ∷ xs) a d h = ground (arith, includes-append xs (a ∷ []) x, Distinct-snoc xs a d.1)
