-- ===== src/Transaction/Signing/Prefixes.antt =====
-- transaction/Transaction.js under src/: the keys of a list of signatures.
use hedera_sdk_js.Common.{
  ◌≡◌, refl, ap, ◌∙◌, false, ◌||◌, String, List, [], ◌∷◌, ◌++◌, Option, none, some, contains,
  without, str_eq, eq_refl, eq_iff, arith,
}
use hedera_sdk_js.Common.Outcome.{Outcome, returns}
use hedera_sdk_js.Transaction.{SigPair}
use hedera_sdk_js.Transaction.Signing.{pairs_of, keep_map, emptied, keep_pairs, taken}

abbrev pub UniqueTexts : List String → Type 0
UniqueTexts [] = Unit {0}
UniqueTexts (x ∷ xs) = (contains xs x ≡ false) × UniqueTexts xs

pub contains-snoc :
    (xs : List String) (x y : String) → contains (xs ++ y ∷ []) x ≡ (contains xs x || str_eq y x)
contains-snoc [] x y = ground arith
contains-snoc (z ∷ xs) x y = ground (arith, contains-snoc xs x y)

pub contains-without :
    (k x : String) (xs : List String) → contains xs x ≡ false → contains (without k xs) x ≡ false
contains-without k x [] h = h
contains-without k x (y ∷ xs) h = ground (arith, contains-without k x xs)

pub without-UniqueTexts :
    (k : String) (xs : List String) → UniqueTexts xs → UniqueTexts (without k xs)
without-UniqueTexts k [] u = tt
without-UniqueTexts k (x ∷ xs) u =
    ground (arith, contains-without k x xs, without-UniqueTexts k xs u.1)

pub snoc-UniqueTexts :
    (xs : List String) (k : String)
    → UniqueTexts xs
    → contains xs k ≡ false
    → UniqueTexts (xs ++ k ∷ [])
snoc-UniqueTexts [] k u h = (refl, tt)
snoc-UniqueTexts (x ∷ xs) k u h =
    ground (arith, contains-snoc xs x k, eq_iff x k, eq_iff k x, snoc-UniqueTexts xs k u.1)

pub returned {ℓ κ} :
    {E : Type ℓ} {A : Type κ} {x y : A} → ◌≡◌ {A = Outcome E A} (returns x) (returns y) → x ≡ y
returned e = cc

module _ {Sig : Type 0} where
  abbrev pub prefixes : List (SigPair Sig) → List String
  prefixes [] = []
  prefixes (p ∷ ps) = p.prefix ∷ prefixes ps

  pub prefixes-snoc :
      (ps : List (SigPair Sig)) (p : SigPair Sig)
      → prefixes (ps ++ p ∷ []) ≡ prefixes ps ++ p.prefix ∷ []
  prefixes-snoc [] p = refl
  prefixes-snoc (q ∷ ps) p = ap (◌∷◌ q.prefix) (prefixes-snoc ps p)

  pub prefixes-keep_pairs :
      (key : String) (ps : List (SigPair Sig))
      → prefixes (keep_pairs key ps) ≡ without key (prefixes ps)
  unfolding keep_pairs
  prefixes-keep_pairs key [] = refl
  prefixes-keep_pairs key (p ∷ ps) = ground (arith, prefixes-keep_pairs key ps)

  pub keep_pairs-snoc :
      (key : String) (signature : Sig) (ps : List (SigPair Sig))
      → contains (prefixes ps) key ≡ false
      → keep_pairs key (ps ++ record { prefix = key; signature = signature } ∷ []) ≡ ps
  unfolding keep_pairs
  keep_pairs-snoc key signature [] h = ground (arith, eq_refl key)
  keep_pairs-snoc key signature (p ∷ ps) h = ground (arith, keep_pairs-snoc key signature ps)

  pub taken-snoc :
      (key : String) (signature : Sig) (ps : List (SigPair Sig))
      → contains (prefixes ps) key ≡ false
      → taken key (ps ++ record { prefix = key; signature = signature } ∷ []) ≡ signature ∷ []
  unfolding taken
  taken-snoc key signature [] h = ground (arith, eq_refl key)
  taken-snoc key signature (p ∷ ps) h = ground (arith, taken-snoc key signature ps)

  pub keep_map-prefixes :
      (key : String) (keys : List String) (o : Option (List (SigPair Sig)))
      → prefixes (pairs_of o) ≡ keys
      → prefixes (pairs_of (keep_map key o)) ≡ without key keys
  keep_map-prefixes key keys none h = ap (without key) h
  keep_map-prefixes key keys (some ps) h = prefixes-keep_pairs key ps ∙ ap (without key) h

  pub emptied-prefixes : (o : Option (List (SigPair Sig))) → prefixes (pairs_of (emptied o)) ≡ []
  emptied-prefixes none = refl
  emptied-prefixes (some ps) = refl
