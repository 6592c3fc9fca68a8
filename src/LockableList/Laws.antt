-- ===== src/LockableList/Laws.antt =====
-- transaction/List.js under src/: walking the list, and writing to it.
use native.Mathlib.Nat.{mod-add-mod, mod-lt}
use hedera_sdk_js.Common.{
  ℕ, zero, suc, ◌+◌, ◌%◌, ◌<◌, ◌≡◌, ◌≢◌, refl, ap, ◌∙◌, List, [], ◌∷◌, ◌++◌, Option, none, some,
  length, if◌then◌else◌, ◌==◌, arith,
}
use hedera_sdk_js.LockableList.{
  LockableList, write, read, get, set, set_if_absent, next_index, advance,
}

next_index_lem : (n i : ℕ) → 0 < n → next_index n (some i) ≡ some ((i + 1) % n)
unfolding next_index
next_index_lem zero i h = absurd (omega arith)
next_index_lem (suc n) i h = refl

rot : (n i k : ℕ) → ((i + 1) % n + k) % n ≡ (i + suc k) % n
rot n i k = mod-add-mod (i + 1) n k ∙ ap (λ (x : ℕ). x % n) (omega arith)

module _ {A : Type 0} where
  -- `k` calls of `advance`.
  pub advance_times : ℕ → LockableList A → LockableList A
  advance_times zero l = l
  advance_times (suc k) l = advance_times k (advance l).1

  index-advance :
      (l : LockableList A) (i : ℕ)
      → l.index ≡ some i
      → 0 < length l.list
      → (advance l).1.index ≡ some ((i + 1) % length l.list)
  unfolding advance
  index-advance l i e h = rw e (next_index_lem (length l.list) i h)

  -- Advancing k times from an index in range lands on (index + k) mod length, and changes neither
  -- the elements nor the lock.
  pub advance_times-index :
      (k i : ℕ) (l : LockableList A)
      → l.index ≡ some i
      → i < length l.list
      → ((advance_times k l).index ≡ some ((i + k) % length l.list))
        × ((advance_times k l).list ≡ l.list)
        × ((advance_times k l).locked ≡ l.locked)
  unfolding advance_times advance
  advance_times-index zero i l e h = (e ∙ ap some (grind arith), refl, refl)
  advance_times-index (suc k) i l e h =
      let n = length l.list in
      let (at, kept, lock) =
        advance_times-index k ((i + 1) % n) (advance l).1 (index-advance l i e (omega arith))
          (mod-lt (i + 1) (omega arith)) in
      (at ∙ ap some (rot n i k), kept, lock)

  -- Reading back what was written.
  pub read-write : (xs : List (Option A)) (i : ℕ) (v : A) → read (write xs i v) i ≡ some v
  read-write [] zero v = refl
  read-write [] (suc i) v = read-write [] i v
  read-write (x ∷ xs) zero v = refl
  read-write (x ∷ xs) (suc i) v = read-write xs i v

  read_past : (xs : List (Option A)) (i : ℕ) → i ≡ length xs → read xs i ≡ none
  read_past [] i h = refl
  read_past (x ∷ xs) zero h = absurd (omega arith)
  read_past (x ∷ xs) (suc i) h = read_past xs i (omega arith)

  -- The element that is there, or else the one that the callback made.
  abbrev pub or_made : Option A → A → A
  or_made none made = made
  or_made (some a) made = a

  read-write_ne :
      (xs : List (Option A)) (i j : ℕ) (v : A) → i ≢ j → read (write xs i v) j ≡ read xs j
  read-write_ne [] zero zero v h = absurd (h refl)
  read-write_ne [] zero (suc j) v h = refl
  read-write_ne [] (suc i) zero v h = refl
  read-write_ne [] (suc i) (suc j) v h = read-write_ne [] i j v (omega arith)
  read-write_ne (x ∷ xs) zero zero v h = absurd (h refl)
  read-write_ne (x ∷ xs) zero (suc j) v h = refl
  read-write_ne (x ∷ xs) (suc i) zero v h = refl
  read-write_ne (x ∷ xs) (suc i) (suc j) v h = read-write_ne xs i j v (omega arith)

  -- At the end of the list a write is a push.
  write_at_end : (xs : List (Option A)) (v : A) → write xs (length xs) v ≡ xs ++ some v ∷ []
  write_at_end [] v = refl
  write_at_end (x ∷ xs) v = ap (◌∷◌ x) (write_at_end xs v)

  pub list-set : (l : LockableList A) (i : ℕ) (v : A) → (set l i v).list ≡ write l.list i v
  unfolding set
  list-set l i v = ground (arith, write_at_end l.list v)

  -- `setIfAbsent` leaves every other element as it was, keeps an element that is there, and fills
  -- the place otherwise.
  pub get-set_if_absent :
      (l : LockableList A) (i j : ℕ) (v : A)
      → get (set_if_absent l i v) (some j)
        ≡ (if i == j then some (or_made (get l (some i)) v) else get l (some j))
  unfolding set_if_absent get
  get-set_if_absent l i j v =
      ground (
        arith,
        list-set l i v,
        read-write l.list i v,
        read-write_ne l.list i j v,
        read_past l.list i,
      )
