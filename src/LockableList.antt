-- ===== src/LockableList.antt =====
-- transaction/List.js under src/: the list of node accounts, of transaction ids and of transactions
-- that a request walks through. An element is an `Option`, since a write past the end leaves holes.
-- The index is `none` where JavaScript has NaN: `advance` of an empty list computes `1 % 0`.
-- A callback (`setIfAbsent`) is the value that it returns; the aliasing of `clone` is not modelled.
pub mod Laws
use mathlib.Core.Option
use hedera_sdk_js.Common.{
  ℕ, zero, suc, ◌+◌, ◌%◌, Bool, true, false, List, [], ◌∷◌, ◌++◌, map, Option, none, some, length,
  get_elem?, if◌then◌else◌, ◌==◌,
}
use hedera_sdk_js.Common.Outcome.{Outcome, returns, throws}

pub record LockableList {ℓ} (A : Type ℓ) : Type ℓ where
  pub list : List (Option A)
  pub locked : Bool
  pub index : Option ℕ

pub data ListError : Type 0 where
  list_is_locked : ListError

-- `xs[i] = v`.
abbrev pub write {ℓ} : {A : Type ℓ} → List (Option A) → ℕ → A → List (Option A)
write [] zero v = some v ∷ []
write [] (suc i) v = none ∷ write [] i v
write (x ∷ xs) zero v = some v ∷ xs
write (x ∷ xs) (suc i) v = x ∷ write xs i v

-- `xs[i]`, with `undefined` for a hole and for what is out of range.
abbrev pub read {ℓ} : {A : Type ℓ} → List (Option A) → ℕ → Option A
read [] i = none
read (x ∷ xs) zero = x
read (x ∷ xs) (suc i) = read xs i

unfoldable pub next_index : ℕ → Option ℕ → Option ℕ
next_index zero i = none
next_index (suc n) none = none
next_index (suc n) (some i) = some ((i + 1) % suc n)

module _ {ℓ} {A : Type ℓ} where
  abbrev pub create : LockableList A
  create = record { list = []; locked = false; index = some 0 }

  unfoldable pub set_list : LockableList A → List A → Outcome ListError (LockableList A)
  set_list l items =
      if l.locked
      then throws list_is_locked
      else returns (record l { list = map some items; index = some 0 })

  unfoldable pub push : LockableList A → List A → Outcome ListError (LockableList A)
  push l items =
      if l.locked
      then throws list_is_locked
      else returns (record l { list = l.list ++ map some items })

  unfoldable pub set_locked : LockableList A → LockableList A
  set_locked l = record l { locked = true }

  unfoldable pub clear : LockableList A → LockableList A
  clear l = record l { list = []; index = some 0 }

  unfoldable pub get : LockableList A → Option ℕ → Option A
  get l none = none
  get l (some i) = read l.list i

  unfoldable pub set : LockableList A → ℕ → A → LockableList A
  set l i item =
      if i == length l.list
      then record l { list = l.list ++ some item ∷ [] }
      else record l { list = write l.list i item }

  -- `this.list[index] == null`.
  absent : Option A → Bool
  absent none = true
  absent (some a) = false

  unfoldable pub set_if_absent : LockableList A → ℕ → A → LockableList A
  unfolding set absent
  set_if_absent l i made =
      if i == length l.list
      then set l i made
      else if absent (read l.list i)
      then set l i made
      else l

  -- The index before the step, and the list after it.
  unfoldable pub advance : LockableList A → Option ℕ × LockableList A
  unfolding next_index
  advance l = (l.index, record l { index = next_index (length l.list) l.index })

  unfoldable pub next : LockableList A → Option A × LockableList A
  unfolding advance get
  next l = (get (advance l).1 (advance l).0, (advance l).1)

  unfoldable pub current : LockableList A → Option A
  unfolding get
  current l = get l l.index

  unfoldable pub is_empty : LockableList A → Bool
  is_empty l = length l.list == 0
