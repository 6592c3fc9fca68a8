-- ===== src/Transaction/Requests/Laws.antt =====
-- transaction/Transaction.js under src/: the request for a node is the signed transaction for that node.
use hedera_sdk_js.Common.{
  ℕ, zero, suc, ◌+◌, ◌-◌, ◌*◌, ◌≡◌, ◌<◌, refl, ap, ◌∙◌, false, List, [], ◌∷◌, ◌++◌, map, Option,
  some, length, if◌then◌else◌, ltb, ◌==◌, arith, Bool-cases, Option-cases, inl, inr,
}
use hedera_sdk_js.Common.Outcome.{Outcome, returns, ◌>>=◌}
use hedera_sdk_js.LockableList.{LockableList, get, set, set_if_absent, read}
use hedera_sdk_js.LockableList.Laws.{get-set_if_absent, list-set, or_made, read-write}
use hedera_sdk_js.Transaction.{Signed, Transaction, TransactionError}
use hedera_sdk_js.Transaction.Requests.{
  holes, flat_index, pad, fill, signed_at, build_transaction, request_at, make_request,
}

module _ {A : Type 0} where
  pad_unlocked :
      (l : LockableList A) (index : ℕ)
      → l.locked ≡ false
      → (k : LockableList A) × (pad l index ≡ returns k)
  unfolding pad
  pad_unlocked l index h = elim (Bool-cases (ltb (length l.list) index)) [
    | inl short ↦ (record l { list = l.list ++ holes (index - length l.list) }, rw (short, h) refl)
    | inr long ↦ (l, rw long refl)
  ]

  same_index : (i : ℕ) (x y : Option A) → (if i == i then x else y) ≡ x
  same_index i x y = ground arith

  fill_present :
      (base : LockableList A) (index : ℕ) (item : A)
      → or_made (get base (some index)) item ≡ item
      → get (set_if_absent base index item) (some index) ≡ some item
  fill_present base index item h =
      get-set_if_absent base index index item ∙ same_index index _ _ ∙ ap some h

  get-set :
      (l : LockableList A) (index : ℕ) (item : A) → get (set l index item) (some index) ≡ some item
  unfolding get
  get-set l index item =
      ap (λ xs. read xs index) (list-set l index item) ∙ read-write l.list index item

  pub get-fill :
      (l : LockableList A) (index : ℕ) (item : A) → get (fill l index item) (some index) ≡ some item
  unfolding fill get
  get-fill l index item = elim (Option-cases (read l.list index)) [
    | inl none_there ↦
        rw none_there (fill_present l index item (ap (λ o. or_made o item) none_there))
    | inr (a, there) ↦ rw there (
        fill_present (set l index item) index item
          (ap (λ o. or_made o item) (get-set l index item)))
  ]

  pub read-map :
      {B : Type 0} (f : Option A → B) (xs : List (Option A)) (j : ℕ)
      → j < length xs
      → read (map (λ x. some (f x)) xs) j ≡ some (f (read xs j))
  read-map f [] j h = absurd (omega arith)
  read-map f (x ∷ xs) zero h = refl
  read-map f (x ∷ xs) (suc j) h = read-map f xs j (omega arith)

module _ {Data Sig : Type 0} where
  request_at-signed :
      (index : ℕ) (t : Transaction Data Sig) (s : Signed Data Sig)
      → t.transactions.locked ≡ false
      → get t.signed (some index) ≡ some s
      → (m : Transaction Data Sig) × (request_at (some index) t ≡ returns (some s, m))
  unfolding request_at build_transaction
  request_at-signed index t s open_list there =
      let (padded, first) = pad_unlocked t.transactions index open_list in
      let m = record t { transactions = fill padded index s } in
      let filling : LockableList (Signed Data Sig)
          → Outcome TransactionError (Transaction Data Sig) =
        λ padded. signed_at (get t.signed (some index)) >>= λ s.
        returns (record t { transactions = fill padded index s }) in
      let built : build_transaction index t ≡ returns m =
        ap (λ o. o >>= filling) first
        ∙ ap (λ o. signed_at o >>= λ s. returns (record t { transactions = fill padded index s }))
            there in
      let answer : Transaction Data Sig
          → Outcome TransactionError (Option (Signed Data Sig) × Transaction Data Sig) =
        λ built. returns (get built.transactions (some index), built) in
      (m, ap (λ o. o >>= answer) built ∙ ap (λ o. returns (o, m)) (get-fill padded index s))

  -- The request of a transaction that is not signed on demand and may be written to is, at the index of
  -- the chunk and the node that are current, the signed transaction with all the signatures that it has
  -- now, whatever was encoded before.
  pub make_request_lem :
      (t : Transaction Data Sig) (i j : ℕ) (s : Signed Data Sig)
      → t.sign_on_demand ≡ false
      → t.transactions.locked ≡ false
      → t.transaction_ids.index ≡ some i
      → t.node_account_ids.index ≡ some j
      → get t.signed (some (i * length t.node_account_ids.list + j)) ≡ some s
      → (m : Transaction Data Sig) × (make_request t ≡ returns (some s, m))
  unfolding make_request
  make_request_lem t i j s ready open_list at_id at_node there =
      let count = length t.node_account_ids.list in
      let flat : flat_index t.transaction_ids.index count t.node_account_ids.index
          ≡ some (i * count + j) =
        ap (λ x. flat_index x count t.node_account_ids.index) at_id
        ∙ ap (flat_index (some i) count) at_node in
      let (m, e) = request_at-signed (i * count + j) t s open_list there in
      (m, not_on_demand t _ _ ready ∙ ap (λ index. request_at index t) flat ∙ e)
    where
      not_on_demand :
          (t : Transaction Data Sig)
          (x y : Outcome TransactionError (Option (Signed Data Sig) × Transaction Data Sig))
          → t.sign_on_demand ≡ false
          → (if t.sign_on_demand then x else y) ≡ y
      not_on_demand t x y h = ground arith
