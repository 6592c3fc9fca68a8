-- ===== src/Chunks/Rows.antt =====
-- file/FileAppendTransaction.js and topic/TopicMessageSubmitTransaction.js under src/: the loop over
-- the chunks, in closed form.
use hedera_sdk_js.Common.{
  ℕ, zero, suc, ◌+◌, ◌-◌, ◌≡◌, refl, ap, subst, ◌∙◌, sym, true, false, none, String, List, [], ◌∷◌,
  ◌++◌, map, Option, some, length, append_assoc, append-nil, length-append, arith,
}
use hedera_sdk_js.Common.Outcome.{Outcome, returns, throws, ◌>>=◌}
use hedera_sdk_js.LockableList.{
  LockableList, push, advance, current, read, next_index, get, ListError, list_is_locked,
}
use hedera_sdk_js.Chunks.{TransactionId, Chunk, Chunked, chunk_loop, push_all, later_id}

read-append :
    {A : Type 0} (xs : List (Option A)) (a : A) → read (xs ++ some a ∷ []) (length xs) ≡ some a
read-append [] a = refl
read-append (x ∷ xs) a = read-append xs a

-- A list of transaction ids as the loop has it after `k` chunks.
pub record Walks (k : ℕ) (ids : LockableList TransactionId) : Type 0 where
  pub unlocked : ids.locked ≡ false
  pub filled : length ids.list ≡ k
  pub at : ids.index ≡ some (k - 1)

abbrev pub pushed : {A : Type 0} → LockableList A → A → LockableList A
pushed ids id = record ids { list = ids.list ++ some id ∷ [] }

push_works :
    {A : Type 0} (ids : LockableList A) (id : A)
    → ids.locked ≡ false
    → push ids (id ∷ []) ≡ returns (pushed ids id)
unfolding push
push_works ids id e = rw e

next_index_last : (k : ℕ) (len : ℕ) → len ≡ k + 1 → next_index len (some (k - 1)) ≡ some k
unfolding next_index
next_index_last k zero e = absurd (omega arith)
next_index_last zero (suc n) e = ap some (grind arith)
next_index_last (suc k) (suc n) e = ap some (grind arith)

index_after :
    (k : ℕ) (ids : LockableList TransactionId) (id : TransactionId)
    → Walks k ids
    → next_index (length (ids.list ++ some id ∷ [])) ids.index ≡ some k
index_after k ids id w =
    ap (next_index (length (ids.list ++ some id ∷ []))) w.at
    ∙ next_index_last k _ (omega (arith, length-append ids.list (some id ∷ []), w.filled))

step-Walks :
    (k : ℕ) (ids : LockableList TransactionId) (id : TransactionId)
    → Walks k ids
    → Walks (k + 1) (advance (pushed ids id)).1
unfolding advance
step-Walks k ids id w = record {
  unlocked = w.unlocked;
  filled = omega (arith, length-append ids.list (some id ∷ []), w.filled);
  at = index_after k ids id w ∙ ap some (omega arith);
}

step-current :
    (k : ℕ) (ids : LockableList TransactionId) (id : TransactionId)
    → Walks k ids
    → ((advance (pushed ids id)).1.index ≡ some k) × (current (advance (pushed ids id)).1 ≡ some id)
unfolding advance current get
step-current k ids id w =
    let moved = index_after k ids id w in
    (
      moved,
      rw moved (ap (read (ids.list ++ some id ∷ [])) (sym w.filled) ∙ read-append ids.list id),
    )

-- The chunks in order, each for all the nodes; `row` is the signed transaction of a chunk (counted
-- from 0) for a node.
unfoldable pub rows :
    (ℕ → TransactionId → String → Chunk) → ℕ → List String → ℕ → ℕ → TransactionId → List Chunk
rows row interval nodes zero chunk id = []
rows row interval nodes (suc left) chunk id =
    map (row chunk id) nodes ++ rows row interval nodes left (chunk + 1) (later_id interval id)

map-eq {ℓ} :
    {A B : Type ℓ} (f g : A → B) (xs : List A) → ((a : A) → f a ≡ g a) → map f xs ≡ map g xs
map-eq f g [] h = refl
map-eq f g (x ∷ xs) h = λ i. h x i ∷ map-eq f g xs h i

-- The signed transactions of a list, which has no holes here.
abbrev pub signed_chunks : List (Option Chunk) → List Chunk
signed_chunks [] = []
signed_chunks (none ∷ cs) = signed_chunks cs
signed_chunks (some c ∷ cs) = c ∷ signed_chunks cs

pub signed_chunks-some : (cs : List Chunk) → signed_chunks (map some cs) ≡ cs
signed_chunks-some [] = refl
signed_chunks-some (c ∷ cs) = ap (◌∷◌ c) (signed_chunks-some cs)

abbrev pub extended : LockableList Chunk → List Chunk → LockableList Chunk
extended l cs = record l { list = l.list ++ map some cs }

push_all_works :
    (l : LockableList Chunk) (cs : List Chunk)
    → l.locked ≡ false
    → push_all l cs ≡ returns (extended l cs)
unfolding push_all
push_all_works l [] h = λ i. returns (record l { list = sym (append-nil l.list) i })
push_all_works l (c ∷ cs) h =
    ap (λ o. o >>= λ l. push_all l cs) (push_works l c h) ∙ push_all_works (pushed l c) cs h ∙ λ i.
    returns (record l { list = append_assoc l.list (some c ∷ []) (map some cs) i })

push_all_throws :
    (l : LockableList Chunk) (c : Chunk) (cs : List Chunk)
    → l.locked ≡ true
    → push_all l (c ∷ cs) ≡ throws list_is_locked
unfolding push_all push
push_all_throws l c cs h = rw h refl

map-append {ℓ κ} :
    {A : Type ℓ} {B : Type κ} (f : A → B) (xs ys : List A) → map f (xs ++ ys) ≡ map f xs ++ map f ys
map-append f [] ys = refl
map-append f (x ∷ xs) ys = ap (◌∷◌ (f x)) (map-append f xs ys)

module _ (make : ℕ → LockableList TransactionId → String → Chunk)
    (row : ℕ → TransactionId → String → Chunk)
    (make-row : (k : ℕ) (ids : LockableList TransactionId) (id : TransactionId) (node : String)
      → ids.index ≡ some k
      → current ids ≡ some id
      → make (k + 1) ids node ≡ row k id node)
    (interval : ℕ) where
  -- The loop succeeds where the list of signed transactions is not locked, and appends the rows.
  pub chunk_loop_lem :
      (left k : ℕ) (next : TransactionId) (t : Chunked)
      → Walks k t.transaction_ids
      → t.signed.locked ≡ false
      → (s : Chunked) × (chunk_loop make interval left k next t ≡ returns s)
        × (s.signed.list ≡ t.signed.list ++ map some (rows row interval t.node_ids left k next))
        × Walks (k + left) s.transaction_ids
  unfolding chunk_loop rows
  chunk_loop_lem zero k next t w free =
      let here : k ≡ k + 0 = omega arith in
      (t, refl, sym (append-nil t.signed.list), subst (λ j. Walks j t.transaction_ids) here w)
  chunk_loop_lem (suc left) k next t w free =
      let ids = (advance (pushed t.transaction_ids next)).1 in
      let (at, now) = step-current k t.transaction_ids next w in
      let made = map (make (k + 1) ids) t.node_ids in
      let t' : Chunked = record t { transaction_ids = ids; signed = extended t.signed made } in
      let (s, loops, signed, walks) =
        chunk_loop_lem left (k + 1) (later_id interval next) t'
          (step-Walks k t.transaction_ids next w) free in
      let there : k + 1 + left ≡ k + suc left = omega arith in
      let rest = rows row interval t.node_ids left (k + 1) (later_id interval next) in
      (
        s,
        rw (push_works t.transaction_ids next w.unlocked)
            (rw (push_all_works t.signed made free) loops),
        signed
            ∙ append_assoc t.signed.list (map some made) (map some rest)
            ∙ ap (◌++◌ t.signed.list) (
                sym (map-append some made rest)
                ∙ ap (λ xs. map some (xs ++ rest))
                    (map-eq (make (k + 1) ids) (row k next) t.node_ids
                      (λ node. make-row k ids next node at now))),
        subst (λ j. Walks j s.transaction_ids) there walks,
      )

  -- And where it is locked, the loop throws as soon as there is something to push.
  pub chunk_loop-locked :
      (left k : ℕ) (next : TransactionId) (t : Chunked) (node : String) (nodes : List String)
      → Walks k t.transaction_ids
      → t.signed.locked ≡ true
      → t.node_ids ≡ node ∷ nodes
      → chunk_loop make interval (suc left) k next t ≡ throws list_is_locked
  unfolding chunk_loop
  chunk_loop-locked left k next t node nodes w shut e =
      let ids = (advance (pushed t.transaction_ids next)).1 in
      let finish : LockableList Chunk → Outcome ListError Chunked = λ signed.
        chunk_loop make interval left (k + 1) (later_id interval next)
          (record t { transaction_ids = ids; signed = signed }) in
      rw (push_works t.transaction_ids next w.unlocked) (
        ap (λ ns. push_all t.signed (map (make (k + 1) ids) ns) >>= finish) e
        ∙ ap (λ o. o >>= finish)
            (push_all_throws t.signed (make (k + 1) ids node) (map (make (k + 1) ids) nodes) shut))
