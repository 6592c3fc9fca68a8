-- ===== src/Chunks/Contents.antt =====
-- file/FileAppendTransaction.js and topic/TopicMessageSubmitTransaction.js under src/: slices of the contents.
use hedera_sdk_js.Common.{
  ℕ, zero, suc, ◌+◌, ◌-◌, ◌*◌, min, ◌≤◌, ◌<◌, ◌≡◌, refl, ap, ◌∙◌, sym, String, List, [], ◌∷◌, ◌++◌,
  map, length, append_assoc, append-nil, arith, if◌then◌else◌, str_eq, drop, take-append-drop,
  take_all, drop_all, drop-drop, length-drop,
}
use native.Mathlib.Nat.{div-add-mod', mod-lt}
use native.Mathlib.Decide.{dec_le}
use hedera_sdk_js.Chunks.{TransactionId, Chunk, later_id, slice, chunk_count}
use hedera_sdk_js.Chunks.Rows.{rows}

abbrev pub content_for : String → List Chunk → List ℕ
content_for node [] = []
content_for node (c ∷ cs) =
    if str_eq c.node node then c.content ++ content_for node cs else content_for node cs

abbrev pub occurrences : String → List String → ℕ
occurrences node [] = 0
occurrences node (x ∷ xs) = (if str_eq x node then 1 else 0) + occurrences node xs

pub content_for-append :
    (node : String) (cs ds : List Chunk)
    → content_for node (cs ++ ds) ≡ content_for node cs ++ content_for node ds
content_for-append node [] ds = refl
content_for-append node (c ∷ cs) ds = ground (
  arith,
  content_for-append node cs ds,
  append_assoc c.content (content_for node cs) (content_for node ds),
)

-- A slice of at most `size`, and what follows it.
pub slice-append-drop :
    (start size : ℕ) (c : List ℕ)
    → slice start (min (start + size) (length c)) c ++ drop (start + size) c ≡ drop start c
slice-append-drop start size c = elim (dec_le (start + size) (length c)) [
  | yes inside ↦
      let e : min (start + size) (length c) - start ≡ size = omega arith in
      rw (e, ← drop-drop start size c) (take-append-drop size (drop start c))
  | no past ↦
      let e : min (start + size) (length c) - start ≡ length c - start = omega arith in
      rw
        (
          e,
          take_all (length c - start) (drop start c) (omega (arith, length-drop start c)),
          drop_all (start + size) c (omega arith),
        )
        (append-nil (drop start c))
]

module _ (row : ℕ → TransactionId → String → Chunk) (data_of : ℕ → List ℕ)
    (row-node : (k : ℕ) (id : TransactionId) (node : String) → (row k id node).node ≡ node)
    (row-content : (k : ℕ) (id : TransactionId) (node : String)
      → (row k id node).content ≡ data_of k)
    (size : ℕ) (c : List ℕ)
    (data-slice : (k : ℕ) → data_of k ≡ slice (k * size) (min (k * size + size) (length c)) c)
    (interval : ℕ) (nodes : List String) where
  pub content_for-absent :
      (node : String) (k : ℕ) (id : TransactionId) (xs : List String)
      → occurrences node xs ≡ 0
      → content_for node (map (row k id) xs) ≡ []
  content_for-absent node k id [] h = refl
  content_for-absent node k id (x ∷ xs) h =
      rw (row-node k id x) (ground (arith, content_for-absent node k id xs))

  pub content_for-row :
      (node : String) (k : ℕ) (id : TransactionId) (xs : List String)
      → occurrences node xs ≡ 1
      → content_for node (map (row k id) xs) ≡ data_of k
  content_for-row node k id [] h = absurd (omega arith)
  content_for-row node k id (x ∷ xs) h =
      rw (row-node k id x, row-content k id x)
        (ground (
          arith,
          content_for-absent node k id xs,
          content_for-row node k id xs,
          append-nil (data_of k),
        ))

  -- The rows from the k-th on bring a node the contents from the k-th chunk on.
  pub content_for-rows :
      (node : String) (left k : ℕ) (id : TransactionId)
      → occurrences node nodes ≡ 1
      → length c ≤ (k + left) * size
      → content_for node (rows row interval nodes left k id) ≡ drop (k * size) c
  unfolding rows
  content_for-rows node zero k id once h = sym (drop_all (k * size) c (omega arith))
  content_for-rows node (suc left) k id once h =
      let next = later_id interval id in
      let there : (k + 1) * size ≡ k * size + size = omega arith in
      content_for-append node (map (row k id) nodes) (rows row interval nodes left (k + 1) next)
      ∙ ap (λ xs. xs ++ content_for node (rows row interval nodes left (k + 1) next))
          (content_for-row node k id nodes once ∙ data-slice k)
      ∙ ap (λ xs. slice (k * size) (min (k * size + size) (length c)) c ++ xs)
          (content_for-rows node left (k + 1) next once (omega arith)
            ∙ ap (λ (j : ℕ). drop j c) there)
      ∙ slice-append-drop (k * size) size c

pub drop_none : (k : ℕ) (xs : List ℕ) → k ≡ 0 → drop k xs ≡ xs
drop_none zero xs h = refl
drop_none (suc k) xs h = absurd (omega arith)

-- There are enough chunks.
pub chunk_count-enough : (size len : ℕ) → 0 < size → len ≤ chunk_count size len * size
chunk_count-enough size len h =
    omega (arith, div-add-mod' (len + (size - 1)) size, mod-lt (len + (size - 1)) h)
