-- ===== src/Subscription/Submission.antt =====
-- topic/TopicMessageSubmitTransaction.js and topic/TopicMessageQuery.js under src/ together: what is submitted in
-- chunks is what a subscriber is passed.
use hedera_sdk_js.Common.{
  ℕ, zero, suc, ◌+◌, ◌≡◌, ◌≤◌, ◌<◌, refl, sym, ap, ◌∙◌, subst, true, false, String, List, [], ◌∷◌,
  ◌++◌, some, length, select, map, if◌then◌else◌, ◌==◌, eq_iff, arith, All, str_eq, eq_refl,
  Bool-cases, inl, inr, length-append,
}
use hedera_sdk_js.Common.Outcome.{returns}
use hedera_sdk_js.Chunks.{TransactionId, Chunk, Chunked, chunk_count, freeze_topic, later_id}
use hedera_sdk_js.Chunks.Rows.{rows, signed_chunks}
use hedera_sdk_js.Chunks.Contents.{content_for, occurrences}
use hedera_sdk_js.Chunks.Reassembly.{
  topic_row, freeze_topic-rows, freeze_topic-locked, freeze_topic_lem,
}
use hedera_sdk_js.Subscription.{
  Response, TopicMessage, Query, pending_get, number_of, handle_messages, joined,
}
use hedera_sdk_js.Subscription.Interleaving.{is_chunk, chunk_of, total_of, Totals}
use hedera_sdk_js.Subscription.Order.{
  number, Rearranged, Ascending, All-Rearranged, length-Rearranged, handle_messages-contents,
}

-- The signed transactions for a node.
abbrev pub chunks_for : String → List Chunk → List Chunk
chunks_for node [] = []
chunks_for node (c ∷ cs) = if str_eq c.node node then c ∷ chunks_for node cs else chunks_for node cs

-- The response to a chunk has its bytes and repeats its chunk info; `id` is the text of the transaction
-- id of the first chunk.
abbrev pub Carries : String → List Chunk → List Response → Type 0
Carries id [] [] = Unit
Carries id [] (r ∷ rs) = ⊥
Carries id (c ∷ cs) [] = ⊥
Carries id (c ∷ cs) (r ∷ rs) =
    (r.message ≡ c.content
      × r.chunk_info ≡ some (record { initial = id; number = c.number; total = c.total }))
    × Carries id cs rs

contents_of : List Chunk → List ℕ
contents_of [] = []
contents_of (c ∷ cs) = c.content ++ contents_of cs

joined-Carries :
    (id : String) (cs : List Chunk) (ss : List Response)
    → Carries id cs ss
    → joined ss ≡ contents_of cs
unfolding contents_of
joined-Carries id [] [] h = refl
joined-Carries id [] (r ∷ rs) h = elim h [ ]
joined-Carries id (c ∷ cs) [] h = elim h [ ]
joined-Carries id (c ∷ cs) (r ∷ rs) h = λ i. h.0.0 i ++ joined-Carries id cs rs h.1 i

content_for_lem :
    (node : String) (cs : List Chunk) → contents_of (chunks_for node cs) ≡ content_for node cs
unfolding contents_of
content_for_lem node [] = refl
content_for_lem node (c ∷ cs) = elim (Bool-cases (str_eq c.node node)) [
  | inl yes' ↦ rw yes' (ap (◌++◌ c.content) (content_for_lem node cs))
  | inr no' ↦ rw no' (content_for_lem node cs)
]

chunks_for-append :
    (node : String) (cs ds : List Chunk)
    → chunks_for node (cs ++ ds) ≡ chunks_for node cs ++ chunks_for node ds
chunks_for-append node [] ds = refl
chunks_for-append node (c ∷ cs) ds = ground (arith, chunks_for-append node cs ds)

-- What the response to a chunk of the message `id`, one of `n`, is like.
abbrev IsOf : ℕ → String → Response → Type 0
IsOf n id r = (chunk_of id r ≡ true) × (total_of r.chunk_info ≡ n)

module _ (t : Chunked) (n : ℕ) (node : String) where
  -- The chunks for one node.
  column : ℕ → ℕ → TransactionId → List Chunk
  column zero k id = []
  column (suc left) k id = topic_row t n k id node ∷ column left (k + 1) (later_id 1 id)

  chunks_for-absent :
      (k : ℕ) (id : TransactionId) (xs : List String)
      → occurrences node xs ≡ 0
      → chunks_for node (map (topic_row t n k id) xs) ≡ []
  chunks_for-absent k id [] h = refl
  chunks_for-absent k id (x ∷ xs) h = ground (arith, chunks_for-absent k id xs)

  once_each :
      (k : ℕ) (id : TransactionId) (xs : List String)
      → occurrences node xs ≡ 1
      → chunks_for node (map (topic_row t n k id) xs) ≡ topic_row t n k id node ∷ []
  once_each k id [] h = absurd (omega arith)
  once_each k id (x ∷ xs) h = elim (Bool-cases (str_eq x node)) [
    | inl here ↦
        let there : x ≡ node = (eq_iff x node).0 here in
        rw here (λ i. topic_row t n k id (there i) ∷ chunks_for-absent k id xs (ground arith) i)
    | inr other ↦ rw other (once_each k id xs (ground arith))
  ]

  chunks_for-rows :
      (left k : ℕ) (id : TransactionId) (nodes : List String)
      → occurrences node nodes ≡ 1
      → chunks_for node (rows (topic_row t n) 1 nodes left k id) ≡ column left k id
  unfolding rows column
  chunks_for-rows zero k id nodes once = refl
  chunks_for-rows (suc left) k id nodes once =
      chunks_for-append node (map (topic_row t n k id) nodes) _ ∙ λ i.
      once_each k id nodes once i ++ chunks_for-rows left (k + 1) (later_id 1 id) nodes once i

  column-responses :
      (id : String)
      → (n == 1) ≡ false
      → (left k : ℕ) (first : TransactionId) (ss : List Response)
      → Carries id (column left k first) ss
      → All (λ r. k < number r) ss × Ascending ss × All (IsOf n id) ss × (length ss ≡ left)
  unfolding column
  column-responses id many zero k first [] h = (tt, tt, tt, refl)
  column-responses id many zero k first (r ∷ rs) h = elim h [ ]
  column-responses id many (suc left) k first [] h = elim h [ ]
  column-responses id many (suc left) k first (r ∷ rs) h =
      let (later, up, of, len) = column-responses id many left (k + 1) (later_id 1 first) rs h.1 in
      let info = h.0.1 in
      let at : number r ≡ k + 1 = ap number_of info in
      (
        (omega (arith, at), weaker (k + 1) k (omega arith) rs later),
        (weaker (k + 1) (number r) (omega (arith, at)) rs later, up),
        ((ap (is_chunk id) info ∙ rw (eq_refl id, many) refl, ap total_of info), of),
        ap suc len,
      )
    where
      weaker :
          (k j : ℕ)
          → j ≤ k
          → (rs : List Response) → All (λ r. k < number r) rs
          → All (λ r. j < number r) rs
      weaker k j h [] a = tt
      weaker k j h (r ∷ rs) a = (omega (arith, a.0), weaker k j h rs a.1)

All-append :
    (P : Response → Type 0) (xs : List Response) (r : Response)
    → All P (xs ++ r ∷ [])
    → All P xs × P r
All-append P [] r h = (tt, h.0)
All-append P (x ∷ xs) r h = ((h.0, (All-append P xs r h.1).0), (All-append P xs r h.1).1)

Totals-IsOf : (n : ℕ) (id : String) (rs : List Response) → All (IsOf n id) rs → Totals n rs
Totals-IsOf n id [] h = tt
Totals-IsOf n id (r ∷ rs) h = (h.0.1, Totals-IsOf n id rs h.1)

first_node :
    (node : String) (nodes : List String)
    → occurrences node nodes ≡ 1
    → (x : String) × (xs : List String) × (nodes ≡ x ∷ xs)
first_node node [] h = absurd (omega arith)
first_node node (x ∷ xs) h = (x, xs, refl)

-- Freezing returned, so the list of signed transactions was not locked.
was_unlocked :
    (t : Chunked) (first : TransactionId) (c : List ℕ) (node : String) (s : Chunked)
    → freeze_topic t first ≡ returns s
    → t.contents ≡ some c
    → chunk_count t.chunk_size (length c) ≤ t.max_chunks
    → 0 < chunk_count t.chunk_size (length c)
    → occurrences node t.node_ids ≡ 1
    → t.signed.locked ≡ false
was_unlocked t first c node s frozen e fits h once =
    let (x, xs, listed) = first_node node t.node_ids once in
    elim (Bool-cases t.signed.locked) [
      | inl shut ↦ cc (sym frozen ∙ freeze_topic-locked t first c x xs shut e fits h listed)
      | inr free ↦ free
    ]

signed_of :
    (t : Chunked) (first : TransactionId) (c : List ℕ) (node : String) (s : Chunked)
    → freeze_topic t first ≡ returns s
    → t.contents ≡ some c
    → 0 < t.chunk_size
    → chunk_count t.chunk_size (length c) ≤ t.max_chunks
    → 0 < chunk_count t.chunk_size (length c)
    → occurrences node t.node_ids ≡ 1
    → (chunks_for node (signed_chunks s.signed.list)
        ≡ column t
            (chunk_count t.chunk_size (length c))
            node
            (chunk_count t.chunk_size (length c))
            0
            first)
      × (content_for node (signed_chunks s.signed.list) ≡ c)
signed_of t first c node s frozen e h fits some_chunk once =
    let free = was_unlocked t first c node s frozen e fits some_chunk once in
    let n = chunk_count t.chunk_size (length c) in
    let (s', frozen', signed) = freeze_topic-rows t first c free e fits in
    let (s'', frozen'', whole) = freeze_topic_lem t first c node free e h fits once in
    let first_same : s' ≡ s = cc in
    let then_same : s'' ≡ s = cc in
    (
      ap (λ (s : Chunked). chunks_for node (signed_chunks s.signed.list)) (sym first_same)
          ∙ ap (chunks_for node) signed
          ∙ chunks_for-rows t n node n 0 first t.node_ids once,
      ap (λ (s : Chunked). content_for node (signed_chunks s.signed.list)) (sym then_same) ∙ whole,
    )

-- Let a topic message of two chunks or more be frozen, and let the responses `ss` carry the chunks signed
-- for one node. If exactly these responses have the id of the message among those that reach a subscriber
-- who had none of them before, in whatever order and between whatever others, then with the last of them
-- the subscriber is passed one message, and its contents are those that were submitted.
pub handle_messages-freeze_topic :
    (t s : Chunked) (first : TransactionId) (c : List ℕ) (node : String) (id : String) (q : Query)
    (rs : List Response) (r : Response) (ss : List Response)
    → freeze_topic t first ≡ returns s
    → t.contents ≡ some c
    → 0 < t.chunk_size
    → chunk_count t.chunk_size (length c) ≤ t.max_chunks
    → 1 < chunk_count t.chunk_size (length c)
    → occurrences node t.node_ids ≡ 1
    → Carries id (chunks_for node (signed_chunks s.signed.list)) ss
    → pending_get id q.pending ≡ []
    → Rearranged ss (select (chunk_of id) rs ++ r ∷ [])
    → (m : TopicMessage) × ((handle_messages q (rs ++ r ∷ [])).passed
        ≡ (handle_messages q rs).passed ++ m ∷ [])
      × (m.contents ≡ c)
handle_messages-freeze_topic t s first c node id q rs r ss frozen e h fits many once carried empty
      p =
    let n = chunk_count t.chunk_size (length c) in
    let mine = select (chunk_of id) rs in
    let (signed, whole) = signed_of t first c node s frozen e h fits (omega arith) once in
    let (later, up, of, len) =
      column-responses t n node id (ground arith) n 0 first ss
        (subst (λ cs. Carries id cs ss) signed carried) in
    let (of_earlier, of_last) = All-append (IsOf n id) mine r (All-Rearranged (IsOf n id) p of) in
    let (m, passed, chunks, contents) =
      handle_messages-contents id n rs r q ss empty (Totals-IsOf n id mine of_earlier) of_last.0
        of_last.1 (omega (arith, length-append mine (r ∷ []), length-Rearranged p, len)) up p in
    (
      m,
      passed,
      contents
          ∙ joined-Carries id (chunks_for node (signed_chunks s.signed.list)) ss carried
          ∙ content_for_lem node (signed_chunks s.signed.list)
          ∙ whole,
    )
