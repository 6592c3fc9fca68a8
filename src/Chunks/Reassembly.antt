-- ===== src/Chunks/Reassembly.antt =====
-- file/FileAppendTransaction.js and topic/TopicMessageSubmitTransaction.js under src/: each node is
-- sent the whole contents.
use hedera_sdk_js.Common.{
  ℕ, ◌+◌, ◌-◌, ◌*◌, min, ◌≤◌, ◌<◌, ◌≡◌, refl, ap, ◌∙◌, true, false, String, List, [], ◌∷◌, ◌++◌,
  map, suc, some, length, arith, ltb, lt→ltb,
}
use hedera_sdk_js.Common.Outcome.{Outcome, returns, throws, ◌>>=◌}
use hedera_sdk_js.LockableList.{LockableList, ListError, current, advance, set_locked, clear}
use hedera_sdk_js.Chunks.{
  TransactionId, Chunk, Chunked, chunk_loop, slice, bytes, chunk_count, get_required_chunks,
  file_data, topic_data, file_chunk, topic_chunk, unlocked, freeze_file, freeze_file_at,
  freeze_topic_at, freeze_topic_chunks, freeze_topic, chunks_of, locked_error, ChunkError,
  too_many_chunks,
}
use hedera_sdk_js.Chunks.Rows.{
  rows, Walks, chunk_loop_lem, chunk_loop-locked, signed_chunks, signed_chunks-some,
}
use hedera_sdk_js.Chunks.Contents.{
  content_for, occurrences, content_for-rows, drop_none, chunk_count-enough,
}

-- The signed transaction of the k-th chunk of a file.
abbrev file_row : Chunked → ℕ → TransactionId → String → Chunk
file_row t k id node = record {
  transaction_id = some id;
  node = node;
  content = file_data t (some k);
  number = 0;
  total = 0;
}

file_chunk-row :
    (t : Chunked) (k : ℕ) (ids : LockableList TransactionId) (id : TransactionId) (node : String)
    → ids.index ≡ some k
    → current ids ≡ some id
    → file_chunk t (k + 1) ids node ≡ file_row t k id node
file_chunk-row t k ids id node at now = λ i. record {
  transaction_id = now i;
  node = node;
  content = file_data t (at i);
  number = 0;
  total = 0;
}

unlocked-signed :
    (t : Chunked) → ((unlocked t).signed.list ≡ []) × ((unlocked t).signed.locked ≡ t.signed.locked)
unfolding clear
unlocked-signed t = (refl, refl)

-- What was appended to the cleared list.
signed_rows :
    (t s : Chunked) (cs : List Chunk)
    → s.signed.list ≡ (unlocked t).signed.list ++ map some cs
    → signed_chunks s.signed.list ≡ cs
signed_rows t s cs h =
    ap signed_chunks (h ∙ ap (λ xs. xs ++ map some cs) (unlocked-signed t).0)
    ∙ signed_chunks-some cs

start-Walks : (t : Chunked) → Walks 0 (unlocked t).transaction_ids
unfolding clear
start-Walks t = record { unlocked = refl; filled = refl; at = refl }

freeze_after :
    (t : Chunked) (first : TransactionId) (c : List ℕ) (s : Chunked)
    → chunk_loop (file_chunk t) t.chunk_interval (get_required_chunks t) 0 first (unlocked t)
      ≡ returns s
    → freeze_file_at (some c) t first
      ≡ returns (record s { transaction_ids = set_locked (advance s.transaction_ids).1 })
unfolding freeze_file_at
freeze_after t first c s loops =
    let finish : Chunked → Outcome ChunkError Chunked =
      λ r. returns (record r { transaction_ids = set_locked (advance r.transaction_ids).1 }) in
    ap (λ o. locked_error o >>= finish) loops

file_content :
    (t : Chunked) (c : List ℕ) (first : TransactionId) (node : String)
    → t.contents ≡ some c
    → 0 < t.chunk_size
    → occurrences node t.node_ids ≡ 1
    → content_for node
        (rows (file_row t) t.chunk_interval t.node_ids (get_required_chunks t) 0 first)
      ≡ c
unfolding get_required_chunks file_data
file_content t c first node e h once =
    let whole = bytes t.contents in
    let same : whole ≡ c = ap bytes e in
    let enough : length whole ≤ (0 + get_required_chunks t) * t.chunk_size = omega (
      arith,
      chunk_count-enough t.chunk_size (length c) h,
      ap (λ (g : ℕ). g * t.chunk_size) (ap (chunks_of t.chunk_size) e),
      ap length same,
    ) in
    content_for-rows (file_row t) (λ k. file_data t (some k)) (λ k id x. refl) (λ k id x. refl)
      t.chunk_size whole (λ k. refl) t.chunk_interval t.node_ids node (get_required_chunks t) 0
      first once enough
    ∙ drop_none (0 * t.chunk_size) whole (omega arith)
    ∙ same

-- Once `freezeWith` of the base class has returned: if the list of signed transactions is not locked,
-- `freezeWith` of a file append that has contents and a positive chunk size succeeds, locks the
-- transaction ids, and gives a node that is listed once exactly the contents, chunk by chunk in order.
pub freeze_file_lem :
    (t : Chunked) (first : TransactionId) (c : List ℕ) (node : String)
    → t.signed.locked ≡ false
    → t.contents ≡ some c
    → 0 < t.chunk_size
    → occurrences node t.node_ids ≡ 1
    → (s : Chunked) × (freeze_file t first ≡ returns s)
      × (s.transaction_ids.locked ≡ true)
      × (content_for node (signed_chunks s.signed.list) ≡ c)
unfolding freeze_file set_locked advance
freeze_file_lem t first c node free e h once =
    let count = get_required_chunks t in
    let (s, loops, signed, walks) =
      chunk_loop_lem (file_chunk t) (file_row t) (file_chunk-row t) t.chunk_interval count 0 first
        (unlocked t) (start-Walks t) ((unlocked-signed t).1 ∙ free) in
    (
      record s { transaction_ids = set_locked (advance s.transaction_ids).1 },
      ap (λ o. freeze_file_at o t first) e ∙ freeze_after t first c s loops,
      refl,
      ap (content_for node)
            (signed_rows t s (rows (file_row t) t.chunk_interval t.node_ids count 0 first) signed)
          ∙ file_content t c first node e h once,
    )

freeze_file_throws :
    (t : Chunked) (first : TransactionId) (c : List ℕ)
    → chunk_loop (file_chunk t) t.chunk_interval (get_required_chunks t) 0 first (unlocked t)
      ≡ throws ListError.list_is_locked
    → freeze_file_at (some c) t first ≡ throws ChunkError.list_is_locked
unfolding freeze_file_at
freeze_file_throws t first c loops =
    let finish : Chunked → Outcome ChunkError Chunked =
      λ r. returns (record r { transaction_ids = set_locked (advance r.transaction_ids).1 }) in
    ap (λ o. locked_error o >>= finish) loops

some_left : (n : ℕ) → 0 < n → n ≡ suc (n - 1)
some_left n h = omega arith

-- If the list of signed transactions is locked, as after `addSignature`, and there is a chunk and a
-- node, `freezeWith` of a file append throws.
pub freeze_file-locked :
    (t : Chunked) (first : TransactionId) (c : List ℕ) (node : String) (nodes : List String)
    → t.signed.locked ≡ true
    → t.contents ≡ some c
    → 0 < get_required_chunks t
    → t.node_ids ≡ node ∷ nodes
    → freeze_file t first ≡ throws ChunkError.list_is_locked
unfolding freeze_file
freeze_file-locked t first c node nodes shut e h listed =
    ap (λ o. freeze_file_at o t first) e
    ∙ freeze_file_throws t first c (
        ap (λ (n : ℕ). chunk_loop (file_chunk t) t.chunk_interval n 0 first (unlocked t))
          (some_left (get_required_chunks t) h)
        ∙ chunk_loop-locked (file_chunk t) (file_row t) (file_chunk-row t) t.chunk_interval
            (get_required_chunks t - 1) 0 first (unlocked t) node nodes (start-Walks t)
            ((unlocked-signed t).1 ∙ shut) listed)

-- The signed transaction of the k-th chunk of a message.
abbrev pub topic_row : Chunked → ℕ → ℕ → TransactionId → String → Chunk
topic_row t total k id node = record {
  transaction_id = some id;
  node = node;
  content = topic_data t (k + 1);
  number = k + 1;
  total = total;
}

topic_chunk-row :
    (t : Chunked) (total k : ℕ) (ids : LockableList TransactionId) (id : TransactionId)
    (node : String)
    → ids.index ≡ some k
    → current ids ≡ some id
    → topic_chunk t total (k + 1) ids node ≡ topic_row t total k id node
topic_chunk-row t total k ids id node at now = λ i. record {
  transaction_id = now i;
  node = node;
  content = topic_data t (k + 1);
  number = k + 1;
  total = total;
}

topic_data-slice :
    (t : Chunked) (k : ℕ)
    → topic_data t (k + 1)
      ≡ slice
          (k * t.chunk_size)
          (min (k * t.chunk_size + t.chunk_size) (length (bytes t.contents)))
          (bytes t.contents)
unfolding topic_data
topic_data-slice t k =
    let start : (k + 1 - 1) * t.chunk_size ≡ k * t.chunk_size =
      ap (λ (j : ℕ). j * t.chunk_size) (omega arith) in
    rw start (ap (λ (end : ℕ). slice (k * t.chunk_size) end (bytes t.contents)) (ground arith))

freeze_topic_after :
    (t : Chunked) (first : TransactionId) (chunks : ℕ) (s : Chunked)
    → chunk_loop (topic_chunk t chunks) 1 chunks 0 first (unlocked t) ≡ returns s
    → freeze_topic_chunks chunks t first
      ≡ returns (record s { transaction_ids = (advance s.transaction_ids).1 })
unfolding freeze_topic_chunks
freeze_topic_after t first chunks s loops =
    let finish : Chunked → Outcome ChunkError Chunked =
      λ r. returns (record r { transaction_ids = (advance r.transaction_ids).1 }) in
    ap (λ o. locked_error o >>= finish) loops

ltb_of_le : (a b : ℕ) → b ≤ a → ltb a b ≡ false
ltb_of_le a b h = ground arith

-- A topic message of more than `maxChunks` chunks is refused.
freeze_topic-refused :
    (t : Chunked) (first : TransactionId) (c : List ℕ)
    → t.contents ≡ some c
    → t.max_chunks < chunk_count t.chunk_size (length c)
    → freeze_topic t first ≡ throws too_many_chunks
unfolding freeze_topic freeze_topic_at
freeze_topic-refused t first c e over = ap (λ o. freeze_topic_at o t first) e ∙ rw (lt→ltb _ _ over)

-- What a frozen topic message has signed: the chunks in their order.
pub freeze_topic-rows :
    (t : Chunked) (first : TransactionId) (c : List ℕ)
    → t.signed.locked ≡ false
    → t.contents ≡ some c
    → chunk_count t.chunk_size (length c) ≤ t.max_chunks
    → (s : Chunked) × (freeze_topic t first ≡ returns s)
      × (signed_chunks s.signed.list
          ≡ rows
              (topic_row t (chunk_count t.chunk_size (length c)))
              1
              t.node_ids
              (chunk_count t.chunk_size (length c))
              0
              first)
unfolding freeze_topic freeze_topic_at
freeze_topic-rows t first c free e fits =
    let chunks = chunk_count t.chunk_size (length c) in
    let (s, loops, signed, walks) =
      chunk_loop_lem (topic_chunk t chunks) (topic_row t chunks) (topic_chunk-row t chunks) 1 chunks
        0 first (unlocked t) (start-Walks t) ((unlocked-signed t).1 ∙ free) in
    (
      record s { transaction_ids = (advance s.transaction_ids).1 },
      ap (λ o. freeze_topic_at o t first) e
          ∙ rw (ltb_of_le _ _ fits) (freeze_topic_after t first chunks s loops),
      signed_rows t s (rows (topic_row t chunks) 1 t.node_ids chunks 0 first) signed,
    )

freeze_topic_throws :
    (t : Chunked) (first : TransactionId) (chunks : ℕ)
    → chunk_loop (topic_chunk t chunks) 1 chunks 0 first (unlocked t)
      ≡ throws ListError.list_is_locked
    → freeze_topic_chunks chunks t first ≡ throws ChunkError.list_is_locked
unfolding freeze_topic_chunks
freeze_topic_throws t first chunks loops =
    let finish : Chunked → Outcome ChunkError Chunked =
      λ r. returns (record r { transaction_ids = (advance r.transaction_ids).1 }) in
    ap (λ o. locked_error o >>= finish) loops

-- If the list of signed transactions is locked, and there is a chunk and a node, `freezeWith` of a topic
-- message of at most `maxChunks` chunks throws.
pub freeze_topic-locked :
    (t : Chunked) (first : TransactionId) (c : List ℕ) (node : String) (nodes : List String)
    → t.signed.locked ≡ true
    → t.contents ≡ some c
    → chunk_count t.chunk_size (length c) ≤ t.max_chunks
    → 0 < chunk_count t.chunk_size (length c)
    → t.node_ids ≡ node ∷ nodes
    → freeze_topic t first ≡ throws ChunkError.list_is_locked
unfolding freeze_topic freeze_topic_at
freeze_topic-locked t first c node nodes shut e fits h listed =
    let chunks = chunk_count t.chunk_size (length c) in
    ap (λ o. freeze_topic_at o t first) e
    ∙ rw (ltb_of_le _ _ fits) (
        freeze_topic_throws t first chunks (
          ap (λ (n : ℕ). chunk_loop (topic_chunk t chunks) 1 n 0 first (unlocked t))
            (some_left chunks h)
          ∙ chunk_loop-locked (topic_chunk t chunks) (topic_row t chunks) (topic_chunk-row t chunks)
              1 (chunks - 1) 0 first (unlocked t) node nodes (start-Walks t)
              ((unlocked-signed t).1 ∙ shut) listed))

-- Once `freezeWith` of the base class has returned: if the list of signed transactions is not locked,
-- `freezeWith` of a topic message of at most `maxChunks` chunks, of a positive chunk size, succeeds, and
-- gives a node that is listed once exactly the message, chunk by chunk in order.
pub freeze_topic_lem :
    (t : Chunked) (first : TransactionId) (c : List ℕ) (node : String)
    → t.signed.locked ≡ false
    → t.contents ≡ some c
    → 0 < t.chunk_size
    → chunk_count t.chunk_size (length c) ≤ t.max_chunks
    → occurrences node t.node_ids ≡ 1
    → (s : Chunked) × (freeze_topic t first ≡ returns s)
      × (content_for node (signed_chunks s.signed.list) ≡ c)
freeze_topic_lem t first c node free e h fits once =
    let chunks = chunk_count t.chunk_size (length c) in
    let (s, frozen, signed) = freeze_topic-rows t first c free e fits in
    let whole = bytes t.contents in
    let same : whole ≡ c = ap bytes e in
    let enough : length whole ≤ (0 + chunks) * t.chunk_size =
      omega (arith, chunk_count-enough t.chunk_size (length c) h, ap length same) in
    (
      s,
      frozen,
      ap (content_for node) signed
          ∙ content_for-rows (topic_row t chunks) (λ k. topic_data t (k + 1)) (λ k id x. refl)
              (λ k id x. refl) t.chunk_size whole (topic_data-slice t) 1 t.node_ids node chunks 0
              first once enough
          ∙ drop_none (0 * t.chunk_size) whole (omega arith)
          ∙ same,
    )
