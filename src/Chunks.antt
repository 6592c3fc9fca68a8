-- ===== src/Chunks.antt =====
-- file/FileAppendTransaction.js and topic/TopicMessageSubmitTransaction.js under src/: contents that
-- are sent in chunks. Modelled is what `freezeWith` does after the one of the base class: the
-- transaction ids and, for each chunk and each node, the part of the body that depends on them.
-- Bytes are numbers; the chunk size is positive. `maxChunks` of a file is only read if it is set and
-- positive: 0 stands for every other value.
pub mod Rows
pub mod Contents
pub mod Reassembly
use hedera_sdk_js.Common.{
  ℕ, zero, suc, ◌+◌, ◌-◌, ◌*◌, ◌/◌, min, Bool, true, false, String, List, [], ◌∷◌, ◌++◌, map,
  Option, none, some, length, take, drop, if◌then◌else◌, ltb, leb,
}
use hedera_sdk_js.Common.Outcome.{Outcome, returns, throws, ◌>>=◌}
use hedera_sdk_js.LockableList.{LockableList, ListError, push, advance, current, set_locked, clear}

pub record TransactionId : Type 0 where
  pub account_id : String
  pub seconds : ℕ
  pub nanos : ℕ

-- What a signed transaction says of its chunk. `number` and `total` are the chunk info of a topic
-- message, 0 in a file append.
pub record Chunk : Type 0 where
  pub transaction_id : Option TransactionId
  pub node : String
  pub content : List ℕ
  pub number : ℕ
  pub total : ℕ

pub record Chunked : Type 0 where
  pub contents : Option (List ℕ)
  pub chunk_size : ℕ
  pub chunk_interval : ℕ
  pub max_chunks : ℕ
  pub transaction_ids : LockableList TransactionId
  pub node_ids : List String
  pub signed : LockableList Chunk

pub data ChunkError : Type 0 where
  too_many_chunks too_large_to_schedule list_is_locked : ChunkError

-- `contents.slice(from, to)`.
abbrev pub slice : ℕ → ℕ → List ℕ → List ℕ
slice from to xs = take (to - from) (drop from xs)

abbrev pub bytes : Option (List ℕ) → List ℕ
bytes none = []
bytes (some c) = c

-- `Math.ceil(length / chunkSize)`.
abbrev pub chunk_count : ℕ → ℕ → ℕ
chunk_count size len = (len + (size - 1)) / size

abbrev pub chunks_of : ℕ → Option (List ℕ) → ℕ
chunks_of size none = 1
chunks_of size (some c) = chunk_count size (length c)

unfoldable pub get_required_chunks : Chunked → ℕ
get_required_chunks t = chunks_of t.chunk_size t.contents

-- `FileAppendTransaction._makeTransactionData`: the index of the transaction ids gives the chunk.
-- Of an index that is NaN, `slice` takes nothing.
unfoldable pub file_data : Chunked → Option ℕ → List ℕ
file_data t none = []
file_data t (some index) =
    let start = index * t.chunk_size in
    slice start (min (start + t.chunk_size) (length (bytes t.contents))) (bytes t.contents)

-- `TopicMessageSubmitTransaction._makeTransactionData`: the chunk info gives the chunk.
unfoldable pub topic_data : Chunked → ℕ → List ℕ
topic_data t number =
    let start = (number - 1) * t.chunk_size in
    let len = length (bytes t.contents) in
    slice start (if ltb len (start + t.chunk_size) then len else start + t.chunk_size)
      (bytes t.contents)

abbrev pub later_id : ℕ → TransactionId → TransactionId
later_id interval id = record id { nanos = id.nanos + interval }

-- The inner loop: each signed transaction is pushed by itself.
unfoldable pub push_all : LockableList Chunk → List Chunk → Outcome ListError (LockableList Chunk)
push_all l [] = returns l
push_all l (c ∷ cs) = do pushed ← push l (c ∷ []); push_all pushed cs

-- The loop over the chunks. `make` is `_makeSignedTransaction` at the chunk's number (from 1) and
-- the list of transaction ids.
unfoldable pub chunk_loop :
    (ℕ → LockableList TransactionId → String → Chunk)
    → ℕ
    → ℕ
    → ℕ
    → TransactionId
    → Chunked
    → Outcome ListError Chunked
unfolding push_all
chunk_loop make interval zero chunk next t = returns t
chunk_loop make interval (suc left) chunk next t = do
  pushed ← push t.transaction_ids (next ∷ [])
  let ids = (advance pushed).1
  signed ← push_all t.signed (map (make (chunk + 1) ids) t.node_ids)
  chunk_loop make interval left (chunk + 1) (later_id interval next)
      (record t { transaction_ids = ids; signed = signed })

-- The ids are unlocked, and all lists are cleared; the signed transactions stay locked if they are.
abbrev pub unlocked : Chunked → Chunked
unlocked t = record t {
  transaction_ids = record (clear t.transaction_ids) { locked = false };
  signed = clear t.signed;
}

abbrev pub file_chunk : Chunked → ℕ → LockableList TransactionId → String → Chunk
file_chunk t number ids node = record {
  transaction_id = current ids;
  node = node;
  content = file_data t ids.index;
  number = 0;
  total = 0;
}

abbrev pub topic_chunk : Chunked → ℕ → ℕ → LockableList TransactionId → String → Chunk
topic_chunk t total number ids node = record {
  transaction_id = current ids;
  node = node;
  content = topic_data t number;
  number = number;
  total = total;
}

abbrev pub locked_error : {A : Type 0} → Outcome ListError A → Outcome ChunkError A
locked_error (returns a) = returns a
locked_error (throws e) = throws list_is_locked

-- `FileAppendTransaction.freezeWith`, at the transaction id that the base class has set. The first
-- argument is the contents: without any, nothing is done.
unfoldable pub freeze_file_at :
    Option (List ℕ) → Chunked → TransactionId → Outcome ChunkError Chunked
unfolding chunk_loop get_required_chunks file_data clear
freeze_file_at none t first = returns t
freeze_file_at (some c) t first = do
  s ←
      locked_error
        (chunk_loop (file_chunk t) t.chunk_interval (get_required_chunks t) 0 first (unlocked t))
  returns (record s { transaction_ids = set_locked (advance s.transaction_ids).1 })

unfoldable pub freeze_file : Chunked → TransactionId → Outcome ChunkError Chunked
unfolding freeze_file_at
freeze_file t first = freeze_file_at t.contents t first

-- `TopicMessageSubmitTransaction.freezeWith`.
unfoldable pub freeze_topic_chunks : ℕ → Chunked → TransactionId → Outcome ChunkError Chunked
unfolding chunk_loop topic_data clear
freeze_topic_chunks chunks t first = do
  s ← locked_error (chunk_loop (topic_chunk t chunks) 1 chunks 0 first (unlocked t))
  returns (record s { transaction_ids = (advance s.transaction_ids).1 })

unfoldable pub freeze_topic_at :
    Option (List ℕ) → Chunked → TransactionId → Outcome ChunkError Chunked
unfolding freeze_topic_chunks
freeze_topic_at none t first = returns t
freeze_topic_at (some c) t first =
    let chunks = chunk_count t.chunk_size (length c) in
    if ltb t.max_chunks chunks then throws too_many_chunks else freeze_topic_chunks chunks t first

unfoldable pub freeze_topic : Chunked → TransactionId → Outcome ChunkError Chunked
unfolding freeze_topic_at
freeze_topic t first = freeze_topic_at t.contents t first

-- The tests that come before a transaction is sent or scheduled.
unfoldable pub check_file_chunks : Chunked → Outcome ChunkError (Unit {0})
unfolding get_required_chunks
check_file_chunks t =
    if ltb 0 t.max_chunks
    then (if ltb t.max_chunks (get_required_chunks t) then throws too_many_chunks else returns tt)
    else returns tt

unfoldable pub check_schedule : Chunked → Outcome ChunkError (Unit {0})
check_schedule t = elim t.contents [
  | none ↦ returns tt
  | some c ↦ if ltb t.chunk_size (length c) then throws too_large_to_schedule else returns tt
]
