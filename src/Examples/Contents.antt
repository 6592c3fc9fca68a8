-- ===== src/Examples/Contents.antt =====
-- FileAppendTransaction.js and TopicMessageSubmitTransaction.js under src/ at concrete inputs.
use hedera_sdk_js.Common.{◌≡◌, refl, [], ◌∷◌, some, true, arith}
use hedera_sdk_js.Common.Outcome.{returns, throws}
use hedera_sdk_js.LockableList.{create, set_locked}
use hedera_sdk_js.Chunks.{ChunkError, Chunked, TransactionId, freeze_file, freeze_topic}
use hedera_sdk_js.Chunks.Rows.{signed_chunks}
use hedera_sdk_js.Chunks.Contents.{content_for}
use hedera_sdk_js.Chunks.Reassembly.{freeze_file_lem, freeze_topic_lem}

abbrev pub first : TransactionId
first = record { account_id = "0.0.2"; seconds = 5; nanos = 0 }

-- Five bytes in chunks of two, for two nodes.
abbrev pub five_bytes : Chunked
five_bytes = record {
  contents = some (1 ∷ 2 ∷ 3 ∷ 4 ∷ 5 ∷ []);
  chunk_size = 2;
  chunk_interval = 10;
  max_chunks = 20;
  transaction_ids = create;
  node_ids = "0.0.3" ∷ "0.0.4" ∷ [];
  signed = create;
}

freeze_file_lem_example :
    (s : Chunked) × (freeze_file five_bytes first ≡ returns s)
    × (s.transaction_ids.locked ≡ true)
    × (content_for "0.0.4" (signed_chunks s.signed.list) ≡ 1 ∷ 2 ∷ 3 ∷ 4 ∷ 5 ∷ [])
freeze_file_lem_example =
    freeze_file_lem five_bytes first (1 ∷ 2 ∷ 3 ∷ 4 ∷ 5 ∷ []) "0.0.4" refl refl (omega arith) refl

freeze_topic_lem_example :
    (s : Chunked) × (freeze_topic five_bytes first ≡ returns s)
    × (content_for "0.0.3" (signed_chunks s.signed.list) ≡ 1 ∷ 2 ∷ 3 ∷ 4 ∷ 5 ∷ [])
freeze_topic_lem_example =
    freeze_topic_lem five_bytes first (1 ∷ 2 ∷ 3 ∷ 4 ∷ 5 ∷ []) "0.0.3" refl refl (omega arith)
      (omega arith) refl

-- Freezing again, when the signed transactions were locked, throws.
locked_again :
    freeze_file (record five_bytes { signed = set_locked create }) first
    ≡ throws ChunkError.list_is_locked
unfolding freeze_file hedera_sdk_js.LockableList.push set_locked
locked_again = refl
