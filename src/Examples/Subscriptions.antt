-- ===== src/Examples/Subscriptions.antt =====
-- topic/TopicMessageQuery.js under src/ at concrete inputs.
use hedera_sdk_js.Common.{
  ℕ, ◌+◌, List, [], ◌∷◌, ◌++◌, map, none, some, false, ◌≡◌, ◌≤◌, refl, arith,
}
use hedera_sdk_js.Common.Outcome.{returns}
use hedera_sdk_js.Chunks.{Chunk, Chunked, freeze_topic}
use hedera_sdk_js.LockableList.{create}
use hedera_sdk_js.Examples.Contents.{five_bytes, first}
use hedera_sdk_js.Subscription.{
  ChunkInfo, Response, TopicMessage, Query, StreamError, plain, mirror, handle_messages,
}
use hedera_sdk_js.Subscription.Order.{Rearranged, skip, exchange, after, handle_messages-contents}
use hedera_sdk_js.Subscription.Submission.{handle_messages-freeze_topic}
use hedera_sdk_js.Subscription.Retries.{Event, message, error, react_all, delays, react_all-bounds}

abbrev chunk : ℕ → List ℕ → Response
chunk number bytes = record {
  timestamp = 100 + number;
  message = bytes;
  running_hash = [];
  sequence_number = number;
  chunk_info = some (record { initial = "0.0.2@5.0"; number = number; total = 3 });
}

abbrev one : Response
one = chunk 1 (1 ∷ 2 ∷ [])

abbrev two : Response
two = chunk 2 (3 ∷ 4 ∷ [])

abbrev three : Response
three = chunk 3 (5 ∷ [])

abbrev other : Response
other = record {
  timestamp = 103;
  message = 9 ∷ [];
  running_hash = [];
  sequence_number = 7;
  chunk_info = none;
}

abbrev query : Query
query = record {
  start_time = none;
  limit = some 10;
  attempt = 0;
  max_attempts = 10;
  max_backoff = 8000;
  unsubscribed = false;
  pending = [];
  passed = [];
  waits = [];
  errors = 0;
}

abbrev in_order : List Response
in_order = one ∷ two ∷ three ∷ []

-- The third chunk comes first, and another message between.
abbrev earlier : List Response
earlier = three ∷ other ∷ one ∷ []

moved : Rearranged in_order (three ∷ one ∷ two ∷ [])
moved = after (skip one (exchange two three [])) (exchange one three (two ∷ []))

handle_messages-contents_example :
    (m : TopicMessage) × ((handle_messages query (earlier ++ two ∷ [])).passed
      ≡ (handle_messages query earlier).passed ++ m ∷ [])
    × (m.chunks ≡ in_order)
    × (m.contents ≡ 1 ∷ 2 ∷ 3 ∷ 4 ∷ 5 ∷ [])
unfolding hedera_sdk_js.Subscription.pending_get
handle_messages-contents_example =
    handle_messages-contents "0.0.2@5.0" 3 earlier two query in_order refl (refl, (refl, tt)) refl
      refl refl (omega arith) moved

abbrev row : ℕ → List ℕ → ℕ → List Chunk
row number bytes nanos =
    map
      (λ node. record {
        transaction_id = some (record first { nanos = nanos });
        node = node;
        content = bytes;
        number = number;
        total = 3;
      })
      ("0.0.3" ∷ "0.0.4" ∷ [])

abbrev frozen : Chunked
frozen = record five_bytes {
  transaction_ids = record {
    list = some first ∷ some (record first { nanos = 1 }) ∷ some (record first { nanos = 2 }) ∷ [];
    locked = false;
    index = some 0;
  };
  signed = record create {
    list = map some (row 1 (1 ∷ 2 ∷ []) 0 ++ row 2 (3 ∷ 4 ∷ []) 1 ++ row 3 (5 ∷ []) 2);
  };
}

freezes : freeze_topic five_bytes first ≡ returns frozen
unfolding freeze_topic hedera_sdk_js.LockableList.push hedera_sdk_js.LockableList.advance
    hedera_sdk_js.LockableList.current
freezes = refl

handle_messages-freeze_topic_example :
    (m : TopicMessage) × ((handle_messages query (earlier ++ two ∷ [])).passed
      ≡ (handle_messages query earlier).passed ++ m ∷ [])
    × (m.contents ≡ 1 ∷ 2 ∷ 3 ∷ 4 ∷ 5 ∷ [])
unfolding hedera_sdk_js.Subscription.pending_get
handle_messages-freeze_topic_example =
    handle_messages-freeze_topic five_bytes frozen first (1 ∷ 2 ∷ 3 ∷ 4 ∷ 5 ∷ []) "0.0.4"
      "0.0.2@5.0" query earlier two in_order freezes refl (omega arith) (omega arith) (omega arith)
      refl ((refl, refl), ((refl, refl), ((refl, refl), tt))) refl moved

abbrev events : List Event
events = message other ∷ error plain ∷ error (mirror 14 false) ∷ error (mirror 13 false) ∷ []

react_all-bounds_example :
    ((react_all query events).attempt ≤ 10)
    × ((react_all query events).waits ≡ delays 8000 (react_all query events).attempt)
    × ((react_all query events).attempt + (react_all query events).errors ≡ 3)
react_all-bounds_example = react_all-bounds query events refl refl refl
