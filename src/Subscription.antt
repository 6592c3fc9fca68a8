-- ===== src/Subscription.antt =====
-- topic/TopicMessageQuery.js and topic/TopicMessage.js under src/: a subscription to a topic. Messages come
-- from a mirror node; the timestamp of a message is its nanoseconds, the id of the first transaction of a
-- message in chunks its text. `Array.sort` with the comparison of `_ofMany` is an insertion by the number
-- of the chunk; it is only determined where the numbers are different. The listener, the error handler and
-- the timers are represented by what they are called with.
pub mod Interleaving
pub mod Delivery
pub mod Order
pub mod Submission
pub mod Retries
use hedera_sdk_js.Common.{
  ℕ, zero, suc, ◌+◌, ◌-◌, ◌*◌, ◌^◌, min, Bool, true, false, not, ◌&&◌, ◌||◌, String, List, [], ◌∷◌,
  ◌++◌, map, Option, none, some, length, if◌then◌else◌, ◌==◌, ltb, str_eq,
}

pub record ChunkInfo : Type 0 where
  pub initial : String
  pub number : ℕ
  pub total : ℕ

-- `ConsensusTopicResponse`.
pub record Response : Type 0 where
  pub timestamp : ℕ
  pub message : List ℕ
  pub running_hash : List ℕ
  pub sequence_number : ℕ
  pub chunk_info : Option ChunkInfo

pub record TopicMessage : Type 0 where
  pub timestamp : ℕ
  pub contents : List ℕ
  pub running_hash : List ℕ
  pub sequence_number : ℕ
  pub initial : Option String
  pub chunks : List Response

pub record Query : Type 0 where
  pub start_time : Option ℕ
  pub limit : Option ℕ
  pub attempt : ℕ
  pub max_attempts : ℕ
  pub max_backoff : ℕ
  pub unsubscribed : Bool
  -- The chunks received so far, by their initial transaction, in insertion order.
  pub pending : List (String × List Response)
  pub passed : List TopicMessage
  pub waits : List ℕ
  pub errors : ℕ

abbrev pub initial_of : Option ChunkInfo → Option String
initial_of none = none
initial_of (some info) = some info.initial

abbrev pub number_of : Option ChunkInfo → ℕ
number_of none = 0
number_of (some info) = info.number

-- `TopicMessage._ofSingle`.
unfoldable pub of_single : Response → TopicMessage
of_single r = record {
  timestamp = r.timestamp;
  contents = r.message;
  running_hash = r.running_hash;
  sequence_number = r.sequence_number;
  initial = initial_of r.chunk_info;
  chunks = r ∷ [];
}

unfoldable pub insert : Response → List Response → List Response
insert r [] = r ∷ []
insert r (s ∷ ss) =
    if ltb (number_of r.chunk_info) (number_of s.chunk_info) then r ∷ s ∷ ss else s ∷ insert r ss

unfoldable pub sort_onto : List Response → List Response → List Response
unfolding insert
sort_onto sorted [] = sorted
sort_onto sorted (r ∷ rs) = sort_onto (insert r sorted) rs

abbrev pub joined : List Response → List ℕ
joined [] = []
joined (r ∷ rs) = r.message ++ joined rs

abbrev pub last_of : Response → List Response → Response
last_of r [] = r
last_of r (s ∷ ss) = last_of s ss

abbrev pub first_initial : List Response → Option String
first_initial [] = none
first_initial (r ∷ rs) = initial_of r.chunk_info

-- `TopicMessage._ofMany`, of one response or more. The times and hashes are those of the response that
-- came last.
unfoldable pub of_many : Response → List Response → TopicMessage
unfolding sort_onto
of_many r rs =
    let sorted = sort_onto [] (r ∷ rs) in
    record {
      timestamp = (last_of r rs).timestamp;
      contents = joined sorted;
      running_hash = (last_of r rs).running_hash;
      sequence_number = (last_of r rs).sequence_number;
      initial = first_initial sorted;
      chunks = sorted;
    }

unfoldable pub pending_get : String → List (String × List Response) → List Response
pending_get id [] = []
pending_get id ((j, rs) ∷ m) = if str_eq j id then rs else pending_get id m

unfoldable pub pending_set :
    String → List Response → List (String × List Response) → List (String × List Response)
pending_set id rs [] = (id, rs) ∷ []
pending_set id rs ((j, old) ∷ m) =
    if str_eq j id then (j, rs) ∷ m else (j, old) ∷ pending_set id rs m

unfoldable pub pending_delete :
    String → List (String × List Response) → List (String × List Response)
pending_delete id [] = []
pending_delete id ((j, old) ∷ m) = if str_eq j id then m else (j, old) ∷ pending_delete id m

-- `if (this._limit?.gt(0)) this._limit = this._limit.sub(1)`.
abbrev pub count_down : Option ℕ → Option ℕ
count_down none = none
count_down (some n) = some (n - 1)

unfoldable pub pass : TopicMessage → Query → Query
pass m q = record q { passed = q.passed ++ m ∷ [] }

-- The message of responses, the first of which is `r` if there are none.
abbrev pub message_of : List Response → Response → TopicMessage
message_of [] r = of_many r []
message_of (s ∷ ss) r = of_many s (ss ++ r ∷ [])

-- `_handleChunkedMessage`.
unfoldable pub handle_chunked : Response → ChunkInfo → Query → Query
unfolding pending_get pending_set pending_delete of_many pass
handle_chunked r info q =
    let earlier = pending_get info.initial q.pending in
    let responses = earlier ++ r ∷ [] in
    if length responses == info.total
    then pass (message_of earlier r) (record q {
      pending = pending_delete info.initial (pending_set info.initial responses q.pending);
    })
    else record q { pending = pending_set info.initial responses q.pending }

abbrev pub dispatch : Option ChunkInfo → Response → Query → Query
dispatch none r q = pass (of_single r) q
dispatch (some info) r q = if info.total == 1 then pass (of_single r) q else handle_chunked r info q

-- `_handleMessage`. The next subscription starts after the message.
unfoldable pub handle_message : Query → Response → Query
unfolding handle_chunked of_single pass
handle_message q r =
    dispatch r.chunk_info r
      (record q { limit = count_down q.limit; start_time = some (r.timestamp + 1) })

unfoldable pub handle_messages : Query → List Response → Query
unfolding handle_message
handle_messages q [] = q
handle_messages q (r ∷ rs) = handle_messages (handle_message q r) rs

-- `_retryHandler`: an error of a mirror node has a code, and whether its details speak of a reset
-- stream.
pub data StreamError : Type 0 where
  plain : StreamError
  mirror : ℕ → Bool → StreamError

unfoldable pub retry_handler : StreamError → Bool
retry_handler plain = true
retry_handler (mirror code rst) =
    if code == 13 then rst else code == 5 || code == 8 || code == 14 || code == 17

-- `_scheduleRetry`, and the new subscription after the wait, which starts with no chunks.
unfoldable pub schedule_retry : Query → Query
schedule_retry q = record q {
  attempt = q.attempt + 1;
  waits = q.waits ++ min (250 * 2 ^ q.attempt) q.max_backoff ∷ [];
  pending = [];
}

-- `_handleError`.
unfoldable pub handle_error : Query → StreamError → Query
unfolding schedule_retry retry_handler
handle_error q e =
    if q.unsubscribed
    then q
    else if ltb q.attempt q.max_attempts && retry_handler e
    then schedule_retry q
    else record q { errors = q.errors + 1 }
