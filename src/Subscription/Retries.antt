-- ===== src/Subscription/Retries.antt =====
-- topic/TopicMessageQuery.js under src/: how often, and after which waits, a subscription is made again.
use hedera_sdk_js.Common.{
  ℕ, zero, suc, ◌+◌, ◌*◌, ◌^◌, min, ◌≡◌, ◌≤◌, refl, sym, subst, ap, ◌∙◌, Bool, true, false, ◌&&◌,
  List, [], ◌∷◌, ◌++◌, Option, none, some, ltb, arith, Bool-cases, inl, inr,
}
use hedera_sdk_js.Subscription.{
  ChunkInfo, Response, Query, StreamError, dispatch, handle_chunked, handle_message, handle_error,
  retry_handler, schedule_retry, pass,
}

-- What a mirror node calls back with.
pub data Event : Type 0 where
  message : Response → Event
  error : StreamError → Event

abbrev pub react : Query → Event → Query
react q (message r) = handle_message q r
react q (error e) = handle_error q e

unfoldable pub react_all : Query → List Event → Query
react_all q [] = q
react_all q (e ∷ es) = react_all (react q e) es

-- The waits before the first `n` new subscriptions.
abbrev pub delays : ℕ → ℕ → List ℕ
delays backoff zero = []
delays backoff (suc n) = delays backoff n ++ min (250 * 2 ^ n) backoff ∷ []

abbrev pub errors_in : List Event → ℕ
errors_in [] = 0
errors_in (message r ∷ es) = errors_in es
errors_in (error e ∷ es) = suc (errors_in es)

-- The state of the retries.
record Tries : Type 0 where
  attempt : ℕ
  max_attempts : ℕ
  max_backoff : ℕ
  unsubscribed : Bool
  waits : List ℕ
  errors : ℕ

abbrev tries : Query → Tries
tries q = record {
  attempt = q.attempt;
  max_attempts = q.max_attempts;
  max_backoff = q.max_backoff;
  unsubscribed = q.unsubscribed;
  waits = q.waits;
  errors = q.errors;
}

handle_chunked-tries :
    (r : Response) (info : ChunkInfo) (q : Query) → tries (handle_chunked r info q) ≡ tries q
unfolding handle_chunked pass
handle_chunked-tries r info q = ground arith

-- A message changes nothing of the retries.
dispatch-tries :
    (o : Option ChunkInfo) (r : Response) (q : Query) → tries (dispatch o r q) ≡ tries q
unfolding pass
dispatch-tries none r q = refl
dispatch-tries (some info) r q = ground (arith, handle_chunked-tries r info q)

handle_message-tries : (r : Response) (q : Query) → tries (handle_message q r) ≡ tries q
unfolding handle_message
handle_message-tries r q = dispatch-tries r.chunk_info r _

-- Once unsubscribed, an error changes nothing.
pub handle_error-unsubscribed :
    (q : Query) (e : StreamError) → q.unsubscribed ≡ true → handle_error q e ≡ q
unfolding handle_error
handle_error-unsubscribed q e h = rw h refl

handle_error-bounds :
    (q : Query) (e : StreamError)
    → q.attempt ≤ q.max_attempts
    → q.unsubscribed ≡ false
    → ((handle_error q e).attempt ≤ q.max_attempts)
      × ((handle_error q e).max_attempts ≡ q.max_attempts)
      × ((handle_error q e).max_backoff ≡ q.max_backoff)
      × ((handle_error q e).unsubscribed ≡ false)
      × ((handle_error q e).attempt + (handle_error q e).errors ≡ q.attempt + q.errors + 1)
unfolding handle_error schedule_retry
handle_error-bounds q e h on =
    (ground arith, ground arith, ground arith, ground arith, ground arith)

handle_error-waits :
    (q : Query) (e : StreamError)
    → q.waits ≡ delays q.max_backoff q.attempt
    → (handle_error q e).waits ≡ delays q.max_backoff (handle_error q e).attempt
unfolding handle_error schedule_retry
handle_error-waits q e h = elim (Bool-cases q.unsubscribed) [
  | inl off ↦ rw off h
  | inr on ↦
      let t = q.attempt in
      elim (Bool-cases (ltb q.attempt q.max_attempts && retry_handler e)) [
        | inl again ↦
            rw (on, again)
              (ap (λ ws. ws ++ min (250 * 2 ^ q.attempt) q.max_backoff ∷ []) h
                ∙ ap (delays q.max_backoff) (add_one q.attempt))
        | inr over ↦ rw (on, over) h
      ]
]
  where
    add_one : (n : ℕ) → suc n ≡ n + 1
    add_one n = omega arith

-- The retries as they are when a subscription is made and later.
pub record IsRetrying (q : Query) : Type 0 where
  pub subscribed : q.unsubscribed ≡ false
  pub bounded : q.attempt ≤ q.max_attempts
  pub waited : q.waits ≡ delays q.max_backoff q.attempt

-- `s` is what `q` is after `n` errors.
record IsAfter (q s : Query) (n : ℕ) : Type 0 where
  retrying : IsRetrying s
  max_attempts : s.max_attempts ≡ q.max_attempts
  max_backoff : s.max_backoff ≡ q.max_backoff
  counted : s.attempt + s.errors ≡ q.attempt + q.errors + n

react-message : (q : Query) (r : Response) → IsRetrying q → IsAfter q (handle_message q r) 0
react-message q r v =
    let e = handle_message-tries r q in
    let waits : (handle_message q r).waits ≡ q.waits = ap (λ t. t.waits) e in
    let attempt : (handle_message q r).attempt ≡ q.attempt = ap (λ t. t.attempt) e in
    let errors : (handle_message q r).errors ≡ q.errors = ap (λ t. t.errors) e in
    let most : (handle_message q r).max_attempts ≡ q.max_attempts = ap (λ t. t.max_attempts) e in
    let backoff : (handle_message q r).max_backoff ≡ q.max_backoff = ap (λ t. t.max_backoff) e in
    let on : (handle_message q r).unsubscribed ≡ q.unsubscribed = ap (λ t. t.unsubscribed) e in
    record {
      retrying = record {
        subscribed = on ∙ v.subscribed;
        bounded = omega (arith, v.bounded);
        waited = waits ∙ v.waited ∙ λ i. delays (sym backoff i) (sym attempt i);
      };
      max_attempts = most;
      max_backoff = backoff;
      counted = omega arith;
    }

react-error : (q : Query) (e : StreamError) → IsRetrying q → IsAfter q (handle_error q e) 1
react-error q e v =
    let (bound, most, backoff, on, count) = handle_error-bounds q e v.bounded v.subscribed in
    record {
      retrying = record {
        subscribed = on;
        bounded = omega arith;
        waited =
            handle_error-waits q e v.waited
            ∙ ap (λ (b : ℕ). delays b (handle_error q e).attempt) (sym backoff);
      };
      max_attempts = most;
      max_backoff = backoff;
      counted = count;
    }

IsAfter-trans : {q s t : Query} {m n : ℕ} → IsAfter q s m → IsAfter s t n → IsAfter q t (m + n)
IsAfter-trans a b = record {
  retrying = b.retrying;
  max_attempts = b.max_attempts ∙ a.max_attempts;
  max_backoff = b.max_backoff ∙ a.max_backoff;
  counted = omega (arith, a.counted, b.counted);
}

react_all-IsAfter :
    (q : Query) (es : List Event) → IsRetrying q → IsAfter q (react_all q es) (errors_in es)
unfolding react_all
react_all-IsAfter q [] v = record {
  retrying = v;
  max_attempts = refl;
  max_backoff = refl;
  counted = omega arith;
}
react_all-IsAfter q (message r ∷ es) v =
    let one = react-message q r v in
    let more = react_all-IsAfter (handle_message q r) es one.retrying in
    subst (λ (n : ℕ). IsAfter q (react_all (handle_message q r) es) n) (omega arith)
      (IsAfter-trans one more)
react_all-IsAfter q (error e ∷ es) v =
    let one = react-error q e v in
    let more = react_all-IsAfter (handle_error q e) es one.retrying in
    subst (λ (n : ℕ). IsAfter q (react_all (handle_error q e) es) n) (omega arith)
      (IsAfter-trans one more)

-- Whatever messages and errors the mirror nodes call back with: as long as nobody unsubscribes, a
-- subscription that was never retried is made anew at most `maxAttempts` times, the waits before that
-- are 250, 500, 1000 … milliseconds up to `maxBackoff`, and every other error reaches the error handler.
pub react_all-bounds :
    (q : Query) (es : List Event)
    → q.unsubscribed ≡ false
    → q.attempt ≡ 0
    → q.waits ≡ []
    → ((react_all q es).attempt ≤ q.max_attempts)
      × ((react_all q es).waits ≡ delays q.max_backoff (react_all q es).attempt)
      × ((react_all q es).attempt + (react_all q es).errors ≡ q.errors + errors_in es)
react_all-bounds q es on fresh none_yet =
    let v : IsRetrying q = record {
      subscribed = on;
      bounded = omega arith;
      waited = none_yet ∙ ap (delays q.max_backoff) (sym fresh);
    } in
    let a = react_all-IsAfter q es v in
    (
      omega (arith, a.retrying.bounded, a.max_attempts),
      a.retrying.waited ∙ ap (λ (b : ℕ). delays b (react_all q es).attempt) a.max_backoff,
      omega (arith, a.counted),
    )
