-- ===== src/Subscription/Delivery.antt =====
-- topic/TopicMessageQuery.js and topic/TopicMessage.js under src/: a message in chunks is put together.
use hedera_sdk_js.Common.{
  ℕ, ◌+◌, ◌≡◌, refl, ap, ◌∙◌, true, String, List, [], ◌∷◌, ◌++◌, some, length, select, ◌==◌, arith,
  length-append,
}
use hedera_sdk_js.Subscription.{
  Response, Query, pending_get, count_down, message_of, handle_message, handle_messages,
}
use hedera_sdk_js.Subscription.Interleaving.{
  chunk_of, total_of, Totals, dispatch-last, handle_messages-pending,
}

handle_messages-append :
    (q : Query) (rs ss : List Response)
    → handle_messages q (rs ++ ss) ≡ handle_messages (handle_messages q rs) ss
unfolding handle_messages
handle_messages-append q [] ss = refl
handle_messages-append q (r ∷ rs) ss = handle_messages-append (handle_message q r) rs ss

-- Whatever other messages come in between: if nothing of a message in chunks was pending, the chunk that
-- completes it makes the subscription pass on the message of its chunks, in the order in which they
-- came, and nothing else.
pub handle_messages-passed :
    (id : String) (n : ℕ) (rs : List Response) (r : Response) (q : Query)
    → pending_get id q.pending ≡ []
    → Totals n (select (chunk_of id) rs)
    → chunk_of id r ≡ true
    → total_of r.chunk_info ≡ n
    → length (select (chunk_of id) rs) + 1 ≡ n
    → (handle_messages q (rs ++ r ∷ [])).passed
      ≡ (handle_messages q rs).passed ++ message_of (select (chunk_of id) rs) r ∷ []
unfolding handle_messages handle_message
handle_messages-passed id n rs r q empty a mine total full =
    let earlier = select (chunk_of id) rs in
    let pending : pending_get id (handle_messages q rs).pending ≡ earlier =
      handle_messages-pending id n rs q a (rw empty (omega arith)) ∙ ap (λ p. p ++ earlier) empty in
    let k = handle_messages q rs in
    let noted = record k { limit = count_down k.limit; start_time = some (r.timestamp + 1) } in
    let last : (length (pending_get id k.pending ++ r ∷ []) == total_of r.chunk_info) ≡ true =
      rw (pending, total, length-append earlier (r ∷ [])) (ground arith) in
    ap (λ q. q.passed) (handle_messages-append q rs (r ∷ []))
    ∙ dispatch-last id r.chunk_info r noted mine last
    ∙ ap (λ p. k.passed ++ message_of p r ∷ []) pending
