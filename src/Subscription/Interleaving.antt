-- ===== src/Subscription/Interleaving.antt =====
-- topic/TopicMessageQuery.js under src/: messages of other transactions do not disturb one in chunks.
use hedera_sdk_js.Common.{
  ℕ, suc, ◌+◌, ◌≡◌, refl, sym, ap, ◌∙◌, Bool, true, false, not, ◌&&◌, String, List, [], ◌∷◌, ◌++◌,
  Option, none, some, length, select, if◌then◌else◌, ◌==◌, str_eq, eq_iff, eq_refl, arith,
  Bool-cases, inl, inr, append_assoc, append-nil, All, ◌<◌, length-append,
}
use hedera_sdk_js.Subscription.{
  ChunkInfo, Response, Query, pending_get, pending_set, pending_delete, count_down, pass,
  message_of, handle_chunked, dispatch, handle_message, handle_messages,
}

-- A message is in chunks, more than one, and the first of them is of this transaction.
abbrev pub is_chunk : String → Option ChunkInfo → Bool
is_chunk id none = false
is_chunk id (some info) = str_eq info.initial id && not (info.total == 1)

abbrev pub chunk_of : String → Response → Bool
chunk_of id r = is_chunk id r.chunk_info

pending_get-set :
    (k j : String) (rs : List Response) (m : List (String × List Response))
    → pending_get j (pending_set k rs m) ≡ (if str_eq k j then rs else pending_get j m)
unfolding pending_get pending_set
pending_get-set k j rs [] = refl
pending_get-set k j rs ((i, old) ∷ m) =
    ground (arith, eq_iff k j, eq_iff i k, eq_iff i j, pending_get-set k j rs m)

pending_get-delete :
    (k j : String) (m : List (String × List Response))
    → str_eq k j ≡ false
    → pending_get j (pending_delete k m) ≡ pending_get j m
unfolding pending_get pending_delete
pending_get-delete k j [] h = refl
pending_get-delete k j ((i, old) ∷ m) h =
    ground (arith, eq_iff k j, eq_iff i k, eq_iff i j, pending_get-delete k j m h)

abbrev pub total_of : Option ChunkInfo → ℕ
total_of none = 1
total_of (some info) = info.total

handle_chunked-other :
    (id : String) (r : Response) (info : ChunkInfo) (q : Query)
    → str_eq info.initial id ≡ false
    → pending_get id (handle_chunked r info q).pending ≡ pending_get id q.pending
unfolding handle_chunked pass
handle_chunked-other id r info q h =
    let responses = pending_get info.initial q.pending ++ r ∷ [] in
    let set_other : pending_get id (pending_set info.initial responses q.pending)
        ≡ pending_get id q.pending =
      pending_get-set info.initial id responses q.pending ∙ rw h refl in
    elim (Bool-cases (length responses == info.total)) [
      | inl full ↦ rw full (
          pending_get-delete info.initial id (pending_set info.initial responses q.pending) h
          ∙ set_other)
      | inr more ↦ rw more set_other
    ]

dispatch-other :
    (id : String) (o : Option ChunkInfo) (r : Response) (q : Query)
    → is_chunk id o ≡ false
    → pending_get id (dispatch o r q).pending ≡ pending_get id q.pending
unfolding pass
dispatch-other id none r q h = refl
dispatch-other id (some info) r q h = elim (Bool-cases (info.total == 1)) [
  | inl single ↦ rw single refl
  | inr many ↦ rw many (handle_chunked-other id r info q (ground arith))
]

-- What a chunk does that is not the last one.
dispatch-chunk :
    (id : String) (o : Option ChunkInfo) (r : Response) (q : Query)
    → is_chunk id o ≡ true
    → (length (pending_get id q.pending ++ r ∷ []) == total_of o) ≡ false
    → pending_get id (dispatch o r q).pending ≡ pending_get id q.pending ++ r ∷ []
unfolding handle_chunked
dispatch-chunk id none r q h more = cc
dispatch-chunk id (some info) r q h more =
    let many : (info.total == 1) ≡ false = ground arith in
    let same : info.initial ≡ id = (eq_iff info.initial id).0 (ground arith) in
    rw (many, same, more)
      (pending_get-set id id (pending_get id q.pending ++ r ∷ []) q.pending ∙ rw (eq_refl id) refl)

-- And the last one: the message is passed on.
pub dispatch-last :
    (id : String) (o : Option ChunkInfo) (r : Response) (q : Query)
    → is_chunk id o ≡ true
    → (length (pending_get id q.pending ++ r ∷ []) == total_of o) ≡ true
    → (dispatch o r q).passed ≡ q.passed ++ message_of (pending_get id q.pending) r ∷ []
unfolding handle_chunked pass
dispatch-last id none r q h full = cc
dispatch-last id (some info) r q h full =
    let many : (info.total == 1) ≡ false = ground arith in
    let same : info.initial ≡ id = (eq_iff info.initial id).0 (ground arith) in
    rw (many, same, full) refl

-- All these chunks say the same total.
abbrev pub Totals : ℕ → List Response → Type 0
Totals n rs = All (λ r. total_of r.chunk_info ≡ n) rs

pub handle_messages-pending :
    (id : String) (n : ℕ) (rs : List Response) (q : Query)
    → Totals n (select (chunk_of id) rs)
    → length (pending_get id q.pending) + length (select (chunk_of id) rs) < n
    → pending_get id (handle_messages q rs).pending
      ≡ pending_get id q.pending ++ select (chunk_of id) rs
unfolding handle_messages handle_message
handle_messages-pending id n [] q a h = sym (append-nil (pending_get id q.pending))
handle_messages-pending id n (r ∷ rs) q a h = elim (Bool-cases (chunk_of id r)) [
  | inl mine ↦
      let a' : Totals n (r ∷ select (chunk_of id) rs) = rw mine at a in
      let h' : length (pending_get id q.pending) + suc (length (select (chunk_of id) rs)) < n =
        rw mine at h in
      let len = length-append (pending_get id q.pending) (r ∷ []) in
      let more : (length (pending_get id q.pending ++ r ∷ []) == total_of r.chunk_info) ≡ false =
        rw (len, a'.0) (ground arith) in
      let grown = dispatch-chunk id r.chunk_info r (noted q r) mine more in
      let rest =
        handle_messages-pending id n rs (handle_message q r) a'.1 (rw (grown, len) (omega arith)) in
      rest
      ∙ ap (λ p. p ++ select (chunk_of id) rs) grown
      ∙ append_assoc (pending_get id q.pending) (r ∷ []) (select (chunk_of id) rs)
      ∙ rw mine refl
  | inr other ↦
      let a' : Totals n (select (chunk_of id) rs) = rw other at a in
      let h' : length (pending_get id q.pending) + length (select (chunk_of id) rs) < n =
        rw other at h in
      let kept = dispatch-other id r.chunk_info r (noted q r) other in
      let rest = handle_messages-pending id n rs (handle_message q r) a' (rw kept h') in
      rest ∙ ap (λ p. p ++ select (chunk_of id) rs) kept ∙ rw other refl
]
  where
    noted : Query → Response → Query
    noted q r = record q { limit = count_down q.limit; start_time = some (r.timestamp + 1) }
