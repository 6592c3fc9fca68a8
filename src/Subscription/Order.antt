-- ===== src/Subscription/Order.antt =====
-- topic/TopicMessage.js under src/: in whatever order the chunks of a message come, they are put together by
-- their numbers.
use hedera_sdk_js.Common.{
  ℕ, suc, ◌+◌, ◌≡◌, ◌≢◌, ◌<◌, refl, sym, ap, ◌∙◌, true, String, List, [], ◌∷◌, ◌++◌, length, select,
  arith, append_assoc, append-nil, All,
}
use hedera_sdk_js.Subscription.{
  Response, TopicMessage, Query, of_many, pending_get, message_of, handle_messages, joined,
  sort_onto, insert, number_of,
}
use hedera_sdk_js.Subscription.Interleaving.{chunk_of, total_of, Totals}
use hedera_sdk_js.Subscription.Delivery.{handle_messages-passed}

abbrev pub number : Response → ℕ
number r = number_of r.chunk_info

-- One list is the other in another order.
pub data Rearranged : List Response → List Response → Type 0 where
  same : (xs : List Response) → Rearranged xs xs
  skip : (x : Response) {xs ys : List Response} → Rearranged xs ys → Rearranged (x ∷ xs) (x ∷ ys)
  exchange : (x y : Response) (xs : List Response) → Rearranged (x ∷ y ∷ xs) (y ∷ x ∷ xs)
  after : {xs ys zs : List Response} → Rearranged xs ys → Rearranged ys zs → Rearranged xs zs

-- The number of each is below those of the later ones.
abbrev pub Ascending : List Response → Type 0
Ascending [] = Unit
Ascending (x ∷ xs) = All (λ y. number x < number y) xs × Ascending xs

abbrev Apart : List Response → Type 0
Apart [] = Unit
Apart (x ∷ xs) = All (λ y. number x ≢ number y) xs × Apart xs

Ascending-Apart : (xs : List Response) → Ascending xs → Apart xs
Ascending-Apart [] h = tt
Ascending-Apart (x ∷ xs) h = (All-apart x xs h.0, Ascending-Apart xs h.1)
  where
    All-apart :
        (x : Response) (ys : List Response)
        → All (λ y. number x < number y) ys
        → All (λ y. number x ≢ number y) ys
    All-apart x [] h = tt
    All-apart x (y ∷ ys) h = ((λ e. omega arith), All-apart x ys h.1)

pub All-Rearranged :
    (P : Response → Type 0) {xs ys : List Response} → Rearranged xs ys → All P xs → All P ys
All-Rearranged P (same xs) a = a
All-Rearranged P (skip x p) a = (a.0, All-Rearranged P p a.1)
All-Rearranged P (exchange x y xs) a = (a.1.0, (a.0, a.1.1))
All-Rearranged P (after p q) a = All-Rearranged P q (All-Rearranged P p a)

Apart-Rearranged : {xs ys : List Response} → Rearranged xs ys → Apart xs → Apart ys
Apart-Rearranged (same xs) a = a
Apart-Rearranged (skip x p) a =
    (All-Rearranged (λ y. number x ≢ number y) p a.0, Apart-Rearranged p a.1)
Apart-Rearranged (exchange x y xs) a = (((λ e. a.0.0 (sym e)), a.1.0), (a.0.1, a.1.1))
Apart-Rearranged (after p q) a = Apart-Rearranged q (Apart-Rearranged p a)

insert_comm :
    (a b : Response) (l : List Response)
    → number a ≢ number b
    → insert a (insert b l) ≡ insert b (insert a l)
unfolding insert
insert_comm a b [] h = ground arith
insert_comm a b (x ∷ xs) h = ground (arith, insert_comm a b xs h)

-- The order in which chunks of different numbers come makes no difference.
sort_onto-Rearranged :
    {xs ys : List Response}
    → Rearranged xs ys
    → Apart xs
    → (l : List Response) → sort_onto l xs ≡ sort_onto l ys
unfolding sort_onto
sort_onto-Rearranged (same xs) a l = refl
sort_onto-Rearranged (skip x p) a l = sort_onto-Rearranged p a.1 (insert x l)
sort_onto-Rearranged (exchange x y xs) a l =
    ap (λ k. sort_onto k xs) (insert_comm y x l (λ e. a.0.0 (sym e)))
sort_onto-Rearranged (after p q) a l =
    sort_onto-Rearranged p a l ∙ sort_onto-Rearranged q (Apart-Rearranged p a) l

abbrev Below : List Response → Response → Type 0
Below l r = All (λ s. number s < number r) l

insert_last : (r : Response) (l : List Response) → Below l r → insert r l ≡ l ++ r ∷ []
unfolding insert
insert_last r [] h = refl
insert_last r (s ∷ ss) h = ground (arith, insert_last r ss h.1)

Below-append :
    (x r : Response) (l : List Response) → Below l r → number x < number r → Below (l ++ x ∷ []) r
Below-append x r [] h lt = (lt, tt)
Below-append x r (s ∷ ss) h lt = (h.0, Below-append x r ss h.1 lt)

All-Below :
    (x : Response) (l xs : List Response)
    → All (Below l) xs
    → All (λ y. number x < number y) xs
    → All (Below (l ++ x ∷ [])) xs
All-Below x l [] b h = tt
All-Below x l (y ∷ ys) b h = (Below-append x y l b.0 h.0, All-Below x l ys b.1 h.1)

pub length-Rearranged : {xs ys : List Response} → Rearranged xs ys → length xs ≡ length ys
length-Rearranged (same xs) = refl
length-Rearranged (skip x p) = ap suc (length-Rearranged p)
length-Rearranged (exchange x y xs) = refl
length-Rearranged (after p q) = length-Rearranged p ∙ length-Rearranged q

-- Sorting leaves ascending chunks as they are.
sort_onto-Ascending :
    (l xs : List Response) → All (Below l) xs → Ascending xs → sort_onto l xs ≡ l ++ xs
unfolding sort_onto
sort_onto-Ascending l [] b h = sym (append-nil l)
sort_onto-Ascending l (x ∷ xs) b h =
    ap (λ k. sort_onto k xs) (insert_last x l b.0)
    ∙ sort_onto-Ascending (l ++ x ∷ []) xs (All-Below x l xs b.1 h.0) h.1
    ∙ append_assoc l (x ∷ []) xs

Below-nil : (xs : List Response) → All (Below []) xs
Below-nil [] = tt
Below-nil (x ∷ xs) = (tt, Below-nil xs)

sort-Rearranged : {ss rs : List Response} → Ascending ss → Rearranged ss rs → sort_onto [] rs ≡ ss
sort-Rearranged {ss} h p =
    sym (sort_onto-Rearranged p (Ascending-Apart ss h) [])
    ∙ sort_onto-Ascending [] ss (Below-nil ss) h

message_of-chunks :
    (earlier : List Response) (r : Response)
    → (message_of earlier r).chunks ≡ sort_onto [] (earlier ++ r ∷ [])
unfolding of_many
message_of-chunks [] r = refl
message_of-chunks (s ∷ ss) r = refl

message_of-contents :
    (earlier : List Response) (r : Response)
    → (message_of earlier r).contents ≡ joined (message_of earlier r).chunks
unfolding of_many
message_of-contents [] r = refl
message_of-contents (s ∷ ss) r = refl

-- Let the chunks of a message, in the order of their numbers, be `ss`, of which nothing was pending. In
-- whatever order they come, and whatever other messages come in between: the last of them makes the
-- subscription pass on one message, whose chunks are `ss` and whose contents are theirs in this order.
pub handle_messages-contents :
    (id : String) (n : ℕ) (rs : List Response) (r : Response) (q : Query) (ss : List Response)
    → pending_get id q.pending ≡ []
    → Totals n (select (chunk_of id) rs)
    → chunk_of id r ≡ true
    → total_of r.chunk_info ≡ n
    → length (select (chunk_of id) rs) + 1 ≡ n
    → Ascending ss
    → Rearranged ss (select (chunk_of id) rs ++ r ∷ [])
    → (m : TopicMessage) × ((handle_messages q (rs ++ r ∷ [])).passed
        ≡ (handle_messages q rs).passed ++ m ∷ [])
      × (m.chunks ≡ ss)
      × (m.contents ≡ joined ss)
handle_messages-contents id n rs r q ss empty a mine total full up p =
    let earlier = select (chunk_of id) rs in
    let sorted : (message_of earlier r).chunks ≡ ss =
      message_of-chunks earlier r ∙ sort-Rearranged up p in
    (
      message_of earlier r,
      handle_messages-passed id n rs r q empty a mine total full,
      sorted,
      message_of-contents earlier r ∙ ap joined sorted,
    )
