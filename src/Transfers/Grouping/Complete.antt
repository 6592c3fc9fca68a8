-- ===== src/Transfers/Grouping/Complete.antt =====
-- token/AbstractTokenTransferTransaction.js under src/: the groups have all the transfers of each token.
use hedera_sdk_js.Common.{
  ℕ, zero, suc, ◌+◌, ◌≡◌, ◌≤◌, refl, sym, ap, ◌∙◌, Bool, true, false, List, [], ◌∷◌, ◌++◌, length,
  select, if◌then◌else◌, append_assoc, append-nil, arith, Bool-cases, inl, inr,
}
use hedera_sdk_js.EntityId.{Id3, Sign, less, same, more, compare_ids}
use hedera_sdk_js.Transfers.{TokenTransfer, same_id}
use hedera_sdk_js.Transfers.Grouping.{
  NftTransfer, Group, Grouping, add_transfer, add_nft, last_is, has_group, group_of, nft_group,
  by_order, round, rounds, group_transfers,
}
use hedera_sdk_js.Transfers.Grouping.Collected.{
  collected, collected-on_last, collected-on_group, collected-append,
}

-- Those of a token, of the transfers that are left.
abbrev pub transfers_of : Id3 → List TokenTransfer → List TokenTransfer
transfers_of k ts = select (λ t. same_id t.token_id k) ts

abbrev pub nfts_of : Id3 → List NftTransfer → List NftTransfer
nfts_of k ns = select (λ n. same_id n.token_id k) ns

-- The transfers of a token, in the groups or left.
abbrev all_transfers : Id3 → Grouping → List TokenTransfer
all_transfers k s =
    collected (λ g. g.transfers) k s.token_transfer_list ++ transfers_of k s.transfers

abbrev all_nfts : Id3 → Grouping → List NftTransfer
all_nfts k s = collected (λ g. g.nfts) k s.token_transfer_list ++ nfts_of k s.nfts

-- What was taken from the front of the one list stands at the end of the other.
moved :
    {A : Type 0} (b : Bool) (x : A) (cs : List A) {ds : List A} (rest : List A)
    → ds ≡ cs ++ (if b then x ∷ [] else [])
    → ds ++ rest ≡ cs ++ (if b then x ∷ rest else rest)
moved true x cs rest h = ap (λ ys. ys ++ rest) h ∙ append_assoc cs (x ∷ []) rest
moved false x cs rest h = ap (λ ys. ys ++ rest) h ∙ append_assoc cs [] rest

unmoved : {A : Type 0} (b : Bool) {cs ds : List A} → ds ≡ cs ++ (if b then [] else []) → ds ≡ cs
unmoved true {cs} h = h ∙ append-nil cs
unmoved false {cs} h = h ∙ append-nil cs

collected-new :
    {A : Type 0} (items : Group → List A) (k : Id3) (gs : List Group) (g : Group)
    → collected items k (gs ++ g ∷ [])
      ≡ collected items k gs ++ (if same_id g.token k then items g else [])
collected-new items k gs g =
    collected-append items k gs (g ∷ [])
    ∙ ap (◌++◌ (collected items k gs)) (single (same_id g.token k) (items g))
  where
    single :
        {A : Type 0} (b : Bool) (xs : List A)
        → (if b then xs ++ [] else []) ≡ (if b then xs else [])
    single true xs = append-nil xs
    single false xs = refl

same_id-same : (a b : Id3) → compare_ids a b ≡ same → a ≡ b
unfolding compare_ids
same_id-same a b h = ground arith

module _ (k : Id3) where
  by_order-transfers :
      (o : Sign) (t : TokenTransfer) (ts : List TokenTransfer) (n : NftTransfer)
      (ns : List NftTransfer) (gs : List Group)
      → all_transfers k (by_order o t ts n ns gs)
        ≡ all_transfers k (record { transfers = t ∷ ts; nfts = n ∷ ns; token_transfer_list = gs })
  by_order-transfers same t ts n ns gs =
      moved (same_id t.token_id k) t _ (transfers_of k ts)
        (collected-new (λ g. g.transfers) k gs (group_of t (n ∷ [])))
  by_order-transfers less t ts n ns gs =
      moved (same_id t.token_id k) t _ (transfers_of k ts)
        (collected-new (λ g. g.transfers) k gs (group_of t []))
  by_order-transfers more t ts n ns gs =
      ap (λ cs. cs ++ transfers_of k (t ∷ ts))
        (unmoved (same_id n.token_id k) (collected-new (λ g. g.transfers) k gs (nft_group n)))

  -- A round keeps the transfers of each token and their order.
  round-transfers :
      (ts : List TokenTransfer) (ns : List NftTransfer) (gs : List Group)
      → all_transfers k (round ts ns gs)
        ≡ all_transfers k (record { transfers = ts; nfts = ns; token_transfer_list = gs })
  unfolding round
  round-transfers [] [] gs = refl
  round-transfers (t ∷ ts) [] gs = elim (Bool-cases (has_group t.token_id gs)) [
    | inl old ↦ rw old (
        moved (same_id t.token_id k) t _ (transfers_of k ts) (
          collected-on_group (λ g. g.transfers) k t.token_id (add_transfer t) (t ∷ []) (λ g. refl)
            (λ g. refl) gs old))
    | inr new ↦ rw new (
        moved (same_id t.token_id k) t _ (transfers_of k ts)
          (collected-new (λ g. g.transfers) k gs (group_of t [])))
  ]
  round-transfers [] (n ∷ ns) gs = elim (Bool-cases (has_group n.token_id gs)) [
    | inl old ↦ rw old (
        ap (λ cs. cs ++ [])
          (unmoved (same_id n.token_id k) (
            collected-on_group (λ g. g.transfers) k n.token_id (add_nft n) [] (λ g. refl)
              (λ g. sym (append-nil g.transfers)) gs old)))
    | inr new ↦ rw new (
        ap (λ cs. cs ++ [])
          (unmoved (same_id n.token_id k) (collected-new (λ g. g.transfers) k gs (nft_group n))))
  ]
  round-transfers (t ∷ ts) (n ∷ ns) gs = elim (Bool-cases (last_is t.token_id gs)) [
    | inl mine ↦ rw mine (
        moved (same_id t.token_id k) t _ (transfers_of k ts) (
          collected-on_last (λ g. g.transfers) k t.token_id (add_transfer t) (t ∷ []) (λ g. refl)
            (λ g. refl) gs mine))
    | inr other ↦ elim (Bool-cases (last_is n.token_id gs)) [
      | inl its ↦
          rw (other, its)
            (ap (λ cs. cs ++ transfers_of k (t ∷ ts))
              (unmoved (same_id n.token_id k) (
                collected-on_last (λ g. g.transfers) k n.token_id (add_nft n) [] (λ g. refl)
                  (λ g. sym (append-nil g.transfers)) gs its)))
      | inr neither ↦
          rw (other, neither) (by_order-transfers (compare_ids t.token_id n.token_id) t ts n ns gs)
    ]
  ]

  by_order-nfts :
      (o : Sign) (t : TokenTransfer) (ts : List TokenTransfer) (n : NftTransfer)
      (ns : List NftTransfer) (gs : List Group)
      → compare_ids t.token_id n.token_id ≡ o
      → all_nfts k (by_order o t ts n ns gs)
        ≡ all_nfts k (record { transfers = t ∷ ts; nfts = n ∷ ns; token_transfer_list = gs })
  by_order-nfts same t ts n ns gs e = moved (same_id n.token_id k) n _ (nfts_of k ns) (
      collected-new (λ g. g.nfts) k gs (group_of t (n ∷ []))
      ∙ ap (λ i. collected (λ g. g.nfts) k gs ++ (if same_id i k then n ∷ [] else []))
          (same_id-same t.token_id n.token_id e))
  by_order-nfts less t ts n ns gs e =
      ap (λ cs. cs ++ nfts_of k (n ∷ ns))
        (unmoved (same_id t.token_id k) (collected-new (λ g. g.nfts) k gs (group_of t [])))
  by_order-nfts more t ts n ns gs e =
      moved (same_id n.token_id k) n _ (nfts_of k ns)
        (collected-new (λ g. g.nfts) k gs (nft_group n))

  -- And the transfers of tokens that are not fungible.
  round-nfts :
      (ts : List TokenTransfer) (ns : List NftTransfer) (gs : List Group)
      → all_nfts k (round ts ns gs)
        ≡ all_nfts k (record { transfers = ts; nfts = ns; token_transfer_list = gs })
  unfolding round
  round-nfts [] [] gs = refl
  round-nfts (t ∷ ts) [] gs = elim (Bool-cases (has_group t.token_id gs)) [
    | inl old ↦ rw old (
        ap (λ cs. cs ++ [])
          (unmoved (same_id t.token_id k) (
            collected-on_group (λ g. g.nfts) k t.token_id (add_transfer t) [] (λ g. refl)
              (λ g. sym (append-nil g.nfts)) gs old)))
    | inr new ↦ rw new (
        ap (λ cs. cs ++ [])
          (unmoved (same_id t.token_id k) (collected-new (λ g. g.nfts) k gs (group_of t []))))
  ]
  round-nfts [] (n ∷ ns) gs = elim (Bool-cases (has_group n.token_id gs)) [
    | inl old ↦ rw old (
        moved (same_id n.token_id k) n _ (nfts_of k ns) (
          collected-on_group (λ g. g.nfts) k n.token_id (add_nft n) (n ∷ []) (λ g. refl) (λ g. refl)
            gs old))
    | inr new ↦ rw new (
        moved (same_id n.token_id k) n _ (nfts_of k ns)
          (collected-new (λ g. g.nfts) k gs (nft_group n)))
  ]
  round-nfts (t ∷ ts) (n ∷ ns) gs = elim (Bool-cases (last_is t.token_id gs)) [
    | inl mine ↦ rw mine (
        ap (λ cs. cs ++ nfts_of k (n ∷ ns))
          (unmoved (same_id t.token_id k) (
            collected-on_last (λ g. g.nfts) k t.token_id (add_transfer t) [] (λ g. refl)
              (λ g. sym (append-nil g.nfts)) gs mine)))
    | inr other ↦ elim (Bool-cases (last_is n.token_id gs)) [
      | inl its ↦
          rw (other, its)
            (moved (same_id n.token_id k) n _ (nfts_of k ns) (
              collected-on_last (λ g. g.nfts) k n.token_id (add_nft n) (n ∷ []) (λ g. refl)
                (λ g. refl) gs its))
      | inr neither ↦
          rw (other, neither) (by_order-nfts (compare_ids t.token_id n.token_id) t ts n ns gs refl)
    ]
  ]

  rounds-all :
      (left : ℕ) (s : Grouping)
      → (all_transfers k (rounds left s) ≡ all_transfers k s)
        × (all_nfts k (rounds left s) ≡ all_nfts k s)
  unfolding rounds
  rounds-all zero s = (refl, refl)
  rounds-all (suc left) s =
      let (transfers, nfts) = rounds-all left (round s.transfers s.nfts s.token_transfer_list) in
      (
        transfers ∙ round-transfers s.transfers s.nfts s.token_transfer_list,
        nfts ∙ round-nfts s.transfers s.nfts s.token_transfer_list,
      )

-- The rounds that a state still needs, at most.
abbrev left_of : Grouping → ℕ
left_of s = length s.transfers + length s.nfts

by_order-left :
    (o : Sign) (t : TokenTransfer) (ts : List TokenTransfer) (n : NftTransfer)
    (ns : List NftTransfer) (gs : List Group)
    → left_of (by_order o t ts n ns gs) ≤ length ts + length ns + 1
by_order-left same t ts n ns gs = omega arith
by_order-left less t ts n ns gs = omega arith
by_order-left more t ts n ns gs = omega arith

round-left :
    (ts : List TokenTransfer) (ns : List NftTransfer) (gs : List Group) (left : ℕ)
    → length ts + length ns ≤ suc left
    → left_of (round ts ns gs) ≤ left
unfolding round
round-left [] [] gs left h = omega arith
round-left (t ∷ ts) [] gs left h = omega arith
round-left [] (n ∷ ns) gs left h = omega arith
round-left (t ∷ ts) (n ∷ ns) gs left h = elim (Bool-cases (last_is t.token_id gs)) [
  | inl mine ↦ rw mine (omega arith)
  | inr other ↦ elim (Bool-cases (last_is n.token_id gs)) [
    | inl its ↦ rw (other, its) (omega arith)
    | inr neither ↦
        rw (other, neither)
          (omega (arith, by_order-left (compare_ids t.token_id n.token_id) t ts n ns gs))
  ]
]

rounds-left : (left : ℕ) (s : Grouping) → left_of s ≤ left → left_of (rounds left s) ≡ 0
unfolding rounds
rounds-left zero s h = omega arith
rounds-left (suc left) s h =
    rounds-left left (round s.transfers s.nfts s.token_transfer_list)
      (round-left s.transfers s.nfts s.token_transfer_list left h)

none_left : {A : Type 0} (xs : List A) → length xs ≡ 0 → xs ≡ []
none_left [] h = refl
none_left (x ∷ xs) h = absurd (omega arith)

-- Every transfer ends up in a group of its own token, exactly once: the groups of a token together have
-- the transfers of this token, in their order, and none are left over. The same holds for the tokens
-- that are not fungible.
pub group_transfers_lem :
    (k : Id3) (ts : List TokenTransfer) (ns : List NftTransfer)
    → (collected (λ g. g.transfers) k (group_transfers ts ns).token_transfer_list
        ≡ transfers_of k ts)
      × (collected (λ g. g.nfts) k (group_transfers ts ns).token_transfer_list ≡ nfts_of k ns)
      × ((group_transfers ts ns).transfers ≡ [])
      × ((group_transfers ts ns).nfts ≡ [])
unfolding group_transfers
group_transfers_lem k ts ns =
    let start : Grouping = record { transfers = ts; nfts = ns; token_transfer_list = [] } in
    let left = length ts + length ns in
    let done = rounds-left left start (omega arith) in
    let (transfers, nfts) = rounds-all k left start in
    let no_transfers = none_left (rounds left start).transfers (omega arith) in
    let no_nfts = none_left (rounds left start).nfts (omega arith) in
    (
      sym (append-nil (collected (λ g. g.transfers) k (rounds left start).token_transfer_list))
          ∙ ap
              (λ rest.
                collected (λ g. g.transfers) k (rounds left start).token_transfer_list
                ++ transfers_of k rest)
              (sym no_transfers)
          ∙ transfers,
      sym (append-nil (collected (λ g. g.nfts) k (rounds left start).token_transfer_list))
          ∙ ap
              (λ rest.
                collected (λ g. g.nfts) k (rounds left start).token_transfer_list ++ nfts_of k rest)
              (sym no_nfts)
          ∙ nfts,
      no_transfers,
      no_nfts,
    )
