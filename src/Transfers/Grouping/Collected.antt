-- ===== src/Transfers/Grouping/Collected.antt =====
-- token/AbstractTokenTransferTransaction.js under src/: what the groups of a token have.
use hedera_sdk_js.Common.{
  ◌≡◌, refl, sym, ap, ◌∙◌, true, false, List, [], ◌∷◌, ◌++◌, if◌then◌else◌, append_assoc,
  append-nil, arith, Bool-cases, inl, inr,
}
use hedera_sdk_js.EntityId.{Id3, compare_ids}
use hedera_sdk_js.Transfers.{same_id}
use hedera_sdk_js.Transfers.Grouping.{Group, last_is, on_last, has_group, on_group}

pub same_id-eq : (a b : Id3) → same_id a b ≡ true → a ≡ b
unfolding same_id compare_ids
same_id-eq a b h = ground arith

module _ {A : Type 0} (items : Group → List A) (k : Id3) where
  -- What the groups of a token have.
  abbrev pub collected : List Group → List A
  collected [] = []
  collected (g ∷ gs) = if same_id g.token k then items g ++ collected gs else collected gs

  pub collected-append : (gs hs : List Group) → collected (gs ++ hs) ≡ collected gs ++ collected hs
  collected-append [] hs = refl
  collected-append (g ∷ gs) hs =
      ground (arith, collected-append gs hs, append_assoc (items g) (collected gs) (collected hs))

  pub collected-none :
      (id : Id3) (gs : List Group)
      → has_group id gs ≡ false
      → same_id id k ≡ true
      → collected gs ≡ []
  unfolding has_group
  collected-none id [] h e = refl
  collected-none id (g ∷ gs) h e =
      ground (arith, collected-none id gs, ap (same_id g.token) (same_id-eq id k e))

  module _ (id : Id3) (f : Group → Group) (xs : List A)
      (keeps : (g : Group) → (f g).token ≡ g.token)
      (adds : (g : Group) → items (f g) ≡ items g ++ xs) where
    abbrev pub extra : List A
    extra = if same_id id k then xs else []

    one_more :
        (g : Group) (gs : List Group)
        → same_id g.token id ≡ true
        → (same_id id k ≡ true → collected gs ≡ [])
        → collected (f g ∷ gs) ≡ collected (g ∷ gs) ++ extra
    one_more g gs h none_after =
        let at : same_id g.token k ≡ same_id id k =
          ap (λ i. same_id i k) (same_id-eq g.token id h) in
        let at' : same_id (f g).token k ≡ same_id id k = ap (λ i. same_id i k) (keeps g) ∙ at in
        elim (Bool-cases (same_id id k)) [
          | inl mine ↦
              rw (at', at, mine, adds g, none_after mine)
                (append_assoc (items g) xs []
                  ∙ ap (◌++◌ (items g)) (append-nil xs)
                  ∙ ap (λ ys. ys ++ xs) (sym (append-nil (items g))))
          | inr other ↦ rw (at', at, other) (sym (append-nil (collected gs)))
        ]

    further :
        (g : Group) (gs hs : List Group)
        → collected hs ≡ collected gs ++ extra
        → collected (g ∷ hs) ≡ collected (g ∷ gs) ++ extra
    further g gs hs h = elim (Bool-cases (same_id g.token k)) [
      | inl here ↦
          rw here (ap (◌++◌ (items g)) h ∙ sym (append_assoc (items g) (collected gs) extra))
      | inr other ↦ rw other h
    ]

    pub collected-on_last :
        (gs : List Group) → last_is id gs ≡ true → collected (on_last f gs) ≡ collected gs ++ extra
    unfolding last_is on_last
    collected-on_last [] h = cc
    collected-on_last (g ∷ []) h = one_more g [] h (λ e. refl)
    collected-on_last (g ∷ g' ∷ gs) h =
        further g (g' ∷ gs) (on_last f (g' ∷ gs)) (collected-on_last (g' ∷ gs) h)

    pub collected-on_group :
        (gs : List Group)
        → has_group id gs ≡ true
        → collected (on_group id f gs) ≡ collected gs ++ extra
    unfolding on_group has_group
    collected-on_group [] h = cc
    collected-on_group (g ∷ gs) h = elim (Bool-cases (has_group id gs)) [
      | inl later ↦ rw later (further g gs (on_group id f gs) (collected-on_group gs later))
      | inr last ↦
          let here : same_id g.token id ≡ true = ground arith in
          rw (last, here) (one_more g gs here (collected-none id gs last))
    ]
