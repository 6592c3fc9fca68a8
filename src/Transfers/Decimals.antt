-- ===== src/Transfers/Decimals.antt =====
-- `addTokenTransferWithDecimals`, token/AbstractTokenTransferTransaction.js under src/.
use hedera_sdk_js.Common.{
  ℕ, ◌≡◌, refl, ◌∙◌, ap, Bool, true, false, not, ◌&&◌, ◌||◌, List, [], ◌∷◌, ◌++◌, Option, none,
  some, if◌then◌else◌, ◌==◌, arith,
}
use hedera_sdk_js.Common.Outcome.{Outcome, returns, throws, ◌>>=◌}
use hedera_sdk_js.EntityId.{Id3}
use hedera_sdk_js.Transfers.{
  Transfers, TransferError, decimals_mismatch, TokenTransfer, same_id, is_row, clashes,
  with_decimals, decimals_loop, or_push, prepend, new_row, add_token_transfer_with_decimals,
}

-- A row of the token says other decimals.
abbrev pub any_clash : Id3 → ℕ → List TokenTransfer → Bool
any_clash token decimals [] = false
any_clash token decimals (t ∷ ts) =
    (same_id t.token_id token && clashes t.expected_decimals decimals)
    || any_clash token decimals ts

abbrev pub any_row : Id3 → Id3 → List TokenTransfer → Bool
any_row token account [] = false
any_row token account (t ∷ ts) = is_row token account t || any_row token account ts

abbrev pub all_with : Id3 → Id3 → ℕ → ℕ → List TokenTransfer → List TokenTransfer
all_with token account amount decimals [] = []
all_with token account amount decimals (t ∷ ts) =
    with_decimals token account amount decimals t ∷ all_with token account amount decimals ts

decimals_round :
    (b c : Bool) (row : TokenTransfer) (found later : Bool) (rows : List TokenTransfer)
    (o : Outcome TransferError (List TokenTransfer × Bool))
    → o ≡ (if c then throws decimals_mismatch else returns (rows, later))
    → (if b then throws decimals_mismatch else prepend row found o)
      ≡ (if b || c then throws decimals_mismatch else returns (row ∷ rows, found || later))
decimals_round true c row found later rows o h = refl
decimals_round false true row found later rows o h = ap (prepend row found) h
decimals_round false false row found later rows o h = ap (prepend row found) h

decimals_loop_lem :
    (ts : List TokenTransfer) (token account : Id3) (amount decimals : ℕ)
    → decimals_loop ts token account amount decimals ≡ (
        if any_clash token decimals ts
        then throws decimals_mismatch
        else returns (all_with token account amount decimals ts, any_row token account ts))
unfolding decimals_loop
decimals_loop_lem [] token account amount decimals = refl
decimals_loop_lem (t ∷ ts) token account amount decimals =
    decimals_round (same_id t.token_id token && clashes t.expected_decimals decimals)
      (any_clash token decimals ts) (with_decimals token account amount decimals t)
      (is_row token account t) (any_row token account ts)
      (all_with token account amount decimals ts) (decimals_loop ts token account amount decimals)
      (decimals_loop_lem ts token account amount decimals)

abbrev pub differs : Option ℕ → ℕ → Bool
differs none decimals = true
differs (some d) decimals = not (d == decimals)

-- A row of the token that does not say these decimals.
abbrev pub any_differs : Id3 → ℕ → List TokenTransfer → Bool
any_differs token decimals [] = false
any_differs token decimals (t ∷ ts) =
    (same_id t.token_id token && differs t.expected_decimals decimals)
    || any_differs token decimals ts

any_differs-all_with :
    (ts : List TokenTransfer) (token account : Id3) (amount decimals : ℕ)
    → any_differs token decimals (all_with token account amount decimals ts) ≡ false
any_differs-all_with [] token account amount decimals = refl
any_differs-all_with (t ∷ ts) token account amount decimals =
    ground (arith, any_differs-all_with ts token account amount decimals)

any_differs-append :
    (xs ys : List TokenTransfer) (token : Id3) (decimals : ℕ)
    → any_differs token decimals (xs ++ ys)
      ≡ (any_differs token decimals xs || any_differs token decimals ys)
any_differs-append [] ys token decimals = refl
any_differs-append (x ∷ xs) ys token decimals =
    ground (arith, any_differs-append xs ys token decimals)

any_differs-or_push :
    (row : TokenTransfer) (rows : List TokenTransfer) (found : Bool) (token : Id3) (decimals : ℕ)
    → any_differs token decimals rows ≡ false
    → row.expected_decimals ≡ some decimals
    → any_differs token decimals (or_push row (rows, found)) ≡ false
any_differs-or_push row rows true token decimals h e = h
any_differs-or_push row rows false token decimals h e =
    any_differs-append rows (row ∷ []) token decimals ∙ rw (h, e) (ground arith)

if_not : {A : Type 0} (b : Bool) (x y : A) → b ≡ false → (if b then x else y) ≡ y
if_not true x y h = cc
if_not false x y h = refl

-- Where the transaction is not frozen and no row of the token says other decimals, a token transfer
-- with decimals succeeds, and afterwards every row of the token says these decimals.
pub add_token_transfer_with_decimals_lem :
    (t : Transfers) (token account : Id3) (amount decimals : ℕ)
    → t.frozen ≡ false
    → any_clash token decimals t.token_transfers ≡ false
    → (m : Transfers) × (add_token_transfer_with_decimals t token account amount decimals
        ≡ returns m)
      × (any_differs token decimals m.token_transfers ≡ false)
unfolding add_token_transfer_with_decimals
add_token_transfer_with_decimals_lem t token account amount decimals thawed clear =
    let rows = all_with token account amount decimals t.token_transfers in
    let found = any_row token account t.token_transfers in
    let row = new_row token account amount false (some decimals) in
    let finish : List TokenTransfer × Bool → Outcome TransferError Transfers =
      λ found. returns (record t { token_transfers = or_push row found }) in
    let loop : decimals_loop t.token_transfers token account amount decimals
        ≡ returns (rows, found) =
      decimals_loop_lem t.token_transfers token account amount decimals ∙ rw clear refl in
    (
      record t { token_transfers = or_push row (rows, found) },
      if_not t.frozen _ _ thawed ∙ ap (λ o. o >>= finish) loop,
      any_differs-or_push row rows found token decimals
          (any_differs-all_with t.token_transfers token account amount decimals) refl,
    )
