-- ===== src/Mnemonic/WordList.antt =====
-- packages/cryptography/src/words/bip39.js under src/: the words are in alphabetical order, so each is found at
-- its index.
use Prim.Native.Char.{code}
use Prim.Native.String as Text
use hedera_sdk_js.Common.{
  ℕ, zero, suc, ◌+◌, ◌-◌, ◌*◌, ◌^◌, ◌≡◌, ◌<◌, refl, ap, Bool, true, ◌&&◌, String, List, [], ◌∷◌,
  some, length, ltb, str_eq, eq_iff, eq_refl, arith, Bool-cases, inl, inr,
}
use hedera_sdk_js.Mnemonic.{word_at}
use hedera_sdk_js.Mnemonic.Words.{bip39_words}
use hedera_sdk_js.Mnemonic.Entropy.{index_of}
use hedera_sdk_js.Mnemonic.Generated.{IsWordList}

-- The place of a text of small letters in alphabetical order, by its first `n` letters.
key : ℕ → String → ℕ
key zero s = 0
key (suc n) Text.[] = 0
key (suc n) (Text.◌∷◌ c s) = (code c - 96) * 32 ^ n + key n s

ascending_from : ℕ → List String → Bool
unfolding key
ascending_from k [] = true
ascending_from k (w ∷ ws) = ltb k (key 8 w) && ascending_from (key 8 w) ws

ascending-key :
    (k : ℕ) (ws : List String) (i : ℕ)
    → ascending_from k ws ≡ true
    → i < length ws
    → k < key 8 (word_at ws i)
unfolding ascending_from
ascending-key k [] i a h = absurd (omega arith)
ascending-key k (w ∷ ws) zero a h = ground arith
ascending-key k (w ∷ ws) (suc i) a h = ground (arith, ascending-key (key 8 w) ws i)

ascending-index :
    (k : ℕ) (ws : List String) (i : ℕ)
    → ascending_from k ws ≡ true
    → i < length ws
    → index_of ws (word_at ws i) ≡ some i
unfolding ascending_from index_of
ascending-index k [] i a h = absurd (omega arith)
ascending-index k (w ∷ ws) zero a h = rw (eq_refl w) refl
ascending-index k (w ∷ ws) (suc i) a h =
    let rest : ascending_from (key 8 w) ws ≡ true = ground arith in
    let above = ascending-key (key 8 w) ws i rest (omega arith) in
    let e : i + 1 ≡ suc i = omega arith in
    elim (Bool-cases (str_eq w (word_at ws i))) [
      | inl same ↦
          let equal : w ≡ word_at ws i = (eq_iff w (word_at ws i)).0 same in
          absurd (omega (arith, above, ap (key 8) equal))
      | inr other ↦ rw (other, ascending-index (key 8 w) ws i rest (omega arith), e) refl
    ]

bip39_words-ascending : ascending_from 0 bip39_words ≡ true
unfolding ascending_from bip39_words
bip39_words-ascending = refl

length-bip39_words : length bip39_words ≡ 2048
unfolding bip39_words
length-bip39_words = refl

pub bip39_words-IsWordList : IsWordList bip39_words
bip39_words-IsWordList = record {
  size = length-bip39_words;
  indexed = λ i h.
      ascending-index 0 bip39_words i bip39_words-ascending (omega (arith, length-bip39_words));
}
