-- ===== src/Node/Backoff.antt =====
-- ManagedNode.js under src/: the bounds of the backoff, and its growth over failures.
use native.Mathlib.Nat.{pow-succ', one-le-pow}
use native.Mathlib.Decide.{dec_le}
use hedera_sdk_js.Common.{
  ℕ, zero, suc, ◌+◌, ◌*◌, ◌^◌, ◌≤◌, min, ◌≡◌, refl, arith, List, [], ◌∷◌, ◌++◌, length, ap, ◌∙◌,
}
use hedera_sdk_js.Node.{Node, increase_backoff, decrease_backoff}

-- The current backoff lies between the bounds.
pub record IsBounded (n : Node) : Type 0 where
  pub low : n.min_backoff ≤ n.current_backoff
  pub high : n.current_backoff ≤ n.max_backoff

pub data Report : Type 0 where
  failure : ℕ → Report
  success : Report

-- What a sequence of failures (each at its time) and successes does to a node.
pub report : Node → Report → Node
report n (failure now) = increase_backoff n now
report n success = decrease_backoff n

pub reports : Node → List Report → Node
reports n [] = n
reports n (r ∷ rs) = reports (report n r) rs

pub report-IsBounded : (n : Node) (r : Report) → IsBounded n → IsBounded (report n r)
unfolding report increase_backoff decrease_backoff
report-IsBounded n (failure now) b = ground arith
report-IsBounded n success b = ground arith

report-min_backoff : (n : Node) (r : Report) → (report n r).min_backoff ≡ n.min_backoff
unfolding report increase_backoff decrease_backoff
report-min_backoff n (failure now) = refl
report-min_backoff n success = refl

report-max_backoff : (n : Node) (r : Report) → (report n r).max_backoff ≡ n.max_backoff
unfolding report increase_backoff decrease_backoff
report-max_backoff n (failure now) = refl
report-max_backoff n success = refl

-- If the backoff of a node is within its bounds, no history of failures and successes takes it out of
-- them, or changes the bounds.
pub reports-IsBounded :
    (n : Node) (rs : List Report)
    → IsBounded n
    → IsBounded (reports n rs)
      × ((reports n rs).min_backoff ≡ n.min_backoff)
      × ((reports n rs).max_backoff ≡ n.max_backoff)
unfolding reports
reports-IsBounded n [] b = (b, refl, refl)
reports-IsBounded n (r ∷ rs) b =
    let (kept, low, high) = reports-IsBounded (report n r) rs (report-IsBounded n r b) in
    (kept, low ∙ report-min_backoff n r, high ∙ report-max_backoff n r)

-- Failures in a row, each at its own time.
pub failures : List ℕ → Node → Node
failures [] n = n
failures (now ∷ later) n = failures later (increase_backoff n now)

-- Doubling below the cut, and cutting off again.
min_again : (c m p : ℕ) → 1 ≤ p → min (min (c * 2) m * p) m ≡ min (c * (2 * p)) m
min_again c m zero h = absurd (omega arith)
min_again c m (suc p) h = elim (dec_le (c * 2) m) [
  | yes below ↦ let same : min (c * 2) m ≡ c * 2 = omega arith in rw same (omega arith)
  | no above ↦ let cut : min (c * 2) m ≡ m = omega arith in rw cut (omega arith)
]

-- From a backoff up to the maximum, failures in a row at any times, the last of them at the time `now`,
-- lead to the backoff doubled once for each of them, cut off at the maximum, and to a readmission that
-- long after the last of them.
pub failures_lem :
    (earlier : List ℕ) (now : ℕ) (n : Node)
    → n.current_backoff ≤ n.max_backoff
    → ((failures (earlier ++ now ∷ []) n).current_backoff
        ≡ min (n.current_backoff * 2 ^ suc (length earlier)) n.max_backoff)
      × ((failures (earlier ++ now ∷ []) n).readmit_time
          ≡ now + min (n.current_backoff * 2 ^ suc (length earlier)) n.max_backoff)
unfolding failures increase_backoff
failures_lem [] now n h = (ground arith, ground arith)
failures_lem (t ∷ ts) now n h =
    let (current, readmit) = failures_lem ts now (increase_backoff n t) (omega arith) in
    let k = length ts in
    let same =
      min_again n.current_backoff n.max_backoff (2 ^ suc k) (one-le-pow (suc k) 2 (omega arith)) in
    let power = pow-succ' 2 (suc k) in
    (current ∙ rw power same, readmit ∙ ap (λ (x : ℕ). now + x) (rw power same))

-- A success after a failure brings the backoff back, if it was within its bounds and its double does
-- not exceed the maximum.
pub decrease_backoff-increase_backoff :
    (n : Node) (now : ℕ)
    → IsBounded n
    → n.current_backoff * 2 ≤ n.max_backoff
    → (decrease_backoff (increase_backoff n now)).current_backoff ≡ n.current_backoff
unfolding increase_backoff decrease_backoff
decrease_backoff-increase_backoff n now b h = ground arith
