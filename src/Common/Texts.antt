-- ===== src/Common/Texts.antt =====
-- Sets of texts, as lists in the order of insertion.
use mathlib.Core.Path.{◌≡◌, refl}
use mathlib.Core.Bool.{Bool, false, ◌||◌}
use mathlib.Core.List.{List, [], ◌∷◌, ◌++◌}
use native.Mathlib.Omega.{arith}
use Prim.Native.String.{String}
use text.Mathlib.Text.{◌==◌ as str_eq}
use text.Mathlib.TextPositions.{eq_refl}
use hedera_sdk_js.Common.Tests.{if◌then◌else◌}

abbrev pub contains : List String → String → Bool
contains [] s = false
contains (t ∷ ts) s = str_eq t s || contains ts s

-- `xs.filter((x) => x !== s)`.
abbrev pub without : String → List String → List String
without s [] = []
without s (t ∷ ts) = if str_eq t s then without s ts else t ∷ without s ts

pub without_id : (s : String) (ts : List String) → contains ts s ≡ false → without s ts ≡ ts
without_id s [] h = refl
without_id s (t ∷ ts) h = ground (arith, without_id s ts)

pub without-snoc :
    (s : String) (ts : List String) → contains ts s ≡ false → without s (ts ++ s ∷ []) ≡ ts
without-snoc s [] h = ground (arith, eq_refl s)
without-snoc s (t ∷ ts) h = ground (arith, without-snoc s ts)
