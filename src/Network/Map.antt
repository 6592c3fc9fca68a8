-- ===== src/Network/Map.antt =====
-- JavaScript's Map from account ids to lists of nodes: insertion keeps the place of a key.
use hedera_sdk_js.Common.{
  ℕ, ◌≡◌, refl, String, List, [], ◌∷◌, Option, none, some, if◌then◌else◌, str_eq, eq_iff, arith,
}

abbrev pub RefMap : Type 0
RefMap = List (String × List ℕ)

unfoldable pub map_get : String → RefMap → Option (List ℕ)
map_get k [] = none
map_get k ((j, refs) ∷ m) = if str_eq j k then some refs else map_get k m

unfoldable pub map_set : String → List ℕ → RefMap → RefMap
map_set k refs [] = (k, refs) ∷ []
map_set k refs ((j, old) ∷ m) = if str_eq j k then (j, refs) ∷ m else (j, old) ∷ map_set k refs m

unfoldable pub map_delete : String → RefMap → RefMap
map_delete k [] = []
map_delete k ((j, refs) ∷ m) = if str_eq j k then m else (j, refs) ∷ map_delete k m

pub map_get-map_set :
    (k j : String) (refs : List ℕ) (m : RefMap)
    → map_get j (map_set k refs m) ≡ (if str_eq k j then some refs else map_get j m)
unfolding map_get map_set
map_get-map_set k j refs [] = refl
map_get-map_set k j refs ((i, old) ∷ m) =
    ground (arith, eq_iff k j, eq_iff i k, eq_iff i j, map_get-map_set k j refs m)
