-- ===== src/Examples/Lists.antt =====
-- The list of transaction/List.js under src/ at concrete inputs.
use hedera_sdk_js.Common.{ℕ, ◌≡◌, refl, [], ◌∷◌, none, some, false, arith}
use hedera_sdk_js.LockableList.{LockableList}
use hedera_sdk_js.LockableList.Laws.{advance_times, advance_times-index}

abbrev three : LockableList ℕ
three = record { list = some 10 ∷ none ∷ some 12 ∷ []; locked = false; index = some 2 }

advance_times-index_example :
    ((advance_times 5 three).index ≡ some 1)
    × ((advance_times 5 three).list ≡ three.list)
    × ((advance_times 5 three).locked ≡ false)
advance_times-index_example = advance_times-index 5 2 three refl (omega arith)
