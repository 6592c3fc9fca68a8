-- ===== src/Examples/Nodes.antt =====
-- ManagedNode.js under src/ at concrete inputs.
use hedera_sdk_js.Common.{◌≡◌, ◌*◌, ◌+◌, [], ◌∷◌, arith}
use hedera_sdk_js.Node.{ms, new_node}
use hedera_sdk_js.Node.Backoff.{
  IsBounded, failure, success, reports, failures, reports-IsBounded, failures_lem,
}
use hedera_sdk_js.Examples.{spare}

spare-IsBounded : IsBounded spare
unfolding new_node
spare-IsBounded = record { low = omega arith; high = omega arith }

reports-IsBounded_example :
    IsBounded (reports spare (failure 5 ∷ failure 6 ∷ success ∷ []))
    × ((reports spare (failure 5 ∷ failure 6 ∷ success ∷ [])).min_backoff ≡ 8000 * ms)
    × ((reports spare (failure 5 ∷ failure 6 ∷ success ∷ [])).max_backoff ≡ 1000 * 60 * 60 * ms)
unfolding new_node
reports-IsBounded_example =
    reports-IsBounded spare (failure 5 ∷ failure 6 ∷ success ∷ []) spare-IsBounded

failures_lem_example :
    ((failures (1 ∷ 5 ∷ 5 ∷ 9 ∷ 20 ∷ 21 ∷ 22 ∷ 30 ∷ 47 ∷ []) spare).current_backoff
      ≡ 1000 * 60 * 60 * ms)
    × ((failures (1 ∷ 5 ∷ 5 ∷ 9 ∷ 20 ∷ 21 ∷ 22 ∷ 30 ∷ 47 ∷ []) spare).readmit_time
        ≡ 47 + 1000 * 60 * 60 * ms)
unfolding new_node
failures_lem_example = failures_lem (1 ∷ 5 ∷ 5 ∷ 9 ∷ 20 ∷ 21 ∷ 22 ∷ 30 ∷ []) 47 spare (omega arith)
