-- ===== src/Auth/BruteForce/Tests.antt =====
-- Runs of the tracker of internal/auth/bruteforce.go, and its theorems at concrete inputs.
use mathlib.Core.Bool.{false≢true}
use text.Mathlib.TextEquality.{eq_iff}
use kilasos.Common.{◌≡◌, ◌≢◌, refl, String, true, [], ◌∷◌, lookup, insert}
use kilasos.Common.Time.{sub, add}
use kilasos.Auth.BruteForce.{BruteForceTracker, new_tracker, record_failure}
use kilasos.Auth.BruteForce.Lockout.{record_failures, record_failure_counts}

abbrev peer : String
peer = "10.0.0.7"

peer-ne-empty : peer ≢ ""
peer-ne-empty p = false≢true ((eq_iff peer "").1 p)

-- The fifth failure inside ten minutes bans.
record_failure_counts_example :
    let answer = record_failure 5 peer (record_failures peer (1 ∷ 2 ∷ 3 ∷ 4 ∷ []) new_tracker) in
    (answer.1 ≡ true) × (answer.2 ≡ 0)
unfolding sub lookup
record_failure_counts_example =
    record_failure_counts peer 1 (2 ∷ 3 ∷ 4 ∷ []) 5 new_tracker peer-ne-empty refl
      (refl, (refl, (refl, tt))) refl

abbrev four_failures : BruteForceTracker
unfolding record_failures
four_failures = record_failures peer (1 ∷ 2 ∷ 3 ∷ 4 ∷ []) new_tracker

fifth_bans : (record_failure 5 peer four_failures).1 ≡ true
unfolding record_failures record_failure lookup insert sub add
fifth_bans = refl
