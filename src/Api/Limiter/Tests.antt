-- ===== src/Api/Limiter/Tests.antt =====
-- The limiter of internal/api/router.go, at concrete times.
use mathlib.Core.Bool.{false≢true}
use text.Mathlib.TextEquality.{eq_iff}
use kilasos.Common.{◌+◌, ◌≢◌, All, ◌≡◌, refl, String, List, [], ◌∷◌, arith, leb, lookup}
use kilasos.Api.Limiter.{allow, window}
use kilasos.Api.Limiter.Allowance.{
  Event, attempt, success, tick, after_events, attempts_of, WithoutSuccess, allow_ten,
}

abbrev peer : String
peer = "10.0.0.7"

abbrev other_peer : String
other_peer = "10.0.0.8"

-- Nine attempts, between them one from elsewhere and the ticker.
abbrev early : List Event
early =
    attempt 2 peer
    ∷ attempt 3 peer
    ∷ attempt 4 other_peer
    ∷ attempt 5 peer
    ∷ attempt 6 peer
    ∷ success other_peer
    ∷ attempt 7 peer
    ∷ tick 8
    ∷ attempt 8 peer
    ∷ attempt 9 peer
    ∷ attempt 10 peer
    ∷ attempt 11 peer
    ∷ []

elsewhere : other_peer ≢ peer
elsewhere p = false≢true ((eq_iff other_peer peer).1 p)

early-WithoutSuccess : All (WithoutSuccess peer (1 + window)) early
early-WithoutSuccess = (
  omega arith,
  (
    omega arith,
    (
      omega arith,
      (
        omega arith,
        (
          omega arith,
          (
            elsewhere,
            (
              omega arith,
              (omega arith, (omega arith, (omega arith, (omega arith, (omega arith, tt))))),
            ),
          ),
        ),
      ),
    ),
  ),
)

-- The eleventh attempt is refused.
allow_ten_example :
    (allow 12 peer (after_events (attempt 1 peer ∷ early) [])).1
    ≡ leb (2 + attempts_of peer early) 10
unfolding lookup
allow_ten_example = allow_ten peer 1 12 early [] refl early-WithoutSuccess (omega arith)
