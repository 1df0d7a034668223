-- ===== src/Api/Limiter.antt =====
-- The limit on login attempts of internal/api/router.go (loginRateLimiter).
pub mod Allowance
mod Tests
use kilasos.Common.{
  ℕ, ◌+◌, ◌*◌, String, Bool, true, not, Option, none, some, Dict, lookup, insert, delete, keep, leb,
  string_eq, if◌then◌else◌,
}
use kilasos.Common.Time.{minute, after}

pub record RateBucket : Type 0 where
  pub count : ℕ
  pub reset_at : ℕ

abbrev pub LoginRateLimiter : Type 0
LoginRateLimiter = Dict String RateBucket

abbrev pub window : ℕ
window = 15 * minute

-- `!ok || time.Now().After(b.resetAt)`
abbrev pub is_over : ℕ → Option RateBucket → Bool
is_over now none = true
is_over now (some b) = after now b.reset_at

abbrev more : Option RateBucket → RateBucket
more none = record { count = 1; reset_at = 0 }
more (some b) = record b { count = b.count + 1 }

unfoldable pub allow : ℕ → String → LoginRateLimiter → LoginRateLimiter × Bool
allow now addr rl =
    if is_over now (lookup addr rl)
    then (insert addr (record { count = 1; reset_at = now + window }) rl, true)
    else (insert addr (more (lookup addr rl)) rl, leb (more (lookup addr rl)).count 10)

unfoldable pub record_success : String → LoginRateLimiter → LoginRateLimiter
record_success addr rl = delete addr rl

-- What the ticker of `newLoginRateLimiter` does every five minutes.
unfoldable pub sweep : ℕ → LoginRateLimiter → LoginRateLimiter
sweep now rl = keep (λ x. not (after now x.1.reset_at)) rl
