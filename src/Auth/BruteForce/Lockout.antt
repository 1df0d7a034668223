-- ===== src/Auth/BruteForce/Lockout.antt =====
-- How failures are counted up to a ban.
use kilasos.Common.{
  ℕ, ◌+◌, ◌-◌, ◌≡◌, ◌≢◌, refl, String, false, some, none, List, [], ◌∷◌, arith, length, All, lookup,
  lookup-insert, subst, ap, ◌∙◌, leb, ==_iff, ◌==◌, if◌then◌else◌, string_eq,
}
use kilasos.Common.Int.{ℤ, ltb_ℤ}
use kilasos.Common.Time.{sub}
use kilasos.Auth.BruteForce.{Attempts, BruteForceTracker, count_failure, record_failure}

-- `t` lies in the window that began at `first`.
abbrev pub InWindow : ℤ → ℕ → ℕ → Type 0
InWindow window first t = ltb_ℤ window (sub t first) ≡ false

-- One failed login after the other, at the given times.
unfoldable pub record_failures : String → List ℕ → BruteForceTracker → BruteForceTracker
record_failures addr [] b = b
record_failures addr (t ∷ ts) b = record_failures addr ts (record_failure t addr b).0

-- The entry of `addr` has counted `n` failures since `first`.
Counted : String → ℕ → ℕ → BruteForceTracker → Type 0
Counted addr first n b =
    (a : Attempts) × (lookup addr b.attempts ≡ some a) × (a.count ≡ n) × (a.first_failed ≡ first)

-- The entry that a failure leaves, and the answer that it gives.
module _ (t : ℕ) (addr : String) (b : BruteForceTracker) where
  keeps_limits :
      ((record_failure t addr b).0.max_attempts ≡ b.max_attempts)
      × ((record_failure t addr b).0.window_duration ≡ b.window_duration)
  unfolding record_failure
  keeps_limits = ground arith

  lookup-record_failure :
      (j : String)
      → addr ≢ ""
      → lookup j (record_failure t addr b).0.attempts ≡ (
          if addr == j
          then some (count_failure b t (lookup addr b.attempts))
          else lookup j b.attempts)
  unfolding record_failure
  lookup-record_failure j named = ground (
    arith,
    ==_iff addr "",
    lookup-insert addr j (count_failure b t (lookup addr b.attempts)) b.attempts,
  )

  answer-record_failure :
      (n : ℕ)
      → addr ≢ ""
      → (count_failure b t (lookup addr b.attempts)).count ≡ n
      → ((record_failure t addr b).1 ≡ leb b.max_attempts n)
        × ((record_failure t addr b).2 ≡ b.max_attempts - n)
  unfolding record_failure
  answer-record_failure n named e = ground (arith, ==_iff addr "")

  Counted-first :
      addr ≢ "" → lookup addr b.attempts ≡ none → Counted addr t 1 (record_failure t addr b).0
  unfolding Counted count_failure
  Counted-first named fresh = (
    count_failure b t none,
    rw (lookup-record_failure addr named, (==_iff addr addr).1 refl, fresh),
    omega arith,
    refl,
  )

  count-count_failure :
      (first n : ℕ)
      → Counted addr first n b
      → InWindow b.window_duration first t
      → ((count_failure b t (lookup addr b.attempts)).count ≡ n + 1)
        × ((count_failure b t (lookup addr b.attempts)).first_failed ≡ first)
  unfolding Counted count_failure
  count-count_failure first n (a, found, c, f) inside = ground arith

  Counted-next :
      (first n : ℕ)
      → addr ≢ ""
      → Counted addr first n b
      → InWindow b.window_duration first t
      → Counted addr first (n + 1) (record_failure t addr b).0
  unfolding Counted
  Counted-next first n named c inside =
      let (one_more, same) = count-count_failure first n c inside in
      (
        count_failure b t (lookup addr b.attempts),
        rw (lookup-record_failure addr named, (==_iff addr addr).1 refl),
        one_more,
        same,
      )

Counted-All :
    (addr : String) (first n : ℕ) (window : ℤ) (ts : List ℕ) (b : BruteForceTracker)
    → addr ≢ ""
    → b.window_duration ≡ window
    → Counted addr first n b
    → All (InWindow window first) ts
    → Counted addr first (n + length ts) (record_failures addr ts b)
      × ((record_failures addr ts b).max_attempts ≡ b.max_attempts)
      × ((record_failures addr ts b).window_duration ≡ window)
unfolding record_failures
Counted-All addr first n window [] b named w c inside =
    (subst (λ k. Counted addr first k b) (omega arith) c, refl, w)
Counted-All addr first n window (t ∷ ts) b named w c inside =
    let (same_max, same_window) = keeps_limits t addr b in
    let step = Counted-next t addr b first n named c (rw w inside.0) in
    let (counted, limit, still) =
      Counted-All addr first (n + 1) window ts (record_failure t addr b).0 named (same_window ∙ w)
        step inside.1 in
    (
      subst (λ k. Counted addr first k (record_failures addr (t ∷ ts) b)) (omega arith) counted,
      limit ∙ same_max,
      still,
    )

-- After a first failed login of an address that has no entry, and any number of further ones
-- inside the window of the first, the next one inside it answers "banned" exactly when the number
-- of failures, itself included, has reached the limit, and the attempts that it says are left are
-- the limit less that number.
pub record_failure_counts :
    (addr : String) (first : ℕ) (ts : List ℕ) (t : ℕ) (b : BruteForceTracker)
    → addr ≢ ""
    → lookup addr b.attempts ≡ none
    → All (InWindow b.window_duration first) ts
    → InWindow b.window_duration first t
    → let answer = record_failure t addr (record_failures addr (first ∷ ts) b) in
      (answer.1 ≡ leb b.max_attempts (length ts + 2))
      × (answer.2 ≡ b.max_attempts - (length ts + 2))
unfolding record_failures
record_failure_counts addr first ts t b named fresh inside now =
    let (same_max, same_window) = keeps_limits first addr b in
    let (counted, limit, window) =
      Counted-All addr first 1 b.window_duration ts (record_failure first addr b).0 named
        same_window (Counted-first first addr b named fresh) inside in
    let before = record_failures addr ts (record_failure first addr b).0 in
    let n = count-count_failure t addr before first (1 + length ts) counted (rw window now) in
    let (banned, left) =
      answer-record_failure t addr before (length ts + 2) named (n.0 ∙ omega arith) in
    (
      banned ∙ ap (λ m. leb m (length ts + 2)) (limit ∙ same_max),
      left ∙ ap (λ m. m - (length ts + 2)) (limit ∙ same_max),
    )
