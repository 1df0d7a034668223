-- ===== src/Api/Limiter/Allowance.antt =====
-- How many attempts the limiter of internal/api/router.go lets through.
use kilasos.Common.{
  ℕ, ◌+◌, ◌≤◌, ◌≡◌, ◌∙◌, ap, String, true, some, List, [], ◌∷◌, arith, All, lookup, if_case, subst,
  sym, false, lookup-insert_self, lookup-insert_ne, lookup-delete_ne, Bool, delete, keep, ◌≢◌, ◌==◌,
  ==_iff, Bool-cases, inl, inr, if◌then◌else◌, leb, string_eq,
}
use mathlib.Core.Option.{some-injective}
use kilasos.Api.Limiter.{
  RateBucket, LoginRateLimiter, window, is_over, allow, record_success, sweep,
}

-- What happens to the limiter: an attempt, a login that succeeds, and the ticker.
pub data Event : Type 0 where
  attempt : ℕ → String → Event
  success : String → Event
  tick : ℕ → Event

abbrev happens : Event → LoginRateLimiter → LoginRateLimiter
happens (attempt t addr) rl = (allow t addr rl).0
happens (success addr) rl = record_success addr rl
happens (tick t) rl = sweep t rl

unfoldable pub after_events : List Event → LoginRateLimiter → LoginRateLimiter
after_events [] rl = rl
after_events (ev ∷ evs) rl = after_events evs (happens ev rl)

-- How many of the events are attempts from the address.
pub attempts_of : String → List Event → ℕ
attempts_of addr [] = 0
attempts_of addr (attempt t other ∷ evs) = (if other == addr then 1 else 0) + attempts_of addr evs
attempts_of addr (success other ∷ evs) = attempts_of addr evs
attempts_of addr (tick t ∷ evs) = attempts_of addr evs

-- Nothing is later than `last`, and no login from the address succeeds.
abbrev pub WithoutSuccess : String → ℕ → Event → Type 0
WithoutSuccess addr last (attempt t other) = t ≤ last
WithoutSuccess addr last (success other) = other ≢ addr
WithoutSuccess addr last (tick t) = t ≤ last

opened :
    (t : ℕ) (addr : String) (rl : LoginRateLimiter)
    → is_over t (lookup addr rl) ≡ true
    → lookup addr (allow t addr rl).0 ≡ some (record { count = 1; reset_at = t + window })
unfolding allow
opened t addr rl over =
    ground (arith, over, lookup-insert_self addr (record { count = 1; reset_at = t + window }) rl)

counted :
    (t : ℕ) (addr : String) (b : RateBucket) (rl : LoginRateLimiter)
    → lookup addr rl ≡ some b
    → t ≤ b.reset_at
    → (lookup addr (allow t addr rl).0 ≡ some (record b { count = b.count + 1 }))
      × ((allow t addr rl).1 ≡ leb (b.count + 1) 10)
unfolding allow
counted t addr b rl found soon =
    ground (arith, found, lookup-insert_self addr (record b { count = b.count + 1 }) rl)

lookup-keep :
    (p : String × RateBucket → Bool) (addr : String) (b : RateBucket) (rl : LoginRateLimiter)
    → lookup addr rl ≡ some b
    → ((a : String) → (a == addr) ≡ true → p (a, b) ≡ true)
    → lookup addr (keep p rl) ≡ some b
unfolding lookup keep
lookup-keep p addr b [] found holds = found
lookup-keep p addr b ((a, c) ∷ rl) found holds = elim (Bool-cases (a == addr)) [
  | inl e ↦
      let same : some c ≡ some b = rw e at found in
      let stays : p (a, c) ≡ true =
        subst (λ d. p (a, d) ≡ true) (sym (some-injective c b same)) (holds a e) in
      rw (stays, e) same
  | inr e ↦
      let rest = lookup-keep p addr b rl (rw e at found) holds in
      if_case (λ more. lookup addr more ≡ some b) (p (a, c)) ((a, c) ∷ keep p rl) (keep p rl)
        (λ _. rw e rest) (λ _. rest)
]

allow_other :
    (t : ℕ) (other addr : String) (rl : LoginRateLimiter)
    → other ≢ addr
    → lookup addr (allow t other rl).0 ≡ lookup addr rl
unfolding allow
allow_other t other addr rl apart =
    if_case (λ (a : LoginRateLimiter × Bool). lookup addr a.0 ≡ lookup addr rl)
      (is_over t (lookup other rl)) _ _ (λ _. lookup-insert_ne other addr _ rl apart)
      (λ _. lookup-insert_ne other addr _ rl apart)

differ : (other addr : String) → (other == addr) ≡ false → other ≢ addr
differ other addr e same = ground (arith, e, (==_iff other addr).1 same)

-- Every attempt from the address counts once, and nothing else that happens matters.
counted_up :
    (addr : String) (evs : List Event) (b : RateBucket) (rl : LoginRateLimiter)
    → lookup addr rl ≡ some b
    → All (WithoutSuccess addr b.reset_at) evs
    → lookup addr (after_events evs rl) ≡ some (record b { count = b.count + attempts_of addr evs })
unfolding after_events record_success sweep attempts_of
counted_up addr [] b rl found all = found ∙ ap (λ n. some (record b { count = n })) (omega arith)
counted_up addr (attempt t other ∷ evs) b rl found all = elim (Bool-cases (other == addr)) [
  | inl e ↦
      let next = record b { count = b.count + 1 } in
      let found' =
        subst (λ a. lookup addr (allow t a rl).0 ≡ some next) (sym ((==_iff other addr).0 e))
          (counted t addr b rl found all.0).0 in
      rw e (
        counted_up addr evs next (allow t other rl).0 found' all.1
        ∙ ap (λ n. some (record b { count = n })) (omega arith))
  | inr e ↦ rw e (
      counted_up addr evs b (allow t other rl).0
        (allow_other t other addr rl (differ other addr e) ∙ found) all.1
      ∙ ap (λ n. some (record b { count = n })) (omega arith))
]
counted_up addr (success other ∷ evs) b rl found all =
    counted_up addr evs b (delete other rl) (lookup-delete_ne other addr rl all.0 ∙ found) all.1
counted_up addr (tick t ∷ evs) b rl found all =
    counted_up addr evs b (sweep t rl)
      (lookup-keep _ addr b rl found (λ a same. ground (arith, all.0))) all.1

-- From the attempt that opens a window, the attempts from an address in the next fifteen minutes
-- are let through up to the tenth in all, and refused from the eleventh on, as long as no login from
-- the address succeeds; whatever other addresses do, and however often the ticker sweeps.
pub allow_ten :
    (addr : String) (first t : ℕ) (evs : List Event) (rl : LoginRateLimiter)
    → is_over first (lookup addr rl) ≡ true
    → All (WithoutSuccess addr (first + window)) evs
    → t ≤ first + window
    → (allow t addr (after_events (attempt first addr ∷ evs) rl)).1
      ≡ leb (2 + attempts_of addr evs) 10
unfolding after_events
allow_ten addr first t evs rl over all soon =
    let b : RateBucket = record { count = 1; reset_at = first + window } in
    let found = counted_up addr evs b (allow first addr rl).0 (opened first addr rl over) all in
    (counted t addr (record b { count = 1 + attempts_of addr evs })
      (after_events evs (allow first addr rl).0) found soon).1
    ∙ ap (λ n. leb n 10) (omega arith)
