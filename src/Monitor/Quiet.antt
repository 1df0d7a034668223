-- ===== src/Monitor/Quiet.antt =====
-- `raise` of internal/monitor/monitor.go does not repeat an alert within the hour.
use mathlib.Core.Option.{some-injective}
use mathlib.Core.Path.{ap₂}
use kilasos.Common.{
  ℕ, ◌+◌, ◌≤◌, ◌<◌, ◌≡◌, ◌≢◌, refl, ap, ◌∙◌, Bool, true, false, some, [], ◌∷◌, String, Dict, lookup,
  insert, keep, lookup-insert_self, lookup-insert_ne, ◌==◌, ==_iff, string_eq, Bool-cases, inl, inr,
  if_case, arith,
}
use kilasos.Common.Int.{saturate}
use kilasos.Common.Time.{sub, hour}
use kilasos.Monitor.{
  Monitor, Notice, is_recent, still_seen, raised, raise, dismiss, set_thresholds, set_webhook,
}
use kilasos.Monitor.Runs.{Step, raising, dismissing, tuning, hooking, noting, Run, here, wait, next}

-- An entry that is kept is still found.
lookup-keep :
    (p : String × ℕ → Bool) (k : String) (v : ℕ) (seen : Dict String ℕ)
    → lookup k seen ≡ some v
    → p (k, v) ≡ true
    → lookup k (keep p seen) ≡ some v
unfolding lookup keep
lookup-keep p k v [] h good = ground arith
lookup-keep p k v ((j, w) ∷ seen) h good = elim (Bool-cases (j == k)) [
  | inl same ↦
      let value : w ≡ v = some-injective w v (rw same at h) in
      let kept : p (j, w) ≡ true =
        ap₂ (λ (a : String) (b : ℕ). p (a, b)) ((==_iff j k).0 same) value ∙ good in
      rw (kept, same) (ap some value)
  | inr other ↦
      let rest = lookup-keep p k v seen (rw other at h) good in
      elim (Bool-cases (p (j, w))) [ inl e ↦ rw (e, other) rest | inr e ↦ rw e rest ]
]

-- Within two hours an entry is kept, and within one it silences.
kept_within : (k : String) (t now : ℕ) → t ≤ now → now < t + hour → still_seen now (k, t) ≡ true
unfolding sub saturate
kept_within k t now le soon = ground arith

recent_within : (t now : ℕ) → t ≤ now → now < t + hour → is_recent now (some t) ≡ true
unfolding sub saturate
recent_within t now le soon = ground arith

-- The key was last seen at `t`.
abbrev Seen : String → ℕ → Monitor → Type 0
Seen key t m = lookup key m.last_seen ≡ some t

module _ (key : String) (t : ℕ) where
  quiet_raise :
      (now : ℕ) (n : Notice) (m : Monitor)
      → t ≤ now
      → now < t + hour
      → n.key ≡ key
      → Seen key t m
      → raise now n m ≡ m
  unfolding raise
  quiet_raise now n m le soon same seen = rw (same, seen, recent_within t now le soon) refl

  raised-Seen :
      (now : ℕ) (n : Notice) (m : Monitor)
      → t ≤ now
      → now < t + hour
      → n.key ≢ key
      → Seen key t m
      → Seen key t (raised now n m)
  raised-Seen now n m le soon apart seen =
      lookup-keep (still_seen now) key t (insert n.key now m.last_seen)
        (lookup-insert_ne n.key key now m.last_seen apart ∙ seen) (kept_within key t now le soon)

  raise-Seen :
      (now : ℕ) (n : Notice) (m : Monitor)
      → t ≤ now
      → now < t + hour
      → Seen key t m
      → Seen key t (raise now n m)
  raise-Seen now n m le soon seen = elim (Bool-cases (n.key == key)) [
    | inl same ↦ rw (quiet_raise now n m le soon ((==_iff n.key key).0 same) seen) seen
    | inr other ↦
        unfold raise in
        if_case (Seen key t) (is_recent now (lookup n.key m.last_seen)) m (raised now n m)
          (λ _. seen) (λ _. raised-Seen now n m le soon (ground (arith, ==_iff n.key key)) seen)
  ]

  Step-Seen :
      {now : ℕ} {m m' : Monitor}
      → Step now m m'
      → t ≤ now
      → now < t + hour
      → Seen key t m
      → Seen key t m'
  Step-Seen {now} (raising n m) le soon seen = raise-Seen now n m le soon seen
  Step-Seen (dismissing id m) le soon seen = unfold dismiss in seen
  Step-Seen (tuning cfg m) le soon seen = unfold set_thresholds in seen
  Step-Seen (hooking url secret m) le soon seen = unfold set_webhook in seen
  Step-Seen (noting m m' same) le soon seen = rw same.same_seen seen

  Run-forward : {m₀ m : Monitor} {now : ℕ} → Run t m₀ now m → t ≤ now
  Run-forward here = omega arith
  Run-forward (wait t' r le) = omega (arith, Run-forward r)
  Run-forward (next r step) = Run-forward r

  Run-Seen :
      {m₀ m : Monitor} {now : ℕ} → Run t m₀ now m → now < t + hour → Seen key t m₀ → Seen key t m
  Run-Seen here soon seen = seen
  Run-Seen (wait t' r le) soon seen = Run-Seen r (omega arith) seen
  Run-Seen (next r step) soon seen = Step-Seen step (Run-forward r) soon (Run-Seen r soon seen)

raise-Seen_self :
    (t : ℕ) (n : Notice) (m : Monitor)
    → is_recent t (lookup n.key m.last_seen) ≡ false
    → Seen n.key t (raise t n m)
unfolding raise
raise-Seen_self t n m fresh = rw fresh (
    lookup-keep (still_seen t) n.key t (insert n.key t m.last_seen)
      (lookup-insert_self n.key t m.last_seen) (kept_within n.key t t (omega arith) (omega arith)))

-- After an alert was raised under a key, a further notice under that key within the hour changes
-- nothing, whatever else is raised, dismissed, polled or set in between.
pub quiet_for_an_hour :
    (t : ℕ) (n : Notice) (m : Monitor)
    → is_recent t (lookup n.key m.last_seen) ≡ false
    → {now : ℕ} {m' : Monitor} → Run t (raise t n m) now m'
    → now < t + hour
    → (again : Notice) → again.key ≡ n.key
    → raise now again m' ≡ m'
quiet_for_an_hour t n m fresh {now} {m'} r soon again same =
    quiet_raise n.key t now again m' (Run-forward n.key t r) soon same
      (Run-Seen n.key t r soon (raise-Seen_self t n m fresh))
