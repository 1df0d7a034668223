-- ===== src/Audit/Window.antt =====
-- What `LogEnriched` of internal/audit/audit.go keeps.
use kilasos.Common.{
  ℕ, zero, suc, ◌≤◌, ◌<◌, ◌≡◌, inl, inr, refl, ap, sym, subst, true, false, List, [], ◌∷◌, arith,
  length, take, length-take, All, ◌==◌, ==_iff, nat_eq, string_eq, Bool-cases, if_case,
}
use kilasos.Common.Int.{pos, ltb_ℤ}
use kilasos.Common.Time.{before}
use kilasos.Audit.{
  Entry, Logger, max_entries, cutoff, time_at, fresh_count, drop_old, stamp, log_enriched,
}

fresh_count_bound : (limit : ℕ) (xs : List Entry) (n : ℕ) → fresh_count limit xs n ≤ n
unfolding fresh_count
fresh_count_bound limit xs zero = omega arith
fresh_count_bound limit xs (suc n) = ground (arith, fresh_count_bound limit xs n)

take-take : (m n : ℕ) (xs : List Entry) → m ≤ n → take m (take n xs) ≡ take m xs
take-take zero n xs h = refl
take-take (suc m) zero xs h = absurd (omega arith)
take-take (suc m) (suc n) [] h = refl
take-take (suc m) (suc n) (x ∷ xs) h = ap (◌∷◌ x) (take-take m n xs (omega arith))

-- The first entries of `all`, at most a thousand.
pub record IsWindow (all xs : List Entry) : Type 0 where
  pub count : ℕ
  pub is_front : xs ≡ take count all
  pub bounded : count ≤ max_entries

length_of_window : (all xs : List Entry) → IsWindow all xs → length xs ≤ max_entries
length_of_window all xs w = omega (arith, ap length w.is_front, length-take w.count all, w.bounded)

drop_old-IsWindow :
    (limit : ℕ) (all : List Entry) → IsWindow all (drop_old limit (take max_entries all))
unfolding drop_old
drop_old-IsWindow limit all =
    let ys = take max_entries all in
    let few = fresh_count_bound limit ys (length ys) in
    let enough : fresh_count limit ys (length ys) ≤ max_entries =
      omega (arith, few, length-take max_entries all) in
    record {
      count = fresh_count limit ys (length ys);
      is_front = take-take (fresh_count limit ys (length ys)) max_entries all enough;
      bounded = enough;
    }

window :
    (now : ℕ) (e : Entry) (l : Logger)
    → IsWindow (stamp now l.anonymize_ip e ∷ l.entries) (log_enriched now e l).entries
unfolding log_enriched
window now e l =
    let all = stamp now l.anonymize_ip e ∷ l.entries in
    if_case (IsWindow all) (ltb_ℤ (pos 0) l.retention_days) _ _
      (λ _. drop_old-IsWindow (cutoff now l.retention_days) all)
      (λ _. record { count = max_entries; is_front = refl; bounded = omega arith })

-- The log is the newest entries, the new one first, and never more than a thousand of them; where
-- no retention is set it is as many as there are, up to a thousand.
pub log_enriched_window :
    (now : ℕ) (e : Entry) (l : Logger)
    → IsWindow (stamp now l.anonymize_ip e ∷ l.entries) (log_enriched now e l).entries
      × (length (log_enriched now e l).entries ≤ max_entries)
      × (ltb_ℤ (pos 0) l.retention_days ≡ false
          → (log_enriched now e l).entries
            ≡ take max_entries (stamp now l.anonymize_ip e ∷ l.entries))
unfolding log_enriched
log_enriched_window now e l =
    (window now e l, length_of_window _ _ (window now e l), λ off. simp off refl)

-- Each entry is not older than the one behind it.
unfoldable pub IsNewestFirst : List Entry → Type 0
IsNewestFirst [] = Unit
IsNewestFirst (x ∷ xs) = All (λ y. y.time ≤ x.time) xs × IsNewestFirst xs

-- An entry that is not past the limit.
abbrev pub Fresh : ℕ → Entry → Type 0
Fresh limit x = limit ≤ x.time

All-time_at :
    (t i : ℕ) (xs : List Entry) → All (λ y. y.time ≤ t) xs → i < length xs → time_at xs i ≤ t
unfolding time_at
All-time_at t i [] all h = absurd (omega arith)
All-time_at t zero (x ∷ xs) all h = all.0
All-time_at t (suc i) (x ∷ xs) all h = All-time_at t i xs all.1 (omega arith)

take-Fresh :
    (limit i : ℕ) (xs : List Entry)
    → IsNewestFirst xs
    → i < length xs
    → limit ≤ time_at xs i
    → All (Fresh limit) (take (suc i) xs)
unfolding IsNewestFirst time_at
take-Fresh limit i [] order h fresh = absurd (omega arith)
take-Fresh limit zero (x ∷ xs) order h fresh = (fresh, tt)
take-Fresh limit (suc i) (x ∷ xs) order h fresh = (
  omega (arith, fresh, All-time_at x.time i xs order.0 (omega arith)),
  take-Fresh limit i xs order.1 (omega arith) fresh,
)

kept-Fresh :
    (limit : ℕ) (xs : List Entry) (n : ℕ)
    → IsNewestFirst xs
    → n ≤ length xs
    → All (Fresh limit) (take (fresh_count limit xs n) xs)
unfolding fresh_count
kept-Fresh limit xs zero order h = tt
kept-Fresh limit xs (suc n) order h = elim (Bool-cases (before (time_at xs n) limit)) [
  | inl old ↦ rw old (kept-Fresh limit xs n order (omega arith))
  | inr fresh ↦ rw fresh (take-Fresh limit n xs order (omega arith) (ground (arith, fresh)))
]

cut-old :
    (limit : ℕ) (xs : List Entry) (n i : ℕ)
    → fresh_count limit xs n ≤ i
    → i < n
    → time_at xs i < limit
unfolding fresh_count
cut-old limit xs zero i h k = absurd (omega arith)
cut-old limit xs (suc n) i h k = elim (Bool-cases (before (time_at xs n) limit)) [
  | inl old ↦ elim (Bool-cases (i == n)) [
    | inl last ↦ subst (λ j. time_at xs j < limit) (sym ((==_iff i n).0 last)) (ground (arith, old))
    | inr before_it ↦
        cut-old limit xs n i (ground (arith, old)) (ground (arith, before_it, ==_iff i n))
  ]
  | inr fresh ↦ absurd (ground (arith, fresh))
]

-- What stands before old entries are cut.
abbrev pub candidates : ℕ → Entry → Logger → List Entry
candidates now e l = take max_entries (stamp now l.anonymize_ip e ∷ l.entries)

-- With a retention set and entries whose times do not run backwards, what stays of the newest
-- thousand is exactly what is not past the limit: each entry that is kept is on this side of it,
-- and each that is cut is beyond it.
pub log_enriched_retention :
    (now : ℕ) (e : Entry) (l : Logger)
    → ltb_ℤ (pos 0) l.retention_days ≡ true
    → IsNewestFirst (candidates now e l)
    → All (Fresh (cutoff now l.retention_days)) (log_enriched now e l).entries
      × ((i : ℕ)
          → length (log_enriched now e l).entries ≤ i
          → i < length (candidates now e l)
          → time_at (candidates now e l) i < cutoff now l.retention_days)
unfolding log_enriched drop_old
log_enriched_retention now e l on order =
    let ys = candidates now e l in
    let limit = cutoff now l.retention_days in
    let few = fresh_count_bound limit ys (length ys) in
    let size = length-take (fresh_count limit ys (length ys)) ys in
    simp on (
      kept-Fresh limit ys (length ys) order (omega arith),
      λ i h k. cut-old limit ys (length ys) i (omega (arith, few, size, h)) k,
    )
