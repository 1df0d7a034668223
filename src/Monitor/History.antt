-- ===== src/Monitor/History.antt =====
-- internal/monitor/history.go: the samples of the metrics, oldest first. The fields of a sample are
-- floating-point numbers, which are not modelled; a sample is a value of any type, and `sample`
-- takes what is made of the provider's answer.
use native.Mathlib.Nat.{zero-add}
use mathlib.Core.List.{append_assoc, append-nil}
use kilasos.Common.{
  ℕ, zero, suc, ◌+◌, ◌-◌, ◌≤◌, ◌≡◌, refl, sym, ap, ◌∙◌, Option, none, some, List, [], ◌∷◌, ◌++◌,
  length, drop, length-append, length-drop, ltb, if◌then◌else◌, Bool-cases, inl, inr, arith,
}

abbrev pub history_max : ℕ
history_max = 120

module _ {A : Type 0} where
  -- `MetricsHistory.Add`
  unfoldable pub add_sample : A → List A → List A
  add_sample s samples =
      let longer = samples ++ (s ∷ []) in
      if ltb history_max (length longer) then drop (length longer - history_max) longer else longer

  -- `MetricsHistory.sample`: nothing is added where the provider fails.
  unfoldable pub sample : Option A → List A → List A
  sample none samples = samples
  sample (some s) samples = add_sample s samples

  unfoldable pub samples_view : List A → List A
  samples_view samples = samples

  pub sample_all : List (Option A) → List A → List A
  sample_all [] samples = samples
  sample_all (s ∷ more) samples = sample_all more (sample s samples)

  -- The samples that were taken.
  pub taken : List (Option A) → List A
  taken [] = []
  taken (none ∷ more) = taken more
  taken (some s ∷ more) = s ∷ taken more

  -- The last 120 of a list.
  abbrev pub newest : List A → List A
  newest xs = drop (length xs - history_max) xs

  drop-append : (k : ℕ) (xs ys : List A) → k ≤ length xs → drop k (xs ++ ys) ≡ drop k xs ++ ys
  drop-append zero xs ys le = refl
  drop-append (suc k) [] ys le = absurd (omega arith)
  drop-append (suc k) (x ∷ xs) ys le = drop-append k xs ys (omega arith)

  drop-nil : (k : ℕ) → drop {A = A} k [] ≡ []
  drop-nil zero = refl
  drop-nil (suc k) = refl

  drop-drop : (j k : ℕ) (xs : List A) → drop j (drop k xs) ≡ drop (k + j) xs
  drop-drop j zero xs = rw zero-add
  drop-drop j (suc k) [] = drop-nil j ∙ sym (drop-nil (suc k + j))
  drop-drop j (suc k) (x ∷ xs) =
      drop-drop j k xs
      ∙ (let shift : suc k + j ≡ suc (k + j) = omega arith in ap (λ n. drop n (x ∷ xs)) (sym shift))

  add_sample_lem : (s : A) (xs : List A) → add_sample s xs ≡ newest (xs ++ (s ∷ []))
  unfolding add_sample
  add_sample_lem s xs = elim (Bool-cases (ltb history_max (length (xs ++ (s ∷ []))))) [
    | inl long ↦ rw long refl
    | inr short ↦
        let none_dropped : length (xs ++ (s ∷ [])) - history_max ≡ 0 = ground (arith, short) in
        rw (short, none_dropped) refl
  ]

  add_sample-newest : (s : A) (xs : List A) → add_sample s (newest xs) ≡ newest (xs ++ (s ∷ []))
  add_sample-newest s xs =
      let k : ℕ = length xs - history_max in
      let all = xs ++ (s ∷ []) in
      let here : newest xs ++ (s ∷ []) ≡ drop k all =
        sym (drop-append k xs (s ∷ []) (omega arith)) in
      let count : k + (length (drop k all) - history_max) ≡ length all - history_max =
        omega (arith, length-drop k all, length-append xs (s ∷ [])) in
      add_sample_lem s (newest xs)
      ∙ ap newest here
      ∙ drop-drop (length (drop k all) - history_max) k all
      ∙ ap (λ n. drop n all) count

  sample_all-newest :
      (answers : List (Option A)) (before : List A)
      → sample_all answers (newest before) ≡ newest (before ++ taken answers)
  unfolding sample_all taken sample
  sample_all-newest [] before = ap newest (sym (append-nil before))
  sample_all-newest (none ∷ more) before = sample_all-newest more before
  sample_all-newest (some s ∷ more) before =
      ap (sample_all more) (add_sample-newest s before)
      ∙ sample_all-newest more (before ++ (s ∷ []))
      ∙ ap newest (append_assoc before (s ∷ []) (taken more))

  -- From an empty history on, after any answers of the provider, the history has the samples of those
  -- that succeeded, in order, less all but the last 120.
  pub samples_are_newest :
      (answers : List (Option A)) → samples_view (sample_all answers []) ≡ newest (taken answers)
  unfolding samples_view
  samples_are_newest answers = sample_all-newest answers []
