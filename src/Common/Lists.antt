-- ===== src/Common/Lists.antt =====
-- Lists measured by native numbers, and the scans that the program's loops over slices make:
-- find the first element, change it in place, cut it out, keep the rest.
use Prim.Native.Nat.{ℕ, zero, suc, ◌+◌, ◌-◌, ◌≤◌, min}
use mathlib.Core.Bool.{Bool, true}
use mathlib.Core.List.{List, [], ◌∷◌, ◌++◌, map}
use mathlib.Core.Option.{Option, none, some, some-injective}
use mathlib.Core.Path.{◌≡◌, refl, ap, subst}
use mathlib.Core.Logic.{inl, inr}
use native.Mathlib.Omega.{arith}
use kilasos.Common.Tests.{if◌then◌else◌, Bool-cases}

module _ {ℓ} {A : Type ℓ} where
  abbrev pub length : List A → ℕ
  length [] = 0
  length (x ∷ xs) = suc (length xs)

  abbrev pub take : ℕ → List A → List A
  take zero xs = []
  take (suc n) [] = []
  take (suc n) (x ∷ xs) = x ∷ take n xs

  abbrev pub drop : ℕ → List A → List A
  drop zero xs = xs
  drop (suc n) [] = []
  drop (suc n) (x ∷ xs) = drop n xs

  abbrev pub get_or : List A → ℕ → A → A
  get_or [] i d = d
  get_or (x ∷ xs) zero d = x
  get_or (x ∷ xs) (suc i) d = get_or xs i d

  -- What `P` says of every element.
  abbrev pub All {κ} : (A → Type κ) → List A → Type κ
  All P [] = Unit
  All P (x ∷ xs) = P x × All P xs

  -- `for _, x := range xs { if p(x) { return x } }`
  unfoldable pub find : (A → Bool) → List A → Option A
  find p [] = none
  find p (x ∷ xs) = if p x then some x else find p xs

  -- `for i := range xs { if p(xs[i]) { xs[i] = f(xs[i]); break } }`
  unfoldable pub update_first : (A → Bool) → (A → A) → List A → List A
  update_first p f [] = []
  update_first p f (x ∷ xs) = if p x then f x ∷ xs else x ∷ update_first p f xs

  -- `xs = append(xs[:i], xs[i+1:]...)` at the first element with `p`
  unfoldable pub remove_first : (A → Bool) → List A → List A
  remove_first p [] = []
  remove_first p (x ∷ xs) = if p x then xs else x ∷ remove_first p xs

  -- The elements with `p`, in order.
  unfoldable pub keep : (A → Bool) → List A → List A
  keep p [] = []
  keep p (x ∷ xs) = let rest = keep p xs in if p x then x ∷ rest else rest

module _ {ℓ} {A : Type ℓ} where
  pub length-append : (xs ys : List A) → length (xs ++ ys) ≡ length xs + length ys
  length-append [] ys = omega arith
  length-append (x ∷ xs) ys = omega (arith, length-append xs ys)

  pub length-take : (n : ℕ) (xs : List A) → length (take n xs) ≡ min n (length xs)
  length-take zero xs = omega arith
  length-take (suc n) [] = omega arith
  length-take (suc n) (x ∷ xs) = omega (arith, length-take n xs)

  pub length-drop : (n : ℕ) (xs : List A) → length (drop n xs) ≡ length xs - n
  length-drop zero xs = omega arith
  length-drop (suc n) [] = omega arith
  length-drop (suc n) (x ∷ xs) = omega (arith, length-drop n xs)

  pub take-append-drop : (n : ℕ) (xs : List A) → take n xs ++ drop n xs ≡ xs
  take-append-drop zero xs = refl
  take-append-drop (suc n) [] = refl
  take-append-drop (suc n) (x ∷ xs) = rw (take-append-drop n xs)

  pub take-length-append : (xs ys : List A) → take (length xs) (xs ++ ys) ≡ xs
  take-length-append [] ys = refl
  take-length-append (x ∷ xs) ys = ap (◌∷◌ x) (take-length-append xs ys)

  pub drop-length-append : (xs ys : List A) → drop (length xs) (xs ++ ys) ≡ ys
  drop-length-append [] ys = refl
  drop-length-append (x ∷ xs) ys = drop-length-append xs ys

  pub length-keep : (p : A → Bool) (xs : List A) → length (keep p xs) ≤ length xs
  unfolding keep
  length-keep p [] = omega arith
  length-keep p (x ∷ xs) = ground (arith, length-keep p xs)

  pub find-holds : (p : A → Bool) (xs : List A) (x : A) → find p xs ≡ some x → p x ≡ true
  unfolding find
  find-holds p [] x h = ground arith
  find-holds p (y ∷ xs) x h = ground (arith, find-holds p xs x)

  pub length-remove_first :
      (p : A → Bool) (xs : List A) (x : A)
      → find p xs ≡ some x
      → length (remove_first p xs) + 1 ≡ length xs
  unfolding find remove_first
  length-remove_first p [] x h = ground arith
  length-remove_first p (y ∷ xs) x h = ground (arith, length-remove_first p xs x)

module _ {ℓ κ} {A : Type ℓ} (P : A → Type κ) where
  pub All-take : (n : ℕ) (xs : List A) → All P xs → All P (take n xs)
  All-take zero xs h = tt
  All-take (suc n) [] h = tt
  All-take (suc n) (x ∷ xs) h = (h.0, All-take n xs h.1)

  pub All-append : (xs ys : List A) → All P xs → All P ys → All P (xs ++ ys)
  All-append [] ys h k = k
  All-append (x ∷ xs) ys h k = (h.0, All-append xs ys h.1 k)

  pub All-map :
      {B : Type ℓ} (Q : B → Type κ) (f : A → B) (xs : List A)
      → ((x : A) → P x → Q (f x))
      → All P xs
      → All Q (map f xs)
  All-map Q f [] step h = tt
  All-map Q f (x ∷ xs) step h = (step x h.0, All-map Q f xs step h.1)

-- What is kept has the property when the kept elements gain it.
pub All-keep {ℓ κ} :
    {A : Type ℓ} (P Q : A → Type κ) (p : A → Bool) (xs : List A)
    → ((x : A) → p x ≡ true → P x → Q x)
    → All P xs
    → All Q (keep p xs)
unfolding keep
All-keep P Q p [] step h = tt
All-keep P Q p (x ∷ xs) step h = elim (Bool-cases (p x)) [
  | inl e ↦ rw e (step x e h.0, All-keep P Q p xs step h.1)
  | inr e ↦ rw e (All-keep P Q p xs step h.1)
]

pub All-keep_self {ℓ} :
    {A : Type ℓ} (p : A → Bool) (xs : List A) → All (λ x. p x ≡ true) (keep p xs)
unfolding keep
All-keep_self p [] = tt
All-keep_self p (x ∷ xs) = elim (Bool-cases (p x)) [
  | inl e ↦ rw e (e, All-keep_self p xs)
  | inr e ↦ rw e (All-keep_self p xs)
]

module _ {ℓ} {A : Type ℓ} where
  pub find_at_end :
      (p : A → Bool) (xs : List A) (x : A)
      → find p xs ≡ none
      → p x ≡ true
      → find p (xs ++ (x ∷ [])) ≡ some x
  unfolding find
  find_at_end p [] x absent holds = ground (arith, holds)
  find_at_end p (y ∷ xs) x absent holds = elim (Bool-cases (p y)) [
    | inl e ↦ absurd (ground (arith, e))
    | inr e ↦ rw e (find_at_end p xs x (rw e at absent) holds)
  ]

  pub All-find {κ} :
      (P : A → Type κ) (p : A → Bool) (xs : List A) (x : A) → find p xs ≡ some x → All P xs → P x
  unfolding find
  All-find P p [] x found all = absurd (ground arith)
  All-find P p (y ∷ xs) x found all = elim (Bool-cases (p y)) [
    | inl e ↦ subst P (some-injective y x (rw e at found)) all.0
    | inr e ↦ All-find P p xs x (rw e at found) all.1
  ]

pub All-imp {ℓ κ} :
    {A : Type ℓ} (P Q : A → Type κ) (xs : List A) → ((x : A) → P x → Q x) → All P xs → All Q xs
All-imp P Q [] step h = tt
All-imp P Q (x ∷ xs) step h = (step x h.0, All-imp P Q xs step h.1)

module _ {ℓ κ} {A : Type ℓ} (P : A → Type κ) (p : A → Bool) where
  pub All-update_first :
      (f : A → A) (xs : List A) → ((x : A) → P x → P (f x)) → All P xs → All P (update_first p f xs)
  unfolding update_first
  All-update_first f [] step h = tt
  All-update_first f (x ∷ xs) step h = elim (Bool-cases (p x)) [
    | inl e ↦ rw e (step x h.0, h.1)
    | inr e ↦ rw e (h.0, All-update_first f xs step h.1)
  ]

  pub All-remove_first : (xs : List A) → All P xs → All P (remove_first p xs)
  unfolding remove_first
  All-remove_first [] h = tt
  All-remove_first (x ∷ xs) h = elim (Bool-cases (p x)) [
    | inl e ↦ rw e h.1
    | inr e ↦ rw e (h.0, All-remove_first xs h.1)
  ]
