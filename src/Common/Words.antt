-- ===== src/Common/Words.antt =====
-- Slices of byte strings, and words in them.
use Prim.Native.Nat.{ℕ, zero, suc, ◌+◌, ◌-◌, ◌*◌, ◌^◌, ◌≤◌, ◌<◌}
use mathlib.Core.Path.{◌≡◌, refl, ap, ◌∙◌}
use mathlib.Core.Bool.{◌&&◌}
use mathlib.Core.Option.{Option, none, some}
use mathlib.Core.List.{List, [], ◌∷◌}
use native.Mathlib.Omega.{arith}
use kilasos.Common.Tests.{leb, ◌==◌, nat_eq, if◌then◌else◌}
use kilasos.Common.Lists.{length, take, drop, get_or, All, length-drop}

-- `b[from:to]`, where it is in range; out of range the program panics.
unfoldable pub slice {ℓ} : {A : Type ℓ} → ℕ → ℕ → List A → Option (List A)
slice from to xs =
    if leb from to && leb to (length xs) then some (take (to - from) (drop from xs)) else none

-- `binary.BigEndian.Uint32`
abbrev pub big_endian4 : List ℕ → ℕ
big_endian4 h = get_or h 0 0 * 2 ^ 24 + get_or h 1 0 * 2 ^ 16 + get_or h 2 0 * 2 ^ 8 + get_or h 3 0

-- `strings.ReplaceAll` of one byte by another
unfoldable pub replace_all : ℕ → ℕ → List ℕ → List ℕ
replace_all old new [] = []
replace_all old new (c ∷ cs) = (if c == old then new else c) ∷ replace_all old new cs

pub get_or-All {κ} : (P : ℕ → Type κ) (xs : List ℕ) (i : ℕ) → All P xs → P 0 → P (get_or xs i 0)
get_or-All P [] i all z = z
get_or-All P (x ∷ xs) zero all z = all.0
get_or-All P (x ∷ xs) (suc i) all z = get_or-All P xs i all.1 z

pub big_endian4_bound : (h : List ℕ) → All (λ b. b < 256) h → big_endian4 h < 2 ^ 32
big_endian4_bound h bytes =
    let at = λ (i : ℕ). get_or-All (λ b. b < 256) h i bytes (omega arith) in
    omega (arith, at 0, at 1, at 2, at 3)

module _ {A : Type 0} where
  take_all : (n : ℕ) (xs : List A) → length xs ≤ n → take n xs ≡ xs
  take_all zero [] h = refl
  take_all zero (x ∷ xs) h = absurd (omega arith)
  take_all (suc n) [] h = refl
  take_all (suc n) (x ∷ xs) h = ap (◌∷◌ x) (take_all n xs (omega arith))

  pub slice_within :
      (from to : ℕ) (xs : List A)
      → from ≤ to
      → to ≤ length xs
      → slice from to xs ≡ some (take (to - from) (drop from xs))
  unfolding slice
  slice_within from to xs h k = ground arith

  pub slice_to_end :
      (from : ℕ) (xs : List A) → from ≤ length xs → slice from (length xs) xs ≡ some (drop from xs)
  slice_to_end from xs h =
      slice_within from (length xs) xs h (omega arith)
      ∙ ap some (take_all (length xs - from) (drop from xs) (omega (arith, length-drop from xs)))

  pub slice_from_start : (to : ℕ) (xs : List A) → to ≤ length xs → slice 0 to xs ≡ some (take to xs)
  slice_from_start to xs h =
      slice_within 0 to xs (omega arith) h ∙ ap (λ k. some (take k xs)) (omega arith)

pub All-drop {κ} : (P : ℕ → Type κ) (i : ℕ) (xs : List ℕ) → All P xs → All P (drop i xs)
All-drop P zero xs h = h
All-drop P (suc i) [] h = tt
All-drop P (suc i) (x ∷ xs) h = All-drop P i xs h.1
