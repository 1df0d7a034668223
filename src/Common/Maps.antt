-- ===== src/Common/Maps.antt =====
-- Go maps as association lists. The order of the list is the order in which `range` visits the
-- map; a statement about every list is a statement about every order.
use mathlib.Core.List.{List, [], ◌∷◌}
use mathlib.Core.Option.{Option, none, some, some-injective}
use mathlib.Core.Path.{◌≡◌, refl, ap₂, subst}
use mathlib.Core.Logic.{◌≢◌, inl, inr}
use native.Mathlib.Omega.{arith}
use kilasos.Common.Tests.{HasEq, ◌==◌, ==_iff, if◌then◌else◌, Bool-cases}
use kilasos.Common.Lists.{All}

abbrev pub Dict {ℓ κ} : Type ℓ → Type κ → Type (ℓ ⊔ κ)
Dict K V = List (K × V)

module _ {ℓ κ} {K : Type ℓ} {V : Type κ} ⦃e : HasEq K⦄ where
  -- `v, ok := m[k]`
  unfoldable pub lookup : K → Dict K V → Option V
  lookup key [] = none
  lookup key ((old, found) ∷ more) = if old == key then some found else lookup key more

  -- `m[k] = v`
  unfoldable pub insert : K → V → Dict K V → Dict K V
  insert key value [] = (key, value) ∷ []
  insert key value ((old, found) ∷ more) =
      if old == key then (key, value) ∷ more else (old, found) ∷ insert key value more

  -- `delete(m, k)`
  unfoldable pub delete : K → Dict K V → Dict K V
  delete key [] = []
  delete key ((old, found) ∷ more) =
      let rest = delete key more in if old == key then rest else (old, found) ∷ rest

  pub lookup-insert :
      (key other : K) (value : V) (m : Dict K V)
      → lookup other (insert key value m) ≡ (if key == other then some value else lookup other m)
  unfolding lookup insert
  lookup-insert key other value [] = refl
  lookup-insert key other value ((old, found) ∷ more) =
      let rest = lookup-insert key other value more in
      ground (arith, ==_iff old key, ==_iff old other, ==_iff key other, rest)

  pub lookup-delete :
      (k j : K) (m : Dict K V) → lookup j (delete k m) ≡ (if k == j then none else lookup j m)
  unfolding lookup delete
  lookup-delete k j [] = ground arith
  lookup-delete k j ((i, w) ∷ m) =
      ground (arith, ==_iff k j, ==_iff i k, ==_iff i j, lookup-delete k j m)

module _ {ℓ κ} {K : Type ℓ} {V : Type κ} ⦃e : HasEq K⦄ where
  pub lookup-insert_self : (k : K) (v : V) (m : Dict K V) → lookup k (insert k v m) ≡ some v
  lookup-insert_self k v m = rw (lookup-insert k k v m, (==_iff k k).1 refl)

  pub lookup-insert_ne :
      (k j : K) (v : V) (m : Dict K V) → k ≢ j → lookup j (insert k v m) ≡ lookup j m
  lookup-insert_ne k j v m apart = ground (arith, lookup-insert k j v m, ==_iff k j)

  pub lookup-delete_self : (k : K) (m : Dict K V) → lookup k (delete k m) ≡ none
  lookup-delete_self k m = rw (lookup-delete k k m, (==_iff k k).1 refl)

  pub lookup-delete_ne : (k j : K) (m : Dict K V) → k ≢ j → lookup j (delete k m) ≡ lookup j m
  lookup-delete_ne k j m apart = ground (arith, lookup-delete k j m, ==_iff k j)

-- A property of every entry survives a write of an entry that has it, and a delete.
module _ {ℓ κ μ} {K : Type ℓ} {V : Type κ} ⦃e : HasEq K⦄ (P : K × V → Type μ) where
  pub All-insert : (k : K) (v : V) (m : Dict K V) → P (k, v) → All P m → All P (insert k v m)
  unfolding insert
  All-insert k v [] h all = (h, tt)
  All-insert k v ((j, w) ∷ m) h all = elim (Bool-cases (j == k)) [
    | inl same ↦ rw same (h, all.1)
    | inr other ↦ rw other (all.0, All-insert k v m h all.1)
  ]

  pub All-delete : (k : K) (m : Dict K V) → All P m → All P (delete k m)
  unfolding delete
  All-delete k [] all = tt
  All-delete k ((j, w) ∷ m) all = elim (Bool-cases (j == k)) [
    | inl same ↦ rw same (All-delete k m all.1)
    | inr other ↦ rw other (all.0, All-delete k m all.1)
  ]

  pub All-lookup : (k : K) (v : V) (m : Dict K V) → lookup k m ≡ some v → All P m → P (k, v)
  unfolding lookup
  All-lookup k v [] h all = cc
  All-lookup k v ((j, w) ∷ m) h all = elim (Bool-cases (j == k)) [
    | inl same ↦
        subst P
          (ap₂ (λ (a : K) (b : V). (a, b)) ((==_iff j k).0 same)
            (some-injective w v (rw same at h)))
          all.0
    | inr other ↦ All-lookup k v m (rw other at h) all.1
  ]
