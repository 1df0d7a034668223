-- ===== src/Scheduler/Prune.antt =====
-- Which snapshots `prune` of internal/scheduler/scheduler.go asks to delete.
use mathlib.Core.List.{Perm}
use mathlib.Core.List.Perm
use kilasos.Common.{
  ℕ, suc, min, ◌-◌, ◌≤◌, ◌≡◌, refl, ap, sym, subst, String, some, List, [], ◌∷◌, ◌++◌, map, arith,
  length, take, drop, keep, All, All-imp, ltb, leb, bytes_eq, Bool-cases, inl, inr,
  take-append-drop, length-drop,
}
use kilasos.Common.Int.{pos}
use kilasos.Scheduler.{
  Snapshot, Call, delete_snapshot, is_auto, insert_by_created, sort_by_created, prune_loop, prune,
}

-- Each snapshot is not younger than those behind it.
pub IsOldestFirst : List Snapshot → Type 0
IsOldestFirst [] = Unit
IsOldestFirst (x ∷ xs) = All (λ y. x.created ≤ y.created) xs × IsOldestFirst xs

insert-All :
    (P : Snapshot → Type 0) (x : Snapshot) (ys : List Snapshot)
    → P x
    → All P ys
    → All P (insert_by_created x ys)
unfolding insert_by_created
insert-All P x [] px all = (px, tt)
insert-All P x (y ∷ ys) px all = elim (Bool-cases (leb x.created y.created)) [
  | inl e ↦ rw e (px, all)
  | inr e ↦ rw e (all.0, insert-All P x ys px all.1)
]

All-later :
    (a b : ℕ) (ys : List Snapshot)
    → a ≤ b
    → All (λ y. b ≤ y.created) ys
    → All (λ y. a ≤ y.created) ys
All-later a b ys h all =
    All-imp (λ y. b ≤ y.created) (λ y. a ≤ y.created) ys (λ y k. omega arith) all

insert-IsOldestFirst :
    (x : Snapshot) (ys : List Snapshot) → IsOldestFirst ys → IsOldestFirst (insert_by_created x ys)
unfolding insert_by_created IsOldestFirst
insert-IsOldestFirst x [] h = (tt, tt)
insert-IsOldestFirst x (y ∷ ys) h = elim (Bool-cases (leb x.created y.created)) [
  | inl e ↦
      let sooner : x.created ≤ y.created = ground (arith, e) in
      rw e ((sooner, All-later x.created y.created ys sooner h.0), h)
  | inr e ↦ rw e (
    insert-All (λ z. y.created ≤ z.created) x ys (ground (arith, e)) h.0,
    insert-IsOldestFirst x ys h.1,
  )
]

sort-IsOldestFirst : (xs : List Snapshot) → IsOldestFirst (sort_by_created xs)
unfolding sort_by_created IsOldestFirst
sort-IsOldestFirst [] = tt
sort-IsOldestFirst (x ∷ xs) = insert-IsOldestFirst x (sort_by_created xs) (sort-IsOldestFirst xs)

insert-Perm : (x : Snapshot) (ys : List Snapshot) → Perm (insert_by_created x ys) (x ∷ ys)
unfolding insert_by_created
insert-Perm x [] = Perm.refl (x ∷ [])
insert-Perm x (y ∷ ys) = elim (Bool-cases (leb x.created y.created)) [
  | inl e ↦ rw e (Perm.refl (x ∷ y ∷ ys))
  | inr e ↦ rw e (Perm.trans (Perm.cons y (insert-Perm x ys)) (Perm.swap x y ys))
]

sort-Perm : (xs : List Snapshot) → Perm (sort_by_created xs) xs
unfolding sort_by_created
sort-Perm [] = Perm.refl []
sort-Perm (x ∷ xs) = Perm.trans (insert-Perm x (sort_by_created xs)) (Perm.cons x (sort-Perm xs))

length-insert :
    (x : Snapshot) (ys : List Snapshot) → length (insert_by_created x ys) ≡ suc (length ys)
unfolding insert_by_created
length-insert x [] = refl
length-insert x (y ∷ ys) = ground (arith, length-insert x ys)

length-sort : (xs : List Snapshot) → length (sort_by_created xs) ≡ length xs
unfolding sort_by_created
length-sort [] = refl
length-sort (x ∷ xs) = omega (arith, length-insert x (sort_by_created xs), length-sort xs)

All-right : (P : Snapshot → Type 0) (xs ys : List Snapshot) → All P (xs ++ ys) → All P ys
All-right P [] ys h = h
All-right P (x ∷ xs) ys h = All-right P xs ys h.1

split_order :
    (gone left : List Snapshot)
    → IsOldestFirst (gone ++ left)
    → All (λ x. All (λ y. x.created ≤ y.created) left) gone
unfolding IsOldestFirst
split_order [] left h = tt
split_order (x ∷ gone) left h =
    (All-right (λ y. x.created ≤ y.created) gone left h.0, split_order gone left h.1)

sub_zero : (n : ℕ) → 0 ≡ 0 - n
sub_zero n = omega arith

abbrev pub deletes : String → List Snapshot → List Call
deletes pool gone = map (λ x. delete_snapshot pool x.name) gone

pruned :
    (pool : String) (count : ℕ) (xs : List Snapshot)
    → prune_loop pool (pos count) xs ≡ deletes pool (take (length xs - count) xs)
unfolding prune_loop
pruned pool count [] = ap (λ k. deletes pool (take k [])) (sub_zero count)
pruned pool count (x ∷ xs) = elim (Bool-cases (ltb count (suc (length xs)))) [
  | inl e ↦
      let more : suc (length xs) - count ≡ suc (length xs - count) = ground (arith, e) in
      ground (arith, e, more, pruned pool count xs)
  | inr e ↦
      let none_left : suc (length xs) - count ≡ 0 = ground (arith, e) in
      ground (arith, e, none_left)
]

-- Of the snapshots that are listed, those that are kept by hand are never deleted; the automatic
-- ones fall into those that are deleted, oldest first, and those that are left, as many as the
-- schedule keeps or all of them, and none that is deleted is younger than one that is left.
pub prune_keeps_newest :
    (pool : String) (count : ℕ) (snaps : List Snapshot)
    → (gone left : List Snapshot) × (prune pool (pos count) (some snaps) ≡ deletes pool gone)
      × Perm (gone ++ left) (keep is_auto snaps)
      × (length left ≡ min count (length (keep is_auto snaps)))
      × IsOldestFirst (gone ++ left)
      × All (λ x. All (λ y. x.created ≤ y.created) left) gone
unfolding prune
prune_keeps_newest pool count snaps =
    let auto = keep is_auto snaps in
    let sorted = sort_by_created auto in
    let n = length sorted - count in
    let whole = take-append-drop n sorted in
    let order = subst IsOldestFirst (sym whole) (sort-IsOldestFirst auto) in
    (
      take n sorted,
      drop n sorted,
      pruned pool count sorted,
      subst (λ l. Perm l auto) (sym whole) (sort-Perm auto),
      omega (arith, length-drop n sorted, length-sort auto),
      order,
      split_order (take n sorted) (drop n sorted) order,
    )
