-- ===== src/Files/Trash/Moves.antt =====
-- The renames of internal/storage/linux.go that move a path with all that is in it, and the
-- directories that are made on the way to it.
use mathlib.Core.List.{append_assoc, append-nil}
use kilasos.Common.{
  ℕ, ◌≡◌, ◌≢◌, refl, sym, ap, ◌∙◌, subst, true, false, [], ◌∷◌, ◌++◌, lookup, length, take, drop,
  length-append, take-length-append, drop-length-append, All, ◌==◌, ==_iff, bytes_eq, nat_eq,
  Bool-cases, inl, inr, arith,
}
use kilasos.Auth.Crypto.{Bytes}
use kilasos.Files.Paths.{has_prefix}
use kilasos.Files.Pools.Inside.{has_prefix_means}
use kilasos.Files.Trash.{Node, Disk, dot_meta, moved, move_all}

pub has_prefix-append : (front rest : Bytes) → has_prefix front (front ++ rest) ≡ true
has_prefix-append front rest =
    (==_iff (take (length front) (front ++ rest)) front).1 (take-length-append front rest)

-- No path begins with that of the place.
abbrev pub Clear : Bytes → Bytes × Node → Type 0
Clear place x = has_prefix place x.0 ≡ false

pub begins : (front rest path : Bytes) → path ≡ front ++ rest → has_prefix front path ≡ false → ⊥
begins front rest path e h =
    ground (arith, h, ap (has_prefix front) e ∙ has_prefix-append front rest)

pub longer : (path : Bytes) (c : ℕ) (rest : Bytes) → path ≢ path ++ (c ∷ rest)
longer path c rest e = omega (arith, length-append path (c ∷ rest), ap length e)

pub eq_self : (path : Bytes) → (path == path) ≡ true
eq_self path = (==_iff path path).1 refl

pub differ : (a b : Bytes) → a ≢ b → (a == b) ≡ false
differ a b h = ground (arith, ==_iff a b, h)

-- What becomes of a path.
data Whereto (old new path : Bytes) : Type 0 where
  itself : path ≡ old → moved old new path ≡ new → Whereto old new path
  inside :
      (rest : Bytes)
      → path ≡ old ++ (b'/' ∷ rest)
      → moved old new path ≡ new ++ (b'/' ∷ rest)
      → Whereto old new path
  stays :
      path ≢ old
      → has_prefix (old ++ (b'/' ∷ [])) path ≡ false
      → moved old new path ≡ path
      → Whereto old new path

whereto : (old new path : Bytes) → Whereto old new path
unfolding moved
whereto old new path = elim (Bool-cases (path == old)) [
  | inl e ↦ itself ((==_iff path old).0 e) (rw e refl)
  | inr e ↦ elim (Bool-cases (has_prefix (old ++ (b'/' ∷ [])) path)) [
    | inl f ↦
        let rest = drop (length (old ++ (b'/' ∷ []))) path in
        let cut : path ≡ old ++ (b'/' ∷ rest) =
          has_prefix_means (old ++ (b'/' ∷ [])) path f ∙ append_assoc old (b'/' ∷ []) rest in
        inside rest cut (
          rw (e, f)
            (ap (λ (x : Bytes). new ++ x)
              (ap (drop (length old)) cut ∙ drop-length-append old (b'/' ∷ rest))))
    | inr f ↦ stays (λ same. ground (arith, e, (==_iff path old).1 same)) f (rw (e, f) refl)
  ]
]

-- A path in a directory, with the slash.
in_directory : (dir rest : Bytes) → has_prefix (dir ++ (b'/' ∷ [])) (dir ++ (b'/' ∷ rest)) ≡ true
in_directory dir rest =
    subst (λ x. has_prefix (dir ++ (b'/' ∷ [])) x ≡ true) (append_assoc dir (b'/' ∷ []) rest)
      (has_prefix-append (dir ++ (b'/' ∷ [])) rest)

pub not_in :
    (dir path : Bytes) → has_prefix dir path ≡ false → has_prefix (dir ++ (b'/' ∷ [])) path ≡ false
not_in dir path h = elim (Bool-cases (has_prefix (dir ++ (b'/' ∷ [])) path)) [
  | inl e ↦ absurd (
      begins dir (b'/' ∷ drop (length (dir ++ (b'/' ∷ []))) path) path
        (has_prefix_means (dir ++ (b'/' ∷ [])) path e ∙ append_assoc dir (b'/' ∷ []) _) h)
  | inr e ↦ e
]

pub not_place : (place path : Bytes) → has_prefix place path ≡ false → path ≢ place
not_place place path h e = begins place [] path (e ∙ sym (append-nil place)) h

moved_itself : (old new : Bytes) → moved old new old ≡ new
unfolding moved
moved_itself old new = rw (eq_self old) refl

moved_inside : (old new rest : Bytes) → moved old new (old ++ (b'/' ∷ rest)) ≡ new ++ (b'/' ∷ rest)
unfolding moved
moved_inside old new rest =
    rw
      (differ (old ++ (b'/' ∷ rest)) old (λ e. longer old b'/' rest (sym e)), in_directory old rest)
      (ap (λ (x : Bytes). new ++ x) (drop-length-append old (b'/' ∷ rest)))

pub moved_else : (old new path : Bytes) → has_prefix old path ≡ false → moved old new path ≡ path
unfolding moved
moved_else old new path h = rw (differ path old (not_place old path h), not_in old path h) refl

pub slash_or_point : (rest : Bytes) → b'/' ∷ rest ≢ dot_meta
slash_or_point rest e = ground (arith, e)

module _ (old new : Bytes) where
  -- What was moved to a place where nothing was, is moved back.
  moved_back :
      (path : Bytes) → has_prefix new path ≡ false → moved new old (moved old new path) ≡ path
  moved_back path h = elim (whereto old new path) [
    | itself e m ↦ ap (moved new old) m ∙ (moved_itself new old ∙ sym e)
    | inside rest e m ↦ ap (moved new old) m ∙ (moved_inside new old rest ∙ sym e)
    | stays e f m ↦ ap (moved new old) m ∙ moved_else new old path h
  ]

  pub moved-ne-old : (path : Bytes) → has_prefix new old ≡ false → moved old new path ≢ old
  moved-ne-old path h same = elim (whereto old new path) [
    | itself e m ↦ not_place new old h (sym same ∙ m)
    | inside rest e m ↦ begins new (b'/' ∷ rest) old (sym same ∙ m) h
    | stays e f m ↦ e (sym m ∙ same)
  ]

  -- The text with another byte than a slash after it is not taken.
  pub moved-ne-meta :
      (path : Bytes) → has_prefix new path ≡ false → moved old new path ≢ new ++ dot_meta
  moved-ne-meta path h same = elim (whereto old new path) [
    | itself e m ↦ longer new b'.' _ (sym m ∙ same)
    | inside rest e m ↦ slash_or_point rest (
        sym (drop-length-append new (b'/' ∷ rest))
        ∙ (ap (drop (length new)) (sym m ∙ same) ∙ drop-length-append new dot_meta))
    | stays e f m ↦ begins new dot_meta path (sym m ∙ same) h
  ]

  -- What is at the new place.
  pub lookup-move_all :
      (s : Disk) → All (Clear new) s → lookup new (move_all old new s) ≡ lookup old s
  unfolding lookup move_all
  lookup-move_all [] all = refl
  lookup-move_all ((path, node) ∷ s) all = elim (whereto old new path) [
    | itself e m ↦ rw (m, eq_self new, (==_iff path old).1 e) refl
    | inside rest e m ↦
        rw
          (
            m,
            differ (new ++ (b'/' ∷ rest)) new (λ x. longer new b'/' rest (sym x)),
            differ path old (λ x. longer old b'/' rest (sym x ∙ e)),
          )
          (lookup-move_all s all.1)
    | stays e f m ↦
        rw (m, differ path new (not_place new path all.0), differ path old e)
          (lookup-move_all s all.1)
  ]

  pub move_all-move_all : (s : Disk) → All (Clear new) s → move_all new old (move_all old new s) ≡ s
  unfolding move_all
  move_all-move_all [] all = refl
  move_all-move_all ((path, node) ∷ s) all =
      rw (moved_back path all.0, move_all-move_all s all.1) refl
