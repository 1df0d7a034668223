-- ===== src/Files/Trash/Directories.antt =====
-- The directories that os.MkdirAll makes for internal/storage/linux.go, and paths that are not there.
use mathlib.Core.List.{append_assoc, append-nil}
use kilasos.Common.{
  ℕ, ◌<◌, ◌≡◌, ◌≢◌, ◌⊎◌, refl, sym, ap, ◌∙◌, subst, true, false, not, ◌&&◌, none, some, List, [],
  ◌∷◌, ◌++◌, lookup, insert, delete, lookup-insert, length, drop, length-append, All, All-insert,
  ◌==◌, ==_iff, bytes_eq, nat_eq, if_case, option_case, Bool-cases, inl, inr, arith,
}
use kilasos.Auth.Crypto.{Bytes}
use kilasos.Files.Paths.{has_prefix}
use kilasos.Files.Pools.Inside.{has_prefix_means}
use kilasos.Files.Trash.{
  Node, directory, is_directory, Disk, Env, moved, move_all, way_to, make_dirs,
}
use kilasos.Files.Trash.Moves.{has_prefix-append, differ}

-- Nothing is at the path.
abbrev pub Absent : Bytes → Bytes × Node → Type 0
Absent path x = x.0 ≢ path

module _ (path : Bytes) where
  pub lookup-Absent : (s : Disk) → All (Absent path) s → lookup path s ≡ none
  unfolding lookup
  lookup-Absent [] all = refl
  lookup-Absent ((p, node) ∷ s) all = rw (differ p path all.0) (lookup-Absent s all.1)

  pub delete-Absent : (s : Disk) → All (Absent path) s → delete path s ≡ s
  unfolding delete
  delete-Absent [] all = refl
  delete-Absent ((p, node) ∷ s) all = rw (differ p path all.0, delete-Absent s all.1) refl

  -- What is put where nothing is, and taken away, leaves things as they were.
  pub delete-insert :
      (node : Node) (s : Disk) → All (Absent path) s → delete path (insert path node s) ≡ s
  unfolding delete insert
  delete-insert node [] all = ground (arith, (==_iff path path).1 refl)
  delete-insert node ((p, other) ∷ s) all =
      rw (differ p path all.0) (rw (differ p path all.0, delete-insert node s all.1) refl)

  -- A move that does not touch the path goes past it.
  pub move_all-insert :
      (old new : Bytes) (node : Node) (s : Disk)
      → All (Absent path) s
      → moved old new path ≡ path
      → All (Absent path) (move_all old new s)
      → move_all old new (insert path node s) ≡ insert path node (move_all old new s)
  unfolding insert move_all
  move_all-insert old new node [] all same all' = rw same refl
  move_all-insert old new node ((p, other) ∷ s) all same all' = rw (differ p path all.0) (
      rw (differ (moved old new p) path all'.0, move_all-insert old new node s all.1 same all'.1)
        refl)

-- A directory is on the way to `dir`, or is `dir` itself.
abbrev pub IsOnWay : Bytes → Bytes → Type 0
IsOnWay d dir = has_prefix (d ++ (b'/' ∷ [])) (dir ++ (b'/' ∷ [])) ≡ true

-- Where a slash follows, what was read of a path is on its way.
front-IsOnWay : (front rest : Bytes) → IsOnWay front (front ++ (b'/' ∷ rest))
front-IsOnWay front rest =
    subst (λ x. has_prefix (front ++ (b'/' ∷ [])) x ≡ true)
      (append_assoc front (b'/' ∷ []) (rest ++ (b'/' ∷ []))
        ∙ sym (append_assoc front (b'/' ∷ rest) (b'/' ∷ [])))
      (has_prefix-append (front ++ (b'/' ∷ [])) (rest ++ (b'/' ∷ [])))

self-IsOnWay : (dir : Bytes) → IsOnWay dir dir
self-IsOnWay dir =
    subst (λ x. has_prefix (dir ++ (b'/' ∷ [])) x ≡ true) (append-nil (dir ++ (b'/' ∷ [])))
      (has_prefix-append (dir ++ (b'/' ∷ [])) [])

emitted :
    (front rest : Bytes) (c : ℕ)
    → (c == b'/' && not (front == [])) ≡ true
    → IsOnWay front (front ++ (c ∷ rest))
emitted front rest c e =
    let slash : c ≡ b'/' = ground (arith, e, ==_iff c b'/') in
    subst (λ x. IsOnWay front (front ++ (x ∷ rest))) (sym slash) (front-IsOnWay front rest)

-- Every directory that is made is on the way.
pub way_to-IsOnWay : (front rest : Bytes) → All (λ d. IsOnWay d (front ++ rest)) (way_to front rest)
unfolding way_to
way_to-IsOnWay front [] =
    (subst (λ x. IsOnWay front x) (sym (append-nil front)) (self-IsOnWay front), tt)
way_to-IsOnWay front (c ∷ rest) =
    let step =
      subst (λ x. All (λ d. IsOnWay d x) (way_to (front ++ (c ∷ [])) rest))
        (append_assoc front (c ∷ []) rest) (way_to-IsOnWay (front ++ (c ∷ [])) rest) in
    if_case (All (λ d. IsOnWay d (front ++ (c ∷ rest)))) (c == b'/' && not (front == []))
      (front ∷ way_to (front ++ (c ∷ [])) rest) (way_to (front ++ (c ∷ [])) rest)
      (λ e. (emitted front rest c e, step)) (λ _. step)

-- A longer path is no beginning of one of them.
pub prefix-short :
    (d dir place : Bytes) → IsOnWay d dir → length dir < length place → has_prefix place d ≡ false
prefix-short d dir place h short = elim (Bool-cases (has_prefix place d)) [
  | inl e ↦ absurd (
      omega (
        arith,
        short,
        ap length (has_prefix_means (d ++ (b'/' ∷ [])) (dir ++ (b'/' ∷ [])) h),
        length-append (d ++ (b'/' ∷ [])) (drop (length (d ++ (b'/' ∷ []))) (dir ++ (b'/' ∷ []))),
        length-append d (b'/' ∷ []),
        length-append dir (b'/' ∷ []),
        ap length (has_prefix_means place d e),
        length-append place (drop (length place) d),
      ))
  | inr e ↦ e
]

module _ (e : Env) where
  pub make_dirs-All :
      (P : Bytes × Node → Type 0) (dirs : List Bytes) (s : Disk)
      → All (λ d. P (d, directory)) dirs
      → All P s
      → All P (make_dirs e dirs s)
  unfolding make_dirs
  make_dirs-All P [] s new all = all
  make_dirs-All P (d ∷ dirs) s new all =
      option_case (All P) (lookup d s) _ _
        (λ _.
          if_case (All P) (e.can_make d) _ s
            (λ _.
              make_dirs-All P dirs (insert d directory s) new.1
                (All-insert P d directory s new.0 all))
            (λ _. all))
        (λ node _.
          if_case (All P) (is_directory node) _ s (λ _. make_dirs-All P dirs s new.1 all)
            (λ _. all))

-- A path holds what it held, or is a directory on the way to `dir` that was not there.
abbrev pub AsBefore : Bytes → Bytes → Disk → Disk → Type 0
AsBefore dir p s t =
    (lookup p t ≡ lookup p s)
    ⊎ (IsOnWay p dir × (lookup p s ≡ none) × (lookup p t ≡ some directory))

after_insert :
    (dir d p : Bytes) (s t : Disk)
    → IsOnWay d dir
    → lookup d s ≡ none
    → AsBefore dir p (insert d directory s) t
    → AsBefore dir p s t
after_insert dir d p s t h free before = elim (Bool-cases (d == p)) [
  | inl e ↦
      let same : d ≡ p = (==_iff d p).0 e in
      let put : lookup p (insert d directory s) ≡ some directory =
        rw e at (lookup-insert d p directory s) in
      elim before [
        | inl b ↦
            inr
              (subst (λ x. IsOnWay x dir) same h, subst (λ x. lookup x s ≡ none) same free, b ∙ put)
        | inr (pre, nothing, b) ↦ absurd (ground (arith, sym put ∙ nothing))
      ]
  | inr e ↦
      let put : lookup p (insert d directory s) ≡ lookup p s =
        rw e at (lookup-insert d p directory s) in
      elim before [
        | inl b ↦ inl (b ∙ put)
        | inr (pre, nothing, b) ↦ inr (pre, sym put ∙ nothing, b)
      ]
]

pub make_dirs-AsBefore :
    (e : Env) (dir p : Bytes) (dirs : List Bytes) (s : Disk)
    → All (λ d. IsOnWay d dir) dirs
    → AsBefore dir p s (make_dirs e dirs s)
unfolding make_dirs
make_dirs-AsBefore e dir p [] s all = inl refl
make_dirs-AsBefore e dir p (d ∷ dirs) s all =
    option_case (AsBefore dir p s) (lookup d s) _ _
      (λ free.
        if_case (AsBefore dir p s) (e.can_make d) _ s
          (λ _.
            after_insert dir d p s _ all.0 free
              (make_dirs-AsBefore e dir p dirs (insert d directory s) all.1))
          (λ _. inl refl))
      (λ node _.
        if_case (AsBefore dir p s) (is_directory node) _ s
          (λ _. make_dirs-AsBefore e dir p dirs s all.1) (λ _. inl refl))
