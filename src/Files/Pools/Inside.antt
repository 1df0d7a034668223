-- ===== src/Files/Pools/Inside.antt =====
-- Where the paths lie that resolvePoolPath of internal/api/router.go gives.
use mathlib.Core.List.{append_assoc, append-nil}
use mathlib.Core.Option.{some-injective}
use kilasos.Common.{
  ℕ, ◌≡◌, ◌⊎◌, refl, sym, ap, ◌∙◌, subst, Bool, true, false, not, ◌&&◌, ◌||◌, none, some, List, [],
  ◌∷◌, ◌++◌, All, length, take, drop, take-append-drop, keep, ◌==◌, ==_iff, nat_eq, bytes_eq,
  if◌then◌else◌, Bool-cases, inl, inr, arith,
}
use kilasos.Auth.Crypto.{Bytes}
use kilasos.Files.Paths.{mnt, mnt_name, has_prefix, has_dots, split, is_rooted, clean, join_parts}
use kilasos.Files.Paths.Parts.{NoSlash, IsName, Undotted, below, join_parts-below, is_plain}
use kilasos.Files.Paths.Containment.{names, clean-Undotted}
use kilasos.Files.Pools.{has_special, join_path, resolve_pool_path}
use kilasos.Files.Pools.Names.{IsClean, clean-IsClean, name_first, split_whole, tail_eq}

-- "/mnt/tank" for "tank"
abbrev pub root : Bytes → Bytes
root pool = mnt ++ (b'/' ∷ pool)

-- The pool's directory, or a name below it.
pub record IsInPool (pool path : Bytes) : Type 0 where
  pub parts : List Bytes
  pub are_names : All IsName parts
  pub is_below : path ≡ root pool ++ below parts

has_special-NoSlash : (pool : Bytes) → has_special pool ≡ false → NoSlash pool
unfolding has_special
has_special-NoSlash [] h = tt
has_special-NoSlash (c ∷ rest) h =
    (ground (arith, ==_iff c b'/'), has_special-NoSlash rest (ground arith))

has_special-Undotted : (pool : Bytes) → has_special pool ≡ false → Undotted pool
unfolding has_special has_dots
has_special-Undotted [] h = refl
has_special-Undotted (c ∷ []) h = refl
has_special-Undotted (c ∷ d ∷ rest) h =
    ground (arith, has_special-Undotted (d ∷ rest) (ground arith))

mnt-Undotted : (pool : Bytes) → Undotted pool → Undotted (root pool)
unfolding has_dots
mnt-Undotted [] h = refl
mnt-Undotted (c ∷ rest) h = ground arith

pool-is_plain : (c : ℕ) (rest : Bytes) → has_special (c ∷ rest) ≡ false → is_plain (c ∷ rest) ≡ true
unfolding has_special
pool-is_plain c rest s = ground (arith, s)

names_of_root :
    (c : ℕ) (rest : Bytes)
    → has_special (c ∷ rest) ≡ false
    → names (root (c ∷ rest)) ≡ mnt_name ∷ (c ∷ rest) ∷ []
unfolding split keep
names_of_root c rest s =
    rw (split_whole (c ∷ rest) (has_special-NoSlash (c ∷ rest) s), pool-is_plain c rest s) refl

base_lem :
    (pool : Bytes)
    → (pool == []) ≡ false
    → has_special pool ≡ false
    → join_path mnt pool ≡ root pool
unfolding join_path
base_lem [] h s = absurd (ground arith)
base_lem (c ∷ rest) h s =
    clean-Undotted (root (c ∷ rest)) (mnt-Undotted (c ∷ rest) (has_special-Undotted (c ∷ rest) s))
    ∙ (rw (names_of_root c rest s) (unfold join_parts in refl))

join_path-is_rooted : (pool rel : Bytes) → is_rooted (join_path (root pool) rel) ≡ true
unfolding join_path
join_path-is_rooted pool [] = ap is_rooted ((clean-IsClean (root pool) refl).is_text)
join_path-is_rooted pool (c ∷ rest) =
    ap is_rooted ((clean-IsClean (root pool ++ (b'/' ∷ c ∷ rest)) refl).is_text)

pub has_prefix_means :
    (front path : Bytes) → has_prefix front path ≡ true → path ≡ front ++ drop (length front) path
has_prefix_means front path h =
    sym (take-append-drop (length front) path)
    ∙ ap (λ (x : Bytes). x ++ drop (length front) path)
        ((==_iff (take (length front) path) front).0 h)

mnt-NoSlash : NoSlash mnt_name
mnt-NoSlash = (ground arith, (ground arith, (ground arith, tt)))

-- Names that make a path below the pool's directory begin with those of the directory.
below_pool :
    (pool : Bytes) (parts : List Bytes) (rest : Bytes)
    → NoSlash pool
    → All IsName parts
    → below parts ≡ root pool ++ (b'/' ∷ rest)
    → IsInPool pool (below parts)
below_pool pool [] rest n all h = absurd (ground (arith, h))
below_pool pool (part ∷ []) rest n all h =
    let (first, more) =
      name_first mnt_name part [] (pool ++ (b'/' ∷ rest)) mnt-NoSlash all.0.3 (tail_eq h) in
    absurd (ground (arith, more))
below_pool pool (part ∷ next ∷ parts) rest n all h =
    let (first, more) =
      name_first mnt_name part (next ∷ parts) (pool ++ (b'/' ∷ rest)) mnt-NoSlash all.0.3
        (tail_eq h) in
    let (second, others) = name_first pool next parts rest n all.1.0.3 (tail_eq more) in
    record {
      parts = parts;
      are_names = all.1.1;
      is_below =
          ap (λ (x : Bytes). b'/' ∷ (x ++ (b'/' ∷ (next ++ below parts)))) first
          ∙ ap (λ (x : Bytes). mnt ++ (b'/' ∷ (x ++ below parts))) second;
    }

names-IsInPool :
    (pool : Bytes) (parts : List Bytes) (path rest : Bytes)
    → NoSlash pool
    → All IsName parts
    → path ≡ b'/' ∷ join_parts parts
    → path ≡ root pool ++ (b'/' ∷ rest)
    → IsInPool pool path
names-IsInPool pool [] path rest n all e h = absurd (unfold join_parts in ground (arith, h, e))
names-IsInPool pool (part ∷ parts) path rest n all e h =
    let text = e ∙ join_parts-below part parts in
    subst (IsInPool pool) (sym text) (below_pool pool (part ∷ parts) rest n all (sym text ∙ h))

clean-IsInPool :
    (pool path rest : Bytes)
    → NoSlash pool
    → IsClean path
    → path ≡ root pool ++ (b'/' ∷ rest)
    → IsInPool pool path
clean-IsInPool pool path rest n c h =
    names-IsInPool pool c.parts path rest n c.are_names c.is_text h

-- A path that begins with the pool's directory and a slash.
prefix-IsInPool :
    (pool path : Bytes)
    → NoSlash pool
    → IsClean path
    → has_prefix (root pool ++ (b'/' ∷ [])) path ≡ true
    → IsInPool pool path
prefix-IsInPool pool path n c h =
    let front = root pool ++ (b'/' ∷ []) in
    clean-IsInPool pool path (drop (length front) path) n c (
      has_prefix_means front path h
      ∙ append_assoc (root pool) (b'/' ∷ []) (drop (length front) path))

root-IsInPool : (pool path : Bytes) → path ≡ root pool → IsInPool pool path
root-IsInPool pool path e = record {
  parts = [];
  are_names = tt;
  is_below = e ∙ sym (append-nil (root pool));
}

-- What resolvePoolPath gives: the directory of the pool, and a path in it.
abbrev pub Inside : Bytes → Bytes × Bytes → Type 0
Inside pool at = IsInPool pool at.0 × (at.1 ≡ root pool) × IsName pool

checked-IsInPool :
    (pool rel : Bytes)
    → NoSlash pool
    → (clean (join_path (root pool) rel) == root pool) ≡ true
      ⊎ has_prefix (root pool ++ (b'/' ∷ [])) (clean (join_path (root pool) rel)) ≡ true
    → IsInPool pool (clean (join_path (root pool) rel))
checked-IsInPool pool rel n (inl e) = root-IsInPool pool _ ((==_iff _ _).0 e)
checked-IsInPool pool rel n (inr e) =
    prefix-IsInPool pool _ n
      (clean-IsClean (join_path (root pool) rel) (join_path-is_rooted pool rel)) e

special_free :
    (pool : Bytes)
    → (pool == [] || has_special pool) ≡ false
    → ((pool == []) ≡ false) × (has_special pool ≡ false)
special_free pool e = (ground arith, ground arith)

pool-IsName : (pool : Bytes) → (pool == []) ≡ false → has_special pool ≡ false → IsName pool
unfolding has_special
pool-IsName [] e s = absurd (ground arith)
pool-IsName (c ∷ rest) e s =
    (ground arith, ground (arith, s), ground (arith, s), has_special-NoSlash (c ∷ rest) s)

tested :
    (same starts : Bool) (at got : Bytes × Bytes)
    → (if not same && not starts then none else some at) ≡ some got
    → ((same ≡ true) ⊎ (starts ≡ true)) × (at ≡ got)
tested true starts at got h = (inl refl, some-injective at got h)
tested false true at got h = (inr refl, some-injective at got h)
tested false false at got h = absurd (ground arith)

pub resolve_pool_path-Inside :
    (pool rel : Bytes) (at : Bytes × Bytes) → resolve_pool_path pool rel ≡ some at → Inside pool at
unfolding resolve_pool_path
resolve_pool_path-Inside pool rel at h = elim (Bool-cases (pool == [] || has_special pool)) [
  | inl e ↦ absurd (ground (arith, e))
  | inr e ↦
      let s = special_free pool e in
      let abs = clean (join_path (root pool) rel) in
      let (where_at, is_at) =
        tested (abs == root pool) (has_prefix (root pool ++ (b'/' ∷ [])) abs) (abs, root pool) at
          (rw (e, base_lem pool s.0 s.1) at h) in
      subst (Inside pool) is_at (
        checked-IsInPool pool rel (has_special-NoSlash pool s.1) where_at,
        refl,
        pool-IsName pool s.0 s.1,
      )
]
