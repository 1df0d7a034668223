-- ===== src/Files/Pools/Names.antt =====
-- What filepath.Clean makes of a path from the root, for the files of a pool.
use mathlib.Core.List.{reverse, reverse-cons}
use kilasos.Common.{
  ◌≡◌, refl, true, ◌||◌, List, [], ◌∷◌, ◌++◌, All, All-append, ◌==◌, ==_iff, nat_eq, bytes_eq,
  if_case, arith,
}
use kilasos.Auth.Crypto.{Bytes}
use kilasos.Files.Paths.{
  dot, dot_dot, split, go_up, add_part, add_parts, is_rooted, clean, join_parts,
}
use kilasos.Files.Paths.Parts.{NoSlash, IsName, split-NoSlash, below}

All-reverse {ℓ κ} : {A : Type ℓ} (P : A → Type κ) (xs : List A) → All P xs → All P (reverse xs)
All-reverse P [] h = tt
All-reverse P (x ∷ xs) h =
    rw (reverse-cons x xs) (All-append P (reverse xs) (x ∷ []) (All-reverse P xs h.1) (h.0, tt))

-- From the root, the stack holds names only.
go_up-IsName : (stack : List Bytes) → All IsName stack → All IsName (go_up true stack)
unfolding go_up
go_up-IsName [] h = tt
go_up-IsName (part ∷ stack) h = ground (arith, ==_iff part dot_dot)

add_part-IsName :
    (stack : List Bytes) (part : Bytes)
    → All IsName stack
    → NoSlash part
    → All IsName (add_part true stack part)
unfolding add_part
add_part-IsName stack part h n =
    if_case (All IsName) (part == [] || part == dot) stack _ (λ _. h)
      (λ e.
        if_case (All IsName) (part == dot_dot) (go_up true stack) (part ∷ stack)
          (λ _. go_up-IsName stack h)
          (λ e'. (
            (
              ground (arith, e, ==_iff part []),
              ground (arith, e, ==_iff part dot),
              ground (arith, e', ==_iff part dot_dot),
              n,
            ),
            h,
          )))

add_parts-IsName :
    (stack parts : List Bytes)
    → All IsName stack
    → All NoSlash parts
    → All IsName (add_parts true stack parts)
unfolding add_parts
add_parts-IsName stack [] h n = h
add_parts-IsName stack (part ∷ parts) h n =
    add_parts-IsName (add_part true stack part) parts (add_part-IsName stack part h n.0) n.1

-- A cleaned path from the root is its names, one below the other.
pub record IsClean (path : Bytes) : Type 0 where
  pub parts : List Bytes
  pub are_names : All IsName parts
  pub is_text : path ≡ b'/' ∷ join_parts parts

pub clean-IsClean : (path : Bytes) → is_rooted path ≡ true → IsClean (clean path)
unfolding clean
clean-IsClean path r = record {
  parts = reverse (add_parts true [] (split path));
  are_names =
      All-reverse IsName (add_parts true [] (split path))
        (add_parts-IsName [] (split path) tt (split-NoSlash path));
  is_text = rw r refl;
}

cons_eq {ℓ} : {A : Type ℓ} {x y : A} {xs ys : List A} → x ∷ xs ≡ y ∷ ys → (x ≡ y) × (xs ≡ ys)
cons_eq h = (cc, cc)

-- A name and what follows it are told apart by the slash.
pub name_first :
    (name part : Bytes) (parts : List Bytes) (rest : Bytes)
    → NoSlash name
    → NoSlash part
    → part ++ below parts ≡ name ++ (b'/' ∷ rest)
    → (part ≡ name) × (below parts ≡ b'/' ∷ rest)
name_first [] [] parts rest n m h = (refl, h)
name_first [] (d ∷ part) parts rest n m h = absurd (m.0 (ground (arith, h)))
name_first (c ∷ name) [] [] rest n m h = absurd (ground (arith, h))
name_first (c ∷ name) [] (p ∷ parts) rest n m h = absurd (n.0 (ground (arith, h)))
name_first (c ∷ name) (d ∷ part) parts rest n m h =
    let (heads, tails) = cons_eq h in
    let (first, others) = name_first name part parts rest n.1 m.1 tails in (cc, others)

pub split_whole : (name : Bytes) → NoSlash name → split name ≡ name ∷ []
unfolding split
split_whole [] h = refl
split_whole (c ∷ rest) h = ground (arith, ==_iff c b'/', h.0, split_whole rest h.1)

pub tail_eq {ℓ} : {A : Type ℓ} {c : A} {x y : List A} → c ∷ x ≡ c ∷ y → x ≡ y
tail_eq h = cc
