-- ===== src/Files/Paths/Parts.antt =====
-- The parts that a path of internal/api/files.go is cut into, and the stack of filepath.Clean.
use mathlib.Core.List.{reverse, reverse-cons, append_assoc, append-nil}
use kilasos.Common.{
  ℕ, ◌≡◌, refl, sym, ap, ◌∙◌, ◌≢◌, Bool, false, not, ◌||◌, List, [], ◌∷◌, ◌++◌, keep, All, All-keep,
  ◌==◌, ==_iff, nat_eq, bytes_eq, if◌then◌else◌, Bool-cases, inl, inr, arith,
}
use kilasos.Auth.Crypto.{Bytes}
use kilasos.Files.Paths.{dot, dot_dot, has_dots, push_byte, split, add_part, add_parts, join_parts}

abbrev pub NoSlash : Bytes → Type 0
NoSlash [] = Unit
NoSlash (c ∷ rest) = (c ≢ b'/') × NoSlash rest

-- A name that a directory can hold.
abbrev pub IsName : Bytes → Type 0
IsName part = (part ≢ []) × (part ≢ dot) × (part ≢ dot_dot) × NoSlash part

-- "/a/b" for the parts "a" and "b"
abbrev pub below : List Bytes → Bytes
below [] = []
below (part ∷ parts) = b'/' ∷ (part ++ below parts)

abbrev pub is_plain : Bytes → Bool
is_plain part = not (part == [] || part == dot)

push_byte-NoSlash :
    (c : ℕ) (parts : List Bytes) → c ≢ b'/' → All NoSlash parts → All NoSlash (push_byte c parts)
push_byte-NoSlash c [] h all = ((h, tt), tt)
push_byte-NoSlash c (part ∷ parts) h all = ((h, all.0), all.1)

pub split-NoSlash : (path : Bytes) → All NoSlash (split path)
unfolding split
split-NoSlash [] = (tt, tt)
split-NoSlash (c ∷ rest) = elim (Bool-cases (c == b'/')) [
  | inl e ↦ rw e (tt, split-NoSlash rest)
  | inr e ↦
      rw e (push_byte-NoSlash c (split rest) (ground (arith, ==_iff c b'/')) (split-NoSlash rest))
]

-- A part of a text without ".." holds none.
abbrev pub Undotted : Bytes → Type 0
Undotted part = has_dots part ≡ false

has_dots_tail : (c : ℕ) (rest : Bytes) → Undotted (c ∷ rest) → Undotted rest
unfolding has_dots
has_dots_tail c [] h = refl
has_dots_tail c (d ∷ rest) h = ground arith

push_byte-push_byte :
    (c d : ℕ) (rest : Bytes) (parts : List Bytes)
    → Undotted (c ∷ d ∷ rest)
    → All Undotted (push_byte d parts)
    → All Undotted (push_byte c (push_byte d parts))
unfolding has_dots
push_byte-push_byte c d rest [] h all = (ground arith, tt)
push_byte-push_byte c d rest (part ∷ parts) h all = (ground (arith, all.0), all.1)

push_byte-Undotted :
    (c : ℕ) (rest : Bytes)
    → Undotted (c ∷ rest)
    → All Undotted (split rest)
    → All Undotted (push_byte c (split rest))
unfolding split
push_byte-Undotted c [] h all = (unfold has_dots in refl, tt)
push_byte-Undotted c (d ∷ rest) h all = elim (Bool-cases (d == b'/')) [
  | inl e ↦ rw e (unfold has_dots in refl, (rw e at all).1)
  | inr e ↦ rw e (push_byte-push_byte c d rest (split rest) h (rw e at all))
]

pub split-Undotted : (path : Bytes) → Undotted path → All Undotted (split path)
unfolding split
split-Undotted [] h = (h, tt)
split-Undotted (c ∷ rest) h = elim (Bool-cases (c == b'/')) [
  | inl e ↦ rw e (unfold has_dots in refl, split-Undotted rest (has_dots_tail c rest h))
  | inr e ↦ rw e (push_byte-Undotted c rest h (split-Undotted rest (has_dots_tail c rest h)))
]

pub not-dot_dot : (part : Bytes) → Undotted part → part ≢ dot_dot
unfolding has_dots
not-dot_dot part h e = ground arith

-- Without "..", the stack is the plain parts in order.
add_part-Undotted :
    (rooted : Bool) (stack : List Bytes) (part : Bytes)
    → Undotted part
    → add_part rooted stack part ≡ (if is_plain part then part ∷ stack else stack)
unfolding add_part
add_part-Undotted rooted stack part h = ground (arith, ==_iff part dot_dot, not-dot_dot part h)

pub reverse-add_parts :
    (rooted : Bool) (stack parts : List Bytes)
    → All Undotted parts
    → reverse (add_parts rooted stack parts) ≡ reverse stack ++ keep is_plain parts
unfolding add_parts keep
reverse-add_parts rooted stack [] all = sym (append-nil _)
reverse-add_parts rooted stack (part ∷ parts) all = elim (Bool-cases (is_plain part)) [
  | inl e ↦
      rw (add_part-Undotted rooted stack part all.0, e)
        (reverse-add_parts rooted (part ∷ stack) parts all.1 ∙ (simp (reverse-cons, append_assoc)))
  | inr e ↦
      rw (add_part-Undotted rooted stack part all.0, e) (reverse-add_parts rooted stack parts all.1)
]

pub join_parts-below :
    (part : Bytes) (parts : List Bytes) → b'/' ∷ join_parts (part ∷ parts) ≡ below (part ∷ parts)
unfolding join_parts
join_parts-below part [] = ap (λ (x : Bytes). b'/' ∷ x) (sym (append-nil part))
join_parts-below part (next ∷ parts) =
    ap (λ (x : Bytes). b'/' ∷ (part ++ x)) (join_parts-below next parts)

-- The names in a path that does not go up.
pub names-IsName : (path : Bytes) → Undotted path → All IsName (keep is_plain (split path))
names-IsName path h =
    All-keep (λ p. NoSlash p × Undotted p) IsName is_plain (split path)
      (λ p e all.
        (ground (arith, ==_iff p []), ground (arith, ==_iff p dot), not-dot_dot p all.1, all.0))
      (All-both (split path) (split-NoSlash path) (split-Undotted path h))
  where
    All-both :
        (parts : List Bytes)
        → All NoSlash parts
        → All Undotted parts
        → All (λ p. NoSlash p × Undotted p) parts
    All-both [] h k = tt
    All-both (p ∷ parts) h k = ((h.0, k.0), All-both parts h.1 k.1)
