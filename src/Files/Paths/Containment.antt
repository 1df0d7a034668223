-- ===== src/Files/Paths/Containment.antt =====
-- What safePath in internal/api/files.go is good for: an accepted path stays under /mnt.
use kilasos.Common.{
  ◌≡◌, refl, sym, ap, ◌∙◌, ◌≢◌, Bool, true, false, ◌||◌, List, [], ◌∷◌, ◌++◌, keep, All, All-imp,
  ◌==◌, nat_eq, bytes_eq, Bool-cases, inl, inr, arith,
}
use kilasos.Auth.Crypto.{Bytes}
use kilasos.Files.Paths.{
  dot_dot, mnt, mnt_name, mnt_slash, has_prefix, split, is_rooted, join_parts, written, clean,
  safe_path,
}
use kilasos.Files.Paths.Parts.{
  NoSlash, IsName, below, is_plain, Undotted, split-Undotted, not-dot_dot, reverse-add_parts,
  join_parts-below, names-IsName,
}

abbrev pub names : Bytes → List Bytes
names path = keep is_plain (split path)

pub clean-Undotted :
    (path : Bytes) → Undotted path → clean path ≡ written (is_rooted path) (names path)
unfolding clean
clean-Undotted path h =
    ap (written (is_rooted path))
      (reverse-add_parts (is_rooted path) [] (split path) (split-Undotted path h))

abbrev is_accepted : Bytes → Bool
is_accepted path = path == mnt || has_prefix mnt_slash path

accepted-is_rooted : (path : Bytes) → is_accepted path ≡ true → is_rooted path ≡ true
accepted-is_rooted [] h = ground arith
accepted-is_rooted (c ∷ rest) h = ground arith

written_relative : (parts : List Bytes) → All IsName parts → is_rooted (written false parts) ≡ false
unfolding join_parts
written_relative [] all = refl
written_relative ([] ∷ parts) all = absurd (all.0.0 refl)
written_relative ((c ∷ part) ∷ []) all = ground arith
written_relative ((c ∷ part) ∷ next ∷ parts) all = ground arith

first_name :
    (part : Bytes) (parts : List Bytes)
    → NoSlash part
    → is_accepted (b'/' ∷ (part ++ below parts)) ≡ true
    → part ≡ mnt_name
first_name [] [] n h = ground arith
first_name [] (q ∷ parts) n h = ground arith
first_name (a ∷ []) [] n h = ground arith
first_name (a ∷ []) (q ∷ parts) n h = ground arith
first_name (a ∷ b ∷ []) [] n h = ground arith
first_name (a ∷ b ∷ []) (q ∷ parts) n h = ground arith
first_name (a ∷ b ∷ c ∷ []) parts n h = ground arith
first_name (a ∷ b ∷ c ∷ d ∷ part) parts n h = ground arith

-- What an accepted path is: `parts` are the names below /mnt.
pub record IsUnderMnt (path : Bytes) : Type 0 where
  pub parts : List Bytes
  pub are_names : All IsName parts
  pub starts_at_root : is_rooted path ≡ true
  pub never_goes_up : All (λ part. part ≢ dot_dot) (split path)
  pub walked : names path ≡ mnt_name ∷ parts
  pub cleaned : clean path ≡ mnt ++ below parts

IsUnderMnt-of_parts :
    (path : Bytes) (parts : List Bytes)
    → Undotted path
    → is_rooted path ≡ true
    → names path ≡ parts
    → All IsName parts
    → is_accepted (written true parts) ≡ true
    → IsUnderMnt path
IsUnderMnt-of_parts path [] h r e all ok = absurd (unfold join_parts in ground arith)
IsUnderMnt-of_parts path (part ∷ parts) h r e all ok =
    let first =
      first_name part parts all.0.3 (ap is_accepted (sym (join_parts-below part parts)) ∙ ok) in
    record {
      parts = parts;
      are_names = all.1;
      starts_at_root = r;
      never_goes_up =
          All-imp Undotted (λ p. p ≢ dot_dot) (split path) not-dot_dot (split-Undotted path h);
      walked = e ∙ ap (λ (p : Bytes). p ∷ parts) first;
      cleaned =
          clean-Undotted path h
          ∙ (rw (r, e)
              (join_parts-below part parts ∙ ap (λ (p : Bytes). b'/' ∷ (p ++ below parts)) first));
    }

safe_path_means :
    (path : Bytes) → safe_path path ≡ true → Undotted path × (is_accepted (clean path) ≡ true)
unfolding safe_path
safe_path_means path h = (ground arith, ground arith)

-- A path that safePath accepts starts at the root, and none of its parts goes up. Its names, in
-- order, begin with "mnt", and the cleaned path is "/mnt" with the other names below it, each of
-- them a name that a directory can hold.
pub safe_path-IsUnderMnt : (path : Bytes) → safe_path path ≡ true → IsUnderMnt path
safe_path-IsUnderMnt path ok =
    let (h, accepted) = safe_path_means path ok in
    let at = clean-Undotted path h in
    elim (Bool-cases (is_rooted path)) [
      | inl r ↦
          IsUnderMnt-of_parts path (names path) h r refl (names-IsName path h)
            (ap is_accepted (sym (rw r at at)) ∙ accepted)
      | inr r ↦ absurd (
          cc (
            accepted-is_rooted (clean path) accepted,
            rw r at at,
            written_relative (names path) (names-IsName path h),
          ))
    ]
