-- ===== src/Files/Trash/Places.antt =====
-- The places in the trash of a pool that FileDelete of internal/storage/linux.go gives to files.
use mathlib.Core.List.{append_assoc, append-nil}
use kilasos.Common.{
  ℕ, ◌<◌, ◌≡◌, ◌≢◌, refl, sym, ap, ◌∙◌, subst, true, false, none, some, List, [], ◌∷◌, ◌++◌, length,
  length-append, ◌≤◌, ◌==◌, ==_iff, nat_eq, bytes_eq, Bool-cases, inl, inr, arith,
}
use kilasos.Common.Words.{replace_all}
use kilasos.Auth.Crypto.{Bytes}
use kilasos.Files.Paths.{mnt, mnt_name, has_prefix, has_dots, clean}
use kilasos.Files.Paths.Parts.{NoSlash, IsName, below}
use kilasos.Files.Pools.{has_forbidden, join_path}
use kilasos.Files.Pools.Inside.{root}
use kilasos.Files.Pools.Renames.{mnt-IsName, join_path_name, clean_new}
use kilasos.Files.Pools.Confined.{has_forbidden-NoSlash}
use kilasos.Files.Trash.{
  Node, Disk, Env, trash_base, rel_to_mnt, pool_mount, trash_name, trash_dir, trash_path,
  before_trash, file_delete, trash_restore,
}
use kilasos.Files.Trash.Moves.{has_prefix-append}
use kilasos.Files.Trash.Directories.{AsBefore}
use kilasos.Files.Trash.Roundtrip.{IsTrash, IsMovable}
use kilasos.Files.Trash.Returns.{comes_back}

-- "/mnt/tank/.kilasos-trash/name"
abbrev pub place : Bytes → Bytes → Bytes
place pool name = root pool ++ (b'/' ∷ (trash_base ++ (b'/' ∷ name)))

abbrev mark : Bytes
mark = b'/' ∷ (trash_base ++ (b'/' ∷ []))

pass_byte :
    (c : ℕ) (rest front : Bytes)
    → has_prefix mark (c ∷ rest) ≡ false
    → before_trash rest ≡ some front
    → before_trash (c ∷ rest) ≡ some (c ∷ front)
unfolding before_trash
pass_byte c rest front h e = rw (h, e) refl

differs : (c d : ℕ) → c ≢ d → (c == d) ≡ false
differs c d h = ground (arith, h)

no_slash_here : (c : ℕ) (rest : Bytes) → c ≢ b'/' → has_prefix mark (c ∷ rest) ≡ false
no_slash_here c rest h = rw (differs c b'/' h) refl

no_point_next : (c : ℕ) (rest : Bytes) → c ≢ b'.' → has_prefix mark (b'/' ∷ c ∷ rest) ≡ false
no_point_next c rest h = rw (differs c b'.' h) refl

-- What comes before the mark, where it has no slash.
before_trash_name :
    (name rest : Bytes) → NoSlash name → before_trash (name ++ (mark ++ rest)) ≡ some name
before_trash_name [] rest n = unfold before_trash in refl
before_trash_name (c ∷ name) rest n =
    pass_byte c (name ++ (mark ++ rest)) name (no_slash_here c (name ++ (mark ++ rest)) n.0)
      (before_trash_name name rest n.1)

before_trash-place :
    (c : ℕ) (pool name : Bytes)
    → NoSlash (c ∷ pool)
    → c ≢ b'.'
    → before_trash (place (c ∷ pool) name) ≡ some (root (c ∷ pool))
before_trash-place c pool name n h =
    let after = (c ∷ pool) ++ (mark ++ name) in
    let slash =
      pass_byte b'/' after (c ∷ pool) (no_point_next c (pool ++ (mark ++ name)) h)
        (before_trash_name (c ∷ pool) name n) in
    pass_byte b'/' (mnt_name ++ (b'/' ∷ after)) (mnt_name ++ (b'/' ∷ c ∷ pool)) refl (
      pass_byte b'm' _ (b'n' ∷ b't' ∷ b'/' ∷ c ∷ pool) refl (
        pass_byte b'n' _ (b't' ∷ b'/' ∷ c ∷ pool) refl
          (pass_byte b't' _ (b'/' ∷ c ∷ pool) refl slash)))

trash_base-IsName : IsName trash_base
trash_base-IsName = (
  ground arith,
  ground arith,
  ground arith,
  has_forbidden-NoSlash trash_base (unfold has_forbidden in refl),
)

place-below :
    (pool name : Bytes)
    → place pool name ≡ below (mnt_name ∷ pool ∷ trash_base ∷ []) ++ (b'/' ∷ name)
place-below pool name =
    ap (λ (x : Bytes). mnt ++ (b'/' ∷ x))
      (sym (append_assoc pool (b'/' ∷ trash_base) (b'/' ∷ name)))

clean-place :
    (pool name : Bytes) → IsName pool → IsName name → clean (place pool name) ≡ place pool name
clean-place pool name p n =
    ap clean (place-below pool name)
    ∙ (clean_new (mnt_name ∷ pool ∷ trash_base ∷ []) name (mnt-IsName, (p, (trash_base-IsName, tt)))
          n
        ∙ ap (λ (x : Bytes). root pool ++ (b'/' ∷ (trash_base ++ (b'/' ∷ x)))) (append-nil name))

trash_of_pool :
    (pool : Bytes)
    → IsName pool
    → join_path (root pool) trash_base ≡ root pool ++ (b'/' ∷ trash_base)
trash_of_pool pool p =
    ap (λ (x : Bytes). join_path (mnt ++ (b'/' ∷ x)) trash_base) (sym (append-nil pool))
    ∙ join_path_name mnt_name (pool ∷ []) trash_base (mnt-IsName, (p, tt)) trash_base-IsName

path_in_trash :
    (pool name : Bytes)
    → IsName pool
    → IsName name
    → join_path (root pool ++ (b'/' ∷ trash_base)) name ≡ place pool name
path_in_trash pool name p n =
    join_path_name mnt_name (pool ∷ trash_base ∷ []) name (mnt-IsName, (p, (trash_base-IsName, tt)))
      n
    ∙ ap (λ (x : Bytes). root pool ++ (b'/' ∷ (trash_base ++ (b'/' ∷ x)))) (append-nil name)

inside_trash :
    (pool name : Bytes)
    → IsName pool
    → has_prefix (join_path (root pool) trash_base) (place pool name) ≡ true
inside_trash pool name p = rw (trash_of_pool pool p) (
    subst (λ x. has_prefix (root pool ++ (b'/' ∷ trash_base)) x ≡ true)
      (append_assoc (root pool) (b'/' ∷ trash_base) (b'/' ∷ name))
      (has_prefix-append (root pool ++ (b'/' ∷ trash_base)) (b'/' ∷ name)))

-- A place in the trash of a pool is one that the restore takes.
pub place-IsTrash :
    (c : ℕ) (pool name : Bytes)
    → IsName (c ∷ pool)
    → c ≢ b'.'
    → IsName name
    → has_dots (place (c ∷ pool) name) ≡ false
    → IsTrash (place (c ∷ pool) name)
place-IsTrash c pool name p h n dots = record {
  mount = root (c ∷ pool);
  is_clean = clean-place (c ∷ pool) name p n;
  has_no_dots = dots;
  is_found = before_trash-place c pool name p.3 h;
  is_inside = inside_trash (c ∷ pool) name p;
}

place_longer :
    (pool name : Bytes) → length (root pool ++ (b'/' ∷ trash_base)) < length (place pool name)
place_longer pool name =
    let dir = root pool ++ (b'/' ∷ trash_base) in
    let cut : place pool name ≡ dir ++ (b'/' ∷ name) =
      sym (append_assoc (root pool) (b'/' ∷ trash_base) (b'/' ∷ name)) in
    omega (arith, ap length cut, length-append dir (b'/' ∷ name))

replace_all-NoSlash : (text : Bytes) → NoSlash (replace_all b'/' b'_' text)
unfolding replace_all
replace_all-NoSlash [] = tt
replace_all-NoSlash (c ∷ rest) = elim (Bool-cases (c == b'/')) [
  | inl e ↦ rw e (ground arith, replace_all-NoSlash rest)
  | inr e ↦ rw e (ground (arith, e, ==_iff c b'/'), replace_all-NoSlash rest)
]

append-NoSlash : (xs ys : Bytes) → NoSlash xs → NoSlash ys → NoSlash (xs ++ ys)
append-NoSlash [] ys n m = m
append-NoSlash (x ∷ xs) ys n m = (n.0, append-NoSlash xs ys n.1 m)

long-IsName : (name : Bytes) → 3 ≤ length name → NoSlash name → IsName name
long-IsName name size n = (
  λ e. omega (arith, size, ap length e),
  λ e. omega (arith, size, ap length e),
  λ e. omega (arith, size, ap length e),
  n,
)

-- Seconds in decimal digits.
abbrev pub IsStamp : Bytes → Type 0
IsStamp text = (2 ≤ length text) × NoSlash text

trash_name-IsName : (e : Env) (path : Bytes) → IsStamp e.unix → IsName (trash_name e path)
trash_name-IsName e path h =
    let rel = replace_all b'/' b'_' (rel_to_mnt path) in
    long-IsName (rel ++ (b'.' ∷ e.unix)) (omega (arith, length-append rel (b'.' ∷ e.unix), h.0)) (
      append-NoSlash rel (b'.' ∷ e.unix) (replace_all-NoSlash (rel_to_mnt path))
        (ground arith, h.1))

trash_path-place :
    (e : Env) (path : Bytes) (mounts : List Bytes) (pool : Bytes)
    → pool_mount path mounts ≡ root pool
    → IsName pool
    → IsStamp e.unix
    → trash_path e path mounts ≡ place pool (trash_name e path)
unfolding trash_path
trash_path-place e path mounts pool in_pool p h =
    ap (λ m. join_path (join_path m trash_base) (trash_name e path)) in_pool
    ∙ (ap (λ m. join_path m (trash_name e path)) (trash_of_pool pool p)
        ∙ path_in_trash pool (trash_name e path) p (trash_name-IsName e path h))

-- A file or a directory that is deleted comes back by a restore at any later time, if nothing else
-- changes the files in between. What it takes: the pools can be listed, and the first whose
-- directory it lies in is at /mnt with a name that begins with no point; the time has two digits or
-- more; neither its path nor its path in the trash has two points together; JSON keeps its path;
-- the meta file can be written, read and removed; its path in the trash lies not in what is deleted
-- and begins no path that is there, and the system allows the renames to it and back. Both calls
-- succeed, and afterwards every path holds what it held before, but for the directory of the trash
-- and those on the way to it, which were made where nothing was.
pub trash_restore-file_delete :
    (e d : Env) (text : Bytes) (c : ℕ) (pool : Bytes) (mounts : List Bytes) (node : Node) (s : Disk)
    → has_dots (clean text) ≡ false
    → has_prefix mnt (clean text) ≡ true
    → e.mounts ≡ some mounts
    → pool_mount (clean text) mounts ≡ root (c ∷ pool)
    → IsName (c ∷ pool)
    → c ≢ b'.'
    → IsStamp e.unix
    → e.meta_writable ≡ true
    → e.through_json (clean text) ≡ clean text
    → d.meta_readable ≡ true
    → d.can_remove ≡ true
    → has_dots (place (c ∷ pool) (trash_name e (clean text))) ≡ false
    → IsMovable e d (clean text) (place (c ∷ pool) (trash_name e (clean text))) node s
    → ((file_delete e text s).1 ≡ none)
      × ((trash_restore d (place (c ∷ pool) (trash_name e (clean text))) (file_delete e text s).0).1
          ≡ none)
      × ((p : Bytes)
          → AsBefore
              (root (c ∷ pool) ++ (b'/' ∷ trash_base))
              p
              s
              (trash_restore d
                (place (c ∷ pool) (trash_name e (clean text)))
                (file_delete e text s).0).0)
trash_restore-file_delete e d text c pool mounts node s dots under asked in_pool p h stamp writable
      same readable removable plainly movable =
    let path = clean text in
    let name = trash_name e path in
    let dir : trash_dir path mounts ≡ root (c ∷ pool) ++ (b'/' ∷ trash_base) =
      ap (λ m. join_path m trash_base) in_pool ∙ trash_of_pool (c ∷ pool) p in
    let back =
      comes_back e d text (place (c ∷ pool) name) mounts node s dots under asked writable same
        readable removable (trash_path-place e path mounts (c ∷ pool) in_pool p stamp)
        (subst (λ x. length x < length (place (c ∷ pool) name)) (sym dir)
          (place_longer (c ∷ pool) name))
        (place-IsTrash c pool name p h (trash_name-IsName e path stamp) plainly) movable in
    (
      back.0,
      back.1,
      λ q.
          subst
            (λ x.
              AsBefore x q s (trash_restore d (place (c ∷ pool) name) (file_delete e text s).0).0)
            dir (back.2 q),
    )
