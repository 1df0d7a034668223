-- ===== src/Files/Trash/Returns.antt =====
-- FileDelete of internal/storage/linux.go, with the directory of the trash, and TrashRestore after it.
use kilasos.Common.{
  ◌<◌, ◌≡◌, refl, sym, ap, ◌∙◌, subst, true, false, none, some, List, [], ◌∷◌, length, All-imp,
  ◌==◌, bytes_eq, inl, inr, arith,
}
use kilasos.Auth.Crypto.{Bytes}
use kilasos.Files.Paths.{mnt, has_prefix, has_dots, clean}
use kilasos.Files.Trash.{
  Node, directory, Disk, Env, way_to, make_dirs, trash_dir, trash_path, file_delete, trash_restore,
}
use kilasos.Files.Trash.Moves.{Clear}
use kilasos.Files.Trash.Directories.{
  prefix-short, way_to-IsOnWay, make_dirs-All, IsOnWay, AsBefore, make_dirs-AsBefore,
}
use kilasos.Files.Trash.Roundtrip.{IsTrash, left, IsMovable, renamed, restored}

given_path : (path : Bytes) → has_prefix mnt path ≡ true → (path == []) ≡ false
given_path [] h = ground (arith, h)
given_path (c ∷ rest) h = refl

-- The file system with the directory of the trash made.
abbrev pub prepared : Env → Bytes → Disk → Disk
prepared e dir s = make_dirs e (way_to [] dir) s

deleted :
    (e d : Env) (text trash : Bytes) (mounts : List Bytes) (node : Node) (s : Disk)
    → has_dots (clean text) ≡ false
    → has_prefix mnt (clean text) ≡ true
    → e.mounts ≡ some mounts
    → e.meta_writable ≡ true
    → trash_path e (clean text) mounts ≡ trash
    → IsMovable e d (clean text) trash node (prepared e (trash_dir (clean text) mounts) s)
    → file_delete e text s
      ≡ (left e (clean text) trash (prepared e (trash_dir (clean text) mounts) s), none)
unfolding file_delete
deleted e d text trash mounts node s dots under asked writable goes h =
    simp
      (
        dots,
        under,
        asked,
        goes,
        renamed e d (clean text) trash node (prepared e (trash_dir (clean text) mounts) s) h,
        writable,
      )
      refl

-- What is in the way of nothing in `s` is not in the way when the directory of the trash is made.
prepared-IsMovable :
    (e d : Env) (path trash dir : Bytes) (node : Node) (s : Disk)
    → IsMovable e d path trash node s
    → length dir < length trash
    → IsMovable e d path trash node (prepared e dir s)
prepared-IsMovable e d path trash dir node s h short =
    let on_way = way_to-IsOnWay [] dir in
    record {
      there = elim (make_dirs-AsBefore e dir path (way_to [] dir) s on_way) [
        | inl same ↦ same ∙ h.there
        | inr (pre, nothing, made) ↦ absurd (ground (arith, sym h.there ∙ nothing))
      ];
      clear =
          make_dirs-All e (Clear trash) (way_to [] dir) s
            (All-imp (λ x. IsOnWay x dir) (λ x. Clear trash (x, directory)) (way_to [] dir)
              (λ x pre. prefix-short x dir trash pre short) on_way)
            h.clear;
      apart = h.apart;
      not_itself = h.not_itself;
      allowed = h.allowed;
      allowed_back = h.allowed_back;
    }

-- What is deleted comes back, where the restore takes its path in the trash.
pub comes_back :
    (e d : Env) (text trash : Bytes) (mounts : List Bytes) (node : Node) (s : Disk)
    → has_dots (clean text) ≡ false
    → has_prefix mnt (clean text) ≡ true
    → e.mounts ≡ some mounts
    → e.meta_writable ≡ true
    → e.through_json (clean text) ≡ clean text
    → d.meta_readable ≡ true
    → d.can_remove ≡ true
    → trash_path e (clean text) mounts ≡ trash
    → length (trash_dir (clean text) mounts) < length trash
    → IsTrash trash
    → IsMovable e d (clean text) trash node s
    → ((file_delete e text s).1 ≡ none)
      × ((trash_restore d trash (file_delete e text s).0).1 ≡ none)
      × ((p : Bytes)
          → AsBefore
              (trash_dir (clean text) mounts)
              p
              s
              (trash_restore d trash (file_delete e text s).0).0)
comes_back e d text trash mounts node s dots under asked writable same readable removable goes short
      t h =
    let path = clean text in
    let dir = trash_dir path mounts in
    let ready = prepared-IsMovable e d path trash dir node s h short in
    let gone = deleted e d text trash mounts node s dots under asked writable goes ready in
    let back =
      restored e d path trash node (prepared e dir s) ready t readable removable same
        (given_path path under) in
    (
      ap (λ x. x.1) gone,
      ap (λ x. (trash_restore d trash x.0).1) gone ∙ ap (λ x. x.1) back,
      λ p.
          subst (AsBefore dir p s)
            (sym (ap (λ x. (trash_restore d trash x.0).0) gone ∙ ap (λ x. x.0) back))
            (make_dirs-AsBefore e dir p (way_to [] dir) s (way_to-IsOnWay [] dir)),
    )
