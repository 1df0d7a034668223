-- ===== src/Files/Trash/Roundtrip.antt =====
-- A file that FileDelete of internal/storage/linux.go moved away, and TrashRestore brings back.
use mathlib.Core.List.{append_assoc}
use kilasos.Common.{
  drop, drop-length-append, All-insert, ◌≡◌, ◌≢◌, refl, sym, ap, ◌∙◌, subst, true, false, none,
  some, [], ◌∷◌, ◌++◌, lookup, insert, lookup-insert_self, lookup-insert_ne, length, All, All-imp,
  ◌==◌, bytes_eq, if◌then◌else◌, Bool-cases, inl, inr,
}
use kilasos.Auth.Crypto.{Bytes}
use kilasos.Files.Paths.{has_prefix, has_dots, clean}
use kilasos.Files.Pools.{join_path}
use kilasos.Files.Pools.Inside.{has_prefix_means}
use kilasos.Files.Trash.{
  Node, meta, Disk, Env, trash_base, dot_meta, moved, move_all, rename_node, remove_node,
  before_trash, told_path, from_trash, or_root, trash_restore,
}
use kilasos.Files.Trash.Moves.{
  slash_or_point, Clear, begins, longer, differ, not_in, not_place, moved-ne-old, moved-ne-meta,
  lookup-move_all, move_all-move_all,
}
use kilasos.Files.Trash.Directories.{
  Absent, lookup-Absent, delete-Absent, delete-insert, move_all-insert,
}

-- A path that TrashRestore takes for one of the trash.
pub record IsTrash (path : Bytes) : Type 0 where
  pub mount : Bytes
  pub is_clean : clean path ≡ path
  pub has_no_dots : has_dots path ≡ false
  pub is_found : before_trash path ≡ some mount
  pub is_inside : has_prefix (join_path (or_root mount) trash_base) path ≡ true

-- The file beside the place, and what it says.
abbrev pub told : Env → Bytes → Node
told e path = meta (e.through_json path) (e.through_json e.rfc3339)

-- The file system after the deletion, `s` with the directory of the trash.
abbrev pub left : Env → Bytes → Bytes → Disk → Disk
left e path trash s = insert (trash ++ dot_meta) (told e path) (move_all path trash s)

-- What the two calls need of the file system and of the system.
pub record IsMovable (e d : Env) (path trash : Bytes) (node : Node) (s : Disk) : Type 0 where
  pub there : lookup path s ≡ some node
  pub clear : All (Clear trash) s
  pub apart : has_prefix trash path ≡ false
  pub not_itself : has_prefix (path ++ (b'/' ∷ [])) trash ≡ false
  pub allowed : e.allows path trash ≡ true
  pub allowed_back : d.allows trash path ≡ true

-- A restore by what the meta file says.
by_meta :
    (d : Env) (trash path : Bytes) (s : Disk)
    → IsTrash trash
    → (if d.meta_readable then told_path d (lookup (trash ++ dot_meta) s) else []) ≡ path
    → (path == []) ≡ false
    → trash_restore d trash s ≡ from_trash d trash path s
unfolding trash_restore
by_meta d trash path s t told given =
    rw (t.is_clean, t.has_no_dots, t.is_found, told, t.is_inside, given) refl

module _ (e d : Env) (path trash : Bytes) (node : Node) (s : Disk)
    (h : IsMovable e d path trash node s) where
  place_free : All (Absent trash) s
  place_free = All-imp (Clear trash) (Absent trash) s (λ x c. not_place trash x.0 c) h.clear

  meta_free : All (Absent (trash ++ dot_meta)) s
  meta_free =
      All-imp (Clear trash) (Absent (trash ++ dot_meta)) s
        (λ x c same. begins trash dot_meta x.0 same c) h.clear

  abbrev Left : Bytes × Node → Type 0
  Left x = (x.0 ≢ path) × (x.0 ≢ trash ++ dot_meta)

  moved-Left : (t : Disk) → All (Clear trash) t → All Left (move_all path trash t)
  unfolding move_all
  moved-Left [] all = tt
  moved-Left (x ∷ t) all = (
    (moved-ne-old path trash x.0 h.apart, moved-ne-meta path trash x.0 all.0),
    moved-Left t all.1,
  )

  gone-Absent : All (Absent path) (move_all path trash s)
  gone-Absent =
      All-imp Left (Absent path) (move_all path trash s) (λ x l. l.0) (moved-Left s h.clear)

  meta-Absent : All (Absent (trash ++ dot_meta)) (move_all path trash s)
  meta-Absent =
      All-imp Left (Absent (trash ++ dot_meta)) (move_all path trash s) (λ x l. l.1)
        (moved-Left s h.clear)

  path_apart : path ≢ trash
  path_apart = not_place trash path h.apart

  pub renamed : rename_node e path trash s ≡ some (move_all path trash s)
  unfolding rename_node
  renamed =
      rw
        (
          h.there,
          h.allowed,
          lookup-Absent trash s place_free,
          h.not_itself,
          differ path trash path_apart,
          delete-Absent trash s place_free,
        )
        refl

  left_there : lookup trash (left e path trash s) ≡ some node
  left_there =
      lookup-insert_ne (trash ++ dot_meta) trash (told e path) (move_all path trash s)
        (λ same. longer trash b'.' _ (sym same))
      ∙ (lookup-move_all path trash s h.clear ∙ h.there)

  path_kept : lookup (trash ++ dot_meta) (left e path trash s) ≡ some (told e path)
  path_kept = lookup-insert_self (trash ++ dot_meta) (told e path) (move_all path trash s)

  meta_apart : trash ++ dot_meta ≢ path
  meta_apart same = begins trash dot_meta path (sym same) h.apart

  left-Absent : lookup path (left e path trash s) ≡ none
  left-Absent =
      lookup-insert_ne (trash ++ dot_meta) path (told e path) (move_all path trash s) meta_apart
      ∙ lookup-Absent path (move_all path trash s) gone-Absent

  meta_outside : has_prefix (trash ++ (b'/' ∷ [])) (trash ++ dot_meta) ≡ false
  meta_outside = elim (Bool-cases (has_prefix (trash ++ (b'/' ∷ [])) (trash ++ dot_meta))) [
    | inl e ↦
        let rest = drop (length (trash ++ (b'/' ∷ []))) (trash ++ dot_meta) in
        absurd (
          slash_or_point rest (
            sym (drop-length-append trash (b'/' ∷ rest))
            ∙ (ap (drop (length trash)) (
                  sym (
                    has_prefix_means (trash ++ (b'/' ∷ [])) (trash ++ dot_meta) e
                    ∙ append_assoc trash (b'/' ∷ []) rest))
                ∙ drop-length-append trash dot_meta)))
    | inr e ↦ e
  ]

  meta_stays : moved trash path (trash ++ dot_meta) ≡ trash ++ dot_meta
  unfolding moved
  meta_stays =
      rw (differ (trash ++ dot_meta) trash (λ same. longer trash b'.' _ (sym same)), meta_outside)
        refl

  moved_back :
      move_all trash path (left e path trash s) ≡ insert (trash ++ dot_meta) (told e path) s
  moved_back =
      let home = move_all-move_all path trash s h.clear in
      move_all-insert (trash ++ dot_meta) trash path (told e path) (move_all path trash s)
        meta-Absent meta_stays (subst (All (Absent (trash ++ dot_meta))) (sym home) meta_free)
      ∙ ap (insert (trash ++ dot_meta) (told e path)) home

  path_free : All (Absent path) (left e path trash s)
  path_free =
      All-insert (Absent path) (trash ++ dot_meta) (told e path) (move_all path trash s) meta_apart
        gone-Absent

  renamed_back :
      rename_node d trash path (left e path trash s)
      ≡ some (insert (trash ++ dot_meta) (told e path) s)
  unfolding rename_node
  renamed_back =
      rw
        (
          left_there,
          h.allowed_back,
          left-Absent,
          not_in trash path h.apart,
          differ trash path (λ same. path_apart (sym same)),
          delete-Absent path (left e path trash s) path_free,
        )
        (ap some moved_back)

  is_told :
      d.meta_readable ≡ true
      → e.through_json path ≡ path
      → (if d.meta_readable
          then told_path d (lookup (trash ++ dot_meta) (left e path trash s))
          else [])
        ≡ path
  is_told readable same = simp readable (ap (told_path d) path_kept ∙ same)

  meta_removed :
      d.can_remove ≡ true
      → remove_node d (trash ++ dot_meta) (insert (trash ++ dot_meta) (told e path) s) ≡ s
  unfolding remove_node
  meta_removed removable =
      rw (lookup-insert_self (trash ++ dot_meta) (told e path) s)
        (simp removable (delete-insert (trash ++ dot_meta) (told e path) s meta_free))

  pub restored :
      IsTrash trash
      → d.meta_readable ≡ true
      → d.can_remove ≡ true
      → e.through_json path ≡ path
      → (path == []) ≡ false
      → trash_restore d trash (left e path trash s) ≡ (s, none)
  restored t readable removable same given =
      by_meta d trash path (left e path trash s) t (is_told readable same) given
      ∙ (rw renamed_back (ap (λ x. (x, none)) (meta_removed removable)))
