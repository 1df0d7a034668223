-- ===== src/Files/Trash.antt =====
-- FileDelete and TrashRestore of internal/storage/linux.go: a deleted file is moved to the trash of
-- its pool, with a file beside it that tells where it was. A file system maps paths to what is
-- there; the paths in a directory begin with that of the directory and a slash.
pub mod Moves
pub mod Directories
pub mod Roundtrip
pub mod Returns
pub mod Places
mod Tests
use kilasos.Common.{
  ℕ, Bool, true, false, not, ◌&&◌, ◌||◌, Option, none, some, List, [], ◌∷◌, ◌++◌, Dict, lookup,
  insert, delete, length, drop, ltb, find, ◌==◌, nat_eq, bytes_eq, if◌then◌else◌, on_option,
}
use kilasos.Common.Words.{replace_all}
use kilasos.Auth.Crypto.{Bytes}
use kilasos.Files.Paths.{dot, dot_dot, mnt, mnt_slash, has_prefix, has_dots, clean, base}
use kilasos.Files.Pools.{join_path}

-- `meta` is the JSON text with `original_path` and `deleted_at`.
pub data Node : Type 0 where
  directory : Node
  plain : Bytes → Node
  meta : Bytes → Bytes → Node

abbrev pub Disk : Type 0
Disk = Dict Bytes Node

pub data TrashError : Type 0 where
  invalid_path not_under_mnt no_pools rename_failed not_in_trash bad_name : TrashError

-- The time in seconds and in RFC 3339, the mount paths of the pools where they can be asked for,
-- whether a meta file can be written, which directories can be made, which renames the system allows
-- of those that `rename_node` does not refuse (on one file system and into a directory, say),
-- whether a meta file can be read and removed, a text after its way through JSON (itself, if it is
-- valid UTF-8), and the `original_path` in a text that is JSON.
pub record Env : Type 0 where
  pub unix : Bytes
  pub rfc3339 : Bytes
  pub mounts : Option (List Bytes)
  pub meta_writable : Bool
  pub can_make : Bytes → Bool
  pub allows : Bytes → Bytes → Bool
  pub meta_readable : Bool
  pub can_remove : Bool
  pub through_json : Bytes → Bytes
  pub original_path : Bytes → Option Bytes

-- ".kilasos-trash" and ".meta"
abbrev pub trash_base : Bytes
trash_base =
    b'.' ∷ b'k' ∷ b'i' ∷ b'l' ∷ b'a' ∷ b's' ∷ b'o' ∷ b's' ∷ b'-' ∷ b't' ∷ b'r' ∷ b'a' ∷ b's' ∷ b'h'
    ∷ []

abbrev pub dot_meta : Bytes
dot_meta = b'.' ∷ b'm' ∷ b'e' ∷ b't' ∷ b'a' ∷ []

abbrev pub is_directory : Node → Bool
is_directory directory = true
is_directory _ = false

-- The path of what is at or in `old`, after `old` has become `new`.
unfoldable pub moved : Bytes → Bytes → Bytes → Bytes
moved old new path =
    if path == old
    then new
    else if has_prefix (old ++ (b'/' ∷ [])) path
    then new ++ drop (length old) path
    else path

unfoldable pub move_all : Bytes → Bytes → Disk → Disk
move_all old new [] = []
move_all old new ((path, node) ∷ s) = (moved old new path, node) ∷ move_all old new s

-- A directory is not replaced, and replaces nothing.
abbrev pub is_blocked : Node → Option Node → Bool
is_blocked node none = false
is_blocked node (some there) = is_directory node || is_directory there

-- `os.Rename`: a file at the new path is replaced; nothing is moved into itself.
unfoldable pub rename_node : Env → Bytes → Bytes → Disk → Option Disk
rename_node e old new s = on_option (lookup old s) none (λ node.
    if not (e.allows old new)
    then none
    else if is_blocked node (lookup new s) || has_prefix (old ++ (b'/' ∷ [])) new
    then none
    else if old == new
    then some s
    else some (move_all old new (delete new s)))

-- The directories on the way to a path, itself last; `front` is what was read of it.
unfoldable pub way_to : Bytes → Bytes → List Bytes
way_to front [] = front ∷ []
way_to front (c ∷ rest) =
    let more = way_to (front ++ (c ∷ [])) rest in
    if c == b'/' && not (front == []) then front ∷ more else more

-- `os.MkdirAll`, one directory after the other: it stops at what is no directory, and at one that
-- cannot be made.
unfoldable pub make_dirs : Env → List Bytes → Disk → Disk
make_dirs e [] s = s
make_dirs e (d ∷ dirs) s =
    let made = make_dirs e dirs (insert d directory s) in
    let found = make_dirs e dirs s in
    on_option (lookup d s) (if e.can_make d then made else s)
      (λ node. if is_directory node then found else s)

unfoldable pub is_empty : Bytes → Disk → Bool
is_empty dir [] = true
is_empty dir ((path, node) ∷ s) = not (has_prefix (dir ++ (b'/' ∷ [])) path) && is_empty dir s

-- `os.Remove`, whose error is passed over.
unfoldable pub remove_node : Env → Bytes → Disk → Disk
remove_node e path s = on_option (lookup path s) s (λ node.
    if not e.can_remove || (is_directory node && not (is_empty path s)) then s else delete path s)

-- `filepath.Rel("/mnt", path)`, of a cleaned path that begins with "/mnt"
abbrev pub rel_to_mnt : Bytes → Bytes
rel_to_mnt path =
    if path == mnt then dot else if has_prefix mnt_slash path then drop 5 path else dot_dot ++ path

-- The first pool that the path is in, and "/mnt" without one.
abbrev pub pool_mount : Bytes → List Bytes → Bytes
pool_mount path mounts =
    on_option (find (λ m. not (m == []) && has_prefix (m ++ (b'/' ∷ [])) path) mounts) mnt (λ m. m)

-- The name in the trash: the path below /mnt, and the time.
abbrev pub trash_name : Env → Bytes → Bytes
trash_name e path = replace_all b'/' b'_' (rel_to_mnt path) ++ (b'.' ∷ e.unix)

abbrev pub trash_dir : Bytes → List Bytes → Bytes
trash_dir path mounts = join_path (pool_mount path mounts) trash_base

unfoldable pub trash_path : Env → Bytes → List Bytes → Bytes
trash_path e path mounts = join_path (trash_dir path mounts) (trash_name e path)

-- The rename, and the meta file; that it cannot be written is passed over.
abbrev pub to_trash : Env → Bytes → Bytes → Disk → Disk × Option TrashError
to_trash e path trash s =
    on_option (rename_node e path trash s) (s, some rename_failed)
      (λ gone. (
        if e.meta_writable
            then insert (trash ++ dot_meta) (meta (e.through_json path) (e.through_json e.rfc3339))
                gone
            else gone,
        none,
      ))

-- `FileDelete`
unfoldable pub file_delete : Env → Bytes → Disk → Disk × Option TrashError
file_delete e text s =
    let path = clean text in
    if has_dots path
    then (s, some invalid_path)
    else if not (has_prefix mnt path)
    then (s, some not_under_mnt)
    else on_option e.mounts (s, some no_pools)
        (λ mounts.
          to_trash e path (trash_path e path mounts)
            (make_dirs e (way_to [] (trash_dir path mounts)) s))

-- `clean[:strings.Index(clean, "/.kilasos-trash/")]`
unfoldable pub before_trash : Bytes → Option Bytes
before_trash [] = none
before_trash (c ∷ rest) =
    let more = before_trash rest in
    if has_prefix (b'/' ∷ (trash_base ++ (b'/' ∷ []))) (c ∷ rest)
    then some []
    else on_option more none (λ front. some (c ∷ front))

abbrev pub or_root : Bytes → Bytes
or_root mount = if mount == [] then b'/' ∷ [] else mount

-- What the meta file says; an empty text where there is none.
abbrev pub told_path : Env → Option Node → Bytes
told_path e none = []
told_path e (some (meta path time)) = path
told_path e (some directory) = []
told_path e (some (plain text)) = on_option (e.original_path text) [] (λ path. path)

-- The name up to its last point: none without a point.
unfoldable pub before_last_dot : Bytes → Option Bytes
before_last_dot [] = none
before_last_dot (c ∷ rest) =
    on_option (before_last_dot rest) (if c == b'.' then some [] else none)
      (λ front. some (c ∷ front))

-- `os.Rename`, and the meta file is removed.
abbrev pub from_trash : Env → Bytes → Bytes → Disk → Disk × Option TrashError
from_trash e path original s =
    on_option (rename_node e path original s) (s, some rename_failed)
      (λ back. (remove_node e (path ++ dot_meta) back, none))

abbrev pub restore_in : Env → Bytes → Bytes → Disk → Disk × Option TrashError
restore_in e path mount s =
    let told = if e.meta_readable then told_path e (lookup (path ++ dot_meta) s) else [] in
    if not (has_prefix (join_path mount trash_base) path)
    then (s, some not_in_trash)
    else if not (told == [])
    then from_trash e path told s
    else on_option (before_last_dot (base path)) (s, some bad_name)
        (λ name. from_trash e path (join_path mount name) s)

-- `TrashRestore`
unfoldable pub trash_restore : Env → Bytes → Disk → Disk × Option TrashError
trash_restore e text s =
    let path = clean text in
    if has_dots path
    then (s, some invalid_path)
    else on_option (before_trash path) (s, some not_in_trash)
        (λ mount. restore_in e path (or_root mount) s)
