-- ===== src/Files/Trash/Tests.antt =====
-- Deletion and restoration, for a small file system.
use kilasos.Common.{
  arith, ◌≡◌, refl, true, none, some, [], ◌∷◌, ◌++◌, lookup, insert, delete, find, bytes_eq,
}
use kilasos.Common.Words.{replace_all}
use kilasos.Auth.Crypto.{Bytes}
use kilasos.Files.Paths.{mnt, has_dots, clean, split, add_parts, add_part, go_up, join_parts}
use kilasos.Files.Pools.{join_path, has_forbidden}
use kilasos.Files.Trash.{
  directory, meta, dot_meta, trash_base, rename_failed, rename_node, make_dirs, way_to, move_all,
  moved, Env, Disk, plain, invalid_path, trash_path, file_delete, trash_restore,
}
use kilasos.Files.Paths.Parts.{IsName}
use kilasos.Files.Pools.Confined.{has_forbidden-NoSlash}
use kilasos.Files.Trash.Directories.{AsBefore}
use kilasos.Files.Trash.Roundtrip.{IsMovable}
use kilasos.Files.Trash.Places.{IsStamp, trash_restore-file_delete}

abbrev tank : Bytes
tank = b'/' ∷ b'm' ∷ b'n' ∷ b't' ∷ b'/' ∷ b't' ∷ b'a' ∷ b'n' ∷ b'k' ∷ []

abbrev env : Env
env = record {
  unix = b'9' ∷ b'0' ∷ [];
  rfc3339 = [];
  mounts = some (tank ∷ []);
  meta_writable = true;
  can_make = λ dir. true;
  allows = λ old new. true;
  meta_readable = true;
  can_remove = true;
  through_json = λ text. text;
  original_path = λ text. none;
}

abbrev song : Bytes
song = tank ++ (b'/' ∷ b'a' ∷ [])

abbrev other : Bytes
other = tank ++ (b'/' ∷ b'b' ∷ [])

abbrev disk : Disk
disk = (song, plain (1 ∷ [])) ∷ (other, plain []) ∷ []

-- "/mnt/tank/.kilasos-trash/tank_a.90"
abbrev gone : Bytes
gone =
    tank
    ++ (b'/' ∷ b'.' ∷ b'k' ∷ b'i' ∷ b'l' ∷ b'a' ∷ b's' ∷ b'o' ∷ b's' ∷ b'-' ∷ b't' ∷ b'r' ∷ b'a'
        ∷ b's' ∷ b'h' ∷ b'/' ∷ b't' ∷ b'a' ∷ b'n' ∷ b'k' ∷ b'_' ∷ b'a' ∷ b'.' ∷ b'9' ∷ b'0' ∷ [])

gone_there : trash_path env (clean song) (tank ∷ []) ≡ gone
unfolding trash_path replace_all find join_path clean split add_parts add_part go_up join_parts
gone_there = refl

-- "/mnt/tank/.kilasos-trash/tank_a..90", where "/mnt/tank/a." goes
abbrev pointed : Bytes
pointed =
    tank
    ++ (b'/' ∷ b'.' ∷ b'k' ∷ b'i' ∷ b'l' ∷ b'a' ∷ b's' ∷ b'o' ∷ b's' ∷ b'-' ∷ b't' ∷ b'r' ∷ b'a'
        ∷ b's' ∷ b'h' ∷ b'/' ∷ b't' ∷ b'a' ∷ b'n' ∷ b'k' ∷ b'_' ∷ b'a' ∷ b'.' ∷ b'.' ∷ b'9' ∷ b'0'
        ∷ [])

pointed_there : trash_path env (tank ++ (b'/' ∷ b'a' ∷ b'.' ∷ [])) (tank ∷ []) ≡ pointed
unfolding trash_path replace_all find join_path clean split add_parts add_part go_up join_parts
pointed_there = refl

-- A name that ends in a point can be deleted, and not restored.
pointed_stays : (trash_restore env pointed disk).1 ≡ some invalid_path
unfolding trash_restore has_dots clean split add_parts add_part go_up join_parts
pointed_stays = refl

abbrev ank : Bytes
ank = b'a' ∷ b'n' ∷ b'k' ∷ []

tank-IsName : IsName (b't' ∷ ank)
tank-IsName = (
  ground arith,
  ground arith,
  ground arith,
  has_forbidden-NoSlash (b't' ∷ ank) (unfold has_forbidden in refl),
)

env-IsStamp : IsStamp env.unix
env-IsStamp = (omega arith, has_forbidden-NoSlash env.unix (unfold has_forbidden in refl))

song-IsMovable : IsMovable env env song gone (plain (1 ∷ [])) disk
song-IsMovable = record {
  there = unfold lookup in refl;
  clear = (refl, (refl, tt));
  apart = refl;
  not_itself = refl;
  allowed = refl;
  allowed_back = refl;
}

-- The directory of the trash cannot be moved into itself.
abbrev bin : Bytes
bin = tank ++ (b'/' ∷ trash_base)

bin_stays : (file_delete env bin ((tank, directory) ∷ (bin, directory) ∷ [])).1 ≡ some rename_failed
unfolding file_delete rename_node make_dirs way_to trash_path replace_all find join_path has_dots
    clean split add_parts add_part go_up join_parts lookup insert
bin_stays = refl

-- A directory goes with what is in it.
tree_moved :
    (file_delete env song ((song, directory) ∷ (song ++ (b'/' ∷ b'x' ∷ []), plain []) ∷ [])).0
    ≡ (gone, directory)
      ∷ (gone ++ (b'/' ∷ b'x' ∷ []), plain [])
      ∷ (mnt, directory)
      ∷ (tank, directory)
      ∷ (bin, directory)
      ∷ (gone ++ dot_meta, meta song [])
      ∷ []
unfolding file_delete rename_node make_dirs way_to trash_path replace_all find join_path has_dots
    clean split add_parts add_part go_up join_parts lookup insert delete move_all moved
tree_moved = refl

trash_restore-file_delete_example :
    ((file_delete env song disk).1 ≡ none)
    × ((trash_restore env gone (file_delete env song disk).0).1 ≡ none)
    × ((p : Bytes) → AsBefore bin p disk (trash_restore env gone (file_delete env song disk).0).0)
unfolding has_dots clean split add_parts add_part go_up join_parts replace_all find
trash_restore-file_delete_example =
    trash_restore-file_delete env env song b't' ank (tank ∷ []) (plain (1 ∷ [])) disk refl refl refl
      refl tank-IsName (ground arith) env-IsStamp refl refl refl refl refl song-IsMovable
