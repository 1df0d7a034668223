-- ===== src/Files/Pools/Tests.antt =====
-- The files of a pool, at concrete requests.
use kilasos.Common.{◌≡◌, refl, true, false, none, some, [], ◌∷◌, ◌++◌, All}
use kilasos.Auth.Crypto.{Bytes}
use kilasos.Files.Paths.{split, go_up, add_part, add_parts, join_parts, clean}
use kilasos.Files.Pools.{
  World, rename_path, rename, move, join_path, dir, up_to_slash, has_special, has_forbidden,
  resolve_pool_path, files_rename_handler, serve,
}
use kilasos.Files.Pools.Inside.{root}
use kilasos.Files.Pools.Confined.{Allowed, served-Allowed}

abbrev admin : World
admin = record { is_admin = true; fails = λ call. false }

abbrev tank : Bytes
tank = b't' ∷ b'a' ∷ b'n' ∷ b'k' ∷ []

abbrev tank2 : Bytes
tank2 = b't' ∷ b'a' ∷ b'n' ∷ b'k' ∷ b'2' ∷ []

-- "a/../b"
abbrev dotted : Bytes
dotted = b'a' ∷ b'/' ∷ b'.' ∷ b'.' ∷ b'/' ∷ b'b' ∷ []

-- "../tank2"
abbrev next_door : Bytes
next_door = b'.' ∷ b'.' ∷ b'/' ∷ b't' ∷ b'a' ∷ b'n' ∷ b'k' ∷ b'2' ∷ []

resolved : resolve_pool_path tank dotted ≡ some (root tank ++ (b'/' ∷ b'b' ∷ []), root tank)
unfolding resolve_pool_path has_special join_path clean split add_parts add_part go_up join_parts
resolved = refl

refused : resolve_pool_path tank next_door ≡ none
unfolding resolve_pool_path has_special join_path clean split add_parts add_part go_up join_parts
refused = refl

-- The directory of a pool can be given the name of another pool.
root_renamed :
    (serve admin (rename tank (some ([], tank2)))).calls ≡ rename_path (root tank) (root tank2) ∷ []
unfolding serve files_rename_handler resolve_pool_path has_special has_forbidden join_path dir
    up_to_slash clean split add_parts add_part go_up join_parts
root_renamed = refl

served-Allowed_example :
    All
      (Allowed admin (move tank (some (dotted, tank2))))
      (serve admin (move tank (some (dotted, tank2)))).calls
served-Allowed_example = served-Allowed admin (move tank (some (dotted, tank2)))
