-- ===== src/Files/Paths.antt =====
-- safePath of internal/api/files.go, with what it uses of Go's packages strings and path/filepath.
-- A path is its bytes. `clean` is filepath.Clean on Unix by its documentation: the path is cut at
-- the slashes, and the parts are put on a stack one by one.
pub mod Parts
pub mod Containment
mod Tests
use mathlib.Core.List.{reverse}
use kilasos.Common.{
  ℕ, Bool, true, false, not, ◌&&◌, ◌||◌, List, [], ◌∷◌, ◌++◌, length, take, ◌==◌, nat_eq, bytes_eq,
  if◌then◌else◌,
}
use kilasos.Auth.Crypto.{Bytes}

abbrev pub dot : Bytes
dot = b'.' ∷ []

abbrev pub dot_dot : Bytes
dot_dot = b'.' ∷ b'.' ∷ []

-- "mnt", "/mnt" and "/mnt/"
abbrev pub mnt_name : Bytes
mnt_name = b'm' ∷ b'n' ∷ b't' ∷ []

abbrev pub mnt : Bytes
mnt = b'/' ∷ mnt_name

abbrev pub mnt_slash : Bytes
mnt_slash = b'/' ∷ b'm' ∷ b'n' ∷ b't' ∷ b'/' ∷ []

-- `strings.HasPrefix(path, front)`
abbrev pub has_prefix : Bytes → Bytes → Bool
has_prefix front path = take (length front) path == front

-- `strings.Contains(path, "..")`
unfoldable pub has_dots : Bytes → Bool
has_dots [] = false
has_dots (a ∷ []) = false
has_dots (a ∷ b ∷ rest) = (a == b'.' && b == b'.') || has_dots (b ∷ rest)

abbrev pub push_byte : ℕ → List Bytes → List Bytes
push_byte c [] = (c ∷ []) ∷ []
push_byte c (part ∷ parts) = (c ∷ part) ∷ parts

-- `strings.Split(path, "/")`
unfoldable pub split : Bytes → List Bytes
split [] = [] ∷ []
split (c ∷ rest) = let parts = split rest in if c == b'/' then [] ∷ parts else push_byte c parts

abbrev pub is_rooted : Bytes → Bool
is_rooted [] = false
is_rooted (c ∷ rest) = c == b'/'

-- A part `..` at the root is dropped; before the start of a relative path it stays.
unfoldable pub go_up : Bool → List Bytes → List Bytes
go_up rooted [] = if rooted then [] else dot_dot ∷ []
go_up rooted (part ∷ stack) = if part == dot_dot then dot_dot ∷ part ∷ stack else stack

unfoldable pub add_part : Bool → List Bytes → Bytes → List Bytes
add_part rooted stack part =
    if part == [] || part == dot
    then stack
    else if part == dot_dot
    then go_up rooted stack
    else part ∷ stack

unfoldable pub add_parts : Bool → List Bytes → List Bytes → List Bytes
add_parts rooted stack [] = stack
add_parts rooted stack (part ∷ parts) = add_parts rooted (add_part rooted stack part) parts

-- `strings.Join(parts, "/")`
unfoldable pub join_parts : List Bytes → Bytes
join_parts [] = []
join_parts (part ∷ []) = part
join_parts (part ∷ next ∷ parts) = part ++ (b'/' ∷ join_parts (next ∷ parts))

abbrev pub written : Bool → List Bytes → Bytes
written true parts = b'/' ∷ join_parts parts
written false [] = dot
written false (part ∷ parts) = join_parts (part ∷ parts)

unfoldable pub clean : Bytes → Bytes
clean path = written (is_rooted path) (reverse (add_parts (is_rooted path) [] (split path)))

unfoldable pub safe_path : Bytes → Bool
safe_path path =
    if has_dots path
    then false
    else if not (clean path == mnt) && not (has_prefix mnt_slash (clean path))
    then false
    else true

-- `filepath.Base`: the last part that is not empty.
unfoldable pub last_part : Bytes → List Bytes → Bytes
last_part found [] = found
last_part found (part ∷ parts) = last_part (if part == [] then found else part) parts

unfoldable pub base : Bytes → Bytes
base [] = dot
base (c ∷ rest) = last_part (b'/' ∷ []) (split (c ∷ rest))
