-- ===== src/Files/Paths/Tests.antt =====
-- Paths, at concrete texts.
use Prim.Native.Char.{code}
use Prim.Native.String.{String}
use kilasos.Common.{◌≡◌, refl, true, false, List, [], ◌∷◌, ℕ}
use kilasos.Files.Paths.{
  dot, has_dots, split, go_up, add_part, add_parts, join_parts, clean, safe_path, last_part, base,
}

abbrev codes : String → List ℕ
codes String.[] = []
codes (String.◌∷◌ c s) = code c ∷ codes s

clean_absolute : clean (codes "/mnt//a/./b/../c/") ≡ codes "/mnt/a/c"
unfolding clean split add_parts add_part go_up join_parts
clean_absolute = refl

clean_relative : clean (codes "../a/../../b") ≡ codes "../../b"
unfolding clean split add_parts add_part go_up join_parts
clean_relative = refl

clean_empty : clean [] ≡ dot
unfolding clean split add_parts add_part go_up join_parts
clean_empty = refl

clean_root : clean (codes "/../") ≡ codes "/"
unfolding clean split add_parts add_part go_up join_parts
clean_root = refl

safe_path_sibling : safe_path (codes "/mntfoo") ≡ false
unfolding safe_path has_dots clean split add_parts add_part go_up join_parts
safe_path_sibling = refl

safe_path_pool : safe_path (codes "/mnt/pool1/foo.txt") ≡ true
unfolding safe_path has_dots clean split add_parts add_part go_up join_parts
safe_path_pool = refl

base_trailing : base (codes "/files/shares/shr_7/") ≡ codes "shr_7"
unfolding base last_part split
base_trailing = refl
