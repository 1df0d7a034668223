-- ===== src/Files/Pools.antt =====
-- The files of one pool, in internal/api/router.go: resolvePoolPath, and the handlers that list,
-- delete, make, rename and move. What they ask of package os is recorded; names of the query and
-- bodies come decoded.
pub mod Names
pub mod Inside
pub mod Confined
pub mod Renames
mod Tests
use kilasos.Common.{
  ℕ, Bool, true, false, not, ◌&&◌, ◌||◌, Option, none, some, List, [], ◌∷◌, ◌++◌, ◌==◌, nat_eq,
  bytes_eq, if◌then◌else◌, on_option,
}
use kilasos.Auth.Crypto.{Bytes}
use kilasos.Files.Paths.{dot, dot_dot, mnt, has_prefix, clean}

-- Calls of package os.
pub data OsCall : Type 0 where
  read_dir remove_all make_dir : Bytes → OsCall
  rename_path : Bytes → Bytes → OsCall

-- Whether the caller is an administrator, and which calls fail.
pub record World : Type 0 where
  pub is_admin : Bool
  pub fails : OsCall → Bool

pub record Outcome : Type 0 where
  pub calls : List OsCall
  pub status : ℕ

-- `filepath.Join` of two parts; empty ones are passed over.
unfoldable pub join_path : Bytes → Bytes → Bytes
join_path [] [] = []
join_path [] (c ∷ rest) = clean (c ∷ rest)
join_path (a ∷ front) [] = clean (a ∷ front)
join_path (a ∷ front) (c ∷ rest) = clean ((a ∷ front) ++ (b'/' ∷ c ∷ rest))

-- What `filepath.Split` takes for the directory: all up to the last slash.
unfoldable pub up_to_slash : Bytes → Bytes
up_to_slash [] = []
up_to_slash (c ∷ rest) =
    let more = up_to_slash rest in
    if c == b'/' then c ∷ more else if more == [] then [] else c ∷ more

-- `filepath.Dir`
unfoldable pub dir : Bytes → Bytes
dir path = clean (up_to_slash path)

-- `strings.ContainsAny(pool, "/\\.")`
unfoldable pub has_special : Bytes → Bool
has_special [] = false
has_special (c ∷ rest) = (c == b'/' || c == 92 || c == b'.') || has_special rest

-- `strings.ContainsAny(name, "/\\\x00")`
unfoldable pub has_forbidden : Bytes → Bool
has_forbidden [] = false
has_forbidden (c ∷ rest) = (c == b'/' || c == 92 || c == 0) || has_forbidden rest

unfoldable pub resolve_pool_path : Bytes → Bytes → Option (Bytes × Bytes)
resolve_pool_path pool rel =
    if pool == [] || has_special pool
    then none
    else let base = join_path mnt pool in
      let abs = clean (join_path base rel) in
      if not (abs == base) && not (has_prefix (base ++ (b'/' ∷ [])) abs)
      then none
      else some (abs, base)

abbrev pub is_bad_name : Bytes → Bool
is_bad_name name = has_forbidden name || name == [] || name == dot || name == dot_dot

module _ (w : World) where
  abbrev pub refuse : ℕ → Outcome
  refuse status = record { calls = []; status = status }

  -- One call, and the status where it fails.
  abbrev pub ask : OsCall → ℕ → Outcome
  ask call status = record { calls = call ∷ []; status = if w.fails call then status else 200 }

  unfoldable pub files_list_handler : Bytes → Bytes → Outcome
  files_list_handler pool path =
      on_option (resolve_pool_path pool path) (refuse 400) (λ at. ask (read_dir at.0) 404)

  unfoldable pub files_delete_handler : Bytes → Bytes → Outcome
  files_delete_handler pool path =
      if not w.is_admin
      then refuse 403
      else on_option (resolve_pool_path pool path) (refuse 400)
          (λ at. if at.0 == at.1 then refuse 400 else ask (remove_all at.0) 500)

  -- A body is none where it is no JSON.
  unfoldable pub files_mkdir_handler : Bytes → Option (Bytes × Bytes) → Outcome
  files_mkdir_handler pool body =
      if not w.is_admin
      then refuse 403
      else on_option body (refuse 400) (λ req.
        on_option (resolve_pool_path pool (req.0 ++ (b'/' ∷ req.1))) (refuse 400)
          (λ at. ask (make_dir at.0) 500))

  unfoldable pub files_rename_handler : Bytes → Option (Bytes × Bytes) → Outcome
  files_rename_handler pool body =
      if not w.is_admin
      then refuse 403
      else on_option body (refuse 400) (λ req.
        if is_bad_name req.1
        then refuse 400
        else on_option (resolve_pool_path pool req.0) (refuse 400) (λ at.
          let new = join_path (dir at.0) req.1 in
          if not (has_prefix at.1 new) then refuse 400 else ask (rename_path at.0 new) 500))

  unfoldable pub files_move_handler : Bytes → Option (Bytes × Bytes) → Outcome
  files_move_handler pool body =
      if not w.is_admin
      then refuse 403
      else on_option body (refuse 400) (λ req.
        on_option (resolve_pool_path pool req.0) (refuse 400) (λ src.
          on_option (resolve_pool_path pool req.1) (refuse 400)
            (λ dst. ask (rename_path src.0 dst.0) 500)))

pub data Request : Type 0 where
  list delete : Bytes → Bytes → Request
  mkdir rename move : Bytes → Option (Bytes × Bytes) → Request

-- The routes to these handlers.
unfoldable pub serve : World → Request → Outcome
serve w (list pool path) = files_list_handler w pool path
serve w (delete pool path) = files_delete_handler w pool path
serve w (mkdir pool body) = files_mkdir_handler w pool body
serve w (rename pool body) = files_rename_handler w pool body
serve w (move pool body) = files_move_handler w pool body
