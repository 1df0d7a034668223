-- ===== src/Files/Pools/Confined.antt =====
-- What the handlers for the files of a pool, in internal/api/router.go, ask of the system.
use kilasos.Common.{
  ◌⊎◌, inl, inr, ◌≡◌, ◌≢◌, sym, ◌∙◌, true, false, not, Option, [], ◌∷◌, ◌++◌, All, ◌==◌, ==_iff,
  bytes_eq, nat_eq, if◌then◌else◌, on_option, if_case, option_case, arith, subst,
}
use kilasos.Auth.Crypto.{Bytes}
use kilasos.Files.Paths.{dot, dot_dot, has_prefix}
use kilasos.Files.Pools.{
  OsCall, read_dir, remove_all, make_dir, rename_path, World, Outcome, Request, list, delete, mkdir,
  rename, move, has_forbidden, join_path, dir, resolve_pool_path, refuse, ask, is_bad_name,
  files_list_handler, files_delete_handler, files_mkdir_handler, files_rename_handler,
  files_move_handler, serve,
}
use kilasos.Files.Pools.Inside.{root, IsInPool, Inside, resolve_pool_path-Inside}
use kilasos.Files.Pools.Renames.{renamed-IsInPool}
use kilasos.Files.Paths.Parts.{NoSlash, IsName}

abbrev pub pool_of : Request → Bytes
pool_of (list pool path) = pool
pool_of (delete pool path) = pool
pool_of (mkdir pool body) = pool
pool_of (rename pool body) = pool
pool_of (move pool body) = pool

-- Where `old` may go. A new name stays in the pool, unless it is the pool's own directory that is
-- renamed: then only the text is tested, which begins with the old one.
abbrev pub Goes : Request → Bytes → Bytes → Type 0
Goes (rename pool body) old new =
    IsInPool pool new ⊎ ((old ≡ root pool) × (has_prefix (root pool) new ≡ true))
Goes r old new = IsInPool (pool_of r) new

-- What is asked for a request.
abbrev pub Allowed : World → Request → OsCall → Type 0
Allowed w r (read_dir path) = IsInPool (pool_of r) path
Allowed w r (remove_all path) =
    (w.is_admin ≡ true) × IsInPool (pool_of r) path × (path ≢ root (pool_of r))
Allowed w r (make_dir path) = (w.is_admin ≡ true) × IsInPool (pool_of r) path
Allowed w r (rename_path old new) = (w.is_admin ≡ true) × IsInPool (pool_of r) old × Goes r old new

not_root : (path base top : Bytes) → (path == base) ≡ false → base ≡ top → path ≢ top
not_root path base top e same is_top = ground (arith, e, (==_iff path base).1 (is_top ∙ sym same))

starts_in :
    (base top path : Bytes)
    → base ≡ top
    → not (has_prefix base path) ≡ false
    → has_prefix top path ≡ true
starts_in base top path same e =
    subst (λ front. has_prefix front path ≡ true) same (ground (arith, e))

pub has_forbidden-NoSlash : (name : Bytes) → has_forbidden name ≡ false → NoSlash name
unfolding has_forbidden
has_forbidden-NoSlash [] h = tt
has_forbidden-NoSlash (c ∷ rest) h =
    (ground (arith, ==_iff c b'/'), has_forbidden-NoSlash rest (ground arith))

-- A new name that passes is one that a directory can hold.
good-IsName : (name : Bytes) → is_bad_name name ≡ false → IsName name
good-IsName name e = (
  ground (arith, e, ==_iff name []),
  ground (arith, e, ==_iff name dot),
  ground (arith, e, ==_iff name dot_dot),
  has_forbidden-NoSlash name (ground (arith, e)),
)

goes :
    (pool old name : Bytes) (body : Option (Bytes × Bytes))
    → IsName pool
    → IsName name
    → IsInPool pool old
    → has_prefix (root pool) (join_path (dir old) name) ≡ true
    → Goes (rename pool body) old (join_path (dir old) name)
goes pool old name body p n i starts = elim (renamed-IsInPool pool old name p n i) [
  | inl top ↦ inr (top, starts)
  | inr inside ↦ inl inside
]

module _ (w : World) where
  abbrev Fine : Request → Outcome → Type 0
  Fine r o = All (Allowed w r) o.calls

  -- After the path is resolved.
  resolved :
      (r : Request) (pool rel : Bytes) (f : Bytes × Bytes → Outcome)
      → ((at : Bytes × Bytes) → Inside pool at → Fine r (f at))
      → Fine r (on_option (resolve_pool_path pool rel) (refuse w 400) f)
  resolved r pool rel f h =
      option_case (Fine r) (resolve_pool_path pool rel) (refuse w 400) f (λ _. tt)
        (λ at e. h at (resolve_pool_path-Inside pool rel at e))

  -- After the caller is found to be an administrator.
  by_admin :
      (r : Request) (o : Outcome)
      → (w.is_admin ≡ true → Fine r o)
      → Fine r (if not w.is_admin then refuse w 403 else o)
  by_admin r o h =
      if_case (Fine r) (not w.is_admin) (refuse w 403) o (λ _. tt) (λ e. h (ground (arith, e)))

  of_body :
      (r : Request) (body : Option (Bytes × Bytes)) (f : Bytes × Bytes → Outcome)
      → ((req : Bytes × Bytes) → Fine r (f req))
      → Fine r (on_option body (refuse w 400) f)
  of_body r body f h = option_case (Fine r) body (refuse w 400) f (λ _. tt) (λ req e. h req)

  -- Every path that a request makes the system work on lies in the directory of the pool that it
  -- names, and only an administrator's request changes anything. The directory of the pool itself
  -- is not removed. There is one exception: where a rename is asked of the pool's own directory, the
  -- new path is only known to begin with the text of the old one.
  pub served-Allowed : (r : Request) → All (Allowed w r) (serve w r).calls
  unfolding serve files_list_handler files_delete_handler files_mkdir_handler files_rename_handler
      files_move_handler
  served-Allowed (list pool path) = resolved (list pool path) pool path _ (λ at i. (i.0, tt))
  served-Allowed (delete pool path) = by_admin (delete pool path) _ (λ admin.
      resolved (delete pool path) pool path _ (λ at i.
        if_case (Fine (delete pool path)) (at.0 == at.1) (refuse w 400)
          (ask w (remove_all at.0) 500) (λ _. tt)
          (λ e. ((admin, i.0, not_root at.0 at.1 (root pool) e i.1), tt))))
  served-Allowed (mkdir pool body) = by_admin (mkdir pool body) _ (λ admin.
      of_body (mkdir pool body) body _ (λ req.
        resolved (mkdir pool body) pool (req.0 ++ (b'/' ∷ req.1)) _ (λ at i. ((admin, i.0), tt))))
  served-Allowed (rename pool body) = by_admin (rename pool body) _ (λ admin.
      of_body (rename pool body) body _ (λ req.
        if_case (Fine (rename pool body)) (is_bad_name req.1) (refuse w 400) _ (λ _. tt)
          (λ good. resolved (rename pool body) pool req.0 _ (λ at i.
            if_case (Fine (rename pool body)) (not (has_prefix at.1 (join_path (dir at.0) req.1)))
              (refuse w 400) (ask w (rename_path at.0 (join_path (dir at.0) req.1)) 500) (λ _. tt)
              (λ e. (
                (
                  admin,
                  i.0,
                  goes pool at.0 req.1 body i.2 (good-IsName req.1 good) i.0
                      (starts_in at.1 (root pool) (join_path (dir at.0) req.1) i.1 e),
                ),
                tt,
              ))))))
  served-Allowed (move pool body) = by_admin (move pool body) _ (λ admin.
      of_body (move pool body) body _ (λ req.
        resolved (move pool body) pool req.0 _
          (λ src i. resolved (move pool body) pool req.1 _ (λ dst j. ((admin, i.0, j.0), tt)))))
