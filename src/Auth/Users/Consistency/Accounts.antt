-- ===== src/Auth/Users/Consistency/Accounts.antt =====
-- Each method of the store keeps every session backed by an account.
use kilasos.Common.{
  All-imp, String, ◌≡◌, refl, Bool, true, false, some, List, [], ◌∷◌, ◌++◌, arith, map, All-map,
  All-keep, update_first, remove_first, ==_iff, string_eq, bytes_eq, if◌then◌else◌,
}
use kilasos.Auth.Crypto.{Bytes, Crypto}
use kilasos.Auth.Users.State.{
  User, Session, UserStore, Env, save, save_sessions, named, find_user, set_user, drop_sessions,
}
use kilasos.Auth.Users.Accounts.{
  register, register_external, delete_user, set_role, set_disabled, update_user, demoted,
}
use kilasos.Auth.Users.Consistency.Rules.{branches, set_user-IsConsistent}
use kilasos.Auth.Users.Consistency.Lookup.{find-update_first}
use kilasos.Auth.Users.Consistency.Backing.{
  Backed, IsConsistent, Kept, save-Kept, save_sessions-IsConsistent, Backed-append,
  Backed-remove_first, Keeps, Backed-update_first_ne, backing,
}

add_user-Kept :
    (e : Env) (u : User) (s : UserStore)
    → IsConsistent s
    → Kept (save e (record s { users = s.users ++ (u ∷ []) }))
add_user-Kept e u s h =
    save-Kept e (record s { users = s.users ++ (u ∷ []) })
      (record {
        backed = All-imp _ _ s.sessions (λ x b. Backed-append s.users (u ∷ []) x b) h.backed;
      })

pub register_external-Kept :
    (e : Env) (n role source : String) (s : UserStore)
    → IsConsistent s
    → Kept (register_external e n role source s)
unfolding register_external
register_external-Kept e n role source s h = search (branches, add_user-Kept)

pub register-Kept :
    (lib : Crypto) (e : Env) (n : String) (password : Bytes) (role : String) (s : UserStore)
    → IsConsistent s
    → Kept (register lib e n password role s)
unfolding register
register-Kept lib e n password role s h = search (branches, add_user-Kept) depth 8

pub delete_user-Kept :
    (e : Env) (n : String) (s : UserStore) → IsConsistent s → Kept (delete_user e n s)
unfolding delete_user
delete_user-Kept e n s h =
    let cut = drop_sessions n (record s { users = remove_first (named n) s.users }) in
    let k = save-Kept e cut (record {
      backed =
          All-keep (Backed s.users) (Backed cut.users) _ s.sessions
            (λ x other b. Backed-remove_first n s.users x other b) h.backed;
    }) in
    let saved = save_sessions-IsConsistent e (save e cut).0 k.store in search (branches, k, saved)

-- The new role on both sides.
Backed-demoted :
    (n role : String) (users : List User) (x : Bytes × Session)
    → Backed users x
    → Backed (update_first (named n) (λ u. record u { role = role }) users) (demoted n role x)
Backed-demoted n role users (tok, sess) h =
    let (u, found, same, on) = backing users (tok, sess) h in
    ground (
      arith,
      found,
      find-update_first sess.username n (λ v. record v { role = role }) users (λ v e. e),
      find-update_first n n (λ v. record v { role = role }) users (λ v e. e),
      ==_iff sess.username n,
      ==_iff n sess.username,
      ==_iff n n,
      ==_iff role role,
    )

pub set_role-Kept :
    (e : Env) (n role : String) (s : UserStore) → IsConsistent s → Kept (set_role e n role s)
unfolding set_role
set_role-Kept e n role s h =
    let t = set_user n (λ u. record u { role = role }) s in
    let mapped =
      All-map (Backed s.users) (Backed t.users) (demoted n role) s.sessions
        (Backed-demoted n role s.users) h.backed in
    let saved =
      save-Kept e (record t { sessions = map (demoted n role) s.sessions })
        (record { backed = mapped }) in
    search (branches, saved)

Backed-enabled :
    (n : String) (users : List User) (x : Bytes × Session)
    → Backed users x
    → Backed (update_first (named n) (λ u. record u { disabled = false }) users) x
Backed-enabled n users x h =
    let (u, found, same, on) = backing users x h in
    ground (
      arith,
      found,
      find-update_first x.1.username n (λ v. record v { disabled = false }) users (λ v e. e),
      ==_iff n x.1.username,
      ==_iff u.role x.1.role,
    )

set_disabled_store :
    (e : Env) (n : String) (disabled : Bool) (s : UserStore)
    → IsConsistent s
    → let t = set_user n (λ u. record u { disabled = disabled }) s in
      IsConsistent (if disabled then save_sessions e (drop_sessions n t) else t)
set_disabled_store e n true s h =
    let t = set_user n (λ u. record u { disabled = true }) s in
    save_sessions-IsConsistent e (drop_sessions n t) (record {
      backed =
          All-keep (Backed s.users) (Backed t.users) _ s.sessions
            (λ x other b. Backed-update_first_ne n _ s.users x (λ v e. e) other b) h.backed;
    })
set_disabled_store e n false s h = record {
  backed = All-imp _ _ s.sessions (Backed-enabled n s.users) h.backed;
}

pub set_disabled-Kept :
    (e : Env) (n : String) (disabled : Bool) (s : UserStore)
    → IsConsistent s
    → Kept (set_disabled e n disabled s)
unfolding set_disabled
set_disabled-Kept e n disabled s h =
    search (branches, save-Kept, set_disabled_store e n disabled s h)

-- A record that is put in whole, by a caller that keeps its role and whether it is disabled.
pub update_user-Kept :
    (e : Env) (u : User) (s : UserStore)
    → ((v : User)
        → find_user u.username s.users ≡ some v
        → (u.role ≡ v.role) × (u.disabled ≡ v.disabled))
    → IsConsistent s
    → Kept (update_user e u s)
unfolding update_user
update_user-Kept e u s same h =
    let k : Keeps u.username (λ _. u) s.users = record {
      username = λ v e. refl;
      role = λ v found. (same v found).0;
      disabled = λ v found. (same v found).1;
    } in
    search (branches, save-Kept, set_user-IsConsistent u.username (λ _. u) s k h)
