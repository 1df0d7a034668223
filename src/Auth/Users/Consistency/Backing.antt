-- ===== src/Auth/Users/Consistency/Backing.antt =====
-- The invariant, and how the changes of the store that the methods are made of keep it.
use kilasos.Common.{
  String, ◌≡◌, refl, Bool, true, false, not, ◌&&◌, Option, none, some, List, ◌++◌, arith, All,
  update_first, remove_first, ◌==◌, ==_iff, if_case, string_eq, bytes_eq, if◌then◌else◌,
}
use kilasos.Auth.Crypto.{Bytes}
use kilasos.Auth.Users.State.{
  User, Session, UserStore, Env, write_failed, save, save_sessions, named, find_user, is_session_of,
}
use kilasos.Auth.Users.Consistency.Lookup.{find-append, find-update_first, find-remove_first}

abbrev fits : Session → Option User → Bool
fits sess none = false
fits sess (some u) = u.role == sess.role && not u.disabled

-- The user of the session exists, has the session's role, and is not disabled.
abbrev pub Backed : List User → Bytes × Session → Type 0
Backed users e = fits e.1 (find_user e.1.username users) ≡ true

-- Every session is backed by an account.
pub record IsConsistent (s : UserStore) : Type 0 where
  pub backed : All (Backed s.users) s.sessions

-- The store that a method leaves, beside its answer.
pub record Kept {B : Type 0} (a : UserStore × B) : Type 0 where
  pub store : IsConsistent a.0

-- The account behind a session.
pub backing :
    (users : List User) (x : Bytes × Session)
    → Backed users x
    → (u : User) × (find_user x.1.username users ≡ some u)
      × (u.role ≡ x.1.role)
      × (u.disabled ≡ false)
backing users x h = go (find_user x.1.username users) refl h
  where
    go :
        (o : Option User)
        → find_user x.1.username users ≡ o
        → fits x.1 o ≡ true
        → (u : User) × (find_user x.1.username users ≡ some u)
          × (u.role ≡ x.1.role)
          × (u.disabled ≡ false)
    go none e h = cc
    go (some u) e h =
        (u, e, ground (arith, ==_iff u.role x.1.role), ground (arith, ==_iff u.role x.1.role))

pub save-Kept : (e : Env) (s : UserStore) → IsConsistent s → Kept (save e s)
unfolding save
save-Kept e s h =
    if_case Kept e.users_writable (record s { users_file = s.users }, none) (s, some write_failed)
      (λ _. record { store = record { backed = h.backed } }) (λ _. record { store = h })

pub save_sessions-IsConsistent :
    (e : Env) (s : UserStore) → IsConsistent s → IsConsistent (save_sessions e s)
unfolding save_sessions
save_sessions-IsConsistent e s h =
    let t = record s { sessions_file = s.sessions } in
    if_case IsConsistent (s.sessions_path == "") s (if e.sessions_writable then t else s) (λ _. h)
      λ _. if_case IsConsistent e.sessions_writable t s (λ _. record { backed = h.backed }) (λ _. h)

-- More users, and fewer sessions.
pub Backed-append :
    (users more : List User) (x : Bytes × Session) → Backed users x → Backed (users ++ more) x
Backed-append users more x h =
    let (u, found, _, _) = backing users x h in
    rw (find-append x.1.username users more u found) (rw found at h)

pub Backed-remove_first :
    (n : String) (users : List User) (x : Bytes × Session)
    → not (is_session_of n x) ≡ true
    → Backed users x
    → Backed (remove_first (named n) users) x
Backed-remove_first n users x other h =
    ground
      (arith, find-remove_first x.1.username n users, ==_iff x.1.username n, ==_iff n x.1.username)

-- A change of one account that keeps its name, its role and whether it is disabled.
pub record Keeps (n : String) (f : User → User) (users : List User) : Type 0 where
  pub username : (u : User) → u.username ≡ n → (f u).username ≡ n
  pub role : (u : User) → find_user n users ≡ some u → (f u).role ≡ u.role
  pub disabled : (u : User) → find_user n users ≡ some u → (f u).disabled ≡ u.disabled

pub Backed-update_first :
    (n : String) (f : User → User) (users : List User) (x : Bytes × Session)
    → Keeps n f users
    → Backed users x
    → Backed (update_first (named n) f users) x
Backed-update_first n f users x k h =
    let (u, found, role, on) = backing users x h in
    ground (
      arith,
      find-update_first x.1.username n f users k.username,
      k.role u,
      k.disabled u,
      found,
      ==_iff n x.1.username,
      ==_iff (f u).role x.1.role,
    )

-- Sessions of others do not see the change.
pub Backed-update_first_ne :
    (n : String) (f : User → User) (users : List User) (x : Bytes × Session)
    → ((u : User) → u.username ≡ n → (f u).username ≡ n)
    → not (is_session_of n x) ≡ true
    → Backed users x
    → Backed (update_first (named n) f users) x
Backed-update_first_ne n f users x same other h = ground (
  arith,
  find-update_first x.1.username n f users same,
  ==_iff x.1.username n,
  ==_iff n x.1.username,
)
