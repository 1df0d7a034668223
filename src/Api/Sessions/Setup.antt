-- ===== src/Api/Sessions/Setup.antt =====
-- The first account of a daemon, and the last one, in internal/api/router.go.
use kilasos.Common.{
  ℕ, ◌<◌, ◌≡◌, ◌≢◌, ap, ◌∙◌, String, false, none, some, List, [], ◌∷◌, arith, length, find,
  remove_first, All, ◌==◌, ==_iff, nat_eq, string_eq, bytes_eq, Bool-cases, Option-cases, inl, inr,
}
use kilasos.Auth.Crypto.{Bytes, IsByte, Crypto}
use kilasos.Auth.Password.{gen_token}
use kilasos.Auth.Users.State.{User, UserStore, Env, Error, find_user, named, save, save_sessions}
use kilasos.Auth.Users.Accounts.{delete_user, register, count}
use kilasos.Auth.Users.Sessions.{validate_token}
use kilasos.Auth.Users.Login.{is_locked}
use kilasos.Auth.Users.Consistency.Lookup.{find-remove_first}
use kilasos.Auth.Users.Consistency.Backing.{IsConsistent}
use kilasos.Auth.Users.Consistency.Runs.{accepted_backed}
use kilasos.Auth.Users.Changes.Passwords.{login-register}
use kilasos.Api.Gate.{Daemon, is_open}
use kilasos.Api.Sessions.{value, session, delete_user_handler, register_handler}

users-delete_user :
    (e : Env) (target : String) (u : User) (s : UserStore)
    → find_user target s.users ≡ some u
    → (delete_user e target s).0.users ≡ remove_first (named target) s.users
unfolding delete_user save save_sessions
users-delete_user e target u s found = ground (arith, found)

others-delete_user :
    (e : Env) (target me : String) (s : UserStore)
    → target ≢ me
    → find_user me (delete_user e target s).0.users ≡ find_user me s.users
unfolding delete_user
others-delete_user e target me s apart = elim (Option-cases (find_user target s.users)) [
  | inl nobody ↦ ground (arith, nobody)
  | inr (u, found) ↦
      ap (find_user me) (users-delete_user e target u s found)
      ∙ find-remove_first me target s.users apart
]

some_user :
    (me : String) (u : User) (users : List User) → find_user me users ≡ some u → 0 < length users
unfolding find
some_user me u [] found = absurd (ground arith)
some_user me u (v ∷ users) found = omega arith

not_open :
    (me : String) (u : User) (d : Daemon) → find_user me d.users.users ≡ some u → is_open d ≡ false
not_open me u d found = ground (arith, some_user me u d.users.users found)

module _ (lib : Crypto) (error_text : Error → String) (e : Env) (addr : String) where
  deleted_by :
      (me role target : String) (d : Daemon)
      → find_user me (delete_user_handler lib error_text e addr me role target d).0.users.users
        ≡ find_user me d.users.users
  unfolding delete_user_handler
  deleted_by me role target d = elim (Bool-cases (target == me)) [
    | inl self ↦ ground (arith, self)
    | inr other ↦ ground (
      arith,
      other,
      others-delete_user e target me d.users (λ same. ground (arith, ==_iff target me)),
    )
  ]

  -- A user who is logged in cannot empty the store of users: whomever they delete, their own
  -- account stays, and the daemon is not left open to everybody. (The sessions are taken to be
  -- backed by accounts, as they are after any calls.)
  pub deletion_keeps_caller :
      (now : ℕ) (token : Bytes) (me role target : String) (d : Daemon)
      → IsConsistent d.users
      → (validate_token now token d.users).1 ≡ some (me, role)
      → (u : User) × (find_user me
            (delete_user_handler lib error_text e addr me role target d).0.users.users
          ≡ some u)
        × (u.role ≡ role)
        × (is_open (delete_user_handler lib error_text e addr me role target d).0 ≡ false)
  deletion_keeps_caller now token me role target d h accepted =
      let (u, found, its_role, _) = accepted_backed now token me role d.users h accepted in
      let stays = deleted_by me role target d ∙ found in
      (
        u,
        stays,
        its_role,
        not_open me u (delete_user_handler lib error_text e addr me role target d).0 stays,
      )

  -- A daemon without a user makes the first one an administrator who is logged in at once, where
  -- the account can be stored, the salt has 32 bytes and the name is not locked.
  pub register_handler_sets_up :
      (later : Env) (n : String) (salt password : Bytes) (d : Daemon)
      → count d.users ≡ 0
      → e.salts 0 ≡ some salt
      → All IsByte salt
      → length salt ≡ 32
      → is_locked later.now n d.users.bf ≡ false
      → (register lib e n password "admin" d.users).1 ≡ none
      → (register_handler lib error_text e later addr (value (n, password)) d).1
        ≡ session (gen_token later.token_bytes) n "admin"
  unfolding register_handler
  register_handler_sets_up later n salt password d empty drawn bytes size free ok = ground (
    arith,
    ok,
    empty,
    login-register lib e n salt later password [] "admin" d.users drawn bytes size free ok,
  )
