-- ===== src/Api/Sessions/Grants.antt =====
-- To whom loginHandler of internal/api/router.go gives a session.
use kilasos.Common.{
  ◌≡◌, ◌≢◌, inl, inr, String, true, false, [], arith, ◌==◌, ==_iff, nat_eq, string_eq, bytes_eq,
  Bool-cases,
}
use kilasos.Auth.Crypto.{Bytes, Crypto}
use kilasos.Auth.Password.{gen_token}
use kilasos.Auth.Users.State.{User, Env, Error}
use kilasos.Auth.Users.Login.{LoginResult, granted, totp_required, denied, login}
use kilasos.Auth.Users.Entry.Granted.{IsAdmissible, login-granted}
use kilasos.Api.Limiter as Limiter
use kilasos.Api.Gate.{Daemon, is_open}
use kilasos.Api.Sessions.{
  value, LoginRequest, session, is_addr_banned, finish_login, legacy_login, ask_store, answer_login,
  login_handler,
}

-- Why a session is given.
pub data Reason (lib : Crypto) (e : Env) (req : LoginRequest) (d : Daemon) (token : Bytes)
    (name role : String) : Type 0 where
  static_token :
      (req.token ≡ d.static_token)
      → (token ≡ d.static_token)
      → d.static_token ≢ []
      → Reason lib e req d token name role
  open_daemon : (is_open d ≡ true) → (token ≡ []) → Reason lib e req d token name role
  account :
      (name ≡ req.username)
      → (token ≡ gen_token e.token_bytes)
      → (u : User) → (role ≡ u.role)
      → IsAdmissible lib e req.username req.password req.totp_code d.users u
      → Reason lib e req d token name role

module _ (lib : Crypto) (error_text : Error → String) (e : Env) (addr : String) where
  finished :
      (name : String) (result : LoginResult) (d : Daemon) (token : Bytes) (who role : String)
      → (finish_login lib error_text e.now addr name result d).1 ≡ session token who role
      → (result ≡ granted token role) × (who ≡ name)
  unfolding finish_login
  finished name (granted t k) d token who role h = (ground arith, ground arith)
  finished name totp_required d token who role h = absurd (ground arith)
  finished name (denied err) d token who role h = absurd (ground arith)

  answered :
      (req : LoginRequest) (d : Daemon) (token : Bytes) (name role : String)
      → (answer_login lib error_text e addr (value req) d).1 ≡ session token name role
      → Reason lib e req d token name role
  unfolding answer_login legacy_login ask_store
  answered req d token name role h = elim (Bool-cases (req.token == [])) [
    | inr legacy ↦
        static_token (ground (arith, legacy, ==_iff req.token d.static_token))
          (ground (arith, legacy, ==_iff req.token d.static_token))
          (λ none_set. ground (arith, legacy, ==_iff d.static_token []))
    | inl by_name ↦ elim (Bool-cases (is_open d)) [
      | inl unset ↦ open_daemon unset (ground (arith, by_name, unset))
      | inr set_up ↦
          let after_login = (login lib e req.username req.password req.totp_code d.users).0 in
          let (result, same) =
            finished req.username (login lib e req.username req.password req.totp_code d.users).1
              (record d { users = after_login }) token name role
              (ground (arith, by_name, set_up)) in
          let (u, a, its_role, fresh) =
            login-granted lib e req.username req.password req.totp_code d.users token role result in
          account same fresh u its_role a
    ]
  ]

  -- A login over HTTP is answered with a session only where the limiter lets the attempt through
  -- and the address is not banned, and only for one of three reasons: the static token, which is
  -- not empty, was sent; the daemon has neither a static token nor a user; or the name, the
  -- password and the second factor are admissible to an account, and then the session has the
  -- account's name and role and a fresh token.
  pub login_handler_grants :
      (req : LoginRequest) (d : Daemon) (token : Bytes) (name role : String)
      → (login_handler lib error_text e addr (value req) d).1 ≡ session token name role
      → ((Limiter.allow e.now addr d.limiter).1 ≡ true)
        × (is_addr_banned e.now addr d.users.bf ≡ false)
        × Reason lib e req d token name role
  unfolding login_handler
  login_handler_grants req d token name role h =
      elim (Bool-cases (Limiter.allow e.now addr d.limiter).1) [
        | inr limited ↦ absurd (ground (arith, limited))
        | inl free ↦ elim (Bool-cases (is_addr_banned e.now addr d.users.bf)) [
          | inl banned ↦ absurd (ground (arith, free, banned))
          | inr clean ↦ (
            free,
            clean,
            moved req d token name role (
                answered req (record d { limiter = (Limiter.allow e.now addr d.limiter).0 }) token
                  name role (ground (arith, free, clean))),
          )
        ]
      ]
    where
      moved :
          (req : LoginRequest) (d : Daemon) (token : Bytes) (name role : String)
          → Reason lib e req
              (record d { limiter = (Limiter.allow e.now addr d.limiter).0 })
              token
              name
              role
          → Reason lib e req d token name role
      moved req d token name role (static_token sent same set) = static_token sent same set
      moved req d token name role (open_daemon unset empty) = open_daemon unset empty
      moved req d token name role (account n t u r a) = account n t u r a
