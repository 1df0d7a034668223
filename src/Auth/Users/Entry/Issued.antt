-- ===== src/Auth/Users/Entry/Issued.antt =====
-- The session that a login leaves.
use kilasos.Common.{
  ℕ, String, ◌≡◌, refl, some, [], arith, lookup, insert, ◌≤◌, ◌==◌, bytes_eq, string_eq,
  lookup-insert_self, Dict, if_case, option_case, subst, sym, not,
}
use kilasos.Common.Time.{add}
use kilasos.Auth.Crypto.{Bytes, Crypto}
use kilasos.Auth.Password.{check_password, gen_token}
use kilasos.Auth.Users.State.{
  User, Session, UserStore, Env, Error, save, save_sessions, find_user, account_disabled,
  account_locked, invalid_credentials, password_expired,
}
use kilasos.Auth.Users.Sessions.{start_session, validate_token, session_for, is_password_expired}
use kilasos.Auth.Totp.{validate_totp}
use mathlib.Core.Path.{subst₂}
use kilasos.Auth.Users.Recovery.{consume_backup_code}
use kilasos.Auth.Users.Login.{
  LoginResult, granted, totp_required, denied, login, second_factor, grant, tell_failure, is_locked,
}

-- The session under `token` is of `n`, with `role`, until `until`.
IsSession : Bytes → String → String → ℕ → UserStore → Type 0
IsSession token n role until s =
    (sess : Session) × (lookup token s.sessions ≡ some sess)
    × (sess.username ≡ n)
    × (sess.role ≡ role)
    × (sess.expires ≡ until)

-- What an answer says of the sessions that are left: a granted login has left its session, any
-- other answer the sessions that there were.
Leaves : String → ℕ → Dict Bytes Session → LoginResult → UserStore → Type 0
Leaves n until old (granted token role) t = IsSession token n role until t
Leaves n until old totp_required t = t.sessions ≡ old
Leaves n until old (denied err) t = t.sessions ≡ old

record Outcome (n : String) (until : ℕ) (old : Dict Bytes Session) (a : UserStore × LoginResult)
    : Type 0 where
  fact : Leaves n until old a.1 a.0

module _ (e : Env) (n : String) (u : User) (s : UserStore) where
  sessions-start_session :
      (source : String)
      → (start_session e n u source s).0.sessions
        ≡ insert (gen_token e.token_bytes) (session_for e s n u source) s.sessions
  unfolding start_session save save_sessions
  sessions-start_session source = ground arith

  token-start_session :
      (source : String) → (start_session e n u source s).1 ≡ gen_token e.token_bytes
  unfolding start_session
  token-start_session source = refl

  sessions-grant :
      (grant e n u s).0.sessions
      ≡ insert (gen_token e.token_bytes) (session_for e s n u "local") s.sessions
  unfolding grant
  sessions-grant = ground (arith, sessions-start_session "local")

  answer-grant : (grant e n u s).1 ≡ granted (gen_token e.token_bytes) u.role
  unfolding grant start_session
  answer-grant = refl

  granted-IsSession :
      IsSession (gen_token e.token_bytes) n u.role (add e.now s.session_duration) (grant e n u s).0
  unfolding IsSession
  granted-IsSession = (
    session_for e s n u "local",
    rw sessions-grant
        (lookup-insert_self (gen_token e.token_bytes) (session_for e s n u "local") s.sessions),
    refl,
    refl,
    refl,
  )

validate-IsSession :
    (token : Bytes) (n role : String) (until now : ℕ) (s : UserStore)
    → IsSession token n role until s
    → now ≤ until
    → validate_token now token s ≡ (s, some (n, role))
unfolding IsSession validate_token
validate-IsSession token n role until now s (sess, found, name, same, ends) h =
    ground (arith, found, name, same, ends)

module _ (lib : Crypto) (e : Env) (n : String) where
  kept-consume :
      (code : Bytes) (s : UserStore)
      → let t = (consume_backup_code lib e n code s).0 in
        (t.sessions ≡ s.sessions) × (t.session_duration ≡ s.session_duration)
  unfolding consume_backup_code save
  kept-consume code s = ground arith

  tell_failure-sessions :
      (now : ℕ) (u : User) (s : UserStore) → (tell_failure now n u s).sessions ≡ s.sessions
  tell_failure-sessions now u s = ground arith

  module _ (s : UserStore) where
    refuse : (err : Error) → Outcome n (add e.now s.session_duration) s.sessions (s, denied err)
    unfolding Leaves
    refuse err = record { fact = refl }

    grant-Outcome : (u : User) → Outcome n (add e.now s.session_duration) s.sessions (grant e n u s)
    unfolding Leaves
    grant-Outcome u = record {
      fact =
          subst (λ a. Leaves n (add e.now s.session_duration) s.sessions a (grant e n u s).0)
            (sym (answer-grant e n u s)) (granted-IsSession e n u s);
    }

    asked : Outcome n (add e.now s.session_duration) s.sessions (s, totp_required)
    unfolding Leaves
    asked = record { fact = refl }

    failed-Outcome :
        (u : User) (err : Error)
        → Outcome n (add e.now s.session_duration) s.sessions (tell_failure e.now n u s, denied err)
    unfolding Leaves
    failed-Outcome u err = record { fact = tell_failure-sessions e.now u s }

  second_factor-Outcome :
      (code : Bytes) (u : User) (s : UserStore)
      → Outcome n (add e.now s.session_duration) s.sessions (second_factor lib e n code u s)
  unfolding second_factor
  second_factor-Outcome code u s =
      let until = add e.now s.session_duration in
      let P = Outcome n until s.sessions in
      let t = (consume_backup_code lib e n code s).0 in
      let (same, lasts) = kept-consume code s in
      let moved =
        λ (a : UserStore × LoginResult) (o : Outcome n (add e.now t.session_duration) t.sessions a).
          subst₂ (λ d old. Outcome n (add e.now d) old a) lasts same o in
      if_case P (code == []) (s, totp_required) _ (λ _. asked s)
        λ _.
          if_case P (validate_totp lib e.now u.totp_secret code) (grant e n u s) _
            (λ _. grant-Outcome s u)
            λ _.
              if_case P (consume_backup_code lib e n code s).1 (grant e n u t) _
                (λ _. moved (grant e n u t) (grant-Outcome t u))
                (λ _. moved _ (failed-Outcome t u invalid_credentials))

  login-Outcome :
      (password code : Bytes) (s : UserStore)
      → Outcome n (add e.now s.session_duration) s.sessions (login lib e n password code s)
  unfolding login
  login-Outcome password code s =
      let P = Outcome n (add e.now s.session_duration) s.sessions in
      option_case P (find_user n s.users) (s, denied invalid_credentials) _
        (λ _. refuse s invalid_credentials)
        λ u _.
          if_case P u.disabled _ _ (λ _. refuse s account_disabled)
            λ _.
              if_case P (is_locked e.now n s.bf) _ _ (λ _. refuse s account_locked)
                λ _.
                  if_case P (not (check_password lib password u.password_hash)) _ _
                    (λ _. failed-Outcome s u invalid_credentials)
                    λ _.
                      if_case P (is_password_expired e.now s.policy u.source u.pw_changed_at) _ _
                        (λ _. refuse s password_expired)
                        λ _.
                          if_case P u.totp_enabled _ _ (λ _. second_factor-Outcome code u s)
                            (λ _. grant-Outcome s u)

  -- The token of a granted login is accepted, with the name of the login and the role that was
  -- answered, until the session's duration after the login has passed, and checking it changes
  -- nothing.
  pub validate_token-login :
      (password code token : Bytes) (role : String) (now : ℕ) (s : UserStore)
      → (login lib e n password code s).1 ≡ granted token role
      → now ≤ add e.now s.session_duration
      → validate_token now token (login lib e n password code s).0
        ≡ ((login lib e n password code s).0, some (n, role))
  unfolding Leaves
  validate_token-login password code token role now s h soon =
      let after_login = (login lib e n password code s).0 in
      let left =
        subst (λ a. Leaves n (add e.now s.session_duration) s.sessions a after_login) h
          (login-Outcome password code s).fact in
      validate-IsSession token n role (add e.now s.session_duration) now after_login left soon
