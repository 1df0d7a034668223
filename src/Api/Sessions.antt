-- ===== src/Api/Sessions.antt =====
-- The handlers of internal/api/router.go for logins, the first account, and accounts. A handler
-- answers with a status, or with a session.
pub mod Grants
pub mod Setup
mod Tests
use Prim.Native.String.{◌++◌ as join}
use kilasos.Common.{
  ℕ, String, Bool, true, false, not, ◌&&◌, ◌||◌, Option, none, some, [], ◌==◌, nat_eq, string_eq,
  bytes_eq, if◌then◌else◌, on_option,
}
use kilasos.Auth.Crypto.{Bytes, Crypto}
use kilasos.Auth.BruteForce as BruteForce
use kilasos.Auth.BruteForce.{BruteForceTracker}
use kilasos.Auth.Users.State.{UserStore, Env, Error}
use kilasos.Auth.Users.Accounts as Accounts
use kilasos.Auth.Users.Sessions as Tokens
use kilasos.Auth.Users.Login.{LoginResult, granted, totp_required, denied, login}
use kilasos.Audit.{Entry, Logger, plain_entry, log_enriched, log}
use kilasos.Api.Limiter as Limiter
use kilasos.Api.Gate.{Daemon, Request, trim_prefix, bearer, is_open, require_admin}

-- A request's JSON body: the decoder's error, or the value.
pub data Body (A : Type 0) : Type 0 where
  garbled : String → Body A
  value : A → Body A

pub record LoginRequest : Type 0 where
  pub username : String
  pub password : Bytes
  pub totp_code : Bytes
  pub token : Bytes

-- `session` is 200 or 201 with a token, a user name and a role.
pub data Response : Type 0 where
  session : Bytes → String → String → Response
  requires_totp : Response
  status : ℕ → Response

abbrev pub note : ℕ → String → String → String → String → Bool → Daemon → Daemon
note now user action detail addr ok d = record d {
  audit_log = log now user action detail addr ok d.audit_log;
}

-- `bf != nil && bf.IsBanned(ip)`
abbrev pub is_addr_banned : ℕ → String → Option BruteForceTracker → Bool
is_addr_banned now addr none = false
is_addr_banned now addr (some b) = BruteForce.is_banned now addr b

abbrev pub count_failure : ℕ → String → Option BruteForceTracker → Option BruteForceTracker × Bool
count_failure now addr none = (none, false)
count_failure now addr (some b) =
    let answer = BruteForce.record_failure now addr b in (some answer.0, answer.1)

abbrev pub forget_failures : String → Option BruteForceTracker → Option BruteForceTracker
forget_failures addr none = none
forget_failures addr (some b) = some (BruteForce.record_success addr b)

abbrev pub with_tracker : Option BruteForceTracker → Daemon → Daemon
with_tracker bf d = record d { users = Accounts.set_brute_force_tracker bf d.users }

abbrev pub first_session : String → LoginResult → Response
first_session username (granted token role) = session token username role
first_session username _ = session [] username ""

-- The texts of the errors go to the log only (`err.Error()`).
module _ (lib : Crypto) (error_text : Error → String) where
  -- The part after `users.Login`.
  unfoldable pub finish_login : ℕ → String → String → LoginResult → Daemon → Daemon × Response
  unfolding Accounts.set_brute_force_tracker
  finish_login now addr username totp_required d = (d, requires_totp)
  finish_login now addr username (denied err) d =
      let counted = count_failure now addr d.users.bf in
      let d' = with_tracker counted.0 d in
      let entry = plain_entry username "login" (error_text err) addr false in
      (
        record d' { audit_log = log_enriched now entry d'.audit_log },
        if counted.1 then status 403 else status 401,
      )
  finish_login now addr username (granted token role) d =
      let d' = record d { limiter = Limiter.record_success addr d.limiter } in
      (
        note now username "login" role addr true
            (with_tracker (forget_failures addr d'.users.bf) d'),
        session token username role,
      )

  -- `req.Token != ""`: the static token.
  unfoldable pub legacy_login : ℕ → String → Bytes → Daemon → Daemon × Response
  legacy_login now addr token d =
      if d.static_token == [] || not (token == d.static_token)
      then (note now "admin" "login" "legacy token" addr false d, status 401)
      else (note now "admin" "login" "legacy token" addr true d, session token "admin" "admin")

  unfoldable pub ask_store : Env → String → LoginRequest → Daemon → Daemon × Response
  ask_store e addr req d =
      let answer = login lib e req.username req.password req.totp_code d.users in
      finish_login e.now addr req.username answer.1 (record d { users = answer.0 })

  unfoldable pub answer_login : Env → String → Body LoginRequest → Daemon → Daemon × Response
  answer_login e addr (garbled text) d = (d, status 400)
  answer_login e addr (value req) d =
      if not (req.token == [])
      then legacy_login e.now addr req.token d
      else if is_open d
      then (d, session [] "admin" "admin")
      else ask_store e addr req d

  unfoldable pub login_handler : Env → String → Body LoginRequest → Daemon → Daemon × Response
  login_handler e addr body d =
      let answer = Limiter.allow e.now addr d.limiter in
      let d' = record d { limiter = answer.0 } in
      if not answer.1
      then (d', status 429)
      else if is_addr_banned e.now addr d.users.bf
      then (
        record d' {
          audit_log =
              log_enriched e.now (plain_entry "" "login-blocked" "ip-banned" addr false)
                d.audit_log;
        },
        status 403,
      )
      else answer_login e addr body d'

  unfoldable pub register_handler :
      Env → Env → String → Body (String × Bytes) → Daemon → Daemon × Response
  register_handler e e' addr body d =
      if not (Accounts.count d.users == 0)
      then (note e.now "" "register" "already-setup" addr false d, status 403)
      else elim body [
        | garbled text ↦
            (note e.now "" "register" (join "invalid-json:" text) addr false d, status 400)
        | value (username, password) ↦
            let made = Accounts.register lib e username password "admin" d.users in
            let d' = record d { users = made.0 } in
            on_option made.1
              (let answer = login lib e' username password [] made.0 in
                let d'' = record d { users = answer.0 } in
                (
                  note e.now username "register" "initial admin" addr true d'',
                  first_session username answer.1,
                ))
              (λ err. (
                note e.now username "register" (join "register-failed:" (error_text err)) addr false
                    d',
                status 400,
              ))
      ]

  unfoldable pub logout_handler : Env → Request → Daemon → Daemon × Response
  logout_handler e r d =
      let token = trim_prefix bearer r.authorization in
      let asked = Tokens.validate_token e.now token d.users in
      let d' = record d { users = Tokens.logout e token asked.0 } in
      (
        note e.now (on_option asked.1 "" (λ who. who.0)) "logout" "" r.remote_addr true d',
        status 200,
      )

  -- `me` and `role` are those of the context.
  unfoldable pub delete_user_handler :
      Env → String → String → String → String → Daemon → Daemon × Response
  delete_user_handler e addr me role target d =
      if not (require_admin role)
      then (d, status 403)
      else if target == me
      then (note e.now me "user-delete" "self-delete-blocked" addr false d, status 400)
      else let gone = Accounts.delete_user e target d.users in
        let d' = record d { users = gone.0 } in
        on_option gone.1 (note e.now me "user-delete" target addr true d', status 200)
          (λ err. (
            note e.now me "user-delete" (join target (join ":" (error_text err))) addr false d',
            status 404,
          ))

  unfoldable pub set_role_handler :
      Env → String → String → String → String → Body String → Daemon → Daemon × Response
  set_role_handler e addr actor role target body d =
      if not (require_admin role) then (d, status 403) else elim body [
        | garbled text ↦
            (note e.now actor "role-change" (join "invalid-json:" text) addr false d, status 400)
        | value new_role ↦
            let changed = Accounts.set_role e target new_role d.users in
            let d' = record d { users = changed.0 } in
            let what = join target (join "→" new_role) in
            on_option changed.1 (note e.now actor "role-change" what addr true d', status 200)
              (λ err. (
                note e.now actor "role-change" (join what (join ":" (error_text err))) addr false
                    d',
                status 400,
              ))
      ]
