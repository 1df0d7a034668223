-- ===== src/Api/Gate.antt =====
-- Who a request comes from, in internal/api/router.go: authMiddleware and requireAdmin. The
-- middleware of the router has set the remote address.
pub mod Entrance
mod Tests
use kilasos.Common.{
  ℕ, String, Bool, true, false, not, ◌&&◌, ◌||◌, Option, none, some, [], ◌∷◌, length, take, drop,
  get_or, ltb, ◌==◌, nat_eq, string_eq, bytes_eq, if◌then◌else◌, on_option,
}
use kilasos.Auth.Crypto.{Bytes, Crypto}
use kilasos.Auth.Users.State.{UserStore}
use kilasos.Auth.Users.Accounts.{count}
use kilasos.Auth.Users.Sessions.{validate_token}
use kilasos.Auth.ApiKeys as ApiKeys
use kilasos.Auth.ApiKeys.{ApiKeyStore}
use kilasos.Audit.{Logger}
use kilasos.Api.Limiter.{LoginRateLimiter}

-- The objects that the router's handlers share. The tracker of failed logins is the one that the
-- user store holds.
pub record Daemon : Type 0 where
  pub static_token : Bytes
  pub users : UserStore
  pub api_keys : Option ApiKeyStore
  pub audit_log : Logger
  pub limiter : LoginRateLimiter

pub record Request : Type 0 where
  pub authorization : Bytes
  pub query_token : Bytes
  pub method : String
  pub remote_addr : String

-- `passed` has the user name and the role that the handlers find in the context.
pub data Verdict : Type 0 where
  passed : String → String → Verdict
  forbidden unauthorized : Verdict

-- "Bearer "
abbrev pub bearer : Bytes
bearer = 66 ∷ 101 ∷ 97 ∷ 114 ∷ 101 ∷ 114 ∷ 32 ∷ []

unfoldable pub trim_prefix : Bytes → Bytes → Bytes
trim_prefix front xs = if take (length front) xs == front then drop (length front) xs else xs

unfoldable pub presented : Request → Bytes
presented r =
    let token = trim_prefix bearer r.authorization in if token == [] then r.query_token else token

abbrev pub is_safe : String → Bool
is_safe method = method == "GET" || method == "HEAD" || method == "OPTIONS"

abbrev pub let_through : Request → String × String → Verdict
let_through r (username, role) =
    if role == "readonly" && not (is_safe r.method) then forbidden else passed username role

-- No static token is configured and there is no user.
abbrev pub is_open : Daemon → Bool
is_open d = d.static_token == [] && count d.users == 0

module _ (lib : Crypto) where
  -- The part for API keys; keys are `ID.SECRET` with an ID of eight characters.
  unfoldable pub ask_keys : ℕ → Bool → Request → Daemon → Daemon × Verdict
  ask_keys now writable r d =
      on_option d.api_keys (d, unauthorized)
        (λ keys.
          if ltb 16 (length (presented r)) && get_or (presented r) 8 0 == b'.'
          then (let answer = ApiKeys.validate lib now writable (presented r) keys in
              (
                record d { api_keys = some answer.0 },
                on_option answer.1 unauthorized (let_through r),
              ))
          else (d, unauthorized))

  unfoldable pub auth_middleware : ℕ → Bool → Request → Daemon → Daemon × Verdict
  auth_middleware now writable r d =
      if is_open d
      then (d, passed "admin" "admin")
      else if not (d.static_token == []) && presented r == d.static_token
      then (d, passed "admin" "admin")
      else let answer = validate_token now (presented r) d.users in
        let d' = record d { users = answer.0 } in
        on_option answer.1 (ask_keys now writable r d') (λ who. (d', let_through r who))

abbrev pub require_admin : String → Bool
require_admin role = role == "admin"
