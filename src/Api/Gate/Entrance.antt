-- ===== src/Api/Gate/Entrance.antt =====
-- Whom authMiddleware of internal/api/router.go lets pass.
use kilasos.Common.{
  ℕ, ◌≡◌, ◌≢◌, inl, inr, ap, ◌∙◌, String, Bool, true, false, not, ◌&&◌, some, [], arith, ◌==◌,
  ==_iff, nat_eq, string_eq, bytes_eq, Option-cases, Bool-cases,
}
use kilasos.Auth.Crypto.{Crypto}
use kilasos.Auth.Users.State.{User, find_user}
use kilasos.Auth.Users.Accounts.{count}
use kilasos.Auth.Users.Sessions.{validate_token}
use kilasos.Auth.Users.Consistency.Backing.{IsConsistent}
use kilasos.Auth.Users.Consistency.Runs.{accepted_backed}
use kilasos.Auth.ApiKeys as ApiKeys
use kilasos.Auth.ApiKeys.{ApiKeyStore}
use kilasos.Api.Gate.{
  Daemon, Request, passed, presented, is_safe, let_through, is_open, ask_keys, auth_middleware,
}

-- A user who may only read uses a method that only reads.
abbrev pub IsReading : Request → String → Type 0
IsReading r role = role ≡ "readonly" → is_safe r.method ≡ true

-- The four ways in: a daemon that is not set up, the static token, a session, and an API key.
pub data Entrance (lib : Crypto) (now : ℕ) (writable : Bool) (r : Request) (d : Daemon)
    (name role : String) : Type 0 where
  by_open_daemon :
      (d.static_token ≡ [])
      → (count d.users ≡ 0)
      → (role ≡ "admin")
      → Entrance lib now writable r d name role
  by_static_token :
      (presented r ≡ d.static_token)
      → d.static_token ≢ []
      → (role ≡ "admin")
      → Entrance lib now writable r d name role
  by_session :
      ((validate_token now (presented r) d.users).1 ≡ some (name, role))
      → (u : User) → (find_user name d.users.users ≡ some u)
      → (u.role ≡ role)
      → (u.disabled ≡ false)
      → IsReading r role
      → Entrance lib now writable r d name role
  by_api_key :
      (keys : ApiKeyStore)
      → (d.api_keys ≡ some keys)
      → ((ApiKeys.validate lib now writable (presented r) keys).1 ≡ some (name, role))
      → IsReading r role
      → Entrance lib now writable r d name role

let_through_means :
    (r : Request) (who : String × String) (name role : String)
    → let_through r who ≡ passed name role
    → (who ≡ (name, role)) × IsReading r role
let_through_means r (n, k) name role h =
    (ground arith, λ reads. ground (arith, ==_iff k "readonly"))

by_keys :
    (lib : Crypto) (now : ℕ) (writable : Bool) (r : Request) (d : Daemon) (name role : String)
    → (ask_keys lib now writable r d).1 ≡ passed name role
    → (keys : ApiKeyStore) × (d.api_keys ≡ some keys)
      × ((ApiKeys.validate lib now writable (presented r) keys).1 ≡ some (name, role))
      × IsReading r role
unfolding ask_keys
by_keys lib now writable r d name role ok = elim (Option-cases d.api_keys) [
  | inl nothing ↦ absurd (ground (arith, nothing))
  | inr (keys, has) ↦ elim (Option-cases (ApiKeys.validate lib now writable (presented r) keys).1) [
    | inl refused ↦ absurd (ground (arith, has, refused))
    | inr (who, accepted) ↦
        let (same, reads) = let_through_means r who name role (ground (arith, has, accepted)) in
        (keys, has, accepted ∙ ap some same, reads)
  ]
]

module _ (lib : Crypto) (now : ℕ) (writable : Bool) (r : Request) (d : Daemon) where
  -- A request that passes came in by one of four ways: the daemon has neither a static token nor
  -- a user; or it presented the static token, which is not empty; or it presented the token of a
  -- session, whose account exists, is not disabled and has the role; or it presented an API key
  -- that is accepted. In the last two a user who may only read used a method that only reads.
  -- (The sessions are taken to be backed by accounts, as they are after any calls.)
  pub passed_means :
      (name role : String)
      → IsConsistent d.users
      → (auth_middleware lib now writable r d).1 ≡ passed name role
      → Entrance lib now writable r d name role
  unfolding auth_middleware
  passed_means name role h ok = elim (Bool-cases (is_open d)) [
    | inl open_daemon ↦
        by_open_daemon (ground (arith, ==_iff d.static_token [])) (ground arith) (ground arith)
    | inr closed ↦ elim (Bool-cases (not (d.static_token == []) && presented r == d.static_token)) [
      | inl static ↦
          by_static_token (ground (arith, ==_iff (presented r) d.static_token))
            (λ e. ground (arith, ==_iff d.static_token [])) (ground arith)
      | inr other ↦ elim (Option-cases (validate_token now (presented r) d.users).1) [
        | inl refused ↦
            let (keys, has, accepted, reads) =
              by_keys lib now writable r
                (record d { users = (validate_token now (presented r) d.users).0 }) name role
                (ground (arith, closed, other, refused)) in
            by_api_key keys has accepted reads
        | inr (who, accepted) ↦
            let (same, reads) =
              let_through_means r who name role (ground (arith, closed, other, accepted)) in
            let it = accepted ∙ ap some same in
            let (u, found, its_role, enabled) =
              accepted_backed now (presented r) name role d.users h it in
            by_session it u found its_role enabled reads
      ]
    ]
  ]
