-- ===== src/Api/Credentials/Owners.antt =====
-- What the handlers of internal/api/router.go for passwords and API keys grant, and to whom.
use kilasos.Common.{
  ℕ, ◌*◌, ◌/◌, ◌≤◌, ◌≡◌, ◌⊎◌, inl, inr, refl, ap, ◌∙◌, String, Bool, true, not, ◌&&◌, none, some,
  arith, All, length, find, ◌==◌, ==_iff, string_eq, Option-cases, Bool-cases,
}
use kilasos.Common.Int.{pos, ltb_ℤ}
use kilasos.Common.Time.{second, add}
use kilasos.Auth.Crypto.{Bytes, IsByte, Crypto}
use kilasos.Auth.Password.{check_password}
use kilasos.Auth.Policy as Policy
use kilasos.Auth.Policy.{PasswordPolicyConfig}
use kilasos.Auth.Policy.Rules.{IsStrong, validate_accepts}
use kilasos.Auth.Users.State.{User, UserStore, Env, find_user}
use kilasos.Auth.Users.Accounts.{change_password}
use kilasos.Auth.Users.Changes.Passwords.{change_password_lem}
use kilasos.Auth.ApiKeys as ApiKeys
use kilasos.Auth.ApiKeys.{ApiKeyStore, KeyEnv, Created, created, failed, has_hash, hash_of}
use kilasos.Auth.ApiKeys.Validity.{validate-create}
use kilasos.Api.Gate.{Daemon}
use kilasos.Api.Sessions.{value}
use kilasos.Api.Credentials.{
  PasswordRequest, KeyRequest, api_key, status, Texts, target_of, label_of, ttl_of, told,
  change_password_handler, create_api_key_handler,
}

module _ (lib : Crypto) (texts : Texts) where
  changed :
      (e : Env) (addr caller : String) (policy : PasswordPolicyConfig) (req : PasswordRequest)
      (d : Daemon)
      → (change_password_handler lib texts e addr caller policy (value req) d).1 ≡ status 200
      → (Policy.validate policy req.new_password ≡ none)
        × ((change_password lib e caller req.old_password req.new_password d.users).1 ≡ none)
        × ((change_password_handler lib texts e addr caller policy (value req) d).0.users
            ≡ (change_password lib e caller req.old_password req.new_password d.users).0)
  unfolding change_password_handler
  changed e addr caller policy req d ok =
      elim (Option-cases (Policy.validate policy req.new_password)) [
        | inr (err, weak) ↦ absurd (ground (arith, weak))
        | inl strong ↦
            elim (Option-cases
              (change_password lib e caller req.old_password req.new_password d.users).1) [
                | inr (err, refused) ↦ absurd (ground (arith, strong, refused))
                | inl done ↦ (strong, done, ground (arith, strong, done))
              ]
      ]

  -- A change of password over HTTP that is answered with 200 was to a password that the policy
  -- accepts, by a caller who gave the old one; afterwards the new one fits the caller's account,
  -- whose role is as before.
  pub change_password_handler_checks :
      (e : Env) (addr caller : String) (policy : PasswordPolicyConfig) (req : PasswordRequest)
      (salt : Bytes) (d : Daemon)
      → e.salts 0 ≡ some salt
      → All IsByte salt
      → length salt ≡ 32
      → (change_password_handler lib texts e addr caller policy (value req) d).1 ≡ status 200
      → IsStrong policy req.new_password
        × (u v : User) × (find_user caller d.users.users ≡ some u)
        × (find_user caller
              (change_password_handler lib texts e addr caller policy (value req) d).0.users.users
            ≡ some v)
        × (check_password lib req.old_password u.password_hash ≡ true)
        × (check_password lib req.new_password v.password_hash ≡ true)
        × (v.role ≡ u.role)
  change_password_handler_checks e addr caller policy req salt d drawn bytes size ok =
      let (strong, done, same) = changed e addr caller policy req d ok in
      let (u, v, found, after, _, given, fits, _, role, _, _, _, _, _) =
        change_password_lem lib e caller salt req.old_password req.new_password d.users drawn bytes
          size done in
      (
        (validate_accepts policy req.new_password).0 strong,
        u,
        v,
        found,
        ap (λ (s : UserStore). find_user caller s.users) same ∙ after,
        given,
        fits,
        role,
      )

  told_key :
      (now : ℕ) (addr caller target label : String) (answer : ApiKeyStore × Created) (d : Daemon)
      (id full : Bytes) (shown : String)
      → (told lib texts now addr caller target label answer d).1 ≡ api_key id full shown
      → answer.1 ≡ created id full
  told_key now addr caller target label (keys, failed err) d id full shown ok =
      absurd (ground arith)
  told_key now addr caller target label (keys, created i f) d id full shown ok = ground arith

  told_keys :
      (now : ℕ) (addr caller target label : String) (answer : ApiKeyStore × Created) (d : Daemon)
      → (told lib texts now addr caller target label answer d).0.api_keys ≡ some answer.0
  told_keys now addr caller target label (keys, failed err) d = refl
  told_keys now addr caller target label (keys, created i f) d = refl

  abbrev made_key : KeyEnv → String → KeyRequest → ApiKeyStore → Daemon → ApiKeyStore × Created
  made_key e caller req keys d =
      ApiKeys.create lib e d.users.users (target_of caller req) (label_of req) (ttl_of req) keys

  made :
      (e : KeyEnv) (addr caller role : String) (req : KeyRequest) (keys : ApiKeyStore) (d : Daemon)
      (id full : Bytes) (label : String)
      → (create_api_key_handler lib texts e addr caller role req keys d).1 ≡ api_key id full label
      → ((target_of caller req ≡ caller) ⊎ (role ≡ "admin"))
        × ((made_key e caller req keys d).1 ≡ created id full)
        × ((create_api_key_handler lib texts e addr caller role req keys d).0.api_keys
            ≡ some (made_key e caller req keys d).0)
  unfolding create_api_key_handler
  made e addr caller role req keys d id full label ok =
      elim (Bool-cases (not (target_of caller req == caller) && not (role == "admin"))) [
        | inl stranger ↦ absurd (ground (arith, stranger))
        | inr may ↦ (
          elim (Bool-cases (target_of caller req == caller)) [
            | inl own ↦ inl ((==_iff (target_of caller req) caller).0 own)
            | inr other ↦ inr ((==_iff role "admin").0 (ground (arith, may, other)))
          ],
          told_key e.now addr caller (target_of caller req) (label_of req)
              (made_key e caller req keys d) d id full label (simp may at ok),
          simp may (
              told_keys e.now addr caller (target_of caller req) (label_of req)
                (made_key e caller req keys d) d),
        )
      ]

  -- An API key that is answered over HTTP is for the caller or was asked for by an administrator,
  -- and it is accepted, up to its expiry, as the user that it is for, with the role that the user
  -- has. (Its random bytes have their lengths, and no earlier key has its hash.)
  pub create_api_key_handler_owner :
      (e : KeyEnv) (addr caller role : String) (req : KeyRequest) (keys : ApiKeyStore) (d : Daemon)
      (id full : Bytes) (label : String) (now : ℕ) (writable : Bool)
      → (create_api_key_handler lib texts e addr caller role req keys d).1 ≡ api_key id full label
      → find (has_hash lib (hash_of lib full)) keys.keys ≡ none
      → length e.id_bytes ≡ 4
      → length e.key_bytes ≡ 32
      → (ltb_ℤ (pos 0) (ttl_of req) ≡ true → now ≤ add e.now (ttl_of req) / second * second)
      → ((target_of caller req ≡ caller) ⊎ (role ≡ "admin"))
        × (kept : ApiKeyStore) × ((create_api_key_handler lib texts e addr caller role req keys
              d).0.api_keys
            ≡ some kept)
        × (u : User) × (find_user (target_of caller req) d.users.users ≡ some u)
        × ((ApiKeys.validate lib now writable full kept).1 ≡ some (target_of caller req, u.role))
  create_api_key_handler_owner e addr caller role req keys d id full label now writable ok fresh
        four more soon =
      let (may, done, kept) = made e addr caller role req keys d id full label ok in
      let (u, found, accepted) =
        validate-create lib e d.users.users (target_of caller req) (label_of req) (ttl_of req) keys
          now writable id full done fresh four more soon in
      (may, (made_key e caller req keys d).0, kept, u, found, accepted)
