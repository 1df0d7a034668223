-- ===== src/Api/Credentials.antt =====
-- The handlers of internal/api/router.go for the caller's own password, backup codes and API keys.
-- The caller's name and role are those of the context. Keys and policy are the router's objects.
pub mod Owners
mod Tests
use Prim.Native.String.{◌++◌ as join}
use kilasos.Common.{
  ℕ, String, Bool, true, false, not, ◌&&◌, Option, none, some, List, ◌==◌, string_eq, if◌then◌else◌,
  on_option,
}
use kilasos.Common.Int.{ℤ, pos, ltb_ℤ, times}
use kilasos.Common.Time.{hour}
use kilasos.Auth.Crypto.{Bytes, Crypto}
use kilasos.Auth.Policy as Policy
use kilasos.Auth.Policy.{PasswordPolicyConfig, PolicyError}
use kilasos.Auth.Users.State.{UserStore, Env, Error}
use kilasos.Auth.Users.Accounts as Accounts
use kilasos.Auth.Users.Recovery as Recovery
use kilasos.Auth.ApiKeys as ApiKeys
use kilasos.Auth.ApiKeys.{ApiKeyStore, KeyEnv, KeyError, Created}
use kilasos.Audit.{Entry, plain_entry, log_enriched}
use kilasos.Api.Gate.{Daemon}
use kilasos.Api.Sessions.{Body, garbled, value}

pub record PasswordRequest : Type 0 where
  pub old_password : Bytes
  pub new_password : Bytes

pub record KeyRequest : Type 0 where
  pub username : String
  pub label : String
  pub ttl_days : ℤ

-- `api_key` is 200 with the ID, the full key and the label; `backup_codes` is 200 with the codes.
pub data Answer : Type 0 where
  api_key : Bytes → Bytes → String → Answer
  backup_codes : List Bytes → Answer
  status : ℕ → Answer

-- The texts of errors, for the log.
pub record Texts : Type 0 where
  pub of_store : Error → String
  pub of_policy : PolicyError → String
  pub of_keys : KeyError → String
  pub of_random : String
  pub of_id : Bytes → String

abbrev pub note : ℕ → Entry → Daemon → Daemon
note now entry d = record d { audit_log = log_enriched now entry d.audit_log }

abbrev pub target_of : String → KeyRequest → String
target_of caller req = if req.username == "" then caller else req.username

abbrev pub label_of : KeyRequest → String
label_of req = if req.label == "" then "API key" else req.label

abbrev pub ttl_of : KeyRequest → ℤ
ttl_of req = if ltb_ℤ (pos 0) req.ttl_days then times (times req.ttl_days 24) hour else pos 0

module _ (lib : Crypto) (texts : Texts) where
  unfoldable pub change_password_handler :
      Env → String → String → PasswordPolicyConfig → Body PasswordRequest → Daemon → Daemon × Answer
  change_password_handler e addr caller policy (garbled text) d =
      (note e.now (plain_entry caller "password-change" text addr false) d, status 400)
  change_password_handler e addr caller policy (value req) d =
      on_option (Policy.validate policy req.new_password)
        (let changed =
            Accounts.change_password lib e caller req.old_password req.new_password d.users in
          let d' = record d { users = changed.0 } in
          on_option changed.1
            (note e.now (plain_entry caller "password-change" "" addr true) d', status 200)
            (λ err. (
              note e.now (plain_entry caller "password-change" (texts.of_store err) addr false) d',
              status 400,
            )))
        (λ err. (
          note e.now
              (plain_entry caller "password-change" (join "policy:" (texts.of_policy err)) addr
                false)
              d,
          status 400,
        ))

  -- `draw` is what `rand.Int` gives for each character of each code.
  unfoldable pub generate_backup_codes_handler :
      Env → (ℕ → ℕ → Option ℕ) → String → String → PasswordPolicyConfig → Daemon → Daemon × Answer
  generate_backup_codes_handler e draw addr caller policy d =
      let failed =
        λ (text : String). plain_entry caller "totp-backup-codes-generate" text addr false in
      on_option (Policy.generate_backup_codes policy draw)
        (note e.now (failed texts.of_random) d, status 500)
        (λ codes.
          let set = Recovery.set_backup_codes lib e caller codes d.users in
          let d' = record d { users = set.0 } in
          on_option set.1
            (
              note e.now (plain_entry caller "totp-backup-codes-generate" "" addr true) d',
              backup_codes codes,
            )
            (λ err. (note e.now (failed (texts.of_store err)) d', status 500)))

  -- `req` is what the decoder leaves; its error is passed over.
  abbrev told :
      ℕ → String → String → String → String → ApiKeyStore × Created → Daemon → Daemon × Answer
  told now addr caller target label (keys, ApiKeys.failed err) d = (
    note now (plain_entry caller "apikey-create" (texts.of_keys err) addr false)
        (record d { api_keys = some keys }),
    status 400,
  )
  told now addr caller target label (keys, ApiKeys.created id full) d = (
    note now
        (record (plain_entry caller "apikey-create"
          (join "for=" (join target (join " label=" label))) addr true) {
            resource = texts.of_id id;
          })
        (record d { api_keys = some keys }),
    api_key id full label,
  )

  unfoldable pub create_api_key_handler :
      KeyEnv → String → String → String → KeyRequest → ApiKeyStore → Daemon → Daemon × Answer
  create_api_key_handler e addr caller role req keys d =
      let target = target_of caller req in
      if not (target == caller) && not (role == "admin")
      then (
        note e.now (plain_entry caller "apikey-create" (join "forbidden for=" target) addr false) d,
        status 403,
      )
      else told e.now addr caller target (label_of req)
          (ApiKeys.create lib e d.users.users target (label_of req) (ttl_of req) keys) d
