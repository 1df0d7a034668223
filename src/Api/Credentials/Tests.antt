-- ===== src/Api/Credentials/Tests.antt =====
-- Passwords and API keys over HTTP, in internal/api/router.go, at a concrete daemon.
use kilasos.Common.{◌*◌, ◌≡◌, ◌⊎◌, refl, String, true, some, none, [], ◌∷◌, arith, find, ◌++◌}
use kilasos.Common.Int.{pos, times, wrap64}
use kilasos.Common.Time.{hour, add}
use kilasos.Auth.Crypto.{Bytes}
use kilasos.Auth.Password.{hex, hash_password, check_password}
use kilasos.Auth.Policy as Policy
use kilasos.Auth.Policy.{PasswordPolicyConfig}
use kilasos.Auth.Policy.Rules.{IsStrong}
use kilasos.Auth.Samples.{lib, zeros, salt, secret, secret_fits, zeros-IsByte, length-zeros}
use kilasos.Auth.Users.State.{User, find_user, save}
use kilasos.Auth.Users.Accounts.{change_password}
use kilasos.Auth.Users.Samples.{at_noon, with_bob}
use kilasos.Auth.ApiKeys as ApiKeys
use kilasos.Auth.ApiKeys.{ApiKeyStore, KeyEnv}
use kilasos.Api.Gate.{Daemon}
use kilasos.Api.Sessions.{value}
use kilasos.Api.Credentials.{
  PasswordRequest, KeyRequest, status, Texts, target_of, change_password_handler,
  create_api_key_handler,
}
use kilasos.Api.Credentials.Owners.{change_password_handler_checks, create_api_key_handler_owner}

abbrev texts : Texts
texts = record {
  of_store = λ e. "store";
  of_policy = λ e. "policy";
  of_keys = λ e. "keys";
  of_random = "random";
  of_id = λ b. "id";
}

abbrev daemon : Daemon
daemon = record {
  static_token = [];
  users = with_bob;
  api_keys = none;
  audit_log = record { entries = []; retention_days = pos 0; anonymize_ip = true };
  limiter = [];
}

abbrev peer : String
peer = "10.0.0.7"

abbrev policy : PasswordPolicyConfig
policy = record Policy.default_policy { min_length = pos 4 }

-- "New4"
abbrev renewal : PasswordRequest
renewal = record { old_password = secret; new_password = 78 ∷ 101 ∷ 119 ∷ 52 ∷ [] }

bob_changes :
    (change_password_handler lib texts at_noon peer "bob" policy (value renewal) daemon).1
    ≡ status 200
unfolding change_password_handler Policy.validate Policy.scan Policy.see Policy.check_flags
    change_password find hash_password save
bob_changes = rw secret_fits refl

change_password_handler_checks_example :
    IsStrong policy renewal.new_password
    × (u v : User) × (find_user "bob" with_bob.users ≡ some u)
    × (find_user "bob"
          (change_password_handler lib texts at_noon peer "bob" policy
            (value renewal)
            daemon).0.users.users
        ≡ some v)
    × (check_password lib secret u.password_hash ≡ true)
    × (check_password lib renewal.new_password v.password_hash ≡ true)
    × (v.role ≡ u.role)
change_password_handler_checks_example =
    change_password_handler_checks lib texts at_noon peer "bob" policy renewal salt daemon refl
      (zeros-IsByte 32) (length-zeros 32) bob_changes

abbrev key_env : KeyEnv
key_env = record {
  now = 12 * hour;
  writable = true;
  id_bytes = 1 ∷ 2 ∷ 3 ∷ 4 ∷ [];
  key_bytes = zeros 32;
}

abbrev request : KeyRequest
request = record { username = ""; label = ""; ttl_days = pos 1 }

abbrev user_role : String
user_role = "user"

abbrev no_keys : ApiKeyStore
no_keys = record { keys = []; file = [] }

abbrev id : Bytes
id = hex key_env.id_bytes

abbrev full : Bytes
full = id ++ (b'.' ∷ hex key_env.key_bytes)

create_api_key_handler_owner_example :
    ((target_of "bob" request ≡ "bob") ⊎ (user_role ≡ "admin"))
    × (kept : ApiKeyStore) × ((create_api_key_handler lib texts key_env peer "bob" user_role request
          no_keys daemon).0.api_keys
        ≡ some kept)
    × (u : User) × (find_user (target_of "bob" request) with_bob.users ≡ some u)
    × ((ApiKeys.validate lib (13 * hour) true full kept).1 ≡ some (target_of "bob" request, u.role))
unfolding create_api_key_handler ApiKeys.create find add times wrap64
create_api_key_handler_owner_example =
    create_api_key_handler_owner lib texts key_env peer "bob" user_role request no_keys daemon id
      full "API key" (13 * hour) true refl refl refl (length-zeros 32) (λ h. omega arith)
