-- ===== src/Auth/Users/Consistency/Tests.antt =====
-- A run of the store of internal/auth/userstore.go, and the theorem on runs at it.
use kilasos.Common.{◌≡◌, refl, ◌*◌, false, some, lookup, insert, find}
use kilasos.Common.Time.{hour, add}
use kilasos.Auth.Samples.{lib}
use kilasos.Auth.Users.Samples.{at_noon, no_users}
use kilasos.Auth.Password.{hex, gen_token}
use kilasos.Auth.Users.State.{User, UserStore, find_user, save, save_sessions}
use kilasos.Auth.Users.Accounts
use kilasos.Auth.Users.Sessions
use kilasos.Auth.Users.Consistency.Runs.{
  here, next, register_external, issue_token, token_of_live_account,
}

abbrev with_ann : UserStore
with_ann = (Accounts.register_external at_noon "ann" "admin" "oidc" no_users).0

abbrev with_session : UserStore
with_session = (Sessions.issue_token at_noon "ann" "oidc" with_ann).0

token_of_live_account_example :
    (u : User) × (find_user "ann" with_session.users ≡ some u)
    × (u.role ≡ "admin")
    × (u.disabled ≡ false)
unfolding Accounts.register_external Sessions.issue_token Sessions.validate_token
    Sessions.start_session save save_sessions lookup find gen_token hex Sessions.is_password_expired
    insert add
token_of_live_account_example =
    token_of_live_account lib no_users with_session (13 * hour) (gen_token at_noon.token_bytes)
      "ann" "admin" (record { backed = tt })
      (next (next here (register_external at_noon "ann" "admin" "oidc"))
        (issue_token at_noon "ann" "oidc"))
      refl
