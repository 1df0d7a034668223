-- ===== src/Auth/Users/Entry/Tests.antt =====
-- Logins to a concrete store of internal/auth/userstore.go.
use kilasos.Common.{◌*◌, ◌≡◌, ◌≢◌, refl, String, some, [], arith, find, update_first, true, inl}
use kilasos.Common.Time.{hour, add}
use kilasos.Auth.Crypto.{Bytes}
use kilasos.Auth.Password.{gen_token}
use kilasos.Auth.Users.State.{User, UserStore, save, save_sessions}
use kilasos.Auth.Users.Accounts.{delete_user, set_disabled, set_role}
use kilasos.Auth.Users.Sessions.{
  is_password_expired, validate_token, start_session, revoke_all_sessions_for_user,
}
use kilasos.Auth.Users.Login.{login, granted}
use kilasos.Auth.Samples.{lib, secret, secret_fits}
use kilasos.Auth.Users.Samples.{at_noon, bob, with_bob}
use kilasos.Auth.Users.Entry.Granted.{IsAdmissible, login-granted, login_admissible}
use kilasos.Auth.Users.Entry.Issued.{validate_token-login}
use kilasos.Auth.Users.Entry.Ended.{IsShutOut, IsKeptOut, store_shuts_out, set_role_shuts_out}

abbrev token : Bytes
token = gen_token at_noon.token_bytes

bob-IsAdmissible : IsAdmissible lib at_noon "bob" secret [] with_bob bob
unfolding find is_password_expired
bob-IsAdmissible = record {
  found = refl;
  enabled = refl;
  unlocked = refl;
  password_fits = secret_fits;
  password_current = refl;
  second = inl refl;
}

login_admissible_example : (login lib at_noon "bob" secret [] with_bob).1 ≡ granted token "user"
login_admissible_example =
    login_admissible lib at_noon "bob" secret [] with_bob bob bob-IsAdmissible

bob_comes_in : (login lib at_noon "bob" secret [] with_bob).1 ≡ granted token "user"
bob_comes_in = login_admissible lib at_noon "bob" secret [] with_bob bob bob-IsAdmissible

login-granted_example :
    (u : User) × IsAdmissible lib at_noon "bob" secret [] with_bob u
    × ("user" ≡ u.role)
    × (token ≡ gen_token at_noon.token_bytes)
login-granted_example = login-granted lib at_noon "bob" secret [] with_bob token "user" bob_comes_in

validate_token-login_example :
    validate_token (13 * hour) token (login lib at_noon "bob" secret [] with_bob).0
    ≡ ((login lib at_noon "bob" secret [] with_bob).0, some ("bob", "user"))
unfolding add
validate_token-login_example =
    validate_token-login lib at_noon "bob" secret [] token "user" (13 * hour) with_bob bob_comes_in
      (omega arith)

carl_is_refused :
    (t : Bytes) (role : String) → (login lib at_noon "carl" secret [] with_bob).1 ≢ granted t role
unfolding login find
carl_is_refused t role p = ground arith

-- After a session was issued without a password, so that the store is computed.
abbrev bob_in : UserStore
bob_in = (start_session at_noon "bob" bob "local" with_bob).0

store_shuts_out_example :
    IsKeptOut "bob" (13 * hour) bob_in (delete_user at_noon "bob" bob_in)
    × IsKeptOut "bob" (13 * hour) bob_in (set_disabled at_noon "bob" true bob_in)
    × IsShutOut "bob" (13 * hour) (revoke_all_sessions_for_user at_noon "bob" bob_in).0
store_shuts_out_example = store_shuts_out at_noon "bob" (13 * hour) bob_in

set_role_shuts_out_example : IsShutOut "bob" (13 * hour) (set_role at_noon "bob" "admin" bob_in).0
unfolding start_session save save_sessions find update_first
set_role_shuts_out_example =
    set_role_shuts_out at_noon "bob" "admin" _ (13 * hour) bob_in refl refl (omega arith)
