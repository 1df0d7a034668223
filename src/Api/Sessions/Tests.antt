-- ===== src/Api/Sessions/Tests.antt =====
-- Logins and accounts over HTTP, in internal/api/router.go, at a concrete daemon.
use kilasos.Common.{
  ◌*◌, ◌≡◌, refl, ap, inl, String, true, false, some, none, [], lookup, insert, find, update_first,
}
use kilasos.Common.Int.{pos}
use kilasos.Common.Time.{hour, add}
use kilasos.Auth.Crypto.{Bytes}
use kilasos.Auth.Password.{hex, gen_token, hash_password}
use kilasos.Auth.Samples.{lib, salt, secret, secret_fits, zeros-IsByte, length-zeros}
use kilasos.Auth.Users.State.{User, UserStore, Error, find_user, save, save_sessions}
use kilasos.Auth.Users.Accounts.{register}
use kilasos.Auth.Users.Sessions.{start_session, validate_token, is_password_expired}
use kilasos.Auth.Users.Login.{login}
use kilasos.Auth.Users.Samples.{at_noon, bob, no_users, with_bob}
use kilasos.Auth.Users.Consistency.Backing.{IsConsistent}
use kilasos.Auth.Users.Entry.Granted.{IsAdmissible, login_admissible}
use kilasos.Api.Limiter as Limiter
use kilasos.Api.Gate.{Daemon, is_open}
use kilasos.Api.Sessions.{
  value, LoginRequest, session, is_addr_banned, finish_login, ask_store, answer_login,
  login_handler, delete_user_handler, register_handler,
}
use kilasos.Api.Sessions.Grants.{Reason, login_handler_grants}
use kilasos.Api.Sessions.Setup.{deletion_keeps_caller, register_handler_sets_up}

abbrev text : Error → String
text err = "error"

abbrev daemon : UserStore → Daemon
daemon users = record {
  static_token = [];
  users = users;
  api_keys = none;
  audit_log = record { entries = []; retention_days = pos 0; anonymize_ip = true };
  limiter = [];
}

abbrev peer : String
peer = "10.0.0.7"

abbrev request : LoginRequest
request = record { username = "bob"; password = secret; totp_code = []; token = [] }

abbrev token : Bytes
token = gen_token at_noon.token_bytes

bob-IsAdmissible : IsAdmissible lib at_noon "bob" secret [] with_bob bob
unfolding find is_password_expired
bob-IsAdmissible = record {
  found = refl;
  enabled = refl;
  unlocked = refl;
  password_fits = secret_fits;
  password_current = refl;
  second = inl refl;
}

bob_comes_in :
    (login_handler lib text at_noon peer (value request) (daemon with_bob)).1
    ≡ session token "bob" "user"
unfolding login_handler answer_login ask_store finish_login Limiter.allow lookup
bob_comes_in =
    ap
      (λ a.
        (finish_login lib text at_noon.now peer "bob" a (record (daemon with_bob) {
          users = (login lib at_noon "bob" secret [] with_bob).0;
          limiter = (Limiter.allow at_noon.now peer []).0;
        })).1)
      (login_admissible lib at_noon "bob" secret [] with_bob bob bob-IsAdmissible)

login_handler_grants_example :
    ((Limiter.allow at_noon.now peer []).1 ≡ true)
    × (is_addr_banned at_noon.now peer none ≡ false)
    × Reason lib at_noon request (daemon with_bob) token "bob" "user"
login_handler_grants_example =
    login_handler_grants lib text at_noon peer request (daemon with_bob) token "bob" "user"
      bob_comes_in

abbrev bob_in : UserStore
bob_in = (start_session at_noon "bob" bob "local" with_bob).0

bob_backed : IsConsistent bob_in
unfolding start_session save save_sessions insert find update_first
bob_backed = record { backed = (refl, tt) }

bob_accepted : (validate_token (13 * hour) token bob_in).1 ≡ some ("bob", "user")
unfolding start_session save save_sessions insert lookup gen_token hex validate_token add
bob_accepted = refl

deletion_keeps_caller_example :
    (u : User) × (find_user "bob"
        (delete_user_handler lib text at_noon peer "bob" "user" "bob" (daemon bob_in)).0.users.users
      ≡ some u)
    × (u.role ≡ "user")
    × (is_open (delete_user_handler lib text at_noon peer "bob" "user" "bob" (daemon bob_in)).0
        ≡ false)
deletion_keeps_caller_example =
    deletion_keeps_caller lib text at_noon peer (13 * hour) token "bob" "user" "bob" (daemon bob_in)
      bob_backed bob_accepted

register_handler_sets_up_example :
    (register_handler lib text at_noon at_noon peer (value ("eve", secret)) (daemon no_users)).1
    ≡ session token "eve" "admin"
unfolding register find hash_password save
register_handler_sets_up_example =
    register_handler_sets_up lib text at_noon peer at_noon "eve" salt secret (daemon no_users) refl
      refl (zeros-IsByte 32) (length-zeros 32) refl refl
