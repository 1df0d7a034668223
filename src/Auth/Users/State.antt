-- ===== src/Auth/Users/State.antt =====
-- The state of `UserStore` of internal/auth/userstore.go, its files, and the scans that its
-- methods share. What a call takes from outside comes in `Env`: the clock, whether each file can
-- be written, and random bytes. A method runs under the lock and is one step; the goroutines
-- that write the sessions file are taken to run at once. A failed write leaves the file as it was.
use kilasos.Common.{
  ℕ, String, Bool, false, not, ◌||◌, Option, none, some, List, [], Dict, find, update_first, keep,
  ◌==◌, string_eq, bytes_eq, if◌then◌else◌,
}
use kilasos.Common.Int.{ℤ}
use kilasos.Common.Time.{Stamp, absent}
use kilasos.Auth.Crypto.{Bytes}
use kilasos.Auth.BruteForce.{BruteForceTracker}
use kilasos.Auth.Policy.{PasswordPolicyConfig}

pub record WebAuthnCred : Type 0 where
  pub id : String
  pub public_key : String
  pub sign_count : ℕ
  pub created_at : Stamp
  pub label : String

pub record User : Type 0 where
  pub username : String
  pub password_hash : Bytes
  pub role : String
  pub totp_secret : String
  pub totp_enabled : Bool
  pub source : String
  pub backup_codes : List Bytes
  pub webauthn : List WebAuthnCred
  pub last_login : Stamp
  pub last_login_ip : String
  pub disabled : Bool
  pub pw_changed_at : Stamp

-- `User{}`
abbrev pub zero_user : User
zero_user = record {
  username = "";
  password_hash = [];
  role = "";
  totp_secret = "";
  totp_enabled = false;
  source = "";
  backup_codes = [];
  webauthn = [];
  last_login = absent;
  last_login_ip = "";
  disabled = false;
  pw_changed_at = absent;
}

pub record Session : Type 0 where
  pub username : String
  pub role : String
  pub expires : ℕ
  pub created_at : ℕ
  pub source : String
  pub ip : String
  pub user_agent : String

-- The policy and the tracker are shared objects of the daemon; `none` is a nil pointer.
pub record UserStore : Type 0 where
  pub users : List User
  pub sessions : Dict Bytes Session
  pub policy : Option PasswordPolicyConfig
  pub bf : Option BruteForceTracker
  pub session_duration : ℤ
  pub sessions_path : String
  pub users_file : List User
  pub sessions_file : Dict Bytes Session

-- One call's share of the outside world.
pub record Env : Type 0 where
  pub now : ℕ
  pub users_writable : Bool
  pub sessions_writable : Bool
  pub token_bytes : Bytes
  pub salts : ℕ → Option Bytes
  pub secret_bytes : Option Bytes

-- One constructor for each text of an error.
pub data Error : Type 0 where
  username_and_password_required bad_role user_exists rand_failed write_failed : Error
  account_disabled account_locked invalid_credentials password_expired : Error
  totp_already_enabled no_pending_totp invalid_code totp_not_enabled user_not_found : Error
  username_required invalid_role user_disabled token_prefix_too_short no_matching_session : Error
  new_password_required externally_managed invalid_current_password unreadable_file : Error

abbrev pub Answer : Type 0
Answer = UserStore × Option Error

-- `save`
unfoldable pub save : Env → UserStore → Answer
save e s =
    if e.users_writable then (record s { users_file = s.users }, none) else (s, some write_failed)

-- `saveSessions`
unfoldable pub save_sessions : Env → UserStore → UserStore
save_sessions e s =
    if s.sessions_path == ""
    then s
    else if e.sessions_writable
    then record s { sessions_file = s.sessions }
    else s

abbrev pub valid_role : String → Bool
valid_role role = role == "admin" || role == "readonly" || role == "user"

-- `u.Source == "oidc" || u.Source == "ldap"`
abbrev pub is_external : String → Bool
is_external source = source == "oidc" || source == "ldap"

abbrev pub named : String → User → Bool
named username u = u.username == username

-- `findUserLocked`, and the loops that stop at the first user of a name
abbrev pub find_user : String → List User → Option User
find_user username users = find (named username) users

abbrev pub set_user : String → (User → User) → UserStore → UserStore
set_user username f s = record s { users = update_first (named username) f s.users }

abbrev pub is_session_of : String → Bytes × Session → Bool
is_session_of username e = e.1.username == username

-- `for tok, sess := range s.sessions { if sess.Username == username { delete(s.sessions, tok) } }`
abbrev pub drop_sessions : String → UserStore → UserStore
drop_sessions username s = record s {
  sessions = keep (λ e. not (is_session_of username e)) s.sessions;
}
