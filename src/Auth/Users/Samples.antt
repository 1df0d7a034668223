-- ===== src/Auth/Users/Samples.antt =====
-- Concrete stores for the tests of the user store of internal/auth/userstore.go.
use kilasos.Common.{◌*◌, true, none, some, [], ◌∷◌}
use kilasos.Common.Int.{pos}
use kilasos.Common.Time.{hour}
use kilasos.Auth.Samples.{hash, salt}
use kilasos.Auth.Users.State.{User, zero_user, UserStore, Env}

abbrev pub at_noon : Env
at_noon = record {
  now = 12 * hour;
  users_writable = true;
  sessions_writable = true;
  token_bytes = 171 ∷ 205 ∷ [];
  salts = λ i. some salt;
  secret_bytes = none;
}

abbrev pub no_users : UserStore
no_users = record {
  users = [];
  sessions = [];
  policy = none;
  bf = none;
  session_duration = pos (24 * hour);
  sessions_path = "/var/lib/sessions.json";
  users_file = [];
  sessions_file = [];
}

abbrev pub bob : User
bob = record zero_user {
  username = "bob";
  role = "user";
  password_hash = hash;
  backup_codes = hash ∷ [];
}

abbrev pub with_bob : UserStore
with_bob = record no_users { users = bob ∷ [] }
