-- ===== src/Auth/Users/Accounts.antt =====
-- The methods of `UserStore` that make, list, change and remove accounts.
use kilasos.Common.{
  ℕ, ◌*◌, String, Bool, true, false, not, ◌&&◌, ◌||◌, Option, none, some, List, [], ◌∷◌, ◌++◌, map,
  Dict, length, remove_first, ◌==◌, string_eq, bytes_eq, if◌then◌else◌, on_option,
}
use kilasos.Common.Int.{ℤ, pos, ltb_ℤ}
use kilasos.Common.Time.{format, hour}
use kilasos.Auth.Crypto.{Bytes, Crypto}
use kilasos.Auth.Password.{hash_password, check_password}
use kilasos.Auth.BruteForce.{BruteForceTracker}
use kilasos.Auth.Policy.{PasswordPolicyConfig}
use kilasos.Auth.Users.State.{
  User, zero_user, Session, UserStore, Env, Answer, save, save_sessions, valid_role, named,
  find_user, set_user, drop_sessions, username_and_password_required, bad_role, user_exists,
  rand_failed, user_not_found, username_required, invalid_role, new_password_required,
  externally_managed, invalid_current_password,
}

-- What reading a file at the start gives.
pub data Loaded (A : Type 0) : Type 0 where
  missing unreadable garbled : Loaded A
  contents : A → Loaded A

abbrev loaded_or : {A : Type 0} → Loaded A → A → A
loaded_or (contents a) d = a
loaded_or _ d = d

abbrev pub day_ns : ℤ
day_ns = pos (24 * hour)

open_store : String → ℤ → List User → Dict Bytes Session → UserStore
open_store sessions_path duration users sessions = record {
  users = users;
  sessions = sessions;
  policy = none;
  bf = none;
  session_duration = if ltb_ℤ (pos 0) duration then duration else day_ns;
  sessions_path = sessions_path;
  users_file = users;
  sessions_file = sessions;
}

-- The sessions file is read only where it has a path, and its errors are passed over.
abbrev load_sessions : String → Loaded (Dict Bytes Session) → Dict Bytes Session
load_sessions sessions_path file = if sessions_path == "" then [] else loaded_or file []

-- `NewUserStore`: a users file that is not there is no error; one that cannot be read is.
unfoldable pub new_user_store :
    String → ℤ → Loaded (List User) → Loaded (Dict Bytes Session) → Option UserStore
unfolding open_store
new_user_store sessions_path duration missing file =
    some (open_store sessions_path duration [] (load_sessions sessions_path file))
new_user_store sessions_path duration (contents users) file =
    some (open_store sessions_path duration users (load_sessions sessions_path file))
new_user_store sessions_path duration _ file = none

unfoldable pub set_brute_force_tracker : Option BruteForceTracker → UserStore → UserStore
set_brute_force_tracker bf s = record s { bf = bf }

unfoldable pub set_password_policy : Option PasswordPolicyConfig → UserStore → UserStore
set_password_policy p s = record s { policy = p }

abbrev pub count : UserStore → ℕ
count s = length s.users

abbrev is_some : Option User → Bool
is_some none = false
is_some (some _) = true

unfoldable pub exists : String → UserStore → Bool
exists username s = is_some (find_user username s.users)

-- `GetUser` returns a copy, or the zero user with `false`.
unfoldable pub get_user : String → UserStore → User × Bool
get_user username s = on_option (find_user username s.users) (zero_user, false) (λ u. (u, true))

pub record UserView : Type 0 where
  pub username : String
  pub role : String
  pub totp_enabled : Bool

unfoldable pub users_view : UserStore → List UserView
users_view s =
    map (λ u. record { username = u.username; role = u.role; totp_enabled = u.totp_enabled })
      s.users

abbrev is_empty : Bytes → Bool
is_empty [] = true
is_empty _ = false

-- The account stays in memory where the file cannot be written.
abbrev add_user : Env → User → UserStore → Answer
add_user e u s = save e (record s { users = s.users ++ (u ∷ []) })

unfoldable pub register_external : Env → String → String → String → UserStore → Answer
register_external e username role source s =
    if username == ""
    then (s, some username_required)
    else if not (valid_role role)
    then (s, some invalid_role)
    else on_option (find_user username s.users)
        (add_user e (record zero_user { username = username; role = role; source = source }) s)
        (λ _. (s, some user_exists))

unfoldable pub delete_user : Env → String → UserStore → Answer
delete_user e username s =
    on_option (find_user username s.users) (s, some user_not_found)
      (λ _.
        let t =
          drop_sessions username (record s { users = remove_first (named username) s.users }) in
        let (t', failed) = save e t in
        on_option failed (save_sessions e t', none) (λ err. (t', some err)))

-- `session{Username: username, Role: role}`: the other fields are zero, `Expires` with them.
abbrev pub demoted : String → String → Bytes × Session → Bytes × Session
demoted username role (tok, sess) =
    if sess.username == username
    then (
      tok,
      record {
        username = username;
        role = role;
        expires = 0;
        created_at = 0;
        source = "";
        ip = "";
        user_agent = "";
      },
    )
    else (tok, sess)

unfoldable pub set_role : Env → String → String → UserStore → Answer
set_role e username role s =
    if not (valid_role role)
    then (s, some bad_role)
    else on_option (find_user username s.users) (s, some user_not_found)
        (λ _.
          let t = set_user username (λ u. record u { role = role }) s in
          save e (record t { sessions = map (demoted username role) s.sessions }))

unfoldable pub set_disabled : Env → String → Bool → UserStore → Answer
set_disabled e username disabled s =
    on_option (find_user username s.users) (s, some user_not_found)
      (λ _.
        let t = set_user username (λ u. record u { disabled = disabled }) s in
        save e (if disabled then save_sessions e (drop_sessions username t) else t))

unfoldable pub update_user : Env → User → UserStore → Answer
update_user e u s =
    on_option (find_user u.username s.users) (s, some user_not_found)
      (λ _. save e (set_user u.username (λ _. u) s))

module _ (lib : Crypto) where
  unfoldable pub register : Env → String → Bytes → String → UserStore → Answer
  register e username password role s =
      if username == "" || is_empty password
      then (s, some username_and_password_required)
      else if not (valid_role role)
      then (s, some bad_role)
      else on_option (find_user username s.users)
          (on_option (hash_password lib (e.salts 0) password) (s, some rand_failed)
            (λ hash.
              add_user e
                (record zero_user { username = username; password_hash = hash; role = role }) s))
          (λ _. (s, some user_exists))

  unfoldable pub change_password : Env → String → Bytes → Bytes → UserStore → Answer
  change_password e username old new s =
      if is_empty new
      then (s, some new_password_required)
      else on_option (find_user username s.users) (s, some user_not_found)
          (λ u.
            if not (u.source == "") && not (u.source == "local")
            then (s, some externally_managed)
            else if not (check_password lib old u.password_hash)
            then (s, some invalid_current_password)
            else on_option (hash_password lib (e.salts 0) new) (s, some rand_failed)
                (λ hash. save e (
                  set_user username
                    (λ v. record v { password_hash = hash; pw_changed_at = format e.now }) s)))
