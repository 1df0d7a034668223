-- ===== src/Auth/Users/Login.antt =====
-- `Login` of `UserStore`. The lock is released while a backup code is consumed; here no other
-- call comes in between.
use kilasos.Common.{
  ℕ, String, Bool, false, not, Option, none, some, [], bytes_eq, ◌==◌, if◌then◌else◌, on_option,
}
use kilasos.Auth.Crypto.{Bytes, Crypto}
use kilasos.Auth.Password.{check_password}
use kilasos.Auth.Totp.{validate_totp}
use kilasos.Auth.BruteForce.{
  BruteForceTracker, record_username_failure, is_username_banned, record_username_success,
}
use kilasos.Auth.Users.State.{
  User, UserStore, Env, Error, is_external, find_user, account_disabled, account_locked,
  invalid_credentials, password_expired,
}
use kilasos.Auth.Users.Sessions.{is_password_expired, start_session}
use kilasos.Auth.Users.Recovery.{consume_backup_code}

pub data LoginResult : Type 0 where
  granted : Bytes → String → LoginResult
  totp_required : LoginResult
  denied : Error → LoginResult

-- `s.bf != nil && s.bf.IsUsernameBanned(username)`
abbrev pub is_locked : ℕ → String → Option BruteForceTracker → Bool
is_locked now username none = false
is_locked now username (some b) = is_username_banned now username b

-- A failure and a success of a local account are told to the tracker.
abbrev pub tell_failure : ℕ → String → User → UserStore → UserStore
tell_failure now username u s = on_option s.bf s (λ b.
    if is_external u.source
    then s
    else record s { bf = some (record_username_failure now username b).0 })

abbrev pub tell_success : String → User → UserStore → UserStore
tell_success username u s = on_option s.bf s (λ b.
    if is_external u.source then s else record s { bf = some (record_username_success username b) })

-- From `s.users[i].LastLogin = …` to the end.
unfoldable pub grant : Env → String → User → UserStore → UserStore × LoginResult
grant e username u s =
    let (t, token) = start_session e username u "local" s in
    (tell_success username u t, granted token u.role)

module _ (lib : Crypto) where
  -- The second factor of an account that has one.
  unfoldable pub second_factor : Env → String → Bytes → User → UserStore → UserStore × LoginResult
  second_factor e username code u s =
      if code == []
      then (s, totp_required)
      else if validate_totp lib e.now u.totp_secret code
      then grant e username u s
      else let (t, consumed) = consume_backup_code lib e username code s in
        if consumed
        then grant e username u t
        else (tell_failure e.now username u t, denied invalid_credentials)

  -- The body of the loop, at the user of that name.
  unfoldable pub admit : Env → String → Bytes → Bytes → User → UserStore → UserStore × LoginResult
  admit e username password code u s =
      if u.disabled
      then (s, denied account_disabled)
      else if is_locked e.now username s.bf
      then (s, denied account_locked)
      else if not (check_password lib password u.password_hash)
      then (tell_failure e.now username u s, denied invalid_credentials)
      else if is_password_expired e.now s.policy u.source u.pw_changed_at
      then (s, denied password_expired)
      else if u.totp_enabled
      then second_factor e username code u s
      else grant e username u s

  unfoldable pub login : Env → String → Bytes → Bytes → UserStore → UserStore × LoginResult
  unfolding admit
  login e username password code s =
      on_option (find_user username s.users) (s, denied invalid_credentials)
        (λ u. admit e username password code u s)
