-- ===== src/Auth/Users/Recovery.antt =====
-- Second factors of `UserStore`: enrolment of one-time codes, and the backup codes.
use kilasos.Common.{
  ℕ, ◌+◌, String, Bool, true, false, not, Option, none, some, List, [], ◌∷◌, length, find,
  remove_first, ◌==◌, string_eq, if◌then◌else◌, on_option,
}
use kilasos.Auth.Crypto.{Bytes, Crypto}
use kilasos.Auth.Password.{hash_password, check_password}
use kilasos.Auth.Totp.{validate_totp}
use kilasos.Auth.Users.State.{
  UserStore, Env, Answer, save, find_user, set_user, totp_already_enabled, rand_failed,
  no_pending_totp, invalid_code, totp_not_enabled, user_not_found,
}

unfoldable pub totp_status : String → UserStore → Bool
totp_status username s = on_option (find_user username s.users) false (λ u. u.totp_enabled)

unfoldable pub backup_code_count : String → UserStore → ℕ
backup_code_count username s = on_option (find_user username s.users) 0 (λ u. length u.backup_codes)

module _ (lib : Crypto) where
  -- The secret is stored and not yet asked for. (The URI for the QR code is left out.)
  unfoldable pub enroll_totp : Env → String → UserStore → Answer
  enroll_totp e username s =
      on_option (find_user username s.users) (s, some user_not_found)
        (λ u.
          if u.totp_enabled
          then (s, some totp_already_enabled)
          else on_option e.secret_bytes (s, some rand_failed)
              (λ bytes.
                save e
                  (set_user username (λ v. record v { totp_secret = lib.base32_encode bytes }) s)))

  unfoldable pub confirm_totp : Env → String → Bytes → UserStore → Answer
  confirm_totp e username code s =
      on_option (find_user username s.users) (s, some user_not_found)
        (λ u.
          if u.totp_secret == ""
          then (s, some no_pending_totp)
          else if not (validate_totp lib e.now u.totp_secret code)
          then (s, some invalid_code)
          else save e (set_user username (λ v. record v { totp_enabled = true }) s))

  unfoldable pub disable_totp : Env → String → Bytes → UserStore → Answer
  disable_totp e username code s =
      on_option (find_user username s.users) (s, some user_not_found)
        (λ u.
          if not u.totp_enabled
          then (s, some totp_not_enabled)
          else if not (validate_totp lib e.now u.totp_secret code)
          then (s, some invalid_code)
          else save e
              (set_user username (λ v. record v { totp_secret = ""; totp_enabled = false }) s))

  -- The loop of `SetBackupCodes` from code `i` on.
  unfoldable pub hash_codes : (ℕ → Option Bytes) → ℕ → List Bytes → Option (List Bytes)
  hash_codes salts i [] = some []
  hash_codes salts i (code ∷ codes) =
      on_option (hash_password lib (salts i) code) none
        (λ h. on_option (hash_codes salts (i + 1) codes) none (λ hashed. some (h ∷ hashed)))

  unfoldable pub set_backup_codes : Env → String → List Bytes → UserStore → Answer
  set_backup_codes e username codes s =
      on_option (find_user username s.users) (s, some user_not_found)
        (λ _.
          on_option (hash_codes e.salts 0 codes) (s, some rand_failed)
            (λ hashed. save e (set_user username (λ v. record v { backup_codes = hashed }) s)))

  -- The first stored code that fits is removed.
  unfoldable pub consume_backup_code : Env → String → Bytes → UserStore → UserStore × Bool
  consume_backup_code e username code s =
      on_option (find_user username s.users) (s, false)
        (λ u.
          on_option (find (check_password lib code) u.backup_codes) (s, false)
            (λ _.
              let rest = remove_first (check_password lib code) u.backup_codes in
              ((save e (set_user username (λ v. record v { backup_codes = rest }) s)).0, true)))
