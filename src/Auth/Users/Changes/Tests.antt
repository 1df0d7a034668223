-- ===== src/Auth/Users/Changes/Tests.antt =====
-- Changes of accounts of internal/auth/userstore.go, at concrete stores.
use kilasos.Common.{◌-◌, ◌≡◌, ◌⊎◌, refl, true, false, none, some, [], ◌∷◌, find, ltb}
use kilasos.Common.Time.{format}
use kilasos.Auth.Crypto.{Bytes}
use kilasos.Auth.Password.{hash_password, check_password, gen_token}
use kilasos.Auth.Users.State.{User, find_user, save}
use kilasos.Auth.Users.Accounts.{register, change_password}
use kilasos.Auth.Users.Recovery.{consume_backup_code}
use kilasos.Auth.Users.Login.{login, granted}
use kilasos.Auth.Samples.{lib, salt, secret, secret_fits, zeros-IsByte, length-zeros}
use kilasos.Auth.Users.Samples.{at_noon, with_bob}
use kilasos.Auth.Users.Changes.BackupCodes.{uses_left, consume_backup_code_spends}
use kilasos.Auth.Users.Changes.Passwords.{login-register, change_password_lem}

consume_backup_code_spends_example :
    ((consume_backup_code lib at_noon "bob" secret with_bob).1
      ≡ ltb 0 (uses_left lib "bob" secret with_bob))
    × (uses_left lib "bob" secret (consume_backup_code lib at_noon "bob" secret with_bob).0
        ≡ uses_left lib "bob" secret with_bob - 1)
    × ((consume_backup_code lib at_noon "bob" secret with_bob).1 ≡ false
        → (consume_backup_code lib at_noon "bob" secret with_bob).0 ≡ with_bob)
consume_backup_code_spends_example = consume_backup_code_spends lib at_noon "bob" secret with_bob

login-register_example :
    (login lib at_noon "eve" secret [] (register lib at_noon "eve" secret "readonly" with_bob).0).1
    ≡ granted (gen_token at_noon.token_bytes) "readonly"
unfolding register find hash_password save
login-register_example =
    login-register lib at_noon "eve" salt at_noon secret [] "readonly" with_bob refl
      (zeros-IsByte 32) (length-zeros 32) refl refl

abbrev renewal : Bytes
renewal = b'n' ∷ b'3' ∷ b'w' ∷ []

bob_changes : (change_password lib at_noon "bob" secret renewal with_bob).1 ≡ none
unfolding change_password find hash_password save
bob_changes = rw secret_fits refl

change_password_lem_example :
    (u v : User) × (find_user "bob" with_bob.users ≡ some u)
    × (find_user "bob" (change_password lib at_noon "bob" secret renewal with_bob).0.users ≡ some v)
    × ((u.source ≡ "") ⊎ (u.source ≡ "local"))
    × (check_password lib secret u.password_hash ≡ true)
    × (check_password lib renewal v.password_hash ≡ true)
    × (v.pw_changed_at ≡ format at_noon.now)
    × (v.role ≡ u.role)
    × (v.totp_enabled ≡ u.totp_enabled)
    × (v.totp_secret ≡ u.totp_secret)
    × (v.backup_codes ≡ u.backup_codes)
    × (v ≡ record u { password_hash = v.password_hash; pw_changed_at = v.pw_changed_at })
    × ((change_password lib at_noon "bob" secret renewal with_bob).0.sessions ≡ with_bob.sessions)
change_password_lem_example =
    change_password_lem lib at_noon "bob" salt secret renewal with_bob refl (zeros-IsByte 32)
      (length-zeros 32) bob_changes
