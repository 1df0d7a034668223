-- ===== src/Auth/Users/Entry/Granted.antt =====
-- `Login` against the conditions that it is meant to check.
use kilasos.Common.{
  ℕ, String, ◌≡◌, ◌≢◌, refl, true, false, some, [], arith, find, ◌⊎◌, inl, inr, Option-cases,
  Bool-cases, ==_iff, ◌==◌, if◌then◌else◌, bytes_eq, string_eq,
}
use kilasos.Auth.Crypto.{Bytes, Crypto}
use kilasos.Auth.Password.{check_password, gen_token}
use kilasos.Auth.Totp.{validate_totp}
use kilasos.Auth.Users.State.{User, UserStore, Env, find_user}
use kilasos.Auth.Users.Sessions.{is_password_expired, start_session}
use kilasos.Auth.Users.Recovery.{consume_backup_code}
use kilasos.Auth.Users.Login.{granted, login, admit, second_factor, grant, is_locked}

-- A backup code of the account fits.
abbrev pub HasBackupCode : Crypto → Bytes → User → Type 0
HasBackupCode lib code u = (c : Bytes) × (find (check_password lib code) u.backup_codes ≡ some c)

-- The second factor is off, or the code is not empty and is a one-time or a backup code.
abbrev pub HasSecondFactor : Crypto → ℕ → Bytes → User → Type 0
HasSecondFactor lib now code u =
    (u.totp_enabled ≡ false)
    ⊎ (code ≢ []) × ((validate_totp lib now u.totp_secret code ≡ true) ⊎ HasBackupCode lib code u)

-- What a login has to show of the account of its name.
pub record IsAdmissible (lib : Crypto) (e : Env) (n : String) (password code : Bytes)
    (s : UserStore) (u : User) : Type 0 where
  pub found : find_user n s.users ≡ some u
  pub enabled : u.disabled ≡ false
  pub unlocked : is_locked e.now n s.bf ≡ false
  pub password_fits : check_password lib password u.password_hash ≡ true
  pub password_current : is_password_expired e.now s.policy u.source u.pw_changed_at ≡ false
  pub second : HasSecondFactor lib e.now code u

module _ (lib : Crypto) (e : Env) (n : String) where
  answer-grant :
      (u : User) (s : UserStore) → (grant e n u s).1 ≡ granted (gen_token e.token_bytes) u.role
  unfolding grant start_session
  answer-grant u s = refl

  consume_needs :
      (code : Bytes) (u : User) (s : UserStore)
      → find_user n s.users ≡ some u
      → (consume_backup_code lib e n code s).1 ≡ true
      → HasBackupCode lib code u
  unfolding consume_backup_code
  consume_needs code u s found h =
      elim (Option-cases (find (check_password lib code) u.backup_codes)) [
        | inl nothing ↦ absurd (ground (arith, found, nothing))
        | inr fits ↦ fits
      ]

  consume_works :
      (code : Bytes) (u : User) (s : UserStore)
      → find_user n s.users ≡ some u
      → HasBackupCode lib code u
      → (consume_backup_code lib e n code s).1 ≡ true
  unfolding consume_backup_code
  consume_works code u s found (c, fits) = ground (arith, found, fits)

  second_factor-granted :
      (code : Bytes) (u : User) (s : UserStore) (token : Bytes) (role : String)
      → find_user n s.users ≡ some u
      → (second_factor lib e n code u s).1 ≡ granted token role
      → (code ≢ [])
        × ((validate_totp lib e.now u.totp_secret code ≡ true) ⊎ HasBackupCode lib code u)
        × (role ≡ u.role)
        × (token ≡ gen_token e.token_bytes)
  unfolding second_factor
  second_factor-granted code u s token role found h =
      let tried = (consume_backup_code lib e n code s).0 in
      elim (Bool-cases (code == [])) [
        | inl empty ↦ absurd (ground (arith, empty))
        | inr full ↦ elim (Bool-cases (validate_totp lib e.now u.totp_secret code)) [
          | inl valid ↦ (
            (λ e. ground (arith, full, ==_iff code [])),
            inl valid,
            ground (arith, answer-grant u s),
            ground (arith, answer-grant u s),
          )
          | inr wrong ↦ elim (Bool-cases (consume_backup_code lib e n code s).1) [
            | inl used ↦ (
              (λ e. ground (arith, full, ==_iff code [])),
              inr (consume_needs code u s found used),
              ground (arith, answer-grant u tried),
              ground (arith, answer-grant u tried),
            )
            | inr unused ↦ absurd (ground (arith, unused))
          ]
        ]
      ]

  module _ (password code : Bytes) (u : User) (s : UserStore) (token : Bytes) (role : String) where
    passed :
        (admit lib e n password code u s).1 ≡ granted token role
        → (u.disabled ≡ false)
          × (is_locked e.now n s.bf ≡ false)
          × (check_password lib password u.password_hash ≡ true)
          × (is_password_expired e.now s.policy u.source u.pw_changed_at ≡ false)
          × ((if u.totp_enabled then second_factor lib e n code u s else grant e n u s).1
              ≡ granted token role)
    unfolding admit
    passed h = elim (Bool-cases u.disabled) [
      | inl off ↦ absurd (ground (arith, off))
      | inr on ↦ elim (Bool-cases (is_locked e.now n s.bf)) [
        | inl locked ↦ absurd (ground (arith, on, locked))
        | inr free ↦ elim (Bool-cases (check_password lib password u.password_hash)) [
          | inr wrong ↦ absurd (ground (arith, on, free, wrong))
          | inl right ↦
              elim (Bool-cases (is_password_expired e.now s.policy u.source u.pw_changed_at)) [
                | inl old ↦ absurd (ground (arith, on, free, right, old))
                | inr current ↦ (on, free, right, current, ground (arith, on, free, right, current))
              ]
        ]
      ]
    ]

    second_passed :
        find_user n s.users ≡ some u
        → (if u.totp_enabled then second_factor lib e n code u s else grant e n u s).1
          ≡ granted token role
        → HasSecondFactor lib e.now code u × (role ≡ u.role) × (token ≡ gen_token e.token_bytes)
    second_passed found h = elim (Bool-cases u.totp_enabled) [
      | inr off ↦
          (inl off, ground (arith, off, answer-grant u s), ground (arith, off, answer-grant u s))
      | inl on ↦
          let (full, one, r, t) =
            second_factor-granted code u s token role found (ground (arith, on)) in
          (inr (full, one), r, t)
    ]

  -- A login that is granted was of an account that is not disabled and whose password fits, no
  -- lockout was on the name, the password was not past its age, and where the account has
  -- one-time codes a code that is not empty was given, one of the moment or a backup code. The
  -- answer is the account's role and the fresh token.
  pub login-granted :
      (password code : Bytes) (s : UserStore) (token : Bytes) (role : String)
      → (login lib e n password code s).1 ≡ granted token role
      → (u : User) × IsAdmissible lib e n password code s u
        × (role ≡ u.role)
        × (token ≡ gen_token e.token_bytes)
  unfolding login
  login-granted password code s token role h = elim (Option-cases (find_user n s.users)) [
    | inl nobody ↦ absurd (ground (arith, nobody))
    | inr (u, found) ↦
        let (on, free, right, current, rest) =
          passed password code u s token role (rw found at h) in
        let (second, r, t) = second_passed password code u s token role found rest in
        (
          u,
          record {
            found = found;
            enabled = on;
            unlocked = free;
            password_fits = right;
            password_current = current;
            second = second;
          },
          r,
          t,
        )
  ]

  admissible_second :
      (code : Bytes) (s : UserStore) (u : User)
      → find_user n s.users ≡ some u
      → HasSecondFactor lib e.now code u
      → (if u.totp_enabled then second_factor lib e n code u s else grant e n u s).1
        ≡ granted (gen_token e.token_bytes) u.role
  unfolding second_factor
  admissible_second code s u found (inl off) = ground (arith, off, answer-grant u s)
  admissible_second code s u found (inr (full, one)) =
      let tried = (consume_backup_code lib e n code s).0 in
      elim one [
        | inl valid ↦ ground (arith, valid, ==_iff code [], full, answer-grant u s)
        | inr has ↦ ground (
          arith,
          consume_works code u s found has,
          ==_iff code [],
          full,
          answer-grant u s,
          answer-grant u tried,
        )
      ]

  -- A login that shows all of this is granted, with the account's role and the fresh token.
  pub login_admissible :
      (password code : Bytes) (s : UserStore) (u : User)
      → IsAdmissible lib e n password code s u
      → (login lib e n password code s).1 ≡ granted (gen_token e.token_bytes) u.role
  unfolding login
  login_admissible password code s u a =
      simp (a.found, a.enabled, a.unlocked, a.password_fits, a.password_current)
        (admissible_second code s u a.found a.second)
