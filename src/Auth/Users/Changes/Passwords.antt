-- ===== src/Auth/Users/Changes/Passwords.antt =====
-- `Register` and `ChangePassword` of internal/auth/userstore.go against a later `Login`.
use kilasos.Common.{
  String, ◌≡◌, ◌⊎◌, ◌∙◌, refl, ap, sym, subst, true, false, none, some, [], ◌∷◌, ◌++◌, arith, All,
  length, find_at_end, Option-cases, Bool-cases, inl, inr, ◌==◌, ==_iff, string_eq,
}
use kilasos.Common.Time.{format}
use kilasos.Auth.Crypto.{Bytes, IsByte, Crypto}
use kilasos.Auth.Password.{hex, derive_key, hash_password, check_password, gen_token}
use kilasos.Auth.Password.Roundtrip.{check_password-hash_password}
use kilasos.Auth.Users.State.{User, zero_user, UserStore, Env, save, find_user, set_user, named}
use kilasos.Auth.Users.Accounts.{register, change_password}
use kilasos.Auth.Users.Sessions.{is_password_expired}
use kilasos.Auth.Users.Login.{login, granted, is_locked}
use kilasos.Auth.Users.Entry.Granted.{login_admissible}
use kilasos.Auth.Users.Changes.Saved.{users-save, kept-save, find-changed}

module _ (lib : Crypto) (e : Env) (n : String) (salt : Bytes) where
  abbrev new_account : Bytes → String → User
  new_account hash role = record zero_user { username = n; password_hash = hash; role = role }

  abbrev line_of : Bytes → Bytes
  line_of password = hex salt ++ (b':' ∷ hex (derive_key lib salt password))

  -- The store that is saved by a registration.
  abbrev extended : User → UserStore → UserStore
  extended u s = record s { users = s.users ++ (u ∷ []) }

  saved_by_register :
      (password : Bytes) (role : String) (s : UserStore)
      → e.salts 0 ≡ some salt
      → (register lib e n password role s).1 ≡ none
      → (find_user n s.users ≡ none)
        × (register lib e n password role s
            ≡ save e (extended (new_account (line_of password) role) s))
  unfolding register hash_password
  saved_by_register password role s drawn ok = elim (Option-cases (find_user n s.users)) [
    | inl nobody ↦ (nobody, ground (arith, nobody, drawn))
    | inr (u, taken) ↦ absurd (ground (arith, taken, drawn))
  ]

  registered :
      (password : Bytes) (role : String) (s : UserStore)
      → e.salts 0 ≡ some salt
      → (register lib e n password role s).1 ≡ none
      → (find_user n (register lib e n password role s).0.users
          ≡ some (new_account (line_of password) role))
        × ((register lib e n password role s).0.bf ≡ s.bf)
  registered password role s drawn ok =
      let u = new_account (line_of password) role in
      let (free, same) = saved_by_register password role s drawn ok in
      (
        ap (λ a. find_user n a.0.users) same
            ∙ ap (find_user n) (users-save e (extended u s))
            ∙ find_at_end (named n) s.users u free ((==_iff n n).1 refl),
        ap (λ a. a.0.bf) same ∙ (kept-save e (extended u s)).1,
      )

  never_changed :
      (later : Env) (hash : Bytes) (role : String) (s : UserStore)
      → is_password_expired later.now s.policy "" (new_account hash role).pw_changed_at ≡ false
  unfolding is_password_expired
  never_changed later hash role s = ground arith

  -- An account that was registered, with a salt of 32 bytes, can log in with its password at
  -- once or later, and gets the role it was registered with, unless the tracker has locked its name.
  pub login-register :
      (later : Env) (password code : Bytes) (role : String) (s : UserStore)
      → e.salts 0 ≡ some salt
      → All IsByte salt
      → length salt ≡ 32
      → is_locked later.now n s.bf ≡ false
      → (register lib e n password role s).1 ≡ none
      → (login lib later n password code (register lib e n password role s).0).1
        ≡ granted (gen_token later.token_bytes) role
  unfolding hash_password
  login-register later password code role s drawn bytes size free ok =
      let t = (register lib e n password role s).0 in
      let (found, same_bf) = registered password role s drawn ok in
      login_admissible lib later n password code t (new_account (line_of password) role) (record {
        found = found;
        enabled = refl;
        unlocked = subst (λ b. is_locked later.now n b ≡ false) (sym same_bf) free;
        password_fits =
            (check_password-hash_password lib salt password password (line_of password) bytes size
              refl).1;
        password_current = never_changed later (line_of password) role t;
        second = inl refl;
      })

  abbrev renewed : Bytes → User → User
  renewed new v = record v { password_hash = line_of new; pw_changed_at = format e.now }

  saved_by_change_password :
      (old new : Bytes) (s : UserStore)
      → e.salts 0 ≡ some salt
      → (change_password lib e n old new s).1 ≡ none
      → (u : User) × (find_user n s.users ≡ some u)
        × ((u.source ≡ "") ⊎ (u.source ≡ "local"))
        × (check_password lib old u.password_hash ≡ true)
        × (change_password lib e n old new s ≡ save e (set_user n (renewed new) s))
  unfolding change_password hash_password
  saved_by_change_password old new s drawn ok = elim (Option-cases (find_user n s.users)) [
    | inl nobody ↦ absurd (ground (arith, nobody))
    | inr (u, found) ↦ (
      u,
      found,
      elim (Bool-cases (u.source == "")) [
        | inl e ↦ inl ((==_iff u.source "").0 e)
        | inr e ↦ inr ((==_iff u.source "local").0 (ground (arith, found, drawn, e)))
      ],
      ground (arith, found, drawn),
      ground (arith, found, drawn),
    )
  ]

  -- A change of password, with a salt of 32 bytes, that is answered without an error was of a local
  -- account and was given its password; afterwards the new password fits it, its age starts again,
  -- and everything else of the account is what it was, its role and its second factor with the
  -- secret and the backup codes included. The sessions are left as they were.
  pub change_password_lem :
      (old new : Bytes) (s : UserStore)
      → e.salts 0 ≡ some salt
      → All IsByte salt
      → length salt ≡ 32
      → (change_password lib e n old new s).1 ≡ none
      → (u v : User) × (find_user n s.users ≡ some u)
        × (find_user n (change_password lib e n old new s).0.users ≡ some v)
        × ((u.source ≡ "") ⊎ (u.source ≡ "local"))
        × (check_password lib old u.password_hash ≡ true)
        × (check_password lib new v.password_hash ≡ true)
        × (v.pw_changed_at ≡ format e.now)
        × (v.role ≡ u.role)
        × (v.totp_enabled ≡ u.totp_enabled)
        × (v.totp_secret ≡ u.totp_secret)
        × (v.backup_codes ≡ u.backup_codes)
        × (v ≡ record u { password_hash = v.password_hash; pw_changed_at = v.pw_changed_at })
        × ((change_password lib e n old new s).0.sessions ≡ s.sessions)
  unfolding hash_password
  change_password_lem old new s drawn bytes size ok =
      let (u, found, own, given, same) = saved_by_change_password old new s drawn ok in
      (
        u,
        renewed new u,
        found,
        ap (λ a. find_user n a.0.users) same ∙ find-changed e n (renewed new) s u (λ v h. h) found,
        own,
        given,
        (check_password-hash_password lib salt new new (line_of new) bytes size refl).1,
        refl,
        refl,
        refl,
        refl,
        refl,
        refl,
        ap (λ a. a.0.sessions) same ∙ (kept-save e (set_user n (renewed new) s)).0,
      )
