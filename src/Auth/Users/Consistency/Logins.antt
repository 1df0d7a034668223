-- ===== src/Auth/Users/Consistency/Logins.antt =====
-- A login, granted or not, keeps every session backed by an account.
use kilasos.Common.{
  ℕ, String, ◌≡◌, refl, Bool, false, not, some, [], arith, find, ◌==◌, ==_iff, string_eq, bytes_eq,
  if_case, option_case, ◌∙◌,
}
use kilasos.Auth.Crypto.{Bytes, Crypto}
use kilasos.Auth.Password.{check_password}
use kilasos.Auth.Totp.{validate_totp}
use kilasos.Auth.Users.State.{User, UserStore, Env, save, find_user, set_user, is_external}
use kilasos.Auth.Users.Sessions.{is_password_expired}
use kilasos.Auth.Users.Recovery.{consume_backup_code}
use kilasos.Auth.Users.Login.{login, second_factor, grant, is_locked, tell_failure, tell_success}
use kilasos.Auth.Users.Consistency.Lookup.{find-update_first}
use kilasos.Auth.Users.Consistency.Backing.{IsConsistent, Kept}
use kilasos.Auth.Users.Consistency.Rules.{
  Kept-if, Kept-option, stay, IsConsistent-option, IsHarmless, harmless,
}
use kilasos.Auth.Users.Consistency.Entries.{start_session-Kept, consume_backup_code-Kept}

tell_failure-IsConsistent :
    (now : ℕ) (n : String) (u : User) (s : UserStore)
    → IsConsistent s
    → IsConsistent (tell_failure now n u s)
tell_failure-IsConsistent now n u s h = IsConsistent-option s.bf s _ h λ b _.
    if_case IsConsistent (is_external u.source) s _ (λ _. h) (λ _. record { backed = h.backed })

tell_success-IsConsistent :
    (n : String) (u : User) (s : UserStore) → IsConsistent s → IsConsistent (tell_success n u s)
tell_success-IsConsistent n u s h = IsConsistent-option s.bf s _ h λ b _.
    if_case IsConsistent (is_external u.source) s _ (λ _. h) (λ _. record { backed = h.backed })

-- The account that a login found is there, has the role that was read, and is not disabled.
record Live (n : String) (u : User) (s : UserStore) : Type 0 where
  account : User
  found : find_user n s.users ≡ some account
  role : account.role ≡ u.role
  enabled : account.disabled ≡ false

Live-save :
    (e : Env) (n : String) (u : User) (f : User → User) (s : UserStore)
    → IsHarmless f
    → Live n u s
    → Live n u (save e (set_user n f s)).0
unfolding save
Live-save e n u f s k l =
    let same = find-update_first n n f s.users (λ v q. k.username v ∙ q) in
    record {
      account = f l.account;
      found = ground (arith, same, l.found, ==_iff n n);
      role = k.role l.account ∙ l.role;
      enabled = k.disabled l.account ∙ l.enabled;
    }

grant-Kept :
    (e : Env) (n : String) (u : User) (s : UserStore)
    → Live n u s
    → IsConsistent s
    → Kept (grant e n u s)
unfolding grant
grant-Kept e n u s l h = stay _ _ (
    tell_success-IsConsistent n u _
      (start_session-Kept e n u l.account "local" s l.found l.role l.enabled h).store)

module _ (lib : Crypto) where
  Live-consume :
      (e : Env) (n : String) (u : User) (code : Bytes) (s : UserStore)
      → Live n u s
      → Live n u (consume_backup_code lib e n code s).0
  unfolding consume_backup_code
  Live-consume e n u code s l =
      option_case (λ (a : UserStore × Bool). Live n u a.0) (find_user n s.users) (s, false) _
        (λ _. l)
        λ v _.
          option_case (λ (a : UserStore × Bool). Live n u a.0)
            (find (check_password lib code) v.backup_codes) (s, false) _ (λ _. l)
            (λ _ _.
              Live-save e n u (λ w. record w { backup_codes = _ }) s
                (harmless _ (λ w. (refl, refl, refl))) l)

  second_factor-Kept :
      (e : Env) (n : String) (code : Bytes) (u : User) (s : UserStore)
      → Live n u s
      → IsConsistent s
      → Kept (second_factor lib e n code u s)
  unfolding second_factor
  second_factor-Kept e n code u s l h =
      let k = (consume_backup_code-Kept lib e n code s h).store in
      let t = (consume_backup_code lib e n code s).0 in
      Kept-if (code == []) _ _ (λ _. stay s _ h)
        λ _.
          Kept-if (validate_totp lib e.now u.totp_secret code) _ _ (λ _. grant-Kept e n u s l h)
            λ _.
              Kept-if (consume_backup_code lib e n code s).1 _ _
                (λ _. grant-Kept e n u t (Live-consume e n u code s l) k)
                (λ _. stay _ _ (tell_failure-IsConsistent e.now n u t k))

  pub login-Kept :
      (e : Env) (n : String) (password code : Bytes) (s : UserStore)
      → IsConsistent s
      → Kept (login lib e n password code s)
  unfolding login
  login-Kept e n password code s h =
      Kept-option (find_user n s.users) _ _ (λ _. stay s _ h)
        λ u found.
          Kept-if u.disabled _ _ (λ _. stay s _ h)
            λ on.
              let l : Live n u s = record {
                account = u;
                found = found;
                role = refl;
                enabled = on;
              } in
              Kept-if (is_locked e.now n s.bf) _ _ (λ _. stay s _ h)
                λ _.
                  Kept-if (not (check_password lib password u.password_hash)) _ _
                    (λ _. stay _ _ (tell_failure-IsConsistent e.now n u s h))
                    λ _.
                      Kept-if (is_password_expired e.now s.policy u.source u.pw_changed_at) _ _
                        (λ _. stay s _ h)
                        λ _.
                          Kept-if u.totp_enabled _ _ (λ _. second_factor-Kept e n code u s l h)
                            (λ _. grant-Kept e n u s l h)
