-- ===== src/Auth/Users/Consistency/Entries.antt =====
-- The methods that issue, check and end sessions, and the second factors, keep every session
-- backed by an account.
use kilasos.Common.{
  ℕ, String, ◌≡◌, refl, true, false, Option, none, some, List, arith, insert, delete, lookup,
  All-insert, All-delete, All-lookup, All-keep, keep, ==_iff, string_eq, bytes_eq,
}
use kilasos.Common.Time.{format}
use kilasos.Auth.Crypto.{Bytes, Crypto}
use kilasos.Auth.Password.{gen_token}
use kilasos.Auth.Users.State.{
  User, Session, UserStore, Env, Error, save_sessions, find_user, set_user, drop_sessions,
}
use kilasos.Auth.Users.Accounts.{change_password}
use kilasos.Auth.Users.Sessions.{
  validate_token, prune_expired_sessions, logout, start_session, issue_token, Issued, issued,
  refused, issue_token_with_meta, mark_session, mark_user, session_for, revoke_session_by_prefix,
  revoke_all_sessions_for_user, is_password_expired,
}
use kilasos.Auth.Users.Recovery.{
  enroll_totp, confirm_totp, disable_totp, set_backup_codes, consume_backup_code,
}
use kilasos.Auth.Users.Consistency.Rules.{
  edit-Kept, edit-IsConsistent, harmless, IsConsistent-option, Kept-if, Kept-option, stay, branches,
  drop_sessions-IsConsistent,
}
use kilasos.Auth.Users.Consistency.Lookup.{find-update_first}
use kilasos.Auth.Users.Consistency.Backing.{
  Backed, IsConsistent, Kept, save-Kept, save_sessions-IsConsistent,
}

pub validate_token-Kept :
    (now : ℕ) (token : Bytes) (s : UserStore) → IsConsistent s → Kept (validate_token now token s)
unfolding validate_token
validate_token-Kept now token s h =
    let less : IsConsistent (record s { sessions = delete token s.sessions }) = record {
      backed = All-delete (Backed s.users) token s.sessions h.backed;
    } in
    search (branches, less)

pub prune-IsConsistent :
    (e : Env) (s : UserStore) → IsConsistent s → IsConsistent (prune_expired_sessions e s)
unfolding prune_expired_sessions
prune-IsConsistent e s h =
    save_sessions-IsConsistent e (record s { sessions = keep _ s.sessions })
      (record { backed = All-keep _ _ _ s.sessions (λ x _ b. b) h.backed })

pub logout-IsConsistent :
    (e : Env) (token : Bytes) (s : UserStore) → IsConsistent s → IsConsistent (logout e token s)
unfolding logout
logout-IsConsistent e token s h =
    save_sessions-IsConsistent e (record s { sessions = delete token s.sessions })
      (record { backed = All-delete (Backed s.users) token s.sessions h.backed })

pub revoke_session_by_prefix-Kept :
    (e : Env) (token_prefix : Bytes) (s : UserStore)
    → IsConsistent s
    → Kept (revoke_session_by_prefix e token_prefix s)
unfolding revoke_session_by_prefix
revoke_session_by_prefix-Kept e token_prefix s h =
    let less = λ (x : Bytes × Session).
      stay {B = Option Error} (save_sessions e (record s { sessions = delete x.0 s.sessions })) none
        (save_sessions-IsConsistent e (record s { sessions = delete x.0 s.sessions })
          (record { backed = All-delete (Backed s.users) x.0 s.sessions h.backed })) in
    search (branches, less)

pub revoke_all-Kept :
    (e : Env) (n : String) (s : UserStore)
    → IsConsistent s
    → Kept (revoke_all_sessions_for_user e n s)
unfolding revoke_all_sessions_for_user
revoke_all-Kept e n s h =
    stay _ _ (save_sessions-IsConsistent e (drop_sessions n s) (drop_sessions-IsConsistent n s h))

new_session-Backed :
    (e : Env) (n : String) (u v : User) (source : String) (s : UserStore)
    → find_user n s.users ≡ some v
    → v.role ≡ u.role
    → v.disabled ≡ false
    → Backed
        (set_user n (λ w. record w { last_login = format e.now }) s).users
        (gen_token e.token_bytes, session_for e s n u source)
new_session-Backed e n u v source s found same on = ground (
  arith,
  find-update_first n n (λ w. record w { last_login = format e.now }) s.users (λ w q. q),
  ==_iff n n,
  ==_iff v.role u.role,
)

-- A new session of an account that is there, has the role and is not disabled.
pub start_session-Kept :
    (e : Env) (n : String) (u v : User) (source : String) (s : UserStore)
    → find_user n s.users ≡ some v
    → v.role ≡ u.role
    → v.disabled ≡ false
    → IsConsistent s
    → Kept (start_session e n u source s)
unfolding start_session
start_session-Kept e n u v source s found same on h =
    let t = set_user n (λ w. record w { last_login = format e.now }) s in
    let k : IsConsistent t = edit-IsConsistent n _ s (harmless _ (λ w. (refl, refl, refl))) h in
    let token = gen_token e.token_bytes in
    let sess = session_for e s n u source in
    let added =
      All-insert (Backed t.users) token sess s.sessions
        (new_session-Backed e n u v source s found same on) k.backed in
    let saved =
      save-Kept e (record t { sessions = insert token sess s.sessions })
        (record { backed = added }) in
    stay _ _ (save_sessions-IsConsistent e _ saved.store)

pub issue_token-Kept :
    (e : Env) (n source : String) (s : UserStore) → IsConsistent s → Kept (issue_token e n source s)
unfolding issue_token
issue_token-Kept e n source s h =
    Kept-option (find_user n s.users) _ _ (λ _. stay s _ h)
      λ u found.
        Kept-if u.disabled _ _ (λ _. stay s _ h)
          λ on.
            Kept-if (is_password_expired e.now s.policy source u.pw_changed_at) _ _
              (λ _. stay s _ h)
              λ _. stay _ _ (start_session-Kept e n u u source s found refl on h).store

-- The address and the agent of a session, and of its user.
mark_session-IsConsistent :
    (e : Env) (token : Bytes) (ip agent : String) (s : UserStore)
    → IsConsistent s
    → IsConsistent (mark_session e token ip agent s)
mark_session-IsConsistent e token ip agent s h =
    IsConsistent-option (lookup token s.sessions) s _ h λ sess found.
      let old = All-lookup (Backed s.users) token sess s.sessions found h.backed in
      save_sessions-IsConsistent e _ (record {
        backed =
            All-insert (Backed s.users) token (record sess { ip = ip; user_agent = agent })
              s.sessions old h.backed;
      })

mark_user-IsConsistent :
    (e : Env) (n ip : String) (s : UserStore) → IsConsistent s → IsConsistent (mark_user e n ip s)
mark_user-IsConsistent e n ip s h = IsConsistent-option (find_user n s.users) s _ h λ _ _.
    (edit-Kept e n (λ v. record v { last_login_ip = ip }) s (harmless _ (λ w. (refl, refl, refl)))
      h).store

pub issue_token_with_meta-Kept :
    (e : Env) (n source ip agent : String) (s : UserStore)
    → IsConsistent s
    → Kept (issue_token_with_meta e n source ip agent s)
unfolding issue_token_with_meta
issue_token_with_meta-Kept e n source ip agent s h =
    go (issue_token e n source s).0 (issue_token e n source s).1
      (issue_token-Kept e n source s h).store
  where
    go :
        (t : UserStore) (answer : Issued)
        → IsConsistent t
        → Kept {B = Issued} (elim answer as (λ _. UserStore × Issued) [
          | refused err ↦ (t, refused err)
          | issued token ↦ (mark_user e n ip (mark_session e token ip agent t), issued token)
        ])
    go t (issued token) k =
        stay _ _ (mark_user-IsConsistent e n ip _ (mark_session-IsConsistent e token ip agent t k))
    go t (refused err) k = stay t _ k

module _ (lib : Crypto) where
  pub enroll_totp-Kept :
      (e : Env) (n : String) (s : UserStore) → IsConsistent s → Kept (enroll_totp lib e n s)
  unfolding enroll_totp
  enroll_totp-Kept e n s h =
      let edit = λ (secret : String).
        edit-Kept e n (λ v. record v { totp_secret = secret }) s
          (harmless _ (λ w. (refl, refl, refl))) h in
      search (branches, edit) depth 7

  pub confirm_totp-Kept :
      (e : Env) (n : String) (code : Bytes) (s : UserStore)
      → IsConsistent s
      → Kept (confirm_totp lib e n code s)
  unfolding confirm_totp
  confirm_totp-Kept e n code s h =
      let edit =
        edit-Kept e n (λ v. record v { totp_enabled = true }) s
          (harmless _ (λ w. (refl, refl, refl))) h in
      search (branches, edit) depth 7

  pub disable_totp-Kept :
      (e : Env) (n : String) (code : Bytes) (s : UserStore)
      → IsConsistent s
      → Kept (disable_totp lib e n code s)
  unfolding disable_totp
  disable_totp-Kept e n code s h =
      let edit =
        edit-Kept e n (λ v. record v { totp_secret = ""; totp_enabled = false }) s
          (harmless _ (λ w. (refl, refl, refl))) h in
      search (branches, edit) depth 7

  pub set_backup_codes-Kept :
      (e : Env) (n : String) (codes : List Bytes) (s : UserStore)
      → IsConsistent s
      → Kept (set_backup_codes lib e n codes s)
  unfolding set_backup_codes
  set_backup_codes-Kept e n codes s h =
      let edit = λ (hashed : List Bytes).
        edit-Kept e n (λ v. record v { backup_codes = hashed }) s
          (harmless _ (λ w. (refl, refl, refl))) h in
      search (branches, edit) depth 7

  pub consume_backup_code-Kept :
      (e : Env) (n : String) (code : Bytes) (s : UserStore)
      → IsConsistent s
      → Kept (consume_backup_code lib e n code s)
  unfolding consume_backup_code
  consume_backup_code-Kept e n code s h =
      let edit = λ (rest : List Bytes).
        stay _ true
          (edit-Kept e n (λ v. record v { backup_codes = rest }) s
            (harmless _ (λ w. (refl, refl, refl))) h).store in
      search (branches, edit) depth 7

  pub change_password-Kept :
      (e : Env) (n : String) (old new : Bytes) (s : UserStore)
      → IsConsistent s
      → Kept (change_password lib e n old new s)
  unfolding change_password
  change_password-Kept e n old new s h =
      let edit = λ (hash : Bytes).
        edit-Kept e n (λ v. record v { password_hash = hash; pw_changed_at = format e.now }) s
          (harmless _ (λ w. (refl, refl, refl))) h in
      search (branches, edit) depth 8
