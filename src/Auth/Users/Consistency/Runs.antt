-- ===== src/Auth/Users/Consistency/Runs.antt =====
-- Every order of calls of the methods that change the store of internal/auth/userstore.go.
use kilasos.Common.{
  ℕ, String, ◌≡◌, Bool, false, Option, some, List, All-lookup, lookup, Option-cases, inl, inr, ◌∙◌,
  subst, arith, bytes_eq,
}
use kilasos.Auth.Crypto.{Bytes, Crypto}
use kilasos.Auth.BruteForce.{BruteForceTracker}
use kilasos.Auth.Policy.{PasswordPolicyConfig}
use kilasos.Auth.Users.State.{User, Session, UserStore, Env, find_user}
use kilasos.Auth.Users.Accounts
use kilasos.Auth.Users.Sessions
use kilasos.Auth.Users.Recovery
use kilasos.Auth.Users.Login
use kilasos.Auth.Users.Consistency.Backing.{IsConsistent, backing}
use kilasos.Auth.Users.Consistency.Accounts.{
  register_external-Kept, register-Kept, delete_user-Kept, set_role-Kept, set_disabled-Kept,
  update_user-Kept,
}
use kilasos.Auth.Users.Consistency.Entries.{
  validate_token-Kept, prune-IsConsistent, logout-IsConsistent, revoke_session_by_prefix-Kept,
  revoke_all-Kept, issue_token-Kept, issue_token_with_meta-Kept, enroll_totp-Kept,
  confirm_totp-Kept, disable_totp-Kept, set_backup_codes-Kept, consume_backup_code-Kept,
  change_password-Kept,
}
use kilasos.Auth.Users.Consistency.Logins.{login-Kept}

-- `UpdateUser` is called with a record that was read by `GetUser` and changed in its passkeys
-- alone, so it has the role and the flag of the account.
abbrev pub SameStanding : User → UserStore → Type 0
SameStanding u s =
    (v : User)
    → find_user u.username s.users ≡ some v
    → (u.role ≡ v.role) × (u.disabled ≡ v.disabled)

-- One call of a method that writes to the store.
pub data Step (lib : Crypto) (s : UserStore) : UserStore → Type 0 where
  register :
      (e : Env) (n : String) (password : Bytes) (role : String)
      → Step lib s (Accounts.register lib e n password role s).0
  register_external :
      (e : Env) (n role source : String)
      → Step lib s (Accounts.register_external e n role source s).0
  delete_user : (e : Env) (n : String) → Step lib s (Accounts.delete_user e n s).0
  set_role : (e : Env) (n role : String) → Step lib s (Accounts.set_role e n role s).0
  set_disabled :
      (e : Env) (n : String) (disabled : Bool) → Step lib s (Accounts.set_disabled e n disabled s).0
  update_user : (e : Env) (u : User) → SameStanding u s → Step lib s (Accounts.update_user e u s).0
  change_password :
      (e : Env) (n : String) (old new : Bytes)
      → Step lib s (Accounts.change_password lib e n old new s).0
  set_tracker : (bf : Option BruteForceTracker) → Step lib s (Accounts.set_brute_force_tracker bf s)
  set_policy : (p : Option PasswordPolicyConfig) → Step lib s (Accounts.set_password_policy p s)
  login :
      (e : Env) (n : String) (password code : Bytes)
      → Step lib s (Login.login lib e n password code s).0
  validate_token : (now : ℕ) (token : Bytes) → Step lib s (Sessions.validate_token now token s).0
  prune : (e : Env) → Step lib s (Sessions.prune_expired_sessions e s)
  logout : (e : Env) (token : Bytes) → Step lib s (Sessions.logout e token s)
  issue_token : (e : Env) (n source : String) → Step lib s (Sessions.issue_token e n source s).0
  issue_token_with_meta :
      (e : Env) (n source ip agent : String)
      → Step lib s (Sessions.issue_token_with_meta e n source ip agent s).0
  revoke_by_prefix :
      (e : Env) (token_prefix : Bytes)
      → Step lib s (Sessions.revoke_session_by_prefix e token_prefix s).0
  revoke_all : (e : Env) (n : String) → Step lib s (Sessions.revoke_all_sessions_for_user e n s).0
  enroll_totp : (e : Env) (n : String) → Step lib s (Recovery.enroll_totp lib e n s).0
  confirm_totp :
      (e : Env) (n : String) (code : Bytes) → Step lib s (Recovery.confirm_totp lib e n code s).0
  disable_totp :
      (e : Env) (n : String) (code : Bytes) → Step lib s (Recovery.disable_totp lib e n code s).0
  set_backup_codes :
      (e : Env) (n : String) (codes : List Bytes)
      → Step lib s (Recovery.set_backup_codes lib e n codes s).0
  consume_backup_code :
      (e : Env) (n : String) (code : Bytes)
      → Step lib s (Recovery.consume_backup_code lib e n code s).0

pub data Reach (lib : Crypto) (s : UserStore) : UserStore → Type 0 where
  here : Reach lib s s
  next : {t u : UserStore} → Reach lib s t → Step lib t u → Reach lib s u

accepted_session :
    (now : ℕ) (token : Bytes) (n role : String) (t : UserStore)
    → (Sessions.validate_token now token t).1 ≡ some (n, role)
    → (sess : Session) × (lookup token t.sessions ≡ some sess)
      × (sess.username ≡ n)
      × (sess.role ≡ role)
unfolding Sessions.validate_token
accepted_session now token n role t h = elim (Option-cases (lookup token t.sessions)) [
  | inl e ↦ absurd (ground arith)
  | inr (sess, e) ↦ (sess, e, ground arith, ground arith)
]

pub accepted_backed :
    (now : ℕ) (token : Bytes) (n role : String) (t : UserStore)
    → IsConsistent t
    → (Sessions.validate_token now token t).1 ≡ some (n, role)
    → (u : User) × (find_user n t.users ≡ some u) × (u.role ≡ role) × (u.disabled ≡ false)
accepted_backed now token n role t h accepted =
    let (sess, found, name, same) = accepted_session now token n role t accepted in
    let (u, account, its_role, on) =
      backing t.users (token, sess) (All-lookup _ token sess t.sessions found h.backed) in
    (u, subst (λ k. find_user k t.users ≡ some u) name account, its_role ∙ same, on)

module _ (lib : Crypto) where
  Step-IsConsistent : {s t : UserStore} → Step lib s t → IsConsistent s → IsConsistent t
  unfolding Accounts.set_brute_force_tracker Accounts.set_password_policy
  Step-IsConsistent {s} (register e n password role) h =
      (register-Kept lib e n password role s h).store
  Step-IsConsistent {s} (register_external e n role source) h =
      (register_external-Kept e n role source s h).store
  Step-IsConsistent {s} (delete_user e n) h = (delete_user-Kept e n s h).store
  Step-IsConsistent {s} (set_role e n role) h = (set_role-Kept e n role s h).store
  Step-IsConsistent {s} (set_disabled e n d) h = (set_disabled-Kept e n d s h).store
  Step-IsConsistent {s} (update_user e u same) h = (update_user-Kept e u s same h).store
  Step-IsConsistent {s} (change_password e n old new) h =
      (change_password-Kept lib e n old new s h).store
  Step-IsConsistent {s} (set_tracker bf) h = record { backed = h.backed }
  Step-IsConsistent {s} (set_policy p) h = record { backed = h.backed }
  Step-IsConsistent {s} (login e n password code) h = (login-Kept lib e n password code s h).store
  Step-IsConsistent {s} (validate_token now token) h = (validate_token-Kept now token s h).store
  Step-IsConsistent {s} (prune e) h = prune-IsConsistent e s h
  Step-IsConsistent {s} (logout e token) h = logout-IsConsistent e token s h
  Step-IsConsistent {s} (issue_token e n source) h = (issue_token-Kept e n source s h).store
  Step-IsConsistent {s} (issue_token_with_meta e n source ip agent) h =
      (issue_token_with_meta-Kept e n source ip agent s h).store
  Step-IsConsistent {s} (revoke_by_prefix e p) h = (revoke_session_by_prefix-Kept e p s h).store
  Step-IsConsistent {s} (revoke_all e n) h = (revoke_all-Kept e n s h).store
  Step-IsConsistent {s} (enroll_totp e n) h = (enroll_totp-Kept lib e n s h).store
  Step-IsConsistent {s} (confirm_totp e n code) h = (confirm_totp-Kept lib e n code s h).store
  Step-IsConsistent {s} (disable_totp e n code) h = (disable_totp-Kept lib e n code s h).store
  Step-IsConsistent {s} (set_backup_codes e n codes) h =
      (set_backup_codes-Kept lib e n codes s h).store
  Step-IsConsistent {s} (consume_backup_code e n code) h =
      (consume_backup_code-Kept lib e n code s h).store

  Reach-IsConsistent : {s t : UserStore} → IsConsistent s → Reach lib s t → IsConsistent t
  Reach-IsConsistent h here = h
  Reach-IsConsistent h (next r st) = Step-IsConsistent st (Reach-IsConsistent h r)

  -- From a store whose sessions are all backed by accounts (one with no session, say), after any
  -- calls of the methods in any order, a token that is accepted is that of an account that
  -- exists, is not disabled, and has the role that is answered. `UpdateUser` is taken to be
  -- called with the role and the flag of the account.
  pub token_of_live_account :
      (s t : UserStore) (now : ℕ) (token : Bytes) (n role : String)
      → IsConsistent s
      → Reach lib s t
      → (Sessions.validate_token now token t).1 ≡ some (n, role)
      → (u : User) × (find_user n t.users ≡ some u) × (u.role ≡ role) × (u.disabled ≡ false)
  token_of_live_account s t now token n role h r accepted =
      accepted_backed now token n role t (Reach-IsConsistent h r) accepted
