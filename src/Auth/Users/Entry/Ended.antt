-- ===== src/Auth/Users/Entry/Ended.antt =====
-- The methods of internal/auth/userstore.go that shut a user out.
use kilasos.Common.{
  All-imp, ◌⊎◌, ℕ, String, ◌≡◌, ◌≢◌, ◌<◌, sym, subst, true, not, none, some, [], ◌∷◌, arith, All,
  All-lookup, All-keep_self, lookup, map, keep, ==_iff, bytes_eq, string_eq, Option-cases, inl, inr,
  Dict,
}
use kilasos.Common.Time.{after}
use kilasos.Auth.Crypto.{Bytes}
use kilasos.Auth.Users.State.{
  User, Answer, user_not_found, Session, UserStore, Env, save, save_sessions, find_user,
  is_session_of, valid_role,
}
use kilasos.Auth.Users.Accounts.{delete_user, set_disabled, set_role, demoted}
use kilasos.Auth.Users.Sessions.{validate_token, revoke_all_sessions_for_user}

-- No token is accepted as one of `n`.
abbrev pub IsShutOut : String → ℕ → UserStore → Type 0
IsShutOut n now s =
    (token : Bytes) (name role : String)
    → (validate_token now token s).1 ≡ some (name, role)
    → name ≢ n

-- A session of `n` has expired at `now`.
abbrev Over : String → ℕ → Bytes × Session → Type 0
Over n now x = is_session_of n x ≡ true → after now x.1.expires ≡ true

shut_out : (n : String) (now : ℕ) (s : UserStore) → All (Over n now) s.sessions → IsShutOut n now s
unfolding validate_token
shut_out n now s over token name role h same = elim (Option-cases (lookup token s.sessions)) [
  | inl nothing ↦ ground (arith, nothing)
  | inr (sess, found) ↦
      let gone = All-lookup (Over n now) token sess s.sessions found over in
      ground (arith, found, gone, ==_iff sess.username n)
]

gone-Over :
    (n : String) (now : ℕ) (xs : Dict Bytes Session)
    → All (Over n now) (keep (λ x. not (is_session_of n x)) xs)
gone-Over n now xs =
    All-imp (λ x. not (is_session_of n x) ≡ true) (Over n now)
      (keep (λ x. not (is_session_of n x)) xs) (λ x other. λ same. ground arith)
      (All-keep_self _ xs)

sessions-delete_user :
    (e : Env) (n : String) (u : User) (s : UserStore)
    → find_user n s.users ≡ some u
    → (delete_user e n s).0.sessions ≡ keep (λ x. not (is_session_of n x)) s.sessions
unfolding delete_user save save_sessions
sessions-delete_user e n u s found = ground (arith, found)

sessions-set_disabled :
    (e : Env) (n : String) (u : User) (s : UserStore)
    → find_user n s.users ≡ some u
    → (set_disabled e n true s).0.sessions ≡ keep (λ x. not (is_session_of n x)) s.sessions
unfolding set_disabled save save_sessions
sessions-set_disabled e n u s found = ground (arith, found)

sessions-revoke_all :
    (e : Env) (n : String) (s : UserStore)
    → (revoke_all_sessions_for_user e n s).0.sessions
      ≡ keep (λ x. not (is_session_of n x)) s.sessions
unfolding revoke_all_sessions_for_user save_sessions
sessions-revoke_all e n s = ground arith

-- There is no account of the name, and the call says so; or no token is accepted as one of it.
abbrev pub IsKeptOut : String → ℕ → UserStore → Answer → Type 0
IsKeptOut n now s a =
    ((find_user n s.users ≡ none) × (a.1 ≡ some user_not_found)) ⊎ IsShutOut n now a.0

-- Once an account was deleted or disabled, no token is accepted as one of its name, whether or not
-- the files could be written; where there is no such account, the calls answer so. After the
-- sessions of a name were revoked, no token is accepted as one of it, also where no account has it.
pub store_shuts_out :
    (e : Env) (n : String) (now : ℕ) (s : UserStore)
    → IsKeptOut n now s (delete_user e n s)
      × IsKeptOut n now s (set_disabled e n true s)
      × IsShutOut n now (revoke_all_sessions_for_user e n s).0
store_shuts_out e n now s =
    let gone = gone-Over n now s.sessions in
    let revoked : IsShutOut n now (revoke_all_sessions_for_user e n s).0 =
      shut_out n now _ (subst (All (Over n now)) (sym (sessions-revoke_all e n s)) gone) in
    elim (Option-cases (find_user n s.users)) [
      | inl nobody ↦ (
        inl (nobody, unfold delete_user in ground (arith, nobody)),
        inl (nobody, unfold set_disabled in ground (arith, nobody)),
        revoked,
      )
      | inr (u, found) ↦ (
        inr (
            shut_out n now _
              (subst (All (Over n now)) (sym (sessions-delete_user e n u s found)) gone)),
        inr (
            shut_out n now _
              (subst (All (Over n now)) (sym (sessions-set_disabled e n u s found)) gone)),
        revoked,
      )
    ]

Over-one :
    (n role : String) (now : ℕ) (tok : Bytes) (sess : Session)
    → 0 < now
    → Over n now (demoted n role (tok, sess))
Over-one n role now tok sess late = λ same. ground arith

demoted-Over :
    (n role : String) (now : ℕ) (xs : Dict Bytes Session)
    → 0 < now
    → All (Over n now) (map (demoted n role) xs)
demoted-Over n role now [] late = tt
demoted-Over n role now ((tok, sess) ∷ xs) late =
    (Over-one n role now tok sess late, demoted-Over n role now xs late)

sessions-set_role :
    (e : Env) (n role : String) (u : User) (s : UserStore)
    → valid_role role ≡ true
    → find_user n s.users ≡ some u
    → (set_role e n role s).0.sessions ≡ map (demoted n role) s.sessions
unfolding set_role save
sessions-set_role e n role u s fits found = ground (arith, fits, found)

-- A change of role ends the sessions of the account: at any instant after the zero time, no token
-- is accepted as one of its name.
pub set_role_shuts_out :
    (e : Env) (n role : String) (u : User) (now : ℕ) (s : UserStore)
    → valid_role role ≡ true
    → find_user n s.users ≡ some u
    → 0 < now
    → IsShutOut n now (set_role e n role s).0
set_role_shuts_out e n role u now s fits found late = shut_out n now _ (
    subst (All (Over n now)) (sym (sessions-set_role e n role u s fits found))
      (demoted-Over n role now s.sessions late))
