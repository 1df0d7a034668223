-- ===== src/Auth/Users/Sessions.antt =====
-- The methods of `UserStore` that issue, check, list and end sessions.
use kilasos.Common.{
  ℕ, suc, ◌*◌, String, Bool, false, not, ◌&&◌, Option, none, some, List, [], ◌∷◌, ◌++◌, map, length,
  take, find, keep, lookup, insert, delete, ltb, leb, ◌==◌, string_eq, bytes_eq, if◌then◌else◌,
  on_option,
}
use kilasos.Common.Int.{ℤ, pos, negsuc, ltb_ℤ, times}
use kilasos.Common.Time.{Stamp, format, parse, after, sub, add, hour}
use kilasos.Auth.Crypto.{Bytes}
use kilasos.Auth.Password.{gen_token}
use kilasos.Auth.Policy.{PasswordPolicyConfig}
use kilasos.Auth.Users.State.{
  User, Session, UserStore, Env, Error, Answer, save, save_sessions, is_external, find_user,
  set_user, is_session_of, drop_sessions, user_not_found, user_disabled, password_expired,
  token_prefix_too_short, no_matching_session,
}

-- An expired session is deleted when it is presented.
unfoldable pub validate_token : ℕ → Bytes → UserStore → UserStore × Option (String × String)
validate_token now token s =
    on_option (lookup token s.sessions) (s, none)
      (λ sess.
        if after now sess.expires
        then (record s { sessions = delete token s.sessions }, none)
        else (s, some (sess.username, sess.role)))

unfoldable pub prune_expired_sessions : Env → UserStore → UserStore
prune_expired_sessions e s =
    save_sessions e (record s { sessions = keep (λ x. not (after e.now x.1.expires)) s.sessions })

unfoldable pub logout : Env → Bytes → UserStore → UserStore
logout e token s = save_sessions e (record s { sessions = delete token s.sessions })

-- `float64(days*24)` hours in nanoseconds; the product is of an `int`.
abbrev hours : ℤ → ℤ
hours (pos n) = pos (n * hour)
hours (negsuc n) = negsuc (suc n * hour)

-- The age of a local password against `MaxAgeDays`; hours are compared exactly. An empty or
-- malformed stamp sets no age.
unfoldable pub is_password_expired : ℕ → Option PasswordPolicyConfig → String → Stamp → Bool
unfolding times
is_password_expired now none source changed = false
is_password_expired now (some p) source changed =
    if is_external source
    then false
    else if ltb_ℤ (pos 0) p.max_age_days
    then on_option (parse changed) false
        (λ ts. ltb_ℤ (hours (times p.max_age_days 24)) (sub now ts))
    else false

abbrev pub session_for : Env → UserStore → String → User → String → Session
session_for e s username u source = record {
  username = username;
  role = u.role;
  expires = add e.now s.session_duration;
  created_at = e.now;
  source = source;
  ip = "";
  user_agent = "";
}

-- `LastLogin`, the new session, and both files; a failed write is passed over.
unfoldable pub start_session : Env → String → User → String → UserStore → UserStore × Bytes
start_session e username u source s =
    let t = set_user username (λ v. record v { last_login = format e.now }) s in
    let token = gen_token e.token_bytes in
    let t' = record t { sessions = insert token (session_for e s username u source) s.sessions } in
    (save_sessions e (save e t').0, token)

pub data Issued : Type 0 where
  issued : Bytes → Issued
  refused : Error → Issued

unfoldable pub issue_token : Env → String → String → UserStore → UserStore × Issued
issue_token e username source s =
    on_option (find_user username s.users) (s, refused user_not_found)
      (λ u.
        if u.disabled
        then (s, refused user_disabled)
        else if is_password_expired e.now s.policy source u.pw_changed_at
        then (s, refused password_expired)
        else let (t, token) = start_session e username u source s in (t, issued token))

abbrev pub mark_session : Env → Bytes → String → String → UserStore → UserStore
mark_session e token ip user_agent s = on_option (lookup token s.sessions) s (λ sess.
    save_sessions e (record s {
      sessions = insert token (record sess { ip = ip; user_agent = user_agent }) s.sessions;
    }))

abbrev pub mark_user : Env → String → String → UserStore → UserStore
mark_user e username ip s =
    on_option (find_user username s.users) s
      (λ _. (save e (set_user username (λ v. record v { last_login_ip = ip }) s)).0)

unfoldable pub issue_token_with_meta :
    Env → String → String → String → String → UserStore → UserStore × Issued
issue_token_with_meta e username source ip user_agent s =
    let (t, answer) = issue_token e username source s in
    elim answer [
      | refused err ↦ (t, refused err)
      | issued token ↦
          (mark_user e username ip (mark_session e token ip user_agent t), issued token)
    ]

pub record SessionView : Type 0 where
  pub token : Bytes
  pub username : String
  pub role : String
  pub created_at : Stamp
  pub expires_at : Stamp
  pub source : String
  pub ip : String
  pub user_agent : String

-- A token of more than 12 bytes is shown by its first eight and an ellipsis (three bytes).
unfoldable pub mask : Bytes → Bytes
mask token = if ltb 12 (length token) then take 8 token ++ (226 ∷ 128 ∷ 166 ∷ []) else token

abbrev view_of : Bytes × Session → SessionView
view_of (token, sess) = record {
  token = mask token;
  username = sess.username;
  role = sess.role;
  created_at = format sess.created_at;
  expires_at = format sess.expires;
  source = sess.source;
  ip = sess.ip;
  user_agent = sess.user_agent;
}

unfoldable pub list_sessions : ℕ → UserStore → List SessionView
list_sessions now s = map view_of (keep (λ x. not (after now x.1.expires)) s.sessions)

abbrev pub has_prefix : Bytes → Bytes × Session → Bool
has_prefix token_prefix x =
    leb (length token_prefix) (length x.0) && take (length token_prefix) x.0 == token_prefix

-- The first session in the order of `range` whose token begins so. A match on the empty token
-- counts as none.
unfoldable pub revoke_session_by_prefix : Env → Bytes → UserStore → Answer
revoke_session_by_prefix e token_prefix s =
    if ltb (length token_prefix) 6
    then (s, some token_prefix_too_short)
    else on_option (find (has_prefix token_prefix) s.sessions) (s, some no_matching_session)
        (λ x.
          if x.0 == []
          then (s, some no_matching_session)
          else (save_sessions e (record s { sessions = delete x.0 s.sessions }), none))

unfoldable pub revoke_all_sessions_for_user : Env → String → UserStore → UserStore × ℕ
revoke_all_sessions_for_user e username s =
    (save_sessions e (drop_sessions username s), length (keep (is_session_of username) s.sessions))
