-- ===== src/Auth/Users/Consistency/Rules.antt =====
-- What keeps every session backed by an account, for each way to build a method.
use kilasos.Common.{
  All-imp, ◌∙◌, String, ◌≡◌, refl, Bool, true, false, Option, none, some, All-keep, string_eq,
  bytes_eq, if◌then◌else◌, on_option,
}
use kilasos.Auth.Users.State.{User, UserStore, Env, save, set_user, drop_sessions}
use kilasos.Auth.Users.Consistency.Backing.{
  save-Kept, IsConsistent, Kept, Keeps, Backed-update_first,
}

pub stay : {B : Type 0} (s : UserStore) (b : B) → IsConsistent s → Kept (s, b)
stay s b h = record { store = h }

pub Kept-if :
    {B : Type 0} (b : Bool) (x y : UserStore × B)
    → (b ≡ true → Kept x)
    → (b ≡ false → Kept y)
    → Kept {B = B} (if b then x else y)
Kept-if true x y p q = p refl
Kept-if false x y p q = q refl

pub Kept-option :
    {A B : Type 0} (o : Option A) (x : UserStore × B) (f : A → UserStore × B)
    → (o ≡ none → Kept x)
    → ((a : A) → o ≡ some a → Kept (f a))
    → Kept {B = B} (on_option o x f)
Kept-option none x f p q = p refl
Kept-option (some a) x f p q = q a refl

pub ruleset branches = (Kept-if, Kept-option, stay)

-- A change of one account that its sessions do not see.
pub set_user-IsConsistent :
    (n : String) (f : User → User) (s : UserStore)
    → Keeps n f s.users
    → IsConsistent s
    → IsConsistent (set_user n f s)
set_user-IsConsistent n f s k h = record {
  backed = All-imp _ _ s.sessions (λ x b. Backed-update_first n f s.users x k b) h.backed;
}

pub drop_sessions-IsConsistent :
    (n : String) (s : UserStore) → IsConsistent s → IsConsistent (drop_sessions n s)
drop_sessions-IsConsistent n s h = record {
  backed = All-keep _ _ _ s.sessions (λ x _ b. b) h.backed;
}

-- A change that keeps the name, the role and the flag of every account.
pub record IsHarmless (f : User → User) : Type 0 where
  pub username : (u : User) → (f u).username ≡ u.username
  pub role : (u : User) → (f u).role ≡ u.role
  pub disabled : (u : User) → (f u).disabled ≡ u.disabled

pub edit-IsConsistent :
    (n : String) (f : User → User) (s : UserStore)
    → IsHarmless f
    → IsConsistent s
    → IsConsistent (set_user n f s)
edit-IsConsistent n f s k h =
    set_user-IsConsistent n f s
      (record {
        username = λ u e. k.username u ∙ e;
        role = λ u _. k.role u;
        disabled = λ u _. k.disabled u;
      })
      h

pub edit-Kept :
    (e : Env) (n : String) (f : User → User) (s : UserStore)
    → IsHarmless f
    → IsConsistent s
    → Kept (save e (set_user n f s))
edit-Kept e n f s k h = save-Kept e (set_user n f s) (edit-IsConsistent n f s k h)

-- For a change of other fields.
pub harmless :
    (f : User → User)
    → ((u : User)
        → ((f u).username ≡ u.username) × ((f u).role ≡ u.role) × ((f u).disabled ≡ u.disabled))
    → IsHarmless f
harmless f k = record { username = λ u. (k u).0; role = λ u. (k u).1; disabled = λ u. (k u).2 }

pub IsConsistent-option :
    {A : Type 0} (o : Option A) (s : UserStore) (f : A → UserStore)
    → IsConsistent s
    → ((a : A) → o ≡ some a → IsConsistent (f a))
    → IsConsistent (on_option o s f)
IsConsistent-option none s f h k = h
IsConsistent-option (some a) s f h k = k a refl
