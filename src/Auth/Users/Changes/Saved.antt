-- ===== src/Auth/Users/Changes/Saved.antt =====
-- The account that a change through `save` of internal/auth/userstore.go leaves.
use kilasos.Common.{String, ◌≡◌, ap, ◌∙◌, some, arith, ==_iff, string_eq}
use kilasos.Auth.Users.State.{User, UserStore, Env, save, find_user, set_user}
use kilasos.Auth.Users.Consistency.Lookup.{find-update_first}

pub users-save : (e : Env) (s : UserStore) → (save e s).0.users ≡ s.users
unfolding save
users-save e s = ground arith

pub find-changed :
    (e : Env) (n : String) (f : User → User) (s : UserStore) (u : User)
    → ((v : User) → v.username ≡ n → (f v).username ≡ n)
    → find_user n s.users ≡ some u
    → find_user n (save e (set_user n f s)).0.users ≡ some (f u)
find-changed e n f s u same found =
    ap (find_user n) (users-save e (set_user n f s))
    ∙ ground (arith, find-update_first n n f s.users same, ==_iff n n, found)

-- `save` writes a file and nothing else.
pub kept-save :
    (e : Env) (s : UserStore)
    → ((save e s).0.sessions ≡ s.sessions)
      × ((save e s).0.bf ≡ s.bf)
      × ((save e s).0.policy ≡ s.policy)
unfolding save
kept-save e s = ground arith
