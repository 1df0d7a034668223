-- ===== src/Auth/Users/Consistency/Lookup.antt =====
-- Finding a user after the list of users was extended, changed or cut.
use mathlib.Core.Option
use kilasos.Common.{
  String, ◌≡◌, ◌≢◌, some, List, [], ◌∷◌, ◌++◌, arith, find, update_first, remove_first, ◌==◌,
  ==_iff, string_eq, if◌then◌else◌,
}
use kilasos.Auth.Users.State.{User, named, find_user}

pub find-append :
    (k : String) (users more : List User) (u : User)
    → find_user k users ≡ some u
    → find_user k (users ++ more) ≡ some u
unfolding find
find-append k [] more u h = cc
find-append k (v ∷ users) more u h = ground (arith, find-append k users more u)

-- The change is seen under its own name only.
pub find-update_first :
    (k n : String) (f : User → User) (users : List User)
    → ((u : User) → u.username ≡ n → (f u).username ≡ n)
    → find_user k (update_first (named n) f users)
      ≡ (if n == k then Option.map f (find_user n users) else find_user k users)
unfolding find update_first
find-update_first k n f [] same = ground arith
find-update_first k n f (v ∷ users) same = ground (
  arith,
  same v,
  find-update_first k n f users same,
  ==_iff v.username n,
  ==_iff v.username k,
  ==_iff (f v).username k,
  ==_iff n k,
)

pub find-remove_first :
    (k n : String) (users : List User)
    → n ≢ k
    → find_user k (remove_first (named n) users) ≡ find_user k users
unfolding find remove_first
find-remove_first k n [] apart = ground arith
find-remove_first k n (v ∷ users) apart =
    ground (arith, find-remove_first k n users apart, ==_iff v.username n, ==_iff v.username k)
