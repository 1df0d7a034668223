-- ===== src/Auth/Users/Changes/BackupCodes.antt =====
-- `ConsumeBackupCode` of internal/auth/userstore.go: a code is spent.
use kilasos.Common.{
  ℕ, ◌+◌, ◌-◌, String, ◌≡◌, refl, Bool, true, false, none, some, List, [], ◌∷◌, arith, length, find,
  keep, ltb, remove_first, Option-cases, inl, inr, on_option,
}
use kilasos.Auth.Crypto.{Bytes, Crypto}
use kilasos.Auth.Password.{check_password}
use kilasos.Auth.Users.State.{User, UserStore, Env, find_user}
use kilasos.Auth.Users.Recovery.{consume_backup_code}
use kilasos.Auth.Users.Changes.Saved.{find-changed}

module _ {ℓ} {A : Type ℓ} where
  keep-remove_first :
      (p : A → Bool) (xs : List A) (x : A)
      → find p xs ≡ some x
      → length (keep p (remove_first p xs)) + 1 ≡ length (keep p xs)
  unfolding find keep remove_first
  keep-remove_first p [] x h = ground arith
  keep-remove_first p (y ∷ xs) x h = ground (arith, keep-remove_first p xs x)

  keep_of_none : (p : A → Bool) (xs : List A) → find p xs ≡ none → length (keep p xs) ≡ 0
  unfolding find keep
  keep_of_none p [] h = refl
  keep_of_none p (y ∷ xs) h = ground (arith, keep_of_none p xs)

-- How often `code` can be used by the account: the stored codes that it fits.
abbrev pub uses_left : Crypto → String → Bytes → UserStore → ℕ
uses_left lib n code s =
    on_option (find_user n s.users) 0 (λ u. length (keep (check_password lib code) u.backup_codes))

module _ (lib : Crypto) (e : Env) (n : String) (code : Bytes) (s : UserStore) where
  abbrev spend : List Bytes → User → User
  spend rest v = record v { backup_codes = rest }

  spent :
      (u : User) (c : Bytes)
      → find_user n s.users ≡ some u
      → find (check_password lib code) u.backup_codes ≡ some c
      → ((consume_backup_code lib e n code s).1 ≡ true)
        × (uses_left lib n code (consume_backup_code lib e n code s).0 + 1 ≡ uses_left lib n code s)
  unfolding consume_backup_code
  spent u c found fits =
      let rest = remove_first (check_password lib code) u.backup_codes in
      ground (
        arith,
        found,
        fits,
        find-changed e n (spend rest) s u (λ v h. h) found,
        keep-remove_first (check_password lib code) u.backup_codes c fits,
      )

  unspent :
      (u : User)
      → find_user n s.users ≡ some u
      → find (check_password lib code) u.backup_codes ≡ none
      → (consume_backup_code lib e n code s ≡ (s, false)) × (uses_left lib n code s ≡ 0)
  unfolding consume_backup_code
  unspent u found none_fits =
      ground
        (arith, found, none_fits, keep_of_none (check_password lib code) u.backup_codes none_fits)

  -- A backup code is accepted exactly while a stored code of the account fits it, each acceptance
  -- leaves one use less, and a refusal changes nothing.
  pub consume_backup_code_spends :
      ((consume_backup_code lib e n code s).1 ≡ ltb 0 (uses_left lib n code s))
      × (uses_left lib n code (consume_backup_code lib e n code s).0 ≡ uses_left lib n code s - 1)
      × ((consume_backup_code lib e n code s).1 ≡ false
          → (consume_backup_code lib e n code s).0 ≡ s)
  unfolding consume_backup_code
  consume_backup_code_spends = elim (Option-cases (find_user n s.users)) [
    | inl nobody ↦ ground (arith, nobody)
    | inr (u, found) ↦ elim (Option-cases (find (check_password lib code) u.backup_codes)) [
      | inl no_code ↦ ground (arith, found, unspent u found no_code)
      | inr (c, fits) ↦ ground (arith, found, spent u c found fits)
    ]
  ]
