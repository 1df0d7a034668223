-- ===== src/Auth/ApiKeys/Validity.antt =====
-- Which keys `Validate` of internal/auth/apikeys.go accepts.
use kilasos.Common.{
  ℕ, ◌*◌, ◌/◌, ◌≤◌, String, ◌≡◌, refl, sym, subst, ap, Bool, true, false, none, some, List, [], ◌∷◌,
  ◌++◌, arith, length, length-append, find, find_at_end, ltb, ==_iff, string_eq, bytes_eq,
  Option-cases, Bool-cases, inl, inr,
}
use kilasos.Common.Int.{ℤ, pos, ltb_ℤ}
use kilasos.Common.Time.{second, add}
use kilasos.Auth.Crypto.{Bytes, Crypto}
use kilasos.Auth.Password.{hex}
use kilasos.Auth.Password.Roundtrip.{length-hex}
use kilasos.Auth.Users.State.{User, find_user}
use kilasos.Auth.ApiKeys.{
  ApiKey, ApiKeyStore, KeyEnv, created, save, entry, create, hash_of, has_hash, is_expired,
  validate,
}

module _ (lib : Crypto) where
  length_of_key :
      (id key : Bytes)
      → length id ≡ 4
      → length key ≡ 32
      → ltb (length (hex id ++ (b'.' ∷ hex key))) 16 ≡ false
  length_of_key id key four more =
      ground (arith, length-append (hex id) (b'.' ∷ hex key), length-hex id, length-hex key)

  -- A call that answers with a key has found the user, and has appended the entry.
  created_entry :
      (e : KeyEnv) (users : List User) (n label : String) (ttl : ℤ) (s : ApiKeyStore)
      (id full : Bytes)
      → (create lib e users n label ttl s).1 ≡ created id full
      → (u : User) × (find_user n users ≡ some u)
        × (full ≡ hex e.id_bytes ++ (b'.' ∷ hex e.key_bytes))
        × ((create lib e users n label ttl s).0.keys ≡ s.keys ++ (entry lib e u n label ttl ∷ []))
  unfolding create save
  created_entry e users n label ttl s id full made = elim (Option-cases (find_user n users)) [
    | inl nobody ↦ absurd (ground (arith, nobody))
    | inr (u, found) ↦ (u, found, ground (arith, found), ground (arith, found))
  ]

  not_expired :
      (e : KeyEnv) (u : User) (n label : String) (ttl : ℤ) (now : ℕ)
      → (ltb_ℤ (pos 0) ttl ≡ true → now ≤ add e.now ttl / second * second)
      → is_expired now (entry lib e u n label ttl).expires_at ≡ false
  unfolding is_expired entry
  not_expired e u n label ttl now soon = elim (Bool-cases (ltb_ℤ (pos 0) ttl)) [
    | inl lives ↦ ground (arith, lives, soon lives)
    | inr never ↦ ground (arith, never)
  ]

  key_has_hash :
      (e : KeyEnv) (u : User) (n label : String) (ttl : ℤ) (full : Bytes)
      → full ≡ hex e.id_bytes ++ (b'.' ∷ hex e.key_bytes)
      → has_hash lib (hash_of lib full) (entry lib e u n label ttl) ≡ true
  unfolding entry
  key_has_hash e u n label ttl full h =
      (==_iff (entry lib e u n label ttl).hashed_key (hash_of lib full)).1
        (ap (hash_of lib) (sym h))

  accepted :
      (now : ℕ) (writable : Bool) (presented : Bytes) (k : ApiKey) (n role : String)
      (s : ApiKeyStore)
      → ltb (length presented) 16 ≡ false
      → find (has_hash lib (hash_of lib presented)) s.keys ≡ some k
      → is_expired now k.expires_at ≡ false
      → k.username ≡ n
      → k.role ≡ role
      → (validate lib now writable presented s).1 ≡ some (n, role)
  unfolding validate
  accepted now writable presented k n role s long found lives name its_role =
      ground (arith, long, found, lives)

  accepted_key :
      (now : ℕ) (writable : Bool) (presented : Bytes) (name role : String) (s : ApiKeyStore)
      → (validate lib now writable presented s).1 ≡ some (name, role)
      → (k : ApiKey) × (find (has_hash lib (hash_of lib presented)) s.keys ≡ some k)
        × (k.username ≡ name)
  unfolding validate
  accepted_key now writable presented name role s ok =
      elim (Option-cases (find (has_hash lib (hash_of lib presented)) s.keys)) [
        | inl nothing ↦ absurd (ground (arith, nothing))
        | inr (k, found) ↦ (k, found, ground (arith, found))
      ]

  -- A key that was created for a user is accepted with the user's name and the role that the user
  -- had then, up to its expiry in whole seconds, or for ever where no positive lifetime was
  -- given. (No earlier key may have its hash.)
  pub validate-create :
      (e : KeyEnv) (users : List User) (n label : String) (ttl : ℤ) (s : ApiKeyStore) (now : ℕ)
      (writable : Bool) (id full : Bytes)
      → (create lib e users n label ttl s).1 ≡ created id full
      → find (has_hash lib (hash_of lib full)) s.keys ≡ none
      → length e.id_bytes ≡ 4
      → length e.key_bytes ≡ 32
      → (ltb_ℤ (pos 0) ttl ≡ true → now ≤ add e.now ttl / second * second)
      → (u : User) × (find_user n users ≡ some u)
        × ((validate lib now writable full (create lib e users n label ttl s).0).1
            ≡ some (n, u.role))
  unfolding entry
  validate-create e users n label ttl s now writable id full made fresh four more soon =
      let (u, found, is_full, appended) = created_entry e users n label ttl s id full made in
      let key = entry lib e u n label ttl in
      let long =
        subst (λ b. ltb (length b) 16 ≡ false) (sym is_full)
          (length_of_key e.id_bytes e.key_bytes four more) in
      let at_end =
        find_at_end (has_hash lib (hash_of lib full)) s.keys key fresh
          (key_has_hash e u n label ttl full is_full) in
      (
        u,
        found,
        accepted now writable full key n u.role (create lib e users n label ttl s).0 long
            (subst (λ ks. find (has_hash lib (hash_of lib full)) ks ≡ some key) (sym appended)
              at_end)
            (not_expired e u n label ttl now soon) refl refl,
      )
