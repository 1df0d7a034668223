-- ===== src/Auth/Password/Roundtrip.antt =====
-- A password that was hashed is checked against its own hash.
use kilasos.Common.{
  ℕ, suc, ◌*◌, ◌/◌, ◌%◌, ◌<◌, ◌≡◌, refl, ap, ◌∙◌, true, some, [], ◌∷◌, ◌++◌, arith, length, take,
  drop, get_or, All, length-append, ◌==◌, nat_eq, bytes_eq, take-length-append, subst, ltb, false,
  ==_iff,
}
use kilasos.Auth.Crypto.{Bytes, IsByte, Crypto}
use kilasos.Auth.Password.{
  hex_digit, hex, unhex_digit, unhex, derive_key, hash_password, check_password,
}

pub unhex_digit-hex_digit : (n : ℕ) → n < 16 → unhex_digit (hex_digit n) ≡ some n
unfolding unhex_digit hex_digit
unhex_digit-hex_digit n h = ground arith

-- Decoding undoes encoding, for bytes.
pub unhex-hex : (bs : Bytes) → All IsByte bs → unhex (hex bs) ≡ some bs
unfolding hex unhex
unhex-hex [] h = refl
unhex-hex (b ∷ bs) h = ground (
  arith,
  unhex_digit-hex_digit (b / 16) (omega arith),
  unhex_digit-hex_digit (b % 16) (omega arith),
  unhex-hex bs h.1,
)

some_eq : {a b : Bytes} → some a ≡ some b → a ≡ b
some_eq h = cc

pub length-hex : (bs : Bytes) → length (hex bs) ≡ 2 * length bs
unfolding hex
length-hex [] = refl
length-hex (b ∷ bs) = omega (arith, length-hex bs)

get_or-append : (xs ys : Bytes) (y : ℕ) → get_or (xs ++ (y ∷ ys)) (length xs) 0 ≡ y
get_or-append [] ys y = refl
get_or-append (x ∷ xs) ys y = get_or-append xs ys y

drop_past : (xs ys : Bytes) (y : ℕ) → drop (suc (length xs)) (xs ++ (y ∷ ys)) ≡ ys
drop_past [] ys y = refl
drop_past (x ∷ xs) ys y = drop_past xs ys y

at_least_65 :
    (salt key : Bytes) → length (hex salt) ≡ 64 → ltb (length (hex salt ++ (b':' ∷ key))) 65 ≡ false
at_least_65 salt key e = ground (arith, length-append (hex salt) (b':' ∷ key))

module _ (lib : Crypto) where
  check_parts :
      (salt password stored : Bytes)
      → ltb (length stored) 65 ≡ false
      → get_or stored 64 0 ≡ b':'
      → unhex (take 64 stored) ≡ some salt
      → check_password lib password stored ≡ (hex (derive_key lib salt password) == drop 65 stored)
  unfolding check_password
  check_parts salt password stored long colon decoded = rw (long, colon, decoded)

  check-split :
      (salt password key : Bytes)
      → All IsByte salt
      → length salt ≡ 32
      → check_password lib password (hex salt ++ (b':' ∷ key))
        ≡ (hex (derive_key lib salt password) == key)
  unfolding check_password
  check-split salt password key bytes size =
      let e : length (hex salt) ≡ 64 = omega (arith, length-hex salt) in
      let stored = hex salt ++ (b':' ∷ key) in
      check_parts salt password stored (at_least_65 salt key e)
        (subst (λ n. get_or stored n 0 ≡ b':') e (get_or-append (hex salt) key b':'))
        (subst (λ n. unhex (take n stored) ≡ some salt) e
          (rw (take-length-append (hex salt) (b':' ∷ key)) (unhex-hex salt bytes)))
      ∙ ap (λ k. hex (derive_key lib salt password) == k)
          (subst (λ n. drop (suc n) stored ≡ key) e (drop_past (hex salt) key b':'))

  -- With a salt of 32 bytes, a password passes against the hash of another exactly when the two
  -- derived keys have the same text; the password itself always passes.
  pub check_password-hash_password :
      (salt password other hash : Bytes)
      → All IsByte salt
      → length salt ≡ 32
      → hash_password lib (some salt) password ≡ some hash
      → (check_password lib other hash
          ≡ (hex (derive_key lib salt other) == hex (derive_key lib salt password)))
        × (check_password lib password hash ≡ true)
  unfolding hash_password
  check_password-hash_password salt password other hash bytes size h =
      let e : hex salt ++ (b':' ∷ hex (derive_key lib salt password)) ≡ hash = some_eq h in
      let split =
        λ (p : Bytes). check-split salt p (hex (derive_key lib salt password)) bytes size in
      (
        subst
            (λ k.
              check_password lib other k
              ≡ (hex (derive_key lib salt other) == hex (derive_key lib salt password)))
            e (split other),
        subst (λ k. check_password lib password k ≡ true) e
            (split password ∙ (==_iff (hex (derive_key lib salt password)) _).1 refl),
      )
