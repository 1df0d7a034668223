-- ===== src/Auth/Samples.antt =====
-- Concrete arguments for the tests of internal/auth: toy hash functions, a salt, and a password.
use kilasos.Common.{ℕ, zero, suc, arith, length, ◌++◌, ◌≡◌, refl, true, none, [], ◌∷◌, All}
use kilasos.Auth.Crypto.{Bytes, IsByte, Crypto}
use kilasos.Auth.Password.{hex, derive_key, hash_password, check_password}
use kilasos.Auth.Password.Roundtrip.{check_password-hash_password}

abbrev pub lib : Crypto
lib = record {
  sha256 = λ m. m;
  hmac_sha1 = λ k m. m;
  base32_encode = λ b. "";
  base32_decode = λ s. none;
}

unfoldable pub zeros : ℕ → Bytes
zeros zero = []
zeros (suc n) = 0 ∷ zeros n

pub zeros-IsByte : (n : ℕ) → All IsByte (zeros n)
unfolding zeros
zeros-IsByte zero = tt
zeros-IsByte (suc n) = (omega arith, zeros-IsByte n)

pub length-zeros : (n : ℕ) → length (zeros n) ≡ n
unfolding zeros
length-zeros zero = refl
length-zeros (suc n) = omega (arith, length-zeros n)

abbrev pub salt : Bytes
salt = zeros 32

abbrev pub secret : Bytes
secret = b's' ∷ b'3' ∷ b'c' ∷ []

-- What `hashPassword` stores for `secret` and `salt`.
abbrev pub hash : Bytes
hash = hex salt ++ (b':' ∷ hex (derive_key lib salt secret))

pub secret_fits : check_password lib secret hash ≡ true
unfolding hash_password
secret_fits =
    (check_password-hash_password lib salt secret secret hash (zeros-IsByte 32) (length-zeros 32)
      refl).1
