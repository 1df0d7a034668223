-- ===== src/Auth/Password.antt =====
-- hashPassword, checkPassword, deriveKey and genToken of internal/auth/userstore.go, over
-- hexadecimal text as bytes.
pub mod Roundtrip
use kilasos.Common.{
  ℕ, zero, suc, ◌+◌, ◌-◌, ◌*◌, ◌/◌, ◌%◌, Bool, true, false, not, ◌&&◌, ◌||◌, Option, none, some,
  List, [], ◌∷◌, ◌++◌, length, take, drop, get_or, ltb, leb, ◌==◌, nat_eq, bytes_eq, if◌then◌else◌,
}
use kilasos.Auth.Crypto.{Bytes, Crypto}

unfoldable pub hex_digit : ℕ → ℕ
hex_digit n = if ltb n 10 then b'0' + n else 87 + n

-- `hex.EncodeToString`
unfoldable pub hex : Bytes → Bytes
unfolding hex_digit
hex [] = []
hex (b ∷ bs) = hex_digit (b / 16) ∷ hex_digit (b % 16) ∷ hex bs

unfoldable pub unhex_digit : ℕ → Option ℕ
unhex_digit c =
    if leb b'0' c && leb c b'9'
    then some (c - b'0')
    else if leb b'a' c && leb c b'f'
    then some (c - 87)
    else if leb b'A' c && leb c b'F'
    then some (c - 55)
    else none

abbrev pub pair : Option ℕ → Option ℕ → Option Bytes → Option Bytes
pair (some hi) (some lo) (some rest) = some ((hi * 16 + lo) ∷ rest)
pair _ _ _ = none

-- `hex.DecodeString`
unfoldable pub unhex : Bytes → Option Bytes
unfolding unhex_digit
unhex [] = some []
unhex (c ∷ []) = none
unhex (c ∷ d ∷ rest) = pair (unhex_digit c) (unhex_digit d) (unhex rest)

module _ (lib : Crypto) where
  -- `for i := 0; i < n; i++ { h = sha256.Sum256(h[:]) }`
  rounds : ℕ → Bytes → Bytes
  rounds zero h = h
  rounds (suc n) h = rounds n (lib.sha256 h)

  unfoldable pub derive_key : Bytes → Bytes → Bytes
  unfolding rounds
  derive_key salt password = rounds 65536 (lib.sha256 (salt ++ password))

  -- `rand.Read` may fail; then there is no salt.
  unfoldable pub hash_password : Option Bytes → Bytes → Option Bytes
  hash_password none password = none
  hash_password (some salt) password = some (hex salt ++ (b':' ∷ hex (derive_key salt password)))

  abbrev compare_key : Bytes → Bytes → Option Bytes → Bool
  compare_key password want none = false
  compare_key password want (some salt) = hex (derive_key salt password) == want

  unfoldable pub check_password : Bytes → Bytes → Bool
  check_password password stored =
      if ltb (length stored) 65 || not (get_or stored 64 0 == b':')
      then false
      else compare_key password (drop 65 stored) (unhex (take 64 stored))

-- The 24 bytes stay zero where `rand.Read` fails.
unfoldable pub gen_token : Bytes → Bytes
gen_token bytes = hex bytes
