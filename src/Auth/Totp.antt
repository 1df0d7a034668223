-- ===== src/Auth/Totp.antt =====
-- internal/auth/totp.go: time-based one-time codes. The clock is taken to be past 1 January 1970.
pub mod Drift
mod Tests
use kilasos.Common.{
  ℕ, ◌+◌, ◌-◌, ◌*◌, ◌/◌, ◌%◌, ◌^◌, String, Bool, false, ◌||◌, Option, none, some, List, [], ◌∷◌,
  length, take, drop, get_or, ◌==◌, bytes_eq,
}
use kilasos.Common.Time.{second}
use kilasos.Common.Words.{big_endian4}
use kilasos.Auth.Crypto.{Bytes, Crypto}

-- `t.Unix()`: the zero time lies 62135596800 seconds before the epoch
abbrev pub unix : ℕ → ℕ
unix now = now / second - 62_135_596_800

-- `binary.BigEndian.PutUint64`
abbrev big_endian8 : ℕ → Bytes
big_endian8 n =
    n / 2 ^ 56 % 256
    ∷ n / 2 ^ 48 % 256
    ∷ n / 2 ^ 40 % 256
    ∷ n / 2 ^ 32 % 256
    ∷ n / 2 ^ 24 % 256
    ∷ n / 2 ^ 16 % 256
    ∷ n / 2 ^ 8 % 256
    ∷ n % 256
    ∷ []

-- `fmt.Sprintf("%06d", n)` for n below a million
unfoldable pub six_digits : ℕ → Bytes
six_digits n =
    (b'0' + n / 100_000 % 10)
    ∷ (b'0' + n / 10_000 % 10)
    ∷ (b'0' + n / 1000 % 10)
    ∷ (b'0' + n / 100 % 10)
    ∷ (b'0' + n / 10 % 10)
    ∷ (b'0' + n % 10)
    ∷ []

-- Dynamic truncation: the low half of the last byte says where the four bytes of the code begin;
-- the top bit is dropped.
unfoldable pub truncate : Bytes → ℕ
truncate h = big_endian4 (take 4 (drop (get_or h (length h - 1) 0 % 16) h)) % 2 ^ 31

module _ (lib : Crypto) where
  abbrev code_of : Option Bytes → ℕ → Bytes
  code_of none counter = []
  code_of (some key) counter =
      six_digits (truncate (lib.hmac_sha1 key (big_endian8 (counter % 2 ^ 64))) % 1_000_000)

  unfoldable pub totp_code : String → ℕ → Bytes
  totp_code secret counter = code_of (lib.base32_decode secret) counter

  -- the half minute of the clock, the one before it and the one after it
  unfoldable pub validate_totp : ℕ → String → Bytes → Bool
  validate_totp now secret code =
      let t = unix now / 30 in
      totp_code secret (t - 1) == code
      || totp_code secret t == code
      || totp_code secret (t + 1) == code
