-- ===== src/Auth/Totp/Tests.antt =====
-- One-time codes of internal/auth/totp.go for toy functions and two clocks.
use kilasos.Common.{ℕ, ◌+◌, ◌*◌, ◌≤◌, ◌≡◌, some, [], ◌∷◌, arith}
use kilasos.Common.Time.{second}
use kilasos.Auth.Crypto.{Crypto}
use kilasos.Auth.Totp.{totp_code}
use kilasos.Auth.Totp.Drift.{window, validate_totp-totp_code, validate_totp_means}

-- The key is ignored, and the message is repeated.
abbrev lib : Crypto
lib = record {
  sha256 = λ m. m;
  hmac_sha1 = λ k m. m;
  base32_encode = λ b. "A";
  base32_decode = λ s. some (65 ∷ []);
}

abbrev ours : ℕ
ours = (62_135_596_800 + 1_800_000_000) * second

abbrev theirs : ℕ
theirs = (62_135_596_800 + 1_800_000_030) * second

validate_totp_means_example :
    (w : ℕ) × (w ≤ window ours + 1)
    × (window ours ≤ w + 1)
    × (totp_code lib "A" w ≡ totp_code lib "A" (window theirs))
validate_totp_means_example =
    validate_totp_means lib "A" ours (totp_code lib "A" (window theirs))
      (validate_totp-totp_code lib "A" theirs ours (omega arith) (omega arith))
