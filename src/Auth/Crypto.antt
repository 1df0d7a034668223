-- ===== src/Auth/Crypto.antt =====
-- What internal/auth takes from Go's crypto and encoding packages: hashes, and base32. Random
-- bytes come with each call. The hash functions are arguments of the model.
use kilasos.Common.{ℕ, String, Option, List, ◌<◌}

abbrev pub Bytes : Type 0
Bytes = List ℕ

abbrev pub IsByte : ℕ → Type 0
IsByte b = b < 256

pub record Crypto : Type 0 where
  -- sha256.Sum256
  pub sha256 : Bytes → Bytes
  -- the HMAC of a message under a key, with SHA-1
  pub hmac_sha1 : Bytes → Bytes → Bytes
  -- base32.StdEncoding.WithPadding(base32.NoPadding)
  pub base32_encode : Bytes → String
  pub base32_decode : String → Option Bytes
