-- ===== src/License/Tests.antt =====
-- A licence of internal/license, sealed and read.
use kilasos.Common.{
  ◌-◌, ◌*◌, ◌≡◌, ◌≢◌, refl, true, false, some, [], ◌∷◌, ◌++◌, arith, length, take, drop, All,
}
use kilasos.Common.Int.{pos}
use kilasos.Common.Time.{absent, at, day}
use kilasos.Common.Words.{slice}
use kilasos.Auth.Crypto.{Bytes, IsByte}
use kilasos.Auth.Samples.{zeros, zeros-IsByte, length-zeros}
use kilasos.License.{
  License, WirePayload, LicenseLib, accepted, panicked, PemBlock, embedded_public_key, verify,
  check_signed, check_payload, check_expiry, payload_len, expected_total, body_end,
}
use kilasos.License.Payloads.{IsGranted}
use kilasos.License.Tokens.{IsEnvelope, header, verify-sealed, verify_means, verify_never_panics}

abbrev office : WirePayload
office = record {
  customer_id = "office";
  tier = "pro";
  node_count = pos 4;
  issued_at = at 1;
  not_after = absent;
  trial = false;
  max_version = "";
}

-- Every signature is taken for good, and every payload for that of `office`.
abbrev lib : LicenseLib
lib = record { ed25519_verify = λ key m s. true; unmarshal = λ b. some office }

abbrev key : Bytes
key = zeros 32

abbrev block : PemBlock
block = record { kind = "PUBLIC KEY"; bytes = 48 ∷ 42 ∷ zeros 32 }

abbrev body : Bytes
body = 123 ∷ 125 ∷ []

abbrev token : Bytes
token = (header body ++ body) ++ zeros 64

verify-sealed_example :
    verify lib (30 * day) token key
    ≡ check_signed lib (30 * day) key body (zeros 64) (header body ++ body)
verify-sealed_example =
    verify-sealed lib (30 * day) key body (zeros 64) (omega arith) (length-zeros 64)

token-bytes : All IsByte token
token-bytes = (
  omega arith,
  (
    omega arith,
    (omega arith, (omega arith, (omega arith, (omega arith, (omega arith, zeros-IsByte 64))))),
  ),
)

abbrev pro : License
pro = record {
  customer_id = "office";
  tier = "pro";
  node_count = pos 4;
  issued_at = 1_000_000_000;
  not_after = 0;
  trial = false;
  max_version = "";
}

office_accepted : verify lib (30 * day) token key ≡ accepted pro
unfolding verify check_signed check_payload check_expiry zeros slice payload_len expected_total
    body_end
office_accepted = refl

verify_means_example :
    IsEnvelope token
    × (lib.ed25519_verify key (take (length token - 64) token) (drop (length token - 64) token)
        ≡ true)
    × (wp : WirePayload) × (lib.unmarshal (take (length token - 69) (drop 5 token)) ≡ some wp)
    × IsGranted (30 * day) wp pro
verify_means_example = verify_means lib (30 * day) token key pro token-bytes office_accepted

verify_never_panics_example : verify lib (30 * day) token key ≢ panicked
unfolding embedded_public_key slice zeros
verify_never_panics_example =
    verify_never_panics lib (30 * day) token key (some block) refl token-bytes
