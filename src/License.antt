-- ===== src/License.antt =====
-- internal/license: the signed licence token, and what a licence allows.
pub mod Payloads
pub mod Tokens
mod Tests
use kilasos.Common.{
  ℕ, ◌+◌, ◌-◌, ◌%◌, ◌^◌, String, Bool, true, false, not, ◌||◌, Option, none, some, List, [], ◌∷◌,
  length, take, drop, get_or, ltb, ◌==◌, nat_eq, string_eq, if◌then◌else◌, on_option,
}
use kilasos.Common.Int.{ℤ, pos, ltb_ℤ}
use kilasos.Common.Time.{Stamp, absent, malformed, at, parse, after}
use kilasos.Common.Words.{slice, big_endian4}
use kilasos.Auth.Crypto.{Bytes}

-- `License`; a `not_after` of zero is a licence without end.
pub record License : Type 0 where
  pub customer_id : String
  pub tier : String
  pub node_count : ℤ
  pub issued_at : ℕ
  pub not_after : ℕ
  pub trial : Bool
  pub max_version : String

pub record WirePayload : Type 0 where
  pub customer_id : String
  pub tier : String
  pub node_count : ℤ
  pub issued_at : Stamp
  pub not_after : Stamp
  pub trial : Bool
  pub max_version : String

-- ed25519.Verify for a key of 32 bytes, and json.Unmarshal to a payload.
pub record LicenseLib : Type 0 where
  pub ed25519_verify : Bytes → Bytes → Bytes → Bool
  pub unmarshal : Bytes → Option WirePayload

pub data LicenseError : Type 0 where
  token_too_short token_too_large unsupported_version bad_length : LicenseError
  invalid_signature invalid_tier invalid_json : LicenseError

-- `ErrExpired` comes with the licence; `panicked` is a slice out of range or a key of a wrong size.
pub data Verified : Type 0 where
  accepted expired : License → Verified
  refused : LicenseError → Verified
  panicked : Verified

unfoldable pub payload_len : Bytes → ℕ
payload_len token = big_endian4 (take 4 (drop 1 token))

-- The sums are of 32 bits.
unfoldable pub expected_total : Bytes → ℕ
expected_total token = (5 + payload_len token + 64) % 2 ^ 32

unfoldable pub body_end : Bytes → ℕ
body_end token = (5 + payload_len token) % 2 ^ 32

abbrev pub license_of : WirePayload → ℕ → License
license_of wp issued = record {
  customer_id = wp.customer_id;
  tier = wp.tier;
  node_count = wp.node_count;
  issued_at = issued;
  not_after = 0;
  trial = false;
  max_version = "";
}

abbrev marked : WirePayload → License → License
marked wp l = record l { trial = wp.trial; max_version = wp.max_version }

-- The part under `if wp.NotAfter != ""`, and what follows it.
unfoldable pub check_expiry : ℕ → WirePayload → License → Stamp → Verified
check_expiry now wp l absent = accepted (marked wp l)
check_expiry now wp l malformed = refused invalid_json
check_expiry now wp l (at n) = on_option (parse (at n)) (refused invalid_json) (λ exp.
    let l' = record l { not_after = exp } in
    if after now exp then expired l' else accepted (marked wp l'))

abbrev pub known_tier : String → Bool
known_tier tier = tier == "home" || tier == "pro"

unfoldable pub check_payload : ℕ → WirePayload → Verified
check_payload now wp =
    if not (known_tier wp.tier)
    then refused invalid_tier
    else on_option (parse wp.issued_at) (refused invalid_json) (λ issued.
      if ltb_ℤ wp.node_count (pos 1)
      then refused invalid_json
      else check_expiry now wp (license_of wp issued) wp.not_after)

module _ (lib : LicenseLib) where
  -- `ed25519.Verify` panics on a key that is not of 32 bytes.
  unfoldable pub check_signed : ℕ → Bytes → Bytes → Bytes → Bytes → Verified
  check_signed now key payload signature signed =
      if not (length key == 32)
      then panicked
      else if not (lib.ed25519_verify key signed signature)
      then refused invalid_signature
      else on_option (lib.unmarshal payload) (refused invalid_json) (check_payload now)

  unfoldable pub verify : ℕ → Bytes → Bytes → Verified
  verify now token key =
      if ltb (length token) 69
      then refused token_too_short
      else if ltb 4096 (length token)
      then refused token_too_large
      else if not (get_or token 0 0 == 1)
      then refused unsupported_version
      else if not (length token == expected_total token)
      then refused bad_length
      else on_option (slice 5 (body_end token) token) panicked (λ payload.
        on_option (slice (body_end token) (length token) token) panicked (λ signature.
          on_option (slice 0 (body_end token) token) panicked
            (λ signed. check_signed now key payload signature signed)))

-- A PEM block: its type and its bytes.
pub record PemBlock : Type 0 where
  pub kind : String
  pub bytes : Bytes

-- `EmbeddedPublicKey`, of what `pem.Decode` finds in the embedded file.
unfoldable pub embedded_public_key : Option PemBlock → Option Bytes
embedded_public_key found = on_option found none (λ block.
    if not (block.kind == "PUBLIC KEY")
    then none
    else if ltb (length block.bytes) 32
    then none
    else slice (length block.bytes - 32) (length block.bytes) block.bytes)

abbrev pub pro_features : List String
pro_features =
    "oidc" ∷ "ldap" ∷ "zfssend" ∷ "backup" ∷ "gdpr" ∷ "usb-allowlist" ∷ "apparmor" ∷ "selinux"
    ∷ "compliance" ∷ "privacy" ∷ "trivy" ∷ "lynis" ∷ "fleet" ∷ "msp" ∷ []

unfoldable pub is_listed : String → List String → Bool
is_listed name [] = false
is_listed name (x ∷ xs) = name == x || is_listed name xs

-- `none` is a nil licence.
unfoldable pub has_feature : Option License → String → Bool
has_feature lic feature =
    on_option lic false
      (λ l. if not (l.tier == "pro") then false else is_listed feature pro_features)

unfoldable pub is_expired : ℕ → Option License → Bool
is_expired now lic =
    on_option lic false (λ l. if l.not_after == 0 then false else after now l.not_after)

unfoldable pub is_trial : Option License → Bool
is_trial lic = on_option lic false (λ l. l.trial)

unfoldable pub node_limit : Option License → ℤ
node_limit lic = on_option lic (pos 1) (λ l. l.node_count)

-- `requireFeature` of internal/api/license_gate.go: 402, or what the handler behind it does.
unfoldable pub require_feature {ℓ} : {A : Type ℓ} → Option License → String → A → A → A
require_feature lic feature payment_required next =
    if not (has_feature lic feature) then payment_required else next
