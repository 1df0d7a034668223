-- ===== src/License/Tokens.antt =====
-- `Verify` of internal/license/license.go.
use kilasos.Common.{
  ℕ, ◌+◌, ◌-◌, ◌%◌, ◌/◌, ◌^◌, ◌≤◌, ◌<◌, ◌≡◌, ◌≢◌, ◌∙◌, refl, ap, sym, true, Option, some, [], ◌∷◌,
  ◌++◌, arith, length, take, drop, get_or, All, All-take, length-append, nat_eq, string_eq,
  take-length-append, drop-length-append,
}
use kilasos.Common.Words.{
  slice, big_endian4_bound, All-drop, slice_within, slice_to_end, slice_from_start,
}
use kilasos.Auth.Crypto.{Bytes, IsByte}
use kilasos.License.Payloads.{
  IsGranted, accepted_signed, signed_never_panics, embedded_public_key_size,
}
use kilasos.License.{
  License, WirePayload, LicenseLib, LicenseError, accepted, refused, panicked, token_too_short,
  token_too_large, unsupported_version, bad_length, payload_len, expected_total, body_end,
  check_signed, verify, embedded_public_key, PemBlock,
}

payload_len_bound : (token : Bytes) → All IsByte token → payload_len token < 2 ^ 32
unfolding payload_len
payload_len_bound token bytes =
    big_endian4_bound (take 4 (drop 1 token))
      (All-take IsByte 4 (drop 1 token) (All-drop IsByte 1 token bytes))

-- What the guards on the envelope let through.
pub record IsEnvelope (token : Bytes) : Type 0 where
  pub long_enough : 69 ≤ length token
  pub short_enough : length token ≤ 4096
  pub version : get_or token 0 0 ≡ 1
  pub declared : payload_len token + 69 ≡ length token

module _ (token : Bytes) (h : IsEnvelope token) where
  ends : body_end token ≡ length token - 64
  unfolding body_end
  ends = omega (arith, h.declared, h.long_enough, h.short_enough)

  total : expected_total token ≡ length token
  unfolding expected_total
  total = omega (arith, h.declared, h.short_enough)

  payload_slice : slice 5 (body_end token) token ≡ some (take (length token - 69) (drop 5 token))
  payload_slice =
      ap (λ k. slice 5 k token) ends
      ∙ slice_within 5 (length token - 64) token (omega (arith, h.long_enough)) (omega arith)
      ∙ ap (λ k. some (take k (drop 5 token))) (omega (arith, h.long_enough))

  signature_slice :
      slice (body_end token) (length token) token ≡ some (drop (length token - 64) token)
  signature_slice =
      ap (λ k. slice k (length token) token) ends
      ∙ slice_to_end (length token - 64) token (omega arith)

  signed_slice : slice 0 (body_end token) token ≡ some (take (length token - 64) token)
  signed_slice =
      ap (λ k. slice 0 k token) ends ∙ slice_from_start (length token - 64) token (omega arith)

module _ (lib : LicenseLib) (now : ℕ) (token key : Bytes) where
  -- On an envelope the declared length is the real one, and the slices are in range.
  verify-envelope :
      IsEnvelope token
      → verify lib now token key
        ≡ check_signed lib now key
            (take (length token - 69) (drop 5 token))
            (drop (length token - 64) token)
            (take (length token - 64) token)
  unfolding verify
  verify-envelope h = ground (
    arith,
    h.long_enough,
    h.short_enough,
    h.version,
    total token h,
    payload_slice token h,
    signature_slice token h,
    signed_slice token h,
  )

  -- A token that is not refused for its envelope is one.
  envelope :
      All IsByte token
      → ((err : LicenseError) → verify lib now token key ≢ refused err)
      → IsEnvelope token
  unfolding verify expected_total
  envelope bytes h = record {
    long_enough = ground (arith, h token_too_short);
    short_enough = ground (arith, h token_too_short, h token_too_large);
    version = ground (arith, h token_too_short, h token_too_large, h unsupported_version);
    declared = ground (
      arith,
      h token_too_short,
      h token_too_large,
      h unsupported_version,
      h bad_length,
      payload_len_bound token bytes,
    );
  }

  -- A token of bytes that is accepted has a length of 69 to 4096 bytes that its header declares
  -- exactly; the signature over all but its last 64 bytes is theirs; the bytes between header and
  -- signature are the payload; and the payload has a known tier and at least one node, which are
  -- the licence's, and no end, or one that has not passed and is the licence's.
  pub verify_means :
      (l : License)
      → All IsByte token
      → verify lib now token key ≡ accepted l
      → IsEnvelope token
        × (lib.ed25519_verify key (take (length token - 64) token) (drop (length token - 64) token)
            ≡ true)
        × (wp : WirePayload) × (lib.unmarshal (take (length token - 69) (drop 5 token)) ≡ some wp)
        × IsGranted now wp l
  verify_means l bytes h =
      let e = envelope bytes (λ err r. ground arith) in
      let (signed, wp, read, granted) =
        accepted_signed lib now key (take (length token - 69) (drop 5 token))
          (drop (length token - 64) token) (take (length token - 64) token) l
          (sym (verify-envelope e) ∙ h) in
      (e, signed, wp, read, granted)

  -- The daemon's own key makes no call panic, whatever the bytes of the token.
  pub verify_never_panics :
      (block : Option PemBlock)
      → embedded_public_key block ≡ some key
      → All IsByte token
      → verify lib now token key ≢ panicked
  verify_never_panics block is_key bytes h =
      let e = envelope bytes (λ err r. ground arith) in
      signed_never_panics lib now key (take (length token - 69) (drop 5 token))
        (drop (length token - 64) token) (take (length token - 64) token)
        (embedded_public_key_size block key is_key) (sym (verify-envelope e) ∙ h)

-- The documented layout: a version byte, the payload's length in four bytes, big end first, the
-- payload, and the signature.
abbrev pub header : Bytes → Bytes
header payload =
    1
    ∷ length payload / 2 ^ 24 % 256
    ∷ length payload / 2 ^ 16 % 256
    ∷ length payload / 2 ^ 8 % 256
    ∷ length payload % 256
    ∷ []

module _ (lib : LicenseLib) (now : ℕ) (key payload signature : Bytes) where
  abbrev sealed : Bytes
  sealed = (header payload ++ payload) ++ signature

  sealed-IsEnvelope : length payload ≤ 4027 → length signature ≡ 64 → IsEnvelope sealed
  unfolding payload_len
  sealed-IsEnvelope short size =
      let long = length-append (header payload ++ payload) signature in
      record {
        long_enough = omega (arith, long, size);
        short_enough = omega (arith, long, size, short);
        version = refl;
        declared = omega (arith, long, size, short);
      }

  -- A token in the documented layout, of a payload of up to 4027 bytes and a signature of 64, is
  -- judged by that payload and that signature, which is checked over header and payload.
  pub verify-sealed :
      length payload ≤ 4027
      → length signature ≡ 64
      → verify lib now ((header payload ++ payload) ++ signature) key
        ≡ check_signed lib now key payload signature (header payload ++ payload)
  verify-sealed short size =
      let front = header payload ++ payload in
      let long = length-append front signature in
      let envelope_end : length sealed - 64 ≡ length front = omega (arith, long, size) in
      let body : length sealed - 69 ≡ length payload = omega (arith, long, size) in
      verify-envelope lib now sealed key (sealed-IsEnvelope short size)
      ∙ ap
          (λ p.
            check_signed lib now key p (drop (length sealed - 64) sealed)
              (take (length sealed - 64) sealed))
          (ap (λ k. take k (payload ++ signature)) body ∙ take-length-append payload signature)
      ∙ ap (λ p. check_signed lib now key payload p (take (length sealed - 64) sealed))
          (ap (λ k. drop k sealed) envelope_end ∙ drop-length-append front signature)
      ∙ ap (check_signed lib now key payload signature)
          (ap (λ k. take k sealed) envelope_end ∙ take-length-append front signature)
