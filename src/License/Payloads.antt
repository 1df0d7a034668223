-- ===== src/License/Payloads.antt =====
-- The checks that `Verify` of internal/license/license.go makes on a payload.
use kilasos.Common.{
  ℕ, ◌-◌, ◌*◌, ◌≤◌, ◌⊎◌, ◌≡◌, ◌≢◌, refl, true, false, Option, none, some, arith, length,
  length-drop, nat_eq, string_eq, Option-cases, inl, inr,
}
use kilasos.Common.Int.{pos, ltb_ℤ}
use kilasos.Common.Time.{Stamp, second, absent, malformed, at, parse}
use kilasos.Common.Words.{slice_to_end}
use kilasos.Auth.Crypto.{Bytes}
use kilasos.License.{
  License, WirePayload, LicenseLib, accepted, panicked, check_expiry, known_tier, check_payload,
  check_signed, is_expired, license_of, embedded_public_key, PemBlock,
}

-- The end of a licence, and of the payload that it was made from: both have none, or the payload's
-- is a time that has not passed, and is the licence's.
abbrev pub IsInTime : ℕ → Stamp → License → Type 0
IsInTime now stamp l =
    ((stamp ≡ absent) × (l.not_after ≡ 0))
    ⊎ ((end : ℕ) × (parse stamp ≡ some end) × (l.not_after ≡ end) × (now ≤ end))

-- What an accepted licence took from the payload.
pub record IsGranted (now : ℕ) (wp : WirePayload) (l : License) : Type 0 where
  pub known : known_tier wp.tier ≡ true
  pub same_tier : l.tier ≡ wp.tier
  pub same_nodes : l.node_count ≡ wp.node_count
  pub some_nodes : ltb_ℤ wp.node_count (pos 1) ≡ false
  pub in_time : IsInTime now wp.not_after l
  pub current : is_expired now (some l) ≡ false

accepted_expiry :
    (now : ℕ) (wp : WirePayload) (l l' : License) (stamp : Stamp)
    → l.not_after ≡ 0
    → check_expiry now wp l stamp ≡ accepted l'
    → (l'.tier ≡ l.tier)
      × (l'.node_count ≡ l.node_count)
      × (is_expired now (some l') ≡ false)
      × IsInTime now stamp l'
unfolding check_expiry is_expired
accepted_expiry now wp l l' absent z h =
    (ground arith, ground arith, ground (arith, z), inl (refl, ground (arith, z)))
accepted_expiry now wp l l' malformed z h = absurd (ground arith)
accepted_expiry now wp l l' (at n) z h =
    (ground arith, ground arith, ground arith, inr (n * second, refl, ground arith, ground arith))

pub accepted_payload :
    (now : ℕ) (wp : WirePayload) (l : License)
    → check_payload now wp ≡ accepted l
    → IsGranted now wp l
unfolding check_payload
accepted_payload now wp l h = elim (Option-cases (parse wp.issued_at)) [
  | inl never ↦ absurd (ground (arith, never))
  | inr (issued, e) ↦
      let made = license_of wp issued in
      let (tier, nodes, current, in_time) =
        accepted_expiry now wp made l wp.not_after refl (ground (arith, e)) in
      record {
        known = ground (arith, e);
        same_tier = tier;
        same_nodes = nodes;
        some_nodes = ground (arith, e);
        in_time = in_time;
        current = current;
      }
]

expiry_never_panics :
    (now : ℕ) (wp : WirePayload) (l : License) (stamp : Stamp)
    → check_expiry now wp l stamp ≢ panicked
unfolding check_expiry
expiry_never_panics now wp l absent h = ground arith
expiry_never_panics now wp l malformed h = ground arith
expiry_never_panics now wp l (at n) h = ground arith

pub payload_never_panics : (now : ℕ) (wp : WirePayload) → check_payload now wp ≢ panicked
unfolding check_payload
payload_never_panics now wp h = elim (Option-cases (parse wp.issued_at)) [
  | inl never ↦ ground (arith, never)
  | inr (issued, e) ↦
      ground (arith, e, expiry_never_panics now wp (license_of wp issued) wp.not_after)
]

module _ (lib : LicenseLib) (now : ℕ) (key payload signature signed : Bytes) where
  pub accepted_signed :
      (l : License)
      → check_signed lib now key payload signature signed ≡ accepted l
      → (lib.ed25519_verify key signed signature ≡ true)
        × (wp : WirePayload) × (lib.unmarshal payload ≡ some wp)
        × IsGranted now wp l
  unfolding check_signed
  accepted_signed l h = elim (Option-cases (lib.unmarshal payload)) [
    | inl nothing ↦ absurd (ground (arith, nothing))
    | inr (wp, read) ↦
        (ground (arith, read), wp, read, accepted_payload now wp l (ground (arith, read)))
  ]

  pub signed_never_panics :
      length key ≡ 32 → check_signed lib now key payload signature signed ≢ panicked
  unfolding check_signed
  signed_never_panics size h = elim (Option-cases (lib.unmarshal payload)) [
    | inl nothing ↦ ground (arith, nothing, size)
    | inr (wp, read) ↦ ground (arith, read, size, payload_never_panics now wp)
  ]

pub embedded_public_key_size :
    (block : Option PemBlock) (key : Bytes) → embedded_public_key block ≡ some key → length key ≡ 32
unfolding embedded_public_key
embedded_public_key_size none key h = absurd (ground arith)
embedded_public_key_size (some b) key h = ground (
  arith,
  slice_to_end (length b.bytes - 32) b.bytes (omega arith),
  length-drop (length b.bytes - 32) b.bytes,
)
