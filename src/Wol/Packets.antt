-- ===== src/Wol/Packets.antt =====
-- What is sent for a machine that was added, in internal/wol/wol.go.
use kilasos.Common.{
  ℕ, subst, ◌≡◌, ◌≢◌, refl, ap, true, false, some, none, [], ◌∷◌, ◌++◌, arith, find, find_at_end,
  ◌==◌, bytes_eq, length, Bool-cases, inl, inr, ==_iff, ◌||◌,
}
use kilasos.Auth.Crypto.{Bytes}
use kilasos.Auth.Password.{hex}
use kilasos.Wol.{
  Store, Target, Env, WolError, ok, failed, save, add_machine, add_target, repeat, packet, copies,
  copy_at, parse_mac, mac_text, normalise_mac, normalised, send_magic_packet, wake,
}
use kilasos.Wol.Addresses.{SixBytes, parse_mac-SixBytes, parse_mac-mac_text, six_case, Answer-cases}

-- Six times 0xFF, and the address sixteen times.
abbrev pub magic : Bytes → Bytes
magic hw = repeat 6 (255 ∷ []) ++ repeat 16 hw

packet-six :
    (a b c d e f : ℕ) → packet (a ∷ b ∷ c ∷ d ∷ e ∷ f ∷ []) ≡ magic (a ∷ b ∷ c ∷ d ∷ e ∷ f ∷ [])
unfolding packet copies copy_at
packet-six a b c d e f = refl

-- The copies of the address fill the packet.
pub packet_lem : (hw : Bytes) → length hw ≡ 6 → packet hw ≡ magic hw
packet_lem = six_case (λ hw. packet hw ≡ magic hw) packet-six

mac_text-six : (a b c d e f : ℕ) → (mac_text (a ∷ b ∷ c ∷ d ∷ e ∷ f ∷ []) == []) ≡ false
unfolding mac_text
mac_text-six a b c d e f = refl

mac_text_given : (hw : Bytes) → length hw ≡ 6 → (mac_text hw == []) ≡ false
mac_text_given = six_case (λ hw. (mac_text hw == []) ≡ false) mac_text-six

appended :
    (e : Env) (new : Target) (s : Store) (t : Target)
    → (add_target e new s).1 ≡ ok t
    → (new ≡ t) × ((add_target e new s).0.targets ≡ s.targets ++ (new ∷ []))
unfolding save
appended e new s t h = (ground (arith, h), ground (arith, h))

-- The target that is made of an address.
abbrev target_of : Env → Bytes → Bytes → Target
target_of e name hw = record { id = hex e.id_bytes; name = name; mac = mac_text hw }

-- An answer with a target tells what was read, and what was appended.
record IsAdded (e : Env) (name mac : Bytes) (s : Store) (t : Target) : Type 0 where
  hw : Bytes
  is_read : parse_mac mac ≡ ok hw
  is_new : target_of e name hw ≡ t
  is_last : (add_machine e name mac s).0.targets ≡ s.targets ++ (target_of e name hw ∷ [])

normalise_mac-parse_mac : (mac hw : Bytes) → parse_mac mac ≡ ok hw → normalise_mac mac ≡ mac_text hw
unfolding normalise_mac
normalise_mac-parse_mac mac hw q = ap (normalised mac) q

parsed-IsAdded :
    (e : Env) (name mac : Bytes) (s : Store) (t : Target) (hw : Bytes)
    → parse_mac mac ≡ ok hw
    → (name == [] || mac == []) ≡ false
    → (add_machine e name mac s).1 ≡ ok t
    → IsAdded e name mac s t
unfolding add_machine
parsed-IsAdded e name mac s t hw q given h =
    let text = normalise_mac-parse_mac mac hw q in
    let last = appended e (target_of e name hw) s t (rw (given, q, text) at h) in
    record { hw = hw; is_read = q; is_new = last.0; is_last = rw (given, q, text) last.1 }

refused :
    (e : Env) (name mac : Bytes) (s : Store) (t : Target) (err : WolError)
    → parse_mac mac ≡ failed err
    → (add_machine e name mac s).1 ≢ ok t
unfolding add_machine
refused e name mac s t err q h = ground (arith, q, h)

empty_refused :
    (e : Env) (name mac : Bytes) (s : Store) (t : Target)
    → (name == [] || mac == []) ≡ true
    → (add_machine e name mac s).1 ≢ ok t
unfolding add_machine
empty_refused e name mac s t empty h = ground (arith, empty, h)

add_machine-IsAdded :
    (e : Env) (name mac : Bytes) (s : Store) (t : Target)
    → (add_machine e name mac s).1 ≡ ok t
    → IsAdded e name mac s t
add_machine-IsAdded e name mac s t h = elim (Bool-cases (name == [] || mac == [])) [
  | inl empty ↦ absurd (empty_refused e name mac s t empty h)
  | inr given ↦ elim (Answer-cases (parse_mac mac)) [
    | inl (err, q) ↦ absurd (refused e name mac s t err q h)
    | inr (hw, q) ↦ parsed-IsAdded e name mac s t hw q given h
  ]
]

-- Waking a machine whose address is stored as text.
sent :
    (d : Env) (hw : Bytes)
    → SixBytes hw
    → d.connected ≡ true
    → send_magic_packet d (mac_text hw) ≡ ok (magic hw)
unfolding send_magic_packet
sent d hw six line = rw (parse_mac-mac_text hw six, line, packet_lem hw six.1) refl

woken :
    (d : Env) (id : Bytes) (s : Store) (u : Target) (hw : Bytes)
    → find (λ v. v.id == id) s.targets ≡ some u
    → u.mac ≡ mac_text hw
    → SixBytes hw
    → d.connected ≡ true
    → wake d id s ≡ ok (magic hw)
unfolding wake
woken d id s u hw here text six line =
    rw (here, text, mac_text_given hw six.1, sent d hw six line) refl

-- A machine that is added with an ID of its own is woken by that ID: what goes out is 0xFF six times
-- and sixteen times the address that was read from the text that was given, in any form.
pub wake-add_machine :
    (e : Env) (name mac : Bytes) (s : Store) (t : Target) (d : Env)
    → (add_machine e name mac s).1 ≡ ok t
    → find (λ u. u.id == hex e.id_bytes) s.targets ≡ none
    → d.connected ≡ true
    → (hw : Bytes) × (parse_mac mac ≡ ok hw)
      × (length hw ≡ 6)
      × (wake d t.id (add_machine e name mac s).0 ≡ ok (magic hw))
wake-add_machine e name mac s t d h fresh line =
    let a = add_machine-IsAdded e name mac s t h in
    let six = parse_mac-SixBytes mac a.hw a.is_read in
    let last =
      find_at_end (λ u. u.id == hex e.id_bytes) s.targets (target_of e name a.hw) fresh
        ((==_iff (hex e.id_bytes) (hex e.id_bytes)).1 refl) in
    let goes =
      woken d (hex e.id_bytes) (add_machine e name mac s).0 (target_of e name a.hw) a.hw
        (rw a.is_last last) refl six line in
    (
      a.hw,
      a.is_read,
      six.1,
      subst (λ u. wake d u.id (add_machine e name mac s).0 ≡ ok (magic a.hw)) a.is_new goes,
    )
