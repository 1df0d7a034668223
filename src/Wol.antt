-- ===== src/Wol.antt =====
-- internal/wol/wol.go: the machines that can be woken, and the magic packet. ParseMAC and String
-- are those of Go's package net; a text is its bytes, and an address is its octets.
pub mod Addresses
pub mod Packets
mod Tests
use kilasos.Common.{
  ℕ, zero, suc, ◌+◌, ◌-◌, ◌*◌, ◌/◌, ◌%◌, Bool, true, false, not, ◌&&◌, ◌||◌, Option, none, some,
  List, [], ◌∷◌, ◌++◌, map, length, take, drop, get_or, find, remove_first, ltb, ◌==◌, nat_eq,
  bytes_eq, if◌then◌else◌, on_option,
}
use kilasos.Common.Words.{replace_all}
use kilasos.Auth.Crypto.{Bytes}
use kilasos.Auth.Password.{hex, hex_digit, unhex, unhex_digit, pair}

pub record Target : Type 0 where
  pub id : Bytes
  pub name : Bytes
  pub mac : Bytes

-- `file` is what the file holds.
pub record Store : Type 0 where
  pub targets : List Target
  pub file : List Target

pub data WolError : Type 0 where
  fields_required invalid_mac not_48_bits target_not_found write_failed network_failed : WolError

pub data Answer {ℓ} (A : Type ℓ) : Type ℓ where
  ok : A → Answer A
  failed : WolError → Answer A

-- What a call takes from outside: six random bytes, whether the file is written, and whether the
-- network takes a packet.
pub record Env : Type 0 where
  pub id_bytes : Bytes
  pub writable : Bool
  pub connected : Bool

-- What the file holds at the start; none where it cannot be read. A text that is not JSON counts as
-- no targets.
pub data Found : Type 0 where
  missing unreadable bad_text : Found
  holds : List Target → Found

unfoldable pub new_store : Found → Option Store
new_store missing = some (record { targets = []; file = [] })
new_store unreadable = none
new_store bad_text = some (record { targets = []; file = [] })
new_store (holds ts) = some (record { targets = ts; file = ts })

unfoldable pub save : Env → Store → Store × Option WolError
save e s = if e.writable then (record s { file = s.targets }, none) else (s, some write_failed)

unfoldable pub clean : Bytes → Bytes
unfolding replace_all
clean mac = replace_all b'.' b':' (replace_all b'-' b':' mac)

-- `strings.Contains(clean, ":")`
unfoldable pub has_colon : Bytes → Bool
has_colon [] = false
has_colon (c ∷ cs) = c == b':' || has_colon cs

-- The loop of net.ParseMAC: two digits, and a colon unless the text ends there.
unfoldable pub octets : Bytes → Option Bytes
octets [] = none
octets (c ∷ []) = none
octets (c ∷ d ∷ []) = pair (unhex_digit c) (unhex_digit d) (some [])
octets (c ∷ d ∷ x ∷ rest) =
    let more = octets rest in if x == b':' then pair (unhex_digit c) (unhex_digit d) more else none

-- net.ParseMAC, of a text without `-` and `.`: the form with points is refused.
unfoldable pub parse_colons : Bytes → Option Bytes
parse_colons mac =
    let n = (length mac + 1) / 3 in
    if ltb (length mac) 14 || not (get_or mac 2 0 == b':')
    then none
    else if not ((length mac + 1) % 3 == 0) || not (n == 6 || n == 8 || n == 20)
    then none
    else octets mac

abbrev pub only_48 : Bytes → Answer Bytes
only_48 hw = if not (length hw == 6) then failed not_48_bits else ok hw

unfoldable pub parse_mac : Bytes → Answer Bytes
parse_mac mac =
    let text = clean mac in
    if not (has_colon text) && length text == 12
    then on_option (unhex text) (failed invalid_mac) ok
    else on_option (parse_colons text) (failed invalid_mac) only_48

-- `hw.String()`
unfoldable pub mac_text : Bytes → Bytes
mac_text [] = []
mac_text (b ∷ []) = hex_digit (b / 16) ∷ hex_digit (b % 16) ∷ []
mac_text (b ∷ c ∷ rest) = hex_digit (b / 16) ∷ hex_digit (b % 16) ∷ b':' ∷ mac_text (c ∷ rest)

abbrev pub normalised : Bytes → Answer Bytes → Bytes
normalised mac (failed err) = mac
normalised mac (ok hw) = mac_text hw

unfoldable pub normalise_mac : Bytes → Bytes
normalise_mac mac = normalised mac (parse_mac mac)

abbrev pub add_target : Env → Target → Store → Store × Answer Target
add_target e t s =
    let saved = save e (record s { targets = s.targets ++ (t ∷ []) }) in
    (saved.0, on_option saved.1 (ok t) failed)

abbrev pub add_parsed : Env → Bytes → Bytes → Store → Answer Bytes → Store × Answer Target
add_parsed e name mac s (failed err) = (s, failed err)
add_parsed e name mac s (ok hw) =
    add_target e (record { id = hex e.id_bytes; name = name; mac = normalise_mac mac }) s

-- `Add`
unfoldable pub add_machine : Env → Bytes → Bytes → Store → Store × Answer Target
unfolding save
add_machine e name mac s =
    if name == [] || mac == []
    then (s, failed fields_required)
    else add_parsed e name mac s (parse_mac mac)

-- `Delete`
unfoldable pub delete_machine : Env → Bytes → Store → Store × Option WolError
unfolding save
delete_machine e id s =
    on_option (find (λ t. t.id == id) s.targets) (s, some target_not_found)
      (λ _. save e (record s { targets = remove_first (λ t. t.id == id) s.targets }))

abbrev pub repeat : ℕ → Bytes → Bytes
repeat zero bs = []
repeat (suc n) bs = bs ++ repeat n bs

-- `copy(pkt[at:], src)`
unfoldable pub copy_at : ℕ → Bytes → Bytes → Bytes
copy_at at src pkt =
    let fits = take (length pkt - at) src in take at pkt ++ (fits ++ drop (at + length fits) pkt)

-- `for i := n + 1; i <= 16; i++ { copy(pkt[i*6:], hw) }`, from the end
unfoldable pub copies : ℕ → Bytes → Bytes → Bytes
unfolding copy_at
copies zero hw pkt = pkt
copies (suc left) hw pkt = copies left hw (copy_at ((16 - left) * 6) hw pkt)

-- The packet of `SendMagicPacket`: 102 bytes, the first six of which are 0xFF.
unfoldable pub packet : Bytes → Bytes
unfolding copies
packet hw = copies 16 hw (repeat 6 (255 ∷ []) ++ repeat 96 (0 ∷ []))

abbrev pub send_parsed : Env → Answer Bytes → Answer Bytes
send_parsed e (failed err) = failed err
send_parsed e (ok hw) = if e.connected then ok (packet hw) else failed network_failed

-- The answer of `SendMagicPacket` has the packet that was sent.
unfoldable pub send_magic_packet : Env → Bytes → Answer Bytes
send_magic_packet e mac = send_parsed e (parse_mac mac)

-- `Wake`
unfoldable pub wake : Env → Bytes → Store → Answer Bytes
wake e id s =
    let mac = on_option (find (λ t. t.id == id) s.targets) [] (λ t. t.mac) in
    if mac == [] then failed target_not_found else send_magic_packet e mac
