-- ===== src/Wol/Tests.antt =====
-- Machines to be woken, at concrete addresses.
use kilasos.Common.{◌≡◌, refl, true, none, ◌==◌, bytes_eq, [], ◌∷◌, length, find}
use kilasos.Common.Words.{replace_all}
use kilasos.Auth.Crypto.{Bytes}
use kilasos.Auth.Password.{hex, hex_digit, unhex_digit, unhex}
use kilasos.Wol.{
  Env, Store, Target, ok, failed, invalid_mac, clean, has_colon, octets, parse_colons, parse_mac,
  mac_text, normalise_mac, add_machine, save, wake,
}
use kilasos.Wol.Packets.{magic, wake-add_machine}

abbrev env : Env
env = record { id_bytes = 171 ∷ 1 ∷ []; writable = true; connected = true }

abbrev none_yet : Store
none_yet = record { targets = []; file = [] }

-- "01-02-0A-ff-00-10"
abbrev dashed : Bytes
dashed =
    b'0' ∷ b'1' ∷ b'-' ∷ b'0' ∷ b'2' ∷ b'-' ∷ b'0' ∷ b'A' ∷ b'-' ∷ b'f' ∷ b'f' ∷ b'-' ∷ b'0' ∷ b'0'
    ∷ b'-' ∷ b'1' ∷ b'0' ∷ []

-- "0102.0aff.0010", a form that net.ParseMAC takes
abbrev pointed : Bytes
pointed =
    b'0' ∷ b'1' ∷ b'0' ∷ b'2' ∷ b'.' ∷ b'0' ∷ b'a' ∷ b'f' ∷ b'f' ∷ b'.' ∷ b'0' ∷ b'0' ∷ b'1' ∷ b'0'
    ∷ []

-- "01020aff0010"
abbrev plain : Bytes
plain = b'0' ∷ b'1' ∷ b'0' ∷ b'2' ∷ b'0' ∷ b'a' ∷ b'f' ∷ b'f' ∷ b'0' ∷ b'0' ∷ b'1' ∷ b'0' ∷ []

abbrev hw : Bytes
hw = 1 ∷ 2 ∷ 10 ∷ 255 ∷ 0 ∷ 16 ∷ []

abbrev nas : Bytes
nas = b'n' ∷ b'a' ∷ b's' ∷ []

abbrev made : Target
made = record {
  id = b'a' ∷ b'b' ∷ b'0' ∷ b'1' ∷ [];
  name = nas;
  mac =
      b'0' ∷ b'1' ∷ b':' ∷ b'0' ∷ b'2' ∷ b':' ∷ b'0' ∷ b'a' ∷ b':' ∷ b'f' ∷ b'f' ∷ b':' ∷ b'0'
      ∷ b'0' ∷ b':' ∷ b'1' ∷ b'0' ∷ [];
}

dashed_read : parse_mac dashed ≡ ok hw
unfolding parse_mac clean replace_all has_colon parse_colons octets unhex_digit
dashed_read = refl

plain_read : parse_mac plain ≡ ok hw
unfolding parse_mac clean replace_all has_colon unhex unhex_digit
plain_read = refl

pointed_refused : parse_mac pointed ≡ failed invalid_mac
unfolding parse_mac clean replace_all has_colon parse_colons octets unhex_digit
pointed_refused = refl

accepted : (add_machine env nas dashed none_yet).1 ≡ ok made
unfolding add_machine save normalise_mac mac_text hex hex_digit parse_mac clean replace_all
    has_colon parse_colons octets unhex_digit
accepted = refl

nobody : find (λ u. u.id == hex env.id_bytes) none_yet.targets ≡ none
unfolding find
nobody = refl

wake-add_machine_example :
    (sent : Bytes) × (parse_mac dashed ≡ ok sent)
    × (length sent ≡ 6)
    × (wake env made.id (add_machine env nas dashed none_yet).0 ≡ ok (magic sent))
wake-add_machine_example = wake-add_machine env nas dashed none_yet made env accepted nobody refl
