-- ===== src/Wol/Addresses.antt =====
-- The addresses that parseMac of internal/wol/wol.go reads, and their text.
use kilasos.Common.{
  ℕ, Bool, ◌⊎◌, on_option, not, ◌&&◌, subst, ap, sym, ◌+◌, ◌*◌, ◌/◌, ◌%◌, ◌<◌, ◌≡◌, refl, true,
  some, none, [], ◌∷◌, arith, length, All, if◌then◌else◌, ◌==◌, nat_eq, Option, Option-cases,
  Bool-cases, inl, inr,
}
use mathlib.Core.Option.{some-injective}
use kilasos.Common.Words.{replace_all}
use kilasos.Auth.Crypto.{Bytes, IsByte}
use kilasos.Auth.Password.{hex_digit, unhex_digit, unhex, pair}
use kilasos.Auth.Password.Roundtrip.{unhex_digit-hex_digit}
use kilasos.Wol.{
  Answer, ok, failed, WolError, invalid_mac, clean, has_colon, octets, parse_colons, parse_mac,
  only_48, mac_text,
}

-- A hexadecimal digit stays where separators are replaced.
hex_digit-kept :
    (n old : ℕ)
    → n < 16
    → old < 48
    → (if hex_digit n == old then b':' else hex_digit n) ≡ hex_digit n
unfolding hex_digit
hex_digit-kept n old small low = ground arith

if_same : (b : Bool) (c : ℕ) → (if b then c else c) ≡ c
if_same b c = ground arith

replace_all-mac_text :
    (hw : Bytes) (old : ℕ)
    → old < 48
    → All IsByte hw
    → replace_all old b':' (mac_text hw) ≡ mac_text hw
unfolding replace_all mac_text
replace_all-mac_text [] old low h = refl
replace_all-mac_text (b ∷ []) old low h =
    rw
      (hex_digit-kept (b / 16) old (omega arith) low, hex_digit-kept (b % 16) old (omega arith) low)
      refl
replace_all-mac_text (b ∷ c ∷ rest) old low h =
    rw
      (
        hex_digit-kept (b / 16) old (omega arith) low,
        hex_digit-kept (b % 16) old (omega arith) low,
        if_same (b':' == old) b':',
        replace_all-mac_text (c ∷ rest) old low h.1,
      )
      refl

clean-mac_text : (hw : Bytes) → All IsByte hw → clean (mac_text hw) ≡ mac_text hw
unfolding clean
clean-mac_text hw h =
    rw (replace_all-mac_text hw b'-' (omega arith) h, replace_all-mac_text hw b'.' (omega arith) h)
      refl

octets-mac_text :
    (b : ℕ) (hw : Bytes) → All IsByte (b ∷ hw) → octets (mac_text (b ∷ hw)) ≡ some (b ∷ hw)
unfolding octets mac_text
octets-mac_text b [] h = ground (
  arith,
  unhex_digit-hex_digit (b / 16) (omega arith),
  unhex_digit-hex_digit (b % 16) (omega arith),
)
octets-mac_text b (c ∷ rest) h = ground (
  arith,
  octets-mac_text c rest h.1,
  unhex_digit-hex_digit (b / 16) (omega arith),
  unhex_digit-hex_digit (b % 16) (omega arith),
)

has_colon-mac_text : (b c : ℕ) (hw : Bytes) → has_colon (mac_text (b ∷ c ∷ hw)) ≡ true
unfolding has_colon mac_text
has_colon-mac_text b c hw = ground arith

parse_colons-mac_text :
    (a b c d e f : ℕ)
    → All IsByte (a ∷ b ∷ c ∷ d ∷ e ∷ f ∷ [])
    → parse_colons (mac_text (a ∷ b ∷ c ∷ d ∷ e ∷ f ∷ [])) ≡ some (a ∷ b ∷ c ∷ d ∷ e ∷ f ∷ [])
unfolding parse_colons mac_text
parse_colons-mac_text a b c d e f h = octets-mac_text a (b ∷ c ∷ d ∷ e ∷ f ∷ []) h

parse_mac-six :
    (a b c d e f : ℕ)
    → All IsByte (a ∷ b ∷ c ∷ d ∷ e ∷ f ∷ [])
    → parse_mac (mac_text (a ∷ b ∷ c ∷ d ∷ e ∷ f ∷ [])) ≡ ok (a ∷ b ∷ c ∷ d ∷ e ∷ f ∷ [])
unfolding parse_mac
parse_mac-six a b c d e f h =
    rw
      (
        clean-mac_text (a ∷ b ∷ c ∷ d ∷ e ∷ f ∷ []) h,
        has_colon-mac_text a b (c ∷ d ∷ e ∷ f ∷ []),
        parse_colons-mac_text a b c d e f h,
      )
      refl

unhex_digit_small : (c n : ℕ) → unhex_digit c ≡ some n → n < 16
unfolding unhex_digit
unhex_digit_small c n h = ground arith

-- What a byte of two digits is made of, where both can be read.
record IsPair (hi lo : Option ℕ) (more : Option Bytes) (hw : Bytes) : Type 0 where
  high : ℕ
  low : ℕ
  rest : Bytes
  from_hi : hi ≡ some high
  from_lo : lo ≡ some low
  from_more : more ≡ some rest
  bytes : hw ≡ (high * 16 + low) ∷ rest

pair-IsPair :
    (hi lo : Option ℕ) (more : Option Bytes) (hw : Bytes)
    → pair hi lo more ≡ some hw
    → IsPair hi lo more hw
pair-IsPair none lo more hw h = absurd (ground arith)
pair-IsPair (some x) none more hw h = absurd (ground arith)
pair-IsPair (some x) (some y) none hw h = absurd (ground arith)
pair-IsPair (some x) (some y) (some rest) hw h = record {
  high = x;
  low = y;
  rest = rest;
  from_hi = refl;
  from_lo = refl;
  from_more = refl;
  bytes = sym (some-injective ((x * 16 + y) ∷ rest) hw h);
}

-- A pair of hexadecimal digits is a byte.
pair_bytes :
    (c d : ℕ) (more : Option Bytes) (hw : Bytes)
    → (p : IsPair (unhex_digit c) (unhex_digit d) more hw) → All IsByte p.rest
    → All IsByte hw
pair_bytes c d more hw p all =
    subst (All IsByte) (sym p.bytes) (
      omega (arith, unhex_digit_small c p.high p.from_hi, unhex_digit_small d p.low p.from_lo),
      all,
    )

-- What is read from a text with colons is bytes.
octets-IsByte : (mac hw : Bytes) → octets mac ≡ some hw → All IsByte hw
unfolding octets
octets-IsByte [] hw h = absurd (ground arith)
octets-IsByte (c ∷ []) hw h = absurd (ground arith)
octets-IsByte (c ∷ d ∷ []) hw h =
    let p = pair-IsPair (unhex_digit c) (unhex_digit d) (some []) hw h in
    pair_bytes c d (some []) hw p (subst (All IsByte) (some-injective [] p.rest p.from_more) tt)
octets-IsByte (c ∷ d ∷ x ∷ rest) hw h = elim (Bool-cases (x == b':')) [
  | inl e ↦
      let p = pair-IsPair (unhex_digit c) (unhex_digit d) (octets rest) hw (rw e at h) in
      pair_bytes c d (octets rest) hw p (octets-IsByte rest p.rest p.from_more)
  | inr e ↦ absurd (ground (arith, e))
]

-- And so is what is read from digits alone; each byte takes two.
unhex-IsByte :
    (text hw : Bytes) → unhex text ≡ some hw → All IsByte hw × (2 * length hw ≡ length text)
unfolding unhex
unhex-IsByte [] hw h =
    subst (λ bs. All IsByte bs × (2 * length bs ≡ 0)) (some-injective [] hw h) (tt, refl)
unhex-IsByte (c ∷ []) hw h = absurd (ground arith)
unhex-IsByte (c ∷ d ∷ rest) hw h =
    let p = pair-IsPair (unhex_digit c) (unhex_digit d) (unhex rest) hw h in
    let more = unhex-IsByte rest p.rest p.from_more in
    (pair_bytes c d (unhex rest) hw p more.0, omega (arith, more.1, ap length p.bytes))

ok_eq : {a b : Bytes} → ok a ≡ ok b → a ≡ b
ok_eq h = cc

parse_colons-IsByte : (mac hw : Bytes) → parse_colons mac ≡ some hw → All IsByte hw
unfolding parse_colons
parse_colons-IsByte mac hw h = octets-IsByte mac hw (ground arith)

-- Every address that is accepted has six bytes.
abbrev pub SixBytes : Bytes → Type 0
SixBytes hw = All IsByte hw × (length hw ≡ 6)

only_48_six : (got hw : Bytes) → only_48 got ≡ ok hw → length got ≡ 6
only_48_six got hw h = ground (arith, h)

only_48_eq : (got hw : Bytes) → only_48 got ≡ ok hw → got ≡ hw
only_48_eq got hw h = ground (arith, h)

from_digits :
    (text hw : Bytes)
    → length text ≡ 12
    → on_option (unhex text) (failed invalid_mac) ok ≡ ok hw
    → SixBytes hw
from_digits text hw twelve h = elim (Option-cases (unhex text)) [
  | inl e ↦ absurd (ground (arith, e))
  | inr (got, e) ↦
      let bytes = unhex-IsByte text got e in
      subst SixBytes (ok_eq (rw e at h)) (bytes.0, omega (arith, bytes.1, twelve))
]

from_colons :
    (text hw : Bytes)
    → on_option (parse_colons text) (failed invalid_mac) only_48 ≡ ok hw
    → SixBytes hw
from_colons text hw h = elim (Option-cases (parse_colons text)) [
  | inl e ↦ absurd (ground (arith, e))
  | inr (got, e) ↦
      subst SixBytes (only_48_eq got hw (rw e at h))
        (parse_colons-IsByte text got e, only_48_six got hw (rw e at h))
]

pub parse_mac-SixBytes : (mac hw : Bytes) → parse_mac mac ≡ ok hw → SixBytes hw
unfolding parse_mac
parse_mac-SixBytes mac hw h =
    elim (Bool-cases (not (has_colon (clean mac)) && (length (clean mac) == 12))) [
      | inl e ↦ from_digits (clean mac) hw (ground (arith, e)) (rw e at h)
      | inr e ↦ from_colons (clean mac) hw (rw e at h)
    ]

-- To prove something of six bytes.
pub six_case {ℓ} :
    (P : Bytes → Type ℓ)
    → ((a b c d e f : ℕ) → P (a ∷ b ∷ c ∷ d ∷ e ∷ f ∷ []))
    → (hw : Bytes) → length hw ≡ 6
    → P hw
six_case P p [] h = absurd (omega (arith, h))
six_case P p (a ∷ []) h = absurd (omega (arith, h))
six_case P p (a ∷ b ∷ []) h = absurd (omega (arith, h))
six_case P p (a ∷ b ∷ c ∷ []) h = absurd (omega (arith, h))
six_case P p (a ∷ b ∷ c ∷ d ∷ []) h = absurd (omega (arith, h))
six_case P p (a ∷ b ∷ c ∷ d ∷ e ∷ []) h = absurd (omega (arith, h))
six_case P p (a ∷ b ∷ c ∷ d ∷ e ∷ f ∷ []) h = p a b c d e f
six_case P p (a ∷ b ∷ c ∷ d ∷ e ∷ f ∷ g ∷ more) h = absurd (omega (arith, h))

-- An address comes back from its text.
pub parse_mac-mac_text : (hw : Bytes) → SixBytes hw → parse_mac (mac_text hw) ≡ ok hw
parse_mac-mac_text hw h =
    six_case (λ bs. All IsByte bs → parse_mac (mac_text bs) ≡ ok bs) parse_mac-six hw h.1 h.0

pub Answer-cases {ℓ} :
    {A : Type ℓ} (o : Answer A) → ((err : WolError) × (o ≡ failed err)) ⊎ ((a : A) × (o ≡ ok a))
Answer-cases (failed err) = inl (err, refl)
Answer-cases (ok a) = inr (a, refl)
