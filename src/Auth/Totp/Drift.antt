-- ===== src/Auth/Totp/Drift.antt =====
-- `ValidateTOTP` of internal/auth/totp.go: the clocks of the two sides may differ.
use kilasos.Common.{
  ℕ, ◌+◌, ◌-◌, ◌/◌, ◌≤◌, ◌≡◌, ◌⊎◌, inl, inr, ap, String, true, arith, ==_iff, ◌==◌, bytes_eq,
  Bool-cases, leb, nat_eq,
}
use kilasos.Auth.Crypto.{Bytes, Crypto}
use kilasos.Auth.Totp.{unix, totp_code, validate_totp}

-- The number of the half minute of a clock, since 1970.
abbrev pub window : ℕ → ℕ
window now = unix now / 30

near :
    (a b : ℕ)
    → a ≤ b + 30
    → b ≤ a + 30
    → (a / 30 ≡ b / 30 - 1) ⊎ (a / 30 ≡ b / 30) ⊎ (a / 30 ≡ b / 30 + 1)
near a b h k = elim (Bool-cases (leb (a / 30) (b / 30))) [
  | inl e ↦ elim (Bool-cases (a / 30 == b / 30)) [
    | inl f ↦ inr (inl (ground arith))
    | inr f ↦ inl (ground arith)
  ]
  | inr e ↦ inr (inr (ground arith))
]

module _ (lib : Crypto) where
  -- The code of a clock is accepted by one that is at most half a minute ahead or behind.
  pub validate_totp-totp_code :
      (secret : String) (theirs ours : ℕ)
      → unix theirs ≤ unix ours + 30
      → unix ours ≤ unix theirs + 30
      → validate_totp lib ours secret (totp_code lib secret (window theirs)) ≡ true
  unfolding validate_totp
  validate_totp-totp_code secret theirs ours late early =
      let code = totp_code lib secret in
      elim (near (unix theirs) (unix ours) late early) [
        | inl e ↦
            ground (arith, e, ==_iff (code (window ours - 1)) (code (window theirs)), ap code e)
        | inr (inl e) ↦
            ground (arith, ==_iff (code (window ours)) (code (window theirs)), ap code e)
        | inr (inr e) ↦
            ground (arith, ==_iff (code (window ours + 1)) (code (window theirs)), ap code e)
      ]

  -- A code that is accepted is that of the half minute of the clock or of one beside it.
  pub validate_totp_means :
      (secret : String) (now : ℕ) (code : Bytes)
      → validate_totp lib now secret code ≡ true
      → (w : ℕ) × (w ≤ window now + 1) × (window now ≤ w + 1) × (totp_code lib secret w ≡ code)
  unfolding validate_totp
  validate_totp_means secret now code h =
      let code_of_window = totp_code lib secret in
      let w = window now in
      elim (Bool-cases (code_of_window (w - 1) == code)) [
        | inl e ↦ (w - 1, omega arith, omega arith, (==_iff (code_of_window (w - 1)) code).0 e)
        | inr e ↦ elim (Bool-cases (code_of_window w == code)) [
          | inl f ↦ (w, omega arith, omega arith, (==_iff (code_of_window w) code).0 f)
          | inr f ↦ (
            w + 1,
            omega arith,
            omega arith,
            (==_iff (code_of_window (w + 1)) code).0 (ground (arith, e, f)),
          )
        ]
      ]
