-- ===== src/Auth/Policy/Rules.antt =====
-- `Validate` of internal/auth/policy.go against the rules that they stand for.
use kilasos.Common.{
  ℕ, Bool, true, false, ◌||◌, ◌≡◌, ◌↔◌, none, [], ◌∷◌, arith, All, length, ==_iff, ◌==◌, nat_eq,
  subst, sym, Bool-cases, inl, inr,
}
use kilasos.Common.Int.{pos, ltb_ℤ}
use kilasos.Auth.Crypto.{Bytes}
use kilasos.Auth.Policy.{
  PasswordPolicyConfig, Flags, no_flags, is_upper, is_lower, is_digit, is_symbol, member, symbols,
  see, scan, check_flags, validate,
}

-- Some character is of the class.
pub any : (ℕ → Bool) → Bytes → Bool
any p [] = false
any p (c ∷ cs) = p c || any p cs

member-All : (P : ℕ → Type 0) (c : ℕ) (ds : Bytes) → member c ds ≡ true → All P ds → P c
unfolding member
member-All P c [] h all = absurd (ground arith)
member-All P c (d ∷ ds) h all = elim (Bool-cases (c == d)) [
  | inl e ↦ subst P (sym ((==_iff c d).0 e)) all.0
  | inr e ↦ member-All P c ds (ground (arith, e)) all.1
]

abbrev Plain : ℕ → Type 0
Plain c = (is_upper c ≡ false) × (is_lower c ≡ false) × (is_digit c ≡ false)

symbols-Plain : All Plain symbols
symbols-Plain = ground arith

symbol-Plain : (c : ℕ) → is_symbol c ≡ true → Plain c
unfolding is_symbol
symbol-Plain c h = member-All Plain c symbols h symbols-Plain

module _ (f : Flags) (c : ℕ) where
  upper-see : (see f c).upper ≡ f.upper || is_upper c
  unfolding see
  upper-see = ground arith

  lower-see : (see f c).lower ≡ f.lower || is_lower c
  unfolding see
  lower-see = ground arith

  digit-see : (see f c).digit ≡ f.digit || is_digit c
  unfolding see
  digit-see = ground arith

  symbol-see : (see f c).symbol ≡ f.symbol || is_symbol c
  unfolding see
  symbol-see = elim (Bool-cases (is_symbol c)) [
    | inl e ↦ ground (arith, e, symbol-Plain c e)
    | inr e ↦ ground (arith, e)
  ]

scanned :
    (f : Flags) (cs : Bytes)
    → ((scan f cs).upper ≡ f.upper || any is_upper cs)
      × ((scan f cs).lower ≡ f.lower || any is_lower cs)
      × ((scan f cs).digit ≡ f.digit || any is_digit cs)
      × ((scan f cs).symbol ≡ f.symbol || any is_symbol cs)
unfolding scan any
scanned f [] = ground arith
scanned f (c ∷ cs) =
    let rest = scanned (see f c) cs in
    ground (arith, rest, upper-see f c, lower-see f c, digit-see f c, symbol-see f c)

-- What a policy asks of a password.
pub record IsStrong (cfg : PasswordPolicyConfig) (password : Bytes) : Type 0 where
  pub long_enough : ltb_ℤ (pos (length password)) cfg.min_length ≡ false
  pub has_upper : cfg.require_uppercase ≡ true → any is_upper password ≡ true
  pub has_lower : cfg.require_lowercase ≡ true → any is_lower password ≡ true
  pub has_digit : cfg.require_digit ≡ true → any is_digit password ≡ true
  pub has_symbol : cfg.require_symbol ≡ true → any is_symbol password ≡ true

-- A password is accepted exactly if it is as long as the policy asks and has a character of each
-- class that the policy requires.
pub validate_accepts :
    (cfg : PasswordPolicyConfig) (password : Bytes)
    → (validate cfg password ≡ none) ↔ IsStrong cfg password
unfolding validate check_flags
validate_accepts cfg password =
    let flags = scanned no_flags password in
    (
      λ h. record {
        long_enough = ground arith;
        has_upper = λ r. ground (arith, flags);
        has_lower = λ r. ground (arith, flags);
        has_digit = λ r. ground (arith, flags);
        has_symbol = λ r. ground (arith, flags);
      },
      λ s.
          ground (arith, flags, s.long_enough, s.has_upper, s.has_lower, s.has_digit, s.has_symbol),
    )
