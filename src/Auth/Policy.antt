-- ===== src/Auth/Policy.antt =====
-- internal/auth/policy.go: the password policy and the backup codes. A password is its bytes:
-- the classes that `Validate` looks for are of ASCII characters, so the loop over runes and the
-- loop over bytes set the same flags.
pub mod Rules
pub mod Codes
mod Tests
use kilasos.Common.{
  ℕ, zero, suc, ◌+◌, ◌-◌, Bool, true, false, not, ◌&&◌, ◌||◌, Option, none, some, List, [], ◌∷◌,
  length, get_or, leb, ◌==◌, nat_eq, if◌then◌else◌,
}
use kilasos.Common.Int.{ℤ, pos, pos_part, ltb_ℤ}
use kilasos.Auth.Crypto.{Bytes}

pub record PasswordPolicyConfig : Type 0 where
  pub min_length : ℤ
  pub require_uppercase : Bool
  pub require_lowercase : Bool
  pub require_digit : Bool
  pub require_symbol : Bool
  pub max_age_days : ℤ
  pub history_depth : ℤ
  pub backup_code_count : ℤ

abbrev pub default_policy : PasswordPolicyConfig
default_policy = record {
  min_length = pos 12;
  require_uppercase = true;
  require_lowercase = true;
  require_digit = true;
  require_symbol = false;
  max_age_days = pos 0;
  history_depth = pos 0;
  backup_code_count = pos 10;
}

pub data PolicyError : Type 0 where
  too_short no_uppercase no_lowercase no_digit no_symbol : PolicyError
  min_length_below_4 bad_backup_code_count write_failed : PolicyError

-- `PasswordPolicy`: what is in force, and what the file holds.
pub record PasswordPolicy : Type 0 where
  pub cfg : PasswordPolicyConfig
  pub file : Option PasswordPolicyConfig

unfoldable pub set :
    Bool → PasswordPolicyConfig → PasswordPolicy → PasswordPolicy × Option PolicyError
set written cfg p =
    if ltb_ℤ cfg.min_length (pos 4)
    then (p, some min_length_below_4)
    else if ltb_ℤ cfg.backup_code_count (pos 0) || ltb_ℤ (pos 50) cfg.backup_code_count
    then (p, some bad_backup_code_count)
    else if written
    then (record { cfg = cfg; file = some cfg }, none)
    else (record p { cfg = cfg }, some write_failed)

abbrev pub is_upper : ℕ → Bool
is_upper c = leb b'A' c && leb c b'Z'

abbrev pub is_lower : ℕ → Bool
is_lower c = leb b'a' c && leb c b'z'

abbrev pub is_digit : ℕ → Bool
is_digit c = leb b'0' c && leb c b'9'

member : ℕ → Bytes → Bool
member c [] = false
member c (d ∷ ds) = c == d || member c ds

abbrev symbols : Bytes
symbols =
    33 ∷ 64 ∷ 35 ∷ 36 ∷ 37 ∷ 94 ∷ 38 ∷ 42 ∷ 40 ∷ 41 ∷ 95 ∷ 43 ∷ 45 ∷ 61 ∷ 91 ∷ 93 ∷ 123 ∷ 125 ∷ 59
    ∷ 39 ∷ 58 ∷ 34 ∷ 44 ∷ 46 ∷ 47 ∷ 60 ∷ 62 ∷ 63 ∷ 92 ∷ 124 ∷ 96 ∷ 126 ∷ []

unfoldable pub is_symbol : ℕ → Bool
unfolding member
is_symbol c = member c symbols

pub record Flags : Type 0 where
  pub upper : Bool
  pub lower : Bool
  pub digit : Bool
  pub symbol : Bool

-- one round of the loop: the `switch` sets at most one flag
unfoldable pub see : Flags → ℕ → Flags
see f c =
    if is_upper c
    then record f { upper = true }
    else if is_lower c
    then record f { lower = true }
    else if is_digit c
    then record f { digit = true }
    else if is_symbol c
    then record f { symbol = true }
    else f

unfoldable pub scan : Flags → Bytes → Flags
scan f [] = f
scan f (c ∷ cs) = scan (see f c) cs

abbrev pub no_flags : Flags
no_flags = record { upper = false; lower = false; digit = false; symbol = false }

-- The first rule that a password breaks; `none` is acceptance.
unfoldable pub check_flags : PasswordPolicyConfig → Flags → Option PolicyError
check_flags cfg f =
    if cfg.require_uppercase && not f.upper
    then some no_uppercase
    else if cfg.require_lowercase && not f.lower
    then some no_lowercase
    else if cfg.require_digit && not f.digit
    then some no_digit
    else if cfg.require_symbol && not f.symbol
    then some no_symbol
    else none

unfoldable pub validate : PasswordPolicyConfig → Bytes → Option PolicyError
unfolding check_flags
validate cfg password =
    if ltb_ℤ (pos (length password)) cfg.min_length
    then some too_short
    else check_flags cfg (scan no_flags password)

-- The letters and digits of a backup code, without I, O, 0 and 1.
abbrev pub charset : Bytes
charset =
    65 ∷ 66 ∷ 67 ∷ 68 ∷ 69 ∷ 70 ∷ 71 ∷ 72 ∷ 74 ∷ 75 ∷ 76 ∷ 77 ∷ 78 ∷ 80 ∷ 81 ∷ 82 ∷ 83 ∷ 84 ∷ 85
    ∷ 86 ∷ 87 ∷ 88 ∷ 89 ∷ 90 ∷ 50 ∷ 51 ∷ 52 ∷ 53 ∷ 54 ∷ 55 ∷ 56 ∷ 57 ∷ []

-- The inner loop from round `j` on, with `left` rounds to go; `draw j` is what `rand.Int` gives.
unfoldable pub code_from : (ℕ → Option ℕ) → ℕ → ℕ → Option Bytes
code_from draw j zero = some []
code_from draw j (suc left) = elim (draw j) [
  | none ↦ none
  | some n ↦ elim (code_from draw (j + 1) left) [
    | none ↦ none
    | some rest ↦ some (get_or charset n 0 ∷ (if j == 3 then b'-' ∷ rest else rest))
  ]
]

-- The outer loop from code `i` on.
unfoldable pub codes_from : (ℕ → ℕ → Option ℕ) → ℕ → ℕ → Option (List Bytes)
codes_from draw i zero = some []
codes_from draw i (suc left) = elim (code_from (draw i) 0 8) [
  | none ↦ none
  | some code ↦ elim (codes_from draw (i + 1) left) [ none ↦ none | some rest ↦ some (code ∷ rest) ]
]

abbrev pub code_count : PasswordPolicyConfig → ℕ
code_count cfg = if ltb_ℤ (pos 0) cfg.backup_code_count then pos_part cfg.backup_code_count else 10

unfoldable pub generate_backup_codes :
    PasswordPolicyConfig → (ℕ → ℕ → Option ℕ) → Option (List Bytes)
generate_backup_codes cfg draw = codes_from draw 0 (code_count cfg)
