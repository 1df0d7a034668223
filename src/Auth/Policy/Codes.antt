-- ===== src/Auth/Policy/Codes.antt =====
-- The backup codes that `GenerateBackupCodes` of internal/auth/policy.go makes.
use kilasos.Common.{
  ℕ, zero, suc, ◌+◌, ◌<◌, ◌≡◌, refl, true, some, List, [], ◌∷◌, ◌++◌, arith, All, length, get_or,
  nat_eq,
}
use kilasos.Auth.Crypto.{Bytes}
use kilasos.Auth.Policy.{
  PasswordPolicyConfig, charset, code_from, codes_from, code_count, generate_backup_codes, member,
}

pub IsLetter : ℕ → Type 0
unfolding member
IsLetter c = member c charset ≡ true

-- Four characters of the set, a dash, and four more.
pub record IsCode (code : Bytes) : Type 0 where
  pub first : Bytes
  pub second : Bytes
  pub split : code ≡ first ++ (b'-' ∷ second)
  pub four : length first ≡ 4
  pub four_more : length second ≡ 4
  pub first_letters : All IsLetter first
  pub second_letters : All IsLetter second

All-get_or : (P : ℕ → Type 0) (xs : Bytes) (i d : ℕ) → All P xs → i < length xs → P (get_or xs i d)
All-get_or P [] i d all h = absurd (omega arith)
All-get_or P (x ∷ xs) zero d all h = all.0
All-get_or P (x ∷ xs) (suc i) d all h = All-get_or P xs i d all.1 (omega arith)

charset-letters : All IsLetter charset
unfolding IsLetter member
charset-letters = ground arith

letter : (i : ℕ) → i < 32 → IsLetter (get_or charset i 0)
letter i h = All-get_or IsLetter charset i 0 charset-letters h

module _ (draw : ℕ → ℕ) (small : (j : ℕ) → draw j < 32) where
  abbrev drawn : ℕ → ℕ
  drawn j = get_or charset (draw j) 0

  code_of_draws :
      code_from (λ j. some (draw j)) 0 8
      ≡ some (
          (drawn 0 ∷ drawn 1 ∷ drawn 2 ∷ drawn 3 ∷ [])
          ++ (b'-' ∷ drawn 4 ∷ drawn 5 ∷ drawn 6 ∷ drawn 7 ∷ []))
  unfolding code_from
  code_of_draws = refl

  drawn-IsCode : IsCode (
      (drawn 0 ∷ drawn 1 ∷ drawn 2 ∷ drawn 3 ∷ [])
      ++ (b'-' ∷ drawn 4 ∷ drawn 5 ∷ drawn 6 ∷ drawn 7 ∷ []))
  drawn-IsCode = record {
    first = drawn 0 ∷ drawn 1 ∷ drawn 2 ∷ drawn 3 ∷ [];
    second = drawn 4 ∷ drawn 5 ∷ drawn 6 ∷ drawn 7 ∷ [];
    split = refl;
    four = refl;
    four_more = refl;
    first_letters = (
      letter (draw 0) (small 0),
      (letter (draw 1) (small 1), (letter (draw 2) (small 2), (letter (draw 3) (small 3), tt))),
    );
    second_letters = (
      letter (draw 4) (small 4),
      (letter (draw 5) (small 5), (letter (draw 6) (small 6), (letter (draw 7) (small 7), tt))),
    );
  }

codes_of_draws :
    (draw : ℕ → ℕ → ℕ) (small : (i j : ℕ) → draw i j < 32) (i n : ℕ)
    → (codes : List Bytes) × (codes_from (λ i j. some (draw i j)) i n ≡ some codes)
      × (length codes ≡ n)
      × All IsCode codes
unfolding codes_from
codes_of_draws draw small i zero = ([], refl, refl, tt)
codes_of_draws draw small i (suc n) =
    let (codes, made, size, all) = codes_of_draws draw small (i + 1) n in
    (
      _ ∷ codes,
      ground (arith, code_of_draws (draw i) (small i), made),
      omega (arith, size),
      (drawn-IsCode (draw i) (small i), all),
    )

-- Where the draws succeed, each below 32, there are as many codes as the policy says (ten where it
-- says none), each of four characters of the set, a dash, and four more.
pub generate_backup_codes_lem :
    (cfg : PasswordPolicyConfig) (draw : ℕ → ℕ → ℕ)
    → ((i j : ℕ) → draw i j < 32)
    → (codes : List Bytes) × (generate_backup_codes cfg (λ i j. some (draw i j)) ≡ some codes)
      × (length codes ≡ code_count cfg)
      × All IsCode codes
unfolding generate_backup_codes
generate_backup_codes_lem cfg draw small = codes_of_draws draw small 0 (code_count cfg)
