-- ===== src/Auth/Policy/Tests.antt =====
-- The password policy of internal/auth/policy.go at the policy of a new daemon.
use kilasos.Common.{◌+◌, ◌%◌, ◌≡◌, ◌↔◌, none, some, List, [], ◌∷◌, arith, All, length}
use kilasos.Auth.Crypto.{Bytes}
use kilasos.Auth.Policy.{default_policy, validate, generate_backup_codes, code_count}
use kilasos.Auth.Policy.Rules.{IsStrong, validate_accepts}
use kilasos.Auth.Policy.Codes.{IsCode, generate_backup_codes_lem}

-- "Correct1Horse"
abbrev phrase : Bytes
phrase = 67 ∷ 111 ∷ 114 ∷ 114 ∷ 101 ∷ 99 ∷ 116 ∷ 49 ∷ 72 ∷ 111 ∷ 114 ∷ 115 ∷ 101 ∷ []

validate_accepts_example : (validate default_policy phrase ≡ none) ↔ IsStrong default_policy phrase
validate_accepts_example = validate_accepts default_policy phrase

generate_backup_codes_lem_example :
    (codes : List Bytes) × (generate_backup_codes default_policy (λ i j. some ((i + j) % 32))
      ≡ some codes)
    × (length codes ≡ code_count default_policy)
    × All IsCode codes
generate_backup_codes_lem_example =
    generate_backup_codes_lem default_policy (λ i j. (i + j) % 32) (λ i j. omega arith)
