-- ===== src/Auth/ApiKeys/Tests.antt =====
-- API keys of internal/auth/apikeys.go, at concrete stores.
use kilasos.Common.{◌*◌, ◌≡◌, refl, true, some, find, [], ◌∷◌, arith, ◌++◌}
use kilasos.Common.Int.{pos}
use kilasos.Common.Time.{hour, add}
use kilasos.Auth.Crypto.{Bytes}
use kilasos.Auth.Password.{hex}
use kilasos.Auth.Samples.{lib, zeros}
use kilasos.Auth.Users.State.{User, zero_user, find_user}
use kilasos.Auth.ApiKeys.{ApiKeyStore, KeyEnv, save, create, validate}
use kilasos.Auth.ApiKeys.Validity.{validate-create}

abbrev at_noon : KeyEnv
at_noon = record {
  now = 12 * hour;
  writable = true;
  id_bytes = 1 ∷ 2 ∷ 3 ∷ 4 ∷ [];
  key_bytes = zeros 32;
}

abbrev ann : User
ann = record zero_user { username = "ann"; role = "admin" }

abbrev empty_store : ApiKeyStore
empty_store = record { keys = []; file = [] }

abbrev key : Bytes
key = hex at_noon.id_bytes ++ (b'.' ∷ hex at_noon.key_bytes)

abbrev with_key : ApiKeyStore
with_key = (create lib at_noon (ann ∷ []) "ann" "backup" (pos (2 * hour)) empty_store).0

validate-create_example :
    (u : User) × (find_user "ann" (ann ∷ []) ≡ some u)
    × ((validate lib (13 * hour) true key with_key).1 ≡ some ("ann", u.role))
unfolding create save find add zeros
validate-create_example =
    validate-create lib at_noon (ann ∷ []) "ann" "backup" (pos (2 * hour)) empty_store (13 * hour)
      true (hex at_noon.id_bytes) key refl refl refl refl (λ _. omega arith)
