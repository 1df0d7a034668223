-- ===== src/Auth/ApiKeys.antt =====
-- internal/auth/apikeys.go: keys for programs. A key is `ID.SECRET`; its SHA-256 is stored.
pub mod Validity
mod Tests
use kilasos.Common.{
  ℕ, ◌+◌, String, Bool, true, false, not, ◌||◌, Option, none, some, List, [], ◌∷◌, ◌++◌, map,
  length, find, update_first, remove_first, keep, ltb, ◌==◌, string_eq, bytes_eq, if◌then◌else◌,
  on_option,
}
use kilasos.Common.Int.{ℤ, pos, ltb_ℤ}
use kilasos.Common.Time.{Stamp, absent, format, parse, after, add}
use kilasos.Auth.Crypto.{Bytes, Crypto}
use kilasos.Auth.Password.{hex}
use kilasos.Auth.Users.State.{User, find_user}

pub record ApiKey : Type 0 where
  pub id : Bytes
  pub username : String
  pub label : String
  pub hashed_key : Bytes
  pub role : String
  pub created_at : Stamp
  pub last_used_at : Stamp
  pub expires_at : Stamp

pub record ApiKeyStore : Type 0 where
  pub keys : List ApiKey
  pub file : List ApiKey

-- What a call takes from outside.
pub record KeyEnv : Type 0 where
  pub now : ℕ
  pub writable : Bool
  pub id_bytes : Bytes
  pub key_bytes : Bytes

pub data KeyError : Type 0 where
  user_not_found key_not_found write_failed : KeyError

pub data Created : Type 0 where
  created : Bytes → Bytes → Created
  failed : KeyError → Created

unfoldable pub save : Bool → ApiKeyStore → ApiKeyStore × Option KeyError
save writable s = if writable then (record s { file = s.keys }, none) else (s, some write_failed)

-- `NewAPIKeyStore`: what the file holds, or nothing.
unfoldable pub new_api_key_store : Option (List ApiKey) → ApiKeyStore
new_api_key_store file =
    on_option file (record { keys = []; file = [] }) (λ keys. record { keys = keys; file = keys })

pub record ApiKeyView : Type 0 where
  pub id : Bytes
  pub username : String
  pub label : String
  pub role : String
  pub created_at : Stamp
  pub last_used_at : Stamp
  pub expires_at : Stamp

abbrev view_of : ApiKey → ApiKeyView
view_of k = record {
  id = k.id;
  username = k.username;
  label = k.label;
  role = k.role;
  created_at = k.created_at;
  last_used_at = k.last_used_at;
  expires_at = k.expires_at;
}

-- The keys of a user, or all where the name is empty.
unfoldable pub list_keys : String → ApiKeyStore → List ApiKeyView
list_keys username s = map view_of (keep (λ k. username == "" || k.username == username) s.keys)

unfoldable pub delete_key : Bool → Bytes → ApiKeyStore → ApiKeyStore × Option KeyError
delete_key writable id s =
    on_option (find (λ (k : ApiKey). k.id == id) s.keys) (s, some key_not_found)
      (λ _. save writable (record s { keys = remove_first (λ k. k.id == id) s.keys }))

unfoldable pub delete_all_for_user : Bool → String → ApiKeyStore → ApiKeyStore × ℕ
delete_all_for_user writable username s = (
  (save writable (record s { keys = keep (λ k. not (k.username == username)) s.keys })).0,
  length (keep (λ k. k.username == username) s.keys),
)

-- `k.ExpiresAt` holds a time that has passed.
unfoldable pub is_expired : ℕ → Stamp → Bool
is_expired now stamp = on_option (parse stamp) false (λ t. after now t)

module _ (lib : Crypto) where
  abbrev pub hash_of : Bytes → Bytes
  hash_of key = hex (lib.sha256 key)

  -- The new key's entry: the role is the user's at that time.
  unfoldable pub entry : KeyEnv → User → String → String → ℤ → ApiKey
  entry e user username label ttl = record {
    id = hex e.id_bytes;
    username = username;
    label = label;
    hashed_key = hash_of (hex e.id_bytes ++ (b'.' ∷ hex e.key_bytes));
    role = user.role;
    created_at = format e.now;
    last_used_at = absent;
    expires_at = if ltb_ℤ (pos 0) ttl then format (add e.now ttl) else absent;
  }

  abbrev answer_of : KeyEnv → ApiKeyStore × Option KeyError → ApiKeyStore × Created
  answer_of e (t, none) = (t, created (hex e.id_bytes) (hex e.id_bytes ++ (b'.' ∷ hex e.key_bytes)))
  answer_of e (t, some err) = (t, failed err)

  -- The entry stays in memory where the file cannot be written.
  unfoldable pub create :
      KeyEnv → List User → String → String → ℤ → ApiKeyStore → ApiKeyStore × Created
  unfolding save
  create e users username label ttl s =
      on_option (find_user username users) (s, failed user_not_found)
        (λ user.
          answer_of e (
            save e.writable (record s { keys = s.keys ++ (entry e user username label ttl ∷ []) })))

  abbrev pub has_hash : Bytes → ApiKey → Bool
  has_hash hash k = k.hashed_key == hash

  -- The first key of that hash decides; its use is recorded.
  unfoldable pub validate : ℕ → Bool → Bytes → ApiKeyStore → ApiKeyStore × Option (String × String)
  validate now writable presented s =
      if ltb (length presented) 16
      then (s, none)
      else on_option (find (has_hash (hash_of presented)) s.keys) (s, none)
          (λ k. if is_expired now k.expires_at then (s, none) else (
            (save writable (record s {
              keys =
                  update_first (has_hash (hash_of presented))
                    (λ j. record j { last_used_at = format now }) s.keys;
            })).0,
            some (k.username, k.role),
          ))
