-- ===== src/Api/Backups/Tests.antt =====
-- Requests to the handlers of internal/api/backup_handlers.go, at concrete values.
use kilasos.Common.{◌≡◌, refl, true, false, none, some, [], ◌∷◌, ◌++◌, All, find, keep}
use kilasos.Common.Int.{pos}
use kilasos.Auth.Crypto.{Bytes}
use kilasos.License.{License, has_feature}
use kilasos.Files.Paths.{clean, split, add_parts, add_part, go_up, join_parts}
use kilasos.Api.Backups.{World, feature_not_licensed, panicked, rclone_remote_list, rclone_sync}
use kilasos.Api.Backups.Archives.{
  BorgCreate, split_lines, trim_left, trim_space, exclude_list, borg_create_backup_handler,
}
use kilasos.Api.Backups.Jobs.{
  after_unit, after_rate, is_bandwidth, log_path, dot_log, rclone_sync_handler,
}
use kilasos.Api.Backups.Routes as Routes
use kilasos.Api.Backups.Routes.{route, serve}
use kilasos.Api.Backups.Permits.{Permitted, Told, serve-Permitted}

abbrev home : World
home = record {
  is_admin = true;
  username = "root";
  remote_addr = "10.0.0.9:4711";
  now = 0;
  failure = λ call. some feature_not_licensed;
  remotes = [];
  detail = λ repo excluded err. "";
}

abbrev pro : World
pro = record home { failure = λ call. none }

abbrev name : Bytes
name = b'x' ∷ []

abbrev backup : BorgCreate
backup = record { repo_name = name; archive_name = name; paths = name; excludes = [] }

-- A failure is to be logged, and there is no log.
failure_panics : (route home (Routes.borg_create (some backup))).answer ≡ panicked
unfolding route borg_create_backup_handler exclude_list
failure_panics = refl

-- A remote that does not exist is synchronised with empty paths.
unknown_remote :
    (route pro (Routes.sync (some (name, true)))).calls
    ≡ rclone_remote_list ∷ rclone_sync name true [] [] [] ∷ []
unfolding route rclone_sync_handler find
unknown_remote = refl

-- "*.o", with spaces, and an empty line
excludes :
    exclude_list (32 ∷ b'*' ∷ b'.' ∷ b'o' ∷ 32 ∷ 10 ∷ 10 ∷ name)
    ≡ (b'*' ∷ b'.' ∷ b'o' ∷ []) ∷ name ∷ []
unfolding exclude_list split_lines trim_space trim_left keep
excludes = refl

-- "8M:512k" and "M"
limited : is_bandwidth (b'8' ∷ b'M' ∷ b':' ∷ b'5' ∷ b'1' ∷ b'2' ∷ b'k' ∷ []) ≡ true
unfolding is_bandwidth after_rate after_unit
limited = refl

unlimited : is_bandwidth (b'M' ∷ []) ≡ false
unfolding is_bandwidth after_rate after_unit
unlimited = refl

-- The ID ".." leads out of the directory of the logs.
log_next_door :
    log_path (b'.' ∷ b'.' ∷ []) name
    ≡ (b'/' ∷ b'v' ∷ b'a' ∷ b'r' ∷ b'/' ∷ b'l' ∷ b'i' ∷ b'b' ∷ b'/' ∷ b'k' ∷ b'i' ∷ b'l' ∷ b'a'
        ∷ b's' ∷ b'o' ∷ b's' ∷ b'/' ∷ [])
      ++ (name ++ dot_log)
unfolding log_path clean split add_parts add_part go_up join_parts
log_next_door = refl

abbrev licence : License
licence = record {
  customer_id = "office";
  tier = "pro";
  node_count = pos 4;
  issued_at = 0;
  not_after = 0;
  trial = false;
  max_version = "";
}

serve-Permitted_example :
    All
      (λ call.
        (has_feature (some licence) "backup" ≡ true)
        × Permitted home call
        × Told home (serve (some licence) home (Routes.borg_create (some backup))).answer call)
      (serve (some licence) home (Routes.borg_create (some backup))).calls
serve-Permitted_example = serve-Permitted (some licence) home (Routes.borg_create (some backup))
