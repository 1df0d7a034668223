-- ===== src/Api/Backups.antt =====
-- What the handlers of internal/api/backup_handlers.go share: what they ask of storage.Backuper, and
-- how they answer. Texts are bytes; bodies, queries and parts of a path come decoded.
pub mod Archives
pub mod Jobs
pub mod Routes
pub mod Remotes
pub mod Permits
mod Tests
use kilasos.Common.{
  ℕ, String, Bool, Option, none, some, List, [], ◌∷◌, not, if◌then◌else◌, on_option,
}
use kilasos.Common.Int.{ℤ}
use kilasos.Auth.Crypto.{Bytes}
use kilasos.Audit.{Logger}

-- internal/storage/provider.go
pub record BackupJob : Type 0 where
  pub id : Bytes
  pub name : Bytes
  pub type : Bytes
  pub schedule : Bytes
  pub enabled : Bool
  pub source : Bytes
  pub destination : Bytes
  pub excludes : List Bytes
  pub last_run : ℤ
  pub last_result : Bytes
  pub last_size : ℤ
  pub next_run : ℤ
  pub keep_hourly : ℤ
  pub keep_daily : ℤ
  pub keep_weekly : ℤ
  pub keep_monthly : ℤ
  pub keep_yearly : ℤ

pub record RcloneRemote : Type 0 where
  pub name : Bytes
  pub type : Bytes
  pub endpoint : Bytes
  pub provider : Bytes
  pub bandwidth : Bytes
  pub connected : Bool
  pub source_path : Bytes
  pub dest_path : Bytes

-- Methods of `Backuper`, and `os.ReadFile` (`read_log`).
pub data Call : Type 0 where
  borg_init : Bytes → Bytes → Bytes → Call
  borg_create_backup : Bytes → Bytes → Bytes → List Bytes → Call
  borg_list_archives : Bytes → Call
  borg_delete_archive borg_prune borg_verify : Bytes → Bytes → Call
  borg_restore : Bytes → Bytes → Bytes → Call
  restic_init : Bytes → Bytes → Bytes → List (Bytes × Bytes) → Call
  restic_create_backup : Bytes → Bytes → List Bytes → Call
  restic_list_snapshots : Bytes → Call
  restic_delete_snapshot restic_verify : Bytes → Bytes → Call
  restic_restore : Bytes → Bytes → Bytes → Call
  rclone_remote_add : Bytes → Bytes → Bytes → Bytes → Bytes → Bytes → Call
  rclone_remote_remove : Bytes → Call
  rclone_remote_list backup_jobs : Call
  rclone_sync : Bytes → Bool → Bytes → Bytes → Bytes → Call
  create_backup_job update_backup_job : BackupJob → Call
  delete_backup_job run_backup_job backup_job_runs : Bytes → Call
  backup_job_run restore_points : Bytes → Bytes → Call
  read_log : Bytes → Call

pub data Failure : Type 0 where
  feature_not_licensed file_missing other_failure : Failure

-- `panicked` is a handler that ends in a panic.
pub data Answer : Type 0 where
  status : ℕ → Answer
  panicked : Answer

-- The caller, the clock, the answers of the calls, the remotes that `RcloneRemoteList` answers with,
-- and the text of a failure for the log.
pub record World : Type 0 where
  pub is_admin : Bool
  pub username : String
  pub remote_addr : String
  pub now : ℕ
  pub failure : Call → Option Failure
  pub remotes : List RcloneRemote
  pub detail : Bytes → ℕ → Failure → String

pub record Outcome : Type 0 where
  pub calls : List Call
  pub answer : Answer
  pub log : Option Logger

-- `handleLicenseErr` of internal/api/license_errors.go, and 500 behind it.
abbrev pub failed_status : Failure → Answer
failed_status feature_not_licensed = status 402
failed_status _ = status 500

abbrev pub refuse : ℕ → Option Logger → Outcome
refuse code l = record { calls = []; answer = status code; log = l }

module _ (w : World) where
  -- One call, and `good` where it succeeds.
  abbrev pub ask : Call → ℕ → Option Logger → Outcome
  ask call good l = record {
    calls = call ∷ [];
    answer = on_option (w.failure call) (status good) failed_status;
    log = l;
  }

  abbrev pub by_admin : Option Logger → Outcome → Outcome
  by_admin l o = if not w.is_admin then refuse 403 l else o
