-- ===== src/Api/Backups/Routes.antt =====
-- The routes of internal/api/router.go to the handlers of internal/api/backup_handlers.go, behind
-- the licence for backups.
use kilasos.Common.{Bool, Option, none}
use kilasos.Auth.Crypto.{Bytes}
use kilasos.License.{License, require_feature}
use kilasos.Api.Backups.{BackupJob, World, Outcome, refuse}
use kilasos.Api.Backups.Archives as Archives
use kilasos.Api.Backups.Archives.{BorgInit, BorgCreate, Restore, ResticInit, ResticCreate}
use kilasos.Api.Backups.Jobs as Jobs
use kilasos.Api.Backups.Jobs.{RemoteAdd}

pub data Request : Type 0 where
  status remotes jobs : Request
  borg_init : Option BorgInit → Request
  borg_create : Option BorgCreate → Request
  borg_archives : Bytes → Request
  borg_delete : Bytes → Bytes → Request
  borg_prune borg_verify : Option (Bytes × Bytes) → Request
  borg_restore : Option Restore → Request
  restic_init : Option ResticInit → Request
  restic_create : Option ResticCreate → Request
  restic_snapshots : Bytes → Request
  restic_delete : Bytes → Bytes → Request
  restic_verify : Option (Bytes × Bytes) → Request
  restic_restore : Option Restore → Request
  remote_add : Option RemoteAdd → Request
  remote_remove : Bytes → Request
  sync : Option (Bytes × Bool) → Request
  create_job : Option BackupJob → Request
  update_job : Bytes → Option BackupJob → Request
  delete_job run_job job_runs : Bytes → Request
  job_run job_run_log restore_points : Bytes → Bytes → Request

-- `borgCreateBackupHandler(backuper, nil)`: there is no log here.
unfoldable pub route : World → Request → Outcome
route w status = Jobs.backup_jobs_handler w none
route w remotes = Jobs.rclone_remote_list_handler w none
route w jobs = Jobs.backup_jobs_handler w none
route w (borg_init body) = Archives.borg_init_handler w body none
route w (borg_create body) = Archives.borg_create_backup_handler w body none
route w (borg_archives repo) = Archives.borg_list_archives_handler w repo none
route w (borg_delete repo archive) = Archives.borg_delete_archive_handler w repo archive none
route w (borg_prune body) = Archives.borg_prune_handler w body none
route w (borg_verify body) = Archives.borg_verify_handler w body none
route w (borg_restore body) = Archives.borg_restore_handler w body none
route w (restic_init body) = Archives.restic_init_handler w body none
route w (restic_create body) = Archives.restic_create_backup_handler w body none
route w (restic_snapshots repo) = Archives.restic_list_snapshots_handler w repo none
route w (restic_delete repo snapshot) = Archives.restic_delete_snapshot_handler w repo snapshot none
route w (restic_verify body) = Archives.restic_verify_handler w body none
route w (restic_restore body) = Archives.restic_restore_handler w body none
route w (remote_add body) = Jobs.rclone_remote_add_handler w body none
route w (remote_remove name) = Jobs.rclone_remote_remove_handler w name none
route w (sync body) = Jobs.rclone_sync_handler w body none
route w (create_job body) = Jobs.create_backup_job_handler w body none
route w (update_job id body) = Jobs.update_backup_job_handler w id body none
route w (delete_job id) = Jobs.delete_backup_job_handler w id none
route w (run_job id) = Jobs.run_backup_job_handler w id none
route w (job_runs id) = Jobs.backup_job_runs_handler w id none
route w (job_run id run) = Jobs.backup_job_run_handler w id run none
route w (job_run_log id run) = Jobs.backup_job_run_log_handler w id run none
route w (restore_points backup_type repo) = Jobs.restore_points_handler w backup_type repo none

-- `lic` is the licence of the request's context.
unfoldable pub serve : Option License → World → Request → Outcome
serve lic w r = require_feature lic "backup" (refuse 402 none) (route w r)
