-- ===== src/Api/Backups/Jobs.antt =====
-- The handlers of internal/api/backup_handlers.go for rclone, for backup jobs and for what they left.
-- cloudCostEstimateHandler reads a floating-point number and is left out.
use kilasos.Common.{
  ℕ, Bool, true, false, not, ◌&&◌, ◌||◌, Option, none, some, List, [], ◌∷◌, ◌++◌, find, leb, ◌==◌,
  nat_eq, bytes_eq, if◌then◌else◌, on_option,
}
use kilasos.Auth.Crypto.{Bytes}
use kilasos.Audit.{Logger}
use kilasos.Files.Paths.{clean}
use kilasos.Api.Backups.{
  BackupJob, RcloneRemote, rclone_remote_add, rclone_remote_remove, rclone_remote_list, backup_jobs,
  rclone_sync, create_backup_job, update_backup_job, delete_backup_job, run_backup_job,
  backup_job_runs, backup_job_run, restore_points, read_log, Failure, file_missing, Answer, status,
  World, Outcome, failed_status, refuse, ask, by_admin,
}

pub record RemoteAdd : Type 0 where
  pub name : Bytes
  pub remote_type : Bytes
  pub endpoint : Bytes
  pub source_path : Bytes
  pub dest_path : Bytes
  pub bandwidth : Bytes

abbrev pub is_digit : ℕ → Bool
is_digit c = leb b'0' c && leb c b'9'

-- `[kmgKMG]`
abbrev pub is_unit : ℕ → Bool
is_unit c = c == b'k' || c == b'm' || c == b'g' || c == b'K' || c == b'M' || c == b'G'

-- What follows `[0-9]*[kmgKMG]`, where the text begins so.
unfoldable pub after_unit : Bytes → Option Bytes
after_unit [] = none
after_unit (c ∷ rest) =
    let more = after_unit rest in if is_digit c then more else if is_unit c then some rest else none

-- `[0-9]+[kmgKMG]`
unfoldable pub after_rate : Bytes → Option Bytes
after_rate [] = none
after_rate (c ∷ rest) = if is_digit c then after_unit rest else none

abbrev pub ends_rate : Bytes → Bool
ends_rate [] = true
ends_rate (c ∷ rest) = c == b':' && on_option (after_rate rest) false (λ more. more == [])

-- `^[0-9]+[kmgKMG](:[0-9]+[kmgKMG])?$`
unfoldable pub is_bandwidth : Bytes → Bool
is_bandwidth text = on_option (after_rate text) false ends_rate

-- "/var/lib/kilasos/backup-job-logs"
abbrev pub backup_job_logs_path : Bytes
backup_job_logs_path =
    b'/' ∷ b'v' ∷ b'a' ∷ b'r' ∷ b'/' ∷ b'l' ∷ b'i' ∷ b'b' ∷ b'/' ∷ b'k' ∷ b'i' ∷ b'l' ∷ b'a' ∷ b's'
    ∷ b'o' ∷ b's' ∷ b'/' ∷ b'b' ∷ b'a' ∷ b'c' ∷ b'k' ∷ b'u' ∷ b'p' ∷ b'-' ∷ b'j' ∷ b'o' ∷ b'b'
    ∷ b'-' ∷ b'l' ∷ b'o' ∷ b'g' ∷ b's' ∷ []

abbrev pub dot_log : Bytes
dot_log = b'.' ∷ b'l' ∷ b'o' ∷ b'g' ∷ []

-- `filepath.Join`: an empty ID is passed over.
unfoldable pub log_path : Bytes → Bytes → Bytes
log_path id run =
    let file = run ++ dot_log in
    clean (backup_job_logs_path ++ (b'/' ∷ (if id == [] then file else id ++ (b'/' ∷ file))))

-- The paths and the bandwidth of the first remote with the name; empty texts without one.
abbrev pub paths_of : Bytes → List RcloneRemote → Bytes × Bytes × Bytes
paths_of name remotes =
    on_option (find (λ rem. rem.name == name) remotes) ([], [], [])
      (λ rem. (rem.source_path, rem.dest_path, rem.bandwidth))

module _ (w : World) where
  unfoldable pub rclone_remote_add_handler : Option RemoteAdd → Option Logger → Outcome
  rclone_remote_add_handler body l = by_admin w l (
      on_option body (refuse 400 l) (λ req.
        if req.name == [] || req.remote_type == []
        then refuse 400 l
        else if not (req.bandwidth == []) && not (is_bandwidth req.bandwidth)
        then refuse 400 l
        else ask w
            (rclone_remote_add req.name req.remote_type req.endpoint req.source_path req.dest_path
              req.bandwidth)
            201 l))

  unfoldable pub rclone_remote_remove_handler : Bytes → Option Logger → Outcome
  rclone_remote_remove_handler name l = by_admin w l (ask w (rclone_remote_remove name) 200 l)

  unfoldable pub rclone_remote_list_handler : Option Logger → Outcome
  rclone_remote_list_handler l = ask w rclone_remote_list 200 l

  -- After the list of the remotes.
  abbrev pub sync_with : Bytes → Bool → Bytes × Bytes × Bytes → Option Logger → Outcome
  sync_with name one_way (src, dst, bandwidth) l =
      let sync = ask w (rclone_sync name one_way src dst bandwidth) 200 l in
      record sync { calls = rclone_remote_list ∷ sync.calls }

  unfoldable pub rclone_sync_handler : Option (Bytes × Bool) → Option Logger → Outcome
  rclone_sync_handler body l = by_admin w l (
      on_option body (refuse 400 l) (λ req.
        if req.0 == []
        then refuse 400 l
        else on_option (w.failure rclone_remote_list)
            (sync_with req.0 req.1 (paths_of req.0 w.remotes) l)
            (λ err. ask w rclone_remote_list 200 l)))

  unfoldable pub backup_jobs_handler : Option Logger → Outcome
  backup_jobs_handler l = ask w backup_jobs 200 l

  unfoldable pub create_backup_job_handler : Option BackupJob → Option Logger → Outcome
  create_backup_job_handler body l =
      by_admin w l (on_option body (refuse 400 l) (λ j. ask w (create_backup_job j) 201 l))

  unfoldable pub update_backup_job_handler : Bytes → Option BackupJob → Option Logger → Outcome
  update_backup_job_handler id body l =
      by_admin w l (
        on_option body (refuse 400 l) (λ j. ask w (update_backup_job (record j { id = id })) 200 l))

  unfoldable pub delete_backup_job_handler : Bytes → Option Logger → Outcome
  delete_backup_job_handler id l = by_admin w l (ask w (delete_backup_job id) 200 l)

  unfoldable pub run_backup_job_handler : Bytes → Option Logger → Outcome
  run_backup_job_handler id l = by_admin w l (ask w (run_backup_job id) 200 l)

  unfoldable pub backup_job_runs_handler : Bytes → Option Logger → Outcome
  backup_job_runs_handler id l = ask w (backup_job_runs id) 200 l

  unfoldable pub backup_job_run_handler : Bytes → Bytes → Option Logger → Outcome
  backup_job_run_handler id run l = ask w (backup_job_run id run) 200 l

  abbrev log_status : Failure → Answer
  log_status file_missing = status 404
  log_status err = failed_status err

  unfoldable pub backup_job_run_log_handler : Bytes → Bytes → Option Logger → Outcome
  backup_job_run_log_handler id run l =
      let call = read_log (log_path id run) in
      record {
        calls = call ∷ [];
        answer = on_option (w.failure call) (status 200) log_status;
        log = l;
      }

  unfoldable pub restore_points_handler : Bytes → Bytes → Option Logger → Outcome
  restore_points_handler backup_type repo l =
      if backup_type == [] || repo == []
      then refuse 400 l
      else ask w (restore_points backup_type repo) 200 l
