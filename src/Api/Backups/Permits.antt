-- ===== src/Api/Backups/Permits.antt =====
-- What the routes to internal/api/backup_handlers.go let through, and how they answer.
use kilasos.Common.{
  some, ℕ, ◌≡◌, ◌||◌, ◌⊎◌, ◌≤◌, on_option, Option-cases, Bool-cases, All-imp, refl, true, false,
  Option, none, [], All, ◌==◌, bytes_eq, inl, inr, arith,
}
use kilasos.Auth.Crypto.{Bytes}
use kilasos.License.{License, has_feature, require_feature}
use kilasos.Api.Backups.{
  Failure, feature_not_licensed, file_missing, other_failure, Answer, status, panicked,
  failed_status, Call, borg_init, borg_create_backup, borg_list_archives, borg_delete_archive,
  borg_prune, borg_verify, borg_restore, restic_init, restic_create_backup, restic_list_snapshots,
  restic_delete_snapshot, restic_verify, restic_restore, rclone_remote_add, rclone_remote_remove,
  rclone_remote_list, backup_jobs, rclone_sync, create_backup_job, update_backup_job,
  delete_backup_job, run_backup_job, backup_job_runs, backup_job_run, restore_points, read_log,
  World, Outcome,
}
use kilasos.Api.Backups.Archives.{
  borg_init_handler, borg_create_backup_handler, borg_list_archives_handler,
  borg_delete_archive_handler, borg_prune_handler, borg_restore_handler, borg_verify_handler,
  restic_init_handler, restic_create_backup_handler, restic_list_snapshots_handler,
  restic_delete_snapshot_handler, restic_restore_handler, restic_verify_handler,
}
use kilasos.Api.Backups.Jobs.{
  is_bandwidth, rclone_remote_add_handler, rclone_remote_remove_handler, rclone_remote_list_handler,
  rclone_sync_handler, backup_jobs_handler, create_backup_job_handler, update_backup_job_handler,
  delete_backup_job_handler, run_backup_job_handler, backup_job_runs_handler,
  backup_job_run_handler, backup_job_run_log_handler, restore_points_handler,
}
use kilasos.Api.Backups.Remotes.{Synced, paths_of-Synced}
use kilasos.Api.Backups.Routes as Routes
use kilasos.Api.Backups.Routes.{Request, route, serve}

abbrev pub Given : Bytes → Type 0
Given text = (text == []) ≡ false

abbrev pub ByAdmin : World → Type 0
ByAdmin w = w.is_admin ≡ true

-- What is known of a call that is made: who asked, and what was checked.
abbrev pub Permitted : World → Call → Type 0
Permitted w (borg_init name passphrase encryption) = ByAdmin w × Given name
Permitted w (borg_create_backup repo archive paths excludes) = ByAdmin w × Given paths
Permitted w (borg_list_archives repo) = Given repo
Permitted w (borg_delete_archive repo archive) = ByAdmin w
Permitted w (borg_prune repo policy) = ByAdmin w
Permitted w (borg_verify repo archive) = Unit
Permitted w (borg_restore repo archive target) = ByAdmin w × Given target
Permitted w (restic_init name passphrase backend creds) = ByAdmin w × Given name
Permitted w (restic_create_backup repo paths tags) = ByAdmin w × Given paths
Permitted w (restic_list_snapshots repo) = Given repo
Permitted w (restic_delete_snapshot repo snapshot) = ByAdmin w
Permitted w (restic_verify repo snapshot) = Unit
Permitted w (restic_restore repo snapshot target) = ByAdmin w × Given target
Permitted w (rclone_remote_add name type endpoint source dest bandwidth) =
    ByAdmin w × Given name × Given type × ((bandwidth == [] || is_bandwidth bandwidth) ≡ true)
Permitted w (rclone_remote_remove name) = ByAdmin w
Permitted w rclone_remote_list = Unit
Permitted w backup_jobs = Unit
Permitted w (rclone_sync name one_way source dest bandwidth) =
    ByAdmin w × Given name × Synced name w.remotes (source, dest, bandwidth)
Permitted w (create_backup_job j) = ByAdmin w
Permitted w (update_backup_job j) = ByAdmin w
Permitted w (delete_backup_job id) = ByAdmin w
Permitted w (run_backup_job id) = ByAdmin w
Permitted w (backup_job_runs id) = Unit
Permitted w (backup_job_run id run) = Unit
Permitted w (restore_points backup_type repo) = Given backup_type × Given repo
Permitted w (read_log path) = Unit

-- An error of the client or of the server, or no answer at all.
abbrev pub IsFailure : Answer → Type 0
IsFailure (status code) = 400 ≤ code
IsFailure panicked = Unit

-- Either the call succeeds, or the answer says that something failed.
abbrev pub Told : World → Answer → Call → Type 0
Told w answer call = (w.failure call ≡ none) ⊎ IsFailure answer

failed_status-IsFailure : (err : Failure) → IsFailure (failed_status err)
failed_status-IsFailure feature_not_licensed = omega arith
failed_status-IsFailure file_missing = omega arith
failed_status-IsFailure other_failure = omega arith

module _ (w : World) where
  abbrev Fine : Outcome → Type 0
  Fine o = All (λ call. Permitted w call × Told w o.answer call) o.calls

  told :
      (call : Call) (good : ℕ)
      → Told w (on_option (w.failure call) (status good) failed_status) call
  told call good = elim (Option-cases (w.failure call)) [
    | inl fine ↦ inl fine
    | inr (err, e) ↦ inr (rw e (failed_status-IsFailure err))
  ]

  routed : (r : Request) → Fine (route w r)
  unfolding route borg_init_handler borg_create_backup_handler borg_list_archives_handler
      borg_delete_archive_handler borg_prune_handler borg_restore_handler borg_verify_handler
      restic_init_handler restic_create_backup_handler restic_list_snapshots_handler
      restic_delete_snapshot_handler restic_restore_handler restic_verify_handler
      rclone_remote_add_handler rclone_remote_remove_handler rclone_remote_list_handler
      rclone_sync_handler backup_jobs_handler create_backup_job_handler update_backup_job_handler
      delete_backup_job_handler run_backup_job_handler backup_job_runs_handler
      backup_job_run_handler backup_job_run_log_handler restore_points_handler
  routed Routes.status = ((tt, told backup_jobs 200), tt)
  routed Routes.remotes = ((tt, told rclone_remote_list 200), tt)
  routed Routes.jobs = ((tt, told backup_jobs 200), tt)
  routed (Routes.borg_init body) = ground arith
  routed (Routes.borg_create body) = ground arith
  routed (Routes.borg_archives repo) = ground arith
  routed (Routes.borg_delete repo archive) = ground arith
  routed (Routes.borg_prune body) = ground arith
  routed (Routes.borg_verify body) = ground arith
  routed (Routes.borg_restore body) = ground arith
  routed (Routes.restic_init body) = ground arith
  routed (Routes.restic_create body) = ground arith
  routed (Routes.restic_snapshots repo) = ground arith
  routed (Routes.restic_delete repo snapshot) = ground arith
  routed (Routes.restic_verify body) = ground arith
  routed (Routes.restic_restore body) = ground arith
  routed (Routes.remote_add body) = ground arith
  routed (Routes.remote_remove name) = ground arith
  routed (Routes.sync none) = ground arith
  routed (Routes.sync (some (name, one_way))) = ground (arith, paths_of-Synced name w.remotes)
  routed (Routes.create_job body) = ground arith
  routed (Routes.update_job id body) = ground arith
  routed (Routes.delete_job id) = ground arith
  routed (Routes.run_job id) = ground arith
  routed (Routes.job_runs id) = ((tt, told (backup_job_runs id) 200), tt)
  routed (Routes.job_run id run) = ((tt, told (backup_job_run id run) 200), tt)
  routed (Routes.job_run_log id run) = ground arith
  routed (Routes.restore_points backup_type repo) = ground arith

-- Everything that a request asks of the backups was let through by the licence, and by what the
-- handler checks: an administrator asked for whatever changes something, the texts that it insists
-- on are given, a bandwidth is well formed, and a synchronisation has the paths and the bandwidth
-- of the first remote with its name, or empty texts where no remote has it. Where a call fails, the
-- answer is an error, or the handler panics.
pub serve-Permitted :
    (lic : Option License) (w : World) (r : Request)
    → All
        (λ call.
          (has_feature lic "backup" ≡ true) × Permitted w call × Told w (serve lic w r).answer call)
        (serve lic w r).calls
unfolding serve require_feature
serve-Permitted lic w r = elim (Bool-cases (has_feature lic "backup")) [
  | inl e ↦ rw e (
      All-imp (λ call. Permitted w call × Told w (route w r).answer call)
        (λ call. (true ≡ true) × Permitted w call × Told w (route w r).answer call)
        (route w r).calls (λ call h. (refl, h.0, h.1)) (routed w r))
  | inr e ↦ rw e tt
]
