-- ===== src/Scheduler/Backups.antt =====
-- The backup jobs of internal/scheduler/scheduler.go, which run by cron expressions.
pub mod Jobs
use kilasos.Common.{
  ℕ, ◌-◌, String, Bool, true, false, not, ◌&&◌, ◌||◌, Option, List, [], ◌∷◌, keep, ◌==◌, string_eq,
  if◌then◌else◌, on_option,
}
use kilasos.Common.Int.{negsuc}
use kilasos.Common.Time.{after, add, minute}

pub record BackupJob : Type 0 where
  pub id : String
  pub enabled : Bool
  pub schedule : String

-- robfig/cron: the next time of an expression after an instant, where it parses.
pub record Cron : Type 0 where
  pub next : String → Option (ℕ → ℕ)

unfoldable pub member : String → List String → Bool
member x [] = false
member x (y ∷ ys) = x == y || member x ys

module _ (cron : Cron) where
  -- The job is enabled, and its next time after a minute ago has passed.
  unfoldable pub is_job_due : ℕ → BackupJob → Bool
  is_job_due now job =
      if not job.enabled || job.schedule == ""
      then false
      else on_option (cron.next job.schedule) false
          (λ next. after now (next (add now (negsuc (minute - 1)))))

  -- `pollBackupJobs`: a job that runs is not started again.
  unfoldable pub poll_backup_jobs : ℕ → List BackupJob → List String → List String × List String
  poll_backup_jobs now [] running = (running, [])
  poll_backup_jobs now (job ∷ jobs) running =
      let go_on = poll_backup_jobs now jobs (job.id ∷ running) in
      let pass = poll_backup_jobs now jobs running in
      if is_job_due now job && not (member job.id running)
      then (go_on.0, job.id ∷ go_on.1)
      else pass

-- `defer s.running.Delete(job.ID)`
unfoldable pub finish_backup_job : String → List String → List String
finish_backup_job id running = keep (λ x. not (x == id)) running
