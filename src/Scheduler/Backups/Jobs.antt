-- ===== src/Scheduler/Backups/Jobs.antt =====
-- Which backup jobs `pollBackupJobs` of internal/scheduler/scheduler.go starts.
use kilasos.Common.{
  ℕ, String, ◌≡◌, ◌≢◌, refl, true, false, not, ◌&&◌, List, [], ◌∷◌, arith, All, All-imp, ==_iff,
  string_eq, Bool-cases, inl, inr,
}
use kilasos.Scheduler.Backups.{BackupJob, Cron, is_job_due, member, poll_backup_jobs}

-- No name stands twice.
pub IsDistinct : List String → Type 0
IsDistinct [] = Unit
IsDistinct (x ∷ xs) = (member x xs ≡ false) × IsDistinct xs

absent_member : (x : String) (xs : List String) → All (λ y. y ≢ x) xs → member x xs ≡ false
unfolding member
absent_member x [] h = refl
absent_member x (y ∷ xs) h = ground (arith, h.0, ==_iff x y, absent_member x xs h.1)

-- What a poll has started.
pub record IsStart (running left started : List String) : Type 0 where
  pub fresh : All (λ id. member id running ≡ false) started
  pub distinct : IsDistinct started
  pub entered : All (λ id. member id left ≡ true) started
  pub kept : (id : String) → member id running ≡ true → member id left ≡ true

module _ (cron : Cron) (now : ℕ) where
  started :
      (id : String) (running left more : List String)
      → member id running ≡ false
      → IsStart (id ∷ running) left more
      → IsStart running left (id ∷ more)
  unfolding member IsDistinct
  started id running left more absent h = record {
    fresh = (
      absent,
      All-imp (λ x. member x (id ∷ running) ≡ false) (λ x. member x running ≡ false) more
          (λ x k. ground arith) h.fresh,
    );
    distinct = (
      absent_member id more (
          All-imp (λ x. member x (id ∷ running) ≡ false) (λ x. x ≢ id) more
            (λ x k. λ same. ground (arith, ==_iff x id)) h.fresh),
      h.distinct,
    );
    entered = (h.kept id (ground (arith, ==_iff id id)), h.entered);
    kept = λ x k. h.kept x (ground arith);
  }

  -- A job that a poll starts was not running, none is started twice, all that run stay marked as
  -- running, and those that were started are marked.
  pub poll_starts_fresh :
      (jobs : List BackupJob) (running : List String)
      → IsStart running
          (poll_backup_jobs cron now jobs running).0
          (poll_backup_jobs cron now jobs running).1
  unfolding poll_backup_jobs IsDistinct
  poll_starts_fresh [] running = record {
    fresh = tt;
    distinct = tt;
    entered = tt;
    kept = λ id k. k;
  }
  poll_starts_fresh (job ∷ jobs) running =
      elim (Bool-cases (is_job_due cron now job && not (member job.id running))) [
        | inl e ↦ simp e (
            started job.id running (poll_backup_jobs cron now jobs (job.id ∷ running)).0
              (poll_backup_jobs cron now jobs (job.id ∷ running)).1 (ground (arith, e))
              (poll_starts_fresh jobs (job.id ∷ running)))
        | inr e ↦ simp e (poll_starts_fresh jobs running)
      ]
