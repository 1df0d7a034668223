-- ===== src/Monitor/Jobs/Counts.antt =====
-- What pollBackupJobs in internal/monitor/monitor.go counts: polls, not failures. `LastResult` of a
-- job stays "failed" until its next run, and every poll counts it again.
use kilasos.Common.{
  ℕ, ◌+◌, ◌^◌, ◌<◌, ◌≡◌, ◌≢◌, refl, ap, ◌∙◌, Bool, true, not, some, List, [], ◌∷◌, length, All,
  String, lookup, subst, lookup-insert_self, lookup-insert_ne, ==_iff, string_eq, Bool-cases,
  if_case, inl, inr, if◌then◌else◌, arith,
}
use kilasos.Common.Int.{ℤ, pos, wrap64}
use kilasos.Monitor.{MonitorConfig, BackupJobAlertState, Monitor}
use kilasos.Monitor.Jobs.{
  Job, States, state_map, state_or_fresh, fail_once, check_result, job_failed, job_ok,
  check_enabled, check_job, check_jobs, poll_backup_jobs,
}
use kilasos.Monitor.Jobs.Keys.{IsKeyed, insert-IsKeyed, state_map-IsKeyed, lookup-written_back}

-- How many consecutive failures are counted for a job, in the map and between polls.
abbrev pub fails_in : String → States → ℤ
fails_in id states = (state_or_fresh id (lookup id states)).consecutive_fails

abbrev pub fails_of : String → Monitor → ℤ
fails_of id m = fails_in id (state_map m.job_states [])

-- A job that is enabled and failed at its last run.
abbrev pub IsFailing : Job → Type 0
IsFailing job = (job.enabled ≡ true) × (job.last_result ≡ "failed")

-- The answer of the provider has the job once, and its last run failed.
pub data HasFailing (id : String) : List Job → Type 0 where
  at_head :
      (job : Job) (jobs : List Job)
      → job.id ≡ id
      → IsFailing job
      → All (λ (j : Job). j.id ≢ id) jobs
      → HasFailing id (job ∷ jobs)
  in_tail :
      (job : Job) (jobs : List Job) → job.id ≢ id → HasFailing id jobs → HasFailing id (job ∷ jobs)

job_id-state_or_fresh :
    (id : String) (states : States)
    → IsKeyed states
    → (state_or_fresh id (lookup id states)).job_id ≡ id
unfolding lookup
job_id-state_or_fresh id [] h = refl
job_id-state_or_fresh id ((k, s) ∷ states) h =
    ground (arith, ==_iff k id, h.0, job_id-state_or_fresh id states h.2)

module _ (number : ℤ → String) (now : ℕ) (id : String) where
  check_job-other :
      (job : Job) (states : States) (m : Monitor)
      → job.id ≢ id
      → lookup id (check_job number now job (states, m)).0 ≡ lookup id states
  unfolding check_job
  check_job-other job states m apart = elim (Bool-cases job.enabled) [
    | inl e ↦ rw e (lookup-insert_ne job.id id _ states apart)
    | inr e ↦ rw e refl
  ]

  check_result-failing :
      (cfg : MonitorConfig) (job : Job) (s : BackupJobAlertState)
      → job.last_result ≡ "failed"
      → (check_result number now cfg job s).0.consecutive_fails ≡ (fail_once s).consecutive_fails
  unfolding check_result job_failed
  check_result-failing cfg job s failed = ground (arith, ==_iff job.last_result "failed")

  check_result-job_id :
      (cfg : MonitorConfig) (job : Job) (s : BackupJobAlertState)
      → (check_result number now cfg job s).0.job_id ≡ s.job_id
  unfolding check_result job_failed job_ok fail_once
  check_result-job_id cfg job s = ground arith

  check_job-IsKeyed :
      (job : Job) (states : States) (m : Monitor)
      → IsKeyed states
      → IsKeyed (check_job number now job (states, m)).0
  unfolding check_job
  check_job-IsKeyed job states m h =
      if_case (λ (p : States × Monitor). IsKeyed p.0) (not job.enabled) (states, m)
        (check_enabled number now job (states, m)) (λ _. h)
        (λ _.
          insert-IsKeyed job.id _ states
            (check_result-job_id m.threshold job (state_or_fresh job.id (lookup job.id states))
              ∙ job_id-state_or_fresh job.id states h)
            h)

  check_jobs-IsKeyed :
      (jobs : List Job) (states : States) (m : Monitor)
      → IsKeyed states
      → IsKeyed (check_jobs number now jobs (states, m)).0
  unfolding check_jobs
  check_jobs-IsKeyed [] states m h = h
  check_jobs-IsKeyed (job ∷ jobs) states m h =
      check_jobs-IsKeyed jobs _ _ (check_job-IsKeyed job states m h)

  check_job-failing :
      (job : Job) (states : States) (m : Monitor)
      → job.id ≡ id
      → IsFailing job
      → fails_in id (check_job number now job (states, m)).0
        ≡ (fail_once (state_or_fresh id (lookup id states))).consecutive_fails
  unfolding check_job
  check_job-failing job states m same h =
      let old = state_or_fresh job.id (lookup job.id states) in
      let new = (check_result number now m.threshold job old).0 in
      subst
        (λ i.
          fails_in i (check_job number now job (states, m)).0
          ≡ (fail_once (state_or_fresh i (lookup i states))).consecutive_fails)
        same
        (ap
            (λ b.
              fails_in job.id
                (if not b then (states, m) else check_enabled number now job (states, m)).0)
            h.0
          ∙ ap (λ o. (state_or_fresh job.id o).consecutive_fails)
              (lookup-insert_self job.id new states)
          ∙ check_result-failing m.threshold job old h.1)

  check_jobs-others :
      (jobs : List Job) (states : States) (m : Monitor)
      → All (λ (j : Job). j.id ≢ id) jobs
      → lookup id (check_jobs number now jobs (states, m)).0 ≡ lookup id states
  unfolding check_jobs
  check_jobs-others [] states m apart = refl
  check_jobs-others (job ∷ jobs) states m apart =
      check_jobs-others jobs _ _ apart.1 ∙ check_job-other job states m apart.0

  check_jobs-failing :
      (jobs : List Job) (states : States) (m : Monitor)
      → HasFailing id jobs
      → fails_in id (check_jobs number now jobs (states, m)).0
        ≡ (fail_once (state_or_fresh id (lookup id states))).consecutive_fails
  unfolding check_jobs
  check_jobs-failing jobs states m (at_head job rest same h apart) =
      ap (λ o. (state_or_fresh id o).consecutive_fails) (check_jobs-others rest _ _ apart)
      ∙ check_job-failing job states m same h
  check_jobs-failing jobs states m (in_tail job rest apart h) =
      check_jobs-failing rest _ _ h
      ∙ ap (λ o. (fail_once (state_or_fresh id o)).consecutive_fails)
          (check_job-other job states m apart)

-- A poll that finds the job failing counts one more.
module _ (number : ℤ → String) (id : String) where
  fails_of-poll :
      (now : ℕ) (writable : Bool) (jobs : List Job) (m : Monitor)
      → HasFailing id jobs
      → fails_of id (poll_backup_jobs number now writable (some jobs) m)
        ≡ (fail_once (state_or_fresh id (lookup id (state_map m.job_states [])))).consecutive_fails
  unfolding poll_backup_jobs
  fails_of-poll now writable jobs m h =
      let before = state_map m.job_states [] in
      let after = (check_jobs number now jobs (before, m)).0 in
      ap (λ o. (state_or_fresh id o).consecutive_fails)
        (lookup-written_back id after
          (check_jobs-IsKeyed number now id jobs before m (state_map-IsKeyed m.job_states [] tt)))
      ∙ check_jobs-failing number now id jobs before m h

  abbrev pub PollOfJobs : Type 0
  PollOfJobs = ℕ × Bool × List Job

  pub poll_all : List PollOfJobs → Monitor → Monitor
  poll_all [] m = m
  poll_all ((now, writable, jobs) ∷ polls) m =
      poll_all polls (poll_backup_jobs number now writable (some jobs) m)

  -- While the last run of a job stays the failed one, every poll adds one to its consecutive
  -- failures: after n polls, n more are counted for it, although it ran once.
  pub fails_count_polls :
      (polls : List PollOfJobs) (m : Monitor) (k : ℕ)
      → All (λ (p : PollOfJobs). HasFailing id p.2) polls
      → fails_of id m ≡ pos k
      → k + length polls < 2 ^ 63
      → fails_of id (poll_all polls m) ≡ pos (k + length polls)
  unfolding poll_all fail_once wrap64
  fails_count_polls [] m k all h fits = h ∙ ap pos (omega arith)
  fails_count_polls ((now, writable, jobs) ∷ polls) m k all h fits =
      fails_count_polls polls (poll_backup_jobs number now writable (some jobs) m) (k + 1) all.1
        (fails_of-poll now writable jobs m all.0 ∙ rw h (ground arith)) (omega arith)
      ∙ ap pos (omega arith)
