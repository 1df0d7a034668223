-- ===== src/Monitor/Runs.antt =====
-- What happens to the monitor of internal/monitor/monitor.go, as steps at times of a clock that
-- does not run backwards: alerts, the calls of the handlers, and the states that a poll notes.
use kilasos.Common.{
  ℕ, ◌≤◌, ◌≡◌, refl, String, Bool, Option, none, some, List, [], ◌∷◌, inl, inr, Bool-cases,
}
use kilasos.Common.Int.{ℤ}
use kilasos.Monitor.{
  Monitor, MonitorConfig, Notice, raise, raise_all, dismiss, set_thresholds, set_webhook,
}
use kilasos.Monitor.Disks.{
  Disk, Pool, check_disk, check_disks, poll_disks, check_pool, check_pools, poll_pools,
}
use kilasos.Monitor.Jobs.{Job, States, Answers, check_job, check_jobs, poll_backup_jobs, poll}

-- A change of the states of disks, pools and jobs only.
pub record IsNoted (m m' : Monitor) : Type 0 where
  pub same_alerts : m'.alerts ≡ m.alerts
  pub same_seen : m'.last_seen ≡ m.last_seen
  pub same_sent : m'.sent ≡ m.sent
  pub same_threshold : m'.threshold ≡ m.threshold

pub data Step (now : ℕ) : Monitor → Monitor → Type 0 where
  raising : (n : Notice) (m : Monitor) → Step now m (raise now n m)
  dismissing : (id : ℕ) (m : Monitor) → Step now m (dismiss id m)
  tuning : (cfg : MonitorConfig) (m : Monitor) → Step now m (set_thresholds cfg m)
  hooking : (url secret : String) (m : Monitor) → Step now m (set_webhook url secret m)
  noting : (m m' : Monitor) → IsNoted m m' → Step now m m'

-- From the monitor `m₀` at the time `t₀` to a later time.
pub data Run (t₀ : ℕ) (m₀ : Monitor) : ℕ → Monitor → Type 0 where
  here : Run t₀ m₀ t₀ m₀
  wait : {t : ℕ} {m : Monitor} (t' : ℕ) → Run t₀ m₀ t m → t ≤ t' → Run t₀ m₀ t' m
  next : {t : ℕ} {m m' : Monitor} → Run t₀ m₀ t m → Step t m m' → Run t₀ m₀ t m'

module _ {t₀ : ℕ} {m₀ : Monitor} (number : ℤ → String) (now : ℕ) where
  raise_all-Run :
      (notices : List Notice) (m : Monitor)
      → Run t₀ m₀ now m
      → Run t₀ m₀ now (raise_all now notices m)
  unfolding raise_all
  raise_all-Run [] m r = r
  raise_all-Run (n ∷ notices) m r = raise_all-Run notices (raise now n m) (next r (raising n m))

  check_disk-Run :
      (d : Disk) (m : Monitor) → Run t₀ m₀ now m → Run t₀ m₀ now (check_disk number now d m)
  unfolding check_disk
  check_disk-Run d m r = raise_all-Run _ _ (
      next (raise_all-Run _ m r) (
        noting _ _ (record {
          same_alerts = refl;
          same_seen = refl;
          same_sent = refl;
          same_threshold = refl;
        })))

  check_disks-Run :
      (disks : List Disk) (m : Monitor)
      → Run t₀ m₀ now m
      → Run t₀ m₀ now (check_disks number now disks m)
  unfolding check_disks
  check_disks-Run [] m r = r
  check_disks-Run (d ∷ disks) m r =
      check_disks-Run disks (check_disk number now d m) (check_disk-Run d m r)

  check_pool-Run :
      (p : Pool) (m : Monitor) → Run t₀ m₀ now m → Run t₀ m₀ now (check_pool number now p m)
  unfolding check_pool
  check_pool-Run (name, none) m r = r
  check_pool-Run (name, some h) m r = raise_all-Run _ _ (
      next (raise_all-Run _ m r) (
        noting _ _ (record {
          same_alerts = refl;
          same_seen = refl;
          same_sent = refl;
          same_threshold = refl;
        })))

  check_pools-Run :
      (pools : List Pool) (m : Monitor)
      → Run t₀ m₀ now m
      → Run t₀ m₀ now (check_pools number now pools m)
  unfolding check_pools
  check_pools-Run [] m r = r
  check_pools-Run (p ∷ pools) m r =
      check_pools-Run pools (check_pool number now p m) (check_pool-Run p m r)

  check_job-Run :
      (job : Job) (states : States) (m : Monitor)
      → Run t₀ m₀ now m
      → Run t₀ m₀ now (check_job number now job (states, m)).1
  unfolding check_job
  check_job-Run job states m r = elim (Bool-cases job.enabled) [
    | inl e ↦ rw e (raise_all-Run _ m r)
    | inr e ↦ rw e r
  ]

  check_jobs-Run :
      (jobs : List Job) (states : States) (m : Monitor)
      → Run t₀ m₀ now m
      → Run t₀ m₀ now (check_jobs number now jobs (states, m)).1
  unfolding check_jobs
  check_jobs-Run [] states m r = r
  check_jobs-Run (job ∷ jobs) states m r = check_jobs-Run jobs _ _ (check_job-Run job states m r)

  poll_disks-Run :
      (disks : Option (List Disk)) (m : Monitor)
      → Run t₀ m₀ now m
      → Run t₀ m₀ now (poll_disks number now disks m)
  unfolding poll_disks
  poll_disks-Run none m r = r
  poll_disks-Run (some disks) m r = check_disks-Run disks m r

  poll_pools-Run :
      (pools : Option (List Pool)) (m : Monitor)
      → Run t₀ m₀ now m
      → Run t₀ m₀ now (poll_pools number now pools m)
  unfolding poll_pools
  poll_pools-Run none m r = r
  poll_pools-Run (some pools) m r = check_pools-Run pools m r

  poll_backup_jobs-Run :
      (writable : Bool) (jobs : Option (List Job)) (m : Monitor)
      → Run t₀ m₀ now m
      → Run t₀ m₀ now (poll_backup_jobs number now writable jobs m)
  unfolding poll_backup_jobs
  poll_backup_jobs-Run writable none m r = r
  poll_backup_jobs-Run writable (some jobs) m r = next (check_jobs-Run jobs _ m r) (
      noting _ _
        (record { same_alerts = refl; same_seen = refl; same_sent = refl; same_threshold = refl }))

  -- A poll is a run of steps at its time.
  pub poll-Run : (a : Answers) (m : Monitor) → Run t₀ m₀ now m → Run t₀ m₀ now (poll number now a m)
  unfolding poll
  poll-Run a m r =
      poll_backup_jobs-Run a.writable a.jobs _
        (poll_pools-Run a.pools _ (poll_disks-Run a.disks m r))
