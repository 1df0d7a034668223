-- ===== src/Monitor/Jobs.antt =====
-- pollBackupJobs of internal/monitor/monitor.go. The states of the jobs are kept in a slice; the
-- poll works on a map of them, which `range` writes back in some order.
pub mod Keys
pub mod Counts
use Prim.Native.String.{◌++◌ as join}
use kilasos.Common.{
  ℕ, suc, ◌-◌, String, Bool, true, false, not, Option, none, some, List, [], ◌∷◌, map, Dict, lookup,
  insert, ◌==◌, nat_eq, string_eq, if◌then◌else◌, on_option,
}
use kilasos.Common.Int.{ℤ, pos, negsuc, ltb_ℤ, wrap64, times}
use kilasos.Common.Time.{sub, hour}
use kilasos.Monitor.{BackupJobAlertState, Monitor, MonitorConfig, Notice, raise, raise_all}
use kilasos.Monitor.Disks.{Disk, Pool, poll_disks, poll_pools}

-- What the provider says of a job.
pub record Job : Type 0 where
  pub id : String
  pub name : String
  pub destination : String
  pub enabled : Bool
  pub last_result : String

abbrev pub States : Type 0
States = Dict String BackupJobAlertState

-- The map from job IDs to states; a later state of the same job replaces an earlier one.
unfoldable pub state_map : List BackupJobAlertState → States → States
state_map [] states = states
state_map (s ∷ more) states = state_map more (insert s.job_id s states)

abbrev pub fresh_state : String → BackupJobAlertState
fresh_state id = record { job_id = id; consecutive_fails = pos 0; last_alerted_at = 0 }

abbrev pub state_or_fresh : String → Option BackupJobAlertState → BackupJobAlertState
state_or_fresh id none = fresh_state id
state_or_fresh id (some s) = s

abbrev plus_one : ℤ → ℤ
plus_one (pos n) = pos (suc n)
plus_one (negsuc n) = if n == 0 then pos 0 else negsuc (n - 1)

-- `state.ConsecutiveFails++`
unfoldable pub fail_once : BackupJobAlertState → BackupJobAlertState
unfolding wrap64
fail_once s = record s { consecutive_fails = wrap64 (plus_one s.consecutive_fails) }

abbrev pub is_rate_limited : ℕ → ℤ → BackupJobAlertState → Bool
is_rate_limited now hours s = ltb_ℤ (sub now s.last_alerted_at) (times hours hour)

-- What one job does: its new state, and the notices that are raised.
abbrev pub Checked : Type 0
Checked = BackupJobAlertState × List Notice

-- What a poll takes from outside: the answers of the provider, and whether the file is written.
pub record Answers : Type 0 where
  pub disks : Option (List Disk)
  pub pools : Option (List Pool)
  pub jobs : Option (List Job)
  pub writable : Bool

module _ (number : ℤ → String) where
  abbrev on_job : String → String → Job → String → Notice
  on_job level message job key = record {
    level = level;
    source = "backup";
    disk = job.name;
    path = job.destination;
    message = message;
    key = key;
  }

  abbrev pub severity : MonitorConfig → BackupJobAlertState → String
  severity cfg s = if ltb_ℤ s.consecutive_fails cfg.backup_consecutive_crit then "warn" else "crit"

  abbrev failure_text : Job → BackupJobAlertState → String
  failure_text job s =
      join "backup job " (
        join job.name (join " failed (consecutive fails: " (join (number s.consecutive_fails) ")")))

  unfoldable pub job_failed : ℕ → MonitorConfig → Job → BackupJobAlertState → Checked
  job_failed now cfg job old =
      let s = fail_once old in
      if is_rate_limited now cfg.backup_alert_recovery_h s then (s, []) else (
        record s { last_alerted_at = now },
        on_job (severity cfg s) (failure_text job s) job (join "backup:" (join job.id ":fail"))
            ∷ [],
      )

  unfoldable pub job_ok : Job → BackupJobAlertState → Checked
  job_ok job s = (
    record s { consecutive_fails = pos 0 },
    if ltb_ℤ (pos 0) s.consecutive_fails
        then on_job "info" (join "backup job " (join job.name " recovered")) job
            (join "backup:" (join job.id ":recovery"))
          ∷ []
        else [],
  )

  unfoldable pub check_result : ℕ → MonitorConfig → Job → BackupJobAlertState → Checked
  check_result now cfg job s =
      if job.last_result == "failed"
      then job_failed now cfg job s
      else if job.last_result == "ok"
      then job_ok job s
      else (s, [])

  -- One round of the loop, for a job that is enabled.
  abbrev pub check_enabled : ℕ → Job → States × Monitor → States × Monitor
  check_enabled now job (states, m) =
      let checked =
        check_result now m.threshold job (state_or_fresh job.id (lookup job.id states)) in
      (insert job.id checked.0 states, raise_all now checked.1 m)

  unfoldable pub check_job : ℕ → Job → States × Monitor → States × Monitor
  check_job now job p = if not job.enabled then p else check_enabled now job p

  unfoldable pub check_jobs : ℕ → List Job → States × Monitor → States × Monitor
  check_jobs now [] p = p
  check_jobs now (job ∷ jobs) p = check_jobs now jobs (check_job now job p)

  abbrev pub write_back : Bool → States × Monitor → Monitor
  write_back writable (states, m) =
      let kept = map (λ (x : String × BackupJobAlertState). x.1) states in
      record m { job_states = kept; job_file = if writable then some kept else m.job_file }

  unfoldable pub poll_backup_jobs : ℕ → Bool → Option (List Job) → Monitor → Monitor
  poll_backup_jobs now writable none m = m
  poll_backup_jobs now writable (some jobs) m =
      write_back writable (check_jobs now jobs (state_map m.job_states [], m))

  unfoldable pub poll : ℕ → Answers → Monitor → Monitor
  poll now a m =
      poll_backup_jobs now a.writable a.jobs
        (poll_pools number now a.pools (poll_disks number now a.disks m))
