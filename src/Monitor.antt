-- ===== src/Monitor.antt =====
-- internal/monitor/monitor.go: the alerts on disks, pools and backup jobs. The calls that send a
-- webhook or a mail run on their own; they are recorded as a list.
pub mod Disks
pub mod Jobs
pub mod History
pub mod Runs
pub mod Quiet
pub mod Bounds
mod Tests
use kilasos.Common.{
  ℕ, ◌+◌, ◌*◌, String, Bool, true, false, not, Option, none, some, List, [], ◌∷◌, take, Dict,
  lookup, insert, keep, remove_first, ◌==◌, nat_eq, string_eq, if◌then◌else◌, on_option,
}
use kilasos.Common.Int.{ℤ, pos, ltb_ℤ}
use kilasos.Common.Time.{sub, hour}

pub record MonitorConfig : Type 0 where
  pub temp_warn : ℤ
  pub temp_crit : ℤ
  pub backup_consecutive_crit : ℤ
  pub backup_alert_recovery_h : ℤ

-- A time of 0 is the zero time.
pub record BackupJobAlertState : Type 0 where
  pub job_id : String
  pub consecutive_fails : ℤ
  pub last_alerted_at : ℕ

-- The ID of an alert is its time in nanoseconds, as a number.
pub record Alert : Type 0 where
  pub id : ℕ
  pub level : String
  pub source : String
  pub disk : String
  pub path : String
  pub message : String
  pub at : ℕ

pub record WebhookConfig : Type 0 where
  pub url : String
  pub secret : String

-- `sent` has the alerts that were handed to `sendWebhook` and `sendEmail`, newest first;
-- `job_file` is what the file with the states of the jobs holds.
pub record Monitor : Type 0 where
  pub config : WebhookConfig
  pub alerts : List Alert
  pub last_seen : Dict String ℕ
  pub disk_state : Dict String String
  pub pool_state : Dict String String
  pub threshold : MonitorConfig
  pub job_states : List BackupJobAlertState
  pub job_file : Option (List BackupJobAlertState)
  pub sent : List Alert

abbrev pub max_alerts : ℕ
max_alerts = 100

abbrev pub re_alert_after : ℕ
re_alert_after = hour

abbrev pub default_config : MonitorConfig
default_config = record {
  temp_warn = pos 55;
  temp_crit = pos 65;
  backup_consecutive_crit = pos 3;
  backup_alert_recovery_h = pos 24;
}

-- `loadBackupAlertState`, its error ignored.
abbrev pub load_job_states : Option (List BackupJobAlertState) → List BackupJobAlertState
load_job_states none = []
load_job_states (some states) = states

unfoldable pub new_monitor : String → String → Option (List BackupJobAlertState) → Monitor
new_monitor url secret file = record {
  config = record { url = url; secret = secret };
  alerts = [];
  last_seen = [];
  disk_state = [];
  pool_state = [];
  threshold = default_config;
  job_states = load_job_states file;
  job_file = file;
  sent = [];
}

unfoldable pub get_thresholds : Monitor → MonitorConfig
get_thresholds m = m.threshold

abbrev positive_or : ℤ → ℤ → ℤ
positive_or new old = if ltb_ℤ (pos 0) new then new else old

unfoldable pub set_thresholds : MonitorConfig → Monitor → Monitor
set_thresholds cfg m =
    let old = m.threshold in
    record m {
      threshold = record {
        temp_warn = positive_or cfg.temp_warn old.temp_warn;
        temp_crit = positive_or cfg.temp_crit old.temp_crit;
        backup_consecutive_crit =
            positive_or cfg.backup_consecutive_crit old.backup_consecutive_crit;
        backup_alert_recovery_h =
            positive_or cfg.backup_alert_recovery_h old.backup_alert_recovery_h;
      };
    }

unfoldable pub set_webhook : String → String → Monitor → Monitor
set_webhook url secret m = record m { config = record { url = url; secret = secret } }

unfoldable pub get_webhook : Monitor → WebhookConfig
get_webhook m = m.config

unfoldable pub alerts_view : Monitor → List Alert
alerts_view m = m.alerts

unfoldable pub dismiss : ℕ → Monitor → Monitor
dismiss id m = record m { alerts = remove_first (λ a. a.id == id) m.alerts }

-- What `raise` is called with.
pub record Notice : Type 0 where
  pub level : String
  pub source : String
  pub disk : String
  pub path : String
  pub message : String
  pub key : String

abbrev pub alert_of : ℕ → Notice → Alert
alert_of now n = record {
  id = now;
  level = n.level;
  source = n.source;
  disk = n.disk;
  path = n.path;
  message = n.message;
  at = now;
}

-- `last, seen := m.lastSeen[key]; seen && time.Since(last) < reAlertAfter`
abbrev pub is_recent : ℕ → Option ℕ → Bool
is_recent now none = false
is_recent now (some last) = ltb_ℤ (sub now last) (pos re_alert_after)

-- The keys that were seen in the last two hours.
abbrev pub still_seen : ℕ → String × ℕ → Bool
still_seen now entry = not (ltb_ℤ (pos (re_alert_after * 2)) (sub now entry.1))

-- A notice that becomes an alert.
abbrev pub raised : ℕ → Notice → Monitor → Monitor
raised now n m = record m {
  alerts = take max_alerts (alert_of now n ∷ m.alerts);
  last_seen = keep (still_seen now) (insert n.key now m.last_seen);
  sent = alert_of now n ∷ m.sent;
}

unfoldable pub raise : ℕ → Notice → Monitor → Monitor
raise now n m = if is_recent now (lookup n.key m.last_seen) then m else raised now n m

-- The calls of `raise` by one poll, one after the other.
unfoldable pub raise_all : ℕ → List Notice → Monitor → Monitor
raise_all now [] m = m
raise_all now (n ∷ notices) m = raise_all now notices (raise now n m)
