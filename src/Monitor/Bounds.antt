-- ===== src/Monitor/Bounds.antt =====
-- The list of alerts of internal/monitor/monitor.go, and its thresholds, whatever happens.
use kilasos.Common.{
  ℕ, zero, suc, ◌≤◌, ◌≡◌, refl, Bool, true, String, Option, List, [], ◌∷◌, length, length-take,
  take, remove_first, Bool-cases, inl, inr, if_case, lookup, string_eq, nat_eq, ◌==◌, arith,
}
use kilasos.Common.Int.{ℤ, pos, ltb_ℤ}
use kilasos.Monitor.{
  BackupJobAlertState, Alert, Monitor, Notice, max_alerts, new_monitor, set_thresholds, set_webhook,
  dismiss, is_recent, alert_of, raised, raise,
}
use kilasos.Monitor.Runs.{Step, raising, dismissing, tuning, hooking, noting, Run, here, wait, next}

-- Newest first: no alert is younger than the one before it, and none is of the future.
abbrev pub IsNewestFirst : ℕ → List Alert → Type 0
IsNewestFirst now [] = Unit
IsNewestFirst now (a ∷ alerts) = (a.at ≤ now) × IsNewestFirst a.at alerts

abbrev pub IsPositive : ℤ → Type 0
IsPositive n = ltb_ℤ (pos 0) n ≡ true

pub record IsTidy (now : ℕ) (m : Monitor) : Type 0 where
  pub few : length m.alerts ≤ max_alerts
  pub newest_first : IsNewestFirst now m.alerts
  pub warn_is_positive : IsPositive m.threshold.temp_warn
  pub crit_is_positive : IsPositive m.threshold.temp_crit
  pub fails_is_positive : IsPositive m.threshold.backup_consecutive_crit
  pub hours_is_positive : IsPositive m.threshold.backup_alert_recovery_h

IsNewestFirst-later :
    (now later : ℕ) (alerts : List Alert)
    → now ≤ later
    → IsNewestFirst now alerts
    → IsNewestFirst later alerts
IsNewestFirst-later now later [] le h = tt
IsNewestFirst-later now later (a ∷ alerts) le h = (omega (arith, h.0), h.1)

IsNewestFirst-take :
    (n now : ℕ) (alerts : List Alert) → IsNewestFirst now alerts → IsNewestFirst now (take n alerts)
IsNewestFirst-take zero now alerts h = tt
IsNewestFirst-take (suc n) now [] h = tt
IsNewestFirst-take (suc n) now (a ∷ alerts) h = (h.0, IsNewestFirst-take n a.at alerts h.1)

IsNewestFirst-remove_first :
    (p : Alert → Bool) (now : ℕ) (alerts : List Alert)
    → IsNewestFirst now alerts
    → IsNewestFirst now (remove_first p alerts)
unfolding remove_first
IsNewestFirst-remove_first p now [] h = tt
IsNewestFirst-remove_first p now (a ∷ alerts) h = elim (Bool-cases (p a)) [
  | inl e ↦ rw e (IsNewestFirst-later a.at now alerts h.0 h.1)
  | inr e ↦ rw e (h.0, IsNewestFirst-remove_first p a.at alerts h.1)
]

length-remove_first_le :
    (p : Alert → Bool) (alerts : List Alert) → length (remove_first p alerts) ≤ length alerts
unfolding remove_first
length-remove_first_le p [] = omega arith
length-remove_first_le p (a ∷ alerts) = ground (arith, length-remove_first_le p alerts)

raised-IsTidy : (now : ℕ) (n : Notice) (m : Monitor) → IsTidy now m → IsTidy now (raised now n m)
raised-IsTidy now n m h = record {
  few = omega (arith, length-take max_alerts (alert_of now n ∷ m.alerts));
  newest_first =
      IsNewestFirst-take max_alerts now (alert_of now n ∷ m.alerts) (omega arith, h.newest_first);
  warn_is_positive = h.warn_is_positive;
  crit_is_positive = h.crit_is_positive;
  fails_is_positive = h.fails_is_positive;
  hours_is_positive = h.hours_is_positive;
}

raise-IsTidy : (now : ℕ) (n : Notice) (m : Monitor) → IsTidy now m → IsTidy now (raise now n m)
unfolding raise
raise-IsTidy now n m h =
    if_case (IsTidy now) (is_recent now (lookup n.key m.last_seen)) m (raised now n m) (λ _. h)
      (λ _. raised-IsTidy now n m h)

Step-IsTidy : {now : ℕ} {m m' : Monitor} → Step now m m' → IsTidy now m → IsTidy now m'
Step-IsTidy {now} (raising n m) h = raise-IsTidy now n m h
Step-IsTidy {now} (dismissing id m) h =
    unfold dismiss in
    record {
      few = omega (arith, length-remove_first_le (λ a. a.id == id) m.alerts, h.few);
      newest_first = IsNewestFirst-remove_first (λ a. a.id == id) now m.alerts h.newest_first;
      warn_is_positive = h.warn_is_positive;
      crit_is_positive = h.crit_is_positive;
      fails_is_positive = h.fails_is_positive;
      hours_is_positive = h.hours_is_positive;
    }
Step-IsTidy (tuning cfg m) h = unfold set_thresholds in ground arith
Step-IsTidy (hooking url secret m) h = unfold set_webhook in ground arith
Step-IsTidy {now} (noting m m' same) h = record {
  few = rw same.same_alerts h.few;
  newest_first = rw same.same_alerts h.newest_first;
  warn_is_positive = rw same.same_threshold h.warn_is_positive;
  crit_is_positive = rw same.same_threshold h.crit_is_positive;
  fails_is_positive = rw same.same_threshold h.fails_is_positive;
  hours_is_positive = rw same.same_threshold h.hours_is_positive;
}

IsTidy-later : (now later : ℕ) (m : Monitor) → now ≤ later → IsTidy now m → IsTidy later m
IsTidy-later now later m le h = record {
  few = h.few;
  newest_first = IsNewestFirst-later now later m.alerts le h.newest_first;
  warn_is_positive = h.warn_is_positive;
  crit_is_positive = h.crit_is_positive;
  fails_is_positive = h.fails_is_positive;
  hours_is_positive = h.hours_is_positive;
}

new_monitor-IsTidy :
    (url secret : String) (file : Option (List BackupJobAlertState)) (now : ℕ)
    → IsTidy now (new_monitor url secret file)
unfolding new_monitor
new_monitor-IsTidy url secret file now = record {
  few = omega arith;
  newest_first = tt;
  warn_is_positive = refl;
  crit_is_positive = refl;
  fails_is_positive = refl;
  hours_is_positive = refl;
}

-- From a new monitor on, whatever alerts are raised, dismissed, and thresholds set, in any order: it
-- holds at most a hundred alerts, the newest first and none of the future, and the four thresholds
-- stay positive.
pub Run-IsTidy :
    (url secret : String) (file : Option (List BackupJobAlertState)) (t₀ : ℕ) {now : ℕ}
    {m : Monitor}
    → Run t₀ (new_monitor url secret file) now m
    → IsTidy now m
Run-IsTidy url secret file t₀ here = new_monitor-IsTidy url secret file t₀
Run-IsTidy url secret file t₀ (wait {t} {m} t' r le) =
    IsTidy-later t t' m le (Run-IsTidy url secret file t₀ r)
Run-IsTidy url secret file t₀ (next r step) = Step-IsTidy step (Run-IsTidy url secret file t₀ r)
