-- ===== src/Monitor/Tests.antt =====
-- The monitor, at concrete polls.
use kilasos.Common.{
  ℕ, ◌+◌, ◌*◌, ◌≡◌, refl, Bool, true, String, none, some, List, [], ◌∷◌, length, lookup, insert,
  keep, arith,
}
use kilasos.Common.Int.{ℤ, pos, saturate}
use kilasos.Common.Time.{hour, minute, sub}
use kilasos.Monitor.{Monitor, Notice, Alert, new_monitor, raise, raise_all}
use kilasos.Monitor.Disks.{Disk, disk_status, check_disk, check_disks, poll_disks}
use kilasos.Monitor.Jobs.{Job, Answers, poll, state_map}
use kilasos.Monitor.Jobs.Counts.{HasFailing, at_head, fails_of, poll_all, fails_count_polls}
use kilasos.Monitor.Runs.{here, wait, poll-Run}
use kilasos.Monitor.Bounds.{IsTidy, Run-IsTidy}
use kilasos.Monitor.Quiet.{quiet_for_an_hour}

abbrev number : ℤ → String
number n = "number"

abbrev noon : ℕ
noon = 12 * hour

abbrev fresh : Monitor
fresh = new_monitor "" "" none

abbrev hot : Disk
hot = record {
  name = "sda";
  path = "/dev/sda";
  smart_ok = true;
  temp_celsius = some (pos 70);
  reallocated_sectors = none;
}

abbrev cool : Disk
cool = record hot { temp_celsius = some (pos 30) }

abbrev messages : List Alert → List String
messages [] = []
messages (a ∷ alerts) = a.level ∷ messages alerts

-- A disk that was too hot and has cooled down.
recovery :
    messages
      (poll_disks number
        (noon + minute)
        (some (cool ∷ []))
        (poll_disks number noon (some (hot ∷ [])) fresh)).alerts
    ≡ "info" ∷ "crit" ∷ []
unfolding poll_disks check_disks check_disk disk_status raise_all raise new_monitor lookup insert
    keep sub saturate
recovery = refl

abbrev answers : Answers
answers = record { disks = some (hot ∷ []); pools = none; jobs = none; writable = true }

Run-IsTidy_example : IsTidy noon (poll number noon answers fresh)
Run-IsTidy_example = Run-IsTidy "" "" none noon (poll-Run number noon answers fresh here)

abbrev notice : Notice
notice = record {
  level = "crit";
  source = "disk";
  disk = "sda";
  path = "/dev/sda";
  message = "SMART self-test failed";
  key = "smart:/dev/sda:fail";
}

quiet_for_an_hour_example :
    raise (noon + minute) notice (poll number (noon + minute) answers (raise noon notice fresh))
    ≡ poll number (noon + minute) answers (raise noon notice fresh)
unfolding new_monitor lookup
quiet_for_an_hour_example =
    quiet_for_an_hour noon notice fresh refl
      (poll-Run number (noon + minute) answers (raise noon notice fresh)
        (wait (noon + minute) here (omega arith)))
      (omega arith) notice refl

abbrev nightly : Job
nightly = record {
  id = "job-1";
  name = "nightly";
  destination = "/mnt/b";
  enabled = true;
  last_result = "failed";
}

abbrev three_polls : List (ℕ × Bool × List Job)
three_polls =
    (noon, true, nightly ∷ [])
    ∷ (noon + minute, true, nightly ∷ [])
    ∷ (noon + 2 * minute, true, nightly ∷ [])
    ∷ []

has_nightly : HasFailing "job-1" (nightly ∷ [])
has_nightly = at_head nightly [] refl (refl, refl) tt

fails_count_polls_example :
    fails_of "job-1" (poll_all number "job-1" three_polls fresh) ≡ pos (0 + length three_polls)
unfolding new_monitor state_map lookup
fails_count_polls_example =
    fails_count_polls number "job-1" three_polls fresh 0
      (has_nightly, (has_nightly, (has_nightly, tt))) refl (omega arith)
