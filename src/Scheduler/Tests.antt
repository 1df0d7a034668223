-- ===== src/Scheduler/Tests.antt =====
-- Schedules of internal/scheduler/scheduler.go, at concrete states.
use mathlib.Core.List.{Perm}
use kilasos.Common.{
  ℕ, ◌+◌, ◌*◌, min, ◌≤◌, ◌≡◌, true, false, some, List, [], ◌∷◌, ◌++◌, All, length, keep,
}
use kilasos.Common.Int.{pos}
use kilasos.Common.Time.{hour}
use kilasos.Auth.Crypto.{Bytes}
use kilasos.Auth.Password.{hex}
use kilasos.Scheduler.Backups.{BackupJob, Cron}
use kilasos.Scheduler.{
  Schedule, Scheduler, Env, RunEnv, Snapshot, is_auto, prune, run, add_snapshot,
}
use kilasos.Scheduler.Prune.{IsOldestFirst, deletes, prune_keeps_newest}
use kilasos.Scheduler.Soundness.{IsSound, here, next, adds_snapshot, runs, Reach-IsSound}

abbrev snap : ℕ → ℕ → Snapshot
snap name created = record { name = 97 ∷ 117 ∷ 116 ∷ 111 ∷ 45 ∷ name ∷ []; created = created }

abbrev snaps : List Snapshot
snaps = snap 49 30 ∷ snap 50 10 ∷ record { name = 109 ∷ []; created = 1 } ∷ snap 51 20 ∷ []

prune_keeps_newest_example :
    (gone left : List Snapshot) × (prune "tank" (pos 2) (some snaps) ≡ deletes "tank" gone)
    × Perm (gone ++ left) (keep is_auto snaps)
    × (length left ≡ min 2 (length (keep is_auto snaps)))
    × IsOldestFirst (gone ++ left)
    × All (λ x. All (λ y. x.created ≤ y.created) left) gone
prune_keeps_newest_example = prune_keeps_newest "tank" 2 snaps

abbrev at_noon : Env
at_noon = record { now = 12 * hour; id_bytes = 1 ∷ 2 ∷ []; writable = true }

abbrev no_schedules : Scheduler
no_schedules = record { schedules = []; file = []; running = [] }

abbrev one : Schedule
one = record {
  id = hex at_noon.id_bytes;
  kind = "";
  pool = "tank";
  freq = "daily";
  keep = pos 2;
  enabled = true;
  last_run = 0;
  next_run = 13 * hour;
  remote_id = "";
  remote_name = "";
}

abbrev with_one : Scheduler
with_one = record no_schedules { schedules = one ∷ [] }

abbrev good_run : RunEnv
good_run = record {
  started = 14 * hour;
  finished = 14 * hour + 1;
  writable = true;
  has_sender = false;
  created = true;
  listed = some snaps;
  stamp = 52 ∷ [];
}

abbrev other_id : Bytes
other_id = 48 ∷ []

Reach-IsSound_example :
    All IsSound
      (run good_run one (add_snapshot at_noon "tank" "daily" (pos 0) no_schedules).0).0.schedules
Reach-IsSound_example =
    Reach-IsSound no_schedules
      (run good_run one (add_snapshot at_noon "tank" "daily" (pos 0) no_schedules).0).0 tt
      (next (next here (adds_snapshot at_noon "tank" "daily" (pos 0))) (runs good_run one))

-- Every expression is due at the start of the clock.
abbrev cron : Cron
cron = record { next = λ s. some (λ t. 0) }

abbrev nightly : BackupJob
nightly = record { id = "nightly"; enabled = true; schedule = "0 3 * * *" }
