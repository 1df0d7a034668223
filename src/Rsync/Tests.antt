-- ===== src/Rsync/Tests.antt =====
-- The rsync jobs, at a concrete manager.
use kilasos.Common.{◌+◌, ◌*◌, ◌≡◌, refl, true, false, some, [], ◌∷◌, lookup, insert, keep}
use kilasos.Common.Time.{hour, minute}
use kilasos.Auth.Crypto.{Bytes}
use kilasos.Rsync.{
  Job, JobStatus, Manager, manager_of, is_due, begin_run, begin_all, tick, status_of, rsync_args,
  avz, progress,
}
use kilasos.Rsync.Statuses.{at_start, then_step, ticking, IsTrue, status_of-Reach}
use kilasos.Rsync.Ticks.{runs_of, runs_in, count_id, runs_of-tick}

abbrev id : Bytes
id = b'7' ∷ []

abbrev media : Job
media = record {
  id = id;
  name = "media";
  source = b'/' ∷ b'm' ∷ [];
  destination = b'/' ∷ b'b' ∷ [];
  freq = "daily";
  enabled = true;
  delete_extra = false;
  last_run = 0;
  next_run = 9 * hour;
}

args : rsync_args media ≡ avz ∷ progress ∷ (b'/' ∷ b'm' ∷ b'/' ∷ []) ∷ media.destination ∷ []
unfolding rsync_args
args = refl

abbrev ticked : Manager
ticked = tick (10 * hour) (manager_of (media ∷ []))

abbrev going : JobStatus
going = record {
  job_id = id;
  running = true;
  started = 10 * hour;
  lines = [];
  exit_err = "";
  is_done = false;
}

-- A run of half an hour is joined by another with every tick.
two_runs : runs_of id (tick (10 * hour + minute) ticked) ≡ 2
unfolding runs_in tick keep begin_all begin_run insert
two_runs = refl

shown : status_of id ticked ≡ some going
unfolding status_of tick keep begin_all begin_run insert lookup
shown = refl

status_of-Reach_example : IsTrue id ticked going
status_of-Reach_example =
    status_of-Reach (media ∷ []) ticked id going
      (then_step at_start (ticking (10 * hour) (manager_of (media ∷ [])))) shown

runs_of-tick_example :
    runs_of id (tick (10 * hour + minute) ticked)
    ≡ runs_of id ticked + count_id id (keep (is_due (10 * hour + minute)) ticked.jobs)
runs_of-tick_example =
    runs_of-tick (media ∷ []) ticked (10 * hour + minute) id
      (then_step at_start (ticking (10 * hour) (manager_of (media ∷ []))))
