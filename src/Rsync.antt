-- ===== src/Rsync.antt =====
-- internal/rsync/manager.go: copy jobs that run rsync. A run is a goroutine; it holds a pointer to
-- the status of its job, and a later run of the same job gets a status of its own. The statuses
-- are cells of a heap, each with the goroutine that works on it.
pub mod Statuses
pub mod Ticks
mod Tests
use kilasos.Common.{
  ℕ, ◌+◌, ◌-◌, ◌*◌, String, Bool, true, false, not, ◌&&◌, ◌||◌, Option, none, some, List, [], ◌∷◌,
  ◌++◌, Dict, lookup, insert, length, drop, find, update_first, remove_first, keep, ltb, ◌==◌,
  nat_eq, string_eq, bytes_eq, if◌then◌else◌, on_option,
}
use kilasos.Common.Time.{after, hour}
use kilasos.Auth.Crypto.{Bytes}
use kilasos.Auth.Password.{hex}

pub record Job : Type 0 where
  pub id : Bytes
  pub name : String
  pub source : Bytes
  pub destination : Bytes
  pub freq : String
  pub enabled : Bool
  pub delete_extra : Bool
  pub last_run : ℕ
  pub next_run : ℕ

pub record JobStatus : Type 0 where
  pub job_id : Bytes
  pub running : Bool
  pub started : ℕ
  pub lines : List Bytes
  pub exit_err : String
  pub is_done : Bool

-- `worker` is the job of the goroutine that still runs on the status.
pub record Cell : Type 0 where
  pub status : JobStatus
  pub worker : Option Job

pub record Manager : Type 0 where
  pub jobs : List Job
  pub file : List Job
  pub statuses : Dict Bytes ℕ
  pub cells : Dict ℕ Cell
  pub next_cell : ℕ

pub data RsyncError : Type 0 where
  fields_required job_not_found write_failed : RsyncError

-- What a call takes from outside: the clock, six random bytes, and whether the file is written.
pub record Env : Type 0 where
  pub now : ℕ
  pub id_bytes : Bytes
  pub writable : Bool

abbrev pub manager_of : List Job → Manager
manager_of jobs = record { jobs = jobs; file = jobs; statuses = []; cells = []; next_cell = 0 }

-- `NewManager`, of what the file holds; none where it cannot be read or parsed.
unfoldable pub new_manager : Option (List Job) → Option Manager
new_manager none = none
new_manager (some jobs) = some (manager_of jobs)

unfoldable pub save : Env → Manager → Manager × Option RsyncError
save e m = if e.writable then (record m { file = m.jobs }, none) else (m, some write_failed)

unfoldable pub next_run : String → ℕ → ℕ
next_run freq from =
    if freq == "hourly"
    then from + hour
    else if freq == "weekly"
    then from + 7 * 24 * hour
    else from + 24 * hour

-- The arguments of the command: the source gets a slash at its end.
unfoldable pub with_slash : Bytes → Bytes
with_slash [] = b'/' ∷ []
with_slash (c ∷ []) = if c == b'/' then c ∷ [] else c ∷ b'/' ∷ []
with_slash (c ∷ d ∷ rest) = c ∷ with_slash (d ∷ rest)

-- "-avz", "--progress" and "--delete"
abbrev pub avz : Bytes
avz = b'-' ∷ b'a' ∷ b'v' ∷ b'z' ∷ []

abbrev pub progress : Bytes
progress = b'-' ∷ b'-' ∷ b'p' ∷ b'r' ∷ b'o' ∷ b'g' ∷ b'r' ∷ b'e' ∷ b's' ∷ b's' ∷ []

abbrev pub delete_flag : Bytes
delete_flag = b'-' ∷ b'-' ∷ b'd' ∷ b'e' ∷ b'l' ∷ b'e' ∷ b't' ∷ b'e' ∷ []

unfoldable pub rsync_args : Job → List Bytes
unfolding with_slash
rsync_args j =
    let flags = avz ∷ progress ∷ (if j.delete_extra then delete_flag ∷ [] else []) in
    flags ++ (with_slash j.source ∷ j.destination ∷ [])

abbrev pub new_cell : ℕ → Job → Cell
new_cell now j = record {
  status = record {
    job_id = j.id;
    running = true;
    started = now;
    lines = [];
    exit_err = "";
    is_done = false;
  };
  worker = some j;
}

-- The first part of `run`.
unfoldable pub begin_run : ℕ → Job → Manager → Manager
begin_run now j m = record m {
  statuses = insert j.id m.next_cell m.statuses;
  cells = insert m.next_cell (new_cell now j) m.cells;
  next_cell = m.next_cell + 1;
}

-- The last 500 lines.
abbrev pub last_500 : List Bytes → List Bytes
last_500 lines = if ltb 500 (length lines) then drop (length lines - 500) lines else lines

abbrev pub with_line : Bytes → Cell → Cell
with_line line c = record c {
  status = record c.status { lines = last_500 (c.status.lines ++ (line ∷ [])) };
}

abbrev pub ended : Option String → Cell → Cell
ended err c = record c {
  status = record c.status {
    running = false;
    is_done = true;
    exit_err = on_option err c.status.exit_err (λ text. text);
  };
  worker = none;
}

-- One round of the loop over the output.
unfoldable pub read_line : ℕ → Bytes → Cell → Manager → Manager
read_line at line c m = record m { cells = insert at (with_line line c) m.cells }

-- The last part of `run`; `err` is the error of the command, and `j` the job as it was at the start.
unfoldable pub end_run : Env → ℕ → Option String → Job → Cell → Manager → Manager
unfolding save
end_run e at err j c m =
    let told = record m {
      cells = insert at (ended err c) m.cells;
      jobs =
          update_first (λ k. k.id == j.id)
            (λ k. record k { last_run = e.now; next_run = next_run j.freq e.now }) m.jobs;
    } in
    (save e told).0

abbrev pub is_due : ℕ → Job → Bool
is_due now j = j.enabled && after now j.next_run

unfoldable pub begin_all : ℕ → List Job → Manager → Manager
begin_all now [] m = m
begin_all now (j ∷ jobs) m = begin_all now jobs (begin_run now j m)

-- `tick`; the goroutines that it makes are taken to start in order.
unfoldable pub tick : ℕ → Manager → Manager
tick now m = begin_all now (keep (is_due now) m.jobs) m

unfoldable pub jobs_view : Manager → List Job
jobs_view m = m.jobs

abbrev pub known_freq : String → Bool
known_freq freq = freq == "hourly" || freq == "daily" || freq == "weekly"

unfoldable pub add : Env → Job → Manager → Manager × Option RsyncError
unfolding save
add e j m =
    if j.name == "" || j.source == [] || j.destination == []
    then (m, some fields_required)
    else let freq = if not (known_freq j.freq) then "daily" else j.freq in
      let new = record j {
        freq = freq;
        id = hex e.id_bytes;
        enabled = true;
        next_run = next_run freq e.now;
      } in
      save e (record m { jobs = m.jobs ++ (new ∷ []) })

unfoldable pub delete : Env → Bytes → Manager → Manager × Option RsyncError
unfolding save
delete e id m =
    on_option (find (λ j. j.id == id) m.jobs) (m, some job_not_found)
      (λ _. save e (record m { jobs = remove_first (λ j. j.id == id) m.jobs }))

abbrev switched : ℕ → Bool → Job → Job
switched now enabled j = record j {
  enabled = enabled;
  next_run = if enabled then next_run j.freq now else j.next_run;
}

unfoldable pub set_enabled : Env → Bytes → Bool → Manager → Manager × Option RsyncError
unfolding save
set_enabled e id enabled m =
    on_option (find (λ j. j.id == id) m.jobs) (m, some job_not_found)
      (λ _.
        save e (record m { jobs = update_first (λ j. j.id == id) (switched e.now enabled) m.jobs }))

unfoldable pub run_now : ℕ → Bytes → Manager → Manager × Option RsyncError
run_now now id m =
    on_option (find (λ j. j.id == id) m.jobs) (m, some job_not_found)
      (λ j. (begin_run now j m, none))

unfoldable pub status_of : Bytes → Manager → Option JobStatus
status_of id m =
    on_option (lookup id m.statuses) none
      (λ at. on_option (lookup at m.cells) none (λ c. some c.status))
