-- ===== src/Scheduler.antt =====
-- internal/scheduler/scheduler.go: schedules for snapshots, scrubs and replication; `Backups` has the
-- cron jobs of backups. What is asked of the storage provider and of the replicator is a list of
-- calls; what they answer comes with each run.
pub mod Prune
pub mod Soundness
pub mod Backups
mod Tests
use kilasos.Common.{
  ℕ, zero, suc, ◌+◌, ◌*◌, ◌-◌, String, Bool, true, false, not, ◌&&◌, ◌||◌, Option, none, some, List,
  [], ◌∷◌, ◌++◌, map, length, take, find, update_first, remove_first, keep, ltb, leb, ◌==◌,
  string_eq, bytes_eq, if◌then◌else◌, on_option,
}
use kilasos.Common.Int.{ℤ, pos, negsuc, ltb_ℤ}
use kilasos.Common.Time.{after, add, minute, hour, day}
use kilasos.Auth.Crypto.{Bytes}
use kilasos.Auth.Password.{hex}

pub record Schedule : Type 0 where
  pub id : Bytes
  pub kind : String
  pub pool : String
  pub freq : String
  pub keep : ℤ
  pub enabled : Bool
  pub last_run : ℕ
  pub next_run : ℕ
  pub remote_id : String
  pub remote_name : String

pub record Scheduler : Type 0 where
  pub schedules : List Schedule
  pub file : List Schedule
  pub running : List String

pub data SchedulerError : Type 0 where
  pool_required pool_and_remote_required bad_freq schedule_not_found write_failed : SchedulerError

-- What a call takes from outside: the clock, six random bytes, and whether the file is written.
pub record Env : Type 0 where
  pub now : ℕ
  pub id_bytes : Bytes
  pub writable : Bool

unfoldable pub save : Env → Scheduler → Scheduler × Option SchedulerError
save e s = if e.writable then (record s { file = s.schedules }, none) else (s, some write_failed)

unfoldable pub next_run : String → ℕ → ℕ
next_run freq from =
    if freq == "hourly"
    then from + hour
    else if freq == "weekly"
    then from + 7 * 24 * hour
    else from + 24 * hour

abbrev pub known_freq : String → Bool
known_freq freq = freq == "hourly" || freq == "daily" || freq == "weekly"

abbrev new_schedule : Env → String → String → Schedule
new_schedule e pool freq = record {
  id = hex e.id_bytes;
  kind = "";
  pool = pool;
  freq = freq;
  keep = pos 0;
  enabled = true;
  last_run = 0;
  next_run = next_run freq e.now;
  remote_id = "";
  remote_name = "";
}

abbrev pub Added : Type 0
Added = Scheduler × Option SchedulerError

-- The schedule stays in memory where the file cannot be written.
unfoldable pub append : Env → Schedule → Scheduler → Added
append e sc s = save e (record s { schedules = s.schedules ++ (sc ∷ []) })

abbrev pub keep_or_7 : ℤ → ℤ
keep_or_7 count = if not (ltb_ℤ (pos 0) count) then pos 7 else count

unfoldable pub add_snapshot : Env → String → String → ℤ → Scheduler → Added
add_snapshot e pool freq count s =
    if pool == ""
    then (s, some pool_required)
    else if not (known_freq freq)
    then (s, some bad_freq)
    else append e (record (new_schedule e pool freq) { keep = keep_or_7 count }) s

unfoldable pub add_replication : Env → String → String → String → String → Scheduler → Added
add_replication e pool remote_id remote_name freq s =
    if pool == "" || remote_id == ""
    then (s, some pool_and_remote_required)
    else if not (known_freq freq)
    then (s, some bad_freq)
    else append e
        (record (new_schedule e pool freq) { remote_id = remote_id; remote_name = remote_name }) s

unfoldable pub add_scrub : Env → String → String → Scheduler → Added
add_scrub e pool freq s =
    if pool == ""
    then (s, some pool_required)
    else if not (known_freq freq)
    then (s, some bad_freq)
    else append e (record (new_schedule e pool freq) { kind = "scrub" }) s

abbrev pub has_id : Bytes → Schedule → Bool
has_id id sc = sc.id == id

unfoldable pub delete : Env → Bytes → Scheduler → Added
delete e id s =
    on_option (find (has_id id) s.schedules) (s, some schedule_not_found)
      (λ _. save e (record s { schedules = remove_first (has_id id) s.schedules }))

abbrev switch : Env → Bool → Schedule → Schedule
switch e enabled sc =
    if enabled
    then record sc { enabled = enabled; next_run = next_run sc.freq e.now }
    else record sc { enabled = enabled }

unfoldable pub set_enabled : Env → Bytes → Bool → Scheduler → Added
set_enabled e id enabled s =
    on_option (find (has_id id) s.schedules) (s, some schedule_not_found)
      (λ _.
        save e (record s { schedules = update_first (has_id id) (switch e enabled) s.schedules }))

unfoldable pub schedules_for_pool : String → Scheduler → List Schedule
schedules_for_pool pool s = keep (λ (sc : Schedule). sc.pool == pool) s.schedules

-- The schedules that a tick starts.
abbrev pub is_due : ℕ → Schedule → Bool
is_due now sc = sc.enabled && after now sc.next_run

unfoldable pub due : ℕ → Scheduler → List Schedule
due now s = keep (is_due now) s.schedules

pub record Snapshot : Type 0 where
  pub name : Bytes
  pub created : ℕ

-- What is asked of the provider and of the replicator.
pub data Call : Type 0 where
  start_send : String → String → Call
  start_scrub : String → Call
  create_snapshot : String → Bytes → Call
  list_snapshots : String → Call
  delete_snapshot : String → Bytes → Call

abbrev pub auto_prefix : Bytes
auto_prefix = 97 ∷ 117 ∷ 116 ∷ 111 ∷ 45 ∷ []

abbrev pub is_auto : Snapshot → Bool
is_auto snap = take 5 snap.name == auto_prefix

unfoldable pub insert_by_created : Snapshot → List Snapshot → List Snapshot
insert_by_created x [] = x ∷ []
insert_by_created x (y ∷ ys) =
    let rest = insert_by_created x ys in if leb x.created y.created then x ∷ y ∷ ys else y ∷ rest

-- `sort.Slice` by `Created`; it leaves the order of equal times open.
unfoldable pub sort_by_created : List Snapshot → List Snapshot
sort_by_created [] = []
sort_by_created (x ∷ xs) = insert_by_created x (sort_by_created xs)

-- `for len(auto) > sc.Keep`
unfoldable pub prune_loop : String → ℤ → List Snapshot → List Call
prune_loop pool count [] = []
prune_loop pool count (x ∷ xs) =
    let rest = prune_loop pool count xs in
    if ltb_ℤ count (pos (length (x ∷ xs))) then delete_snapshot pool x.name ∷ rest else []

-- `prune`, of what `Snapshots` answers.
unfoldable pub prune : String → ℤ → Option (List Snapshot) → List Call
prune pool count listed =
    on_option listed [] (λ snaps. prune_loop pool count (sort_by_created (keep is_auto snaps)))

-- What a run takes from outside.
pub record RunEnv : Type 0 where
  pub started : ℕ
  pub finished : ℕ
  pub writable : Bool
  pub has_sender : Bool
  pub created : Bool
  pub listed : Option (List Snapshot)
  pub stamp : Bytes

abbrev pub kind_of : Schedule → String
kind_of sc =
    if sc.kind == ""
    then (if not (sc.remote_id == "") then "replication" else "snapshot")
    else sc.kind

-- The new times, in the schedule of that id if it is still there.
unfoldable pub reschedule : RunEnv → Schedule → Scheduler → Scheduler
reschedule e sc s =
    (save (record { now = e.finished; id_bytes = []; writable = e.writable })
      (record s {
        schedules =
            update_first (has_id sc.id)
              (λ t. record t { last_run = e.finished; next_run = next_run sc.freq e.finished })
              s.schedules;
      })).0

unfoldable pub run : RunEnv → Schedule → Scheduler → Scheduler × List Call
run e sc s =
    if kind_of sc == "replication"
    then (reschedule e sc s, if e.has_sender then start_send sc.pool sc.remote_id ∷ [] else [])
    else if kind_of sc == "scrub"
    then (reschedule e sc s, start_scrub sc.pool ∷ [])
    else let create = create_snapshot sc.pool (auto_prefix ++ e.stamp) in
      if not e.created then (s, create ∷ []) else (
        reschedule e sc s,
        create
            ∷ (if ltb_ℤ (pos 0) sc.keep
                then list_snapshots sc.pool ∷ prune sc.pool sc.keep e.listed
                else []),
      )
