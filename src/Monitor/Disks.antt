-- ===== src/Monitor/Disks.antt =====
-- pollDisks and pollPools of internal/monitor/monitor.go. What the storage provider answers comes
-- with the poll.
use Prim.Native.String.{◌++◌ as join}
use kilasos.Common.{
  ℕ, String, Bool, false, not, ◌&&◌, Option, none, some, List, [], ◌∷◌, ◌++◌, lookup, insert, ◌==◌,
  string_eq, if◌then◌else◌, on_option,
}
use kilasos.Common.Int.{ℤ, pos, ltb_ℤ}
use kilasos.Monitor.{MonitorConfig, Monitor, Notice, raise_all}

pub record Disk : Type 0 where
  pub name : String
  pub path : String
  pub smart_ok : Bool
  pub temp_celsius : Option ℤ
  pub reallocated_sectors : Option ℤ

-- What `PoolHealth` says of a pool.
pub record Health : Type 0 where
  pub state : String
  pub scrub_state : String
  pub scrub_errors : ℤ

-- An array, and its health, where that was found out.
abbrev pub Pool : Type 0
Pool = String × Option Health

abbrev geq_ℤ : ℤ → ℤ → Bool
geq_ℤ a b = not (ltb_ℤ a b)

-- The state of a disk, as it is kept from poll to poll.
unfoldable pub disk_status : MonitorConfig → Disk → String
disk_status cfg d =
    if not d.smart_ok
    then "smart-fail"
    else if on_option d.temp_celsius false (λ t. geq_ℤ t cfg.temp_crit)
    then "temp-crit"
    else "ok"

module _ (number : ℤ → String) where
  abbrev on_disk : String → String → Disk → String → Notice
  on_disk level message d key = record {
    level = level;
    source = "disk";
    disk = d.name;
    path = d.path;
    message = message;
    key = key;
  }

  abbrev keyed : String → String → String → String
  keyed front name back = join front (join name back)

  abbrev pub smart_notices : Disk → List Notice
  smart_notices d =
      if not d.smart_ok
      then on_disk "crit" "SMART self-test failed" d (keyed "smart:" d.path ":fail") ∷ []
      else []

  abbrev pub temp_notices : MonitorConfig → Disk → List Notice
  temp_notices cfg d = on_option d.temp_celsius [] (λ t.
      if geq_ℤ t cfg.temp_crit
      then on_disk "crit" (keyed "temperature critical: " (number t) "°C") d
          (keyed "temp:" d.path ":crit")
        ∷ []
      else if geq_ℤ t cfg.temp_warn
      then on_disk "warn" (keyed "temperature high: " (number t) "°C") d
          (keyed "temp:" d.path ":warn")
        ∷ []
      else [])

  abbrev pub sector_notices : Disk → List Notice
  sector_notices d = on_option d.reallocated_sectors [] (λ n.
      if ltb_ℤ (pos 0) n
      then on_disk "warn" (join "reallocated sectors: " (number n)) d (join "realloc:" d.path) ∷ []
      else [])

  -- `had && prev != "ok" && cur == "ok"`
  abbrev pub disk_recovery : Option String → String → Disk → List Notice
  disk_recovery prev cur d = on_option prev [] (λ old.
      if not (old == "ok") && cur == "ok"
      then on_disk "info" "SMART and temperature returned to normal" d
          (join "recovery:disk:" d.path)
        ∷ []
      else [])

  unfoldable pub check_disk : ℕ → Disk → Monitor → Monitor
  check_disk now d m =
      let m' =
        raise_all now (smart_notices d ++ (temp_notices m.threshold d ++ sector_notices d)) m in
      let cur = disk_status m.threshold d in
      raise_all now (disk_recovery (lookup d.path m'.disk_state) cur d)
        (record m' { disk_state = insert d.path cur m'.disk_state })

  unfoldable pub check_disks : ℕ → List Disk → Monitor → Monitor
  check_disks now [] m = m
  check_disks now (d ∷ disks) m = check_disks now disks (check_disk now d m)

  unfoldable pub poll_disks : ℕ → Option (List Disk) → Monitor → Monitor
  poll_disks now none m = m
  poll_disks now (some disks) m = check_disks now disks m

  abbrev on_pool : String → String → String → String → Notice
  on_pool level message name key = record {
    level = level;
    source = "pool";
    disk = name;
    path = name;
    message = message;
    key = key;
  }

  abbrev pub state_notices : String → Health → List Notice
  state_notices name h =
      if not (h.state == "") && not (h.state == "online")
      then on_pool "crit" (join "pool state: " h.state) name
          (join "pool:" (join name (join ":state:" h.state)))
        ∷ []
      else []

  abbrev pub scrub_notices : String → Health → List Notice
  scrub_notices name h =
      if h.scrub_state == "completed" && ltb_ℤ (pos 0) h.scrub_errors
      then on_pool "crit" (keyed "scrub completed with " (number h.scrub_errors) " errors") name
          (keyed "pool:" name ":scrub-errors")
        ∷ []
      else []

  abbrev pub pool_status : Health → String
  pool_status h = if h.state == "" then "online" else h.state

  abbrev pub pool_recovery : Option String → String → String → List Notice
  pool_recovery prev cur name = on_option prev [] (λ old.
      if not (old == "online") && cur == "online"
      then on_pool "info" "pool returned to online state" name (join "recovery:pool:" name) ∷ []
      else [])

  unfoldable pub check_pool : ℕ → Pool → Monitor → Monitor
  check_pool now (name, none) m = m
  check_pool now (name, some h) m =
      let m' = raise_all now (state_notices name h ++ scrub_notices name h) m in
      raise_all now (pool_recovery (lookup name m'.pool_state) (pool_status h) name)
        (record m' { pool_state = insert name (pool_status h) m'.pool_state })

  unfoldable pub check_pools : ℕ → List Pool → Monitor → Monitor
  check_pools now [] m = m
  check_pools now (p ∷ pools) m = check_pools now pools (check_pool now p m)

  -- No array, or no answer: nothing is done.
  unfoldable pub poll_pools : ℕ → Option (List Pool) → Monitor → Monitor
  poll_pools now none m = m
  poll_pools now (some pools) m = check_pools now pools m
