-- ===== src/Audit.antt =====
-- internal/audit/audit.go: the log of what was done, newest entry first. The file is written by
-- goroutines of its own and is left out.
pub mod Window
mod Tests
use kilasos.Common.{
  ℕ, zero, suc, ◌+◌, ◌-◌, ◌*◌, String, Bool, true, false, not, ◌&&◌, ◌||◌, Option, none, some, List,
  [], ◌∷◌, length, take, ltb, leb, ◌==◌, nat_eq, string_eq, if◌then◌else◌,
}
use kilasos.Common.Int.{ℤ, pos, negsuc, pos_part, ltb_ℤ, times}
use kilasos.Common.Time.{before, add, hour}

abbrev pub max_entries : ℕ
max_entries = 1000

-- A time of 0 is the zero time.
pub record Entry : Type 0 where
  pub time : ℕ
  pub user : String
  pub action : String
  pub detail : String
  pub ip : String
  pub ok : Bool
  pub source : String
  pub role : String
  pub user_agent : String
  pub resource : String

pub record Logger : Type 0 where
  pub entries : List Entry
  pub retention_days : ℤ
  pub anonymize_ip : Bool

-- `New`, of the entries that the file holds.
unfoldable pub new_logger : Option (List Entry) → Logger
new_logger none = record { entries = []; retention_days = pos 0; anonymize_ip = false }
new_logger (some old) = record { entries = old; retention_days = pos 0; anonymize_ip = false }

unfoldable pub set_anonymize_ip : Bool → Logger → Logger
set_anonymize_ip v l = record l { anonymize_ip = v }

unfoldable pub set_retention_days : ℤ → Logger → Logger
set_retention_days days l = record l { retention_days = days }

-- `now.Add(-time.Duration(days) * 24 * time.Hour)` for a positive number of days, at `int64`
unfoldable pub cutoff : ℕ → ℤ → ℕ
cutoff now days = add now (times (times (negsuc (pos_part days - 1)) 24) hour)

unfoldable pub time_at : List Entry → ℕ → ℕ
time_at [] i = 0
time_at (x ∷ xs) zero = x.time
time_at (x ∷ xs) (suc i) = time_at xs i

-- `for n > 0 && l.entries[n-1].Time.Before(cutoff) { n-- }`
unfoldable pub fresh_count : ℕ → List Entry → ℕ → ℕ
unfolding time_at
fresh_count limit xs zero = zero
fresh_count limit xs (suc n) =
    let fewer = fresh_count limit xs n in if before (time_at xs n) limit then fewer else suc n

unfoldable pub drop_old : ℕ → List Entry → List Entry
drop_old limit xs = take (fresh_count limit xs (length xs)) xs

-- The time and the address of a new entry.
unfoldable pub stamp : ℕ → Bool → Entry → Entry
stamp now anonymize e =
    let timed = if e.time == 0 then record e { time = now } else e in
    if anonymize && not (e.ip == "") then record timed { ip = "0.0.0.0" } else timed

unfoldable pub log_enriched : ℕ → Entry → Logger → Logger
log_enriched now e l =
    let xs = take max_entries (stamp now l.anonymize_ip e ∷ l.entries) in
    record l {
      entries =
          if ltb_ℤ (pos 0) l.retention_days then drop_old (cutoff now l.retention_days) xs else xs;
    }

-- `Log`: the fields that it is not given are empty.
abbrev pub plain_entry : String → String → String → String → Bool → Entry
plain_entry user action detail ip ok = record {
  time = 0;
  user = user;
  action = action;
  detail = detail;
  ip = ip;
  ok = ok;
  source = "";
  role = "";
  user_agent = "";
  resource = "";
}

unfoldable pub log : ℕ → String → String → String → String → Bool → Logger → Logger
log now user action detail ip ok l = log_enriched now (plain_entry user action detail ip ok) l

unfoldable pub recent : ℤ → Logger → List Entry
recent n l =
    if not (ltb_ℤ (pos 0) n) || ltb_ℤ (pos (length l.entries)) n
    then l.entries
    else take (pos_part n) l.entries
