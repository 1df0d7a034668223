-- ===== src/Auth/BruteForce.antt =====
-- internal/auth/bruteforce.go: failed logins counted by address and by user name, with bans.
-- The lock makes each method one step. `now` is what `time.Now()` returns in the call. The
-- commands that a method hands to fail2ban-client are recorded in the state.
pub mod Lockout
mod Tests
use kilasos.Common.{
  ℕ, ◌+◌, ◌-◌, ◌/◌, String, Bool, true, false, Option, none, some, List, [], ◌∷◌, ◌++◌, map, Dict,
  lookup, insert, delete, ltb, leb, ◌==◌, string_eq, nat_eq, if◌then◌else◌,
}
use kilasos.Common.Int.{ℤ, pos, negsuc, pos_part, ltb_ℤ, times}
use kilasos.Common.Time.{minute, before, sub, add, Stamp, absent, format}

-- `ipAttempts`; the zero time stands for "no ban"
pub record Attempts : Type 0 where
  pub count : ℕ
  pub first_failed : ℕ
  pub last_failed : ℕ
  pub banned_until : ℕ

pub data Command : Type 0 where
  banip unbanip : String → Command

pub record BruteForceTracker : Type 0 where
  pub attempts : Dict String Attempts
  pub username_attempts : Dict String Attempts
  pub max_attempts : ℕ
  pub window_duration : ℤ
  pub ban_duration : ℤ
  pub fail2ban : List Command

-- The key of an entry of `Stats`: a user's has the prefix "user:".
pub data StatsKey : Type 0 where
  ip user : String → StatsKey

pub record BruteForceStats : Type 0 where
  pub key : StatsKey
  pub failed_count : ℕ
  pub last_failed : Stamp
  pub banned_until : Stamp

abbrev pub new_tracker : BruteForceTracker
new_tracker = record {
  attempts = [];
  username_attempts = [];
  max_attempts = 5;
  window_duration = pos (600_000_000_000);
  ban_duration = pos (1_800_000_000_000);
  fail2ban = [];
}

-- The entry that a failure is counted in: the old one, or a new one where there is none or its
-- window has passed.
unfoldable pub current : ℤ → ℕ → Option Attempts → Attempts
current window now none = record {
  count = 0;
  first_failed = now;
  last_failed = 0;
  banned_until = 0;
}
current window now (some a) =
    if ltb_ℤ window (sub now a.first_failed)
    then record { count = 0; first_failed = now; last_failed = 0; banned_until = 0 }
    else a

-- `a.Count++; a.LastFailed = now`, and the ban when the count has reached the limit
unfoldable pub count_failure : BruteForceTracker → ℕ → Option Attempts → Attempts
unfolding current
count_failure b now found =
    let a = current b.window_duration now found in
    let n = a.count + 1 in
    record a {
      count = n;
      last_failed = now;
      banned_until = if leb b.max_attempts n then add now b.ban_duration else a.banned_until;
    }

unfoldable pub record_failure : ℕ → String → BruteForceTracker → BruteForceTracker × Bool × ℕ
unfolding count_failure
record_failure now addr b =
    if addr == ""
    then (b, false, b.max_attempts)
    else let a = count_failure b now (lookup addr b.attempts) in
      let b' = record b { attempts = insert addr a b.attempts } in
      if leb b.max_attempts a.count
      then (record b' { fail2ban = banip addr ∷ b.fail2ban }, true, 0)
      else (b', false, b.max_attempts - a.count)

abbrev banned_entry : ℕ → Option Attempts → Bool
banned_entry now none = false
banned_entry now (some a) = before now a.banned_until

unfoldable pub is_banned : ℕ → String → BruteForceTracker → Bool
is_banned now addr b = if addr == "" then false else banned_entry now (lookup addr b.attempts)

unfoldable pub record_success : String → BruteForceTracker → BruteForceTracker
record_success addr b = if addr == "" then b else record b { attempts = delete addr b.attempts }

unfoldable pub record_username_failure : ℕ → String → BruteForceTracker → BruteForceTracker × Bool
unfolding count_failure
record_username_failure now username b =
    if username == ""
    then (b, false)
    else let a = count_failure b now (lookup username b.username_attempts) in
      (
        record b { username_attempts = insert username a b.username_attempts },
        leb b.max_attempts a.count,
      )

unfoldable pub is_username_banned : ℕ → String → BruteForceTracker → Bool
is_username_banned now username b =
    if username == "" then false else banned_entry now (lookup username b.username_attempts)

unfoldable pub record_username_success : String → BruteForceTracker → BruteForceTracker
record_username_success username b =
    if username == ""
    then b
    else record b { username_attempts = delete username b.username_attempts }

unfoldable pub unban_ip : String → BruteForceTracker → BruteForceTracker
unban_ip addr b = record b {
  attempts = delete addr b.attempts;
  fail2ban = unbanip addr ∷ b.fail2ban;
}

make_stats_entry : StatsKey → Attempts → BruteForceStats
make_stats_entry key a = record {
  key = key;
  failed_count = a.count;
  last_failed = format a.last_failed;
  banned_until = if a.banned_until == 0 then absent else format a.banned_until;
}

unfoldable pub stats : BruteForceTracker → List BruteForceStats
unfolding make_stats_entry
stats b =
    map (λ e. make_stats_entry (ip e.0) e.1) b.attempts
    ++ map (λ e. make_stats_entry (user e.0) e.1) b.username_attempts

-- A limit that is not positive is left as it was; minutes become a `Duration` at `int64`.
unfoldable pub set_thresholds : ℤ → ℤ → ℤ → BruteForceTracker → BruteForceTracker
unfolding times
set_thresholds max_attempts window_minutes ban_minutes b = record b {
  max_attempts = if ltb_ℤ (pos 0) max_attempts then pos_part max_attempts else b.max_attempts;
  window_duration =
      if ltb_ℤ (pos 0) window_minutes then times window_minutes minute else b.window_duration;
  ban_duration = if ltb_ℤ (pos 0) ban_minutes then times ban_minutes minute else b.ban_duration;
}

-- `int(d.Minutes())`, which drops the fraction
abbrev in_minutes : ℤ → ℤ
in_minutes (pos n) = pos (n / minute)
in_minutes (negsuc n) = if ltb (n + 1) minute then pos 0 else negsuc ((n + 1) / minute - 1)

unfoldable pub get_thresholds : BruteForceTracker → ℕ × ℤ × ℤ
get_thresholds b = (b.max_attempts, in_minutes b.window_duration, in_minutes b.ban_duration)
