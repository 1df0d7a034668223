-- ===== src/Common/Time.antt =====
-- `time.Time` as nanoseconds since the zero time (1 January of year 1), `time.Duration` as an
-- `int64` of nanoseconds. An instant before the zero time is read as the zero time.
use Prim.Native.Nat.{ℕ, suc, ◌+◌, ◌-◌, ◌*◌, ◌/◌}
use mathlib.Core.Bool.{Bool}
use mathlib.Core.Option.{Option, none, some}
use kilasos.Common.Tests.{ltb}
use kilasos.Common.Int.{ℤ, pos, negsuc, sub_ℕ, saturate}

abbrev pub second : ℕ
second = 1_000_000_000

abbrev pub minute : ℕ
minute = 60 * second

abbrev pub hour : ℕ
hour = 60 * minute

abbrev pub day : ℕ
day = 24 * hour

-- `t.After(u)` and `t.Before(u)`
abbrev pub after : ℕ → ℕ → Bool
after t u = ltb u t

abbrev pub before : ℕ → ℕ → Bool
before t u = ltb t u

-- `t.Sub(u)`
unfoldable pub sub : ℕ → ℕ → ℤ
unfolding saturate
sub t u = saturate (sub_ℕ t u)

-- `t.Add(d)`
unfoldable pub add : ℕ → ℤ → ℕ
add t (pos d) = t + d
add t (negsuc d) = t - suc d

-- A string field that holds a time in RFC 3339 form: empty, the form of a second, or a text that
-- does not parse.
pub data Stamp : Type 0 where
  absent malformed : Stamp
  at : ℕ → Stamp

-- `t.UTC().Format(time.RFC3339)` drops the fraction of the second.
abbrev pub format : ℕ → Stamp
format t = at (t / second)

-- `time.Parse(time.RFC3339, s)`
abbrev pub parse : Stamp → Option ℕ
parse absent = none
parse malformed = none
parse (at n) = some (n * second)
