-- ===== src/Audit/Tests.antt =====
-- The log of internal/audit/audit.go, at concrete logs.
use kilasos.Common.{ℕ, ◌*◌, ◌≤◌, ◌<◌, refl, true, [], ◌∷◌, arith, length, All}
use kilasos.Common.Int.{pos}
use kilasos.Common.Time.{day}
use kilasos.Audit.{Entry, Logger, cutoff, time_at, stamp, log_enriched, plain_entry}
use kilasos.Audit.Window.{candidates, IsNewestFirst, Fresh, log_enriched_retention}

abbrev login : Entry
login = plain_entry "ann" "login" "" "10.0.0.7" true

abbrev old : Entry
old = record login { time = day }

abbrev logger : Logger
logger = record { entries = old ∷ []; retention_days = pos 30; anonymize_ip = true }

in_order : IsNewestFirst (candidates (90 * day) login logger)
unfolding IsNewestFirst stamp
in_order = ((omega arith, tt), (tt, tt))

log_enriched_retention_example :
    All (Fresh (cutoff (90 * day) (pos 30))) (log_enriched (90 * day) login logger).entries
    × ((i : ℕ)
        → length (log_enriched (90 * day) login logger).entries ≤ i
        → i < length (candidates (90 * day) login logger)
        → time_at (candidates (90 * day) login logger) i < cutoff (90 * day) (pos 30))
log_enriched_retention_example = log_enriched_retention (90 * day) login logger refl in_order
