-- ===== src/Samples/Runs.antt =====
-- Runs of the definitions.
use evolve_loop.Base.{◌≡◌, refl, none, some, nat_eq}
use evolve_loop.Scheduler.Timeout.{parse_timeout_ms}

half_hour : parse_timeout_ms (some "30m") ≡ some 1800000
unfolding parse_timeout_ms nat_eq
half_hour = refl

no_unit : parse_timeout_ms (some "30") ≡ none
unfolding parse_timeout_ms nat_eq
no_unit = refl
