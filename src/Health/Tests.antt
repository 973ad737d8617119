-- ===== src/Health/Tests.antt =====
-- A provider that fails three times, and recovers.
use mootd.Prelude.{◌+◌, ◌≡◌, refl, true, false, not, ◌&&◌, none, [], ◌∷◌, List, leb}
use mootd.Health.{is_healthy, record_success, record_failure, new_health_tracker, entry}
use mootd.Health.History.{
  Event, succeeded, failed, asked, run, trailing_failures, last_failure_of, is_healthy_history,
}

abbrev outage : List Event
outage =
    failed 30 "claude" none
    ∷ asked 25 "claude"
    ∷ failed 20 "claude" none
    ∷ succeeded 15 "openai"
    ∷ failed 10 "claude" none
    ∷ []

skipped : (is_healthy 60_000_000_030 (run (λ e. []) outage) "claude").0 ≡ false
unfolding run is_healthy record_success record_failure new_health_tracker entry
skipped = refl

back : (is_healthy 60_000_000_031 (run (λ e. []) outage) "claude").0 ≡ true
unfolding run is_healthy record_success record_failure new_health_tracker entry
back = refl

is_healthy_history_example :
    (is_healthy 40 (run (λ e. []) outage) "claude").0
    ≡ not (
        leb 3 (trailing_failures "claude" outage)
        && leb 40 (last_failure_of "claude" outage + 60_000_000_000))
is_healthy_history_example = is_healthy_history (λ e. []) "claude" 40 outage
