-- ===== src/Examples/Polling.antt =====
-- A job that is missed twice, while another one is found.
use hibernator.Prelude.{◌%◌, ◌≡◌, ◌↔◌, refl, true, List, [], ◌∷◌}
use hibernator.Api.{PlanPhase}
use hibernator.Worker.{track_consecutive_job_miss}
use hibernator.Worker.Misses.{Poll, missed, found, counters, streak, track_consecutive_job_miss_iff}

abbrev polls : List Poll
polls = missed "db" ∷ found "api" ∷ missed "db" ∷ []

track_consecutive_job_miss_iff_example :
    ((track_consecutive_job_miss PlanPhase.hibernating "db"
        (counters PlanPhase.hibernating polls)).0
      ≡ true)
    ↔ (streak "db" (missed "db" ∷ polls) % 3 ≡ 0)
track_consecutive_job_miss_iff_example =
    track_consecutive_job_miss_iff PlanPhase.hibernating "db" polls refl
