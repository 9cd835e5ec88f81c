-- ===== src/Worker.antt =====
-- The worker's own state, internal/provider/processor/plan/worker.go: how often in a row the job of
-- a target was missed, and the plan it keeps when a delivery arrives.
pub mod Misses
pub mod Timers
pub mod Loop
use hibernator.Prelude.{
  ℕ, ◌+◌, String, Bool, true, false, not, Option, none, some, if◌then◌else◌, leb, Map, lookup,
  insert, erase,
}
use hibernator.Api.{PlanPhase, HibernatePlan}
use hibernator.Plan.Suspension.{is_executing}

abbrev pub consecutive_job_miss_threshold : ℕ
consecutive_job_miss_threshold = 3

-- `consecutiveJobMisses[target]`
abbrev pub misses_of : String → Map ℕ → ℕ
misses_of target misses = elim (lookup target misses) [ none ↦ 0 | some n ↦ n ]

-- `trackConsecutiveJobMiss`
unfoldable pub track_consecutive_job_miss : PlanPhase → String → Map ℕ → Bool × Map ℕ
track_consecutive_job_miss phase target misses =
    if not (is_executing phase)
    then (false, misses)
    else let n = misses_of target misses + 1 in
      if leb consecutive_job_miss_threshold n
      then (true, erase target misses)
      else (false, insert target n misses)

-- `resetConsecutiveJobMiss`
unfoldable pub reset_consecutive_job_miss : String → Map ℕ → Map ℕ
reset_consecutive_job_miss target misses = erase target misses

-- `mergeIncoming`: the status in memory goes on.
unfoldable pub merge_incoming : Option HibernatePlan → HibernatePlan → HibernatePlan
merge_incoming none incoming = incoming
merge_incoming (some cached) incoming = record incoming { status = cached.status }
