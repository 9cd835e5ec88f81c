-- ===== src/Worker/Misses.antt =====
-- When a job that is missed counts as lost.
use hibernator.Prelude.{
  ℕ, suc, ◌+◌, ◌%◌, String, ◌≡◌, ◌↔◌, true, List, [], ◌∷◌, if◌then◌else◌, ◌==◌, eq_iff, eq_refl,
  arith, Map, lookup, lookup-insert, lookup-erase,
}
use hibernator.Api.{PlanPhase}
use hibernator.Plan.Suspension.{is_executing}
use hibernator.Worker.{misses_of, track_consecutive_job_miss, reset_consecutive_job_miss}

-- What a poll finds of a target's job.
pub data Poll : Type 0 where
  missed found : String → Poll

-- The counters after the polls, the last one first.
abbrev pub counters : PlanPhase → List Poll → Map ℕ
counters phase [] = []
counters phase (missed t ∷ polls) = (track_consecutive_job_miss phase t (counters phase polls)).1
counters phase (found t ∷ polls) = reset_consecutive_job_miss t (counters phase polls)

-- How often in a row the job of a target was missed, up to the last poll.
abbrev pub streak : String → List Poll → ℕ
streak target [] = 0
streak target (missed t ∷ polls) =
    if t == target then suc (streak target polls) else streak target polls
streak target (found t ∷ polls) = if t == target then 0 else streak target polls

counters-streak :
    (phase : PlanPhase) (target : String) (polls : List Poll)
    → is_executing phase ≡ true
    → misses_of target (counters phase polls) ≡ streak target polls % 3
unfolding track_consecutive_job_miss reset_consecutive_job_miss lookup
counters-streak phase target [] h = omega arith
counters-streak phase target (missed t ∷ polls) h =
    let m = counters phase polls in
    ground (
      arith,
      h,
      counters-streak phase target polls h,
      eq_iff t target,
      lookup-insert t target (misses_of t m + 1) m,
      lookup-erase t target m,
    )
counters-streak phase target (found t ∷ polls) h =
    ground
      (arith, h, counters-streak phase target polls h, lookup-erase t target (counters phase polls))

-- While a plan hibernates or wakes up, and whatever was polled of other targets between, a target
-- whose job is missed counts as lost exactly at every third miss in a row.
pub track_consecutive_job_miss_iff :
    (phase : PlanPhase) (target : String) (polls : List Poll)
    → is_executing phase ≡ true
    → ((track_consecutive_job_miss phase target (counters phase polls)).0 ≡ true)
      ↔ (streak target (missed target ∷ polls) % 3 ≡ 0)
unfolding track_consecutive_job_miss
track_consecutive_job_miss_iff phase target polls h =
    ground (arith, h, counters-streak phase target polls h, eq_refl target)
