-- ===== src/Execution/Progress.antt =====
-- What the status of a stage says of its targets.
use hibernator.Prelude.{
  ℕ, ◌+◌, ◌≤◌, String, ◌≡◌, ◌↔◌, Bool, true, false, List, [], ◌∷◌, Option, some, arith, length, ltb,
  not, ◌||◌, if◌then◌else◌,
}
use hibernator.Api.{ExecutionStatus, ExecutionState, completed, failed, aborted}
use hibernator.Planner.{ExecutionStage}
use hibernator.Execution.{
  StageStatus, state_of, stage_loop, get_stage_status, is_terminal, count_state,
}

-- How many of the targets have ended.
abbrev pub ended : List ExecutionStatus → List String → ℕ
ended executions [] = 0
ended executions (t ∷ ts) =
    (if is_terminal (state_of executions t) then 1 else 0) + ended executions ts

-- How many of the targets are in one of the given states.
abbrev pub is_completed : Option ExecutionState → Bool
is_completed (some completed) = true
is_completed _ = false

abbrev pub is_failed : Option ExecutionState → Bool
is_failed (some failed) = true
is_failed (some aborted) = true
is_failed _ = false

abbrev pub among : (Option ExecutionState → Bool) → List ExecutionStatus → List String → ℕ
among test executions [] = 0
among test executions (t ∷ ts) =
    (if test (state_of executions t) then 1 else 0) + among test executions ts

ended-le : (executions : List ExecutionStatus) (ts : List String) → ended executions ts ≤ length ts
ended-le executions [] = omega arith
ended-le executions (t ∷ ts) = ground (arith, ended-le executions ts)

-- A target that has not ended is running or pending.
abbrev open_flag : StageStatus → Bool
open_flag s = s.has_running || s.has_pending

count_state_counts :
    (o : Option ExecutionState) (s : StageStatus)
    → ((count_state o s).completed_count ≡ s.completed_count + (if is_completed o then 1 else 0))
      × ((count_state o s).failed_count ≡ s.failed_count + (if is_failed o then 1 else 0))
      × (open_flag (count_state o s) ≡ (open_flag s || not (is_terminal o)))
count_state_counts o s = ground arith

-- A target that has ended is completed, or failed or aborted.
ended-among :
    (executions : List ExecutionStatus) (ts : List String)
    → among is_completed executions ts + among is_failed executions ts ≡ ended executions ts
ended-among executions [] = omega arith
ended-among executions (t ∷ ts) = ground (arith, ended-among executions ts)

loop_counts :
    (executions : List ExecutionStatus) (ts : List String) (s : StageStatus) (terminal : ℕ)
    → let r = stage_loop executions ts s terminal in
      (r.1 ≡ terminal + ended executions ts)
      × (r.0.completed_count ≡ s.completed_count + among is_completed executions ts)
      × (r.0.failed_count ≡ s.failed_count + among is_failed executions ts)
      × (open_flag r.0 ≡ (open_flag s || ltb (ended executions ts) (length ts)))
unfolding stage_loop
loop_counts executions [] s terminal = ground arith
loop_counts executions (t ∷ ts) s terminal =
    let o = state_of executions t in
    ground (
      arith,
      count_state_counts o s,
      ended-le executions ts,
      loop_counts executions ts (count_state o s) (terminal + 1),
      loop_counts executions ts (count_state o s) terminal,
    )

-- The status of a stage accounts for every target: the completed count is that of the targets that
-- completed, the failed count that of those that failed or were aborted, both together are those that
-- have ended, `AllTerminal` says that all have, and otherwise, and only then, a target is running or
-- pending.
pub get_stage_status-accounts :
    (executions : List ExecutionStatus) (stage : ExecutionStage)
    → let s = get_stage_status executions stage in
      (s.completed_count ≡ among is_completed executions stage.targets)
      × (s.failed_count ≡ among is_failed executions stage.targets)
      × (s.completed_count + s.failed_count ≡ ended executions stage.targets)
      × ((s.all_terminal ≡ true) ↔ (ended executions stage.targets ≡ length stage.targets))
      × ((s.has_running || s.has_pending) ≡ not s.all_terminal)
unfolding get_stage_status
get_stage_status-accounts executions stage = ground (
  arith,
  ended-le executions stage.targets,
  ended-among executions stage.targets,
  loop_counts executions stage.targets
      (record {
        all_terminal = false;
        has_running = false;
        has_pending = false;
        failed_count = 0;
        completed_count = 0;
      })
      0,
)
