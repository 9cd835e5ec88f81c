-- ===== src/Examples/Running.antt =====
-- One stage of the plan, with a job that runs.
use Prim.Native.Nat.{max}
use hibernator.Prelude.{
  ◌+◌, ◌≤◌, String, ◌≡◌, ◌↔◌, refl, true, not, ◌||◌, List, [], ◌∷◌, none, arith, length, elem,
  lookup,
}
use hibernator.Prelude.Int.{pos, int32}
use hibernator.Api.{
  PlanPhase, hibernate, pending, running, completed, ExecutionStatus, HibernatePlanStatus,
  ExecutionCycle, ExecutionOperationSummary,
}
use hibernator.Jobs.{Job, is_job_terminal}
use hibernator.Planner.{ExecutionStage}
use hibernator.Execution.{
  get_stage_status, record_summary, build_operation_summary, count_running_jobs_in_stage,
  find_target, find_execution_status, find_failed_upstream, failed_upstream, find_target_type,
  job_exists_for_target,
}
use hibernator.Execution.Progress.{ended, among, is_completed, is_failed, get_stage_status-accounts}
use hibernator.Execution.History.{length-record_summary}
use hibernator.Operation.{execute_for_stage, dispatch_loop, decide}
use hibernator.Operation.Concurrency.{Eligible, execute_for_stage-le}
use hibernator.Operation.Due.{execute_for_stage-Eligible}
use hibernator.Examples.Data.{execution, spec, status_in, job_of, answers}

abbrev executions : List ExecutionStatus
executions = execution "api" pending ∷ execution "db" completed ∷ execution "web" running ∷ []

abbrev status : HibernatePlanStatus
status = status_in PlanPhase.hibernating hibernate executions

abbrev stage : ExecutionStage
stage = record { targets = "api" ∷ "web" ∷ []; max_concurrency = pos 2 }

abbrev jobs : List Job
jobs = job_of "web" 1 ∷ []

get_stage_status-accounts_example :
    let s = get_stage_status executions stage in
    (s.completed_count ≡ among is_completed executions stage.targets)
    × (s.failed_count ≡ among is_failed executions stage.targets)
    × (s.completed_count + s.failed_count ≡ ended executions stage.targets)
    × ((s.all_terminal ≡ true) ↔ (ended executions stage.targets ≡ length stage.targets))
    × ((s.has_running || s.has_pending) ≡ not s.all_terminal)
get_stage_status-accounts_example = get_stage_status-accounts executions stage

abbrev cycle : String → ExecutionCycle
cycle id = record { cycle_id = id; shutdown_execution = none; wakeup_execution = none }

abbrev summary : ExecutionOperationSummary
summary = build_operation_summary status hibernate

abbrev history : List ExecutionCycle
history = cycle "a" ∷ cycle "b" ∷ cycle "c" ∷ cycle "d" ∷ cycle "e" ∷ []

length-record_summary_example : length (record_summary "c1" hibernate summary history) ≤ 5
length-record_summary_example = length-record_summary "c1" hibernate summary history

running_test : count_running_jobs_in_stage jobs stage ≡ 1
unfolding count_running_jobs_in_stage lookup is_job_terminal
running_test = refl

execute_for_stage-le_example :
    count_running_jobs_in_stage jobs stage
      + length (execute_for_stage spec hibernate answers jobs stage status).dispatched
    ≤ max (count_running_jobs_in_stage jobs stage) 2
execute_for_stage-le_example =
    execute_for_stage-le spec hibernate answers jobs stage status 2 refl (omega arith)
      (omega (arith, running_test))

dispatched_test :
    elem "api" (execute_for_stage spec hibernate answers jobs stage status).dispatched ≡ true
unfolding execute_for_stage dispatch_loop decide find_target find_execution_status
    find_failed_upstream failed_upstream find_target_type job_exists_for_target lookup int32
    count_running_jobs_in_stage is_job_terminal
dispatched_test = refl

execute_for_stage-Eligible_example :
    (elem "api" stage.targets ≡ true) × Eligible spec hibernate "c1" jobs executions "api"
execute_for_stage-Eligible_example =
    execute_for_stage-Eligible spec hibernate answers jobs stage status "api" dispatched_test
