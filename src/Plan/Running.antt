-- ===== src/Plan/Running.antt =====
-- Plans that are Hibernating or WakingUp: `execute` of
-- internal/provider/processor/plan/state/state_execution.go, state_hibernating.go and
-- state_wakingup.go. Where the effective plan is a copy, an aborted target is written to the copy and to
-- the API server, not to the plan in memory (`pruneTarget` sends the copy).
use hibernator.Prelude.{
  ℕ, zero, suc, ◌+◌, String, Bool, true, false, not, ◌&&◌, ◌||◌, List, [], ◌∷◌, Option, none, some,
  if◌then◌else◌, ◌==◌, erase, elem, ltb, get_elem?,
}
use hibernator.Prelude.Int.{pos}
use hibernator.Api.{
  PlanPhase, PlanOperation, no_operation, hibernate, wakeup, ExecutionStatus, HibernatePlan,
  HibernatePlanStatus, HibernatePlanSpec, failed,
}
use hibernator.Jobs.{Job}
use hibernator.Planner.{ExecutionStage}
use hibernator.Execution.{
  StageStatus, get_stage_status, is_operation_complete, has_execution_progress,
  build_operation_summary, record_summary, execution_states_equal, snapshot_execution_states,
}
use hibernator.Operation.{
  Dispatch, HandlerError, transient_error, operation_mismatch, runtime_validation_failed,
  build_plan_failed, targets_failed, is_strict, build_execution_plan, update_execution_statuses,
  execute_for_stage,
}
use hibernator.Plan.{
  World, Outcome, StateResult, quiet, poll_after, done, fail, with_status, next_stage, on_error,
  is_plan_error, annotation_suspended_at_phase, requeue_interval_during_stage,
}
use hibernator.Plan.Effective.{effective_spec, valid_runtime_overrides}

abbrev is_no_operation : PlanOperation → Bool
is_no_operation no_operation = true
is_no_operation _ = false

-- `getCurrentCycleJobs`
unfoldable pub get_current_cycle_jobs : World → HibernatePlanStatus → Option (List Job)
get_current_cycle_jobs world status =
    if status.current_cycle_id == "" || is_no_operation status.current_operation
    then some []
    else world.jobs

abbrev is_failed_in : List String → ExecutionStatus → Bool
is_failed_in targets e = elim (e.state) [ failed ↦ elem e.target targets | _ ↦ false ]

unfoldable pub failed_targets : List String → List ExecutionStatus → List String
failed_targets targets [] = []
failed_targets targets (e ∷ es) =
    let rest = failed_targets targets es in if is_failed_in targets e then e.target ∷ rest else rest

-- What a pass decides, before it is carried out.
pub data Step : Type 0 where
  finalize_now : Step
  give_up : HandlerError → Step
  advance : ℕ → ExecutionStage → Step
  fill : ExecutionStage → Step
  wait : Step

abbrev step_beyond : List ExecutionStage → ℕ → Step
step_beyond stages next = elim (get_elem? stages next) [
  | none ↦ finalize_now
  | some stage ↦ advance next stage
]

abbrev step_in :
    HibernatePlanSpec
    → HibernatePlanStatus
    → List ExecutionStage
    → ExecutionStage
    → StageStatus
    → Step
step_in spec status stages stage s =
    if s.all_terminal
    then if ltb 0 s.failed_count && is_strict spec.behavior.mode
      then give_up (targets_failed (failed_targets stage.targets status.executions))
      else step_beyond stages (status.current_stage_index + 1)
    else if s.has_pending
    then fill stage
    else wait

-- The tests of `execute` from the stage index on, in their order.
unfoldable pub next_step : HibernatePlanSpec → HibernatePlanStatus → List ExecutionStage → Step
unfolding failed_targets
next_step spec status stages = elim (get_elem? stages status.current_stage_index) [
  | none ↦ finalize_now
  | some stage ↦ step_in spec status stages stage (get_stage_status status.executions stage)
]

abbrev pub final_phase : PlanOperation → PlanPhase → PlanPhase
final_phase hibernate phase = PlanPhase.hibernated
final_phase wakeup phase = PlanPhase.active
final_phase no_operation phase = phase

-- `finalize` up to `postWakeupCleanup`.
unfoldable pub finalize_status : World → PlanOperation → HibernatePlanStatus → HibernatePlanStatus
finalize_status world operation status = record status {
  phase = final_phase operation status.phase;
  last_transition_time = some world.now;
  execution_history =
      record_summary status.current_cycle_id operation (build_operation_summary status operation)
        status.execution_history;
  retry_count = pos 0;
  last_retry_time = none;
  error_message = "";
}

-- `postWakeupCleanup`
unfoldable pub post_wakeup_cleanup : World → HibernatePlan → HibernatePlan
post_wakeup_cleanup world plan =
    if world.all_restored && world.unlocks
    then record plan { annotations = erase annotation_suspended_at_phase plan.annotations }
    else plan

abbrev cleanup : World → PlanOperation → HibernatePlan → HibernatePlan
cleanup world wakeup plan = post_wakeup_cleanup world plan
cleanup world _ plan = plan

-- `finalize`
unfoldable pub finalize : World → PlanOperation → HibernatePlan → HibernatePlan
unfolding finalize_status post_wakeup_cleanup
finalize world operation plan =
    if is_operation_complete plan.status.executions
    then cleanup world operation (with_status plan (finalize_status world operation plan.status))
    else plan

abbrev pub copies : Option HibernatePlanSpec → Bool
copies none = false
copies (some spec) = true

abbrev pub spec_or : Option HibernatePlanSpec → HibernatePlanSpec → HibernatePlanSpec
spec_or none spec = spec
spec_or (some spec') spec = spec'

abbrev pub with_executions : List ExecutionStatus → HibernatePlan → HibernatePlan
with_executions executions plan = with_status plan (record plan.status { executions = executions })

-- The executions of a dispatch, in the plan in memory unless the effective plan is a copy.
abbrev pub shared : Bool → List ExecutionStatus → HibernatePlan → HibernatePlan
shared copied executions plan = if copied then plan else with_executions executions plan

abbrev pub dispatched : Bool → HibernatePlan → Dispatch → Outcome
dispatched copied plan d = elim (d.error) [
  | none ↦ done (shared copied d.executions plan) (poll_after requeue_interval_during_stage)
  | some e ↦ fail (shared copied d.executions plan) e
]

abbrev pub sent_status : Bool → HibernatePlanStatus → ℕ → HibernatePlanStatus
sent_status copied status index =
    if copied then status else record status { current_stage_index = index }

-- `execute` from the step on. `plan` is in memory, `spec` and `status` are the effective plan's.
unfoldable pub carry_out :
    World
    → PlanOperation
    → Bool
    → HibernatePlanSpec
    → HibernatePlanStatus
    → List Job
    → HibernatePlan
    → Step
    → Outcome
unfolding finalize
carry_out world op copied spec status jobs plan finalize_now = done (finalize world op plan) quiet
carry_out world op copied spec status jobs plan (give_up e) = fail plan e
carry_out world op copied spec status jobs plan (advance index stage) =
    dispatched copied (next_stage index plan)
      (execute_for_stage spec op world.answers jobs stage (sent_status copied status index))
carry_out world op copied spec status jobs plan (fill stage) =
    dispatched copied plan (execute_for_stage spec op world.answers jobs stage status)
carry_out world op copied spec status jobs plan wait =
    done plan (poll_after requeue_interval_during_stage)

abbrev is_zero_index : ℕ → Bool
is_zero_index zero = true
is_zero_index (suc n) = false

-- The plan in memory after `updateExecutionStatuses`: a copy's executions reach it if they changed
-- in a way that is written to the API server.
unfoldable pub observed : Bool → List ExecutionStatus → HibernatePlan → HibernatePlan
observed copied executions plan =
    if copied
      && execution_states_equal (snapshot_execution_states plan.status.executions) executions
    then plan
    else with_executions executions plan

-- `execute` from the validation on.
unfoldable pub execute_jobs :
    World → PlanOperation → Bool → Option HibernatePlanSpec → List Job → HibernatePlan → Outcome
unfolding carry_out next_step observed
execute_jobs world operation reverse effective jobs plan =
    let spec = spec_or effective plan.spec in
    let status = update_execution_statuses world.answers jobs plan.status in
    let plan' = observed (copies effective) status.executions plan in
    if is_zero_index status.current_stage_index && not (valid_runtime_overrides world spec status)
    then fail plan' runtime_validation_failed
    else elim (build_execution_plan spec reverse) [
      | none ↦ fail plan' build_plan_failed
      | some execution_plan ↦
          carry_out world operation (copies effective) spec status jobs plan'
            (next_step spec status execution_plan.stages)
    ]

-- `execute`
unfoldable pub execute : World → PlanOperation → Bool → HibernatePlan → Outcome
unfolding execute_jobs
execute world operation reverse plan = elim (get_current_cycle_jobs world plan.status) [
  | none ↦ fail plan transient_error
  | some jobs ↦ execute_jobs world operation reverse (effective_spec world plan) jobs plan
]

-- `hibernatingState.Handle` and `wakingUpState.Handle`
unfoldable pub handle_hibernating : World → HibernatePlan → Outcome
unfolding execute
handle_hibernating world plan = elim (plan.status.current_operation) [
  | hibernate ↦ execute world hibernate false plan
  | _ ↦ fail plan operation_mismatch
]

unfoldable pub handle_waking_up : World → HibernatePlan → Outcome
unfolding execute
handle_waking_up world plan = elim (plan.status.current_operation) [
  | wakeup ↦ execute world wakeup true plan
  | _ ↦ fail plan operation_mismatch
]

abbrev with_partial_history : PlanOperation → HibernatePlan → HibernatePlan
with_partial_history operation plan = with_status plan (record plan.status {
  execution_history =
      record_summary plan.status.current_cycle_id operation
        (build_operation_summary plan.status operation) plan.status.execution_history;
})

-- `OnError` of the two.
unfoldable pub on_execution_error :
    World → PlanOperation → HandlerError → HibernatePlan → HibernatePlan × StateResult
on_execution_error world operation e plan = on_error world e (
    if is_plan_error e && has_execution_progress plan.status.executions
    then with_partial_history operation plan
    else plan)
