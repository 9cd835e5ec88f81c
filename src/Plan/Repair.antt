-- ===== src/Plan/Repair.antt =====
-- Recovery of a plan in the phase Error: internal/provider/processor/plan/state/state_recovery.go.
-- `relabelStaleFailedJobs` writes to jobs alone, and its errors end nothing.
use hibernator.Prelude.{
  String, Bool, true, false, not, List, map, Option, none, some, if◌then◌else◌, ◌==◌, elem,
  get_elem?,
}
use hibernator.Prelude.Int.{pos, ltb_ℤ}
use hibernator.Api.{
  PlanPhase, PlanOperation, no_operation, hibernate, wakeup, ExecutionStatus, pending, failed,
  HibernatePlan, HibernatePlanStatus,
}
use hibernator.Planner.{ExecutionPlan, ExecutionStage}
use hibernator.Recovery.{Error, determine_recovery_strategy, record_retry_attempt}
use hibernator.Operation.{transient_error, build_execution_plan}
use hibernator.Plan.{
  World, Outcome, quiet, requeue_now, poll_after, done, fail, with_status, annotation_is,
  annotation_retry_now, annotation_retry_at, requeue_interval_on_recovery_error,
}
use hibernator.Plan.Effective.{effective_spec}
use hibernator.Plan.Idle.{without}
use hibernator.Plan.Running.{spec_or}

-- `fmt.Errorf("%s", plan.Status.ErrorMessage)`: an error of no API.
abbrev pub last_error : String → Option Error
last_error text = if text == "" then none else some (record { api_code = none; text = text })

-- `handleManualRetry`
unfoldable pub handle_manual_retry : World → HibernatePlan → Outcome
handle_manual_retry world plan =
    if not (annotation_is plan annotation_retry_now "true")
    then done plan quiet
    else let plan' = without annotation_retry_now plan in
      if world.accepts plan'
      then done
          (with_status plan' (record plan'.status { retry_count = pos 0; last_retry_time = none }))
          requeue_now
      else done plan' (poll_after requeue_interval_on_recovery_error)

abbrev scheduled_operation : Option Bool → PlanOperation
scheduled_operation (some true) = hibernate
scheduled_operation _ = wakeup

-- `determineRetryOperation`
unfoldable pub determine_retry_operation : World → PlanOperation → PlanOperation
determine_retry_operation world no_operation = scheduled_operation world.schedule
determine_retry_operation world hibernate = hibernate
determine_retry_operation world wakeup = wakeup

abbrev reset_execution : List String → ExecutionStatus → ExecutionStatus
reset_execution targets e = elim (e.state) [
  | failed ↦
      if elem e.target targets
      then record e { state = pending; message = "Execution state reset for retry after failure" }
      else e
  | _ ↦ e
]

unfoldable pub reset_failed : List String → List ExecutionStatus → List ExecutionStatus
reset_failed targets = map (reset_execution targets)

abbrev pub is_wakeup : PlanOperation → Bool
is_wakeup wakeup = true
is_wakeup _ = false

abbrev pub retry_phase : PlanOperation → PlanPhase
retry_phase hibernate = PlanPhase.hibernating
retry_phase _ = PlanPhase.waking_up

abbrev pub or_unknown : Option Error → Error
or_unknown (some e) = e
or_unknown none = record { api_code = none; text = "unknown error (no error message in status)" }

-- The mutator of `handleRetry`. A stage index beyond the plan is a panic in Go, here `none`.
abbrev pub retry_recorded :
    PlanOperation → Option ExecutionStage → HibernatePlanStatus × Bool → Option HibernatePlanStatus
retry_recorded op stage (status, false) = some status
retry_recorded op none (status, true) = none
retry_recorded op (some stage) (status, true) = some (record status {
  executions = reset_failed stage.targets status.executions;
  phase = retry_phase op;
})

unfoldable pub retry_status :
    World
    → PlanOperation
    → ExecutionPlan
    → Option Error
    → HibernatePlanStatus
    → Option HibernatePlanStatus
unfolding reset_failed
retry_status world operation execution_plan e status =
    retry_recorded operation (get_elem? execution_plan.stages status.current_stage_index)
      (record_retry_attempt status world.now (some (or_unknown e)))

abbrev pub retried : HibernatePlan → Option HibernatePlanStatus → Option Outcome
retried plan none = none
retried plan (some status) = some (done (with_status plan status) requeue_now)

-- `handleRetry`; `none` is the panic.
unfoldable pub handle_retry : World → HibernatePlan → Option Error → Option Outcome
unfolding determine_retry_operation retry_status
handle_retry world plan e =
    let operation = determine_retry_operation world plan.status.current_operation in
    elim (build_execution_plan (spec_or (effective_spec world plan) plan.spec)
      (is_wakeup operation)) [
        | none ↦ some (fail plan transient_error)
        | some execution_plan ↦
            retried plan (retry_status world operation execution_plan e plan.status)
      ]

-- `recoveryState.Handle`
unfoldable pub handle_recovery : World → HibernatePlan → Option Outcome
unfolding handle_manual_retry handle_retry
handle_recovery world plan =
    let e = last_error plan.status.error_message in
    let strategy = determine_recovery_strategy plan.spec.behavior.retries plan.status world.now e in
    if not strategy.should_retry
    then some (handle_manual_retry world plan)
    else if ltb_ℤ (pos 0) strategy.retry_after
    then some (done plan (poll_after strategy.retry_after))
    else handle_retry world (without annotation_retry_at plan) e
