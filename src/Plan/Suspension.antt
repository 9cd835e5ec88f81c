-- ===== src/Plan/Suspension.antt =====
-- Suspension: internal/provider/processor/plan/state/state_pre_suspension.go, state_suspended.go,
-- and `awaitExecutionDrain` of state.go.
use hibernator.Prelude.{
  String, Bool, true, false, not, ◌&&◌, ◌||◌, List, [], ◌∷◌, Option, none, some, if◌then◌else◌,
  ◌==◌, lookup, insert,
}
use hibernator.Prelude.Int.{pos}
use hibernator.Time.{Time, sub, after}
use hibernator.Api.{PlanPhase, PlanOperation, wakeup, ExecutionStatus, HibernatePlan}
use hibernator.Jobs.{Job}
use hibernator.Operation.{transient_error, update_execution_statuses}
use hibernator.Plan.{
  World, Outcome, StateResult, quiet, requeue_now, done, fail, with_status, phase_text,
  annotation_suspended_at_phase, annotation_suspend_reason, annotation_suspend_until,
  requeue_interval_on_execution, timeout_transition_to_suspended,
}
use hibernator.Plan.Idle.{without}
use hibernator.Plan.Running.{get_current_cycle_jobs}

abbrev unfinished : ExecutionStatus → Bool
unfinished e = elim (e.finished_at) [ none ↦ not (e.logs_ref == "") | some t ↦ false ]

-- An execution is in flight: its job was dispatched, and it has not finished.
unfoldable pub has_active_execution : List ExecutionStatus → Bool
has_active_execution [] = false
has_active_execution (e ∷ es) = unfinished e || has_active_execution es

-- `isInExecutingPhase`
abbrev pub is_executing : PlanPhase → Bool
is_executing PlanPhase.hibernating = true
is_executing PlanPhase.waking_up = true
is_executing _ = false

-- The plan that `performSuspension` patches.
abbrev pub suspending : HibernatePlan → HibernatePlan
suspending plan = record plan {
  spec = record plan.spec { suspend = true };
  annotations =
      insert annotation_suspended_at_phase (phase_text plan.status.phase) plan.annotations;
}

unfoldable pub perform_suspension : World → HibernatePlan → Outcome
perform_suspension world plan =
    if world.accepts (suspending plan)
    then done
        (with_status (suspending plan) (record plan.status {
          phase = PlanPhase.suspended;
          error_message = "";
          last_transition_time = some world.now;
        }))
        requeue_now
    else fail (suspending plan) transient_error

abbrev drain_result : StateResult
drain_result = record quiet {
  requeue_after = requeue_interval_on_execution;
  timeout_after = timeout_transition_to_suspended;
}

-- `awaitExecutionDrain`, then the suspension if nothing is in flight.
unfoldable pub drain_then_suspend : World → HibernatePlan → Option (List Job) → Outcome
unfolding perform_suspension
drain_then_suspend world plan none = fail plan transient_error
drain_then_suspend world plan (some jobs) =
    let plan' = with_status plan (update_execution_statuses world.answers jobs plan.status) in
    if has_active_execution plan'.status.executions
    then done plan' drain_result
    else perform_suspension world plan'

-- `preSuspensionState.Handle`; its `OnDeadline` is `perform_suspension`.
unfoldable pub handle_pre_suspension : World → HibernatePlan → Outcome
unfolding drain_then_suspend
handle_pre_suspension world plan =
    if is_executing plan.status.phase
    then drain_then_suspend world plan (get_current_cycle_jobs world plan.status)
    else perform_suspension world plan

abbrev has {ℓ} : {A : Type ℓ} → Option A → Bool
has none = false
has (some a) = true

-- `cleanupSuspensionAnnotations`; where the patch fails the plan in memory has lost them too.
unfoldable pub cleanup_suspension_annotations : HibernatePlan → HibernatePlan
cleanup_suspension_annotations plan =
    without annotation_suspend_reason (without annotation_suspended_at_phase plan)

unfoldable pub resume_at : World → PlanPhase → HibernatePlan → HibernatePlan
unfolding cleanup_suspension_annotations
resume_at world phase plan =
    cleanup_suspension_annotations (
      with_status plan
        (record plan.status { phase = phase; last_transition_time = some world.now }))

-- `resumeFromError`, where the plan was suspended in the phase Error.
abbrev pub error_baseline : PlanOperation → PlanPhase
error_baseline wakeup = PlanPhase.hibernated
error_baseline _ = PlanPhase.active

unfoldable pub resume_from_error : World → HibernatePlan → HibernatePlan
resume_from_error world plan = cleanup_suspension_annotations (
    with_status plan (record plan.status {
      phase = error_baseline plan.status.current_operation;
      retry_count = pos 0;
      error_message = "";
      last_retry_time = none;
      last_transition_time = some world.now;
    }))

-- `shouldForceWakeUpOnResume`, with the phase of the suspension.
abbrev pub should_force_wake_up : World → String → Bool
should_force_wake_up world at =
    not (at == "" || at == "Active" || at == "Error")
    && world.has_restore_data
    && elim (world.schedule) [ none ↦ false | some should_hibernate ↦ not should_hibernate ]

-- `forceWakeUpOnResume`: the phase alone, without a transition time.
abbrev force_wake_up : HibernatePlan → HibernatePlan
force_wake_up plan =
    cleanup_suspension_annotations
      (with_status plan (record plan.status { phase = PlanPhase.hibernated }))

abbrev pub resume_otherwise : World → String → HibernatePlan → HibernatePlan
resume_otherwise world at plan =
    if should_force_wake_up world at
    then force_wake_up plan
    else resume_at world PlanPhase.active plan

-- `resume`: `at` is the phase of the suspension.
unfoldable pub resume_from : World → String → HibernatePlan → HibernatePlan
unfolding resume_at resume_from_error
resume_from world at plan =
    if at == "Error" then resume_from_error world plan else elim (world.schedule) [
      | none ↦ resume_otherwise world at plan
      | some should_hibernate ↦
          if at == "Hibernating"
          then resume_at world
              (if should_hibernate then PlanPhase.hibernating else PlanPhase.active) plan
          else if at == "WakingUp"
          then resume_at world
              (if should_hibernate then PlanPhase.hibernated else PlanPhase.waking_up) plan
          else resume_otherwise world at plan
    ]

abbrev pub text_of : Option String → String
text_of none = ""
text_of (some text) = text

unfoldable pub resume : World → HibernatePlan → Outcome
unfolding resume_from
resume world plan =
    done (resume_from world (text_of (lookup annotation_suspended_at_phase plan.annotations)) plan)
      requeue_now

-- The plan whose suspension is revoked.
abbrev pub revoked : HibernatePlan → HibernatePlan
revoked plan =
    without annotation_suspend_until (record plan { spec = record plan.spec { suspend = false } })

-- `suspendedState.OnDeadline`
unfoldable pub suspended_deadline : World → HibernatePlan → Outcome
unfolding resume
suspended_deadline world plan =
    if world.accepts (revoked plan)
    then resume world (revoked plan)
    else fail (revoked plan) transient_error

abbrev stay_or_resume : World → HibernatePlan → Outcome
stay_or_resume world plan = if plan.spec.suspend then done plan quiet else resume world plan

abbrev until_deadline : World → HibernatePlan → Option Time → Outcome
until_deadline world plan none = fail plan transient_error
until_deadline world plan (some deadline) =
    if not (after world.now deadline)
    then done plan (record quiet { deadline_after = sub deadline world.now })
    else if world.accepts (revoked plan)
    then stay_or_resume world (revoked plan)
    else fail (revoked plan) transient_error

-- `suspendedState.Handle`
unfoldable pub handle_suspended : World → HibernatePlan → Outcome
unfolding resume
handle_suspended world plan = elim (lookup annotation_suspend_until plan.annotations) [
  | none ↦ stay_or_resume world plan
  | some text ↦ until_deadline world plan (world.parse_time text)
]
