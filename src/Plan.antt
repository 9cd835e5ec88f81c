-- ===== src/Plan.antt =====
-- The state machine of a plan, internal/provider/processor/plan/state: what its handlers share
-- (state.go). The state is the worker's plan in memory: `PlanStatuses.Send` applies its mutator to
-- it at once, and a patch that the API server refuses leaves the change that was made to it.
pub mod Effective
pub mod Idle
pub mod Running
pub mod Suspension
pub mod Repair
pub mod Retries
pub mod Select
pub mod Runs
pub mod Starts
pub mod Handlers
pub mod Transitions
pub mod Invariant
pub mod Completion
pub mod Resume
use hibernator.Prelude.{
  ℕ, zero, suc, ◌+◌, ◌*◌, String, Bool, true, false, not, ◌&&◌, ◌||◌, List, [], ◌∷◌, ◌++◌, map,
  Option, none, some, if◌then◌else◌, ◌==◌, lookup,
}
use hibernator.Prelude.Int.{ℤ, pos}
use hibernator.Prelude.Text.{join}
use hibernator.Time.{Time, Duration, second, minute}
use hibernator.Api.{
  PlanPhase, PlanOperation, ExecutionStatus, ExecutionState, pending, Target, HibernatePlan,
  HibernatePlanStatus, ScheduleException,
}
use hibernator.Jobs.{Job}
use hibernator.Operation.{
  Answers, HandlerError, runtime_validation_failed, build_plan_failed, targets_failed,
  upstream_failed, create_job_failed, operation_mismatch, transient_error,
}

-- `StateResult`
pub record StateResult : Type 0 where
  pub requeue : Bool
  pub requeue_after : Duration
  pub timeout_after : Duration
  pub deadline_after : Duration

abbrev pub quiet : StateResult
quiet = record {
  requeue = false;
  requeue_after = pos 0;
  timeout_after = pos 0;
  deadline_after = pos 0;
}

abbrev pub requeue_now : StateResult
requeue_now = record quiet { requeue = true }

abbrev pub poll_after : Duration → StateResult
poll_after d = record quiet { requeue_after = d }

-- internal/wellknown/intervals.go
abbrev pub requeue_interval_during_stage : Duration
requeue_interval_during_stage = pos (10 * second)

abbrev pub requeue_interval_on_execution : Duration
requeue_interval_on_execution = pos (10 * second)

abbrev pub requeue_interval_on_recovery_error : Duration
requeue_interval_on_recovery_error = pos minute

abbrev pub requeue_interval_on_transient_error : Duration
requeue_interval_on_transient_error = pos (30 * second)

abbrev pub timeout_transition_to_suspended : Duration
timeout_transition_to_suspended = pos (30 * minute)

-- internal/wellknown/annotations.go
abbrev pub annotation_suspended_at_phase : String
annotation_suspended_at_phase = "hibernator.ardikabs.com/suspended-at-phase"

abbrev pub annotation_retry_now : String
annotation_retry_now = "hibernator.ardikabs.com/retry-now"

abbrev pub annotation_retry_at : String
annotation_retry_at = "hibernator.ardikabs.com/retry-at"

abbrev pub annotation_suspend_until : String
annotation_suspend_until = "hibernator.ardikabs.com/suspend-until"

abbrev pub annotation_suspend_reason : String
annotation_suspend_reason = "hibernator.ardikabs.com/suspend-reason"

abbrev pub annotation_override_action : String
annotation_override_action = "hibernator.ardikabs.com/override-action"

abbrev pub annotation_override_phase_target : String
annotation_override_phase_target = "hibernator.ardikabs.com/override-phase-target"

abbrev pub annotation_override_until : String
annotation_override_until = "hibernator.ardikabs.com/override-until"

abbrev pub annotation_restart : String
annotation_restart = "hibernator.ardikabs.com/restart"

abbrev pub annotation_fresh : String
annotation_fresh = "hibernator.ardikabs.com/fresh"

-- What the world answers during one call of a handler.
pub record World : Type 0 where
  pub now : Time
  -- `PlanCtx.Schedule`, where there is one: `ShouldHibernate`
  pub schedule : Option Bool
  pub has_restore_data : Bool
  pub exceptions : List ScheduleException
  -- the jobs of the cycle, `none` where the list fails
  pub jobs : Option (List Job)
  pub answers : Answers
  -- `executorparams.ValidateParams` finds no error
  pub valid_params : String → String → Bool
  -- `time.Parse(time.RFC3339, …)`
  pub parse_time : String → Option Time
  -- the API server accepts the patch that makes this plan
  pub accepts : HibernatePlan → Bool
  -- the first eight characters of a new UUID
  pub new_cycle_id : String
  -- `RestoreManager.Load` of a target: `IsLive` and `CycleID`
  pub restore_data : String → Option (Bool × String)
  -- `MarkAllTargetsRestored`, and `UnlockRestoreData`
  pub all_restored : Bool
  pub unlocks : Bool
  -- the jobs of a plan that is deleted can all be listed and deleted
  pub deletes_jobs : Bool
  -- the text of the error that the code under src/ wraps
  pub cause : HandlerError → String

-- What a call leaves: the plan, the timers, the error.
pub record Outcome : Type 0 where
  pub plan : HibernatePlan
  pub result : StateResult
  pub error : Option HandlerError

abbrev pub done : HibernatePlan → StateResult → Outcome
done plan result = record { plan = plan; result = result; error = none }

abbrev pub fail : HibernatePlan → HandlerError → Outcome
fail plan e = record { plan = plan; result = quiet; error = some e }

abbrev pub with_status : HibernatePlan → HibernatePlanStatus → HibernatePlan
with_status plan status = record plan { status = status }

abbrev text_is : Option String → String → Bool
text_is none text = false
text_is (some value) text = value == text

-- `plan.Annotations[key] == value`, for a value that is not empty
unfoldable pub annotation_is : HibernatePlan → String → String → Bool
annotation_is plan key value = text_is (lookup key plan.annotations) value

-- The texts of the phases, api/v1alpha1/hibernateplan_types.go.
unfoldable pub phase_text : PlanPhase → String
phase_text PlanPhase.unset = ""
phase_text PlanPhase.pending = "Pending"
phase_text PlanPhase.active = "Active"
phase_text PlanPhase.hibernating = "Hibernating"
phase_text PlanPhase.hibernated = "Hibernated"
phase_text PlanPhase.waking_up = "WakingUp"
phase_text PlanPhase.suspended = "Suspended"
phase_text PlanPhase.error = "Error"
phase_text (PlanPhase.unknown text) = text

abbrev pub joined : String → List String → String
joined separator [] = ""
joined separator (x ∷ []) = x
joined separator (x ∷ y ∷ xs) = join x (join separator (joined separator (y ∷ xs)))

-- `err.Error()`; of a quoted name the quotes are written, its escapes are not.
unfoldable pub error_text : (HandlerError → String) → HandlerError → String
error_text cause runtime_validation_failed =
    join "runtime validation failed: " (cause runtime_validation_failed)
error_text cause build_plan_failed =
    join "failed to build execution plan: " (cause build_plan_failed)
error_text cause (targets_failed targets) =
    join "one or more targets failed: " (joined ", " targets)
error_text cause (upstream_failed target upstream) =
    join (join (join "target \"" target) "\" blocked: upstream dependency [")
      (join (joined " " upstream) "] failed")
error_text cause (create_job_failed target) =
    join (join "failed to create job for target " target)
      (join ": " (cause (create_job_failed target)))
error_text cause operation_mismatch =
    join "mismatch between phase and operation: " (cause operation_mismatch)
error_text cause transient_error = cause transient_error

abbrev pub is_plan_error : HandlerError → Bool
is_plan_error transient_error = false
is_plan_error _ = true

-- `setError`
unfoldable pub set_error : World → HandlerError → HibernatePlan → HibernatePlan
unfolding error_text
set_error world e plan = with_status plan (record plan.status {
  phase = PlanPhase.error;
  last_transition_time = some world.now;
  error_message = error_text world.cause e;
})

-- `OnError` of the states that do not override it.
unfoldable pub on_error : World → HandlerError → HibernatePlan → HibernatePlan × StateResult
on_error world e plan =
    if is_plan_error e
    then (set_error world e plan, requeue_now)
    else (plan, poll_after requeue_interval_on_transient_error)

-- `nextStage`
unfoldable pub next_stage : ℕ → HibernatePlan → HibernatePlan
next_stage index plan = with_status plan (record plan.status { current_stage_index = index })

abbrev pub fresh_execution : String → Target → ExecutionStatus
fresh_execution message t = record {
  target = t.name;
  executor = t.type;
  state = pending;
  started_at = none;
  finished_at = none;
  attempts = pos 0;
  message = message;
  job_ref = "";
  logs_ref = "";
  restore_config_map_ref = "";
}
