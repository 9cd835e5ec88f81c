-- ===== src/Plan/Handlers.antt =====
-- What the handlers, and their `OnError`, do to the phase of a plan and to the invariant of it.
use hibernator.Prelude.{
  String, ◌≡◌, subst, sym, Bool, true, false, inl, inr, ◌⊎◌, Bool-cases, Option-cases, Option, none,
  some, arith, get_elem?,
}
use hibernator.Api.{PlanPhase, HibernatePlan, HibernatePlanStatus, hibernate, wakeup}
use hibernator.Prelude.Int.{pos, ltb_ℤ}
use hibernator.Planner.{ExecutionStage}
use hibernator.Recovery.{Error, record_retry_attempt, determine_recovery_strategy}
use hibernator.Operation.{HandlerError, build_execution_plan}
use hibernator.Plan.{World, Outcome, set_error, on_error, is_plan_error, annotation_retry_at}
use hibernator.Plan.Idle.{without}
use hibernator.Plan.Running.{handle_hibernating, handle_waking_up, on_execution_error, spec_or}
use hibernator.Plan.Effective.{effective_spec}
use hibernator.Plan.Runs.{Ran, execute-Ran}
use hibernator.Plan.Starts.{Started}
use hibernator.Plan.Repair.{
  last_error, handle_manual_retry, determine_retry_operation, is_wakeup, retry_recorded, retried,
  retry_status, or_unknown, handle_retry, handle_recovery,
}
use hibernator.Plan.Invariant.{Sound, Safe}
use hibernator.Plan.Select.{Handler, handle_delete, handle_lifecycle, settle, handler_on_error}

-- A panic leaves nothing to state.
abbrev pub SafeIf : HibernatePlan → Option Outcome → Type 0
SafeIf before none = Unit
SafeIf before (some o) = Safe before o

module _ (world : World) where
  retry_recorded-Safe :
      (before : HibernatePlan) (stage : Option ExecutionStage) (r : HibernatePlanStatus × Bool)
      → before.status.phase ≡ PlanPhase.error
      → r.0.phase ≡ PlanPhase.error
      → r.0.current_operation ≡ before.status.current_operation
      → SafeIf before (
          retried before (
            retry_recorded
              (determine_retry_operation world before.status.current_operation)
              stage
              r))
  unfolding determine_retry_operation
  retry_recorded-Safe before none (s, true) h p c = tt
  retry_recorded-Safe before none (s, false) h p c = ground arith
  retry_recorded-Safe before (some stage) (s, true) h p c = ground arith
  retry_recorded-Safe before (some stage) (s, false) h p c = ground arith

  handle_retry-Safe :
      (plan : HibernatePlan) (e : Option Error)
      → plan.status.phase ≡ PlanPhase.error
      → SafeIf plan (handle_retry world plan e)
  unfolding handle_retry retry_status record_retry_attempt
  handle_retry-Safe plan e h =
      let op = determine_retry_operation world plan.status.current_operation in
      elim (Option-cases
        (build_execution_plan (spec_or (effective_spec world plan) plan.spec) (is_wakeup op))) [
          | inl b ↦ rw (b, handle_retry) (ground (arith, h))
          | inr (execution_plan, b) ↦
              rw (b, handle_retry)
                (retry_recorded-Safe plan
                  (get_elem? execution_plan.stages plan.status.current_stage_index)
                  (record_retry_attempt plan.status world.now (some (or_unknown e))) h
                  (ground (arith, h)) (ground arith))
        ]

  handle_manual_retry-Safe :
      (plan : HibernatePlan)
      → plan.status.phase ≡ PlanPhase.error
      → Safe plan (handle_manual_retry world plan)
  unfolding handle_manual_retry
  handle_manual_retry-Safe plan h = ground (arith, h)

  without-SafeIf :
      (key : String) (plan : HibernatePlan) (o : Option Outcome)
      → plan.status.phase ≡ PlanPhase.error
      → SafeIf (without key plan) o
      → SafeIf plan o
  without-SafeIf key plan none h s = tt
  without-SafeIf key plan (some o) h s = ground (arith, h)

  pub handle_recovery-Safe :
      (plan : HibernatePlan)
      → plan.status.phase ≡ PlanPhase.error
      → SafeIf plan (handle_recovery world plan)
  unfolding handle_recovery
  handle_recovery-Safe plan h =
      let e = last_error plan.status.error_message in
      let strategy =
        determine_recovery_strategy plan.spec.behavior.retries plan.status world.now e in
      elim (Bool-cases strategy.should_retry) [
        | inr n ↦ rw (n, handle_recovery) (handle_manual_retry-Safe plan h)
        | inl y ↦ elim (Bool-cases (ltb_ℤ (pos 0) strategy.retry_after)) [
          | inl w ↦ rw (y, w, handle_recovery) (ground (arith, h))
          | inr w ↦
              rw (y, w, handle_recovery)
                (without-SafeIf annotation_retry_at plan
                  (handle_retry world (without annotation_retry_at plan) e) h
                  (handle_retry-Safe (without annotation_retry_at plan) e h))
        ]
      ]

  pub handle_lifecycle-Safe :
      (plan : HibernatePlan)
      → plan.status.phase ≡ PlanPhase.unset
      → Safe plan (handle_lifecycle world plan)
  unfolding handle_lifecycle
  handle_lifecycle-Safe plan h = ground (arith, h)

  pub handle_delete-Safe : (plan : HibernatePlan) → Safe plan (handle_delete world plan)
  unfolding handle_delete
  handle_delete-Safe plan = ground arith

  pub Started-Safe :
      (plan : HibernatePlan) (o : Outcome)
      → (plan.status.phase ≡ PlanPhase.active) ⊎ (plan.status.phase ≡ PlanPhase.hibernated)
      → Started plan o
      → Safe plan o
  Started-Safe plan o h s = ground (arith, h)

  handler_on_error-phase :
      (h : Handler) (e : HandlerError) (plan : HibernatePlan)
      → let after = (handler_on_error world h e plan).0.status in
        (after.current_operation ≡ plan.status.current_operation)
        × ((after.phase ≡ plan.status.phase) ⊎ (after.phase ≡ PlanPhase.error))
  unfolding on_error on_execution_error set_error
  handler_on_error-phase h e plan = ground arith

  handler_on_error-calm :
      (h : Handler) (e : HandlerError) (plan : HibernatePlan)
      → is_plan_error e ≡ false
      → (handler_on_error world h e plan).0 ≡ plan
  unfolding on_error on_execution_error
  handler_on_error-calm h e plan c = ground arith

  pub settle-Sound :
      (plan : HibernatePlan) (h : Handler) (o : Outcome)
      → Safe plan o
      → Sound plan (settle world h o).plan
  settle-Sound plan h o s = elim (Option-cases o.error) [
    | inl e ↦ rw e s.1
    | inr (x, e) ↦
        rw e
          (subst (Sound plan) (sym (handler_on_error-calm h x o.plan (ground (arith, s.0, e)))) s.1)
  ]

  -- A plan that runs: its error may be one of the plan.
  pub settle-hibernating :
      (plan : HibernatePlan) (h : Handler) (o : Outcome)
      → plan.status.phase ≡ PlanPhase.hibernating
      → Ran hibernate plan o.plan
      → Sound plan (settle world h o).plan
  settle-hibernating plan h o p r = elim (Option-cases o.error) [
    | inl e ↦ rw e (ground (arith, p))
    | inr (x, e) ↦ rw e (ground (arith, p, handler_on_error-phase h x o.plan))
  ]

  pub settle-waking_up :
      (plan : HibernatePlan) (h : Handler) (o : Outcome)
      → plan.status.phase ≡ PlanPhase.waking_up
      → Ran wakeup plan o.plan
      → Sound plan (settle world h o).plan
  settle-waking_up plan h o p r = elim (Option-cases o.error) [
    | inl e ↦ rw e (ground (arith, p))
    | inr (x, e) ↦ rw e (ground (arith, p, handler_on_error-phase h x o.plan))
  ]

  pub handle_hibernating-Ran :
      (plan : HibernatePlan) → Ran hibernate plan (handle_hibernating world plan).plan
  unfolding handle_hibernating
  handle_hibernating-Ran plan = ground (arith, execute-Ran world hibernate false plan)

  pub handle_waking_up-Ran :
      (plan : HibernatePlan) → Ran wakeup plan (handle_waking_up world plan).plan
  unfolding handle_waking_up
  handle_waking_up-Ran plan = ground (arith, execute-Ran world wakeup true plan)
