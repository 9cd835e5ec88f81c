-- ===== src/Plan/Completion.antt =====
-- When an operation is over.
use hibernator.Prelude.{
  ◌≡◌, refl, Bool, true, false, not, ◌||◌, inl, inr, Bool-cases, Option-cases, Option, none, some,
  arith, subst, List,
}
use hibernator.Api.{PlanPhase, HibernatePlan, PlanOperation, hibernate, wakeup}
use hibernator.Execution.{is_operation_complete}
use hibernator.Jobs.{Job}
use hibernator.Operation.{HandlerError, update_execution_statuses}
use hibernator.Plan.{World, Outcome, on_error, set_error, with_status}
use hibernator.Plan.Running.{
  handle_hibernating, handle_waking_up, on_execution_error, get_current_cycle_jobs,
}
use hibernator.Plan.Suspension.{
  handle_pre_suspension, perform_suspension, drain_then_suspend, is_executing,
}
use hibernator.Plan.Runs.{Ran}
use hibernator.Plan.Handlers.{handle_hibernating-Ran, handle_waking_up-Ran}
use hibernator.Plan.Select.{
  Handler, deletion, pre_suspension, hibernating, waking_up, select_handler, suspension_gate,
  phase_handler, handle, reconcile, run_handler, handle_delete, settle, is_set, handler_on_error,
}

abbrev pub is_idle : PlanPhase → Bool
is_idle PlanPhase.active = true
is_idle PlanPhase.hibernated = true
is_idle _ = false

-- The plan is not idle, or all its executions have ended.
abbrev Over : HibernatePlan → Type 0
Over plan = (not (is_idle plan.status.phase) || is_operation_complete plan.status.executions) ≡ true

abbrev OverIf : Option Outcome → Type 0
OverIf none = Unit
OverIf (some o) = Over o.plan

module _ (world : World) where
  handler_on_error-Over :
      (h : Handler) (e : HandlerError) (plan : HibernatePlan)
      → Over plan
      → Over (handler_on_error world h e plan).0
  unfolding on_error on_execution_error set_error
  handler_on_error-Over h e plan o = ground arith

  settle-Over : (h : Handler) (o : Outcome) → Over o.plan → Over (settle world h o).plan
  settle-Over h o k = elim (Option-cases o.error) [
    | inl e ↦ rw e k
    | inr (x, e) ↦ rw e (handler_on_error-Over h x o.plan k)
  ]

  perform_suspension-Over :
      (plan : HibernatePlan)
      → is_executing plan.status.phase ≡ true
      → Over (perform_suspension world plan).plan
  unfolding perform_suspension
  perform_suspension-Over plan h = ground arith

  drain_then_suspend-Over :
      (plan : HibernatePlan) (jobs : Option (List Job))
      → is_executing plan.status.phase ≡ true
      → Over (drain_then_suspend world plan jobs).plan
  unfolding drain_then_suspend update_execution_statuses
  drain_then_suspend-Over plan none h = ground arith
  drain_then_suspend-Over plan (some jobs) h = ground (
    arith,
    perform_suspension-Over
        (with_status plan (update_execution_statuses world.answers jobs plan.status)) h,
  )

  handle_pre_suspension-Over :
      (plan : HibernatePlan)
      → is_executing plan.status.phase ≡ true
      → Over (handle_pre_suspension world plan).plan
  unfolding handle_pre_suspension
  handle_pre_suspension-Over plan h =
      rw (h, handle_pre_suspension)
        (drain_then_suspend-Over plan (get_current_cycle_jobs world plan.status) h)

  handle_delete-Over :
      (plan : HibernatePlan)
      → is_executing plan.status.phase ≡ true
      → Over (handle_delete world plan).plan
  unfolding handle_delete
  handle_delete-Over plan h = ground arith

  Ran-Over :
      (op : PlanOperation) (before after : HibernatePlan)
      → is_executing before.status.phase ≡ true
      → Ran op before after
      → Over after
  Ran-Over op before after h r = ground arith

  phase-OverIf :
      (plan : HibernatePlan) (phase : PlanPhase)
      → is_executing plan.status.phase ≡ true
      → plan.status.phase ≡ phase
      → OverIf (run_handler world plan (phase_handler plan phase))
  unfolding run_handler handle phase_handler
  phase-OverIf plan PlanPhase.hibernating h p =
      settle-Over hibernating (handle_hibernating world plan) (
        Ran-Over hibernate plan (handle_hibernating world plan).plan h
          (handle_hibernating-Ran world plan))
  phase-OverIf plan PlanPhase.waking_up h p =
      settle-Over waking_up (handle_waking_up world plan) (
        Ran-Over wakeup plan (handle_waking_up world plan).plan h (handle_waking_up-Ran world plan))
  phase-OverIf plan phase h p = cc

  reconcile-OverIf :
      (plan : HibernatePlan) → is_executing plan.status.phase ≡ true → OverIf (reconcile world plan)
  unfolding reconcile run_handler handle select_handler
  reconcile-OverIf plan h = elim (Bool-cases (is_set plan.deletion_timestamp)) [
    | inl d ↦
        rw (d, select_handler)
          (settle-Over deletion (handle_delete world plan) (handle_delete-Over plan h))
    | inr d ↦ elim (Bool-cases (suspension_gate world plan)) [
      | inl g ↦
          rw (d, g, select_handler)
            (settle-Over pre_suspension (handle_pre_suspension world plan)
              (handle_pre_suspension-Over plan h))
      | inr g ↦ rw (d, g, select_handler) (phase-OverIf plan plan.status.phase h refl)
    ]
  ]

-- An operation is over only when nothing of it is left to run: where a reconciliation takes a plan
-- that hibernates or wakes up to Active or Hibernated, all executions of the plan have ended.
pub reconcile-is_operation_complete :
    (world : World) (plan : HibernatePlan) (o : Outcome)
    → is_executing plan.status.phase ≡ true
    → reconcile world plan ≡ some o
    → is_idle o.plan.status.phase ≡ true
    → is_operation_complete o.plan.status.executions ≡ true
reconcile-is_operation_complete world plan o h e i =
    let over = subst OverIf e (reconcile-OverIf world plan h) in ground arith
