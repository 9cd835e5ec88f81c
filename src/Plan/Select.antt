-- ===== src/Plan/Select.antt =====
-- One reconciliation: the gates, the choice of a handler, the handler, and its `OnError`.
-- internal/provider/processor/plan/state/gates.go, state_selection.go, state_lifecycle.go, and
-- `handle` of internal/provider/processor/plan/worker.go.
use hibernator.Prelude.{
  String, Bool, true, false, not, ◌&&◌, ◌||◌, Option, none, some, if◌then◌else◌, lookup,
}
use hibernator.Time.{before}
use hibernator.Api.{PlanPhase, hibernate, wakeup, HibernatePlan}
use hibernator.Operation.{HandlerError, transient_error}
use hibernator.Plan.{
  World, Outcome, StateResult, quiet, requeue_now, done, fail, with_status, annotation_is, on_error,
  annotation_suspend_until, annotation_override_action, annotation_restart,
}
use hibernator.Plan.Idle.{handle_idle, handle_override, handle_restart, override_deadline}
use hibernator.Plan.Running.{handle_hibernating, handle_waking_up, on_execution_error}
use hibernator.Plan.Suspension.{
  handle_pre_suspension, handle_suspended, perform_suspension, suspended_deadline,
}
use hibernator.Plan.Repair.{handle_recovery}

pub data Handler : Type 0 where
  deletion pre_suspension lifecycle override_action restart idle : Handler
  hibernating waking_up suspended recovery : Handler

abbrev pub is_set {ℓ} : {A : Type ℓ} → Option A → Bool
is_set none = false
is_set (some a) = true

abbrev pub is_suspended : PlanPhase → Bool
is_suspended PlanPhase.suspended = true
is_suspended _ = false

abbrev in_future : World → Option String → Bool
in_future world none = false
in_future world (some text) = elim (world.parse_time text) [
  | none ↦ false
  | some deadline ↦ before world.now deadline
]

-- `checkAutoSuspendAnnotation`
unfoldable pub auto_suspends : World → HibernatePlan → Bool
auto_suspends world plan = in_future world (lookup annotation_suspend_until plan.annotations)

-- `suspensionGate` finds a handler.
unfoldable pub suspension_gate : World → HibernatePlan → Bool
unfolding auto_suspends
suspension_gate world plan =
    not (is_suspended plan.status.phase) && (plan.spec.suspend || auto_suspends world plan)

-- `selectIdleHandler`
unfoldable pub select_idle_handler : HibernatePlan → Handler
select_idle_handler plan =
    if annotation_is plan annotation_override_action "true"
    then override_action
    else if annotation_is plan annotation_restart "true"
    then restart
    else idle

-- The switch of `selectHandler` on the phase.
unfoldable pub phase_handler : HibernatePlan → PlanPhase → Option Handler
unfolding select_idle_handler
phase_handler plan PlanPhase.unset = some lifecycle
phase_handler plan PlanPhase.active = some (select_idle_handler plan)
phase_handler plan PlanPhase.hibernated = some (select_idle_handler plan)
phase_handler plan PlanPhase.hibernating = some hibernating
phase_handler plan PlanPhase.waking_up = some waking_up
phase_handler plan PlanPhase.suspended = some suspended
phase_handler plan PlanPhase.error = some recovery
phase_handler plan PlanPhase.pending = none
phase_handler plan (PlanPhase.unknown text) = none

-- `selectHandler`
unfoldable pub select_handler : World → HibernatePlan → Option Handler
unfolding suspension_gate phase_handler
select_handler world plan =
    if is_set plan.deletion_timestamp
    then some deletion
    else if suspension_gate world plan
    then some pre_suspension
    else phase_handler plan plan.status.phase

abbrev with_finalizer : Bool → HibernatePlan → HibernatePlan
with_finalizer present plan = record plan { has_finalizer = present }

-- `lifecycleState.handleDelete`
unfoldable pub handle_delete : World → HibernatePlan → Outcome
handle_delete world plan =
    if not world.deletes_jobs
    then fail plan transient_error
    else if not plan.has_finalizer || world.accepts (with_finalizer false plan)
    then done (with_finalizer false plan) quiet
    else fail (with_finalizer false plan) transient_error

abbrev initialized : HibernatePlan → Outcome
initialized plan = elim (plan.status.phase) [
  | PlanPhase.unset ↦
      done (with_status plan (record plan.status { phase = PlanPhase.active })) requeue_now
  | _ ↦ done plan quiet
]

-- `lifecycleState.handle`; the status in the answer to its patch is taken to be the plan's.
unfoldable pub handle_lifecycle : World → HibernatePlan → Outcome
handle_lifecycle world plan =
    if plan.has_finalizer || world.accepts (with_finalizer true plan)
    then initialized (with_finalizer true plan)
    else fail (with_finalizer true plan) transient_error

-- `Handle` of the chosen handler; `none` is a panic.
unfoldable pub handle : World → HibernatePlan → Handler → Option Outcome
handle world plan deletion = some (handle_delete world plan)
handle world plan pre_suspension = some (handle_pre_suspension world plan)
handle world plan lifecycle = some (handle_lifecycle world plan)
handle world plan override_action = some (handle_override world plan)
handle world plan restart = some (handle_restart world plan)
handle world plan idle = some (handle_idle world plan)
handle world plan hibernating = some (handle_hibernating world plan)
handle world plan waking_up = some (handle_waking_up world plan)
handle world plan suspended = some (handle_suspended world plan)
handle world plan recovery = handle_recovery world plan

-- `OnError` of the chosen handler.
abbrev pub handler_on_error :
    World → Handler → HandlerError → HibernatePlan → HibernatePlan × StateResult
handler_on_error world hibernating e plan = on_execution_error world hibernate e plan
handler_on_error world waking_up e plan = on_execution_error world wakeup e plan
handler_on_error world _ e plan = on_error world e plan

-- The error of a handler is given to its `OnError`, whose result takes the place of the handler's.
abbrev pub settle : World → Handler → Outcome → Outcome
settle world h o = elim (o.error) [
  | none ↦ o
  | some e ↦
      let (plan, result) = handler_on_error world h e o.plan in
      record { plan = plan; result = result; error = some e }
]

abbrev pub handled : World → Handler → Option Outcome → Option Outcome
handled world h none = none
handled world h (some o) = some (settle world h o)

-- Without a handler nothing is done.
unfoldable pub run_handler : World → HibernatePlan → Option Handler → Option Outcome
unfolding handle
run_handler world plan none = some (done plan quiet)
run_handler world plan (some h) = handled world h (handle world plan h)

-- `Worker.handle`
unfoldable pub reconcile : World → HibernatePlan → Option Outcome
unfolding select_handler run_handler
reconcile world plan = run_handler world plan (select_handler world plan)

-- `OnDeadline` of the chosen handler.
unfoldable pub handle_deadline : World → HibernatePlan → Handler → Outcome
handle_deadline world plan pre_suspension = perform_suspension world plan
handle_deadline world plan suspended = suspended_deadline world plan
handle_deadline world plan override_action = override_deadline world plan
handle_deadline world plan _ = done plan quiet

-- `Worker.handle` when a deadline or a timeout has passed.
unfoldable pub reconcile_deadline : World → HibernatePlan → Outcome
unfolding select_handler handle_deadline
reconcile_deadline world plan = elim (select_handler world plan) [
  | none ↦ done plan quiet
  | some h ↦ settle world h (handle_deadline world plan h)
]
