-- ===== src/Plan/Transitions.antt =====
-- What a reconciliation does to the phase of a plan and to the invariant of it.
use hibernator.Prelude.{
  ◌≡◌, refl, true, inl, inr, ◌⊎◌, Bool-cases, Option, none, some, arith, subst,
}
use hibernator.Api.{PlanPhase, HibernatePlan}
use hibernator.Plan.{World, Outcome, annotation_is, annotation_override_action, annotation_restart}
use hibernator.Plan.Idle.{handle_idle, handle_override, handle_restart}
use hibernator.Plan.Running.{handle_hibernating, handle_waking_up}
use hibernator.Plan.Suspension.{handle_pre_suspension, handle_suspended}
use hibernator.Plan.Repair.{handle_recovery}
use hibernator.Plan.Starts.{handle_idle-Started, handle_override-Started, handle_restart-Started}
use hibernator.Plan.Invariant.{
  coherent, Arrow, Sound, handle_pre_suspension-Safe, handle_suspended-Safe,
}
use hibernator.Plan.Handlers.{
  SafeIf, settle-Sound, settle-hibernating, settle-waking_up, handle_hibernating-Ran,
  handle_waking_up-Ran, handle_recovery-Safe, handle_lifecycle-Safe, handle_delete-Safe,
  Started-Safe,
}
use hibernator.Plan.Select.{
  Handler, deletion, pre_suspension, lifecycle, override_action, restart, idle, hibernating,
  waking_up, suspended, recovery, select_handler, suspension_gate, phase_handler,
  select_idle_handler, handle, reconcile, run_handler, handle_delete, handle_lifecycle, is_set,
  handled,
}

abbrev SoundIf : HibernatePlan → Option Outcome → Type 0
SoundIf before none = Unit
SoundIf before (some o) = Sound before o.plan

handled-SoundIf :
    (world : World) (plan : HibernatePlan) (h : Handler) (o : Option Outcome)
    → SafeIf plan o
    → SoundIf plan (handled world h o)
handled-SoundIf world plan h none s = tt
handled-SoundIf world plan h (some o) s = settle-Sound world plan h o s

module _ (world : World) (plan : HibernatePlan) where
  idle-SoundIf :
      (plan.status.phase ≡ PlanPhase.active) ⊎ (plan.status.phase ≡ PlanPhase.hibernated)
      → SoundIf plan (run_handler world plan (some (select_idle_handler plan)))
  unfolding run_handler handle select_idle_handler
  idle-SoundIf p = elim (Bool-cases (annotation_is plan annotation_override_action "true")) [
    | inl e ↦
        rw (e, select_idle_handler)
          (settle-Sound world plan override_action (handle_override world plan) (
            Started-Safe world plan (handle_override world plan) p
              (handle_override-Started world plan)))
    | inr e ↦ elim (Bool-cases (annotation_is plan annotation_restart "true")) [
      | inl r ↦
          rw (e, r, select_idle_handler)
            (settle-Sound world plan restart (handle_restart world plan) (
              Started-Safe world plan (handle_restart world plan) p
                (handle_restart-Started world plan)))
      | inr r ↦
          rw (e, r, select_idle_handler)
            (settle-Sound world plan idle (handle_idle world plan)
              (Started-Safe world plan (handle_idle world plan) p (handle_idle-Started world plan)))
    ]
  ]

  phase-SoundIf :
      (phase : PlanPhase)
      → plan.status.phase ≡ phase
      → SoundIf plan (run_handler world plan (phase_handler plan phase))
  unfolding run_handler handle phase_handler
  phase-SoundIf PlanPhase.unset p =
      settle-Sound world plan lifecycle (handle_lifecycle world plan)
        (handle_lifecycle-Safe world plan p)
  phase-SoundIf PlanPhase.pending p = ground arith
  phase-SoundIf PlanPhase.active p = idle-SoundIf (inl p)
  phase-SoundIf PlanPhase.hibernating p =
      settle-hibernating world plan hibernating (handle_hibernating world plan) p
        (handle_hibernating-Ran world plan)
  phase-SoundIf PlanPhase.hibernated p = idle-SoundIf (inr p)
  phase-SoundIf PlanPhase.waking_up p =
      settle-waking_up world plan waking_up (handle_waking_up world plan) p
        (handle_waking_up-Ran world plan)
  phase-SoundIf PlanPhase.suspended p =
      settle-Sound world plan suspended (handle_suspended world plan)
        (handle_suspended-Safe world plan p)
  phase-SoundIf PlanPhase.error p =
      handled-SoundIf world plan recovery (handle_recovery world plan)
        (handle_recovery-Safe world plan p)
  phase-SoundIf (PlanPhase.unknown text) p = ground arith

  reconcile-SoundIf : SoundIf plan (reconcile world plan)
  unfolding reconcile run_handler handle select_handler suspension_gate
  reconcile-SoundIf = elim (Bool-cases (is_set plan.deletion_timestamp)) [
    | inl d ↦
        rw (d, select_handler)
          (settle-Sound world plan deletion (handle_delete world plan)
            (handle_delete-Safe world plan))
    | inr d ↦ elim (Bool-cases (suspension_gate world plan)) [
      | inl g ↦
          rw (d, g, select_handler)
            (settle-Sound world plan pre_suspension (handle_pre_suspension world plan)
              (handle_pre_suspension-Safe world plan (ground (arith, g))))
      | inr g ↦ rw (d, g, select_handler) (phase-SoundIf plan.status.phase refl)
    ]
  ]

-- A reconciliation that does not panic leaves a plan in its phase, suspends it, or takes it along
-- an edge of the state machine.
pub reconcile-Arrow :
    (world : World) (plan : HibernatePlan) (o : Outcome)
    → reconcile world plan ≡ some o
    → Arrow plan.status.phase o.plan.status.phase
reconcile-Arrow world plan o e = (subst (SoundIf plan) e (reconcile-SoundIf world plan)).0

-- A reconciliation that does not panic keeps a coherent plan coherent.
pub reconcile-coherent :
    (world : World) (plan : HibernatePlan) (o : Outcome)
    → coherent plan ≡ true
    → reconcile world plan ≡ some o
    → coherent o.plan ≡ true
reconcile-coherent world plan o c e =
    ground (arith, c, (subst (SoundIf plan) e (reconcile-SoundIf world plan)).1)
