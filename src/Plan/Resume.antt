-- ===== src/Plan/Resume.antt =====
-- A suspension in the middle of an execution, and the resumption after it.
use hibernator.Prelude.{
  ◌≡◌, refl, Bool, true, false, none, some, arith, ap, ◌∙◌, lookup, erase, lookup-erase,
}
use hibernator.Api.{PlanPhase, HibernatePlan, HibernatePlanStatus}
use hibernator.Plan.Invariant.{suspending-lookup}
use hibernator.Plan.{
  World, with_status, phase_text, annotation_suspended_at_phase, annotation_suspend_reason,
}
use hibernator.Plan.Suspension.{
  perform_suspension, suspending, is_executing, resume, resume_from, resume_at,
  cleanup_suspension_annotations, text_of,
}

-- The schedule wants what the plan is doing.
abbrev pub wanted : PlanPhase → Bool
wanted PlanPhase.hibernating = true
wanted _ = false

abbrev pub resumed_status : World → HibernatePlanStatus → HibernatePlanStatus
resumed_status later status = record status {
  error_message = "";
  last_transition_time = some later.now;
}

resume_from-executing :
    (later : World) (plan : HibernatePlan) (phase : PlanPhase)
    → is_executing phase ≡ true
    → later.schedule ≡ some (wanted phase)
    → resume_from later (phase_text phase) plan ≡ resume_at later phase plan
unfolding resume_from phase_text
resume_from-executing later plan PlanPhase.hibernating h s = rw s refl
resume_from-executing later plan PlanPhase.waking_up h s = rw s refl
resume_from-executing later plan PlanPhase.unset h s = cc
resume_from-executing later plan PlanPhase.pending h s = cc
resume_from-executing later plan PlanPhase.active h s = cc
resume_from-executing later plan PlanPhase.hibernated h s = cc
resume_from-executing later plan PlanPhase.suspended h s = cc
resume_from-executing later plan PlanPhase.error h s = cc
resume_from-executing later plan (PlanPhase.unknown text) h s = cc

abbrev suspended_plan : World → HibernatePlan → HibernatePlan
suspended_plan world plan = with_status (suspending plan) (record plan.status {
  phase = PlanPhase.suspended;
  error_message = "";
  last_transition_time = some world.now;
})

resume-suspended_plan :
    (world later : World) (plan : HibernatePlan)
    → is_executing plan.status.phase ≡ true
    → later.schedule ≡ some (wanted plan.status.phase)
    → (resume later (suspended_plan world plan)).plan
      ≡ resume_at later plan.status.phase (suspended_plan world plan)
unfolding resume
resume-suspended_plan world later plan h s =
    ap (λ at. resume_from later (text_of at) (suspended_plan world plan)) (suspending-lookup plan)
    ∙ resume_from-executing later (suspended_plan world plan) plan.status.phase h s

resume_at-status :
    (world later : World) (plan : HibernatePlan)
    → let resumed = resume_at later plan.status.phase (suspended_plan world plan) in
      (resumed.status ≡ resumed_status later plan.status)
      × (lookup annotation_suspended_at_phase resumed.annotations ≡ none)
unfolding resume_at cleanup_suspension_annotations
resume_at-status world later plan =
    let annotations = (suspending plan).annotations in
    (
      refl,
      ground (
        arith,
        lookup-erase annotation_suspended_at_phase annotation_suspended_at_phase annotations,
        lookup-erase annotation_suspend_reason annotation_suspended_at_phase
            (erase annotation_suspended_at_phase annotations),
      ),
    )

-- A plan that is suspended while it hibernates or wakes up, and resumed while the schedule still
-- wants that, goes on where it was: its status is as it was, the phase, the cycle, the operation,
-- the stage, the executions and the retries included, but for a cleared error message and the
-- time; and the record of the suspension is gone.
pub resume-perform_suspension :
    (world later : World) (plan : HibernatePlan)
    → is_executing plan.status.phase ≡ true
    → world.accepts (suspending plan) ≡ true
    → later.schedule ≡ some (wanted plan.status.phase)
    → let resumed = (resume later (perform_suspension world plan).plan).plan in
      (resumed.status ≡ resumed_status later plan.status)
      × (lookup annotation_suspended_at_phase resumed.annotations ≡ none)
unfolding perform_suspension
resume-perform_suspension world later plan h a s =
    rw (a, perform_suspension, resume-suspended_plan world later plan h s)
      (resume_at-status world later plan)
