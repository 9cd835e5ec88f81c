-- ===== src/Plan/Invariant.antt =====
-- The invariant that ties a plan's phase to its operation, kept by suspension, by resumption, and
-- by recovery.
use hibernator.Prelude.{
  String, ◌≡◌, refl, Bool, true, false, not, ◌&&◌, ◌||◌, inl, inr, ◌⊎◌, Bool-cases, Option-cases,
  List, Option, none, some, arith, ◌==◌, eq_iff, lookup, lookup-insert, lookup-erase,
}
use hibernator.Api.{PlanPhase, HibernatePlan, PlanOperation, hibernate, wakeup}
use hibernator.Jobs.{Job}
use hibernator.Operation.{update_execution_statuses}
use hibernator.Plan.{
  World, Outcome, phase_text, text_is, annotation_suspended_at_phase, annotation_suspend_until,
}
use hibernator.Plan.Starts.{calm}
use hibernator.Plan.Running.{get_current_cycle_jobs}
use hibernator.Plan.Suspension.{
  perform_suspension, drain_then_suspend, handle_pre_suspension, cleanup_suspension_annotations,
  resume_at, resume_from_error, resume_from, resume, handle_suspended, revoked, resume_otherwise,
  should_force_wake_up, text_of, suspending,
}
use hibernator.Plan.Select.{is_suspended}

abbrev pub is_hibernate : PlanOperation → Bool
is_hibernate hibernate = true
is_hibernate _ = false

abbrev pub is_wakeup : PlanOperation → Bool
is_wakeup wakeup = true
is_wakeup _ = false

abbrev pub coherent_at : PlanPhase → PlanOperation → Option String → Bool
coherent_at PlanPhase.hibernating op at = is_hibernate op
coherent_at PlanPhase.waking_up op at = is_wakeup op
coherent_at PlanPhase.error op at = is_hibernate op || is_wakeup op
coherent_at PlanPhase.suspended op at =
    (not (text_is at "Hibernating") || is_hibernate op)
    && (not (text_is at "WakingUp") || is_wakeup op)
coherent_at (PlanPhase.unknown text) op at = false
coherent_at _ op at = true

-- The phase is known; a plan that hibernates or wakes up, failed, or was suspended while it did,
-- runs the operation of that phase.
abbrev pub coherent : HibernatePlan → Bool
coherent plan =
    coherent_at plan.status.phase plan.status.current_operation
      (lookup annotation_suspended_at_phase plan.annotations)

-- The edges of the state machine, but for the one to the phase Suspended.
abbrev pub edge : PlanPhase → PlanPhase → Bool
edge PlanPhase.unset PlanPhase.active = true
edge PlanPhase.active PlanPhase.hibernating = true
edge PlanPhase.active PlanPhase.waking_up = true
edge PlanPhase.hibernated PlanPhase.hibernating = true
edge PlanPhase.hibernated PlanPhase.waking_up = true
edge PlanPhase.hibernating PlanPhase.hibernated = true
edge PlanPhase.hibernating PlanPhase.error = true
edge PlanPhase.waking_up PlanPhase.active = true
edge PlanPhase.waking_up PlanPhase.error = true
edge PlanPhase.error PlanPhase.hibernating = true
edge PlanPhase.error PlanPhase.waking_up = true
edge PlanPhase.suspended PlanPhase.active = true
edge PlanPhase.suspended PlanPhase.hibernated = true
edge PlanPhase.suspended PlanPhase.hibernating = true
edge PlanPhase.suspended PlanPhase.waking_up = true
edge _ _ = false

-- A reconciliation keeps the phase, suspends the plan, or follows an edge.
abbrev pub Arrow : PlanPhase → PlanPhase → Type 0
Arrow p q = (q ≡ p) ⊎ ((q ≡ PlanPhase.suspended) ⊎ (edge p q ≡ true))

abbrev pub keeps : HibernatePlan → HibernatePlan → Bool
keeps before after = not (coherent before) || coherent after

abbrev pub Sound : HibernatePlan → HibernatePlan → Type 0
Sound before after = Arrow before.status.phase after.status.phase × (keeps before after ≡ true)

abbrev pub Safe : HibernatePlan → Outcome → Type 0
Safe before o = (calm o.error ≡ true) × Sound before o.plan

recorded :
    (p : PlanPhase) (op : PlanOperation) (at : Option String)
    → is_suspended p ≡ false
    → coherent_at p op at ≡ true
    → coherent_at PlanPhase.suspended op (some (phase_text p)) ≡ true
unfolding phase_text
recorded PlanPhase.unset op at h c = ground arith
recorded PlanPhase.pending op at h c = ground arith
recorded PlanPhase.active op at h c = ground arith
recorded PlanPhase.hibernating op at h c = ground arith
recorded PlanPhase.hibernated op at h c = ground arith
recorded PlanPhase.waking_up op at h c = ground arith
recorded PlanPhase.suspended op at h c = ground arith
recorded PlanPhase.error op at h c = ground arith
recorded (PlanPhase.unknown text) op at h c = ground arith

pub suspending-lookup :
    (plan : HibernatePlan)
    → lookup annotation_suspended_at_phase (suspending plan).annotations
      ≡ some (phase_text plan.status.phase)
suspending-lookup plan = ground (
  arith,
  lookup-insert annotation_suspended_at_phase annotation_suspended_at_phase
      (phase_text plan.status.phase) plan.annotations,
)

module _ (world : World) where
  perform_suspension-Safe :
      (plan : HibernatePlan)
      → is_suspended plan.status.phase ≡ false
      → Safe plan (perform_suspension world plan)
  unfolding perform_suspension
  perform_suspension-Safe plan h =
      let at = lookup annotation_suspended_at_phase plan.annotations in
      elim (Bool-cases (coherent plan)) [
        | inl c ↦ ground (
          arith,
          c,
          suspending-lookup plan,
          recorded plan.status.phase plan.status.current_operation at h c,
        )
        | inr c ↦ ground (arith, c)
      ]

  drain_then_suspend-Safe :
      (plan : HibernatePlan) (jobs : Option (List Job))
      → is_suspended plan.status.phase ≡ false
      → Safe plan (drain_then_suspend world plan jobs)
  unfolding drain_then_suspend update_execution_statuses
  drain_then_suspend-Safe plan none h = ground arith
  drain_then_suspend-Safe plan (some jobs) h =
      let plan' = record plan {
        status = update_execution_statuses world.answers jobs plan.status;
      } in
      ground (arith, perform_suspension-Safe plan' h)

  pub handle_pre_suspension-Safe :
      (plan : HibernatePlan)
      → is_suspended plan.status.phase ≡ false
      → Safe plan (handle_pre_suspension world plan)
  unfolding handle_pre_suspension
  handle_pre_suspension-Safe plan h = ground (
    arith,
    perform_suspension-Safe plan h,
    drain_then_suspend-Safe plan (get_current_cycle_jobs world plan.status) h,
  )

  -- Where a resumed plan is, by the phase that was recorded.
  abbrev Resumed : String → HibernatePlan → HibernatePlan → Type 0
  Resumed at before after =
      (after.status.current_operation ≡ before.status.current_operation)
      × ((after.status.phase ≡ PlanPhase.active)
          ⊎ ((after.status.phase ≡ PlanPhase.hibernated)
              ⊎ (((after.status.phase ≡ PlanPhase.hibernating) × (at == "Hibernating" ≡ true))
                  ⊎ ((after.status.phase ≡ PlanPhase.waking_up) × (at == "WakingUp" ≡ true)))))

  otherwise-Resumed :
      (at : String) (plan : HibernatePlan)
      → ((resume_otherwise world at plan).status.current_operation ≡ plan.status.current_operation)
        × (((resume_otherwise world at plan).status.phase ≡ PlanPhase.active)
            ⊎ ((resume_otherwise world at plan).status.phase ≡ PlanPhase.hibernated))
  unfolding resume_at cleanup_suspension_annotations
  otherwise-Resumed at plan = elim (Bool-cases (should_force_wake_up world at)) [
    | inl e ↦ rw e (refl, inr refl)
    | inr e ↦ rw e (refl, inl refl)
  ]

  resume_from-Resumed :
      (at : String) (plan : HibernatePlan) → Resumed at plan (resume_from world at plan)
  unfolding resume_from resume_at resume_from_error cleanup_suspension_annotations
  resume_from-Resumed at plan = elim (Bool-cases (at == "Error")) [
    | inl e ↦ rw e (refl, ground arith)
    | inr e ↦ elim (Option-cases world.schedule) [
      | inl s ↦ rw (e, s) (ground (arith, otherwise-Resumed at plan))
      | inr (should_hibernate, s) ↦ elim (Bool-cases (at == "Hibernating")) [
        | inl h ↦ rw (e, s, h) (ground arith)
        | inr h ↦ elim (Bool-cases (at == "WakingUp")) [
          | inl w ↦ rw (e, s, h, w) (ground arith)
          | inr w ↦ rw (e, s, h, w) (ground (arith, otherwise-Resumed at plan))
        ]
      ]
    ]
  ]

  Resumed-Sound :
      (at : String) (before after : HibernatePlan)
      → before.status.phase ≡ PlanPhase.suspended
      → at == "Hibernating"
        ≡ text_is (lookup annotation_suspended_at_phase before.annotations) "Hibernating"
      → at == "WakingUp"
        ≡ text_is (lookup annotation_suspended_at_phase before.annotations) "WakingUp"
      → Resumed at before after
      → Sound before after
  Resumed-Sound at before after h a b r = ground (arith, h)

  text_of-is :
      (text : Option String) (value : String)
      → not (value == "") ≡ true
      → text_of text == value ≡ text_is text value
  text_of-is none value h = ground (arith, eq_iff value "", eq_iff "" value)
  text_of-is (some t) value h = refl

  resume-Safe :
      (plan : HibernatePlan)
      → plan.status.phase ≡ PlanPhase.suspended
      → Safe plan (resume world plan)
  unfolding resume
  resume-Safe plan h =
      let at = lookup annotation_suspended_at_phase plan.annotations in
      (
        refl,
        Resumed-Sound (text_of at) plan (resume_from world (text_of at) plan) h
            (text_of-is at "Hibernating" refl) (text_of-is at "WakingUp" refl)
            (resume_from-Resumed (text_of at) plan),
      )

  revoked-lookup :
      (plan : HibernatePlan)
      → lookup annotation_suspended_at_phase (revoked plan).annotations
        ≡ lookup annotation_suspended_at_phase plan.annotations
  revoked-lookup plan =
      ground (
        arith,
        lookup-erase annotation_suspend_until annotation_suspended_at_phase plan.annotations,
      )

  pub handle_suspended-Safe :
      (plan : HibernatePlan)
      → plan.status.phase ≡ PlanPhase.suspended
      → Safe plan (handle_suspended world plan)
  unfolding handle_suspended
  handle_suspended-Safe plan h =
      ground (arith, h, revoked-lookup plan, resume-Safe plan h, resume-Safe (revoked plan) h)
