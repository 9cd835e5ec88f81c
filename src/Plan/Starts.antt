-- ===== src/Plan/Starts.antt =====
-- What the handlers of idle plans change of a status: nothing, or they start an operation.
use hibernator.Prelude.{
  String, ◌≡◌, refl, Bool, true, false, not, inl, inr, ◌⊎◌, Bool-cases, Option, none, some,
  if◌then◌else◌, arith,
}
use hibernator.Api.{PlanPhase, HibernatePlan, HibernatePlanStatus, PlanOperation, hibernate, wakeup}
use hibernator.Operation.{HandlerError}
use hibernator.Plan.{
  World, Outcome, StateResult, annotation_fresh, annotation_restart, annotation_is, done,
  is_plan_error,
}
use hibernator.Plan.Idle.{
  transition_to_hibernating, transition_to_waking_up, handle_idle, handle_override, handle_restart,
  consume, without, restart_operation, override_hibernate, override_wakeup, init_state_result,
}

-- No error of the plan.
abbrev pub calm : Option HandlerError → Bool
calm none = true
calm (some e) = not (is_plan_error e)

abbrev pub Begun : HibernatePlanStatus → HibernatePlanStatus → Type 0
Begun before after =
    (after ≡ before)
    ⊎ (((after.phase ≡ PlanPhase.hibernating) × (after.current_operation ≡ hibernate))
        ⊎ ((after.phase ≡ PlanPhase.waking_up) × (after.current_operation ≡ wakeup)))

-- The status stays as it is, or an operation starts; no error is one of the plan.
abbrev pub Started : HibernatePlan → Outcome → Type 0
Started before o = (calm o.error ≡ true) × Begun before.status o.plan.status

module _ (world : World) where
  hibernating-Started :
      (fresh : Bool) (before plan : HibernatePlan)
      → Started before (transition_to_hibernating world fresh plan)
  unfolding transition_to_hibernating
  hibernating-Started fresh before plan = (refl, inr (inl (refl, refl)))

  waking_up-Started :
      (before plan : HibernatePlan) → Started before (transition_to_waking_up world plan)
  unfolding transition_to_waking_up
  waking_up-Started before plan = (refl, inr (inr (refl, refl)))

  pub handle_idle-Started : (plan : HibernatePlan) → Started plan (handle_idle world plan)
  unfolding handle_idle
  handle_idle-Started plan =
      ground (arith, hibernating-Started false plan plan, waking_up-Started plan plan)

  consume-Started :
      (result : StateResult) (key : String) (before plan : HibernatePlan)
      (next : HibernatePlan → Outcome)
      → plan.status ≡ before.status
      → ((p : HibernatePlan) → p.status ≡ before.status → Started before (next p))
      → Started before (consume world result key plan next)
  unfolding consume
  consume-Started result key before plan next h k = ground (arith, k plan h, k (without key plan) h)

  restart_operation-Started :
      (fresh : Bool) (before plan : HibernatePlan) (phase : PlanPhase) (op : PlanOperation)
      → plan.status ≡ before.status
      → Started before (restart_operation world fresh plan phase op)
  restart_operation-Started fresh before plan phase op h =
      ground (arith, hibernating-Started fresh before plan, waking_up-Started before plan)

  pub handle_restart-Started : (plan : HibernatePlan) → Started plan (handle_restart world plan)
  unfolding handle_restart
  handle_restart-Started plan =
      let plan' = without annotation_fresh (without annotation_restart plan) in
      elim (Bool-cases (world.accepts plan')) [
        | inl e ↦
            rw (e, handle_restart)
              (restart_operation-Started (annotation_is plan annotation_fresh "true") plan plan'
                plan.status.phase plan.status.current_operation refl)
        | inr e ↦ rw (e, handle_restart) (refl, inl refl)
      ]

  fresh_hibernating-Started :
      (result : StateResult) (fresh : Bool) (before plan : HibernatePlan)
      → plan.status ≡ before.status
      → Started before
          (consume world result annotation_fresh plan (transition_to_hibernating world fresh))
  fresh_hibernating-Started result fresh before plan h =
      consume-Started result annotation_fresh before plan (transition_to_hibernating world fresh) h
        (λ p e. hibernating-Started fresh before p)

  override_hibernate-Started :
      (result : StateResult) (fresh : Bool) (plan : HibernatePlan)
      → Started plan (override_hibernate world result fresh plan)
  override_hibernate-Started result fresh plan = ground (
    arith,
    fresh_hibernating-Started result fresh plan plan refl,
    consume-Started result annotation_restart plan plan
        (λ p. consume world result annotation_fresh p (transition_to_hibernating world fresh)) refl
        (fresh_hibernating-Started result fresh plan),
  )

  fresh_waking_up-Started :
      (result : StateResult) (before plan : HibernatePlan)
      → plan.status ≡ before.status
      → Started before (
          if world.has_restore_data
          then consume world result annotation_fresh plan (transition_to_waking_up world)
          else done plan result)
  fresh_waking_up-Started result before plan h = ground (
    arith,
    consume-Started result annotation_fresh before plan (transition_to_waking_up world) h
        (λ p e. waking_up-Started before p),
  )

  override_wakeup-Started :
      (result : StateResult) (plan : HibernatePlan)
      → Started plan (override_wakeup world result plan)
  override_wakeup-Started result plan = ground (
    arith,
    fresh_waking_up-Started result plan plan refl,
    consume-Started result annotation_restart plan plan
        (λ p.
          if world.has_restore_data
          then consume world result annotation_fresh p (transition_to_waking_up world)
          else done p result)
        refl (fresh_waking_up-Started result plan),
  )

  pub handle_override-Started : (plan : HibernatePlan) → Started plan (handle_override world plan)
  unfolding handle_override
  handle_override-Started plan =
      let result = init_state_result world plan in
      ground (
        arith,
        override_hibernate-Started result (annotation_is plan annotation_fresh "true") plan,
        override_wakeup-Started result plan,
      )
