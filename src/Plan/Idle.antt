-- ===== src/Plan/Idle.antt =====
-- Plans that are Active or Hibernated: internal/provider/processor/plan/state/state_idle.go,
-- state_override.go, state_restart.go, and state_lifecycle.go for a new plan.
use hibernator.Prelude.{
  String, Bool, false, not, ◌&&◌, ◌||◌, List, [], ◌∷◌, map, Option, none, some, if◌then◌else◌, ◌==◌,
  lookup, erase,
}
use hibernator.Time.{sub}
use hibernator.Api.{
  PlanPhase, PlanOperation, hibernate, wakeup, Target, HibernatePlan, HibernatePlanSpec,
  PlanSnapshot, ScheduleException,
}
use hibernator.Operation.{transient_error}
use hibernator.Plan.{
  World, Outcome, StateResult, quiet, requeue_now, done, with_status, annotation_is,
  fresh_execution, annotation_override_action, annotation_override_phase_target,
  annotation_override_until, annotation_restart, annotation_fresh,
}
use hibernator.Plan.Effective.{find_active_exception_override, build_effective_spec, locked}

-- The loop of `getExistingCycleIDForHibernation`; the empty string is none.
unfoldable pub live_cycle_id : World → List Target → String
live_cycle_id world [] = ""
live_cycle_id world (t ∷ ts) =
    let rest = live_cycle_id world ts in
    elim (world.restore_data t.name) [
      | none ↦ rest
      | some (is_live, cycle_id) ↦ if is_live && not (cycle_id == "") then cycle_id else rest
    ]

unfoldable pub cycle_id_for : World → Bool → List Target → String
unfolding live_cycle_id
cycle_id_for world fresh targets =
    let existing = live_cycle_id world targets in
    if fresh || existing == "" then world.new_cycle_id else existing

abbrev exception_name : Option ScheduleException → String
exception_name none = ""
exception_name (some e) = e.name

abbrev or_spec : Option HibernatePlanSpec → HibernatePlanSpec → HibernatePlanSpec
or_spec none spec = spec
or_spec (some spec') spec = spec'

-- `transitionToHibernating`
unfoldable pub transition_to_hibernating : World → Bool → HibernatePlan → Outcome
unfolding cycle_id_for find_active_exception_override
transition_to_hibernating world fresh plan =
    let cycle_id = cycle_id_for world fresh plan.spec.targets in
    let e = find_active_exception_override world in
    let spec = or_spec (build_effective_spec e plan.spec) plan.spec in
    let applied = exception_name e in
    done
      (with_status plan (record plan.status {
        phase = PlanPhase.hibernating;
        current_cycle_id = cycle_id;
        current_stage_index = 0;
        current_operation = hibernate;
        executions = map (fresh_execution "Target pending hibernation") spec.targets;
        applied_exception_override = applied;
        last_transition_time = some world.now;
        plan_snapshot =
            if applied == ""
            then plan.status.plan_snapshot
            else some (record {
              cycle_id = cycle_id;
              exception_name = applied;
              targets = spec.targets;
              strategy = spec.strategy;
              behavior = spec.behavior;
            });
      }))
      requeue_now

abbrev wakeup_targets : Option PlanSnapshot → HibernatePlanSpec → List Target
wakeup_targets none spec = spec.targets
wakeup_targets (some snapshot) spec = snapshot.targets

-- `transitionToWakingUp`
unfoldable pub transition_to_waking_up : World → HibernatePlan → Outcome
unfolding locked
transition_to_waking_up world plan =
    done
      (with_status plan (record plan.status {
        phase = PlanPhase.waking_up;
        current_stage_index = 0;
        current_operation = wakeup;
        executions =
            map (fresh_execution "Target pending wakeup")
              (wakeup_targets (locked plan.status) plan.spec);
        last_transition_time = some world.now;
      }))
      requeue_now

-- `idleState.Handle`, where there is a schedule result.
abbrev idle_scheduled : World → HibernatePlan → Bool → Outcome
idle_scheduled world plan should_hibernate = elim (plan.status.phase) [
  | PlanPhase.active ↦
      if should_hibernate then transition_to_hibernating world false plan else done plan quiet
  | PlanPhase.hibernated ↦
      if not should_hibernate && world.has_restore_data
      then transition_to_waking_up world plan
      else done plan quiet
  | _ ↦ done plan quiet
]

-- `idleState.Handle`
unfoldable pub handle_idle : World → HibernatePlan → Outcome
handle_idle world plan = elim (world.schedule) [
  | none ↦ done plan quiet
  | some should_hibernate ↦ idle_scheduled world plan should_hibernate
]

abbrev pub without : String → HibernatePlan → HibernatePlan
without key plan = record plan { annotations = erase key plan.annotations }

-- An annotation is consumed by a patch; where the patch fails the handler ends with its error.
unfoldable pub consume :
    World → StateResult → String → HibernatePlan → (HibernatePlan → Outcome) → Outcome
consume world result key plan next =
    if not (annotation_is plan key "true")
    then next plan
    else if world.accepts (without key plan)
    then next (without key plan)
    else record { plan = without key plan; result = result; error = some transient_error }

abbrev until_result : World → Option String → StateResult
until_result world none = quiet
until_result world (some text) = elim (world.parse_time text) [
  | none ↦ quiet
  | some deadline ↦ record quiet { deadline_after = sub deadline world.now }
]

-- `initStateResult`
unfoldable pub init_state_result : World → HibernatePlan → StateResult
init_state_result world plan =
    until_result world (lookup annotation_override_until plan.annotations)

-- `consumeRestart`, then the executor again if there was a restart to consume.
abbrev restart_then : World → StateResult → HibernatePlan → (HibernatePlan → Outcome) → Outcome
restart_then world result plan next =
    if annotation_is plan annotation_restart "true"
    then consume world result annotation_restart plan next
    else done plan result

abbrev pub override_hibernate : World → StateResult → Bool → HibernatePlan → Outcome
override_hibernate world result fresh plan =
    let go = λ (p : HibernatePlan).
      consume world result annotation_fresh p (transition_to_hibernating world fresh) in
    elim (plan.status.phase) [
      | PlanPhase.active ↦ go plan
      | PlanPhase.hibernated ↦ restart_then world result plan go
      | _ ↦ done plan result
    ]

abbrev pub override_wakeup : World → StateResult → HibernatePlan → Outcome
override_wakeup world result plan =
    let go = λ (p : HibernatePlan).
      if world.has_restore_data
      then consume world result annotation_fresh p (transition_to_waking_up world)
      else done p result in
    elim (plan.status.phase) [
      | PlanPhase.hibernated ↦ go plan
      | PlanPhase.active ↦ restart_then world result plan go
      | _ ↦ done plan result
    ]

-- `overrideActionState.Handle`
unfoldable pub handle_override : World → HibernatePlan → Outcome
unfolding consume
handle_override world plan =
    let result = init_state_result world plan in
    if annotation_is plan annotation_override_phase_target "hibernate"
    then override_hibernate world result (annotation_is plan annotation_fresh "true") plan
    else if annotation_is plan annotation_override_phase_target "wakeup"
    then override_wakeup world result plan
    else done plan result

-- `overrideActionState.OnDeadline`
unfoldable pub override_deadline : World → HibernatePlan → Outcome
override_deadline world plan =
    let plan' =
      without annotation_override_until
        (without annotation_override_phase_target (without annotation_override_action plan)) in
    if world.accepts plan'
    then done plan' quiet
    else record { plan = plan'; result = quiet; error = some transient_error }

abbrev pub restart_operation : World → Bool → HibernatePlan → PlanPhase → PlanOperation → Outcome
restart_operation world fresh plan PlanPhase.hibernated hibernate =
    transition_to_hibernating world fresh plan
restart_operation world fresh plan PlanPhase.active wakeup =
    if world.has_restore_data then transition_to_waking_up world plan else done plan quiet
restart_operation world fresh plan _ _ = done plan quiet

-- `restartState.Handle`
unfoldable pub handle_restart : World → HibernatePlan → Outcome
handle_restart world plan =
    let fresh = annotation_is plan annotation_fresh "true" in
    let plan' = without annotation_fresh (without annotation_restart plan) in
    if world.accepts plan'
    then restart_operation world fresh plan' plan'.status.phase plan'.status.current_operation
    else record { plan = plan'; result = quiet; error = some transient_error }
