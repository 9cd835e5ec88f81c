-- ===== src/Plan/Effective.antt =====
-- The plan that a cycle runs, internal/provider/processor/plan/state/state.go: the one locked at
-- its start, or the live one under the overrides of the active exception.
use hibernator.Prelude.{
  String, Bool, true, false, not, ◌&&◌, ◌||◌, List, [], ◌∷◌, filter, Option, none, some,
  if◌then◌else◌, ◌==◌,
}
use hibernator.Time.{Time, before, after}
use hibernator.Api.{
  Target, HibernatePlan, HibernatePlanSpec, HibernatePlanStatus, PlanSnapshot, ScheduleException,
  TargetOverride, ExecutionOverride, ExceptionState, ExceptionType,
}
use hibernator.Plan.{World}

abbrev is_some {ℓ} : {A : Type ℓ} → Option A → Bool
is_some none = false
is_some (some a) = true

abbrev nonempty {ℓ} : {A : Type ℓ} → List A → Bool
nonempty [] = false
nonempty (a ∷ rest) = true

abbrev is_active : ExceptionState → Bool
is_active ExceptionState.active = true
is_active _ = false

abbrev is_suspend : ExceptionType → Bool
is_suspend ExceptionType.suspend = true
is_suspend _ = false

-- The tests of the loop of `findActiveExceptionOverride`, and of `validateRuntimeOverrides`.
unfoldable pub overrides_at : Time → ScheduleException → Bool
overrides_at now e =
    is_active e.state
    && not (is_suspend e.type)
    && before e.valid_from now
    && before now e.valid_until
    && not (is_some e.deletion_timestamp)
    && (nonempty e.target_overrides || is_some e.execution_override)

abbrev newer : ScheduleException → Option ScheduleException → Bool
newer e none = true
newer e (some best) = after e.creation_timestamp best.creation_timestamp

unfoldable pub latest_override :
    Time → List ScheduleException → Option ScheduleException → Option ScheduleException
latest_override now [] best = best
latest_override now (e ∷ es) best =
    latest_override now es (if overrides_at now e && newer e best then some e else best)

-- `findActiveExceptionOverride`
unfoldable pub find_active_exception_override : World → Option ScheduleException
unfolding latest_override
find_active_exception_override world = latest_override world.now world.exceptions none

abbrev or_else {ℓ} : {A : Type ℓ} → Option A → A → A
or_else none a = a
or_else (some b) a = b

abbrev override_execution : Option ExecutionOverride → HibernatePlanSpec → HibernatePlanSpec
override_execution none spec = spec
override_execution (some o) spec = record spec {
  strategy = or_else o.strategy spec.strategy;
  behavior = or_else o.behavior spec.behavior;
}

unfoldable pub drop_disabled : List TargetOverride → List Target → List Target
drop_disabled [] targets = targets
drop_disabled (o ∷ os) targets =
    drop_disabled os
      (if o.disabled then filter (λ t. not (t.name == o.target_name)) targets else targets)

-- `targetMap` holds the last target of each name.
abbrev has_name : String → List Target → Bool
has_name name [] = false
has_name name (t ∷ ts) = t.name == name || has_name name ts

unfoldable pub set_parameters : TargetOverride → List Target → List Target
set_parameters o [] = []
set_parameters o (t ∷ ts) =
    if t.name == o.target_name && not (has_name o.target_name ts)
    then record t { parameters = if is_some o.parameters then o.parameters else t.parameters } ∷ ts
    else t ∷ set_parameters o ts

unfoldable pub override_parameters : List TargetOverride → List Target → List Target
override_parameters [] targets = targets
override_parameters (o ∷ os) targets =
    override_parameters os (if o.disabled then targets else set_parameters o targets)

-- `buildEffectivePlan`, of the exception it finds.
unfoldable pub override_spec : ScheduleException → HibernatePlanSpec → HibernatePlanSpec
unfolding drop_disabled override_parameters
override_spec e spec =
    let spec' = override_execution e.execution_override spec in
    record spec' {
      targets =
          override_parameters e.target_overrides (drop_disabled e.target_overrides spec'.targets);
    }

-- `buildEffectivePlan`, where the exception is `find_active_exception_override`.
abbrev pub build_effective_spec :
    Option ScheduleException → HibernatePlanSpec → Option HibernatePlanSpec
build_effective_spec none spec = none
build_effective_spec (some e) spec = some (override_spec e spec)

abbrev current_snapshot : String → Option PlanSnapshot → Option PlanSnapshot
current_snapshot cycle_id none = none
current_snapshot cycle_id (some snapshot) =
    if snapshot.cycle_id == cycle_id then some snapshot else none

-- The snapshot that locks the current cycle.
unfoldable pub locked : HibernatePlanStatus → Option PlanSnapshot
locked status = current_snapshot status.current_cycle_id status.plan_snapshot

abbrev snapshot_spec : HibernatePlanSpec → PlanSnapshot → HibernatePlanSpec
snapshot_spec spec snapshot = record spec {
  targets = snapshot.targets;
  strategy = snapshot.strategy;
  behavior = snapshot.behavior;
}

-- `effectivePlan`: the spec of the copy, or `none` where it is the plan itself.
unfoldable pub effective_spec : World → HibernatePlan → Option HibernatePlanSpec
unfolding locked
effective_spec world plan = elim (locked plan.status) [
  | some snapshot ↦ some (snapshot_spec plan.spec snapshot)
  | none ↦ build_effective_spec (find_active_exception_override world) plan.spec
]

abbrev valid_target : World → Target → Bool
valid_target world t = elim (t.parameters) [
  | none ↦ true
  | some raw ↦ raw == "" || world.valid_params t.type raw
]

-- `validateTargetOverrides` finds no error.
unfoldable pub valid_targets : World → List Target → Bool
valid_targets world [] = true
valid_targets world (t ∷ ts) = valid_target world t && valid_targets world ts

abbrev any_override : Time → List ScheduleException → Bool
any_override now [] = false
any_override now (e ∷ es) = overrides_at now e || any_override now es

-- `validateRuntimeOverrides` of the effective plan finds no error.
unfoldable pub valid_runtime_overrides : World → HibernatePlanSpec → HibernatePlanStatus → Bool
unfolding locked
valid_runtime_overrides world spec status = elim (locked status) [
  | some snapshot ↦ valid_targets world snapshot.targets
  | none ↦ not (any_override world.now world.exceptions) || valid_targets world spec.targets
]
