-- ===== src/Webhook/Changes.antt =====
-- A schedule exception as it is validated, and the changes of it that are refused while its plan runs an
-- operation, internal/validationwebhook/scheduleexception_validator.go.
use hibernator.Prelude.{
  String, Bool, true, false, not, ◌&&◌, ◌||◌, List, [], ◌∷◌, Option, none, some, if◌then◌else◌,
  ◌==◌,
}
use hibernator.Prelude.Int.{ℤ, eqb_ℤ}
use hibernator.Time.{Time}
use hibernator.Api.{
  OffHourWindow, PlanPhase, Stage, Dependency, ExecutionStrategy, Behavior, BehaviorMode, strict,
  best_effort, StrategyType, sequential, parallel, dag, staged, ExceptionType, extend, suspend,
  replace, ExceptionState, TargetOverride, ExecutionOverride,
}
use hibernator.Status.{Fetched, found, not_found, fetch_failed}
use hibernator.Exceptions.Handlers.{PlanView}

-- Of `ScheduleException`, what is validated.
pub record ExceptionForm : Type 0 where
  pub name : String
  pub namespace : String
  pub deletion_timestamp : Option Time
  pub plan_name : String
  pub plan_namespace : String
  pub type : ExceptionType
  pub valid_from : Time
  pub valid_until : Time
  pub lead_time : String
  pub windows : List OffHourWindow
  pub overrides : List TargetOverride
  pub override : Option ExecutionOverride
  pub state : Option ExceptionState

abbrev pub same_type : ExceptionType → ExceptionType → Bool
same_type extend extend = true
same_type suspend suspend = true
same_type replace replace = true
same_type _ _ = false

-- `ptrEqual`, `parametersEqual`
abbrev ptr_equal : Option ℤ → Option ℤ → Bool
ptr_equal none none = true
ptr_equal (some a) (some b) = eqb_ℤ a b
ptr_equal _ _ = false

abbrev parameters_equal : Option String → Option String → Bool
parameters_equal none none = true
parameters_equal (some a) (some b) = a == b
parameters_equal _ _ = false

-- `slices.EqualFunc`
unfoldable equal_func {ℓ} : {A : Type ℓ} → (A → A → Bool) → List A → List A → Bool
equal_func same [] [] = true
equal_func same (a ∷ as') (b ∷ bs) = same a b && equal_func same as' bs
equal_func same _ _ = false

abbrev same_strategy_type : StrategyType → StrategyType → Bool
same_strategy_type sequential sequential = true
same_strategy_type parallel parallel = true
same_strategy_type dag dag = true
same_strategy_type staged staged = true
same_strategy_type (StrategyType.unknown a) (StrategyType.unknown b) = a == b
same_strategy_type _ _ = false

abbrev same_stage : Stage → Stage → Bool
same_stage a b =
    a.name == b.name
    && same_bool a.parallel b.parallel
    && ptr_equal a.max_concurrency b.max_concurrency
    && equal_func (λ s t. s == t) a.targets b.targets
  where
    same_bool : Bool → Bool → Bool
    same_bool true b = b
    same_bool false b = not b

-- `executionStrategyEqual`
unfoldable execution_strategy_equal : Option ExecutionStrategy → Option ExecutionStrategy → Bool
unfolding equal_func
execution_strategy_equal none none = true
execution_strategy_equal (some a) (some b) =
    same_strategy_type a.type b.type
    && ptr_equal a.max_concurrency b.max_concurrency
    && equal_func (λ (d : Dependency) (e : Dependency). d.from == e.from && d.to == e.to)
        a.dependencies b.dependencies
    && equal_func same_stage a.stages b.stages
execution_strategy_equal _ _ = false

-- `behaviorEqual`
abbrev same_mode : BehaviorMode → BehaviorMode → Bool
same_mode strict strict = true
same_mode best_effort best_effort = true
same_mode _ _ = false

unfoldable behavior_equal : Option Behavior → Option Behavior → Bool
behavior_equal none none = true
behavior_equal (some a) (some b) =
    same_mode a.mode b.mode
    && (if a.fail_fast then b.fail_fast else not b.fail_fast)
    && ptr_equal a.retries b.retries
behavior_equal _ _ = false

-- `overrideFieldsChanged`
abbrev same_override : TargetOverride → TargetOverride → Bool
same_override a b =
    a.target_name == b.target_name
    && (if a.disabled then b.disabled else not b.disabled)
    && parameters_equal a.parameters b.parameters

abbrev same_execution : Option ExecutionOverride → Option ExecutionOverride → Bool
same_execution none none = true
same_execution (some a) (some b) =
    execution_strategy_equal a.strategy b.strategy && behavior_equal a.behavior b.behavior
same_execution _ _ = false

unfoldable pub override_fields_changed : ExceptionForm → ExceptionForm → Bool
unfolding equal_func execution_strategy_equal behavior_equal
override_fields_changed old new =
    not (equal_func same_override old.overrides new.overrides)
    || not (same_execution old.override new.override)

-- `checkMidCycleBlock`: whether it returns an error.
abbrev mid_cycle : PlanPhase → Bool
mid_cycle PlanPhase.hibernating = true
mid_cycle PlanPhase.waking_up = true
mid_cycle _ = false

unfoldable pub check_mid_cycle_block : Fetched PlanView → ExceptionForm → Bool
check_mid_cycle_block (found plan) e =
    mid_cycle plan.phase && plan.applied_exception_override == e.name
check_mid_cycle_block not_found e = false
check_mid_cycle_block (fetch_failed problem) e = true
