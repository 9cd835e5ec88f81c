-- ===== src/Webhook/Admission.antt =====
-- The validation of schedule exceptions, internal/validationwebhook/scheduleexception_validator.go. The
-- API server, time.Parse, time.ParseDuration and executorparams are arguments.
use hibernator.Prelude.{
  ℕ, suc, ◌*◌, String, Bool, true, false, not, ◌&&◌, ◌||◌, List, [], ◌∷◌, ◌++◌, Option, none, some,
  any, elem, length, eqb, if◌then◌else◌, ◌==◌, map,
}
use hibernator.Prelude.Int.{pos, ltb_ℤ}
use hibernator.Prelude.Text.{codes}
use hibernator.Time.{before, sub, hour}
use hibernator.Api.{
  OffHourWindow, Dependency, StrategyType, dag, suspend, ExceptionState, expired, detached,
  TargetOverride, ExecutionOverride,
}
use hibernator.Status.{Fetched, found, not_found, fetch_failed}
use hibernator.Exceptions.Handlers.{PlanView}
use hibernator.Webhook.{windows_collide, is_allowed_type_pair}
use hibernator.Webhook.Plans.{
  plan_ref, plan_ref_name, plan_ref_namespace, valid_until, lead_time, windows, spec,
  target_overrides, execution_override, override_strategy, override_name, override_parameters,
  override_disabled, window_start, window_end, window_day, FieldError, required, invalid,
  not_supported, forbidden, missing, internal_error, TargetForm, PlanForm, Findings, when, no_days,
  matches_time,
}
use hibernator.Webhook.Changes.{
  ExceptionForm, same_type, override_fields_changed, check_mid_cycle_block,
}

-- `validatePlanRef`
abbrev target_namespace : ExceptionForm → String
target_namespace e = if e.plan_namespace == "" then e.namespace else e.plan_namespace

unfoldable pub validate_plan_ref : Fetched PlanForm → ExceptionForm → Findings
validate_plan_ref plan e =
    if e.plan_name == ""
    then (required plan_ref_name ∷ [], [])
    else if not (target_namespace e == e.namespace)
    then (invalid plan_ref_namespace ∷ [], [])
    else elim plan [
      | found p ↦ ([], [])
      | not_found ↦ ([], "HibernatePlan not found" ∷ [])
      | fetch_failed problem ↦ (internal_error plan_ref_name ∷ [], [])
    ]

-- `validateTimeRange`
unfoldable pub validate_time_range : ExceptionForm → List FieldError
unfolding sub
validate_time_range e =
    when (not (before e.valid_from e.valid_until)) (invalid valid_until)
    ++ when (ltb_ℤ (pos (90 * 24 * hour)) (sub e.valid_until e.valid_from)) (invalid valid_until)

-- `validateWindows`, with days in upper case.
abbrev valid_days : List String
valid_days = "MON" ∷ "TUE" ∷ "WED" ∷ "THU" ∷ "FRI" ∷ "SAT" ∷ "SUN" ∷ []

unfoldable pub exception_days : ℕ → ℕ → List String → List FieldError
exception_days i j [] = []
exception_days i j (day ∷ days) =
    when (not (elem day valid_days)) (invalid (window_day i j)) ++ exception_days i (suc j) days

unfoldable pub exception_windows : ℕ → List OffHourWindow → List FieldError
unfolding matches_time exception_days
exception_windows i [] = []
exception_windows i (w ∷ rest) =
    when (not (matches_time (codes w.start))) (invalid (window_start i))
    ++ when (not (matches_time (codes w.end))) (invalid (window_end i))
    ++ no_days i w.days_of_week
    ++ exception_days i 0 w.days_of_week
    ++ exception_windows (suc i) rest

unfoldable pub validate_exception_windows : ExceptionForm → List FieldError
unfolding exception_windows
validate_exception_windows e =
    if eqb (length e.windows) 0 then required windows ∷ [] else exception_windows 0 e.windows

-- What may stand in the way of an exception: another one, neither Expired nor Detached, whose period
-- overlaps with its own.
abbrev pub is_same : ExceptionForm → ExceptionForm → Bool
is_same e other = other.namespace == e.namespace && other.name == e.name

abbrev pub is_over : Option ExceptionState → Bool
is_over (some expired) = true
is_over (some detached) = true
is_over _ = false

abbrev pub concerns : ExceptionForm → ExceptionForm → Bool
concerns e other =
    not (is_same e other)
    && not (is_over other.state)
    && before e.valid_from other.valid_until
    && before other.valid_from e.valid_until

-- `validateNoOverlappingExceptions`, on the exceptions that are listed, or `none` for an error.
module _ (parse : String → Option (ℕ × ℕ)) where
  abbrev pub collides : ExceptionForm → ExceptionForm → Bool
  collides e other = concerns e other && windows_collide parse e.windows other.windows

  unfoldable pub overlapping : ExceptionForm → List ExceptionForm → List FieldError
  unfolding windows_collide is_allowed_type_pair
  overlapping e [] = []
  overlapping e (other ∷ rest) =
      if collides e other
      then (if same_type e.type other.type
          then forbidden plan_ref_name ∷ []
          else if not (is_allowed_type_pair e.type other.type)
          then forbidden plan_ref_name ∷ []
          else overlapping e rest)
      else overlapping e rest

  unfoldable pub validate_no_overlapping_exceptions :
      Option (List ExceptionForm) → ExceptionForm → List FieldError
  unfolding overlapping
  validate_no_overlapping_exceptions none e = internal_error plan_ref ∷ []
  validate_no_overlapping_exceptions (some others) e = overlapping e others

-- `hasDependencyOn`
unfoldable pub has_dependency_on : PlanForm → String → Bool
has_dependency_on plan name = elim plan.strategy.type [
  | dag ↦ any (λ (d : Dependency). d.from == name) plan.strategy.dependencies
  | _ ↦ false
]

-- `validateExecutionOverrides`: the targets of a plan, of which the last one of a name counts.
unfoldable pub find_form : String → List TargetForm → Option TargetForm
find_form name [] = none
find_form name (t ∷ rest) = elim (find_form name rest) [
  | some later ↦ some later
  | none ↦ if t.name == name then some t else none
]

module _ (check : String → Option String → List String × List String) where
  abbrev override_parameters_of : ℕ → TargetForm → TargetOverride → List FieldError
  override_parameters_of i target o = elim o.parameters [
    | none ↦ []
    | some raw ↦
        if raw == ""
        then []
        else map (λ text. invalid (override_parameters i)) (check target.type (some raw)).0
  ]

  unfoldable pub validate_overrides : ℕ → PlanForm → List TargetOverride → List FieldError
  unfolding find_form has_dependency_on
  validate_overrides i plan [] = []
  validate_overrides i plan (o ∷ rest) =
      elim (find_form o.target_name plan.targets) [
        | none ↦ missing (override_name i) ∷ []
        | some target ↦
            override_parameters_of i target o
            ++ when (o.disabled && has_dependency_on plan o.target_name)
                (invalid (override_disabled i))
      ]
      ++ validate_overrides (suc i) plan rest

  abbrev known_type : StrategyType → Bool
  known_type (StrategyType.unknown text) = false
  known_type _ = true

  abbrev pub execution_type : Option ExecutionOverride → List FieldError
  execution_type none = []
  execution_type (some o) = elim o.strategy [
    | none ↦ []
    | some strategy ↦ when (not (known_type strategy.type)) (not_supported override_strategy)
  ]

  abbrev pub is_present : Option ExecutionOverride → Bool
  is_present none = false
  is_present (some o) = true

  abbrev pub has_overrides : ExceptionForm → Bool
  has_overrides e = not (eqb (length e.overrides) 0) || is_present e.override

  -- The only exception with overrides; an error of the list is passed over.
  unfoldable pub second_override : ExceptionForm → List ExceptionForm → List FieldError
  second_override e [] = []
  second_override e (other ∷ rest) =
      if concerns e other && has_overrides other
      then forbidden spec ∷ []
      else second_override e rest

  abbrev pub overrides_on_suspend : ExceptionForm → List FieldError
  overrides_on_suspend e =
      when (not (eqb (length e.overrides) 0)) (forbidden target_overrides)
      ++ when (is_present e.override) (forbidden execution_override)

  abbrev pub overrides_of_plan : Fetched PlanForm → ExceptionForm → List FieldError
  overrides_of_plan plan e = if eqb (length e.overrides) 0 then [] else elim plan [
    | found p ↦ validate_overrides 0 p e.overrides
    | not_found ↦ []
    | fetch_failed problem ↦ internal_error plan_ref ∷ []
  ]

  abbrev pub only_overrides : Option (List ExceptionForm) → ExceptionForm → List FieldError
  only_overrides none e = []
  only_overrides (some others) e = if has_overrides e then second_override e others else []

  unfoldable pub validate_execution_overrides :
      Fetched PlanForm → Option (List ExceptionForm) → ExceptionForm → List FieldError
  unfolding validate_overrides second_override
  validate_execution_overrides plan others e = elim e.type [
    | suspend ↦ overrides_on_suspend e
    | _ ↦ overrides_of_plan plan e ++ execution_type e.override ++ only_overrides others e
  ]

  -- `validateTypeSpecificFields`, with `time.ParseDuration` as a test, and `validate`.
  module _ (is_duration : String → Bool) (parse : String → Option (ℕ × ℕ)) where
    unfoldable pub validate_type_specific_fields : ExceptionForm → List FieldError
    validate_type_specific_fields e =
        when (not (e.lead_time == "") && not (same_type e.type suspend)) (invalid lead_time)
        ++ when (not (e.lead_time == "") && not (is_duration e.lead_time)) (invalid lead_time)

    unfoldable pub validate :
        Fetched PlanForm → Option (List ExceptionForm) → ExceptionForm → Findings
    unfolding validate_plan_ref validate_time_range validate_type_specific_fields
        validate_exception_windows validate_no_overlapping_exceptions validate_execution_overrides
    validate plan others e = elim e.deletion_timestamp [
      | some time ↦ ([], [])
      | none ↦ (
        (validate_plan_ref plan e).0
            ++ (validate_time_range e
                ++ (validate_type_specific_fields e
                    ++ (validate_exception_windows e
                        ++ (validate_no_overlapping_exceptions parse others e
                            ++ validate_execution_overrides plan others e)))),
        (validate_plan_ref plan e).1,
      )
    ]

    -- `ValidateCreate` is `validate`; `ValidateUpdate` and `ValidateDelete`: `none` is a refusal without
    -- a validation.
    unfoldable pub validate_update :
        Fetched PlanView
        → Fetched PlanForm
        → Option (List ExceptionForm)
        → ExceptionForm
        → ExceptionForm
        → Option Findings
    unfolding override_fields_changed check_mid_cycle_block validate
    validate_update view plan others old new =
        if override_fields_changed old new && check_mid_cycle_block view new
        then none
        else some (validate plan others new)

unfoldable pub validate_delete : Fetched PlanView → ExceptionForm → Option Findings
unfolding check_mid_cycle_block
validate_delete view e = if check_mid_cycle_block view e then none else some ([], [])
