-- ===== src/Webhook/Plans.antt =====
-- The validation of plans, internal/validationwebhook/hibernateplan_validator.go, but for the graph of
-- a DAG. An error is its kind and its field, without its text; executorparams is an argument.
use hibernator.Prelude.{
  ℕ, suc, ◌+◌, ◌-◌, ◌*◌, String, Bool, true, false, not, ◌&&◌, ◌||◌, List, [], ◌∷◌, ◌++◌, Option,
  none, some, Map, lookup, insert, elem, length, eqb, leb, ltb, if◌then◌else◌, ◌==◌, map,
}
use hibernator.Prelude.Text.{codes, join, show}
use hibernator.Api.{OffHourWindow, Stage, ExecutionStrategy}
use hibernator.Schedule.Parse.{named_day}

-- The places of errors, by index.
pub data Field : Type 0 where
  timezone off_hours strategy_type dependencies stages targets : Field
  plan_ref plan_ref_name plan_ref_namespace valid_until lead_time windows spec : Field
  target_overrides execution_override override_strategy : Field
  override_name override_parameters override_disabled : ℕ → Field
  window_start window_end window_days : ℕ → Field
  window_day : ℕ → ℕ → Field
  target_name connector_kind connector_name target_type parameters : ℕ → Field
  stage_name stage_targets : ℕ → Field
  stage_target : ℕ → ℕ → Field

-- The errors of the `field` package that are used.
pub data FieldError : Type 0 where
  required invalid duplicate not_supported forbidden missing internal_error : Field → FieldError

-- `connectorRef` and the rest of a target.
pub record TargetForm : Type 0 where
  pub name : String
  pub type : String
  pub connector_kind : String
  pub connector_name : String
  pub parameters : Option String

-- Of the spec of a plan, what is validated.
pub record PlanForm : Type 0 where
  pub timezone : String
  pub off_hours : List OffHourWindow
  pub targets : List TargetForm
  pub strategy : ExecutionStrategy

-- Errors, then warnings.
abbrev pub Findings : Type 0
Findings = List FieldError × List String

abbrev both : Findings → Findings → Findings
both a b = (a.0 ++ b.0, a.1 ++ b.1)

abbrev pub when : Bool → FieldError → List FieldError
when true e = e ∷ []
when false e = []

-- `^([0-1]?[0-9]|2[0-3]):[0-5][0-9]$`
abbrev between : ℕ → ℕ → ℕ → Bool
between low high c = leb low c && leb c high

unfoldable pub matches_time : List ℕ → Bool
matches_time (a ∷ colon ∷ c ∷ d ∷ []) =
    between 48 57 a && eqb colon 58 && between 48 53 c && between 48 57 d
matches_time (a ∷ b ∷ colon ∷ c ∷ d ∷ []) =
    (between 48 49 a && between 48 57 b || eqb a 50 && between 48 51 b)
    && eqb colon 58
    && between 48 53 c
    && between 48 57 d
matches_time _ = false

-- The checks of one time of a window.
unfoldable pub validate_time : Field → String → List FieldError
unfolding matches_time
validate_time place text =
    if text == ""
    then required place ∷ []
    else when (not (matches_time (codes text))) (invalid place)

unfoldable pub validate_days : ℕ → ℕ → List String → List FieldError
unfolding named_day
validate_days i j [] = []
validate_days i j (day ∷ days) =
    elim (named_day (codes day)) [ none ↦ not_supported (window_day i j) ∷ [] | some known ↦ [] ]
    ++ validate_days i (suc j) days

abbrev pub no_days : ℕ → List String → List FieldError
no_days i [] = required (window_days i) ∷ []
no_days i (day ∷ days) = []

-- The errors of one turn of the loop of `validateSchedule`.
unfoldable pub validate_window : ℕ → OffHourWindow → List FieldError
unfolding validate_time validate_days
validate_window i w =
    validate_time (window_start i) w.start
    ++ validate_time (window_end i) w.end
    ++ when (not (w.start == "") && not (w.end == "") && w.start == w.end)
        (invalid (window_start i))
    ++ no_days i w.days_of_week
    ++ validate_days i 0 w.days_of_week

-- The gap from the start to the end, and the warning about a gap of one minute. `scan` is the
-- reading of a time by `fmt.Sscanf`.
module _ (scan : String → Option (ℕ × ℕ)) where
  abbrev gap : ℕ → ℕ → ℕ
  gap start end = if leb start end then end - start else 24 * 60 - start + end

  abbrev short_gap : ℕ × ℕ → ℕ × ℕ → Bool
  short_gap s e = let g = gap (s.0 * 60 + s.1) (e.0 * 60 + e.1) in ltb 0 g && leb g 1

  unfoldable pub window_warning : ℕ → OffHourWindow → List String
  window_warning i w = elim (scan w.start) [
    | none ↦ []
    | some s ↦ elim (scan w.end) [
      | none ↦ []
      | some e ↦
          if not (w.start == "") && not (w.end == "") && not (w.start == w.end) && short_gap s e
          then join "detected wakeup window within 1 minute gap: offHours " (show i) ∷ []
          else []
    ]
  ]

  unfoldable pub validate_windows : ℕ → List OffHourWindow → Findings
  unfolding validate_window window_warning
  validate_windows i [] = ([], [])
  validate_windows i (w ∷ rest) =
      both (validate_window i w, window_warning i w) (validate_windows (suc i) rest)

  -- `validateSchedule`
  unfoldable pub validate_schedule : PlanForm → Findings
  unfolding validate_windows
  validate_schedule plan =
      both
        (
          when (plan.timezone == "") (required timezone)
              ++ when (eqb (length plan.off_hours) 0) (required off_hours),
          [],
        )
        (validate_windows 0 plan.off_hours)

-- `validateTargets`; `check` is `executorparams.ValidateParams` of a type and its parameters.
module _ (check : String → Option String → List String × List String) where
  abbrev valid_types : List String
  valid_types =
      "ec2" ∷ "eks" ∷ "rds" ∷ "karpenter" ∷ "workloadscaler" ∷ "gke" ∷ "cloudsql" ∷ "noop" ∷ []

  abbrev validate_connector : ℕ → TargetForm → List FieldError
  validate_connector i t =
      (if t.connector_kind == ""
        then required (connector_kind i) ∷ []
        else when
            (not (t.connector_kind == "CloudProvider") && not (t.connector_kind == "K8SCluster"))
            (not_supported (connector_kind i)))
      ++ when (t.connector_name == "") (required (connector_name i))

  abbrev validate_parameters : ℕ → TargetForm → Findings
  validate_parameters i t =
      let result = check t.type t.parameters in
      (
        map (λ text. invalid (parameters i)) result.0,
        map (λ text. join "target \"" (join t.name (join "\": " text))) result.1,
      )

  unfoldable pub validate_target : ℕ → Map ℕ → TargetForm → Findings
  unfolding lookup
  validate_target i seen t =
      both
        (
          elim (lookup t.name seen) [ none ↦ [] | some first ↦ duplicate (target_name i) ∷ [] ]
              ++ validate_connector i t
              ++ when (not (elem t.type valid_types)) (not_supported (target_type i)),
          [],
        )
        (validate_parameters i t)

  unfoldable pub validate_targets : ℕ → Map ℕ → List TargetForm → Findings
  unfolding validate_target insert
  validate_targets i seen [] = ([], [])
  validate_targets i seen (t ∷ rest) =
      both (validate_target i seen t) (validate_targets (suc i) (insert t.name i seen) rest)

-- `validateStaged`: the targets of a stage, the stages, and the targets without a stage.
unfoldable pub validate_stage_targets :
    ℕ → ℕ → List String → String → Map String → List String → List FieldError × Map String
unfolding lookup insert
validate_stage_targets i j names stage assigned [] = ([], assigned)
validate_stage_targets i j names stage assigned (t ∷ rest) =
    let later = validate_stage_targets i (suc j) names stage (insert t stage assigned) rest in
    (
      when (not (elem t names)) (invalid (stage_target i j))
          ++ elim (lookup t assigned) [ none ↦ [] | some other ↦ duplicate (stage_target i j) ∷ [] ]
          ++ later.0,
      later.1,
    )

unfoldable pub validate_stages :
    ℕ → List String → Map ℕ → Map String → List Stage → List FieldError × Map String
unfolding validate_stage_targets lookup insert
validate_stages i names seen assigned [] = ([], assigned)
validate_stages i names seen assigned (s ∷ rest) =
    let own = validate_stage_targets i 0 names s.name assigned s.targets in
    let later = validate_stages (suc i) names (insert s.name i seen) own.1 rest in
    (
      elim (lookup s.name seen) [ none ↦ [] | some first ↦ duplicate (stage_name i) ∷ [] ]
          ++ when (eqb (length s.targets) 0) (required (stage_targets i))
          ++ own.0
          ++ later.0,
      later.1,
    )

unfoldable pub unassigned : Map String → List String → List FieldError
unfolding lookup
unassigned assigned [] = []
unassigned assigned (name ∷ names) =
    elim (lookup name assigned) [ none ↦ invalid stages ∷ [] | some stage ↦ [] ]
    ++ unassigned assigned names

unfoldable pub validate_staged : List String → List Stage → List FieldError
unfolding validate_stages unassigned
validate_staged names [] = required stages ∷ []
validate_staged names (s ∷ rest) =
    let found = validate_stages 0 names [] [] (s ∷ rest) in found.0 ++ unassigned found.1 names
