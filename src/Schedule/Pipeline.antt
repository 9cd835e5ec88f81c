-- ===== src/Schedule/Pipeline.antt =====
-- The evaluation with exceptions: Evaluate and filterActive of schedule.go, and evaluate.go.
use hibernator.Prelude.{
  String, Bool, true, false, not, ◌&&◌, List, [], ◌∷◌, ◌++◌, Option, none, some, filter,
  if◌then◌else◌,
}
use hibernator.Prelude.Int.{pos, ltb_ℤ}
use hibernator.Time.{before, after}
use hibernator.Api.{ExceptionType, extend, suspend, replace, OffHourWindow}
use hibernator.Schedule.{
  ScheduleEvaluator, Exception, EvaluationResult, EvaluateError, Attempt, ok, panics, ◌>>=◌,
}
use hibernator.Schedule.Evaluate.{evaluate_windows, apply_extend}
use hibernator.Schedule.Suspension.{apply_suspend}

-- `isExceptionActive`
unfoldable pub is_exception_active : ScheduleEvaluator → Exception → Bool
is_exception_active e exception =
    not (before e.now exception.valid_from) && not (after e.now exception.valid_until)

-- `filterActive`; a nil entry is `none`.
unfoldable pub filter_active : ScheduleEvaluator → List (Option Exception) → List Exception
unfolding is_exception_active
filter_active e [] = []
filter_active e (none ∷ exceptions) = filter_active e exceptions
filter_active e (some exception ∷ exceptions) =
    if is_exception_active e exception
    then exception ∷ filter_active e exceptions
    else filter_active e exceptions

abbrev pub same_type : ExceptionType → ExceptionType → Bool
same_type extend extend = true
same_type suspend suspend = true
same_type replace replace = true
same_type _ _ = false

-- One turn of the loop of `mergeByType`.
unfoldable pub merge_one : Exception → Exception → Exception
merge_one merged m = record {
  type = merged.type;
  valid_from = if before m.valid_from merged.valid_from then m.valid_from else merged.valid_from;
  valid_until =
      if after m.valid_until merged.valid_until then m.valid_until else merged.valid_until;
  lead_time = if ltb_ℤ merged.lead_time m.lead_time then m.lead_time else merged.lead_time;
  windows = merged.windows ++ m.windows;
}

unfoldable pub merge_all : Exception → List Exception → Exception
unfolding merge_one
merge_all merged [] = merged
merge_all merged (m ∷ matches) = merge_all (merge_one merged m) matches

-- `mergeByType`
abbrev pub start_merge : ExceptionType → Exception → Exception
start_merge type first = record {
  type = type;
  valid_from = first.valid_from;
  valid_until = first.valid_until;
  lead_time = pos 0;
  windows = [];
}

abbrev pub merge_matches : ExceptionType → List Exception → Option Exception
merge_matches type [] = none
merge_matches type (only ∷ []) = some only
merge_matches type (first ∷ second ∷ rest) =
    some (merge_all (start_merge type first) (first ∷ second ∷ rest))

unfoldable pub merge_by_type : List Exception → ExceptionType → Option Exception
unfolding merge_all
merge_by_type exceptions type = merge_matches type (filter (λ m. same_type m.type type) exceptions)

-- `evaluationStep`; a nil pointer is `none`.
abbrev pub EvaluationStep : Type 0
EvaluationStep = Option EvaluationResult → Attempt EvaluateError (Option EvaluationResult)

-- `evaluateWhen`
abbrev pub evaluate_when : Bool → EvaluationStep → EvaluationStep
evaluate_when true step = step
evaluate_when false step = λ prev. ok prev

-- `runEvaluationPipeline`
unfoldable pub run_stages :
    Option EvaluationResult → List EvaluationStep → Attempt EvaluateError (Option EvaluationResult)
run_stages result [] = ok result
run_stages result (stage ∷ stages) = stage result >>= λ next. run_stages next stages

unfoldable pub run_evaluation_pipeline :
    List EvaluationStep → Attempt EvaluateError (Option EvaluationResult)
unfolding run_stages
run_evaluation_pipeline stages = run_stages none stages

-- A function of a result as a stage; to read a nil result is a panic.
abbrev stage_of : (EvaluationResult → Attempt EvaluateError EvaluationResult) → EvaluationStep
stage_of f none = panics
stage_of f (some prev) = f prev >>= λ result. ok (some result)

abbrev pub effective_windows : List OffHourWindow → Option Exception → List OffHourWindow
effective_windows base none = base
effective_windows base (some rep) = rep.windows

abbrev pub base_stage : ScheduleEvaluator → List OffHourWindow → String → EvaluationStep
base_stage e windows timezone = λ _. evaluate_windows e windows timezone >>= λ r. ok (some r)

abbrev pub extend_stage : ScheduleEvaluator → Option Exception → String → EvaluationStep
extend_stage e none timezone = evaluate_when false (stage_of (λ r. ok r))
extend_stage e (some ext) timezone =
    evaluate_when true (stage_of (λ r. apply_extend e r ext.windows timezone))

abbrev pub suspend_stage : ScheduleEvaluator → Option Exception → String → EvaluationStep
suspend_stage e none timezone = evaluate_when false (stage_of (λ r. ok r))
suspend_stage e (some sus) timezone =
    evaluate_when true (stage_of (λ r. apply_suspend e r sus timezone))

-- `Evaluate`
unfoldable pub evaluate :
    ScheduleEvaluator
    → List OffHourWindow
    → String
    → List (Option Exception)
    → Attempt EvaluateError (Option EvaluationResult)
unfolding run_evaluation_pipeline filter_active merge_by_type evaluate_windows apply_extend
    apply_suspend
evaluate e base_windows timezone exceptions =
    let act = filter_active e exceptions in
    run_evaluation_pipeline (
      base_stage e (effective_windows base_windows (merge_by_type act replace)) timezone
      ∷ extend_stage e (merge_by_type act extend) timezone
      ∷ suspend_stage e (merge_by_type act suspend) timezone
      ∷ [])
