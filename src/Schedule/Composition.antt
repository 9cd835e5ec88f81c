-- ===== src/Schedule/Composition.antt =====
-- `Evaluate` as a chain of its stages, with no nil result on the way.
use hibernator.Prelude.{String, List, Option, none, some, ◌≡◌, sym, ◌∙◌, arith}
use hibernator.Api.{extend, suspend, replace, OffHourWindow}
use hibernator.Schedule.{
  ScheduleEvaluator, Exception, EvaluationResult, EvaluateError, Attempt, ok, err, panics, ◌>>=◌,
  >>=-eq-ok,
}
use hibernator.Schedule.Evaluate.{evaluate_windows, apply_extend}
use hibernator.Schedule.Suspension.{apply_suspend}
use hibernator.Schedule.Pipeline.{
  run_stages, run_evaluation_pipeline, effective_windows, filter_active, merge_by_type, evaluate,
}

abbrev pub extend_when :
    ScheduleEvaluator
    → Option Exception
    → String
    → EvaluationResult
    → Attempt EvaluateError EvaluationResult
extend_when e none timezone r = ok r
extend_when e (some ext) timezone r = apply_extend e r ext.windows timezone

abbrev pub suspend_when :
    ScheduleEvaluator
    → Option Exception
    → String
    → EvaluationResult
    → Attempt EvaluateError EvaluationResult
suspend_when e none timezone r = ok r
suspend_when e (some sus) timezone r = apply_suspend e r sus timezone

-- The stages as one chain, on results that are not nil.
unfoldable pub chain :
    ScheduleEvaluator
    → Attempt EvaluateError EvaluationResult
    → Option Exception
    → Option Exception
    → String
    → Attempt EvaluateError EvaluationResult
chain e base ext sus timezone = do
  first ← base
  second ← extend_when e ext timezone first
  suspend_when e sus timezone second

abbrev pub not_nil :
    Attempt EvaluateError EvaluationResult → Attempt EvaluateError (Option EvaluationResult)
not_nil (ok r) = ok (some r)
not_nil (err e) = err e
not_nil panics = panics

abbrev pub active_of : ScheduleEvaluator → List (Option Exception) → List Exception
active_of e exceptions = filter_active e exceptions

-- `Evaluate` merges the active exceptions by type, evaluates the windows of the replacement, or of
-- the plan where there is none, and applies the extension, then the suspension. It returns no nil
-- result, and reads none.
pub evaluate-chain :
    (e : ScheduleEvaluator) (base : List OffHourWindow) (timezone : String)
    (exceptions : List (Option Exception))
    → evaluate e base timezone exceptions
      ≡ not_nil (
          chain e
            (evaluate_windows e
              (effective_windows base (merge_by_type (active_of e exceptions) replace))
              timezone)
            (merge_by_type (active_of e exceptions) extend)
            (merge_by_type (active_of e exceptions) suspend)
            timezone)
unfolding evaluate run_evaluation_pipeline run_stages chain
evaluate-chain e base timezone exceptions = ground arith

-- The windows, the extension and the suspension of a list of exceptions.
abbrev pub merged_base :
    ScheduleEvaluator → List OffHourWindow → List (Option Exception) → List OffHourWindow
merged_base e base exceptions =
    effective_windows base (merge_by_type (active_of e exceptions) replace)

abbrev pub merged_extension : ScheduleEvaluator → List (Option Exception) → Option Exception
merged_extension e exceptions = merge_by_type (active_of e exceptions) extend

abbrev pub merged_suspension : ScheduleEvaluator → List (Option Exception) → Option Exception
merged_suspension e exceptions = merge_by_type (active_of e exceptions) suspend

not_nil-some :
    (m : Attempt EvaluateError EvaluationResult) (r : EvaluationResult)
    → not_nil m ≡ ok (some r)
    → m ≡ ok r
not_nil-some m r h = ground arith

pub evaluate-stages :
    (e : ScheduleEvaluator) (base : List OffHourWindow) (timezone : String)
    (exceptions : List (Option Exception)) (r : EvaluationResult)
    → evaluate e base timezone exceptions ≡ ok (some r)
    → (first : EvaluationResult) × (second : EvaluationResult) × (evaluate_windows e
          (merged_base e base exceptions)
          timezone
        ≡ ok first)
      × (extend_when e (merged_extension e exceptions) timezone first ≡ ok second)
      × (suspend_when e (merged_suspension e exceptions) timezone second ≡ ok r)
unfolding chain
evaluate-stages e base timezone exceptions r h =
    let whole = not_nil-some _ r (sym (evaluate-chain e base timezone exceptions) ∙ h) in
    let (first, h1, rest) =
      >>=-eq-ok (evaluate_windows e (merged_base e base exceptions) timezone) _ r whole in
    let (second, h2, h3) =
      >>=-eq-ok (extend_when e (merged_extension e exceptions) timezone first) _ r rest in
    (first, second, h1, h2, h3)
