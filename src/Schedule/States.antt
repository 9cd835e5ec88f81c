-- ===== src/Schedule/States.antt =====
-- The state's text and the decision of every result agree.
use hibernator.Prelude.{String, List, [], ◌∷◌, Option, none, some, ◌≡◌, if◌then◌else◌, arith}
use hibernator.Time.{Time, Duration}
use hibernator.Api.{OffHourWindow}
use hibernator.Schedule.{
  Location, ScheduleEvaluator, ScheduleWindow, Exception, EvaluationResult, hibernated, active, ok,
  wrap, require, convert_window, >>=-eq-ok,
}
use hibernator.Schedule.Parse.{parse_window_to_cron}
use hibernator.Schedule.Evaluate.{
  Occurrences, with_grace, eval, eval_window, combine, combine_windows, evaluate_windows,
  state_text, window_schedule, extended, apply_extend,
}
use hibernator.Schedule.Suspension.{suspended_result, apply_suspend}
use hibernator.Schedule.Pipeline.{evaluate}
use hibernator.Schedule.Composition.{
  extend_when, suspend_when, merged_base, merged_extension, merged_suspension, evaluate-stages,
}

abbrev Agrees : EvaluationResult → Type 0
Agrees r = r.current_state ≡ state_text r.should_hibernate

with_grace-Agrees :
    (location : Location) (windows : List OffHourWindow) (now : Time) (buffer : Duration)
    (o : Occurrences) (r : EvaluationResult)
    → with_grace location windows now buffer o ≡ ok r
    → Agrees r
unfolding with_grace
with_grace-Agrees location windows now buffer o r h = ground arith

eval-Agrees :
    (e : ScheduleEvaluator) (window : ScheduleWindow) (r : EvaluationResult)
    → eval e window ≡ ok r
    → Agrees r
unfolding eval
eval-Agrees e window r h =
    let (location, _, h1) = >>=-eq-ok (require (e.library.load_location window.timezone) _) _ r h in
    let (hibernate, _, h2) =
      >>=-eq-ok (require (e.library.parse_cron window.hibernate_cron) _) _ r h1 in
    let (wake_up, _, h3) =
      >>=-eq-ok (require (e.library.parse_cron window.wake_up_cron) _) _ r h2 in
    with_grace-Agrees location window.windows e.now e.schedule_buffer _ r h3

eval_window-Agrees :
    (e : ScheduleEvaluator) (timezone : String) (window : OffHourWindow) (r : EvaluationResult)
    → eval_window e timezone window ≡ ok r
    → Agrees r
unfolding eval_window
eval_window-Agrees e timezone window r h =
    let (crons, _, rest) =
      >>=-eq-ok
        (wrap convert_window (parse_window_to_cron window.start window.end window.days_of_week)) _ r
        h in
    eval-Agrees e (window_schedule timezone window crons) r rest

combine-Agrees :
    (combined result : EvaluationResult) → Agrees combined → Agrees (combine combined result)
unfolding combine
combine-Agrees combined result agrees = ground arith

combine_windows-Agrees :
    (e : ScheduleEvaluator) (timezone : String) (combined : EvaluationResult)
    (windows : List OffHourWindow) (r : EvaluationResult)
    → Agrees combined
    → combine_windows e timezone combined windows ≡ ok r
    → Agrees r
unfolding combine_windows
combine_windows-Agrees e timezone combined [] r agrees h = ground arith
combine_windows-Agrees e timezone combined (window ∷ windows) r agrees h =
    let (result, _, rest) = >>=-eq-ok (eval_window e timezone window) _ r h in
    combine_windows-Agrees e timezone (combine combined result) windows r
      (combine-Agrees combined result agrees) rest

evaluate_windows-Agrees :
    (e : ScheduleEvaluator) (windows : List OffHourWindow) (timezone : String)
    (r : EvaluationResult)
    → evaluate_windows e windows timezone ≡ ok r
    → Agrees r
unfolding evaluate_windows
evaluate_windows-Agrees e [] timezone r h = ground arith
evaluate_windows-Agrees e (window ∷ windows) timezone r h =
    let (first, got, rest) = >>=-eq-ok (eval_window e timezone window) _ r h in
    combine_windows-Agrees e timezone first windows r
      (eval_window-Agrees e timezone window first got) rest

apply_extend-Agrees :
    (e : ScheduleEvaluator) (base : EvaluationResult) (windows : List OffHourWindow)
    (timezone : String) (r : EvaluationResult)
    → apply_extend e base windows timezone ≡ ok r
    → Agrees r
unfolding apply_extend extended
apply_extend-Agrees e base windows timezone r h = ground arith

apply_suspend-Agrees :
    (e : ScheduleEvaluator) (base : EvaluationResult) (exception : Exception) (timezone : String)
    (r : EvaluationResult)
    → Agrees base
    → apply_suspend e base exception timezone ≡ ok r
    → Agrees r
unfolding apply_suspend suspended_result
apply_suspend-Agrees e base exception timezone r agrees h = ground arith

extend_when-Agrees :
    (e : ScheduleEvaluator) (ext : Option Exception) (timezone : String) (base r : EvaluationResult)
    → Agrees base
    → extend_when e ext timezone base ≡ ok r
    → Agrees r
extend_when-Agrees e none timezone base r agrees h = ground arith
extend_when-Agrees e (some ext) timezone base r agrees h =
    apply_extend-Agrees e base ext.windows timezone r h

suspend_when-Agrees :
    (e : ScheduleEvaluator) (sus : Option Exception) (timezone : String) (base r : EvaluationResult)
    → Agrees base
    → suspend_when e sus timezone base ≡ ok r
    → Agrees r
suspend_when-Agrees e none timezone base r agrees h = ground arith
suspend_when-Agrees e (some sus) timezone base r agrees h =
    apply_suspend-Agrees e base sus timezone r agrees h

-- In every result of `Evaluate`, with any windows and exceptions, `CurrentState` is "hibernated" if
-- and only if `ShouldHibernate` is set, and "active" otherwise.
pub evaluate-state :
    (e : ScheduleEvaluator) (base : List OffHourWindow) (timezone : String)
    (exceptions : List (Option Exception)) (r : EvaluationResult)
    → evaluate e base timezone exceptions ≡ ok (some r)
    → r.current_state ≡ (if r.should_hibernate then hibernated else active)
evaluate-state e base timezone exceptions r h =
    let (first, second, h1, h2, h3) = evaluate-stages e base timezone exceptions r h in
    let agrees =
      suspend_when-Agrees e (merged_suspension e exceptions) timezone second r
        (extend_when-Agrees e (merged_extension e exceptions) timezone first second
          (evaluate_windows-Agrees e (merged_base e base exceptions) timezone first h1) h2)
        h3 in
    ground arith
