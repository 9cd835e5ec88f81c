-- ===== src/Schedule/CarveOut.antt =====
-- A suspension keeps resources awake.
use hibernator.Prelude.{
  String, Bool, true, false, ◌&&◌, List, [], ◌∷◌, Option, none, some, ◌≡◌, ◌∙◌, any, arith, eqb,
  length,
}
use hibernator.Api.{suspend, OffHourWindow}
use hibernator.Schedule.{Location, ScheduleEvaluator, Exception, EvaluationResult, ok}
use hibernator.Schedule.Windows.{is_in_time_windows, window_contains, minutes_now}
use hibernator.Schedule.Suspension.{suspended_result, suspended_state, apply_suspend}
use hibernator.Schedule.Pipeline.{same_type, evaluate}
use hibernator.Schedule.Merged.{some_passes, any-merge_by_type, active_passes, any-filter_active}
use hibernator.Schedule.Composition.{suspend_when, active_of, merged_suspension, evaluate-stages}

-- A window of a suspension that is active now contains the time.
abbrev pub suspended_at : ScheduleEvaluator → Location → List (Option Exception) → Bool
suspended_at e location exceptions =
    any
      (active_passes e
        (λ m. same_type m.type suspend && is_in_time_windows location m.windows e.now))
      exceptions

merged_suspension-windows :
    (e : ScheduleEvaluator) (location : Location) (exceptions : List (Option Exception))
    → some_passes
        (window_contains (location.weekday e.now) (minutes_now location e.now))
        (merged_suspension e exceptions)
      ≡ suspended_at e location exceptions
unfolding is_in_time_windows
merged_suspension-windows e location exceptions =
    any-merge_by_type (window_contains (location.weekday e.now) (minutes_now location e.now))
      (active_of e exceptions) suspend
    ∙ any-filter_active e _ exceptions

any-nonempty {ℓ} :
    {A : Type ℓ} (p : A → Bool) (xs : List A) → any p xs ≡ true → eqb (length xs) 0 ≡ false
any-nonempty p [] h = cc
any-nonempty p (x ∷ xs) h = ground arith

suspend_when-awake :
    (e : ScheduleEvaluator) (location : Location) (sus : Option Exception) (timezone : String)
    (base r : EvaluationResult)
    → e.library.load_location timezone ≡ some location
    → some_passes (window_contains (location.weekday e.now) (minutes_now location e.now)) sus ≡ true
    → suspend_when e sus timezone base ≡ ok r
    → r.should_hibernate ≡ false
unfolding apply_suspend suspended_result suspended_state is_in_time_windows
suspend_when-awake e location none timezone base r loaded inside h = ground arith
suspend_when-awake e location (some sus) timezone base r loaded inside h =
    ground (arith, any-nonempty _ sus.windows inside)

-- While the time of the clock lies in a window of a suspension that is listed and valid now, no
-- result of `Evaluate` says to hibernate, whatever the plan's windows and the other exceptions are.
pub evaluate-suspended :
    (e : ScheduleEvaluator) (location : Location) (base : List OffHourWindow) (timezone : String)
    (exceptions : List (Option Exception)) (r : EvaluationResult)
    → e.library.load_location timezone ≡ some location
    → suspended_at e location exceptions ≡ true
    → evaluate e base timezone exceptions ≡ ok (some r)
    → r.should_hibernate ≡ false
evaluate-suspended e location base timezone exceptions r loaded inside h =
    let (_, second, _, _, h3) = evaluate-stages e base timezone exceptions r h in
    suspend_when-awake e location (merged_suspension e exceptions) timezone second r loaded
      (merged_suspension-windows e location exceptions ∙ inside) h3
