-- ===== src/Schedule/Evaluate.antt =====
-- The evaluation of one window, of a list of windows, and of an extension: eval, evaluateWindows,
-- applyExtend and NextRequeueTime of schedule.go, earlierTime of evaluate.go.
use hibernator.Prelude.{
  ◌*◌, String, Bool, true, false, not, ◌&&◌, ◌||◌, List, [], ◌∷◌, Option, none, some, if◌then◌else◌,
}
use hibernator.Prelude.Int.{pos, ltb_ℤ, ◌+ℤ◌, wrap64}
use hibernator.Time.{Time, Duration, add, sub, is_zero, before, after, second, minute}
use hibernator.Api.{OffHourWindow}
use hibernator.Schedule.{
  Location, CronSchedule, ScheduleEvaluator, ScheduleWindow, CurrentState, active, hibernated,
  EvaluationResult, EvaluateError, invalid_timezone, invalid_hibernate_cron, invalid_wake_up_cron,
  convert_window, exception_windows, Attempt, ok, ◌>>=◌, wrap, require,
}
use hibernator.Schedule.Parse.{parse_window_to_cron}
use hibernator.Schedule.Windows.{
  is_in_time_windows, is_in_grace_time_window, start_boundary, end_boundary,
}
use hibernator.Schedule.Last.{find_last_occurrence}

-- `earlierTime`
unfoldable pub earlier_time : Time → Time → Time
earlier_time a b = if is_zero a then b else if is_zero b then a else if before a b then a else b

-- The text of the state.
abbrev pub state_text : Bool → CurrentState
state_text true = hibernated
state_text false = active

-- What `eval` computes before the grace periods.
pub record Occurrences : Type 0 where
  pub last_hibernate : Time
  pub last_wake_up : Time
  pub next_hibernate : Time
  pub next_wake_up : Time

unfoldable pub occurrences_at : Location → CronSchedule → CronSchedule → Time → Occurrences
unfolding find_last_occurrence
occurrences_at location hibernate wake_up now = record {
  last_hibernate = find_last_occurrence (hibernate location) now;
  last_wake_up = find_last_occurrence (wake_up location) now;
  next_hibernate = hibernate location now;
  next_wake_up = wake_up location now;
}

-- The three results of `eval`: without a grace period, in one after the start, after the end.
abbrev plain : Occurrences → Bool → EvaluationResult
plain o should_hibernate = record {
  should_hibernate = should_hibernate;
  next_hibernate_time = o.next_hibernate;
  next_wake_up_time = o.next_wake_up;
  current_state = state_text should_hibernate;
  in_grace_period = false;
  grace_period_end = 0;
}

abbrev start_grace : Occurrences → Duration → EvaluationResult
start_grace o buffer =
    let end = add o.last_hibernate buffer in
    record {
      should_hibernate = false;
      next_hibernate_time = if before end o.next_hibernate then end else o.next_hibernate;
      next_wake_up_time = o.next_wake_up;
      current_state = active;
      in_grace_period = true;
      grace_period_end = end;
    }

abbrev end_grace : Occurrences → Duration → EvaluationResult
end_grace o buffer =
    let end = add o.last_wake_up buffer in
    record {
      should_hibernate = true;
      next_hibernate_time = o.next_hibernate;
      next_wake_up_time = if before end o.next_wake_up then end else o.next_wake_up;
      current_state = hibernated;
      in_grace_period = true;
      grace_period_end = end;
    }

-- The last hibernation is not within the buffer after the last wake-up.
abbrev continuous : Occurrences → Duration → Bool
continuous o buffer = not (before (add o.last_wake_up buffer) o.last_hibernate)

unfoldable pub with_grace :
    Location
    → List OffHourWindow
    → Time
    → Duration
    → Occurrences
    → Attempt EvaluateError EvaluationResult
unfolding is_in_grace_time_window add
with_grace location windows now buffer o =
    if after o.last_hibernate o.last_wake_up
    then (if ltb_ℤ (pos 0) buffer && not (continuous o buffer)
        then (is_in_grace_time_window location start_boundary windows now buffer >>= λ hit.
            ok (if hit then start_grace o buffer else plain o true))
        else ok (plain o true))
    else if ltb_ℤ (pos 0) buffer
    then (is_in_grace_time_window location end_boundary windows now buffer >>= λ hit.
        ok (if hit then end_grace o buffer else plain o false))
    else ok (plain o false)

-- `eval`
unfoldable pub eval : ScheduleEvaluator → ScheduleWindow → Attempt EvaluateError EvaluationResult
unfolding with_grace occurrences_at
eval e window = do
  location ← require (e.library.load_location window.timezone) (invalid_timezone window.timezone)
  hibernate ←
      require (e.library.parse_cron window.hibernate_cron)
        (invalid_hibernate_cron window.hibernate_cron)
  wake_up ←
      require (e.library.parse_cron window.wake_up_cron) (invalid_wake_up_cron window.wake_up_cron)
  with_grace location window.windows e.now e.schedule_buffer
      (occurrences_at location hibernate wake_up e.now)

abbrev pub window_schedule : String → OffHourWindow → String × String → ScheduleWindow
window_schedule timezone window crons = record {
  windows = window ∷ [];
  hibernate_cron = crons.0;
  wake_up_cron = crons.1;
  timezone = timezone;
}

-- One turn of the loop of `evaluateWindows`.
unfoldable pub eval_window :
    ScheduleEvaluator → String → OffHourWindow → Attempt EvaluateError EvaluationResult
unfolding eval parse_window_to_cron
eval_window e timezone window = do
  crons ← wrap convert_window (parse_window_to_cron window.start window.end window.days_of_week)
  eval e (window_schedule timezone window crons)

abbrev combined_grace_end : EvaluationResult → EvaluationResult → Time
combined_grace_end combined result =
    if result.in_grace_period && not (is_zero result.grace_period_end)
    then (if is_zero combined.grace_period_end
        then result.grace_period_end
        else earlier_time combined.grace_period_end result.grace_period_end)
    else combined.grace_period_end

unfoldable pub combine : EvaluationResult → EvaluationResult → EvaluationResult
unfolding earlier_time
combine combined result =
    let should = combined.should_hibernate || result.should_hibernate in
    record {
      should_hibernate = should;
      next_hibernate_time = earlier_time combined.next_hibernate_time result.next_hibernate_time;
      next_wake_up_time = earlier_time combined.next_wake_up_time result.next_wake_up_time;
      current_state = if should then hibernated else combined.current_state;
      in_grace_period = combined.in_grace_period || result.in_grace_period;
      grace_period_end = combined_grace_end combined result;
    }

-- The loop, once `combined` is set.
unfoldable pub combine_windows :
    ScheduleEvaluator
    → String
    → EvaluationResult
    → List OffHourWindow
    → Attempt EvaluateError EvaluationResult
unfolding eval_window combine
combine_windows e timezone combined [] = ok combined
combine_windows e timezone combined (window ∷ windows) = do
  result ← eval_window e timezone window
  combine_windows e timezone (combine combined result) windows

-- The result without windows.
abbrev pub no_hibernation : EvaluationResult
no_hibernation = record {
  should_hibernate = false;
  next_hibernate_time = 0;
  next_wake_up_time = 0;
  current_state = active;
  in_grace_period = false;
  grace_period_end = 0;
}

-- `evaluateWindows`; its first turn sets `combined`.
unfoldable pub evaluate_windows :
    ScheduleEvaluator → List OffHourWindow → String → Attempt EvaluateError EvaluationResult
unfolding combine_windows
evaluate_windows e [] timezone = ok no_hibernation
evaluate_windows e (window ∷ windows) timezone = do
  first ← eval_window e timezone window
  combine_windows e timezone first windows

abbrev extended_grace_end : EvaluationResult → EvaluationResult → Time
extended_grace_end base exception =
    if base.in_grace_period && exception.in_grace_period
    then earlier_time base.grace_period_end exception.grace_period_end
    else if base.in_grace_period
    then base.grace_period_end
    else if exception.in_grace_period
    then exception.grace_period_end
    else 0

-- Whether the next wake-up of the base lies in a window. It is not zero only where the base was
-- evaluated, so at a location that exists, which it carries.
abbrev pub in_windows : Option Location → List OffHourWindow → Time → Bool
in_windows none windows now = false
in_windows (some location) windows now = is_in_time_windows location windows now

unfoldable pub extended :
    Option Location → List OffHourWindow → EvaluationResult → EvaluationResult → EvaluationResult
unfolding earlier_time is_in_time_windows
extended location windows base exception =
    let should = base.should_hibernate || exception.should_hibernate in
    record {
      should_hibernate = should;
      next_hibernate_time = earlier_time base.next_hibernate_time exception.next_hibernate_time;
      next_wake_up_time =
          if not (is_zero base.next_wake_up_time)
            && in_windows location windows base.next_wake_up_time
          then exception.next_wake_up_time
          else earlier_time base.next_wake_up_time exception.next_wake_up_time;
      current_state = state_text should;
      in_grace_period = base.in_grace_period || exception.in_grace_period;
      grace_period_end = extended_grace_end base exception;
    }

-- `applyExtend`
unfoldable pub apply_extend :
    ScheduleEvaluator
    → EvaluationResult
    → List OffHourWindow
    → String
    → Attempt EvaluateError EvaluationResult
unfolding evaluate_windows extended
apply_extend e base windows timezone = do
  exception ← wrap exception_windows (evaluate_windows e windows timezone)
  ok (extended (e.library.load_location timezone) windows base exception)

-- `NextRequeueTime`
abbrev safety_buffer : Duration
safety_buffer = pos (10 * second)

abbrev pub next_event : EvaluationResult → Time
next_event result =
    if result.should_hibernate then result.next_wake_up_time else result.next_hibernate_time

unfoldable pub next_requeue_time : ScheduleEvaluator → EvaluationResult → Duration
unfolding sub ◌+ℤ◌ wrap64
next_requeue_time e result =
    if result.in_grace_period
    then (let left = sub result.grace_period_end e.now in
        wrap64 ((if ltb_ℤ left (pos 0) then pos 0 else left) +ℤ safety_buffer))
    else (let left = sub (next_event result) e.now in
        wrap64 (
          wrap64 ((if ltb_ℤ left (pos 0) then pos minute else left) +ℤ e.schedule_buffer)
          +ℤ safety_buffer))
