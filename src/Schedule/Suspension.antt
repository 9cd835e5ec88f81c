-- ===== src/Schedule/Suspension.antt =====
-- Suspensions: applySuspend, findNextSuspensionStart and findSuspensionEnd of schedule.go.
use hibernator.Prelude.{
  ℕ, ◌*◌, String, Bool, true, false, not, ◌&&◌, ◌||◌, List, [], ◌∷◌, leb, eqb, length,
  if◌then◌else◌,
}
use hibernator.Prelude.Int.{pos, ltb_ℤ}
use hibernator.Time.{Time, add, is_zero, before, after, hour}
use hibernator.Api.{OffHourWindow}
use hibernator.Schedule.{
  Location, ScheduleEvaluator, Exception, EvaluationResult, EvaluateError, invalid_timezone,
  Attempt, ok, ◌>>=◌, require,
}
use hibernator.Schedule.Parse.{parse_time, parse_codes, minutes, day_match}
use hibernator.Schedule.Windows.{
  is_in_time_windows, is_in_lead_time_window, is_in_grace_time_window, end_boundary, minutes_now,
  window_contains,
}
use hibernator.Schedule.Evaluate.{earlier_time, state_text}

-- One turn of the inner loop of `findNextSuspensionStart`, at a day.
unfoldable pub note_start : Location → Bool → Time → ℕ → Time → OffHourWindow → Time
unfolding day_match parse_codes
note_start location today day now next window =
    if day_match window.days_of_week (location.weekday day) then start else next
  where
    start : Time
    start = elim (parse_time window.start) [
      | ok time ↦
          let at = location.date_at day time.0 time.1 in
          if today && leb (minutes time) now
          then next
          else if is_zero next || before at next
          then at
          else next
      | _ ↦ next
    ]

unfoldable pub note_starts : Location → Bool → Time → ℕ → Time → List OffHourWindow → Time
unfolding note_start
note_starts location today day now next [] = next
note_starts location today day now next (window ∷ windows) =
    note_starts location today day now (note_start location today day now next window) windows

-- `findNextSuspensionStart`
unfoldable pub find_next_suspension_start : Location → List OffHourWindow → Time → Time
unfolding note_starts
find_next_suspension_start location windows now =
    let current = minutes_now location now in
    note_starts location false (location.add_days now (pos 1)) current
      (note_starts location true (location.add_days now (pos 0)) current 0 windows) windows

-- The end of the window that `now` is in.
unfoldable pub window_end : Location → Time → OffHourWindow → Time
unfolding parse_codes add
window_end location now window = elim (parse_time window.start) [
  | ok start ↦ elim (parse_time window.end) [
    | ok end ↦
        let at = location.date_at now end.0 end.1 in
        if leb (minutes end) (minutes start) && leb (minutes start) (minutes_now location now)
        then add at (pos (24 * hour))
        else at
    | _ ↦ 0
  ]
  | _ ↦ 0
]

-- `findSuspensionEnd`; 0 is the zero time.
unfoldable pub find_suspension_end : Location → List OffHourWindow → Time → Time
unfolding window_contains window_end
find_suspension_end location [] now = 0
find_suspension_end location (window ∷ windows) now =
    if window_contains (location.weekday now) (minutes_now location now) window
    then window_end location now window
    else find_suspension_end location windows now

-- Whether the cluster wakes up by itself before the suspension starts.
abbrev wakes_before : Location → List OffHourWindow → Time → EvaluationResult → Bool
wakes_before location windows now base =
    let start = find_next_suspension_start location windows now in
    not (is_zero start)
    && not (is_zero base.next_wake_up_time)
    && not (after base.next_wake_up_time start)

unfoldable pub suspended_state :
    Location → List OffHourWindow → Time → EvaluationResult → Bool → Bool → Bool → Bool
unfolding find_next_suspension_start
suspended_state location windows now base in_window in_grace in_lead =
    if in_window || in_grace
    then false
    else if in_lead && base.should_hibernate
    then wakes_before location windows now base
    else base.should_hibernate

-- The next hibernation: not before the end of the suspension, and moved past one that it is in.
abbrev after_suspension : Location → List OffHourWindow → Time → Bool → Time → Time
after_suspension location windows now concerned next =
    let end = find_suspension_end location windows now in
    if concerned && not (is_zero end) && after end now && (before end next || is_zero next)
    then end
    else next

abbrev moved_past : Location → List OffHourWindow → Bool → Time → Time
moved_past location windows should next =
    let end = find_suspension_end location windows next in
    if not should
      && not (is_zero next)
      && is_in_time_windows location windows next
      && not (is_zero end)
    then end
    else next

unfoldable pub suspended_next_hibernate :
    Location → List OffHourWindow → Time → Bool → Bool → Time → Time
unfolding find_suspension_end is_in_time_windows
suspended_next_hibernate location windows now concerned should next =
    moved_past location windows should (after_suspension location windows now concerned next)

unfoldable pub suspended_next_wake_up : Location → List OffHourWindow → Time → Bool → Time → Time
unfolding find_next_suspension_start earlier_time
suspended_next_wake_up location windows now should next =
    let start = find_next_suspension_start location windows now in
    if should && not (is_zero start) then earlier_time next start else next

-- `applySuspend`, once its three tests are made.
unfoldable pub suspended_result :
    Location → List OffHourWindow → Time → EvaluationResult → Bool → Bool → Bool → EvaluationResult
unfolding suspended_state suspended_next_hibernate suspended_next_wake_up
suspended_result location windows now base in_window in_grace in_lead =
    let should = suspended_state location windows now base in_window in_grace in_lead in
    record {
      should_hibernate = should;
      next_hibernate_time =
          suspended_next_hibernate location windows now (in_window || in_lead || in_grace) should
            base.next_hibernate_time;
      next_wake_up_time = suspended_next_wake_up location windows now should base.next_wake_up_time;
      current_state = state_text should;
      in_grace_period = in_grace;
      grace_period_end = base.grace_period_end;
    }

abbrev suspension_grace :
    ScheduleEvaluator → Location → List OffHourWindow → Bool → Attempt EvaluateError Bool
suspension_grace e location windows in_window =
    if not in_window && ltb_ℤ (pos 0) e.schedule_buffer
    then is_in_grace_time_window location end_boundary windows e.now e.schedule_buffer
    else ok false

abbrev suspension_lead : ScheduleEvaluator → Location → Exception → Bool
suspension_lead e location exception =
    ltb_ℤ (pos 0) exception.lead_time
    && is_in_lead_time_window location exception.windows e.now exception.lead_time

abbrev suspend_windows :
    ScheduleEvaluator
    → Location
    → EvaluationResult
    → Exception
    → Attempt EvaluateError EvaluationResult
suspend_windows e location base exception =
    let in_window = is_in_time_windows location exception.windows e.now in
    suspension_grace e location exception.windows in_window >>= λ in_grace. ok (
      suspended_result location exception.windows e.now base in_window in_grace
        (suspension_lead e location exception))

-- `applySuspend`
unfoldable pub apply_suspend :
    ScheduleEvaluator
    → EvaluationResult
    → Exception
    → String
    → Attempt EvaluateError EvaluationResult
unfolding is_in_time_windows is_in_grace_time_window is_in_lead_time_window suspended_result
apply_suspend e base exception timezone = do
  location ← require (e.library.load_location timezone) (invalid_timezone timezone)
  if eqb (length exception.windows) 0 then ok base else suspend_windows e location base exception
