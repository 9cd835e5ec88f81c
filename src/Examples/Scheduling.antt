-- ===== src/Examples/Scheduling.antt =====
-- A night from 20:00 to 06:00 of every day, seen at 21:00, with a suspension from 20:30 to 23:00.
use hibernator.Prelude.{
  ℕ, any, ◌||◌, suc, ◌+◌, ◌*◌, ◌/◌, ◌%◌, ◌-◌, ◌<◌, ◌≤◌, ◌≡◌, refl, Bool, true, false, List, [], ◌∷◌,
  none, some, String, ◌==◌, if◌then◌else◌, ltb, eqb, arith,
}
use hibernator.Prelude.Int.{pos, negsuc, pos_part, neg_part}
use hibernator.Prelude.Text.{split, atoi, join_comma}
use hibernator.Time.{Time, minute, hour, add}
use hibernator.Api.{OffHourWindow, suspend, extend}
use hibernator.Schedule.{
  Weekday, sunday, monday, tuesday, wednesday, thursday, friday, saturday, Location, Library,
  ScheduleEvaluator, Exception, EvaluationResult, active, hibernated, ok,
}
use hibernator.Schedule.Windows.{minutes_now, is_in_time_windows, in_span}
use hibernator.Schedule.Last.{find_last_occurrence}
use hibernator.Schedule.Suspension.{find_suspension_end}
use hibernator.Schedule.Recent.{Found, Latest, week_before, find_last_occurrence-search}
use hibernator.Schedule.States.{evaluate-state}
use hibernator.Schedule.CarveOut.{evaluate-suspended}
use hibernator.Schedule.Union.{active_hibernates, hibernates, evaluate-union}
use hibernator.Schedule.Times.{in_span-clock_face, on_clock_face}
use hibernator.Schedule.Ends.{find_suspension_end-later}
use hibernator.Schedule.Pipeline.{evaluate, is_exception_active}

abbrev day : ℕ
day = 24 * hour

abbrev weekday_of : ℕ → Weekday
weekday_of n =
    if eqb n 0
    then monday
    else if eqb n 1
    then tuesday
    else if eqb n 2
    then wednesday
    else if eqb n 3
    then thursday
    else if eqb n 4
    then friday
    else if eqb n 5
    then saturday
    else sunday

abbrev pub utc : Location
utc = record {
  weekday = λ t. weekday_of (t / day % 7);
  hour = λ t. t / hour % 24;
  minute = λ t. t / minute % 60;
  add_days = λ t d.
      add t (if eqb (neg_part d) 0 then pos (pos_part d * day) else negsuc (neg_part d * day - 1));
  date_at = λ t h m. t / day * day + (h * 60 + m) * minute;
}

-- Every day at a time.
abbrev daily : ℕ → Time → Time
daily at t = let today = t / day * day + at in if ltb t today then today else today + day

abbrev some_library : Library
some_library = record {
  load_location = λ name. if name == "UTC" then some utc else none;
  parse_cron = λ text.
      if text == "0 20 * * 0,1,2,3,4,5,6"
      then some (λ _. daily (20 * hour))
      else if text == "0 6 * * 0,1,2,3,4,5,6"
      then some (λ _. daily (6 * hour))
      else none;
}

abbrev evening : Time
evening = 700_000 * day + 21 * hour

abbrev clock : ScheduleEvaluator
clock = record { library = some_library; now = evening; schedule_buffer = pos minute }

abbrev every_day : List String
every_day = "SUN" ∷ "mon" ∷ "TUE" ∷ "WED" ∷ "THU" ∷ "FRI" ∷ "SAT" ∷ []

abbrev night : OffHourWindow
night = record { start = "20:00"; end = "06:00"; days_of_week = every_day }

abbrev late_shift : Exception
late_shift = record {
  type = suspend;
  valid_from = 700_000 * day;
  valid_until = 700_001 * day;
  lead_time = pos 0;
  windows = record { start = "20:30"; end = "23:00"; days_of_week = every_day } ∷ [];
}

abbrev asleep : EvaluationResult
asleep = record {
  should_hibernate = true;
  next_hibernate_time = 700_000 * day + 44 * hour;
  next_wake_up_time = 700_000 * day + 30 * hour;
  current_state = hibernated;
  in_grace_period = false;
  grace_period_end = 0;
}

abbrev kept_awake : EvaluationResult
kept_awake = record {
  should_hibernate = false;
  next_hibernate_time = 700_000 * day + 23 * hour;
  next_wake_up_time = 700_000 * day + 30 * hour;
  current_state = active;
  in_grace_period = false;
  grace_period_end = 0;
}

hibernates_at_night : evaluate clock (night ∷ []) "UTC" [] ≡ ok (some asleep)
unfolding evaluate split atoi join_comma
hibernates_at_night = refl

awake_during_suspension :
    evaluate clock (night ∷ []) "UTC" (none ∷ some late_shift ∷ []) ≡ ok (some kept_awake)
unfolding evaluate split atoi join_comma
awake_during_suspension = refl

evaluate-state_example : kept_awake.current_state ≡ active
evaluate-state_example =
    evaluate-state clock (night ∷ []) "UTC" (none ∷ some late_shift ∷ []) kept_awake
      awake_during_suspension

evaluate-suspended_example : kept_awake.should_hibernate ≡ false
unfolding is_in_time_windows is_exception_active split atoi
evaluate-suspended_example =
    evaluate-suspended clock utc (night ∷ []) "UTC" (none ∷ some late_shift ∷ []) kept_awake refl
      refl awake_during_suspension

evaluate-union_example :
    asleep.should_hibernate
    ≡ (any (hibernates clock "UTC") (night ∷ []) || active_hibernates clock "UTC" extend [])
evaluate-union_example = evaluate-union clock (night ∷ []) "UTC" [] asleep refl hibernates_at_night

at_eight : Time → Bool
at_eight t = eqb (t % day) (20 * hour)

next_later : (t : Time) → t < daily (20 * hour) t
next_later t = ground arith

next_fires : (t : Time) → at_eight (daily (20 * hour) t) ≡ true
unfolding at_eight
next_fires t = ground arith

next_first : (t u : Time) → t < u → u < daily (20 * hour) t → at_eight u ≡ false
unfolding at_eight
next_first t u above below = ground arith

find_last_occurrence-search_example :
    Found at_eight
      (daily (20 * hour))
      next_later
      next_fires
      next_first
      (week_before at_eight (daily (20 * hour)) next_later next_fires next_first evening)
      evening
      (find_last_occurrence (daily (20 * hour)) evening)
    × Latest at_eight
        (daily (20 * hour))
        next_later
        next_fires
        next_first
        (week_before at_eight (daily (20 * hour)) next_later next_fires next_first evening)
        (suc evening)
        (find_last_occurrence (daily (20 * hour)) evening)
find_last_occurrence-search_example =
    find_last_occurrence-search at_eight (daily (20 * hour)) next_later next_fires next_first
      evening

in_span-clock_face_example : in_span 1200 360 30 ≡ on_clock_face 1200 360 30
in_span-clock_face_example =
    in_span-clock_face 1200 360 30 (omega arith) (omega arith) (omega arith)

date_at_midnight : (t : Time) (h m : ℕ) → utc.date_at t h m ≡ t / day * day + (h * 60 + m) * minute
date_at_midnight t h m = refl

from_midnight : (t : Time) → t / day * day + minutes_now utc t * minute ≤ t
from_midnight t = ground arith

within_minute : (t : Time) → t < t / day * day + (minutes_now utc t + 1) * minute
within_minute t = ground arith

within_day : (t : Time) → minutes_now utc t < 1440
within_day t = ground arith

find_suspension_end-later_example : evening < find_suspension_end utc late_shift.windows evening
unfolding is_in_time_windows split atoi
find_suspension_end-later_example =
    find_suspension_end-later utc (λ t. t / day * day) date_at_midnight from_midnight within_minute
      within_day late_shift.windows evening refl
