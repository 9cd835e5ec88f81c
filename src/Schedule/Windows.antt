-- ===== src/Schedule/Windows.antt =====
-- Whether a time lies in a window, in the lead time before one, or in the grace time after one of
-- its ends, windows.go.
use hibernator.Prelude.{
  ℕ, ◌+◌, ◌-◌, ◌*◌, ◌/◌, ◌%◌, Bool, true, false, ◌&&◌, ◌||◌, List, [], ◌∷◌, none, some, any, ltb,
  eqb, leb, if◌then◌else◌, String,
}
use hibernator.Prelude.Int.{ℤ, pos, pos_part, sub_ℕ, ltb_ℤ, leb_ℤ, ◌+ℤ◌}
use hibernator.Time.{Time, Duration, add, minute, hour}
use hibernator.Api.{OffHourWindow}
use hibernator.Schedule.{Weekday, Location, EvaluateError, Attempt, ok, ◌>>=◌}
use hibernator.Schedule.Parse.{
  parse_time, parse_codes, minutes, day_match, weekday_number, parse_weekday,
}

-- The test for a same-day and for an overnight window.
unfoldable pub in_span : ℕ → ℕ → ℕ → Bool
in_span start end now =
    if ltb start end then leb start now && ltb now end else leb start now || ltb now end

-- One turn of the loop of `isInTimeWindows`; a text that is no time skips the window.
unfoldable pub window_contains : Weekday → ℕ → OffHourWindow → Bool
unfolding in_span day_match parse_codes
window_contains today now window = day_match window.days_of_week today && spans
  where
    spans : Bool
    spans = elim (parse_time window.start) [
      | ok start ↦ elim (parse_time window.end) [
        | ok end ↦ in_span (minutes start) (minutes end) now
        | _ ↦ false
      ]
      | _ ↦ false
    ]

-- `now.Hour()*60 + now.Minute()`
abbrev pub minutes_now : Location → Time → ℕ
minutes_now location now = location.hour now * 60 + location.minute now

-- `isInTimeWindows`
unfoldable pub is_in_time_windows : Location → List OffHourWindow → Time → Bool
unfolding window_contains
is_in_time_windows location windows now =
    any (window_contains (location.weekday now) (minutes_now location now)) windows

-- `int(leadTime.Minutes())` of a positive duration, rounded down; a quotient of floats, which is
-- exact below 2 ^ 17 minutes.
abbrev lead_minutes : Duration → ℕ
lead_minutes lead_time = pos_part lead_time / minute

-- The minute of the day at which the lead time of a window starts, and the test on it.
unfoldable pub lead_start : ℕ → ℕ → ℤ
unfolding ◌+ℤ◌
lead_start start lead =
    let first = sub_ℕ start lead in if ltb_ℤ first (pos 0) then first +ℤ pos (24 * 60) else first

unfoldable pub in_lead_span : ℕ → ℕ → ℕ → Bool
unfolding lead_start
in_lead_span start lead now =
    if ltb_ℤ (lead_start start lead) (pos start)
    then leb_ℤ (lead_start start lead) (pos now) && ltb now start
    else leb_ℤ (lead_start start lead) (pos now) || ltb now start

-- The days that are looked up: in the afternoon the next one as well.
abbrev lead_days_match : Location → Time → List String → Bool
lead_days_match location now days =
    day_match days (location.weekday now)
    || (ltb 12 (location.hour now) && day_match days (location.weekday (add now (pos (24 * hour)))))

-- `isInLeadTimeWindow`
unfoldable pub lead_contains : Location → Time → Duration → OffHourWindow → Bool
unfolding in_lead_span day_match parse_codes add
lead_contains location now lead_time window =
    lead_days_match location now window.days_of_week && spans
  where
    spans : Bool
    spans = elim (parse_time window.start) [
      | ok start ↦ in_lead_span (minutes start) (lead_minutes lead_time) (minutes_now location now)
      | _ ↦ false
    ]

unfoldable pub is_in_lead_time_window : Location → List OffHourWindow → Time → Duration → Bool
unfolding lead_contains
is_in_lead_time_window location windows now lead_time =
    any (lead_contains location now lead_time) windows

pub data WindowBoundary : Type 0 where
  start_boundary end_boundary : WindowBoundary

-- `mostRecentWeekday`
unfoldable pub most_recent_weekday : Location → Time → Weekday → Time
most_recent_weekday location now target =
    location.add_days now
      (sub_ℕ 0 ((weekday_number (location.weekday now) + 7 - weekday_number target) % 7))

-- `now` is not before `from` and not after `from.Add(grace)`.
unfoldable pub in_grace : Time → Duration → Time → Bool
unfolding add
in_grace from grace now = leb from now && leb now (add from grace)

-- One turn of the inner loop of `isInGraceTimeWindow`, for a known day.
unfoldable pub grace_hit :
    Location → WindowBoundary → OffHourWindow → Time → Duration → Weekday → Bool
unfolding most_recent_weekday in_grace parse_codes
grace_hit location start_boundary window now grace target = elim (parse_time window.start) [
  | ok time ↦
      in_grace (location.date_at (most_recent_weekday location now target) time.0 time.1) grace now
  | _ ↦ false
]
grace_hit location end_boundary window now grace target = elim (parse_time window.end) [
  | ok time ↦
      eqb (weekday_number (location.weekday now)) (weekday_number target)
      && in_grace (location.date_at (most_recent_weekday location now target) time.0 time.1) grace
          now
  | _ ↦ false
]

-- `isInGraceTimeWindow`; the first day that is no day's text of three bytes is a panic.
unfoldable pub grace_days :
    Location
    → WindowBoundary
    → OffHourWindow
    → Time
    → Duration
    → List String
    → Attempt EvaluateError Bool
unfolding grace_hit parse_weekday
grace_days location boundary window now grace [] = ok false
grace_days location boundary window now grace (day ∷ days) = do
  known ← parse_weekday day
  elim known [
    | none ↦ grace_days location boundary window now grace days
    | some target ↦
        if grace_hit location boundary window now grace target
        then ok true
        else grace_days location boundary window now grace days
  ]

unfoldable pub is_in_grace_time_window :
    Location → WindowBoundary → List OffHourWindow → Time → Duration → Attempt EvaluateError Bool
unfolding grace_days
is_in_grace_time_window location boundary [] now grace = ok false
is_in_grace_time_window location boundary (window ∷ windows) now grace = do
  hit ← grace_days location boundary window now grace window.days_of_week
  if hit then ok true else is_in_grace_time_window location boundary windows now grace
