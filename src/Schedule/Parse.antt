-- ===== src/Schedule/Parse.antt =====
-- Times of day, days of the week and cron expressions, windows.go.
use hibernator.Prelude.{
  ℕ, ◌*◌, ◌+◌, String, Bool, ◌&&◌, ◌||◌, List, [], ◌∷◌, Option, none, some, eqb, ltb, any,
  if◌then◌else◌,
}
use hibernator.Prelude.Int.{ℤ, pos, pos_part, ltb_ℤ}
use hibernator.Prelude.Text.{
  codes, to_upper, equal_by, equal_fold, split, atoi, show_small, join_comma, join,
}
use hibernator.Schedule.{
  Weekday, sunday, monday, tuesday, wednesday, thursday, friday, saturday, ParseTimeError,
  invalid_format, invalid_hour, invalid_minute, hour_range, minute_range, EvaluateError, no_days,
  same_times, invalid_start, invalid_end, invalid_day, Attempt, ok, err, panics, wrap, require,
  ◌>>=◌, ◌>>◌, refuse,
}

-- `parseTime`
abbrev check_ranges : ℤ → ℤ → Attempt ParseTimeError (ℕ × ℕ)
check_ranges hour minute =
    if ltb_ℤ hour (pos 0) || ltb_ℤ (pos 23) hour
    then err hour_range
    else if ltb_ℤ minute (pos 0) || ltb_ℤ (pos 59) minute
    then err minute_range
    else ok (pos_part hour, pos_part minute)

abbrev parse_parts : List (List ℕ) → Attempt ParseTimeError (ℕ × ℕ)
parse_parts (first ∷ second ∷ []) = do
  hour ← require (atoi first) invalid_hour
  minute ← require (atoi second) invalid_minute
  check_ranges hour minute
parse_parts _ = err invalid_format

unfoldable pub parse_codes : List ℕ → Attempt ParseTimeError (ℕ × ℕ)
parse_codes text = parse_parts (split 58 text)

abbrev pub parse_time : String → Attempt ParseTimeError (ℕ × ℕ)
parse_time text = parse_codes (codes text)

-- `hour*60 + min`
abbrev pub minutes : ℕ × ℕ → ℕ
minutes time = time.0 * 60 + time.1

-- `strings.ToUpper(day.String()[:3])`
abbrev pub short_name : Weekday → String
short_name sunday = "SUN"
short_name monday = "MON"
short_name tuesday = "TUE"
short_name wednesday = "WED"
short_name thursday = "THU"
short_name friday = "FRI"
short_name saturday = "SAT"

abbrev pub weekday_number : Weekday → ℕ
weekday_number sunday = 0
weekday_number monday = 1
weekday_number tuesday = 2
weekday_number wednesday = 3
weekday_number thursday = 4
weekday_number friday = 5
weekday_number saturday = 6

abbrev find_name : List ℕ → List Weekday → Option Weekday
find_name upper [] = none
find_name upper (day ∷ rest) =
    if equal_by (λ c. c) upper (codes (short_name day)) then some day else find_name upper rest

abbrev pub week : List Weekday
week = sunday ∷ monday ∷ tuesday ∷ wednesday ∷ thursday ∷ friday ∷ saturday ∷ []

-- The `dayMap` of `convertDaysToCron`, and the `switch` of `parseWeekday`.
unfoldable pub named_day : List ℕ → Option Weekday
named_day text = find_name (uppers text) week
  where
    uppers : List ℕ → List ℕ
    uppers [] = []
    uppers (c ∷ cs) = to_upper c ∷ uppers cs

-- `parseWeekday`; `day[:3]` cuts bytes and panics on a shorter text. A cut that takes in a letter
-- outside ASCII is no day's name.
abbrev byte_length : ℕ → ℕ
byte_length c = if ltb c 0x80 then 1 else if ltb c 0x800 then 2 else if ltb c 0x10000 then 3 else 4

abbrev bytes : List ℕ → ℕ
bytes [] = 0
bytes (c ∷ cs) = byte_length c + bytes cs

abbrev ascii_day : List ℕ → Option Weekday
ascii_day (a ∷ b ∷ c ∷ rest) =
    if ltb a 0x80 && ltb b 0x80 && ltb c 0x80 then named_day (a ∷ b ∷ c ∷ []) else none
ascii_day _ = none

unfoldable pub parse_weekday : String → Attempt EvaluateError (Option Weekday)
unfolding named_day
parse_weekday day = if ltb (bytes (codes day)) 3 then panics else ok (ascii_day (codes day))

-- The test of the loops over `DaysOfWeek`.
unfoldable pub day_match : List String → Weekday → Bool
unfolding equal_by
day_match days today = any (λ day. equal_fold day (short_name today)) days

-- `convertDaysToCron`
unfoldable pub cron_days : List String → Attempt EvaluateError (List String)
unfolding named_day show_small
cron_days [] = ok []
cron_days (day ∷ days) = do
  known ← require (named_day (codes day)) (invalid_day day)
  rest ← cron_days days
  ok (show_small (weekday_number known) ∷ rest)

unfoldable pub convert_days_to_cron : List String → Attempt EvaluateError String
unfolding cron_days
convert_days_to_cron [] = err no_days
convert_days_to_cron (day ∷ days) = do names ← cron_days (day ∷ days); ok (join_comma names)

-- `fmt.Sprintf("%d %d * * %s", ...)`
unfoldable pub cron_text : ℕ × ℕ → String → String
unfolding show_small
cron_text time days =
    join (show_small time.1) (join " " (join (show_small time.0) (join " * * " days)))

-- `ParseWindowToCron`
unfoldable pub parse_window_to_cron :
    String → String → List String → Attempt EvaluateError (String × String)
unfolding parse_codes convert_days_to_cron cron_text
parse_window_to_cron start end [] = err no_days
parse_window_to_cron start end (day ∷ days) = do
  from ← wrap invalid_start (parse_time start)
  to ← wrap invalid_end (parse_time end)
  refuse (eqb from.0 to.0 && eqb from.1 to.1) same_times
  names ← convert_days_to_cron (day ∷ days)
  ok (cron_text from names, cron_text to names)
