-- ===== src/Examples/Validating.antt =====
-- A night and an early morning.
use hibernator.Prelude.{
  ℕ, ◌<◌, ◌≡◌, ◌↔◌, ◌⊎◌, refl, true, String, Option, none, some, List, [], ◌∷◌, arith,
}
use hibernator.Prelude.Text.{equal_by, split, atoi}
use hibernator.Api.{OffHourWindow, ExceptionType, active}
use hibernator.Schedule.{ok, err, panics, same_times}
use hibernator.Schedule.Parse.{parse_time, parse_window_to_cron}
use hibernator.Schedule.Times.{is_ok}
use hibernator.Webhook.Plans.{validate_window}
use hibernator.Webhook.Changes.{ExceptionForm}
use hibernator.Webhook.Admitted.{validate_window-cron}
use hibernator.Webhook.{minutes_overlap}
use hibernator.Webhook.Overlap.{inside, minutes_overlap_iff}

minutes_overlap_iff_example : (minutes_overlap 1200 360 300 420 ≡ true) ↔ (
    (minute : ℕ) × (minute < 1440)
    × (inside 1200 360 minute ≡ true)
    × (inside 300 420 minute ≡ true))
minutes_overlap_iff_example =
    minutes_overlap_iff 1200 360 300 420 (omega arith) (omega arith) (omega arith) (omega arith)

abbrev late_hours : OffHourWindow
late_hours = record { start = "20:00"; end = "6:00"; days_of_week = "MON" ∷ "fri" ∷ [] }

late_hours_admitted : validate_window 0 late_hours ≡ []
unfolding validate_window equal_by
late_hours_admitted = refl

validate_window-cron_example :
    (is_ok (parse_window_to_cron late_hours.start late_hours.end late_hours.days_of_week) ≡ true)
    ⊎ (parse_window_to_cron late_hours.start late_hours.end late_hours.days_of_week
        ≡ err same_times)
validate_window-cron_example = validate_window-cron 0 late_hours late_hours_admitted

-- Two texts of one time: admitted, and refused by the evaluation.
abbrev six_to_six : OffHourWindow
six_to_six = record { start = "6:00"; end = "06:00"; days_of_week = "MON" ∷ [] }

six_to_six_admitted : validate_window 0 six_to_six ≡ []
unfolding validate_window equal_by
six_to_six_admitted = refl

six_to_six_refused :
    parse_window_to_cron six_to_six.start six_to_six.end six_to_six.days_of_week ≡ err same_times
unfolding parse_window_to_cron split atoi
six_to_six_refused = refl

-- An extension beside a suspension of the same evenings.
abbrev read_time : String → Option (ℕ × ℕ)
read_time text = elim (parse_time text) [ ok time ↦ some time | err e ↦ none | panics ↦ none ]

abbrev no_check : String → Option String → List String × List String
no_check type raw = ([], [])

abbrev form : String → ExceptionType → ExceptionForm
form name type = record {
  name = name;
  namespace = "team";
  deletion_timestamp = none;
  plan_name = "office";
  plan_namespace = "";
  type = type;
  valid_from = 10;
  valid_until = 100;
  lead_time = "";
  windows = record { start = "20:00"; end = "23:00"; days_of_week = "MON" ∷ [] } ∷ [];
  overrides = [];
  override = none;
  state = some active;
}
