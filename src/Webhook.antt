-- ===== src/Webhook.antt =====
-- When the windows of two exceptions collide, internal/validationwebhook/types.go. `time.Parse` of
-- a text "HH:MM" is an argument: the hour and the minute, or `none` for an error.
pub mod Overlap
pub mod Plans
pub mod Admitted
pub mod Changes
pub mod Admission
pub mod Compatible
use hibernator.Prelude.{
  ℕ, ◌+◌, ◌*◌, String, Bool, true, false, not, ◌&&◌, ◌||◌, List, [], ◌∷◌, Option, none, some,
  if◌then◌else◌, ltb, eqb, any, elem,
}
use hibernator.Api.{OffHourWindow, ExceptionType, extend, suspend, replace}

-- `timeSpan`, in minutes since midnight.
pub record TimeSpan : Type 0 where
  pub start : ℕ
  pub end : ℕ

-- `expandTimeRange`, of times in minutes.
unfoldable pub expand_minutes : ℕ → ℕ → List TimeSpan
expand_minutes s e =
    if ltb s e
    then record { start = s; end = e } ∷ []
    else if eqb s e
    then []
    else record { start = s; end = 1440 } ∷ record { start = 0; end = e } ∷ []

abbrev spans_overlap : TimeSpan → TimeSpan → Bool
spans_overlap a b = ltb a.start b.end && ltb b.start a.end

-- `timeRangesOverlap`, of times in minutes.
unfoldable pub minutes_overlap : ℕ → ℕ → ℕ → ℕ → Bool
unfolding expand_minutes
minutes_overlap start_a end_a start_b end_b =
    any (λ a. any (spans_overlap a) (expand_minutes start_b end_b)) (expand_minutes start_a end_a)

abbrev minutes_of : Option (ℕ × ℕ) → ℕ
minutes_of none = 0
minutes_of (some (hour, minute)) = hour * 60 + minute

module _ (parse : String → Option (ℕ × ℕ)) where
  -- `hhmmToMinutes`
  abbrev pub hhmm_to_minutes : String → ℕ
  hhmm_to_minutes text = minutes_of (parse text)

  -- `timeRangesOverlap`
  unfoldable pub time_ranges_overlap : String → String → String → String → Bool
  unfolding minutes_overlap
  time_ranges_overlap start_a end_a start_b end_b =
      minutes_overlap (hhmm_to_minutes start_a) (hhmm_to_minutes end_a) (hhmm_to_minutes start_b)
        (hhmm_to_minutes end_b)

  -- `windowPairCollides`
  unfoldable pub window_pair_collides : OffHourWindow → OffHourWindow → Bool
  unfolding time_ranges_overlap
  window_pair_collides a b =
      any (λ day. elem day a.days_of_week) b.days_of_week
      && time_ranges_overlap a.start a.end b.start b.end

  -- `windowsCollide`
  unfoldable pub windows_collide : List OffHourWindow → List OffHourWindow → Bool
  unfolding window_pair_collides
  windows_collide as' bs = any (λ a. any (window_pair_collides a) bs) as'

-- `isAllowedTypePair`
unfoldable pub is_allowed_type_pair : ExceptionType → ExceptionType → Bool
is_allowed_type_pair extend suspend = true
is_allowed_type_pair suspend extend = true
is_allowed_type_pair replace extend = true
is_allowed_type_pair extend replace = true
is_allowed_type_pair replace suspend = true
is_allowed_type_pair suspend replace = true
is_allowed_type_pair _ _ = false
