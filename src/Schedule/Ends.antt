-- ===== src/Schedule/Ends.antt =====
-- The end of the suspension that a time is in.
use hibernator.Prelude.{
  ℕ, ◌+◌, ◌*◌, ◌≤◌, ◌<◌, ◌≡◌, refl, true, List, [], ◌∷◌, any, arith, inl, inr, Bool-cases, ◌⊎◌,
}
use hibernator.Time.{Time, minute, add}
use hibernator.Api.{OffHourWindow}
use hibernator.Schedule.{Location, ParseTimeError, Attempt, ok, err, panics}
use hibernator.Schedule.Parse.{parse_time, minutes}
use hibernator.Schedule.Windows.{in_span, window_contains, minutes_now, is_in_time_windows}
use hibernator.Schedule.Suspension.{window_end, find_suspension_end}

-- A location whose days all have 24 hours, each of 60 minutes.
module _ (location : Location) (midnight : Time → Time)
    (date_at_midnight : (t : Time) (h m : ℕ)
      → location.date_at t h m ≡ midnight t + (h * 60 + m) * minute)
    (from_midnight : (t : Time) → midnight t + minutes_now location t * minute ≤ t)
    (within_minute : (t : Time) → t < midnight t + (minutes_now location t + 1) * minute)
    (within_day : (t : Time) → minutes_now location t < 1440) where
  window_end-span :
      (now : Time) (window : OffHourWindow) (start end : ℕ × ℕ)
      → parse_time window.start ≡ ok start
      → parse_time window.end ≡ ok end
      → in_span (minutes start) (minutes end) (minutes_now location now) ≡ true
      → now < window_end location now window
  unfolding window_end in_span add
  window_end-span now window start end starts ends inside =
      rw (starts, ends, window_end)
        (ground (
          arith,
          date_at_midnight now end.0 end.1,
          from_midnight now,
          within_minute now,
          within_day now,
        ))

  Attempt-cases :
      (a : Attempt ParseTimeError (ℕ × ℕ))
      → ((time : ℕ × ℕ) × (a ≡ ok time)) ⊎ ((e : ParseTimeError) × (a ≡ err e)) ⊎ (a ≡ panics)
  Attempt-cases (ok time) = inl (time, refl)
  Attempt-cases (err e) = inr (inl (e, refl))
  Attempt-cases panics = inr (inr refl)

  window_end-contains :
      (now : Time) (window : OffHourWindow)
      → window_contains (location.weekday now) (minutes_now location now) window ≡ true
      → now < window_end location now window
  unfolding window_contains
  window_end-contains now window hit = elim (Attempt-cases (parse_time window.start)) [
    | inl (start, starts) ↦ elim (Attempt-cases (parse_time window.end)) [
      | inl (end, ends) ↦ window_end-span now window start end starts ends (ground arith)
      | inr bad ↦ absurd (ground arith)
    ]
    | inr bad ↦ absurd (ground arith)
  ]

  find_suspension_end-loop :
      (windows : List OffHourWindow) (now : Time)
      → any (window_contains (location.weekday now) (minutes_now location now)) windows ≡ true
      → now < find_suspension_end location windows now
  unfolding find_suspension_end
  find_suspension_end-loop [] now inside = cc
  find_suspension_end-loop (window ∷ windows) now inside =
      elim (Bool-cases (window_contains (location.weekday now) (minutes_now location now) window)) [
        | inl hit ↦ rw (hit, find_suspension_end) (window_end-contains now window hit)
        | inr miss ↦
            rw (miss, find_suspension_end) (find_suspension_end-loop windows now (ground arith))
      ]

  -- In a location without clock changes, a time that is in a suspension window is before the end
  -- that `findSuspensionEnd` returns for it.
  pub find_suspension_end-later :
      (windows : List OffHourWindow) (now : Time)
      → is_in_time_windows location windows now ≡ true
      → now < find_suspension_end location windows now
  unfolding is_in_time_windows
  find_suspension_end-later windows now inside = find_suspension_end-loop windows now inside
