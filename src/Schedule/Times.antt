-- ===== src/Schedule/Times.antt =====
-- Times of day and windows.
use hibernator.Prelude.{
  ℕ, ◌+◌, ◌-◌, ◌*◌, ◌%◌, ◌≤◌, ◌<◌, ◌≡◌, refl, ◌∙◌, ap, String, Bool, true, false, not, ◌&&◌, ◌||◌,
  List, [], ◌∷◌, Option, none, some, ltb, eqb, all, arith,
}
use hibernator.Prelude.Text.{codes, split, atoi, digits, digits_from}
use hibernator.Schedule.{
  ParseTimeError, Attempt, ok, err, panics, ◌>>=◌, ◌>>◌, wrap, refuse, invalid_start, invalid_end,
  same_times,
}
use hibernator.Schedule.Parse.{
  parse_codes, parse_time, named_day, cron_days, convert_days_to_cron, cron_text,
  parse_window_to_cron,
}
use hibernator.Schedule.Windows.{in_span}

-- A time of two digits, a colon and two digits that is in range is read as its hour and minute.
pub parse_codes-digits :
    (a b c d : ℕ)
    → a < 10
    → b < 10
    → c < 10
    → d < 10
    → a * 10 + b ≤ 23
    → c * 10 + d ≤ 59
    → parse_codes ((48 + a) ∷ (48 + b) ∷ 58 ∷ (48 + c) ∷ (48 + d) ∷ [])
      ≡ ok (a * 10 + b, c * 10 + d)
unfolding parse_codes split atoi digits digits_from
parse_codes-digits a b c d ha hb hc hd hour_range minute_range = ground arith

-- On the clock face, of 1440 minutes: from the start on, before the end; the whole day where they
-- are the same.
abbrev pub on_clock_face : ℕ → ℕ → ℕ → Bool
on_clock_face start end now =
    eqb start end || ltb ((now + 1440 - start) % 1440) ((end + 1440 - start) % 1440)

-- The test for same-day and overnight windows, of times given in minutes of the day, is one on the
-- clock face: it holds where the start and the end are the same, and otherwise where the minutes from
-- the start to now are fewer than those from the start to the end, both counted on past midnight.
pub in_span-clock_face :
    (start end now : ℕ)
    → start < 1440
    → end < 1440
    → now < 1440
    → in_span start end now ≡ on_clock_face start end now
unfolding in_span
in_span-clock_face start end now hs he hn = ground arith

abbrev pub is_ok {ℓ} : {E : Type 0} {A : Type ℓ} → Attempt E A → Bool
is_ok (ok a) = true
is_ok _ = false

abbrev is_some {ℓ} : {A : Type ℓ} → Option A → Bool
is_some (some a) = true
is_some none = false

abbrev pub is_empty {ℓ} : {A : Type ℓ} → List A → Bool
is_empty [] = true
is_empty (x ∷ xs) = false

abbrev pub same_time : Attempt ParseTimeError (ℕ × ℕ) → Attempt ParseTimeError (ℕ × ℕ) → Bool
same_time (ok s) (ok t) = eqb s.0 t.0 && eqb s.1 t.1
same_time _ _ = false

abbrev pub all_named : List String → Bool
all_named days = all (λ day. is_some (named_day (codes day))) days

cron_days-named : (days : List String) → is_ok (cron_days days) ≡ all_named days
unfolding cron_days
cron_days-named [] = refl
cron_days-named (day ∷ days) = ground (arith, cron_days-named days)

crons-is_ok :
    (from to : Attempt ParseTimeError (ℕ × ℕ)) (days : List String)
    → is_ok {A = String × String} (do
      s ← wrap invalid_start from
      t ← wrap invalid_end to
      refuse (eqb s.0 t.0 && eqb s.1 t.1) same_times
      names ← convert_days_to_cron days
      ok (cron_text s names, cron_text t names))
      ≡ (is_ok from && is_ok to && not (same_time from to) && is_ok (convert_days_to_cron days))
crons-is_ok (ok s) (ok t) days = ground arith
crons-is_ok (ok s) (err e) days = refl
crons-is_ok (ok s) panics days = refl
crons-is_ok (err e) to days = refl
crons-is_ok panics to days = refl

convert_days-named :
    (day : String) (days : List String)
    → is_ok (convert_days_to_cron (day ∷ days)) ≡ all_named (day ∷ days)
unfolding convert_days_to_cron
convert_days-named day days = ground (arith, cron_days-named (day ∷ days))

-- `ParseWindowToCron` succeeds if and only if there is a day, `parse_time` reads the two texts, as
-- different times, and `named_day` knows each day.
pub parse_window_to_cron-is_ok :
    (start end : String) (days : List String)
    → is_ok (parse_window_to_cron start end days) ≡ (
        not (is_empty days)
        && is_ok (parse_time start)
        && is_ok (parse_time end)
        && not (same_time (parse_time start) (parse_time end))
        && all_named days)
unfolding parse_window_to_cron
parse_window_to_cron-is_ok start end [] = refl
parse_window_to_cron-is_ok start end (day ∷ days) =
    crons-is_ok (parse_time start) (parse_time end) (day ∷ days)
    ∙ ap
        (λ named.
          is_ok (parse_time start)
          && is_ok (parse_time end)
          && not (same_time (parse_time start) (parse_time end))
          && named)
        (convert_days-named day days)
