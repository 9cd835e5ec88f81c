-- ===== src/Webhook/Admitted.antt =====
-- What the evaluation of schedules makes of a window that is admitted.
use hibernator.Prelude.{
  ℕ, suc, ◌+◌, ◌-◌, ◌*◌, ◌≤◌, ◌≡◌, refl, subst, ◌∙◌, ap, ◌⊎◌, inl, inr, String, true, false, not,
  ◌&&◌, List, [], ◌∷◌, ◌++◌, ◌==◌, arith, Bool-cases, eqb, append-empty,
}
use hibernator.Prelude.Text.{codes, split, atoi, digits, digits_from}
use hibernator.Api.{OffHourWindow}
use hibernator.Schedule.{
  ParseTimeError, EvaluateError, Attempt, ok, err, panics, ◌>>=◌, ◌>>◌, wrap, refuse, invalid_start,
  invalid_end, same_times,
}
use hibernator.Schedule.Parse.{
  parse_codes, parse_time, cron_text, convert_days_to_cron, parse_window_to_cron,
}
use hibernator.Schedule.Times.{
  parse_codes-digits, is_ok, all_named, same_time, is_empty, parse_window_to_cron-is_ok,
}
use hibernator.Webhook.Plans.{
  Field, window_start, window_end, invalid, when, no_days, matches_time, validate_time,
  validate_days, validate_window,
}

-- A digit and its code.
code_of : (c : ℕ) → 48 ≤ c → 48 + (c - 48) ≡ c
code_of c le = omega arith

five_codes :
    (a b c d : ℕ)
    → 48 ≤ a
    → 48 ≤ b
    → 48 ≤ c
    → 48 ≤ d
    → a ≤ 57
    → b ≤ 57
    → c ≤ 53
    → d ≤ 57
    → (a - 48) * 10 + (b - 48) ≤ 23
    → is_ok (parse_codes (a ∷ b ∷ 58 ∷ c ∷ d ∷ [])) ≡ true
five_codes a b c d la lb lc ld ha hb hc hd hour =
    subst (λ (codes : List ℕ). is_ok (parse_codes codes) ≡ true) same
      (ap is_ok (
        parse_codes-digits (a - 48) (b - 48) (c - 48) (d - 48) (omega arith) (omega arith)
          (omega arith) (omega arith) hour (omega arith)))
  where
    same :
        ◌≡◌ {A = List ℕ}
          ((48 + (a - 48)) ∷ (48 + (b - 48)) ∷ 58 ∷ (48 + (c - 48)) ∷ (48 + (d - 48)) ∷ [])
          (a ∷ b ∷ 58 ∷ c ∷ d ∷ [])
    same = rw (code_of a la, code_of b lb, code_of c lc, code_of d ld) refl

four_codes :
    (a colon c d : ℕ)
    → matches_time (a ∷ colon ∷ c ∷ d ∷ []) ≡ true
    → is_ok (parse_codes (a ∷ colon ∷ c ∷ d ∷ [])) ≡ true
unfolding matches_time parse_codes split atoi digits digits_from
four_codes a colon c d h = ground arith

matches_time-is_ok : (text : List ℕ) → matches_time text ≡ true → is_ok (parse_codes text) ≡ true
unfolding matches_time
matches_time-is_ok (a ∷ colon ∷ c ∷ d ∷ []) h = four_codes a colon c d h
matches_time-is_ok (a ∷ b ∷ colon ∷ c ∷ d ∷ []) h =
    let is_colon : colon ≡ 58 = ground arith in
    rw is_colon (
      five_codes a b c d (ground arith) (ground arith) (ground arith) (ground arith) (ground arith)
        (ground arith) (ground arith) (ground arith) (ground arith))
matches_time-is_ok [] h = cc
matches_time-is_ok (a ∷ []) h = cc
matches_time-is_ok (a ∷ b ∷ []) h = cc
matches_time-is_ok (a ∷ b ∷ c ∷ []) h = cc
matches_time-is_ok (a ∷ b ∷ c ∷ d ∷ e ∷ f ∷ rest) h = cc

validate_time-is_ok :
    (place : Field) (text : String) → validate_time place text ≡ [] → is_ok (parse_time text) ≡ true
unfolding validate_time
validate_time-is_ok place text h = matches_time-is_ok (codes text) (ground arith)

validate_days-named :
    (i j : ℕ) (days : List String) → validate_days i j days ≡ [] → all_named days ≡ true
unfolding validate_days
validate_days-named i j [] h = refl
validate_days-named i j (day ∷ days) h = ground (arith, validate_days-named i (suc j) days)

five_empty {ℓ} :
    {A : Type ℓ} (a b c d e : List A)
    → a ++ b ++ c ++ d ++ e ≡ []
    → (a ≡ []) × (b ≡ []) × (d ≡ []) × (e ≡ [])
five_empty a b c d e h =
    let (four, fifth) = append-empty (a ++ b ++ c ++ d) e h in
    let (three, fourth) = append-empty (a ++ b ++ c) d four in
    let (two, _) = append-empty (a ++ b) c three in
    let (first, second) = append-empty a b two in (first, second, fourth, fifth)

no_days-empty : (i : ℕ) (days : List String) → no_days i days ≡ [] → is_empty days ≡ false
no_days-empty i [] h = cc
no_days-empty i (day ∷ days) h = refl

same_times-err :
    (from to : Attempt ParseTimeError (ℕ × ℕ)) (names : Attempt EvaluateError String)
    → same_time from to ≡ true
    → ◌≡◌ {A = Attempt EvaluateError (String × String)}
        (do
          s ← wrap invalid_start from
          t ← wrap invalid_end to
          refuse (eqb s.0 t.0 && eqb s.1 t.1) same_times
          text ← names
          ok (cron_text s text, cron_text t text))
        (err same_times)
same_times-err (ok s) (ok t) names h = rw h refl
same_times-err (ok s) (err e) names h = cc
same_times-err (ok s) panics names h = cc
same_times-err (err e) to names h = cc
same_times-err panics to names h = cc

parse_window_to_cron-same :
    (start end : String) (days : List String)
    → is_empty days ≡ false
    → same_time (parse_time start) (parse_time end) ≡ true
    → parse_window_to_cron start end days ≡ err same_times
unfolding parse_window_to_cron
parse_window_to_cron-same start end [] some_day h = cc
parse_window_to_cron-same start end (day ∷ days) some_day h =
    same_times-err (parse_time start) (parse_time end) (convert_days_to_cron (day ∷ days)) h

-- A window that the validation of a plan admits is converted to cron expressions, unless its two texts,
-- which differ, are the same time, as "6:00" and "06:00" are: that is the only error left.
pub validate_window-cron :
    (i : ℕ) (w : OffHourWindow)
    → validate_window i w ≡ []
    → (is_ok (parse_window_to_cron w.start w.end w.days_of_week) ≡ true)
      ⊎ (parse_window_to_cron w.start w.end w.days_of_week ≡ err same_times)
unfolding validate_window
validate_window-cron i w h =
    let (start_fine, end_fine, some_day, days_fine) =
      five_empty (validate_time (window_start i) w.start) (validate_time (window_end i) w.end)
        (when (not (w.start == "") && not (w.end == "") && w.start == w.end)
          (invalid (window_start i)))
        (no_days i w.days_of_week) (validate_days i 0 w.days_of_week) h in
    let start_ok = validate_time-is_ok (window_start i) w.start start_fine in
    let end_ok = validate_time-is_ok (window_end i) w.end end_fine in
    let day = no_days-empty i w.days_of_week some_day in
    let named = validate_days-named i 0 w.days_of_week days_fine in
    elim (Bool-cases (same_time (parse_time w.start) (parse_time w.end))) [
      | inl same ↦ inr (parse_window_to_cron-same w.start w.end w.days_of_week day same)
      | inr different ↦ inl (
          parse_window_to_cron-is_ok w.start w.end w.days_of_week
          ∙ rw (day, start_ok, end_ok, different, named) refl)
    ]
