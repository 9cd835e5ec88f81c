-- ===== src/Webhook/Overlap.antt =====
-- The overlap of two windows is a minute of the day that is in both.
use hibernator.Prelude.{
  ℕ, ◌<◌, ◌≡◌, ◌↔◌, inl, inr, Bool, true, ◌&&◌, ◌||◌, Bool-cases, if◌then◌else◌, ltb, leb, arith,
}
use hibernator.Webhook.{expand_minutes, minutes_overlap}

-- A minute is in a window, which may run past midnight.
abbrev pub inside : ℕ → ℕ → ℕ → Bool
inside start end minute =
    if ltb start end
    then leb start minute && ltb minute end
    else ltb end start && (leb start minute || ltb minute end)

-- Two windows between times of a day, each of which may run past midnight, overlap exactly where a
-- minute of the day is in both.
pub minutes_overlap_iff :
    (start_a end_a start_b end_b : ℕ)
    → start_a < 1440
    → end_a < 1440
    → start_b < 1440
    → end_b < 1440
    → (minutes_overlap start_a end_a start_b end_b ≡ true) ↔ (
        (minute : ℕ) × (minute < 1440)
        × (inside start_a end_a minute ≡ true)
        × (inside start_b end_b minute ≡ true))
unfolding minutes_overlap expand_minutes
minutes_overlap_iff start_a end_a start_b end_b a b c d = (there, back)
  where
    there :
        minutes_overlap start_a end_a start_b end_b ≡ true
        → (minute : ℕ) × (minute < 1440)
          × (inside start_a end_a minute ≡ true)
          × (inside start_b end_b minute ≡ true)
    there h = elim (Bool-cases (inside start_a end_a start_b)) [
      | inl e ↦ (start_b, c, e, ground (arith, h, e))
      | inr e ↦ (start_a, a, ground (arith, h, e), ground (arith, h, e))
    ]

    back :
        ((minute : ℕ) × (minute < 1440)
          × (inside start_a end_a minute ≡ true)
          × (inside start_b end_b minute ≡ true))
        → minutes_overlap start_a end_a start_b end_b ≡ true
    back (minute, l, x, y) = ground (arith, x, y)
