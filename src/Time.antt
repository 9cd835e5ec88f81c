-- ===== src/Time.antt =====
-- Go's `time.Time` and `time.Duration`. A time counts the nanoseconds since the zero time, which
-- is 0 (1 January of the year 1, UTC), so `IsZero` is a test; no earlier time is represented.
-- A duration is a number of nanoseconds.
use hibernator.Prelude.{ℕ, ◌+◌, ◌-◌, ◌*◌, ◌^◌, Bool, ltb, eqb, leb, if◌then◌else◌}
use hibernator.Prelude.Int.{ℤ, pos, negsuc, pos_part, neg_part}

abbrev pub Time : Type 0
Time = ℕ

abbrev pub Duration : Type 0
Duration = ℤ

abbrev pub second : ℕ
second = 1_000_000_000

abbrev pub minute : ℕ
minute = 60 * second

abbrev pub hour : ℕ
hour = 60 * minute

abbrev pub is_zero : Time → Bool
is_zero t = eqb t 0

abbrev pub before : Time → Time → Bool
before t u = ltb t u

abbrev pub after : Time → Time → Bool
after t u = ltb u t

-- `Time.Sub` saturates at the greatest and the least duration.
unfoldable pub sub : Time → Time → Duration
sub t u =
    if leb u t
    then (if ltb (t - u) (2 ^ 63) then pos (t - u) else pos (2 ^ 63 - 1))
    else if leb (u - t) (2 ^ 63)
    then negsuc (u - t - 1)
    else negsuc (2 ^ 63 - 1)

-- `Time.Add`; a time before the zero time is not represented, and is 0 here.
unfoldable pub add : Time → Duration → Time
add t d = t + pos_part d - neg_part d
