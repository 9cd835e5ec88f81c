-- ===== src/Schedule/Last.antt =====
-- The last occurrence of a cron schedule, `findLastOccurrence` of schedule.go. The loops run on
-- fuel, one turn more than the clock counts nanoseconds.
use hibernator.Prelude.{ℕ, zero, suc, ◌*◌, true, false, leb}
use hibernator.Prelude.Int.{sub_ℕ}
use hibernator.Time.{Time, add, is_zero, hour}

-- `for current.Before(now) || current.Equal(now)`
unfoldable pub search : (Time → Time) → ℕ → Time → Time → Time → Time
search next zero now current last = last
search next (suc fuel) now current last = elim (leb current now) [
  | true ↦ search next fuel now (next current) current
  | false ↦ last
]

abbrev pub search_from : (Time → Time) → Time → Time → Time
search_from next now start = search next (suc now) now (next start) 0

-- `findLastOccurrence`
unfoldable pub find_last_occurrence : (Time → Time) → Time → Time
unfolding search add
find_last_occurrence next now =
    let last = search_from next now (add now (sub_ℕ 0 (24 * hour))) in
    elim (is_zero last) [
      | true ↦ search_from next now (add now (sub_ℕ 0 (7 * 24 * hour)))
      | false ↦ last
    ]
