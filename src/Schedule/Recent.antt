-- ===== src/Schedule/Recent.antt =====
-- What `findLastOccurrence` finds.
use hibernator.Prelude.{
  ℕ, zero, suc, ◌+◌, ◌*◌, ◌≤◌, ◌<◌, ◌≡◌, refl, ◌⊎◌, inl, inr, Bool, true, false, leb, ltb, arith,
  Bool-cases,
}
use hibernator.Prelude.Int.{sub_ℕ}
use hibernator.Time.{Time, add, hour, is_zero}
use hibernator.Schedule.Last.{search, search_from, find_last_occurrence}

-- A cron schedule is the set of times at which it fires, and `Next` gives the first one after a time.
module _ (fires : Time → Bool) (next : Time → Time) (next_later : (t : Time) → t < next t)
    (next_fires : (t : Time) → fires (next t) ≡ true)
    (next_first : (t u : Time) → t < u → u < next t → fires u ≡ false) where
  -- The last time found is none, or one after the start that is not in the future.
  abbrev pub Found : Time → Time → Time → Type 0
  Found start now last = (last ≡ 0) ⊎ ((fires last ≡ true) × (start < last) × (last ≤ now))

  -- Of the times after the start up to a bound, none that fires is later than the last one.
  abbrev pub Latest : Time → Time → Time → Type 0
  Latest start bound last = (u : Time) → start < u → u < bound → fires u ≡ true → u ≤ last

  step-Latest :
      (start current last : Time) → Latest start current last → Latest start (next current) current
  step-Latest start current last latest u from to firing = elim (Bool-cases (leb u current)) [
    | inl le ↦ ground arith
    | inr gt ↦ absurd (ground (arith, next_first current u))
  ]

  search-Found :
      (fuel : ℕ) (start now current last : Time)
      → now < fuel + current
      → start < current
      → fires current ≡ true
      → Found start now last
      → Latest start current last
      → Found start now (search next fuel now current last)
        × Latest start (suc now) (search next fuel now current last)
  unfolding search
  search-Found zero start now current last enough from firing found latest =
      (found, λ u a b f. latest u a (omega arith) f)
  search-Found (suc fuel) start now current last enough from firing found latest =
      elim (Bool-cases (leb current now)) [
        | inl le ↦
            rw (le, search)
              (search-Found fuel start now (next current) current
                (omega (arith, next_later current)) (omega (arith, next_later current))
                (next_fires current) (inr (firing, from, ground arith))
                (step-Latest start current last latest))
        | inr gt ↦ rw (gt, search) (found, λ u a b f. latest u a (ground arith) f)
      ]

  search_from-Found :
      (start now : Time)
      → Found start now (search_from next now start)
        × Latest start (suc now) (search_from next now start)
  search_from-Found start now =
      search-Found (suc now) start now (next start) 0 (omega arith) (next_later start)
        (next_fires start) (inl refl) (λ u a b f. absurd (ground (arith, next_first start u a b)))

  abbrev pub week_before : Time → Time
  week_before now = add now (sub_ℕ 0 (7 * 24 * hour))

  abbrev day_before : Time → Time
  day_before now = add now (sub_ℕ 0 (24 * hour))

  find_last-cases :
      (now last : Time)
      → Found (day_before now) now last
      → Latest (day_before now) (suc now) last
      → is_zero last ≡ false
      → Found (week_before now) now last × Latest (week_before now) (suc now) last
  unfolding add
  find_last-cases now last found latest nonzero = (
    widen found,
    λ u a b f. elim (Bool-cases (ltb (day_before now) u)) [
      | inl recent ↦ latest u (ground arith) b f
      | inr older ↦ older_lem found u older
    ],
  )
    where
      widen : Found (day_before now) now last → Found (week_before now) now last
      widen (inl zero_last) = inl zero_last
      widen (inr (firing, from, to)) = inr (firing, omega arith, to)

      older_lem :
          Found (day_before now) now last → (u : Time) → ltb (day_before now) u ≡ false → u ≤ last
      older_lem (inl zero_last) u older = ground arith
      older_lem (inr (firing, from, to)) u older = ground arith

  -- With a `Next` that gives the first firing time after a time, `findLastOccurrence` returns the
  -- latest of the firing times of the last seven days, now included, and zero where there is none.
  pub find_last_occurrence-search :
      (now : Time)
      → Found (week_before now) now (find_last_occurrence next now)
        × Latest (week_before now) (suc now) (find_last_occurrence next now)
  unfolding find_last_occurrence add
  find_last_occurrence-search now =
      elim (Bool-cases (is_zero (search_from next now (day_before now)))) [
        | inl none_found ↦
            rw (none_found, find_last_occurrence) (search_from-Found (week_before now) now)
        | inr one ↦
            rw (one, find_last_occurrence)
              (find_last-cases now (search_from next now (day_before now))
                (search_from-Found (day_before now) now).0
                (search_from-Found (day_before now) now).1 one)
      ]
