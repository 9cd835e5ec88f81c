-- ===== src/Schedule/Merged.antt =====
-- Which windows the merged exceptions hold.
use hibernator.Prelude.{
  Bool, true, false, ◌&&◌, ◌||◌, List, [], ◌∷◌, ◌++◌, Option, none, some, ◌≡◌, refl, ◌∙◌, any,
  filter, Bool-cases, inl, inr, arith,
}
use hibernator.Api.{ExceptionType, OffHourWindow}
use hibernator.Schedule.{ScheduleEvaluator, Exception}
use hibernator.Schedule.Pipeline.{
  is_exception_active, filter_active, same_type, merge_one, merge_all, merge_matches, start_merge,
  merge_by_type,
}

any-append {ℓ} :
    {A : Type ℓ} (p : A → Bool) (xs ys : List A) → any p (xs ++ ys) ≡ (any p xs || any p ys)
any-append p [] ys = refl
any-append p (x ∷ xs) ys = ground (arith, any-append p xs ys)

any-filter {ℓ} :
    {A : Type ℓ} (p q : A → Bool) (xs : List A) → any p (filter q xs) ≡ any (λ x. q x && p x) xs
any-filter p q [] = refl
any-filter p q (x ∷ xs) = ground (arith, any-filter p q xs)

module _ (p : OffHourWindow → Bool) where
  abbrev pub passes : Exception → Bool
  passes m = any p m.windows

  -- A window of the optional exception passes.
  abbrev pub some_passes : Option Exception → Bool
  some_passes none = false
  some_passes (some m) = passes m

  any-merge_all :
      (merged : Exception) (matches : List Exception)
      → passes (merge_all merged matches) ≡ (passes merged || any passes matches)
  unfolding merge_all merge_one
  any-merge_all merged [] = ground arith
  any-merge_all merged (m ∷ matches) =
      ground
        (arith, any-merge_all (merge_one merged m) matches, any-append p merged.windows m.windows)

  any-merge_matches :
      (type : ExceptionType) (matches : List Exception)
      → some_passes (merge_matches type matches) ≡ any passes matches
  any-merge_matches type [] = refl
  any-merge_matches type (only ∷ []) = ground arith
  any-merge_matches type (first ∷ second ∷ rest) =
      any-merge_all (start_merge type first) (first ∷ second ∷ rest)

  pub any-merge_by_type :
      (exceptions : List Exception) (type : ExceptionType)
      → some_passes (merge_by_type exceptions type)
        ≡ any (λ m. same_type m.type type && passes m) exceptions
  unfolding merge_by_type
  any-merge_by_type exceptions type =
      any-merge_matches type (filter (λ m. same_type m.type type) exceptions)
      ∙ any-filter passes (λ m. same_type m.type type) exceptions

abbrev pub present : Option Exception → Bool
present none = false
present (some m) = true

filter-present :
    (q : Exception → Bool) (type : ExceptionType) (xs : List Exception)
    → present (merge_matches type (filter q xs)) ≡ any q xs
filter-present q type [] = refl
filter-present q type (x ∷ xs) = elim (Bool-cases (q x)) [
  | inl kept ↦ rw kept (some_lem (filter q xs))
  | inr left_out ↦ rw left_out (filter-present q type xs)
]
  where
    some_lem : (rest : List Exception) → present (merge_matches type (x ∷ rest)) ≡ true
    some_lem [] = refl
    some_lem (y ∷ ys) = refl

-- There is a merged exception where one of the type is listed.
pub merge_by_type-present :
    (exceptions : List Exception) (type : ExceptionType)
    → present (merge_by_type exceptions type) ≡ any (λ m. same_type m.type type) exceptions
unfolding merge_by_type
merge_by_type-present exceptions type = filter-present (λ m. same_type m.type type) type exceptions

-- An exception that is listed and active now passes.
abbrev pub active_passes : ScheduleEvaluator → (Exception → Bool) → Option Exception → Bool
active_passes e q none = false
active_passes e q (some m) = is_exception_active e m && q m

pub any-filter_active :
    (e : ScheduleEvaluator) (q : Exception → Bool) (exceptions : List (Option Exception))
    → any q (filter_active e exceptions) ≡ any (active_passes e q) exceptions
unfolding filter_active
any-filter_active e q [] = refl
any-filter_active e q (none ∷ exceptions) = any-filter_active e q exceptions
any-filter_active e q (some m ∷ exceptions) = ground (arith, any-filter_active e q exceptions)
