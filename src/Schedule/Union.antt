-- ===== src/Schedule/Union.antt =====
-- What decides without a suspension.
use hibernator.Prelude.{
  String, Bool, true, false, ◌&&◌, ◌||◌, List, [], ◌∷◌, Option, none, some, ◌≡◌, refl, ap, ◌∙◌, any,
  arith, if◌then◌else◌,
}
use hibernator.Api.{ExceptionType, extend, suspend, replace, OffHourWindow}
use hibernator.Schedule.{
  ScheduleEvaluator, Exception, EvaluationResult, EvaluateError, exception_windows, Attempt, ok,
  err, panics, wrap, >>=-eq-ok, wrap-eq-ok,
}
use hibernator.Schedule.Evaluate.{
  eval_window, combine, combine_windows, evaluate_windows, extended, apply_extend,
}
use hibernator.Schedule.Pipeline.{
  filter_active, same_type, evaluate, merge_by_type, effective_windows,
}
use hibernator.Schedule.Merged.{
  some_passes, present, merge_by_type-present, any-merge_by_type, active_passes, any-filter_active,
}
use hibernator.Schedule.Composition.{
  extend_when, suspend_when, active_of, merged_base, merged_extension, merged_suspension,
  evaluate-stages, evaluate-chain, chain, not_nil,
}

-- A window by itself says to hibernate.
abbrev pub says : Attempt EvaluateError EvaluationResult → Bool
says (ok r) = r.should_hibernate
says _ = false

abbrev pub hibernates : ScheduleEvaluator → String → OffHourWindow → Bool
hibernates e timezone window = says (eval_window e timezone window)

combine_windows-any :
    (e : ScheduleEvaluator) (timezone : String) (combined : EvaluationResult)
    (windows : List OffHourWindow) (r : EvaluationResult)
    → combine_windows e timezone combined windows ≡ ok r
    → r.should_hibernate ≡ (combined.should_hibernate || any (hibernates e timezone) windows)
unfolding combine_windows combine
combine_windows-any e timezone combined [] r h = ground arith
combine_windows-any e timezone combined (window ∷ windows) r h =
    let (result, got, rest) = >>=-eq-ok (eval_window e timezone window) _ r h in
    let tail = combine_windows-any e timezone (combine combined result) windows r rest in
    ground arith

evaluate_windows-any :
    (e : ScheduleEvaluator) (windows : List OffHourWindow) (timezone : String)
    (r : EvaluationResult)
    → evaluate_windows e windows timezone ≡ ok r
    → r.should_hibernate ≡ any (hibernates e timezone) windows
unfolding evaluate_windows
evaluate_windows-any e [] timezone r h = ground arith
evaluate_windows-any e (window ∷ windows) timezone r h =
    let (first, got, rest) = >>=-eq-ok (eval_window e timezone window) _ r h in
    let tail = combine_windows-any e timezone first windows r rest in ground arith

apply_extend-any :
    (e : ScheduleEvaluator) (base : EvaluationResult) (windows : List OffHourWindow)
    (timezone : String) (r : EvaluationResult)
    → apply_extend e base windows timezone ≡ ok r
    → r.should_hibernate ≡ (base.should_hibernate || any (hibernates e timezone) windows)
unfolding apply_extend extended
apply_extend-any e base windows timezone r h =
    let (exception, got, rest) =
      >>=-eq-ok (wrap exception_windows (evaluate_windows e windows timezone)) _ r h in
    let same = evaluate_windows-any e windows timezone exception (wrap-eq-ok _ _ exception got) in
    ground arith

-- An exception of a type that is listed and valid now, and one whose windows say to hibernate.
abbrev pub has_active : ScheduleEvaluator → ExceptionType → List (Option Exception) → Bool
has_active e type exceptions = any (active_passes e (λ m. same_type m.type type)) exceptions

abbrev pub active_hibernates :
    ScheduleEvaluator → String → ExceptionType → List (Option Exception) → Bool
active_hibernates e timezone type exceptions =
    any (active_passes e (λ m. same_type m.type type && any (hibernates e timezone) m.windows))
      exceptions

merged-active :
    (e : ScheduleEvaluator) (timezone : String) (type : ExceptionType)
    (exceptions : List (Option Exception))
    → (present (merge_by_type (active_of e exceptions) type) ≡ has_active e type exceptions)
      × (some_passes (hibernates e timezone) (merge_by_type (active_of e exceptions) type)
          ≡ active_hibernates e timezone type exceptions)
merged-active e timezone type exceptions = (
  merge_by_type-present (active_of e exceptions) type ∙ any-filter_active e _ exceptions,
  any-merge_by_type (hibernates e timezone) (active_of e exceptions) type
      ∙ any-filter_active e _ exceptions,
)

effective_windows-any :
    (e : ScheduleEvaluator) (timezone : String) (base : List OffHourWindow) (rep : Option Exception)
    → any (hibernates e timezone) (effective_windows base rep) ≡ (
        if present rep
        then some_passes (hibernates e timezone) rep
        else any (hibernates e timezone) base)
effective_windows-any e timezone base none = refl
effective_windows-any e timezone base (some rep) = refl

extend_when-any :
    (e : ScheduleEvaluator) (ext : Option Exception) (timezone : String) (base r : EvaluationResult)
    → extend_when e ext timezone base ≡ ok r
    → r.should_hibernate ≡ (base.should_hibernate || some_passes (hibernates e timezone) ext)
extend_when-any e none timezone base r h = ground arith
extend_when-any e (some ext) timezone base r h = apply_extend-any e base ext.windows timezone r h

suspend_when-none :
    (e : ScheduleEvaluator) (sus : Option Exception) (timezone : String) (base r : EvaluationResult)
    → present sus ≡ false
    → suspend_when e sus timezone base ≡ ok r
    → base ≡ r
suspend_when-none e none timezone base r absent h = ground arith
suspend_when-none e (some sus) timezone base r absent h = cc

-- Where no suspension is valid now, a result of `Evaluate` says to hibernate if and only if some
-- window by itself does: one of an extension that is valid now, or else one of the replacements
-- that are valid now, or of the plan where there is no such replacement.
pub evaluate-union :
    (e : ScheduleEvaluator) (base : List OffHourWindow) (timezone : String)
    (exceptions : List (Option Exception)) (r : EvaluationResult)
    → has_active e suspend exceptions ≡ false
    → evaluate e base timezone exceptions ≡ ok (some r)
    → r.should_hibernate ≡ (
        (if has_active e replace exceptions
          then active_hibernates e timezone replace exceptions
          else any (hibernates e timezone) base)
        || active_hibernates e timezone extend exceptions)
evaluate-union e base timezone exceptions r none_suspended h =
    let (first, second, h1, h2, h3) = evaluate-stages e base timezone exceptions r h in
    let replacing = merged-active e timezone replace exceptions in
    let extending = merged-active e timezone extend exceptions in
    let suspending = merged-active e timezone suspend exceptions in
    let same =
      suspend_when-none e (merged_suspension e exceptions) timezone second r
        (suspending.0 ∙ none_suspended) h3 in
    let united = extend_when-any e (merged_extension e exceptions) timezone first second h2 in
    let based = evaluate_windows-any e (merged_base e base exceptions) timezone first h1 in
    let effective =
      effective_windows-any e timezone base (merge_by_type (active_of e exceptions) replace) in
    cc

filter_active-quiet :
    (e : ScheduleEvaluator) (exceptions : List (Option Exception))
    → any (active_passes e (λ _. true)) exceptions ≡ false
    → filter_active e exceptions ≡ []
unfolding filter_active
filter_active-quiet e [] quiet = refl
filter_active-quiet e (none ∷ exceptions) quiet = filter_active-quiet e exceptions quiet
filter_active-quiet e (some m ∷ exceptions) quiet = ground (arith, filter_active-quiet e exceptions)

chain-none :
    (e : ScheduleEvaluator) (timezone : String) (m : Attempt EvaluateError EvaluationResult)
    → chain e m none none timezone ≡ m
unfolding chain
chain-none e timezone (ok r) = refl
chain-none e timezone (err problem) = refl
chain-none e timezone panics = refl

-- Where no exception is valid now, `Evaluate` returns what `evaluateWindows` returns of the plan's
-- own windows, errors included.
pub evaluate-no_exception :
    (e : ScheduleEvaluator) (base : List OffHourWindow) (timezone : String)
    (exceptions : List (Option Exception))
    → any (active_passes e (λ _. true)) exceptions ≡ false
    → evaluate e base timezone exceptions ≡ not_nil (evaluate_windows e base timezone)
unfolding merge_by_type
evaluate-no_exception e base timezone exceptions quiet =
    evaluate-chain e base timezone exceptions
    ∙ rw (filter_active-quiet e exceptions quiet)
        (ap not_nil (chain-none e timezone (evaluate_windows e base timezone)))
