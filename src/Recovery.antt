-- ===== src/Recovery.antt =====
-- Error recovery, internal/recovery/recovery.go: what kind of failure an error is, whether and when
-- to retry, and the retry counters in the plan's status.
pub mod Backoff
pub mod Strategy
pub mod Attempts
use hibernator.Prelude.{
  ℕ, zero, suc, ◌+◌, ◌*◌, String, Bool, true, false, ◌||◌, List, [], ◌∷◌, map, Option, none, some,
  if◌then◌else◌, elem, any,
}
use hibernator.Prelude.Int.{ℤ, pos, negsuc, ◌+ℤ◌, ◌-ℤ◌, ◌*ℤ◌, leb_ℤ, ltb_ℤ, wrap64, wrap32}
use hibernator.Prelude.Text.{codes, to_lower, contains}
use hibernator.Time.{Time, Duration, second, minute, sub}
use hibernator.Api.{HibernatePlanStatus}

pub data ErrorClassification : Type 0 where
  transient permanent execution_failed unknown : ErrorClassification

-- A Go error: the code of the AWS error that `errors.As` finds in it, if it finds one, and its text.
pub record Error : Type 0 where
  pub api_code : Option String
  pub text : String

abbrev pub transient_aws_error_codes : List String
transient_aws_error_codes =
    "Throttling" ∷ "RequestLimitExceeded" ∷ "ServiceUnavailable" ∷ "InternalError"
    ∷ "RequestTimeout" ∷ "ProvisionedThroughputExceededException" ∷ []

abbrev pub permanent_aws_error_codes : List String
permanent_aws_error_codes =
    "ResourceNotFoundException" ∷ "ValidationException" ∷ "InvalidParameterException"
    ∷ "AccessDeniedException" ∷ "UnauthorizedException" ∷ "ResourceAlreadyExistsException" ∷ []

abbrev pub execution_failed_patterns : List String
execution_failed_patterns =
    "one or more targets in stage" ∷ "failed to rebuild execution plan" ∷ "failed to create job"
    ∷ "cannot execute stage" ∷ []

abbrev pub transient_patterns : List String
transient_patterns =
    "timeout" ∷ "connection refused" ∷ "temporary failure" ∷ "rate limit" ∷ "throttling"
    ∷ "service unavailable" ∷ "too many requests" ∷ "deadline exceeded" ∷ []

abbrev pub permanent_patterns : List String
permanent_patterns =
    "not found" ∷ "already exists" ∷ "invalid" ∷ "forbidden" ∷ "unauthorized" ∷ "permission denied"
    ∷ []

unfoldable pub matches_any : List ℕ → List String → Bool
matches_any message = any (λ pattern. contains message (codes pattern))

classify_text : List ℕ → ErrorClassification
classify_text message =
    if matches_any message execution_failed_patterns
    then execution_failed
    else if matches_any message transient_patterns
    then transient
    else if matches_any message permanent_patterns
    then permanent
    else unknown

classify_code : Option String → ErrorClassification → ErrorClassification
classify_code none by_text = by_text
classify_code (some code) by_text =
    if elem code transient_aws_error_codes
    then transient
    else if elem code permanent_aws_error_codes
    then permanent
    else by_text

-- `none` is a nil error.
unfoldable pub classify_error : Option Error → ErrorClassification
unfolding classify_text classify_code
classify_error none = unknown
classify_error (some e) = classify_code e.api_code (classify_text (map to_lower (codes e.text)))

abbrev pub base_backoff : Duration
base_backoff = pos (60 * second)

abbrev pub max_backoff : Duration
max_backoff = pos (30 * minute)

-- The loop over the attempts, with `multiplier` in an `int64`.
backoff_loop : ℕ → ℤ → Duration
backoff_loop zero multiplier =
    let backoff = wrap64 (multiplier *ℤ base_backoff) in
    if ltb_ℤ max_backoff backoff then max_backoff else backoff
backoff_loop (suc n) multiplier =
    let multiplier' = wrap64 (multiplier *ℤ pos 2) in
    let rest = backoff_loop n multiplier' in
    if leb_ℤ max_backoff (wrap64 (multiplier' *ℤ base_backoff)) then max_backoff else rest

unfoldable pub calculate_backoff : ℤ → Duration
unfolding backoff_loop
calculate_backoff (pos n) = backoff_loop n (pos 1)
calculate_backoff (negsuc n) = backoff_loop 0 (pos 1)

-- The `Reason` of a strategy; its text is made of these.
pub data Reason : Type 0 where
  max_retries_exceeded : ℤ → Reason
  classified_permanent : Reason
  waiting_for_backoff : ℤ → ℤ → Reason
  retrying : Option Error → ℤ → ℤ → Reason

pub record ErrorRecoveryStrategy : Type 0 where
  pub should_retry : Bool
  pub retry_after : Duration
  pub classification : ErrorClassification
  pub reason : Reason

abbrev pub default_recovery_max_retry_attempts : ℤ
default_recovery_max_retry_attempts = pos 3

-- `ptr.Deref(plan.Spec.Behavior.Retries, wellknown.DefaultRecoveryMaxRetryAttempts)`
abbrev pub max_retries : Option ℤ → ℤ
max_retries none = default_recovery_max_retry_attempts
max_retries (some n) = n

abbrev is_permanent : ErrorClassification → Bool
is_permanent permanent = true
is_permanent _ = false

-- `elapsed < backoff`, where there is a last retry.
waiting_time : Option Time → Time → Duration → Option Duration
waiting_time none now backoff = none
waiting_time (some last) now backoff =
    let elapsed = sub now last in if ltb_ℤ elapsed backoff then some (backoff -ℤ elapsed) else none

retry_strategy :
    ErrorClassification → Option Error → ℤ → ℤ → Option Duration → ErrorRecoveryStrategy
retry_strategy c e attempt limit none = record {
  should_retry = true;
  retry_after = pos 0;
  classification = c;
  reason = retrying e attempt limit;
}
retry_strategy c e attempt limit (some wait) = record {
  should_retry = true;
  retry_after = wait;
  classification = c;
  reason = waiting_for_backoff attempt limit;
}

-- `retries` is the plan's `Spec.Behavior.Retries`.
unfoldable pub determine_recovery_strategy :
    Option ℤ → HibernatePlanStatus → Time → Option Error → ErrorRecoveryStrategy
unfolding retry_strategy waiting_time
determine_recovery_strategy retries status now e =
    let c = classify_error e in
    let limit = max_retries retries in
    if leb_ℤ limit status.retry_count
    then record {
      should_retry = false;
      retry_after = pos 0;
      classification = c;
      reason = max_retries_exceeded limit;
    }
    else if is_permanent c
    then record {
      should_retry = false;
      retry_after = pos 0;
      classification = c;
      reason = classified_permanent;
    }
    else retry_strategy c e (wrap32 (status.retry_count +ℤ pos 1)) limit
        (waiting_time status.last_retry_time now (calculate_backoff status.retry_count))

-- `if err != nil { plan.Status.ErrorMessage = err.Error() }`, and what is set otherwise.
abbrev text_or : Option Error → String → String
text_or none message = message
text_or (some e) message = e.text

-- Within five seconds of the last retry the call counts as a duplicate.
is_duplicate : Option Time → Time → Bool
is_duplicate none now = false
is_duplicate (some last) now = ltb_ℤ (sub now last) (pos (5 * second))

unfoldable pub record_retry_attempt :
    HibernatePlanStatus → Time → Option Error → HibernatePlanStatus × Bool
unfolding is_duplicate
record_retry_attempt status now e =
    if is_duplicate status.last_retry_time now
    then (record status { error_message = text_or e status.error_message }, false)
    else (
      record status {
        retry_count = wrap32 (status.retry_count +ℤ pos 1);
        last_retry_time = some now;
        error_message = text_or e "unknown error";
      },
      true,
    )

unfoldable pub reset_retry_state : HibernatePlanStatus → HibernatePlanStatus
reset_retry_state status = record status {
  retry_count = pos 0;
  last_retry_time = none;
  error_message = "";
}
