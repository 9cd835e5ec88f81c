-- ===== src/Exceptions/Statuses.antt =====
-- `isStatusEqual` of internal/provider/processor/status/processor.go on schedule exceptions.
use hibernator.Prelude.{
  Bool, true, false, ◌&&◌, Option, none, some, ◌≡◌, refl, ap, eqb, eq_iff, arith, ◌==◌,
}
use hibernator.Time.{Time}
use hibernator.Api.{ExceptionState}
use hibernator.Exceptions.{ExceptionStatus, same_state}

abbrev equal_states : Option ExceptionState → Option ExceptionState → Bool
equal_states none none = true
equal_states (some a) (some b) = same_state a b
equal_states _ _ = false

abbrev equal_times : Option Time → Option Time → Bool
equal_times none none = true
equal_times (some a) (some b) = eqb a b
equal_times _ _ = false

unfoldable pub is_status_equal : ExceptionStatus → ExceptionStatus → Bool
is_status_equal a b =
    equal_states a.state b.state
    && equal_times a.applied_at b.applied_at
    && equal_times a.expired_at b.expired_at
    && equal_times a.detached_at b.detached_at
    && a.message == b.message

same_state-eq : (a b : ExceptionState) → same_state a b ≡ true → a ≡ b
same_state-eq a b h = ground arith

equal_states-eq : (a b : Option ExceptionState) → equal_states a b ≡ true → a ≡ b
equal_states-eq none none h = refl
equal_states-eq none (some b) h = cc
equal_states-eq (some a) none h = cc
equal_states-eq (some a) (some b) h = ap (λ s. some s) (same_state-eq a b h)

equal_times-eq : (a b : Option Time) → equal_times a b ≡ true → a ≡ b
equal_times-eq a b h = ground arith

-- Statuses that are equal for the test are equal.
pub is_status_equal-eq : (a b : ExceptionStatus) → is_status_equal a b ≡ true → a ≡ b
unfolding is_status_equal
is_status_equal-eq a b h = ground (
  arith,
  equal_states-eq a.state b.state,
  equal_times-eq a.applied_at b.applied_at,
  equal_times-eq a.expired_at b.expired_at,
  equal_times-eq a.detached_at b.detached_at,
  eq_iff a.message b.message,
)
