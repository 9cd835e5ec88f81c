-- ===== src/Recovery/Attempts.antt =====
-- Recording a retry twice.
use hibernator.Prelude.{◌+◌, ◌*◌, ◌≤◌, ◌<◌, ◌≡◌, true, false, Option, some, arith}
use hibernator.Time.{Time, second, sub}
use hibernator.Api.{HibernatePlanStatus}
use hibernator.Recovery.{Error, record_retry_attempt}

-- A second call, not before a recorded attempt and less than five seconds after it, counts nothing
-- and keeps the time of the first.
pub record_retry_attempt_twice :
    (status : HibernatePlanStatus) (now later : Time) (e f : Option Error)
    → (record_retry_attempt status now e).1 ≡ true
    → now ≤ later
    → later < now + 5 * second
    → let once = (record_retry_attempt status now e).0 in
      let twice = record_retry_attempt once later f in
      (twice.1 ≡ false)
      × (twice.0.retry_count ≡ once.retry_count)
      × (twice.0.last_retry_time ≡ some now)
unfolding record_retry_attempt sub
record_retry_attempt_twice status now later e f first le soon = ground arith
