-- ===== src/Recovery/Strategy.antt =====
-- When a plan in the error phase is retried, and how long it waits.
use hibernator.Prelude.{ℕ, ◌+◌, ◌-◌, ◌*◌, ◌^◌, ◌≤◌, ◌<◌, ◌≡◌, refl, true, Option, some, arith}
use hibernator.Prelude.Int.{ℤ, pos, pos_part, ◌-ℤ◌}
use hibernator.Time.{minute, sub}
use hibernator.Api.{HibernatePlanStatus}
use hibernator.Recovery.{Error, calculate_backoff, determine_recovery_strategy}
use hibernator.Recovery.Backoff.{calculate_backoff-eq}

-- Where a plan is to be retried after an earlier attempt, at a clock that did not go back and less
-- than 2 ^ 63 nanoseconds later, the wait runs exactly to the end of the backoff, counted from the
-- last attempt; once the backoff is over there is none. It is never longer than half an hour.
pub retry_after-backoff :
    (retries : Option ℤ) (status : HibernatePlanStatus) (now last n : ℕ) (e : Option Error)
    → status.retry_count ≡ pos n
    → status.last_retry_time ≡ some last
    → last ≤ now
    → now < last + 2 ^ 63
    → (determine_recovery_strategy retries status now e).should_retry ≡ true
    → (w : ℕ) × ((determine_recovery_strategy retries status now e).retry_after ≡ pos w)
      × (w ≡ pos_part (calculate_backoff (pos n)) - (now - last))
      × (w ≤ 30 * minute)
unfolding determine_recovery_strategy sub ◌-ℤ◌
retry_after-backoff retries status now last n e count at later near retry = (
  pos_part (calculate_backoff (pos n)) - (now - last),
  ground (arith, calculate_backoff-eq n),
  refl,
  ground (arith, calculate_backoff-eq n),
)
