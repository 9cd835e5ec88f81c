-- ===== src/Examples/Waiting.antt =====
-- A worker whose plan is suspended for two hours, longer than it may be inactive.
use hibernator.Prelude.{ℕ, ◌+◌, ◌*◌, ◌≡◌, refl, Bool, false, Option, some, arith}
use hibernator.Prelude.Int.{pos, wrap64, ◌+ℤ◌}
use hibernator.Time.{Time, add, minute}
use hibernator.Plan.{StateResult, quiet}
use hibernator.Worker.Timers.{
  start_timers, keep_alive, apply_result, apply_requeue, apply_timeout, apply_deadline, set_timeout,
  reset_timers,
}
use hibernator.Worker.Loop.{
  WorkerState, new_worker, deliver_plan, handle_and_keep, handle_with_depth, starts, delivers,
}
use hibernator.Worker.Loop.Covered.{Punctual, Covers, Runs-Covers}

-- The handler asks for the deadline again at each delivery, and takes a second.
abbrev suspended : Bool → Time → ℕ → Option (Time × StateResult × ℕ)
suspended on_deadline now p =
    some (now + 1000000000, record quiet { deadline_after = pos (120 * minute) }, p)

suspended-Punctual : Punctual suspended
suspended-Punctual on_deadline now p later r q reacts = (ground arith, ground arith)

abbrev waiting : WorkerState suspended
unfolding deliver_plan new_worker
waiting = deliver_plan suspended 7 (new_worker suspended 1000)

waiting_test :
    waiting.timers.deadline.timer
    ≡ some (record { fires_at = 1000 + 1000000000 + 120 * minute; fired = false })
unfolding deliver_plan new_worker handle_and_keep handle_with_depth start_timers keep_alive
    apply_result apply_requeue apply_timeout apply_deadline set_timeout reset_timers add wrap64 ◌+ℤ◌
waiting_test = refl

Runs-Covers_example : Covers waiting.timers
unfolding new_worker deliver_plan waiting
Runs-Covers_example =
    Runs-Covers suspended waiting suspended-Punctual
      (delivers (new_worker suspended 1000) 7 refl (starts 1000))
