-- ===== src/Examples/Recovering.antt =====
-- Recovery of a plan that failed by throttling.
use Prim.Native.Nat.{min}
use hibernator.Prelude.{
  false, ℕ, ◌*◌, ◌-◌, ◌^◌, ◌≤◌, ◌≡◌, ◌↔◌, refl, true, List, [], ◌∷◌, Option, none, some, arith,
}
use hibernator.Prelude.Int.{pos, ◌<ℤ◌, pos_part, wrap64, ◌*ℤ◌}
use hibernator.Time.{second, minute, sub}
use hibernator.Api.{PlanPhase, hibernate, failed, HibernatePlan, HibernatePlanStatus}
use hibernator.Recovery.{
  Error, calculate_backoff, determine_recovery_strategy, max_retries, classify_error, permanent,
  record_retry_attempt,
}
use hibernator.Recovery.Backoff.{calculate_backoff-eq}
use hibernator.Recovery.Strategy.{retry_after-backoff}
use hibernator.Recovery.Attempts.{record_retry_attempt_twice}
use hibernator.Plan.{Outcome}
use hibernator.Plan.Repair.{handle_recovery}
use hibernator.Plan.Retries.{Within, handle_recovery-Within}
use hibernator.Examples.Data.{status_in, plan_in, execution, world}

abbrev throttled : Option Error
throttled = some (record { api_code = some "Throttling"; text = "slow down" })

abbrev status : HibernatePlanStatus
status = record (status_in PlanPhase.error hibernate []) {
  retry_count = pos 1;
  last_retry_time = some 1000;
}

calculate_backoff-eq_example :
    calculate_backoff (pos 3) ≡ pos (min (60 * second * 2 ^ 3) (30 * minute))
calculate_backoff-eq_example = calculate_backoff-eq 3

retries_test : (determine_recovery_strategy none status 2000 throttled).should_retry ≡ true
unfolding determine_recovery_strategy classify_error sub calculate_backoff wrap64 ◌*ℤ◌
retries_test = refl

retry_after-backoff_example :
    (w : ℕ) × ((determine_recovery_strategy none status 2000 throttled).retry_after ≡ pos w)
    × (w ≡ pos_part (calculate_backoff (pos 1)) - (2000 - 1000))
    × (w ≤ 30 * minute)
retry_after-backoff_example =
    retry_after-backoff none status 2000 1000 1 throttled refl refl (omega arith) (omega arith)
      retries_test

-- A target of a plan failed for the third time, and no retry is recorded to wait for.
abbrev failing : HibernatePlan
failing =
    let plan = plan_in PlanPhase.error hibernate (execution "api" failed ∷ []) in
    record plan {
      status = record plan.status { retry_count = pos 2; error_message = "connection timeout" };
    }

failing_outcome :
    (o : Outcome) × (handle_recovery world failing ≡ some o) × (o.plan.status.retry_count ≡ pos 3)
unfolding handle_recovery determine_recovery_strategy classify_error hibernator.Recovery.matches_any
    hibernator.Prelude.Text.contains hibernator.Operation.build_execution_plan
    hibernator.Plan.Effective.effective_spec
    hibernator.Plan.Effective.find_active_exception_override hibernator.Planner.plan_dag
    hibernator.Planner.check_dependencies hibernator.Planner.dag_loop hibernator.Planner.sort
    hibernator.Planner.ready_keys hibernator.Planner.add_degrees hibernator.Prelude.insert
    hibernator.Planner.zero_degrees hibernator.Prelude.Int.◌+ℤ◌ hibernator.Prelude.lookup
    hibernator.Execution.reverse_if hibernator.Operation.build_for
    hibernator.Plan.Repair.determine_retry_operation hibernator.Plan.Repair.handle_manual_retry
    hibernator.Plan.Repair.handle_retry hibernator.Plan.Repair.reset_failed
    hibernator.Plan.Repair.retry_status hibernator.Planner.add_successors
    hibernator.Planner.concurrency hibernator.Planner.decrement_all
    hibernator.Planner.empty_adjacency hibernator.Planner.insert_sorted
    hibernator.Planner.remove_ready hibernator.Prelude.Int.int32 hibernator.Prelude.Int.wrap32
    wrap64 ◌*ℤ◌ hibernator.Prelude.Int.◌-ℤ◌ hibernator.Prelude.erase calculate_backoff
    record_retry_attempt sub
failing_outcome = (_, refl, refl)

handle_recovery-Within_example : Within 3 failing_outcome.0.plan.status.retry_count
handle_recovery-Within_example =
    handle_recovery-Within world failing failing_outcome.0 3 refl (omega arith) (ground arith)
      failing_outcome.1

recorded_test : (record_retry_attempt status (200 * second) throttled).1 ≡ true
unfolding record_retry_attempt sub
recorded_test = refl

record_retry_attempt_twice_example :
    let once = (record_retry_attempt status (200 * second) throttled).0 in
    let twice = record_retry_attempt once (201 * second) none in
    (twice.1 ≡ false)
    × (twice.0.retry_count ≡ once.retry_count)
    × (twice.0.last_retry_time ≡ some (200 * second))
record_retry_attempt_twice_example =
    record_retry_attempt_twice status (200 * second) (201 * second) throttled none recorded_test
      (omega arith) (omega arith)
