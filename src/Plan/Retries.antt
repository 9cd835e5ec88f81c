-- ===== src/Plan/Retries.antt =====
-- The retry counter over the passes of the recovery handler.
use hibernator.Prelude.{
  ℕ, ◌^◌, ◌<◌, ◌≡◌, Bool, true, false, Option, none, some, arith, inl, inr, Option-cases,
  Bool-cases, get_elem?,
}
use hibernator.Prelude.Int.{ℤ, pos, ◌≤ℤ◌, ◌<ℤ◌, ◌+ℤ◌, wrap32, ltb_ℤ}
use hibernator.Time.{Time}
use hibernator.Api.{PlanOperation, HibernatePlan, HibernatePlanStatus}
use hibernator.Planner.{ExecutionStage}
use hibernator.Recovery.{Error, max_retries, determine_recovery_strategy, record_retry_attempt}
use hibernator.Plan.{World, Outcome, annotation_retry_at}
use hibernator.Plan.Repair.{
  handle_recovery, handle_retry, handle_manual_retry, retry_status, retry_recorded, last_error,
  or_unknown, is_wakeup, determine_retry_operation,
}
use hibernator.Operation.{build_execution_plan}
use hibernator.Plan.Effective.{effective_spec}
use hibernator.Plan.Idle.{without}
use hibernator.Plan.Running.{spec_or}

-- The counter is a count, and not above the limit.
abbrev pub Within : ℕ → ℤ → Type 0
Within limit count = (pos 0 ≤ℤ count) × (count ≤ℤ pos limit)

record_retry_attempt-Within :
    (status : HibernatePlanStatus) (now : Time) (e : Option Error) (limit : ℕ)
    → limit < 2 ^ 31
    → Within limit status.retry_count
    → status.retry_count <ℤ pos limit
    → Within limit (record_retry_attempt status now e).0.retry_count
unfolding record_retry_attempt wrap32 ◌+ℤ◌
record_retry_attempt-Within status now e limit l within less = ground arith

retry_recorded-count :
    (op : PlanOperation) (stage : Option ExecutionStage) (status : HibernatePlanStatus)
    (recorded : Bool) (after : HibernatePlanStatus)
    → retry_recorded op stage (status, recorded) ≡ some after
    → after.retry_count ≡ status.retry_count
retry_recorded-count op stage status false after h = ground arith
retry_recorded-count op none status true after h = ground arith
retry_recorded-count op (some stage) status true after h = ground arith

handle_retry-Within :
    (world : World) (plan : HibernatePlan) (e : Option Error) (o : Outcome) (limit : ℕ)
    → limit < 2 ^ 31
    → Within limit plan.status.retry_count
    → plan.status.retry_count <ℤ pos limit
    → handle_retry world plan e ≡ some o
    → Within limit o.plan.status.retry_count
unfolding handle_retry retry_status
handle_retry-Within world plan e o limit l within less h =
    let operation = determine_retry_operation world plan.status.current_operation in
    elim (Option-cases (
      build_execution_plan (spec_or (effective_spec world plan) plan.spec) (is_wakeup operation))) [
        | inl unbuilt ↦ ground (arith, unbuilt)
        | inr (built, is_built) ↦
            elim (Option-cases (retry_status world operation built e plan.status)) [
              | inl panic ↦ ground (arith, is_built, panic)
              | inr (after, is_after) ↦ ground (
                arith,
                is_built,
                is_after,
                recorded operation (get_elem? built.stages plan.status.current_stage_index) after,
              )
            ]
      ]
  where
    recorded :
        (op : PlanOperation) (stage : Option ExecutionStage) (after : HibernatePlanStatus)
        → retry_recorded op stage (record_retry_attempt plan.status world.now (some (or_unknown e)))
          ≡ some after
        → Within limit after.retry_count
    recorded op stage after is_after =
        let attempt = record_retry_attempt plan.status world.now (some (or_unknown e)) in
        ground (
          arith,
          retry_recorded-count op stage attempt.0 attempt.1 after is_after,
          record_retry_attempt-Within plan.status world.now (some (or_unknown e)) limit l within
              less,
        )

should_retry-less :
    (retries : Option ℤ) (status : HibernatePlanStatus) (now : Time) (e : Option Error) (limit : ℕ)
    → max_retries retries ≡ pos limit
    → (determine_recovery_strategy retries status now e).should_retry ≡ true
    → status.retry_count <ℤ pos limit
unfolding determine_recovery_strategy
should_retry-less retries status now e limit m retry = ground arith

-- A pass of the recovery handler that does not panic, a manual retry and a failure to build the plan
-- included, keeps the retry counter between 0 and the plan's retry limit, where the limit is an `int32`
-- that is not negative and the counter was in that range.
pub handle_recovery-Within :
    (world : World) (plan : HibernatePlan) (o : Outcome) (limit : ℕ)
    → max_retries plan.spec.behavior.retries ≡ pos limit
    → limit < 2 ^ 31
    → Within limit plan.status.retry_count
    → handle_recovery world plan ≡ some o
    → Within limit o.plan.status.retry_count
unfolding handle_recovery handle_manual_retry
handle_recovery-Within world plan o limit m l within h =
    let e = last_error plan.status.error_message in
    let retries = plan.spec.behavior.retries in
    let strategy = determine_recovery_strategy retries plan.status world.now e in
    elim (Bool-cases strategy.should_retry) [
      | inr refused ↦ ground (arith, refused)
      | inl retry ↦ elim (Bool-cases (ltb_ℤ (pos 0) strategy.retry_after)) [
        | inl wait ↦ ground (arith, retry, wait)
        | inr due ↦
            handle_retry-Within world (without annotation_retry_at plan) e o limit l within
              (should_retry-less retries plan.status world.now e limit m retry)
              (ground (arith, retry, due))
      ]
    ]
