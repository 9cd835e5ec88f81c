-- ===== src/Plan/Runs.antt =====
-- What an execution changes of the phase and the operation of a plan.
use hibernator.Prelude.{◌≡◌, refl, Bool, true, inl, inr, ◌⊎◌, Option-cases, List, Option, arith}
use hibernator.Api.{
  HibernatePlan, PlanOperation, HibernatePlanSpec, HibernatePlanStatus, ExecutionStatus,
}
use hibernator.Jobs.{Job}
use hibernator.Operation.{
  Dispatch, execute_for_stage, build_execution_plan, update_execution_statuses,
}
use hibernator.Execution.{is_operation_complete}
use hibernator.Plan.{World, next_stage}
use hibernator.Plan.Running.{
  finalize, finalize_status, post_wakeup_cleanup, carry_out, final_phase, dispatched, sent_status,
  copies, next_step, spec_or, Step, finalize_now, give_up, advance, fill, wait, observed,
  execute_jobs, execute, get_current_cycle_jobs,
}
use hibernator.Plan.Effective.{effective_spec}

-- What the handlers of an execution change of the phase and the operation.
abbrev pub Ran : PlanOperation → HibernatePlan → HibernatePlan → Type 0
Ran op before after =
    (after.status.current_operation ≡ before.status.current_operation)
    × ((after.status.phase ≡ before.status.phase)
        ⊎ ((after.status.phase ≡ final_phase op before.status.phase)
            × (is_operation_complete after.status.executions ≡ true)))

finalize-Ran :
    (world : World) (operation : PlanOperation) (plan : HibernatePlan)
    → Ran operation plan (finalize world operation plan)
unfolding finalize finalize_status post_wakeup_cleanup
finalize-Ran world PlanOperation.no_operation plan = ground arith
finalize-Ran world PlanOperation.hibernate plan = ground arith
finalize-Ran world PlanOperation.wakeup plan = ground arith

module _ (world : World) (op : PlanOperation) where
  dispatched-Ran :
      (copied : Bool) (plan : HibernatePlan) (d : Dispatch)
      → Ran op plan (dispatched copied plan d).plan
  dispatched-Ran copied plan d = elim (Option-cases d.error) [
    | inl e ↦ rw e (ground arith)
    | inr (x, e) ↦ rw e (ground arith)
  ]

  carry_out-Ran :
      (copied : Bool) (spec : HibernatePlanSpec) (status : HibernatePlanStatus) (jobs : List Job)
      (plan : HibernatePlan) (step : Step)
      → Ran op plan (carry_out world op copied spec status jobs plan step).plan
  unfolding carry_out next_stage
  carry_out-Ran copied spec status jobs plan finalize_now = finalize-Ran world op plan
  carry_out-Ran copied spec status jobs plan (give_up e) = (refl, inl refl)
  carry_out-Ran copied spec status jobs plan (advance index stage) =
      dispatched-Ran copied (next_stage index plan)
        (execute_for_stage spec op world.answers jobs stage (sent_status copied status index))
  carry_out-Ran copied spec status jobs plan (fill stage) =
      dispatched-Ran copied plan (execute_for_stage spec op world.answers jobs stage status)
  carry_out-Ran copied spec status jobs plan wait = (refl, inl refl)

  observed-Ran :
      (copied : Bool) (executions : List ExecutionStatus) (plan : HibernatePlan)
      → ((observed copied executions plan).status.current_operation ≡ plan.status.current_operation)
        × ((observed copied executions plan).status.phase ≡ plan.status.phase)
  unfolding observed
  observed-Ran copied executions plan = ground arith

  execute_jobs-Ran :
      (reverse : Bool) (effective : Option HibernatePlanSpec) (jobs : List Job)
      (plan : HibernatePlan)
      → Ran op plan (execute_jobs world op reverse effective jobs plan).plan
  unfolding execute_jobs
  execute_jobs-Ran reverse effective jobs plan =
      let spec = spec_or effective plan.spec in
      let status = update_execution_statuses world.answers jobs plan.status in
      let plan' = observed (copies effective) status.executions plan in
      elim (Option-cases (build_execution_plan spec reverse)) [
        | inl e ↦
            rw (e, execute_jobs)
              (ground (arith, observed-Ran (copies effective) status.executions plan))
        | inr (x, e) ↦
            rw (e, execute_jobs)
              (ground (
                arith,
                observed-Ran (copies effective) status.executions plan,
                carry_out-Ran (copies effective) spec status jobs plan'
                    (next_step spec status x.stages),
              ))
      ]

  pub execute-Ran :
      (reverse : Bool) (plan : HibernatePlan) → Ran op plan (execute world op reverse plan).plan
  unfolding execute
  execute-Ran reverse plan = elim (Option-cases (get_current_cycle_jobs world plan.status)) [
    | inl e ↦ rw (e, execute) (ground arith)
    | inr (jobs, e) ↦
        rw (e, execute) (execute_jobs-Ran reverse (effective_spec world plan) jobs plan)
  ]
