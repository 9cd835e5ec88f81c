-- ===== src/Examples/Reconciling.antt =====
-- Reconciliations of the plan: off-hours begin, a suspension half way, the end of an operation.
use hibernator.Prelude.{◌≡◌, refl, true, false, [], ◌∷◌, some, none, lookup, insert, erase}
use hibernator.Prelude.Int.{◌+ℤ◌, ◌-ℤ◌}
use hibernator.Planner.{
  plan_dag, check_dependencies, dag_loop, sort, ready_keys, add_degrees, zero_degrees,
  insert_sorted, remove_ready, decrement_all, add_successors, empty_adjacency, concurrency,
}
use hibernator.Plan.Effective.{
  effective_spec, locked, find_active_exception_override, latest_override,
}
use hibernator.Api.{PlanPhase, no_operation, hibernate, HibernatePlan, pending, running, completed}
use hibernator.Execution.{is_operation_complete, get_stage_status, state_of}
use hibernator.Operation.{
  update_execution_statuses, observe, matching_job, observe_missing, build_execution_plan,
  build_for,
}
use hibernator.Plan.Running.{
  execute_jobs, observed, finalize, handle_hibernating, execute, carry_out, next_step,
  get_current_cycle_jobs,
}
use hibernator.Plan.Suspension.{resume, perform_suspension}
use hibernator.Plan.Resume.{resumed_status, resume-perform_suspension}
use hibernator.Plan.Completion.{is_idle, reconcile-is_operation_complete}
use hibernator.Plan.{Outcome, annotation_is, done, quiet, annotation_suspended_at_phase}
use hibernator.Plan.Idle.{transition_to_hibernating, handle_idle}
use hibernator.Plan.Invariant.{Arrow, coherent}
use hibernator.Plan.Transitions.{reconcile-Arrow, reconcile-coherent}
use hibernator.Plan.Select.{
  reconcile, run_handler, handle, select_handler, phase_handler, suspension_gate,
}
use hibernator.Examples.Data.{plan_in, world, execution}

abbrev plan : HibernatePlan
plan = plan_in PlanPhase.active no_operation []

abbrev started : Outcome
started = transition_to_hibernating world false plan

reconcile_test : reconcile world plan ≡ some started
unfolding reconcile run_handler handle select_handler phase_handler transition_to_hibernating lookup
    annotation_is handle_idle
reconcile_test = refl

reconcile-Arrow_example : Arrow PlanPhase.active started.plan.status.phase
reconcile-Arrow_example = reconcile-Arrow world plan started reconcile_test

reconcile-coherent_example : coherent started.plan ≡ true
reconcile-coherent_example = reconcile-coherent world plan started refl reconcile_test

abbrev halfway : HibernatePlan
halfway =
    plan_in PlanPhase.hibernating hibernate
      (execution "api" pending ∷ execution "db" running ∷ execution "web" pending ∷ [])

resume-perform_suspension_example :
    let resumed = (resume world (perform_suspension world halfway).plan).plan in
    (resumed.status ≡ resumed_status world halfway.status)
    × (lookup annotation_suspended_at_phase resumed.annotations ≡ none)
resume-perform_suspension_example = resume-perform_suspension world world halfway refl refl refl

-- The last stage, with all targets done.
abbrev finishing : HibernatePlan
finishing =
    let plan =
      plan_in PlanPhase.hibernating hibernate
        (execution "api" completed ∷ execution "db" completed ∷ execution "web" completed ∷ []) in
    record plan { status = record plan.status { current_stage_index = 1 } }

abbrev finished : Outcome
finished = done (finalize world hibernate finishing) quiet

finishing_test : reconcile world finishing ≡ some finished
unfolding reconcile run_handler handle select_handler phase_handler handle_hibernating execute
    execute_jobs carry_out get_current_cycle_jobs effective_spec locked
    find_active_exception_override latest_override observed next_step update_execution_statuses
    observe matching_job observe_missing build_execution_plan build_for plan_dag check_dependencies
    dag_loop sort ready_keys add_degrees zero_degrees insert_sorted remove_ready decrement_all
    add_successors empty_adjacency concurrency insert lookup erase ◌+ℤ◌ ◌-ℤ◌ get_stage_status
    finalize is_operation_complete suspension_gate state_of
finishing_test = refl

finished_test : is_idle finished.plan.status.phase ≡ true
unfolding finalize is_operation_complete
finished_test = refl

reconcile-is_operation_complete_example :
    is_operation_complete finished.plan.status.executions ≡ true
reconcile-is_operation_complete_example =
    reconcile-is_operation_complete world finishing finished refl finishing_test finished_test
