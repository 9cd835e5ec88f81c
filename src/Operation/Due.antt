-- ===== src/Operation/Due.antt =====
-- A job is asked for only where it is due, judged by the executions before the pass.
use hibernator.Prelude.{
  ℕ, ◌+◌, String, ◌≡◌, refl, Bool, true, false, not, ◌&&◌, inl, inr, ◌⊎◌, Bool-cases, List, [], ◌∷◌,
  ◌++◌, arith, elem, elem-append, eq_iff, ◌==◌, subst,
}
use hibernator.Prelude.Int.{ℤ}
use hibernator.Api.{
  PlanOperation, Target, ExecutionStatus, Dependency, HibernatePlanSpec, HibernatePlanStatus,
}
use hibernator.Jobs.{Job}
use hibernator.Planner.{ExecutionStage}
use hibernator.Execution.{
  find_target_type, find_execution_status, failed_upstream, find_failed_upstream, is_failed,
  count_running_jobs_in_stage,
}
use hibernator.Operation.{
  Answers, has_ended, nonempty, is_strict, decide, prune_target, prune_message, dispatch_loop,
  execute_for_stage, stage_concurrency,
}
use hibernator.Operation.Concurrency.{Decision-cases, Eligible, decide-create}

-- Aborting a target only ends executions: it makes none pending again.
prune-ended :
    (t message type name : String) (es : List ExecutionStatus)
    → has_ended (find_execution_status (prune_target t message es) type name) ≡ false
    → has_ended (find_execution_status es type name) ≡ false
unfolding prune_target find_execution_status
prune-ended t message type name [] h = refl
prune-ended t message type name (e ∷ es) h = ground (arith, prune-ended t message type name es)

prune-failed :
    (t message type name : String) (es : List ExecutionStatus)
    → is_failed (find_execution_status (prune_target t message es) type name) ≡ false
    → is_failed (find_execution_status es type name) ≡ false
unfolding prune_target find_execution_status
prune-failed t message type name [] h = refl
prune-failed t message type name (e ∷ es) h = ground (arith, prune-failed t message type name es)

prune-upstream :
    (t message name : String) (targets : List Target) (es : List ExecutionStatus)
    (ds : List Dependency)
    → nonempty (failed_upstream targets (prune_target t message es) ds name) ≡ false
    → nonempty (failed_upstream targets es ds name) ≡ false
unfolding failed_upstream
prune-upstream t message name targets es [] h = refl
prune-upstream t message name targets es (d ∷ ds) h = ground (
  arith,
  prune-failed t message (find_target_type targets d.from) d.from es,
  prune-upstream t message name targets es ds,
)

module _ (spec : HibernatePlanSpec) (operation : PlanOperation) (cycle_id : String)
    (jobs : List Job) where
  prune-Eligible :
      (t message name : String) (es : List ExecutionStatus)
      → Eligible spec operation cycle_id jobs (prune_target t message es) name
      → Eligible spec operation cycle_id jobs es name
  unfolding find_failed_upstream
  prune-Eligible t message name es g = record {
    target = g.target;
    known = g.known;
    not_ended = prune-ended t message g.target.type name es g.not_ended;
    not_blocked = ground (
      arith,
      g.not_blocked,
      prune-upstream t message name spec.targets es spec.strategy.dependencies,
    );
    no_job = g.no_job;
  }

  module _ (world : Answers) (mc : ℤ) where
    abbrev DueIn : List String → List ExecutionStatus → List String → String → Type 0
    DueIn names executions dispatched k =
        (elem k dispatched ≡ true)
        ⊎ ((elem k names ≡ true) × Eligible spec operation cycle_id jobs executions k)

    later :
        (name k : String) (rest dispatched : List String) (executions : List ExecutionStatus)
        → DueIn rest executions dispatched k
        → DueIn (name ∷ rest) executions dispatched k
    later name k rest dispatched executions (inl a) = inl a
    later name k rest dispatched executions (inr (a, b)) = inr (ground arith, b)

    later_pruned :
        (name k message : String) (rest dispatched : List String)
        (executions : List ExecutionStatus)
        → DueIn rest (prune_target name message executions) dispatched k
        → DueIn (name ∷ rest) executions dispatched k
    later_pruned name k message rest dispatched executions (inl a) = inl a
    later_pruned name k message rest dispatched executions (inr (a, b)) =
        inr (ground arith, prune-Eligible name message k executions b)

    now :
        (name k : String) (rest dispatched : List String) (executions : List ExecutionStatus)
        → Eligible spec operation cycle_id jobs executions name
        → elem k (dispatched ++ name ∷ []) ≡ true
        → DueIn (name ∷ rest) executions dispatched k
    now name k rest dispatched executions g h = elim (Bool-cases (name == k)) [
      | inl e ↦ inr (
        ground arith,
        subst (Eligible spec operation cycle_id jobs executions) ((eq_iff name k).0 e) g,
      )
      | inr e ↦ inl (ground (arith, elem-append k dispatched (name ∷ [])))
    ]

    now_or_later :
        (name k : String) (rest dispatched : List String) (executions : List ExecutionStatus)
        → Eligible spec operation cycle_id jobs executions name
        → DueIn rest executions (dispatched ++ name ∷ []) k
        → DueIn (name ∷ rest) executions dispatched k
    now_or_later name k rest dispatched executions g (inl a) =
        now name k rest dispatched executions g a
    now_or_later name k rest dispatched executions g (inr (a, b)) = inr (ground arith, b)

    abbrev gives_up : String → Bool
    gives_up name =
        not (world.can_create_job name) && is_strict spec.behavior.mode && spec.behavior.fail_fast

    loop-DueIn :
        (names : List String) (used : ℕ) (executions : List ExecutionStatus)
        (dispatched : List String) (k : String)
        → elem k
            (dispatch_loop spec operation cycle_id jobs world mc names used executions
              dispatched).dispatched
          ≡ true
        → DueIn names executions dispatched k
    unfolding dispatch_loop
    loop-DueIn [] used executions dispatched k h = inl h
    loop-DueIn (name ∷ rest) used executions dispatched k h =
        elim (Decision-cases (decide spec operation cycle_id jobs mc used executions name)) [
          | inl d ↦
              let g = (decide-create spec operation cycle_id jobs mc used executions name d).0 in
              elim (Bool-cases (gives_up name)) [
                | inl e ↦ now name k rest dispatched executions g (rw (d, e, dispatch_loop) at h)
                | inr e ↦ now_or_later name k rest dispatched executions g (
                    loop-DueIn rest (used + 1) executions (dispatched ++ name ∷ []) k
                      (rw (d, e, dispatch_loop) at h))
              ]
          | inr (inl d) ↦ inl (rw (d, dispatch_loop) at h)
          | inr (inr (inl d)) ↦
              later name k rest dispatched executions
                (loop-DueIn rest used executions dispatched k (rw (d, dispatch_loop) at h))
          | inr (inr (inr (inl (u, d)))) ↦ inl (rw (d, dispatch_loop) at h)
          | inr (inr (inr (inr (u, d)))) ↦
              later_pruned name k (prune_message u) rest dispatched executions (
                loop-DueIn rest used (prune_target name (prune_message u) executions) dispatched k
                  (rw (d, dispatch_loop) at h))
        ]

-- A pass over a stage asks for a job only for a target of the stage and of the plan that has not
-- ended, has no job of this operation and cycle, and, in a DAG, depends on no target that failed
-- or was aborted; all of it judged by the executions as they were before the pass.
pub execute_for_stage-Eligible :
    (spec : HibernatePlanSpec) (operation : PlanOperation) (world : Answers) (jobs : List Job)
    (stage : ExecutionStage) (status : HibernatePlanStatus) (k : String)
    → elem k (execute_for_stage spec operation world jobs stage status).dispatched ≡ true
    → (elem k stage.targets ≡ true)
      × Eligible spec operation status.current_cycle_id jobs status.executions k
unfolding execute_for_stage
execute_for_stage-Eligible spec operation world jobs stage status k h =
    elim (loop-DueIn spec operation status.current_cycle_id jobs world (stage_concurrency stage)
      stage.targets (count_running_jobs_in_stage jobs stage) status.executions [] k h) [
        | inl none_before ↦ cc
        | inr due ↦ due
      ]
