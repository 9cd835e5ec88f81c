-- ===== src/Operation/Concurrency.antt =====
-- A stage never runs more jobs at a time than its limit, and only jobs that are due.
use Prim.Native.Nat.{max}
use hibernator.Prelude.{
  ℕ, ◌+◌, ◌^◌, ◌≤◌, ◌<◌, String, ◌≡◌, refl, false, ◌&&◌, inl, inr, ◌⊎◌, Option-cases, List, [], ◌∷◌,
  ◌++◌, some, arith, length, length-append,
}
use hibernator.Prelude.Int.{ℤ, pos, int32, leb_ℤ}
use hibernator.Api.{PlanOperation, Target, ExecutionStatus, HibernatePlanSpec, HibernatePlanStatus}
use hibernator.Jobs.{Job}
use hibernator.Planner.{ExecutionStage}
use hibernator.Execution.{
  find_target, find_execution_status, find_failed_upstream, job_exists_for_target,
  count_running_jobs_in_stage,
}
use hibernator.Operation.{
  Answers, Dispatch, Decision, skip, block, prune, stop, create, has_ended, nonempty, is_dag,
  decide, prune_target, prune_message, dispatch_loop, execute_for_stage, stage_concurrency,
}

pub Decision-cases :
    (d : Decision)
    → (d ≡ create)
      ⊎ ((d ≡ stop)
          ⊎ ((d ≡ skip)
              ⊎ (((u : List String) × (d ≡ block u)) ⊎ ((u : List String) × (d ≡ prune u)))))
Decision-cases skip = inr (inr (inl refl))
Decision-cases (block u) = inr (inr (inr (inl (u, refl))))
Decision-cases (prune u) = inr (inr (inr (inr (u, refl))))
Decision-cases stop = inr (inl refl)
Decision-cases create = inl refl

module _ (spec : HibernatePlanSpec) (operation : PlanOperation) (cycle_id : String)
    (jobs : List Job) where
  -- A job of the target is due: the target is one of the plan, it has not ended, no upstream of it
  -- failed, and it has no job yet.
  pub record Eligible (executions : List ExecutionStatus) (name : String) : Type 0 where
    pub target : Target
    pub known : find_target spec.targets name ≡ some target
    pub not_ended : has_ended (find_execution_status executions target.type name) ≡ false
    pub not_blocked :
        (is_dag spec.strategy.type && nonempty (find_failed_upstream spec executions name)) ≡ false
    pub no_job : job_exists_for_target jobs name operation cycle_id ≡ false

  pub decide-create :
      (mc : ℤ) (used : ℕ) (executions : List ExecutionStatus) (name : String)
      → decide spec operation cycle_id jobs mc used executions name ≡ create
      → Eligible executions name × (leb_ℤ mc (int32 used) ≡ false)
  unfolding decide
  decide-create mc used executions name h = elim (Option-cases (find_target spec.targets name)) [
    | inl e ↦ cc (rw (e, decide) at h)
    | inr (t, e) ↦
        let h' = rw (e, decide) at h in
        (
          record {
            target = t;
            known = e;
            not_ended = ground arith;
            not_blocked = ground arith;
            no_job = ground arith;
          },
          ground arith,
        )
  ]

  module _ (world : Answers) (mc : ℤ) where
    abbrev loop : List String → ℕ → List ExecutionStatus → List String → Dispatch
    loop = dispatch_loop spec operation cycle_id jobs world mc

    loop-le :
        (names : List String) (used : ℕ) (executions : List ExecutionStatus)
        (dispatched : List String) (m : ℕ)
        → mc ≡ pos m
        → m < 2 ^ 31
        → used < 2 ^ 31
        → used + length (loop names used executions dispatched).dispatched
          ≤ length dispatched + max used m
    unfolding dispatch_loop int32
    loop-le [] used executions dispatched m e b c = omega arith
    loop-le (name ∷ rest) used executions dispatched m e b c =
        elim (Decision-cases (decide spec operation cycle_id jobs mc used executions name)) [
          | inl d ↦
              rw (d, dispatch_loop)
                (ground (
                  arith,
                  (decide-create mc used executions name d).1,
                  length-append dispatched (name ∷ []),
                  loop-le rest (used + 1) executions (dispatched ++ name ∷ []) m e b,
                ))
          | inr (inl d) ↦ rw (d, dispatch_loop) (omega arith)
          | inr (inr (inl d)) ↦
              rw (d, dispatch_loop) (loop-le rest used executions dispatched m e b c)
          | inr (inr (inr (inl (u, d)))) ↦ rw (d, dispatch_loop) (omega arith)
          | inr (inr (inr (inr (u, d)))) ↦
              rw (d, dispatch_loop)
                (loop-le rest used (prune_target name (prune_message u) executions) dispatched m e b
                  c)
        ]

-- Where the stage's limit is a positive `int32`, and fewer than 2 ^ 31 jobs of it hold a slot, a
-- pass over the stage asks for at most as many new jobs as slots are free: with those that run
-- there are never more than the limit, or than there were before.
pub execute_for_stage-le :
    (spec : HibernatePlanSpec) (operation : PlanOperation) (world : Answers) (jobs : List Job)
    (stage : ExecutionStage) (status : HibernatePlanStatus) (m : ℕ)
    → stage_concurrency stage ≡ pos m
    → m < 2 ^ 31
    → count_running_jobs_in_stage jobs stage < 2 ^ 31
    → count_running_jobs_in_stage jobs stage
        + length (execute_for_stage spec operation world jobs stage status).dispatched
      ≤ max (count_running_jobs_in_stage jobs stage) m
unfolding execute_for_stage
execute_for_stage-le spec operation world jobs stage status m e b c = omega (
  arith,
  loop-le spec operation status.current_cycle_id jobs world (stage_concurrency stage) stage.targets
      (count_running_jobs_in_stage jobs stage) status.executions [] m e b c,
)
