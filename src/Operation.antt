-- ===== src/Operation.antt =====
-- Running an operation stage by stage, internal/provider/processor/plan/state/state_execution.go.
-- What the API server and the callbacks of the worker answer are arguments: the jobs of the cycle,
-- the message in a job's pod, whether a job can be created, and whether a target has missed its job
-- too often. A status write (`PlanStatuses.Send`) is its mutator, applied at once. The effective
-- plan is the plan's status with a spec of its own, so the two are passed apart.
pub mod Concurrency
pub mod Due
use hibernator.Prelude.{
  ℕ, zero, suc, ◌+◌, String, Bool, true, false, not, ◌&&◌, ◌||◌, List, [], ◌∷◌, ◌++◌, map, Option,
  none, some, if◌then◌else◌, ◌==◌, ltb, leb, eqb, elem, length, filter, get_elem?, lookup,
}
use hibernator.Prelude.Int.{ℤ, pos, ◌+ℤ◌, leb_ℤ, int32, wrap32}
use hibernator.Time.{Time}
use hibernator.Api.{
  ExecutionState, pending, running, completed, failed, aborted, PlanOperation, BehaviorMode, strict,
  best_effort, StrategyType, sequential, parallel, dag, staged, Target, Stage, Dependency,
  ExecutionStatus, ExecutionStrategy, HibernatePlanSpec, HibernatePlanStatus,
}
use hibernator.Jobs.{
  Job, JobCondition, ConditionType, job_complete, job_failed, other_condition, label, is_stale,
  label_target, label_executor, label_execution_id,
}
use hibernator.Planner.{
  ExecutionStage, ExecutionPlan, Result, plan_sequential, plan_parallel, plan_staged, plan_dag,
}
use hibernator.Planner
use hibernator.Prelude.Text.{join}
use hibernator.Execution.{
  StageStatus, get_stage_status, find_target, find_target_type, count_running_jobs_in_stage,
  find_execution_status, find_failed_upstream, job_exists_for_target, reverse_if,
  execution_id_log_prefix, operation_text,
}

-- What goes wrong with a plan (`AsPlanError`), and what is transient.
pub data HandlerError : Type 0 where
  runtime_validation_failed : HandlerError
  build_plan_failed : HandlerError
  targets_failed : List String → HandlerError
  upstream_failed : String → List String → HandlerError
  create_job_failed : String → HandlerError
  operation_mismatch : HandlerError
  transient_error : HandlerError

abbrev pub is_dag : StrategyType → Bool
is_dag dag = true
is_dag _ = false

abbrev pub is_strict : BehaviorMode → Bool
is_strict strict = true
is_strict best_effort = false

abbrev deref : Option ℤ → ℤ
deref none = pos 0
deref (some n) = n

abbrev names : List Target → List String
names = map (λ t. t.name)

abbrev plan_stage : Stage → Planner.Stage
plan_stage s = record {
  name = s.name;
  parallel = s.parallel;
  max_concurrency = deref s.max_concurrency;
  targets = s.targets;
}

abbrev plan_dependency : Bool → Dependency → Planner.Dependency
plan_dependency reverse d = record {
  from = if reverse then d.to else d.from;
  to = if reverse then d.from else d.to;
}

-- `none` is the error of an unknown strategy, or of `PlanDAG`.
unfoldable pub build_for :
    StrategyType → ExecutionStrategy → List Target → Bool → Option ExecutionPlan
build_for sequential strategy targets reverse =
    some (plan_sequential (reverse_if reverse (names targets)))
build_for parallel strategy targets reverse =
    some (plan_parallel (reverse_if reverse (names targets)) (deref strategy.max_concurrency))
build_for staged strategy targets reverse = some (
    plan_staged (reverse_if reverse (map plan_stage strategy.stages))
      (deref strategy.max_concurrency))
build_for dag strategy targets reverse =
    elim (plan_dag (names targets) (map (plan_dependency reverse) strategy.dependencies)
      (deref strategy.max_concurrency)) [ Result.ok plan ↦ some plan | Result.err e ↦ none ]
build_for (StrategyType.unknown _) strategy targets reverse = none

unfoldable pub build_execution_plan : HibernatePlanSpec → Bool → Option ExecutionPlan
unfolding build_for
build_execution_plan spec reverse = build_for spec.strategy.type spec.strategy spec.targets reverse

-- The first condition that ends the job decides.
abbrev condition_state : List JobCondition → Option (ExecutionState × Time)
condition_state [] = none
condition_state (c ∷ cs) = elim (c.type) [
  | job_complete ↦ if c.status then some (completed, c.last_transition_time) else condition_state cs
  | job_failed ↦ if c.status then some (failed, c.last_transition_time) else condition_state cs
  | other_condition ↦ condition_state cs
]

abbrev non_empty_or : String → String → String
non_empty_or message fallback = if message == "" then fallback else message

abbrev started : Option Time → Option Time → Option Time
started none start = start
started (some t) start = some t

apply_active : Job → String → ExecutionStatus → ExecutionStatus
apply_active job in_progress e =
    if ltb 0 job.active then record e { state = running; message = in_progress } else e

apply_condition : Option (ExecutionState × Time) → String → ExecutionStatus → ExecutionStatus
apply_condition none message e = e
apply_condition (some (state, at)) message e = record e {
  state = state;
  message = non_empty_or message e.message;
  finished_at = some at;
}

abbrev logs_ref_of : Option String → String → String
logs_ref_of none old = old
logs_ref_of (some id) old = join execution_id_log_prefix id

-- The body of the loop for a job that matches. `termination` is the message in the job's pod.
unfoldable pub observe_job : String → String → String → Job → ExecutionStatus → ExecutionStatus
unfolding apply_active apply_condition
observe_job in_progress restore_config_map termination job e =
    let e1 = record e { started_at = started e.started_at job.start_time } in
    let e2 =
      apply_condition (condition_state job.conditions) termination
        (apply_active job in_progress e1) in
    record e2 {
      logs_ref = logs_ref_of (lookup label_execution_id job.labels) e2.logs_ref;
      restore_config_map_ref = join (join job.namespace "/") restore_config_map;
      job_ref = join (join job.namespace "/") job.name;
      attempts = wrap32 (int32 job.failed +ℤ int32 job.succeeded);
    }

abbrev pub matches_job : ExecutionStatus → Job → Bool
matches_job e job =
    not (is_stale job)
    && e.target == label label_target job
    && e.executor == label label_executor job

unfoldable pub matching_job : ExecutionStatus → List Job → Option Job
matching_job e [] = none
matching_job e (job ∷ jobs) = if matches_job e job then some job else matching_job e jobs

abbrev is_running : ExecutionState → Bool
is_running running = true
is_running _ = false

-- The body of the loop where no job matches: a job that was collected, or one that is missing.
unfoldable pub observe_missing : Bool → ExecutionStatus → ExecutionStatus
observe_missing missed_too_often e = if not (is_running e.state) then e else elim (e.finished_at) [
  | some _ ↦ record e { state = completed }
  | none ↦ if missed_too_often then record e { state = pending } else e
]

-- What the world answers while an operation runs.
pub record Answers : Type 0 where
  pub termination_message : Job → String
  pub job_missing : String → Bool
  pub can_create_job : String → Bool
  pub restore_config_map : String

abbrev observe_found : String → Answers → ExecutionStatus → Option Job → ExecutionStatus
observe_found in_progress world e none = observe_missing (world.job_missing e.target) e
observe_found in_progress world e (some job) =
    observe_job in_progress world.restore_config_map (world.termination_message job) job e

unfoldable pub observe : String → Answers → List Job → ExecutionStatus → ExecutionStatus
observe in_progress world jobs e = observe_found in_progress world e (matching_job e jobs)

-- `fmt.Sprintf("A %s operation is already in progress", plan.Status.CurrentOperation)`
abbrev in_progress_message : PlanOperation → String
in_progress_message operation =
    join (join "A " (operation_text operation)) " operation is already in progress"

unfoldable pub update_execution_statuses :
    Answers → List Job → HibernatePlanStatus → HibernatePlanStatus
update_execution_statuses world jobs status = record status {
  executions =
      map (observe (in_progress_message status.current_operation) world jobs) status.executions;
}

-- `pruneTarget`: the first execution of the target.
unfoldable pub prune_target : String → String → List ExecutionStatus → List ExecutionStatus
prune_target target message [] = []
prune_target target message (e ∷ es) =
    if e.target == target
    then record e { state = aborted; message = message } ∷ es
    else e ∷ prune_target target message es

abbrev pub has_ended : Option ExecutionStatus → Bool
has_ended none = false
has_ended (some e) = elim (e.state) [
  | failed ↦ true
  | completed ↦ true
  | aborted ↦ true
  | _ ↦ false
]

-- What a pass over a stage leaves: the executions, the targets for which a job was asked for, and
-- the error that ended the pass.
pub record Dispatch : Type 0 where
  pub executions : List ExecutionStatus
  pub dispatched : List String
  pub error : Option HandlerError

-- What becomes of one target.
pub data Decision : Type 0 where
  skip : Decision
  block : List String → Decision
  prune : List String → Decision
  stop : Decision
  create : Decision

abbrev nonempty : List String → Bool
nonempty [] = false
nonempty (x ∷ xs) = true

-- The tests of the loop's body, in their order. `used` is `runningCount + jobsCreated`.
unfoldable pub decide :
    HibernatePlanSpec
    → PlanOperation
    → String
    → List Job
    → ℤ
    → ℕ
    → List ExecutionStatus
    → String
    → Decision
decide spec operation cycle_id jobs max_concurrency used executions name =
    elim (find_target spec.targets name) [
      | none ↦ skip
      | some target ↦
          let upstream = find_failed_upstream spec executions name in
          if has_ended (find_execution_status executions target.type name)
          then skip
          else if is_dag spec.strategy.type && nonempty upstream
          then (if is_strict spec.behavior.mode then block upstream else prune upstream)
          else if job_exists_for_target jobs name operation cycle_id
          then skip
          else if leb_ℤ max_concurrency (int32 used)
          then stop
          else create
    ]

-- `fmt.Sprintf("Aborted: upstream dependency %v failed", failedUpstream)`
abbrev spaced : List String → String
spaced [] = ""
spaced (x ∷ []) = x
spaced (x ∷ y ∷ xs) = join x (join " " (spaced (y ∷ xs)))

abbrev prune_message : List String → String
prune_message upstream = join (join "Aborted: upstream dependency [" (spaced upstream)) "] failed"

module _ (spec : HibernatePlanSpec) (operation : PlanOperation) (cycle_id : String)
    (jobs : List Job) (world : Answers) (max_concurrency : ℤ) where
  -- The loop over the targets of a stage; a job that could not be created counts as created.
  unfoldable pub dispatch_loop : List String → ℕ → List ExecutionStatus → List String → Dispatch
  dispatch_loop [] used executions dispatched = record {
    executions = executions;
    dispatched = dispatched;
    error = none;
  }
  dispatch_loop (name ∷ rest) used executions dispatched =
      let skipped = dispatch_loop rest used executions dispatched in
      let pruned = λ (upstream : List String).
        dispatch_loop rest used (prune_target name (prune_message upstream) executions)
          dispatched in
      let created = dispatch_loop rest (used + 1) executions (dispatched ++ name ∷ []) in
      elim (decide spec operation cycle_id jobs max_concurrency used executions name) [
        | skip ↦ skipped
        | block upstream ↦ record {
          executions = executions;
          dispatched = dispatched;
          error = some (upstream_failed name upstream);
        }
        | prune upstream ↦ pruned upstream
        | stop ↦ record { executions = executions; dispatched = dispatched; error = none }
        | create ↦
            if not (world.can_create_job name)
              && is_strict spec.behavior.mode
              && spec.behavior.fail_fast
            then record {
              executions = executions;
              dispatched = dispatched ++ name ∷ [];
              error = some (create_job_failed name);
            }
            else created
      ]

abbrev pub stage_concurrency : ExecutionStage → ℤ
stage_concurrency stage =
    if leb_ℤ stage.max_concurrency (pos 0)
    then int32 (length stage.targets)
    else stage.max_concurrency

unfoldable pub execute_for_stage :
    HibernatePlanSpec
    → PlanOperation
    → Answers
    → List Job
    → ExecutionStage
    → HibernatePlanStatus
    → Dispatch
execute_for_stage spec operation world jobs stage status =
    dispatch_loop spec operation status.current_cycle_id jobs world (stage_concurrency stage)
      stage.targets (count_running_jobs_in_stage jobs stage) status.executions []
