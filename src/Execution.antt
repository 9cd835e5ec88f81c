-- ===== src/Execution.antt =====
-- The progress of an operation, internal/provider/processor/plan/state/utils.go.
pub mod Progress
pub mod History
use hibernator.Prelude.{
  ℕ, zero, suc, ◌+◌, ◌-◌, String, Bool, true, false, not, ◌&&◌, ◌||◌, List, [], ◌∷◌, ◌++◌, map,
  Option, none, some, if◌then◌else◌, ◌==◌, ltb, eqb, elem, length, any, all, filter, drop, Map,
  lookup, insert,
}
use hibernator.Prelude.Int.{ℤ, eqb_ℤ}
use hibernator.Time.{Time, is_zero, before, after}
use hibernator.Api.{
  ExecutionState, pending, running, completed, failed, aborted, PlanOperation, no_operation,
  hibernate, wakeup, Target, Dependency, ExecutionStatus, TargetExecutionResult,
  ExecutionOperationSummary, ExecutionCycle, HibernatePlanSpec, HibernatePlanStatus,
}
use hibernator.Jobs.{
  Job, label, is_stale, is_job_terminal, label_target, label_operation, label_cycle_id,
}
use hibernator.Planner.{ExecutionStage}
use mathlib.Core.List.{reverse}
use hibernator.Prelude.Text.{trim_prefix}

pub record StageStatus : Type 0 where
  pub all_terminal : Bool
  pub has_running : Bool
  pub has_pending : Bool
  pub failed_count : ℕ
  pub completed_count : ℕ

-- The state of the first execution of a target.
unfoldable pub state_of : List ExecutionStatus → String → Option ExecutionState
state_of [] target = none
state_of (e ∷ es) target = if e.target == target then some e.state else state_of es target

-- What the loop does with the state that it finds.
abbrev count_state : Option ExecutionState → StageStatus → StageStatus
count_state none s = record s { has_pending = true }
count_state (some completed) s = record s { completed_count = s.completed_count + 1 }
count_state (some failed) s = record s { failed_count = s.failed_count + 1 }
count_state (some aborted) s = record s { failed_count = s.failed_count + 1 }
count_state (some running) s = record s { has_running = true }
count_state (some pending) s = record s { has_pending = true }

abbrev is_terminal : Option ExecutionState → Bool
is_terminal none = false
is_terminal (some pending) = false
is_terminal (some running) = false
is_terminal (some _) = true

-- The loop over the targets of the stage, with the number of terminal ones.
stage_loop : List ExecutionStatus → List String → StageStatus → ℕ → StageStatus × ℕ
stage_loop executions [] s terminal = (s, terminal)
stage_loop executions (t ∷ ts) s terminal =
    let state = state_of executions t in
    stage_loop executions ts (count_state state s)
      (if is_terminal state then terminal + 1 else terminal)

unfoldable pub get_stage_status : List ExecutionStatus → ExecutionStage → StageStatus
unfolding stage_loop
get_stage_status executions stage =
    let start : StageStatus = record {
      all_terminal = false;
      has_running = false;
      has_pending = false;
      failed_count = 0;
      completed_count = 0;
    } in
    let (s, terminal) = stage_loop executions stage.targets start 0 in
    record s { all_terminal = eqb terminal (length stage.targets) }

unfoldable pub find_target : List Target → String → Option Target
find_target [] name = none
find_target (t ∷ ts) name = if t.name == name then some t else find_target ts name

unfoldable pub find_target_type : List Target → String → String
find_target_type [] name = ""
find_target_type (t ∷ ts) name = if t.name == name then t.type else find_target_type ts name

-- A job holds a slot unless it is stale or has ended.
abbrev pub holds_slot : List String → Job → Bool
holds_slot targets job =
    not (is_stale job) && not (is_job_terminal job) && elem (label label_target job) targets

unfoldable pub count_running_jobs_in_stage : List Job → ExecutionStage → ℕ
count_running_jobs_in_stage jobs stage = length (filter (holds_slot stage.targets) jobs)

unfoldable pub find_execution_status :
    List ExecutionStatus → String → String → Option ExecutionStatus
find_execution_status [] type name = none
find_execution_status (e ∷ es) type name =
    if e.target == name && e.executor == type then some e else find_execution_status es type name

abbrev pub is_failed : Option ExecutionStatus → Bool
is_failed none = false
is_failed (some e) = elim e.state [ failed ↦ true | aborted ↦ true | _ ↦ false ]

-- The sources of the dependencies of `name` that failed or were aborted.
unfoldable pub failed_upstream :
    List Target → List ExecutionStatus → List Dependency → String → List String
failed_upstream targets executions [] name = []
failed_upstream targets executions (d ∷ ds) name =
    let rest = failed_upstream targets executions ds name in
    if d.to == name
      && is_failed (find_execution_status executions (find_target_type targets d.from) d.from)
    then d.from ∷ rest
    else rest

unfoldable pub find_failed_upstream :
    HibernatePlanSpec → List ExecutionStatus → String → List String
find_failed_upstream spec executions =
    failed_upstream spec.targets executions spec.strategy.dependencies

abbrev is_done : ExecutionState → Bool
is_done completed = true
is_done failed = true
is_done aborted = true
is_done _ = false

unfoldable pub is_operation_complete : List ExecutionStatus → Bool
is_operation_complete = all (λ e. is_done e.state)

abbrev is_pending : ExecutionState → Bool
is_pending pending = true
is_pending _ = false

unfoldable pub has_execution_progress : List ExecutionStatus → Bool
has_execution_progress = any (λ e. not (is_pending e.state))

-- The label of an operation.
abbrev pub operation_text : PlanOperation → String
operation_text no_operation = ""
operation_text hibernate = "shutdown"
operation_text wakeup = "wakeup"

unfoldable pub job_exists_for_target : List Job → String → PlanOperation → String → Bool
job_exists_for_target jobs target operation cycle_id =
    any
      (λ job.
        not (is_stale job)
        && label label_target job == target
        && label label_operation job == operation_text operation
        && label label_cycle_id job == cycle_id)
      jobs

unfoldable pub filter_jobs_for_stage : List Job → ExecutionStage → List Job
filter_jobs_for_stage jobs stage = filter (λ job. elem (label label_target job) stage.targets) jobs

-- The summary of an operation. `exec.StartedAt.Before` and `FinishedAt.After` pick the widest span.
abbrev earliest : Option Time → Time → Time
earliest none start = start
earliest (some t) start = if is_zero start || before t start then t else start

abbrev latest : Option Time → Option Time → Option Time
latest none end = end
latest (some t) none = some t
latest (some t) (some u) = if is_zero u || after t u then some t else some u

abbrev pub execution_id_log_prefix : String
execution_id_log_prefix = "execution-id://"

result_of : ExecutionStatus → TargetExecutionResult
result_of e = record {
  target = e.target;
  state = e.state;
  attempts = e.attempts;
  execution_id = trim_prefix e.logs_ref execution_id_log_prefix;
  started_at = e.started_at;
  finished_at = e.finished_at;
  message = e.message;
}

summary_loop : List ExecutionStatus → ExecutionOperationSummary → ExecutionOperationSummary
unfolding result_of
summary_loop [] s = s
summary_loop (e ∷ es) s = summary_loop es (record s {
  success = s.success && not (is_failed (some e));
  start_time = earliest e.started_at s.start_time;
  end_time = latest e.finished_at s.end_time;
  target_results = s.target_results ++ result_of e ∷ [];
})

unfoldable pub build_operation_summary :
    HibernatePlanStatus → PlanOperation → ExecutionOperationSummary
unfolding summary_loop
build_operation_summary status operation = summary_loop status.executions (record {
  operation = operation;
  start_time = 0;
  end_time = none;
  target_results = [];
  success = true;
  error_message = status.error_message;
})

-- `findOrAppendCycle`: the history with the cycle in it, and its index.
unfoldable pub find_or_append_cycle : String → List ExecutionCycle → List ExecutionCycle × ℕ
find_or_append_cycle cycle_id [] =
    (record { cycle_id = cycle_id; shutdown_execution = none; wakeup_execution = none } ∷ [], 0)
find_or_append_cycle cycle_id (c ∷ cs) =
    let (rest, i) = find_or_append_cycle cycle_id cs in
    if c.cycle_id == cycle_id then (c ∷ cs, 0) else (c ∷ rest, suc i)

abbrev pub max_cycle_history_size : ℕ
max_cycle_history_size = 5

unfoldable pub prune_cycle_history : List ExecutionCycle → List ExecutionCycle
prune_cycle_history history =
    if ltb max_cycle_history_size (length history)
    then drop (length history - max_cycle_history_size) history
    else history

abbrev pub set_summary : PlanOperation → ExecutionOperationSummary → ExecutionCycle → ExecutionCycle
set_summary hibernate summary c = record c { shutdown_execution = some summary }
set_summary wakeup summary c = record c { wakeup_execution = some summary }
set_summary no_operation summary c = c

-- `st.ExecutionHistory[i].… = summary`
abbrev update_at : ℕ → (ExecutionCycle → ExecutionCycle) → List ExecutionCycle → List ExecutionCycle
update_at i f [] = []
update_at zero f (c ∷ cs) = f c ∷ cs
update_at (suc i) f (c ∷ cs) = c ∷ update_at i f cs

-- What the finalizers and the error handlers write to the history.
unfoldable pub record_summary :
    String → PlanOperation → ExecutionOperationSummary → List ExecutionCycle → List ExecutionCycle
unfolding find_or_append_cycle prune_cycle_history
record_summary cycle_id operation summary history =
    let (found, i) = find_or_append_cycle cycle_id history in
    prune_cycle_history (update_at i (set_summary operation summary) found)

pub record ExecutionSnapshot : Type 0 where
  pub state : ExecutionState
  pub attempts : ℤ
  pub message : String
  pub job_ref : String
  pub logs_ref : String

-- `lo.Associate`: of two executions of a target the later one stays.
unfoldable pub snapshot_loop : List ExecutionStatus → Map ExecutionSnapshot → Map ExecutionSnapshot
snapshot_loop [] m = m
snapshot_loop (e ∷ es) m = snapshot_loop es (
    insert e.target
      (record {
        state = e.state;
        attempts = e.attempts;
        message = e.message;
        job_ref = e.job_ref;
        logs_ref = e.logs_ref;
      })
      m)

unfoldable pub snapshot_execution_states : List ExecutionStatus → Map ExecutionSnapshot
unfolding snapshot_loop
snapshot_execution_states executions = snapshot_loop executions []

abbrev state_eq : ExecutionState → ExecutionState → Bool
state_eq pending pending = true
state_eq running running = true
state_eq completed completed = true
state_eq failed failed = true
state_eq aborted aborted = true
state_eq _ _ = false

abbrev same_progress : ExecutionStatus → Option ExecutionSnapshot → Bool
same_progress e none = false
same_progress e (some p) =
    state_eq p.state e.state
    && eqb_ℤ p.attempts e.attempts
    && p.message == e.message
    && p.job_ref == e.job_ref
    && p.logs_ref == e.logs_ref

unfoldable pub execution_states_equal : Map ExecutionSnapshot → List ExecutionStatus → Bool
execution_states_equal prev current =
    eqb (length prev) (length current) && all (λ e. same_progress e (lookup e.target prev)) current

unfoldable pub reverse_if {ℓ} : {A : Type ℓ} → Bool → List A → List A
reverse_if condition collection = if condition then reverse collection else collection
