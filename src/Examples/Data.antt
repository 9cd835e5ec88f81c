-- ===== src/Examples/Data.antt =====
-- A plan with a database and two services that depend on it, and a job of it.
use hibernator.Prelude.{ℕ, String, true, false, List, [], ◌∷◌, none, some}
use hibernator.Prelude.Int.{pos}
use hibernator.Api.{
  PlanPhase, PlanOperation, hibernate, Target, HibernatePlanSpec, HibernatePlanStatus,
  HibernatePlan, best_effort, ExecutionStatus, ExecutionState, ExecutionCycle,
}
use hibernator.Api
use hibernator.Jobs.{Job}
use hibernator.Operation.{Answers}
use hibernator.Plan.{World}

abbrev pub target : String → Target
target name = record { name = name; type = "rds"; parameters = none }

abbrev pub execution : String → ExecutionState → ExecutionStatus
execution name state = record {
  target = name;
  executor = "rds";
  state = state;
  started_at = none;
  finished_at = none;
  attempts = pos 0;
  message = "";
  job_ref = "";
  logs_ref = "";
  restore_config_map_ref = "";
}

abbrev pub spec : HibernatePlanSpec
spec = record {
  strategy = record {
    type = Api.dag;
    max_concurrency = some (pos 2);
    dependencies = record { from = "db"; to = "api" } ∷ record { from = "db"; to = "web" } ∷ [];
    stages = [];
  };
  behavior = record { mode = best_effort; fail_fast = false; retries = none };
  suspend = false;
  targets = target "api" ∷ target "db" ∷ target "web" ∷ [];
}

abbrev pub status_in : PlanPhase → PlanOperation → List ExecutionStatus → HibernatePlanStatus
status_in phase operation executions = record {
  current_cycle_id = "c1";
  phase = phase;
  last_transition_time = none;
  executions = executions;
  retry_count = pos 0;
  last_retry_time = none;
  error_message = "";
  applied_exception_override = "";
  plan_snapshot = none;
  current_stage_index = 0;
  current_operation = operation;
  execution_history = [];
}

abbrev pub plan_in : PlanPhase → PlanOperation → List ExecutionStatus → HibernatePlan
plan_in phase operation executions = record {
  name = "plan";
  namespace = "default";
  annotations = [];
  deletion_timestamp = none;
  has_finalizer = true;
  spec = spec;
  status = status_in phase operation executions;
}

abbrev pub job_of : String → ℕ → Job
job_of name active = record {
  name = "job";
  namespace = "default";
  labels =
      ("hibernator.ardikabs.com/target", name)
      ∷ ("hibernator.ardikabs.com/executor", "rds")
      ∷ ("hibernator.ardikabs.com/operation", "hibernate")
      ∷ ("hibernator.ardikabs.com/cycle-id", "c1")
      ∷ [];
  conditions = [];
  start_time = none;
  active = active;
  succeeded = 0;
  failed = 0;
}

abbrev pub answers : Answers
answers = record {
  termination_message = λ j. "";
  job_missing = λ t. false;
  can_create_job = λ t. true;
  restore_config_map = "restore-plan";
}

abbrev pub world : World
world = record {
  now = 100;
  schedule = some true;
  has_restore_data = true;
  exceptions = [];
  jobs = some [];
  answers = answers;
  valid_params = λ t p. true;
  parse_time = λ t. none;
  accepts = λ p. true;
  new_cycle_id = "c2";
  restore_data = λ t. none;
  all_restored = true;
  unlocks = true;
  deletes_jobs = true;
  cause = λ e. "";
}
