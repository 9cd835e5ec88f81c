-- ===== src/Api.antt =====
-- The custom resources, api/v1alpha1: plans, their status, and schedule exceptions. A field
-- `*T` of Go is an `Option`; a string type whose values the controller writes itself is a data
-- type with a constructor for each constant, and one for the empty string.
use hibernator.Prelude.{ℕ, String, Bool, List, Option, Map}
use hibernator.Prelude.Int.{ℤ}
use hibernator.Time.{Time}

-- `unknown` is any other string.
pub data PlanPhase : Type 0 where
  unset pending active hibernating hibernated waking_up suspended error : PlanPhase
  unknown : String → PlanPhase

pub data PlanOperation : Type 0 where
  no_operation hibernate wakeup : PlanOperation

pub data ExecutionState : Type 0 where
  pending running completed failed aborted : ExecutionState

pub data BehaviorMode : Type 0 where
  strict best_effort : BehaviorMode

pub data StrategyType : Type 0 where
  sequential parallel dag staged : StrategyType
  unknown : String → StrategyType

pub data ExceptionType : Type 0 where
  extend suspend replace : ExceptionType

pub data ExceptionState : Type 0 where
  pending active expired detached : ExceptionState

pub record OffHourWindow : Type 0 where
  pub start : String
  pub end : String
  pub days_of_week : List String

pub record Dependency : Type 0 where
  pub from : String
  pub to : String

pub record Stage : Type 0 where
  pub name : String
  pub parallel : Bool
  pub max_concurrency : Option ℤ
  pub targets : List String

pub record ExecutionStrategy : Type 0 where
  pub type : StrategyType
  pub max_concurrency : Option ℤ
  pub dependencies : List Dependency
  pub stages : List Stage

pub record Behavior : Type 0 where
  pub mode : BehaviorMode
  pub fail_fast : Bool
  pub retries : Option ℤ

pub record Target : Type 0 where
  pub name : String
  pub type : String
  pub parameters : Option String

pub record HibernatePlanSpec : Type 0 where
  pub strategy : ExecutionStrategy
  pub behavior : Behavior
  pub suspend : Bool
  pub targets : List Target

pub record ExecutionStatus : Type 0 where
  pub target : String
  pub executor : String
  pub state : ExecutionState
  pub started_at : Option Time
  pub finished_at : Option Time
  pub attempts : ℤ
  pub message : String
  pub job_ref : String
  pub logs_ref : String
  pub restore_config_map_ref : String

pub record TargetExecutionResult : Type 0 where
  pub target : String
  pub state : ExecutionState
  pub attempts : ℤ
  pub execution_id : String
  pub started_at : Option Time
  pub finished_at : Option Time
  pub message : String

pub record ExecutionOperationSummary : Type 0 where
  pub operation : PlanOperation
  pub start_time : Time
  pub end_time : Option Time
  pub target_results : List TargetExecutionResult
  pub success : Bool
  pub error_message : String

pub record ExecutionCycle : Type 0 where
  pub cycle_id : String
  pub shutdown_execution : Option ExecutionOperationSummary
  pub wakeup_execution : Option ExecutionOperationSummary

pub record PlanSnapshot : Type 0 where
  pub cycle_id : String
  pub exception_name : String
  pub targets : List Target
  pub strategy : ExecutionStrategy
  pub behavior : Behavior

pub record HibernatePlanStatus : Type 0 where
  pub current_cycle_id : String
  pub phase : PlanPhase
  pub last_transition_time : Option Time
  pub executions : List ExecutionStatus
  pub retry_count : ℤ
  pub last_retry_time : Option Time
  pub error_message : String
  pub applied_exception_override : String
  pub plan_snapshot : Option PlanSnapshot
  pub current_stage_index : ℕ
  pub current_operation : PlanOperation
  pub execution_history : List ExecutionCycle

-- Of the metadata, what the controller reads.
pub record HibernatePlan : Type 0 where
  pub name : String
  pub namespace : String
  pub annotations : Map String
  pub deletion_timestamp : Option Time
  pub has_finalizer : Bool
  pub spec : HibernatePlanSpec
  pub status : HibernatePlanStatus

pub record TargetOverride : Type 0 where
  pub target_name : String
  pub parameters : Option String
  pub disabled : Bool

pub record ExecutionOverride : Type 0 where
  pub strategy : Option ExecutionStrategy
  pub behavior : Option Behavior

pub record ScheduleException : Type 0 where
  pub name : String
  pub creation_timestamp : Time
  pub deletion_timestamp : Option Time
  pub valid_from : Time
  pub valid_until : Time
  pub type : ExceptionType
  pub windows : List OffHourWindow
  pub target_overrides : List TargetOverride
  pub execution_override : Option ExecutionOverride
  pub state : ExceptionState
