-- ===== src/Jobs.antt =====
-- Of the Kubernetes runner Jobs, what the controller reads, and the labels it goes by.
use hibernator.Prelude.{
  ℕ, String, Bool, true, false, ◌&&◌, List, Option, none, some, Map, lookup, any,
}
use hibernator.Time.{Time}

pub data ConditionType : Type 0 where
  job_complete job_failed other_condition : ConditionType

pub record JobCondition : Type 0 where
  pub type : ConditionType
  pub status : Bool
  pub last_transition_time : Time

pub record Job : Type 0 where
  pub name : String
  pub namespace : String
  pub labels : Map String
  pub conditions : List JobCondition
  pub start_time : Option Time
  pub active : ℕ
  pub succeeded : ℕ
  pub failed : ℕ

abbrev pub label_target : String
label_target = "hibernator.ardikabs.com/target"

abbrev pub label_executor : String
label_executor = "hibernator.ardikabs.com/executor"

abbrev pub label_operation : String
label_operation = "hibernator.ardikabs.com/operation"

abbrev pub label_cycle_id : String
label_cycle_id = "hibernator.ardikabs.com/cycle-id"

abbrev pub label_execution_id : String
label_execution_id = "hibernator.ardikabs.com/execution-id"

abbrev pub label_stale_runner_job : String
label_stale_runner_job = "hibernator.ardikabs.com/stale"

-- `job.Labels[key]`: a missing label reads as the empty string.
abbrev pub label : String → Job → String
label key job = elim (lookup key job.labels) [ none ↦ "" | some v ↦ v ]

-- `_, stale := job.Labels[wellknown.LabelStaleRunnerJob]`
abbrev pub is_stale : Job → Bool
is_stale job = elim (lookup label_stale_runner_job job.labels) [ none ↦ false | some _ ↦ true ]

abbrev pub ends_job : ConditionType → Bool
ends_job other_condition = false
ends_job _ = true

unfoldable pub is_job_terminal : Job → Bool
is_job_terminal job = any (λ c. c.status && ends_job c.type) job.conditions
