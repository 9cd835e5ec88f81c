-- ===== src/Execution/History.antt =====
-- The execution history: the summary of a cycle is in it, and it stays short.
use hibernator.Prelude.{
  ◌-◌, ◌≤◌, String, List, [], ◌∷◌, Option, none, some, arith, length, length-drop, if◌then◌else◌,
  ◌==◌,
}
use hibernator.Api.{
  PlanOperation, hibernate, wakeup, no_operation, ExecutionOperationSummary, ExecutionCycle,
}
use hibernator.Execution.{
  find_or_append_cycle, prune_cycle_history, max_cycle_history_size, record_summary, set_summary,
  update_at,
}

-- The most recent cycle of an identifier; a history holds each identifier once.
abbrev pub cycle_of : String → List ExecutionCycle → Option ExecutionCycle
cycle_of cycle_id [] = none
cycle_of cycle_id (c ∷ cs) = if c.cycle_id == cycle_id then some c else cycle_of cycle_id cs

length-prune : (cs : List ExecutionCycle) → length (prune_cycle_history cs) ≤ max_cycle_history_size
unfolding prune_cycle_history
length-prune cs = ground (arith, length-drop (length cs - max_cycle_history_size) cs)

abbrev summary_of : PlanOperation → ExecutionCycle → Option ExecutionOperationSummary
summary_of hibernate c = c.shutdown_execution
summary_of wakeup c = c.wakeup_execution
summary_of no_operation c = none

-- The updated history before pruning.
updated :
    String → PlanOperation → ExecutionOperationSummary → List ExecutionCycle → List ExecutionCycle
unfolding find_or_append_cycle
updated cycle_id op summary cs =
    let (found, i) = find_or_append_cycle cycle_id cs in update_at i (set_summary op summary) found

abbrev pub new_cycle : String → ExecutionCycle
new_cycle cycle_id = record {
  cycle_id = cycle_id;
  shutdown_execution = none;
  wakeup_execution = none;
}

abbrev pub cycle_or_new : String → Option ExecutionCycle → ExecutionCycle
cycle_or_new cycle_id none = new_cycle cycle_id
cycle_or_new cycle_id (some c) = c

-- Writing the summary of an operation leaves at most five cycles, whatever the history was.
pub length-record_summary :
    (cycle_id : String) (op : PlanOperation) (summary : ExecutionOperationSummary)
    (history : List ExecutionCycle)
    → length (record_summary cycle_id op summary history) ≤ 5
unfolding record_summary updated
length-record_summary cycle_id op summary history =
    length-prune (updated cycle_id op summary history)
