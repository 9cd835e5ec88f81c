-- ===== src/Lib.antt =====
-- Hibernator: a controller that hibernates and wakes up cloud resources on a schedule.
--
-- A HibernatePlan names targets, an execution strategy and off-hours. A worker for each plan
-- (internal/provider/processor/plan/worker.go) chooses a handler by the plan's phase
-- (internal/provider/processor/plan/state), which reads the schedule result and the jobs of the
-- cycle, changes the plan's status, and starts a job for each target that is due. The planner
-- (internal/scheduler/planner.go) turns the targets into stages; recovery
-- (internal/recovery/recovery.go) decides whether and when a failed plan is tried again.
--
-- Files, and what they are about:
--   Prelude, and below it    numbers, texts, lists, and Go's maps as association lists
--   Time                     time.Time and time.Duration in nanoseconds
--   Api                      api/v1alpha1/hibernateplan_types.go, scheduleexception_types.go
--   Jobs                     what the controller reads of a Kubernetes job
--   Planner                  internal/scheduler/planner.go: PlanSequential, PlanParallel, PlanStaged,
--                            PlanDAG, ValidateDAG; below it what plans have in common with the
--                            dependencies, round by round of the sort
--   Recovery                 internal/recovery/recovery.go: ClassifyError, CalculateBackoff,
--                            DetermineRecoveryStrategy, RecordRetryAttempt, ResetRetryState
--   Execution                utils.go of the plan's states: GetStageStatus, IsOperationComplete,
--                            BuildOperationSummary, findOrAppendCycle, pruneCycleHistory, and others
--   Operation                state_execution.go: buildExecutionPlan, updateExecutionStatuses,
--                            executeForStage, pruneTarget
--   Plan                     state.go: the results of handlers, errors, nextStage
--   Plan/Effective           effectivePlan, buildEffectivePlan, validateRuntimeOverrides
--   Plan/Idle                state_idle.go, state_override.go, state_restart.go
--   Plan/Running             execute, state_hibernating.go, state_wakingup.go
--   Plan/Suspension          state_pre_suspension.go, state_suspended.go, awaitExecutionDrain
--   Plan/Repair              state_recovery.go
--   Plan/Select              gates.go, state_selection.go, state_lifecycle.go, and one step of the
--                            worker, with OnError
--   Plan/Runs, Starts, Handlers, Invariant, Transitions, Completion, Resume, Retries
--                            the theorems about the state machine
--   Restore                  internal/restore/save.go and strategy.go: SaveState and its strategies;
--                            below it what a save does to a state, and manager.go: marks and data
--   Keyed                    pkg/keyedworker: one entry of a pool with a FIFO slot and its worker, step
--                            by step; below it the order of values and that they are worked off
--   Status                   internal/provider/processor/status: Send and apply
--   Exceptions               internal/provider/processor/scheduleexception/lifecycle.go: References
--                            (updateExceptionReferences), Handlers; below it the states they lead to
--   Requeue                  internal/provider/processor/requeue/processor.go
--   Schedule                 internal/scheduler/windows.go, schedule.go and evaluate.go: Parse,
--                            Windows, Last (findLastOccurrence), Evaluate (eval, evaluateWindows,
--                            applyExtend, NextRequeueTime), Suspension (applySuspend), Pipeline
--                            (Evaluate, mergeByType); the other modules below it are theorems
--   Webhook                  internal/validationwebhook: windows that collide (types.go); Plans
--                            (hibernateplan_validator.go), Changes and Admission
--                            (scheduleexception_validator.go)
--   Worker                   the counters of missed jobs and mergeIncoming, of worker.go; Timers:
--                            timer.go; Loop: the event loop and re-entry, over any handlers
--   Examples                 tests, and the theorems at concrete plans
--
-- State is passed on explicitly: a handler maps the worker's plan in memory to an `Outcome`, which
-- holds the plan, the timer directives and the error. `PlanStatuses.Send` is its mutator, applied to
-- that plan at once, as internal/provider/processor/status/updater.go does. A patch that is refused
-- leaves the change in memory. What the API server, the clock, the restore data, the schedule and
-- libraries answer is one record, `World` (`Answers` for jobs), an argument of every handler.
--
-- Numbers: `int32` and `int64` wrap around where the source computes in them; lengths are `int`, and
-- taken not to wrap. The loop of PlanDAG runs on fuel, one round more than there are targets; that is
-- enough, since each round but the last one removes a target. The loops of findLastOccurrence run on
-- fuel, one turn more than the clock counts nanoseconds, enough since `Next` is later than its argument.
--
-- The re-entry of a handler runs on the depth that is left, five at first, as in the source.
--
-- Not modelled: the encoding and size of restore data, and PrepareRestorePoint; validateDAG and the
-- validators of providers and notifications; the removal of idle entries from a pool of keyed workers, and its shutdown;
-- notifications, metrics and logs; the executors and the runner, which call cloud services; the
-- command line. A stage index beyond the plan of a retry is a panic of Go, and no outcome here.
pub mod Prelude
pub mod Time
pub mod Api
pub mod Planner
pub mod Recovery
pub mod Jobs
pub mod Keyed
pub mod Exceptions
pub mod Execution
pub mod Operation
pub mod Plan
pub mod Requeue
pub mod Restore
pub mod Schedule
pub mod Status
pub mod Webhook
pub mod Worker
pub mod Examples
