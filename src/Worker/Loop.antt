-- ===== src/Worker/Loop.antt =====
-- The event loop of a worker and the re-entry of handlers, internal/provider/processor/plan/worker.go,
-- over any handlers.
pub mod Covered
use hibernator.Prelude.{ℕ, suc, zero, ◌≤◌, ◌≡◌, Bool, true, false, Option, none, some}
use hibernator.Time.{Time}
use hibernator.Plan.{StateResult}
use hibernator.Worker.Timers.{
  TimerName, requeue_timer, timeout_timer, deadline_timer, inactivity_timer, TimerSet, start_timers,
  disarm, schedule_of, is_due, fire, keep_alive, reset_timers, cleanup_timers, apply_result,
}

abbrev pub max_handle_depth : ℕ
max_handle_depth = 5

-- The handlers: `react on_deadline now plan` is the result of the handler of the plan's phase, its
-- `OnError` included, the time at which it returns and the plan as it leaves it; `none` where `New`
-- knows no handler.
module _ {ℓ} {P : Type ℓ} (react : Bool → Time → P → Option (Time × StateResult × P)) where
  -- `handleWithDepth`, on the depth that is left.
  unfoldable pub handle_with_depth : ℕ → Bool → Time → P → TimerSet → Time × P × TimerSet
  unfolding reset_timers apply_result
  handle_with_depth zero on_deadline now p ts = (now, p, ts)
  handle_with_depth (suc left) on_deadline now p ts = elim (react on_deadline now p) [
    | none ↦ (now, p, ts)
    | some (later, r, q) ↦ elim r.requeue [
      | true ↦ handle_with_depth left false later q (reset_timers ts)
      | false ↦ (later, q, apply_result later r ts)
    ]
  ]

  -- A `Worker`, as its loop sees it: the time, the plan in `cachedCtx`, the timers, and whether it
  -- runs.
  pub record WorkerState : Type ℓ where
    pub now : Time
    pub cached : Option P
    pub timers : TimerSet
    pub running : Bool

  unfoldable pub new_worker : Time → WorkerState
  unfolding start_timers
  new_worker now = record { now = now; cached = none; timers = start_timers now; running = true }

  -- `handle` and the `KeepAlive` after it; a hook does nothing without a plan.
  unfoldable pub handle_and_keep : Bool → Option P → TimerSet → WorkerState → WorkerState
  unfolding handle_with_depth keep_alive
  handle_and_keep on_deadline none ts w = record w { timers = keep_alive w.now ts }
  handle_and_keep on_deadline (some p) ts w =
      let (later, q, handled) = handle_with_depth max_handle_depth on_deadline w.now p ts in
      record w { now = later; cached = some q; timers = keep_alive later handled }

  -- `case <-s.slot.C()`, for the plan that `mergeIncoming` keeps.
  unfoldable pub deliver_plan : P → WorkerState → WorkerState
  unfolding handle_and_keep
  deliver_plan p w = handle_and_keep false (some p) w.timers w

  -- The closures of `loop`, once taken from `out`; the last one ends `run`, which stops the timers.
  unfoldable pub run_event : TimerName → TimerSet → WorkerState → WorkerState
  unfolding handle_and_keep cleanup_timers
  run_event requeue_timer ts w =
      handle_and_keep false w.cached (record ts { requeues = disarm ts.requeues }) w
  run_event timeout_timer ts w =
      handle_and_keep true w.cached (record ts { timeout = disarm ts.timeout }) w
  run_event deadline_timer ts w =
      handle_and_keep true w.cached (record ts { deadline = disarm ts.deadline }) w
  run_event inactivity_timer ts w = record w {
    timers = cleanup_timers (record ts { inactivity = disarm ts.inactivity });
    running = false;
  }

  -- What can happen to a worker that runs.
  pub data Runs : WorkerState → Type ℓ where
    starts : (now : Time) → Runs (new_worker now)
    waits :
        (w : WorkerState) (later : Time) → w.now ≤ later → Runs w → Runs (record w { now = later })
    fires :
        (w : WorkerState) (name : TimerName)
        → w.running ≡ true
        → is_due w.now (schedule_of name w.timers) ≡ true
        → Runs w
        → Runs (record w { timers = fire name w.timers })
    delivers : (w : WorkerState) (p : P) → w.running ≡ true → Runs w → Runs (deliver_plan p w)
    runs :
        (w : WorkerState) (name : TimerName)
        → w.running ≡ true
        → w.timers.out ≡ some name
        → Runs w
        → Runs (run_event name (record w.timers { out = none }) w)
