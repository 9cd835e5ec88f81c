-- ===== src/Worker/Timers.antt =====
-- The worker's timers, internal/provider/processor/plan/timer.go.
use hibernator.Prelude.{◌*◌, Bool, true, false, not, ◌&&◌, Option, none, some, if◌then◌else◌, leb}
use hibernator.Prelude.Int.{pos, ltb_ℤ, ◌+ℤ◌, wrap64}
use hibernator.Time.{Time, Duration, add, minute}
use hibernator.Plan.{StateResult}

-- A `clock.Timer` that was not stopped: when it fires, and whether it has fired.
pub record Timer : Type 0 where
  pub fires_at : Time
  pub fired : Bool

-- `Schedule`, without its name, its clock and its lock.
pub record Schedule : Type 0 where
  pub duration : Duration
  pub timer : Option Timer

-- `NewSchedule`
abbrev pub new_schedule : Schedule
new_schedule = record { duration = pos 0; timer = none }

abbrev new_timer : Time → Duration → Timer
new_timer now d = record { fires_at = add now d; fired = false }

-- `Arm`
abbrev pub arm_timer : Time → Duration → Schedule → Schedule
arm_timer now d s = record { duration = d; timer = some (new_timer now d) }

-- `Disarm`
abbrev pub disarm : Schedule → Schedule
disarm s = new_schedule

-- `Schedule.Reset`: the duration of a timer that is armed is not written.
abbrev pub reset_timer : Time → Duration → Schedule → Schedule
reset_timer now d s = elim s.timer [
  | none ↦ record { duration = d; timer = some (new_timer now d) }
  | some t ↦ record s { timer = some (new_timer now d) }
]

-- `IsArmed`
abbrev pub is_armed : Schedule → Bool
is_armed s = elim s.timer [ none ↦ false | some t ↦ true ]

-- The four timers; also the closure in `out` that stands for each.
pub data TimerName : Type 0 where
  requeue_timer timeout_timer deadline_timer inactivity_timer : TimerName

-- `TimerSet`: its schedules and its channel `out`, which holds one closure.
pub record TimerSet : Type 0 where
  pub requeues : Schedule
  pub timeout : Schedule
  pub deadline : Schedule
  pub inactivity : Schedule
  pub out : Option TimerName

-- The `inactivityTimeout` that the worker sets.
abbrev pub default_worker_idle_timeout : Duration
default_worker_idle_timeout = pos (30 * minute)

-- `NewTimerSet` and `Start`
unfoldable pub start_timers : Time → TimerSet
start_timers now = record {
  requeues = new_schedule;
  timeout = new_schedule;
  deadline = new_schedule;
  inactivity = arm_timer now default_worker_idle_timeout new_schedule;
  out = none;
}

-- `SetTimeout`: arm-once.
unfoldable pub set_timeout : Time → Duration → TimerSet → TimerSet
set_timeout now d ts =
    if not (is_armed ts.timeout) then record ts { timeout = arm_timer now d ts.timeout } else ts

-- `KeepAlive`
unfoldable pub keep_alive : Time → TimerSet → TimerSet
keep_alive now ts =
    let d =
      if ltb_ℤ default_worker_idle_timeout ts.deadline.duration
      then wrap64 (ts.deadline.duration +ℤ default_worker_idle_timeout)
      else default_worker_idle_timeout in
    record ts {
      inactivity =
          if is_armed ts.inactivity then reset_timer now d ts.inactivity else ts.inactivity;
    }

-- `TimerSet.Reset`
unfoldable pub reset_timers : TimerSet → TimerSet
reset_timers ts = record ts {
  requeues = disarm ts.requeues;
  timeout = disarm ts.timeout;
  deadline = disarm ts.deadline;
}

-- `Cleanup`
unfoldable pub cleanup_timers : TimerSet → TimerSet
unfolding reset_timers
cleanup_timers ts =
    let cleared = reset_timers ts in record cleared { inactivity = disarm cleared.inactivity }

-- The three parts of `Apply`.
unfoldable pub apply_requeue : Time → Duration → TimerSet → TimerSet
apply_requeue now d ts =
    if ltb_ℤ (pos 0) d
    then record ts { requeues = arm_timer now d ts.requeues }
    else record ts { requeues = disarm ts.requeues }

unfoldable pub apply_timeout : Time → Duration → TimerSet → TimerSet
unfolding set_timeout
apply_timeout now d ts =
    if ltb_ℤ (pos 0) d then set_timeout now d ts else record ts { timeout = disarm ts.timeout }

unfoldable pub apply_deadline : Time → Duration → TimerSet → TimerSet
apply_deadline now d ts =
    if ltb_ℤ (pos 0) d
    then record ts { deadline = arm_timer now d ts.deadline }
    else record ts { deadline = disarm ts.deadline }

-- `Apply`
unfoldable pub apply_result : Time → StateResult → TimerSet → TimerSet
unfolding apply_requeue apply_timeout apply_deadline
apply_result now r ts =
    apply_deadline now r.deadline_after
      (apply_timeout now r.timeout_after (apply_requeue now r.requeue_after ts))

-- The schedule of a name, and the set with it changed.
abbrev pub schedule_of : TimerName → TimerSet → Schedule
schedule_of requeue_timer ts = ts.requeues
schedule_of timeout_timer ts = ts.timeout
schedule_of deadline_timer ts = ts.deadline
schedule_of inactivity_timer ts = ts.inactivity

abbrev pub with_schedule : TimerName → Schedule → TimerSet → TimerSet
with_schedule requeue_timer s ts = record ts { requeues = s }
with_schedule timeout_timer s ts = record ts { timeout = s }
with_schedule deadline_timer s ts = record ts { deadline = s }
with_schedule inactivity_timer s ts = record ts { inactivity = s }

-- The channel of a timer is ready.
abbrev pub is_due : Time → Schedule → Bool
is_due now s = elim s.timer [ none ↦ false | some t ↦ not t.fired && leb t.fires_at now ]

abbrev pub mark_fired : Schedule → Schedule
mark_fired s = record s {
  timer = elim s.timer [ none ↦ none | some t ↦ some (record t { fired = true }) ];
}

-- `send`: an event is dropped while the channel is full.
unfoldable pub send_event : TimerName → TimerSet → TimerSet
send_event name ts = record ts { out = elim ts.out [ none ↦ some name | some held ↦ some held ] }

-- One case of the select in `loop`, for a timer that is due.
unfoldable pub fire : TimerName → TimerSet → TimerSet
unfolding send_event
fire name ts = send_event name (with_schedule name (mark_fired (schedule_of name ts)) ts)
