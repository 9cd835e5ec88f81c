-- ===== src/Worker/Loop/Covered.antt =====
-- The timer of inactivity waits for the deadline.
use hibernator.Prelude.{
  ℕ, suc, zero, ◌+◌, ◌*◌, ◌^◌, ◌%◌, ◌≤◌, ◌<◌, ◌≡◌, refl, inl, inr, Bool, true, false, Option, none,
  some, arith, Bool-cases, if◌then◌else◌, Option-cases,
}
use hibernator.Prelude.Int.{pos, pos_part, ltb_ℤ, negsuc, ◌+ℤ◌, wrap64}
use hibernator.Time.{Time, Duration, add, minute}
use hibernator.Plan.{StateResult}
use hibernator.Worker.Timers.{
  Timer, Schedule, new_schedule, TimerSet, TimerName, requeue_timer, timeout_timer, deadline_timer,
  inactivity_timer, default_worker_idle_timeout, keep_alive, is_armed, reset_timer, mark_fired,
  reset_timers, apply_result, apply_deadline, send_event, fire, cleanup_timers, start_timers,
}
use hibernator.Worker.Loop.{
  max_handle_depth, handle_with_depth, WorkerState, new_worker, handle_and_keep, deliver_plan,
  run_event, Runs, starts, waits, fires, delivers, runs,
}

-- A deadline whose sum with the timeout of inactivity is a number of `int64`.
abbrev pub Fits : Duration → Type 0
Fits d = pos_part d + 30 * minute < 2 ^ 63

-- The deadline's timer was armed with its duration, not later than now.
abbrev Dated : Time → Schedule → Type 0
Dated now s =
    Fits s.duration × ((t : Timer) → s.timer ≡ some t → t.fires_at ≤ now + pos_part s.duration)

-- The inactivity timer, where armed, does not fire before the deadline's timer.
abbrev pub Covers : TimerSet → Type 0
Covers ts =
    (d i : Timer)
    → ts.deadline.timer ≡ some d
    → ts.inactivity.timer ≡ some i
    → d.fires_at ≤ i.fires_at

-- The duration to which `KeepAlive` sets the timer of inactivity.
abbrev kept_duration : Duration → Duration
kept_duration d =
    if ltb_ℤ default_worker_idle_timeout d
    then wrap64 (d +ℤ default_worker_idle_timeout)
    else default_worker_idle_timeout

wrap64-pos : (n : ℕ) → n < 2 ^ 63 → wrap64 (pos n) ≡ pos n
unfolding wrap64
wrap64-pos n small = let same : n % 2 ^ 64 ≡ n = omega arith in ground (arith, same)

add-kept_duration :
    (now : Time) (d : Duration) → Fits d → now + pos_part d ≤ add now (kept_duration d)
unfolding ◌+ℤ◌ add
add-kept_duration now (pos n) bound = ground (arith, wrap64-pos (n + 30 * minute) bound)
add-kept_duration now (negsuc n) bound = ground arith

abbrev kept : Time → Duration → Schedule → Schedule
kept now d s = if is_armed s then reset_timer now d s else s

kept-fires :
    (now : Time) (d duration : Duration) (timer : Option Timer) (i : Timer)
    → (kept now d (record { duration = duration; timer = timer })).timer ≡ some i
    → i.fires_at ≡ add now d
kept-fires now d duration none i at_i = ground arith
kept-fires now d duration (some t) i at_i = ground arith

keep_alive-Covers :
    (now : Time) (ts : TimerSet) → Dated now ts.deadline → Covers (keep_alive now ts)
unfolding keep_alive
keep_alive-Covers now ts (bound, dated) d i at_d at_i =
    let at =
      kept-fires now (kept_duration ts.deadline.duration) ts.inactivity.duration ts.inactivity.timer
        i at_i in
    omega (arith, dated d at_d, at, add-kept_duration now ts.deadline.duration bound)

Dated-later : {now later : Time} (s : Schedule) → now ≤ later → Dated now s → Dated later s
Dated-later s after (bound, dated) = (bound, λ t at. omega (arith, after, dated t at))

new-Dated : (now : Time) → Dated now new_schedule
new-Dated now = (omega arith, λ t at. absurd (ground arith))

apply-Dated :
    (now : Time) (r : StateResult) (ts : TimerSet)
    → Fits r.deadline_after
    → Dated now (apply_result now r ts).deadline
unfolding apply_result apply_deadline add
apply-Dated now r ts bound = elim (Bool-cases (ltb_ℤ (pos 0) r.deadline_after)) [
  | inl set ↦ rw set (bound, λ t at. ground arith)
  | inr off ↦ rw off (new-Dated now)
]

-- A timer that has fired fires at the same time as before.
fired-fires :
    (s : Schedule) (t : Timer)
    → (mark_fired s).timer ≡ some t
    → (u : Timer) × (s.timer ≡ some u) × (u.fires_at ≡ t.fires_at)
fired-fires s t at = go s.timer refl
  where
    go :
        (o : Option Timer)
        → s.timer ≡ o
        → (u : Timer) × (s.timer ≡ some u) × (u.fires_at ≡ t.fires_at)
    go none off = absurd (ground arith)
    go (some u) on = (u, on, ground arith)

fire-Covers :
    (name : TimerName) (ts : TimerSet) (now : Time)
    → Dated now ts.deadline
    → Covers ts
    → Dated now (fire name ts).deadline × Covers (fire name ts)
unfolding fire send_event
fire-Covers requeue_timer ts now dated covers = (dated, covers)
fire-Covers timeout_timer ts now dated covers = (dated, covers)
fire-Covers deadline_timer ts now (bound, dated) covers = (
  (
    bound,
    λ t at. let (u, on, same) = fired-fires ts.deadline t at in omega (arith, same, dated u on),
  ),
  λ d i at_d at_i.
      let (u, on, same) = fired-fires ts.deadline d at_d in omega (arith, same, covers u i on at_i),
)
fire-Covers inactivity_timer ts now dated covers = (
  dated,
  λ d i at_d at_i.
      let (u, on, same) = fired-fires ts.inactivity i at_i in
      omega (arith, same, covers d u at_d on),
)

module _ {ℓ} {P : Type ℓ} (react : Bool → Time → P → Option (Time × StateResult × P)) where
  -- Handlers that do not turn the clock back, and ask for no deadline about 292 years ahead.
  abbrev pub Punctual : Type ℓ
  Punctual =
      (on_deadline : Bool) (now : Time) (p : P) (later : Time) (r : StateResult) (q : P)
      → react on_deadline now p ≡ some (later, r, q)
      → (now ≤ later) × Fits r.deadline_after

  abbrev Handled : Time → Time × P × TimerSet → Type 0
  Handled now (later, q, ts) = (now ≤ later) × Dated later ts.deadline

  handle-Dated :
      (left : ℕ) (on_deadline : Bool) (now : Time) (p : P) (ts : TimerSet)
      → Punctual
      → Dated now ts.deadline
      → Handled now (handle_with_depth react left on_deadline now p ts)
  unfolding handle_with_depth reset_timers
  handle-Dated zero on_deadline now p ts punctual dated = (omega arith, dated)
  handle-Dated (suc left) on_deadline now p ts punctual dated =
      elim (Option-cases (react on_deadline now p)) [
        | inl unknown ↦ rw (unknown, handle_with_depth) (omega arith, dated)
        | inr ((later, r, q), reacts) ↦
            rw (reacts, handle_with_depth)
              (answer later r q r.requeue refl reacts
                (handle-Dated left false later q (reset_timers ts) punctual (new-Dated later)))
      ]
    where
      answer :
          (later : Time) (r : StateResult) (q : P) (again : Bool)
          → r.requeue ≡ again
          → react on_deadline now p ≡ some (later, r, q)
          → Handled later (handle_with_depth react left false later q (reset_timers ts))
          → Handled now (elim r.requeue [
            | true ↦ handle_with_depth react left false later q (reset_timers ts)
            | false ↦ (later, q, apply_result later r ts)
          ])
      answer later r q true again reacts (after_rest, dated_rest) =
          let (after, bound) = punctual on_deadline now p later r q reacts in
          rw again (omega (arith, after, after_rest), dated_rest)
      answer later r q false again reacts rest =
          let (after, bound) = punctual on_deadline now p later r q reacts in
          rw again (after, apply-Dated later r ts bound)

  abbrev Invariant : WorkerState react → Type 0
  Invariant w = Dated w.now w.timers.deadline × Covers w.timers

  keep-Invariant :
      (on_deadline : Bool) (cached : Option P) (ts : TimerSet) (w : WorkerState react)
      → Punctual
      → Dated w.now ts.deadline
      → Invariant (handle_and_keep react on_deadline cached ts w)
  unfolding handle_and_keep keep_alive
  keep-Invariant on_deadline none ts w punctual dated = (dated, keep_alive-Covers w.now ts dated)
  keep-Invariant on_deadline (some p) ts w punctual dated =
      let h = handle_with_depth react max_handle_depth on_deadline w.now p ts in
      let (after, later_dated) =
        handle-Dated max_handle_depth on_deadline w.now p ts punctual dated in
      (later_dated, keep_alive-Covers h.0 h.2 later_dated)

  run-Invariant :
      (w : WorkerState react) (name : TimerName)
      → Punctual
      → Invariant w
      → Invariant (run_event react name (record w.timers { out = none }) w)
  unfolding run_event cleanup_timers reset_timers
  run-Invariant w requeue_timer punctual (dated, covers) =
      keep-Invariant false w.cached (record w.timers { out = none; requeues = new_schedule }) w
        punctual dated
  run-Invariant w timeout_timer punctual (dated, covers) =
      keep-Invariant true w.cached (record w.timers { out = none; timeout = new_schedule }) w
        punctual dated
  run-Invariant w deadline_timer punctual (dated, covers) =
      keep-Invariant true w.cached (record w.timers { out = none; deadline = new_schedule }) w
        punctual (new-Dated w.now)
  run-Invariant w inactivity_timer punctual (dated, covers) =
      (new-Dated w.now, λ d i at_d. absurd (ground arith))

  Runs-Invariant : (w : WorkerState react) → Punctual → Runs react w → Invariant w
  unfolding new_worker start_timers deliver_plan
  Runs-Invariant w punctual (starts now) = (new-Dated now, λ d i at_d. absurd (ground arith))
  Runs-Invariant w punctual (waits v later after before) =
      let (dated, covers) = Runs-Invariant v punctual before in
      (Dated-later v.timers.deadline after dated, covers)
  Runs-Invariant w punctual (fires v name on due before) =
      let (dated, covers) = Runs-Invariant v punctual before in
      fire-Covers name v.timers v.now dated covers
  Runs-Invariant w punctual (delivers v p on before) =
      keep-Invariant false (some p) v.timers v punctual (Runs-Invariant v punctual before).0
  Runs-Invariant w punctual (runs v name on out before) =
      run-Invariant v name punctual (Runs-Invariant v punctual before)

  -- Whatever plans are delivered and whichever timers fire, in any order, where the handlers do not
  -- turn the clock back, and every deadline they ask for, with the 30 minutes of inactivity, is less
  -- than 2 ^ 63 nanoseconds: the timer of inactivity is never set to a time before that of the deadline
  -- timer, where both are armed.
  pub Runs-Covers : (w : WorkerState react) → Punctual → Runs react w → Covers w.timers
  Runs-Covers w punctual r = (Runs-Invariant w punctual r).1
