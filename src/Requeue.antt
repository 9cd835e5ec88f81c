-- ===== src/Requeue.antt =====
-- Time-based re-enqueuing, internal/provider/processor/requeue/processor.go.
pub mod Boundary
use hibernator.Prelude.{
  ℕ, ◌≡◌, String, Bool, true, false, not, ◌&&◌, Option, none, some, List, [], ◌∷◌, Map, insert,
  erase, if◌then◌else◌,
}
use hibernator.Prelude.Int.{ℤ, pos, leb_ℤ}
use hibernator.Time.{Time, is_zero, before, sub}

-- Of an exception in the context of a plan, its period.
pub record Period : Type 0 where
  pub valid_from : Time
  pub valid_until : Time

-- `PlanContext`, as far as it is read here: the schedule's `NextEvent`, and the exceptions.
pub record PlanContext : Type 0 where
  pub next_event : Option Time
  pub exceptions : List Period

-- `minTime`
unfoldable pub min_time : Time → Time → Time
min_time a b = if is_zero a then b else if is_zero b then a else if before a b then a else b

-- One turn of the loop of `computeBoundary`.
abbrev pub note : Time → Time → Time → Time
note now t earliest = if not (is_zero t) && before now t then min_time earliest t else earliest

unfoldable pub note_all : Time → Time → List Period → Time
unfolding min_time
note_all now earliest [] = earliest
note_all now earliest (p ∷ periods) =
    note_all now (note now p.valid_until (note now p.valid_from earliest)) periods

abbrev pub first_event : Option Time → Time
first_event none = 0
first_event (some t) = t

-- `computeBoundary`; a nil context is `none`.
abbrev pub when_set : Time → Option Time
when_set t = if is_zero t then none else some t

unfoldable pub compute_boundary : Time → Option PlanContext → Option Time
unfolding note_all
compute_boundary now none = none
compute_boundary now (some context) =
    when_set (note_all now (first_event context.next_event) context.exceptions)

-- The timers of the processor by plan, each with the time at which it fires.
pub record Timers : Type 0 where
  pub pending : Map Time
  pub enqueued : List String

-- The handler of an update, once the plan's timer is stopped; `none` is a deletion.
abbrev pub arm : Time → String → Map Time → List String → Option Time → Timers
arm now key pending enqueued none = record { pending = pending; enqueued = enqueued }
arm now key pending enqueued (some boundary) =
    if leb_ℤ (sub boundary now) (pos 0)
    then record { pending = pending; enqueued = key ∷ enqueued }
    else record { pending = insert key boundary pending; enqueued = enqueued }

unfoldable pub handle_update : Time → String → Option (Option PlanContext) → Timers → Timers
unfolding compute_boundary sub insert erase
handle_update now key none timers = record {
  pending = erase key timers.pending;
  enqueued = timers.enqueued;
}
handle_update now key (some context) timers =
    arm now key (erase key timers.pending) timers.enqueued (compute_boundary now context)
