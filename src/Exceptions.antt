-- ===== src/Exceptions.antt =====
-- The lifecycle of schedule exceptions, internal/provider/processor/scheduleexception/lifecycle.go:
-- the objects, the state that is due, transitions and messages.

pub mod References
pub mod Handlers
pub mod Lifecycle
pub mod Statuses
use hibernator.Prelude.{
  ℕ, ◌*◌, ◌/◌, String, Bool, true, false, not, ◌&&◌, ◌||◌, Option, none, some, List, [], ◌∷◌, Map,
  ltb, eqb, if◌then◌else◌, ◌==◌,
}
use hibernator.Prelude.Int.{ℤ, pos_part}
use hibernator.Prelude.Text.{join, show, show_digits}
use hibernator.Time.{Time, is_zero, before, after, sub, hour}
use hibernator.Api.{
  ExceptionType, extend, suspend, replace, ExceptionState, pending, active, expired, detached,
  PlanPhase,
}
use hibernator.Status.{Update, Fetched}

-- `ScheduleExceptionStatus`; no state is the empty string.
pub record ExceptionStatus : Type 0 where
  pub state : Option ExceptionState
  pub applied_at : Option Time
  pub expired_at : Option Time
  pub detached_at : Option Time
  pub message : String

pub record OwnerReference : Type 0 where
  pub api_version : String
  pub kind : String
  pub name : String

-- Of `ScheduleException`, what the processor reads; `labels` is `none` for a nil map.
pub record ExceptionObject : Type 0 where
  pub name : String
  pub namespace : String
  pub deletion_timestamp : Option Time
  pub has_finalizer : Bool
  pub labels : Option (Map String)
  pub owner_references : List OwnerReference
  pub plan_ref : String
  pub type : ExceptionType
  pub valid_from : Time
  pub valid_until : Time
  pub status : ExceptionStatus

-- `ExceptionReference`
pub record ExceptionReference : Type 0 where
  pub name : String
  pub type : ExceptionType
  pub valid_from : Time
  pub valid_until : Time
  pub state : Option ExceptionState
  pub applied_at : Option Time

-- What a handler does besides changing the objects in memory: status updates that it sends, a patch
-- that succeeds, and an error that it reports.
pub data Effect : Type 0 where
  sent_exception : String → Update ExceptionStatus → Effect
  sent_plan : String → Update (List ExceptionReference) → Effect
  patched : ExceptionObject → Effect
  reported : String → Effect

abbrev pub with_status : ExceptionStatus → ExceptionObject → ExceptionObject
with_status status e = record {
  name = e.name;
  namespace = e.namespace;
  deletion_timestamp = e.deletion_timestamp;
  has_finalizer = e.has_finalizer;
  labels = e.labels;
  owner_references = e.owner_references;
  plan_ref = e.plan_ref;
  type = e.type;
  valid_from = e.valid_from;
  valid_until = e.valid_until;
  status = status;
}

abbrev pub with_finalizer : Bool → ExceptionObject → ExceptionObject
with_finalizer has e = record {
  name = e.name;
  namespace = e.namespace;
  deletion_timestamp = e.deletion_timestamp;
  has_finalizer = has;
  labels = e.labels;
  owner_references = e.owner_references;
  plan_ref = e.plan_ref;
  type = e.type;
  valid_from = e.valid_from;
  valid_until = e.valid_until;
  status = e.status;
}

abbrev pub with_labels : Map String → ExceptionObject → ExceptionObject
with_labels labels e = record {
  name = e.name;
  namespace = e.namespace;
  deletion_timestamp = e.deletion_timestamp;
  has_finalizer = e.has_finalizer;
  labels = some labels;
  owner_references = e.owner_references;
  plan_ref = e.plan_ref;
  type = e.type;
  valid_from = e.valid_from;
  valid_until = e.valid_until;
  status = e.status;
}

-- `computeDesiredState`
unfoldable pub compute_desired_state : Time → ExceptionObject → ExceptionState
compute_desired_state now e =
    if before now e.valid_from
    then pending
    else if not (is_zero e.valid_until) && after now e.valid_until
    then expired
    else active

-- `exception.Status.State != desiredState`
abbrev pub same_state : ExceptionState → ExceptionState → Bool
same_state pending pending = true
same_state active active = true
same_state expired expired = true
same_state detached detached = true
same_state _ _ = false

abbrev pub has_state : ExceptionStatus → ExceptionState → Bool
has_state status state = elim status.state [ none ↦ false | some held ↦ same_state held state ]

-- The mutator of `transitionState`.
unfoldable pub transition : ExceptionState → Time → ExceptionStatus → ExceptionStatus
transition pending now s = record {
  state = some pending;
  applied_at = none;
  expired_at = none;
  detached_at = none;
  message = "Exception pending";
}
transition active now s = record {
  state = some active;
  applied_at = some now;
  expired_at = none;
  detached_at = none;
  message = "Exception activated";
}
transition expired now s = record {
  state = some expired;
  applied_at = none;
  expired_at = some now;
  detached_at = none;
  message = "Exception expired";
}
transition detached now s = record {
  state = some detached;
  applied_at = s.applied_at;
  expired_at = s.expired_at;
  detached_at = s.detached_at;
  message = s.message;
}

-- An update with a mutator alone, and `Send` of it: the object in memory changes at once.
abbrev pub update_of {ℓ} : {T : Type ℓ} → (T → T) → Update T
update_of change = record { pre_hook = none; mutator = some change; post_hook = none }

abbrev pub send_status :
    (ExceptionStatus → ExceptionStatus) → ExceptionObject → ExceptionObject × List Effect
send_status change e =
    (with_status (change e.status) e, sent_exception e.name (update_of change) ∷ [])

-- `transitionState`
unfoldable pub transition_state :
    ExceptionState → Time → ExceptionObject → ExceptionObject × List Effect
unfolding transition
transition_state desired now e = send_status (transition desired now) e

-- `formatPendingMessage` and `formatActiveMessage`: whole days, or whole hours, that remain. The
-- quotients are floats, rounded down here; exact but in the last nanosecond above 2 ^ 11 hours.
abbrev format_remaining : String → String → ℕ → String
format_remaining lead verb left =
    if ltb 0 (left / (24 * hour))
    then join lead (join verb (join " in " (join (show (left / (24 * hour))) " days")))
    else if ltb 0 (left / hour)
    then join lead (join verb (join " in " (join (show (left / hour)) " hours")))
    else join lead (join verb " soon")

unfoldable pub format_pending_message : Time → ExceptionObject → String
unfolding sub show_digits
format_pending_message now e =
    if is_zero e.valid_from
    then "Exception pending"
    else format_remaining "Exception pending, " "activates" (pos_part (sub e.valid_from now))

unfoldable pub format_active_message : Time → ExceptionObject → String
unfolding sub show_digits
format_active_message now e =
    if is_zero e.valid_until
    then "Exception active"
    else format_remaining "Exception active, " "expires" (pos_part (sub e.valid_until now))

-- `%q` of a plan's name, whose letters need no escape.
abbrev pub detached_message : String → String
detached_message plan =
    join "Referenced plan \"" (join plan "\" no longer exists; exception is detached")

abbrev pub message_of : Time → ExceptionObject → String
message_of now e = elim e.status.state [
  | none ↦ "Exception state: "
  | some state ↦ elim state [
    | pending ↦ format_pending_message now e
    | active ↦ format_active_message now e
    | expired ↦ "Exception expired"
    | detached ↦ detached_message e.plan_ref
  ]
]

-- The mutator of `updateMessage`.
unfoldable pub set_message : String → ExceptionStatus → ExceptionStatus
set_message text s = record {
  state = s.state;
  applied_at = s.applied_at;
  expired_at = s.expired_at;
  detached_at = s.detached_at;
  message = text;
}

-- `updateMessage`
unfoldable pub update_message : Time → ExceptionObject → ExceptionObject × List Effect
unfolding format_pending_message format_active_message set_message
update_message now e =
    if e.status.message == message_of now e
    then (e, [])
    else send_status (set_message (message_of now e)) e
