-- ===== src/Examples/Tending.antt =====
-- An exception that is created, becomes active and is written back, and the timer of its plan.
use hibernator.Prelude.{ℕ, ◌≡◌, refl, ap, false, [], ◌∷◌, none, some, arith}
use hibernator.Api.{extend, active}
use hibernator.Status.{Update, not_found, Written, send}
use hibernator.Status.Writeback.{
  process_all, mutate_all, Sent, unsent, sends, signalled, ensured, Sent-Reach, Sent-view,
}
use hibernator.Keyed.{Entry, new_entry, enqueue, drop_value, send_signal, ensure_running, Reach}
use hibernator.Keyed.Drained.{Works, Reach-drains}
use hibernator.Exceptions.{ExceptionStatus, ExceptionObject, transition, update_of, set_message}
use hibernator.Exceptions.Handlers.{ExceptionAnswers, handle_plan_update}
use hibernator.Exceptions.Lifecycle.{AllSettled, handle_plan_update-Settled}
use hibernator.Exceptions.Statuses.{is_status_equal, is_status_equal-eq}
use hibernator.Requeue.{PlanContext, Timers, compute_boundary, handle_update}
use hibernator.Requeue.Boundary.{ArmedAt, handle_update-ArmedAt}

abbrev fresh_status : ExceptionStatus
fresh_status = record {
  state = none;
  applied_at = none;
  expired_at = none;
  detached_at = none;
  message = "";
}

abbrev to_active : Update ExceptionStatus
to_active = update_of (transition active 50)

abbrev to_message : Update ExceptionStatus
to_message = update_of (set_message "Exception active, expires soon")

-- Two updates sent, signalled and delivered.
abbrev after_two : Entry (Update ExceptionStatus)
after_two =
    ensure_running (
      ensure_running (send_signal (send_signal (enqueue to_message (enqueue to_active new_entry)))))

abbrev in_memory : ExceptionStatus
in_memory = mutate_all fresh_status (to_active ∷ to_message ∷ [])

after_two_sent : Sent 1000 fresh_status in_memory after_two []
unfolding send enqueue drop_value send_signal ensure_running
after_two_sent = ensured (omega arith) (
    ensured (omega arith) (
      signalled (omega arith)
        (signalled (omega arith) (sends to_message (sends to_active unsent)))))

after_two_reached : Reach 1000 after_two
after_two_reached = Sent-Reach after_two_sent

Reach-drains_example :
    (f : Entry (Update ExceptionStatus)) × Works after_two f
    × (f.accepted ≡ after_two.accepted)
    × (f.handled ≡ after_two.accepted)
unfolding enqueue send_signal ensure_running
Reach-drains_example = Reach-drains after_two after_two_reached (refl, refl)

abbrev first_try : (ℕ → Written ExceptionStatus) → Written ExceptionStatus
first_try try = try 0

Sent-view_example :
    (f : Entry (Update ExceptionStatus)) × Works after_two f
    × (process_all
          (λ s. s)
          is_status_equal
          is_status_equal-eq
          first_try
          (λ try. (0, refl))
          fresh_status
          f.handled
        ≡ in_memory)
unfolding enqueue send_signal ensure_running
Sent-view_example =
    Sent-view (λ s. s) is_status_equal is_status_equal-eq first_try (λ try. (0, refl)) after_two
      fresh_status in_memory after_two_sent (refl, refl)
      (
        ((λ t hook h. cc), (λ a b same. ap (transition active 50) same)),
        (
          ((λ t hook h. cc), (λ a b same. ap (set_message "Exception active, expires soon") same)),
          tt,
        ),
      )
      refl

abbrev new_exception : ExceptionObject
new_exception = record {
  name = "launch";
  namespace = "team";
  deletion_timestamp = none;
  has_finalizer = false;
  labels = none;
  owner_references = [];
  plan_ref = "office";
  type = extend;
  valid_from = 10;
  valid_until = 100;
  status = fresh_status;
}

abbrev no_errors : ExceptionAnswers
no_errors = record {
  add_finalizer_error = none;
  label_error = none;
  remove_finalizer_error = none;
  held_status = fresh_status;
  fresh = not_found;
  plan = not_found;
}

handle_plan_update-Settled_example :
    AllSettled 50 (handle_plan_update 50 (λ name. no_errors) "office" [] (new_exception ∷ [])).0
handle_plan_update-Settled_example =
    handle_plan_update-Settled 50 (λ name. no_errors) "office" [] (new_exception ∷ [])
      (λ name. refl) (λ name. refl) (refl, tt)

abbrev office : PlanContext
office = record {
  next_event = some 70;
  exceptions = record { valid_from = 10; valid_until = 60 } ∷ [];
}

abbrev no_timers : Timers
no_timers = record { pending = []; enqueued = [] }

handle_update-ArmedAt_example :
    ArmedAt
      (compute_boundary 50 (some office))
      50
      "office"
      office
      no_timers
      (handle_update 50 "office" (some (some office)) no_timers)
handle_update-ArmedAt_example = handle_update-ArmedAt 50 "office" office no_timers

-- The end of the exception comes first.
fires_at_the_end :
    (handle_update 50 "office" (some (some office)) no_timers).pending ≡ ("office", 60) ∷ []
unfolding handle_update
fires_at_the_end = refl
