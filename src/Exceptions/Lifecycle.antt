-- ===== src/Exceptions/Lifecycle.antt =====
-- Where the handlers lead an exception.
use hibernator.Prelude.{
  ℕ, ◌≤◌, ◌<◌, ltb, eqb, Option-cases, ◌≡◌, refl, sym, subst, ap, ◌∙◌, ◌==◌, ◌⊎◌, inl, inr, String,
  Bool, true, false, not, ◌&&◌, Option, none, some, List, [], ◌∷◌, arith, Bool-cases,
}
use hibernator.Time.{Time}
use hibernator.Api.{ExceptionState, pending, active, expired, detached}
use hibernator.Exceptions.{
  ExceptionStatus, ExceptionObject, ExceptionReference, compute_desired_state, has_state,
  same_state, transition, update_message, set_message, with_status, message_of, with_finalizer,
}
use hibernator.Exceptions.References.{is_deleted}
use hibernator.Exceptions.Handlers.{
  ExceptionAnswers, patch, has_label, ensure_plan_label, label_and_update, update_state,
  handle_exception_update, handle_one, handle_all, handle_plan_update,
}

abbrev stage : ExceptionState → ℕ
stage pending = 0
stage active = 1
stage expired = 2
stage detached = 3

-- The state that is due at a later time is not an earlier one in the order Pending, Active, Expired.
compute_desired_state-monotone :
    (e : ExceptionObject) (now later : Time)
    → now ≤ later
    → stage (compute_desired_state now e) ≤ stage (compute_desired_state later e)
unfolding compute_desired_state
compute_desired_state-monotone e now later le = ground arith

abbrev is_set : Option Time → Bool
is_set none = false
is_set (some t) = true

-- The times of a status are those of its state.
abbrev pub consistent : ExceptionStatus → Bool
consistent s = elim s.state [
  | none ↦ not (is_set s.applied_at) && not (is_set s.expired_at) && not (is_set s.detached_at)
  | some state ↦ elim state [
    | pending ↦ not (is_set s.applied_at) && not (is_set s.expired_at) && not (is_set s.detached_at)
    | active ↦ is_set s.applied_at && not (is_set s.expired_at) && not (is_set s.detached_at)
    | expired ↦ not (is_set s.applied_at) && is_set s.expired_at && not (is_set s.detached_at)
    | detached ↦ is_set s.detached_at
  ]
]

-- The state of an exception's period: pending before it, active in it, to its last instant, and
-- expired after it; a period without an end stays active.
abbrev pub Due : Time → ExceptionObject → Option ExceptionState → Type 0
Due now e state =
    ((state ≡ some pending) × (now < e.valid_from))
    ⊎ ((state ≡ some active) × (e.valid_from ≤ now) × ((e.valid_until ≡ 0) ⊎ (now ≤ e.valid_until)))
    ⊎ ((state ≡ some expired) × (e.valid_from ≤ now) × (0 < e.valid_until) × (e.valid_until < now))

-- Deleted, or in the state of its period, with the times of that state and the finalizer.
abbrev pub Settled : Time → ExceptionObject → Type 0
Settled now e =
    (is_deleted e ≡ true)
    ⊎ (Due now e e.status.state × (consistent e.status ≡ true) × (e.has_finalizer ≡ true))

same_state-eq : (held state : ExceptionState) → same_state held state ≡ true → held ≡ state
same_state-eq pending state same = ground arith
same_state-eq active state same = ground arith
same_state-eq expired state same = ground arith
same_state-eq detached state same = ground arith

has_state-eq :
    (s : ExceptionStatus) (state : ExceptionState) → has_state s state ≡ true → s.state ≡ some state
has_state-eq s state held = elim (Option-cases s.state) [
  | inl unset ↦ ground (arith, unset)
  | inr (was, is_was) ↦
      is_was ∙ ap (λ x. some x) (same_state-eq was state (ground (arith, is_was, held)))
]

has_state-Due :
    (now : Time) (s : ExceptionStatus) (e : ExceptionObject)
    → has_state s (compute_desired_state now e) ≡ true
    → Due now e s.state
unfolding compute_desired_state
has_state-Due now s e held =
    let is_desired = has_state-eq s (compute_desired_state now e) held in
    elim (Bool-cases (ltb now e.valid_from)) [
      | inl early ↦ inl (ground (arith, is_desired, early), ground (arith, early))
      | inr begun ↦ elim (Bool-cases (not (eqb e.valid_until 0) && ltb e.valid_until now)) [
        | inl over ↦ inr (
            inr (ground (arith, is_desired, begun, over), ground arith, ground arith, ground arith))
        | inr open_ ↦ inr (
            inl (
              ground (arith, is_desired, begun, open_),
              ground arith,
              elim (Bool-cases (eqb e.valid_until 0)) [
                | inl endless ↦ inl (ground arith)
                | inr ends ↦ inr (ground (arith, open_, ends))
              ],
            ))
      ]
    ]

same_state_refl : (state : ExceptionState) → same_state state state ≡ true
same_state_refl pending = refl
same_state_refl active = refl
same_state_refl expired = refl
same_state_refl detached = refl

transition_lem :
    (desired : ExceptionState) (now : Time) (s : ExceptionStatus)
    → (desired ≡ detached → ⊥)
    → (has_state (transition desired now s) desired ≡ true)
      × (consistent (transition desired now s) ≡ true)
unfolding transition
transition_lem pending now s other = (refl, refl)
transition_lem active now s other = (refl, refl)
transition_lem expired now s other = (refl, refl)
transition_lem detached now s other = absurd (other refl)

desired-ne-detached :
    (e : ExceptionObject) (now : Time) → compute_desired_state now e ≡ detached → ⊥
unfolding compute_desired_state
desired-ne-detached e now h = ground arith

set_message_lem :
    (text : String) (s : ExceptionStatus) (state : ExceptionState)
    → (has_state (set_message text s) state ≡ has_state s state)
      × (consistent (set_message text s) ≡ consistent s)
unfolding set_message
set_message_lem text s state = (refl, refl)

-- A status with the state that is due settles the exception.
settle_status :
    (now : Time) (s : ExceptionStatus) (e : ExceptionObject)
    → has_state s (compute_desired_state now e) ≡ true
    → consistent s ≡ true
    → e.has_finalizer ≡ true
    → Settled now (with_status s e)
settle_status now s e held fine final = inr (has_state-Due now s e held, fine, final)

update_message-Settled :
    (now : Time) (e : ExceptionObject)
    → has_state e.status (compute_desired_state now e) ≡ true
    → consistent e.status ≡ true
    → e.has_finalizer ≡ true
    → Settled now (update_message now e).0
unfolding update_message
update_message-Settled now e held fine final =
    elim (Bool-cases (e.status.message == message_of now e)) [
      | inl same ↦ rw (same, update_message) (inr (has_state-Due now e.status e held, fine, final))
      | inr other ↦
          rw (other, update_message)
            (settle_status now (set_message (message_of now e) e.status) e held fine final)
    ]

update_state-Settled :
    (now : Time) (e : ExceptionObject)
    → consistent e.status ≡ true
    → e.has_finalizer ≡ true
    → Settled now (update_state now e).0
unfolding update_state
update_state-Settled now e fine final =
    elim (Bool-cases (has_state e.status (compute_desired_state now e))) [
      | inl held ↦ rw (held, update_state) (update_message-Settled now e held fine final)
      | inr moved ↦
          rw (moved, update_state)
            (settle_status now (transition (compute_desired_state now e) now e.status) e
              (transition_lem (compute_desired_state now e) now e.status
                (desired-ne-detached e now)).0
              (transition_lem (compute_desired_state now e) now e.status
                (desired-ne-detached e now)).1
              final)
    ]

ensure_plan_label-consistent :
    (answers : ExceptionAnswers) (e : ExceptionObject)
    → consistent answers.held_status ≡ true
    → consistent e.status ≡ true
    → (consistent (ensure_plan_label answers e).0.status ≡ true)
      × ((ensure_plan_label answers e).0.has_finalizer ≡ e.has_finalizer)
unfolding ensure_plan_label patch
ensure_plan_label-consistent answers e held fine = elim (Bool-cases (has_label e)) [
  | inl labelled ↦ rw (labelled, ensure_plan_label) (fine, refl)
  | inr missing ↦ elim (Option-cases answers.label_error) [
    | inl patched_ ↦ rw (missing, ensure_plan_label) (rw (patched_, patch) (held, refl))
    | inr (problem, failed) ↦ rw (missing, ensure_plan_label) (rw (failed, patch) (fine, refl))
  ]
]

label_and_update-Settled :
    (now : Time) (answers : ExceptionAnswers) (e : ExceptionObject)
    → consistent answers.held_status ≡ true
    → consistent e.status ≡ true
    → e.has_finalizer ≡ true
    → Settled now (label_and_update now answers e).0
unfolding label_and_update
label_and_update-Settled now answers e held fine final =
    let kept = ensure_plan_label-consistent answers e held fine in
    update_state-Settled now (ensure_plan_label answers e).0 kept.0 (kept.1 ∙ final)

handle_exception_update-final :
    (now : Time) (answers : ExceptionAnswers) (e : ExceptionObject)
    → e.has_finalizer ≡ true
    → (handle_exception_update now answers e).0 ≡ (label_and_update now answers e).0
unfolding handle_exception_update
handle_exception_update-final now answers e final = ground arith

handle_exception_update-missing :
    (now : Time) (answers : ExceptionAnswers) (e : ExceptionObject)
    → e.has_finalizer ≡ false
    → answers.add_finalizer_error ≡ none
    → (handle_exception_update now answers e).0
      ≡ (label_and_update now answers (with_status answers.held_status (with_finalizer true e))).0
unfolding handle_exception_update patch
handle_exception_update-missing now answers e missing no_error = ground arith

handle_exception_update-Settled :
    (now : Time) (answers : ExceptionAnswers) (e : ExceptionObject)
    → answers.add_finalizer_error ≡ none
    → consistent answers.held_status ≡ true
    → consistent e.status ≡ true
    → Settled now (handle_exception_update now answers e).0
handle_exception_update-Settled now answers e no_error held fine =
    elim (Bool-cases e.has_finalizer) [
      | inl final ↦
          subst (Settled now) (sym (handle_exception_update-final now answers e final))
            (label_and_update-Settled now answers e held fine final)
      | inr missing ↦
          subst (Settled now) (sym (handle_exception_update-missing now answers e missing no_error))
            (label_and_update-Settled now answers
              (with_status answers.held_status (with_finalizer true e)) held held refl)
    ]

handle_one-Settled :
    (now : Time) (answers : String → ExceptionAnswers) (e : ExceptionObject)
    → (answers e.name).add_finalizer_error ≡ none
    → consistent (answers e.name).held_status ≡ true
    → consistent e.status ≡ true
    → Settled now (handle_one now answers e).0
unfolding handle_one
handle_one-Settled now answers e no_error held fine = elim (Bool-cases (is_deleted e)) [
  | inl gone ↦ rw (gone, handle_one) (inl gone)
  | inr here ↦
      rw (here, handle_one)
        (handle_exception_update-Settled now (answers e.name) e no_error held fine)
]

abbrev pub AllSettled : Time → List ExceptionObject → Type 0
AllSettled now [] = Unit
AllSettled now (e ∷ exceptions) = Settled now e × AllSettled now exceptions

abbrev pub AllConsistent : List ExceptionObject → Type 0
AllConsistent [] = Unit
AllConsistent (e ∷ exceptions) = (consistent e.status ≡ true) × AllConsistent exceptions

handle_all-Settled :
    (now : Time) (answers : String → ExceptionAnswers) (exceptions : List ExceptionObject)
    → ((name : String) → (answers name).add_finalizer_error ≡ none)
    → ((name : String) → consistent (answers name).held_status ≡ true)
    → AllConsistent exceptions
    → AllSettled now (handle_all now answers exceptions).0
unfolding handle_all
handle_all-Settled now answers [] no_error held fine = tt
handle_all-Settled now answers (e ∷ exceptions) no_error held fine = (
  handle_one-Settled now answers e (no_error e.name) (held e.name) fine.0,
  handle_all-Settled now answers exceptions no_error held fine.1,
)

-- Where no patch that adds a finalizer fails, and each exception has the times of its state, in memory and
-- on the server, `handlePlanUpdate` leaves every exception of the plan that is not being deleted, in
-- memory, with the finalizer, with the times of its state, and in the state of its period: pending before
-- it starts, active from then on to its end, if any, and expired after that.
pub handle_plan_update-Settled :
    (now : Time) (answers : String → ExceptionAnswers) (plan : String)
    (references : List ExceptionReference) (exceptions : List ExceptionObject)
    → ((name : String) → (answers name).add_finalizer_error ≡ none)
    → ((name : String) → consistent (answers name).held_status ≡ true)
    → AllConsistent exceptions
    → AllSettled now (handle_plan_update now answers plan references exceptions).0
unfolding handle_plan_update
handle_plan_update-Settled now answers plan references exceptions no_error held fine =
    handle_all-Settled now answers exceptions no_error held fine
