-- ===== src/Exceptions/Handlers.antt =====
-- The handlers of lifecycle.go, on the exceptions of a plan in memory.
use hibernator.Prelude.{
  String, Bool, true, false, ◌&&◌, Option, none, some, List, [], ◌∷◌, ◌++◌, Map, lookup, insert,
  any, if◌then◌else◌, ◌==◌,
}
use hibernator.Time.{Time}
use hibernator.Api.{detached, PlanPhase}
use hibernator.Status.{Fetched, found, not_found, fetch_failed}
use hibernator.Exceptions.{
  ExceptionStatus, ExceptionObject, ExceptionReference, Effect, patched, reported, with_finalizer,
  with_status, with_labels, compute_desired_state, has_state, transition_state, update_message,
  send_status, detached_message,
}
use hibernator.Exceptions.References.{
  is_deleted, update_exception_references, remove_from_plan_status,
}

-- Of a plan that is fetched, what the deletion reads.
pub record PlanView : Type 0 where
  pub phase : PlanPhase
  pub applied_exception_override : String

-- What the API server answers about an exception: the errors of its patches, the status that it holds,
-- which a patch that succeeds reads back into memory, and the fresh objects.
pub record ExceptionAnswers : Type 0 where
  pub add_finalizer_error : Option String
  pub label_error : Option String
  pub remove_finalizer_error : Option String
  pub held_status : ExceptionStatus
  pub fresh : Fetched ExceptionObject
  pub plan : Fetched PlanView

abbrev label_plan : String
label_plan = "hibernator.ardikabs.com/plan"

-- `ensurePlanLabel`, with the report of its error.
abbrev pub has_label : ExceptionObject → Bool
has_label e = elim e.labels [
  | none ↦ false
  | some labels ↦ elim (lookup label_plan labels) [
    | none ↦ "" == e.plan_ref
    | some value ↦ value == e.plan_ref
  ]
]

abbrev labels_of : ExceptionObject → Map String
labels_of e = elim e.labels [ none ↦ [] | some labels ↦ labels ]

-- `Patch` of metadata; where it fails, the change stays in memory.
unfoldable pub patch : Option String → ExceptionStatus → ExceptionObject → ExceptionObject
patch none held e = with_status held e
patch (some problem) held e = e

unfoldable pub ensure_plan_label :
    ExceptionAnswers → ExceptionObject → ExceptionObject × List Effect
unfolding lookup insert patch
ensure_plan_label answers e =
    if has_label e
    then (e, [])
    else let labelled = with_labels (insert label_plan e.plan_ref (labels_of e)) e in
      (
        patch answers.label_error answers.held_status labelled,
        elim answers.label_error [
          | none ↦ patched labelled ∷ []
          | some problem ↦ reported problem ∷ []
        ],
      )

-- The end of `handleExceptionUpdate`: the transition or the message.
unfoldable pub update_state : Time → ExceptionObject → ExceptionObject × List Effect
unfolding compute_desired_state transition_state update_message
update_state now e =
    if has_state e.status (compute_desired_state now e)
    then update_message now e
    else transition_state (compute_desired_state now e) now e

abbrev followed_by :
    ExceptionObject × List Effect
    → (ExceptionObject → ExceptionObject × List Effect)
    → ExceptionObject × List Effect
followed_by first next = let second = next first.0 in (second.0, first.1 ++ second.1)

unfoldable pub label_and_update :
    Time → ExceptionAnswers → ExceptionObject → ExceptionObject × List Effect
unfolding ensure_plan_label update_state
label_and_update now answers e = followed_by (ensure_plan_label answers e) (update_state now)

-- `handleExceptionUpdate`, for an exception without a deletion timestamp.
unfoldable pub handle_exception_update :
    Time → ExceptionAnswers → ExceptionObject → ExceptionObject × List Effect
unfolding label_and_update patch
handle_exception_update now answers e =
    if e.has_finalizer
    then label_and_update now answers e
    else let added = with_finalizer true e in
      elim answers.add_finalizer_error [
        | none ↦
            followed_by (patch none answers.held_status added, patched added ∷ [])
              (label_and_update now answers)
        | some problem ↦ (added, reported problem ∷ [])
      ]

-- The plan runs an operation, or failed in one, with the override of the exception.
abbrev in_cycle : PlanPhase → Bool
in_cycle PlanPhase.hibernating = true
in_cycle PlanPhase.waking_up = true
in_cycle PlanPhase.error = true
in_cycle _ = false

unfoldable pub blocks_removal : Fetched PlanView → String → Bool
blocks_removal (found plan) name = in_cycle plan.phase && plan.applied_exception_override == name
blocks_removal not_found name = false
blocks_removal (fetch_failed problem) name = false

abbrev remove_finalizer : ExceptionAnswers → ExceptionObject → List Effect
remove_finalizer answers e =
    if e.has_finalizer
    then elim answers.remove_finalizer_error [
      | none ↦ patched (with_finalizer false e) ∷ []
      | some problem ↦ reported problem ∷ []
    ]
    else []

-- `handleExceptionDelete`, on the fresh object.
unfoldable pub handle_exception_delete : ExceptionAnswers → List Effect
unfolding blocks_removal
handle_exception_delete answers = elim answers.fresh [
  | not_found ↦ []
  | fetch_failed problem ↦ reported problem ∷ []
  | found e ↦
      if blocks_removal answers.plan e.name
      then remove_from_plan_status e ∷ []
      else remove_from_plan_status e ∷ remove_finalizer answers e
]

-- One turn of the loop of `handlePlanUpdate`.
unfoldable pub handle_one :
    Time → (String → ExceptionAnswers) → ExceptionObject → ExceptionObject × List Effect
unfolding handle_exception_delete handle_exception_update
handle_one now answers e =
    if is_deleted e
    then (e, handle_exception_delete (answers e.name))
    else handle_exception_update now (answers e.name) e

unfoldable pub handle_all :
    Time → (String → ExceptionAnswers) → List ExceptionObject → List ExceptionObject × List Effect
unfolding handle_one
handle_all now answers [] = ([], [])
handle_all now answers (e ∷ exceptions) =
    let first = handle_one now answers e in
    let rest = handle_all now answers exceptions in (first.0 ∷ rest.0, first.1 ++ rest.1)

-- `handlePlanUpdate`: the exceptions in memory, the references, and the effects.
unfoldable pub handle_plan_update :
    Time
    → (String → ExceptionAnswers)
    → String
    → List ExceptionReference
    → List ExceptionObject
    → List ExceptionObject × List ExceptionReference × List Effect
unfolding handle_all update_exception_references
handle_plan_update now answers plan held exceptions =
    let all = handle_all now answers exceptions in
    let references = update_exception_references plan held all.0 in
    (all.0, references.0, all.1 ++ references.1)

-- `hasOwnerReferenceToPlan`
unfoldable pub has_owner_reference_to_plan : String → ExceptionObject → Bool
has_owner_reference_to_plan plan e =
    any
      (λ r.
        r.kind == "HibernatePlan"
        && r.name == plan
        && r.api_version == "hibernator.ardikabs.com/v1alpha1")
      e.owner_references

-- `transitionToDetached`; an error of the patch is only logged.
abbrev detach : Time → String → ExceptionStatus → ExceptionStatus
detach now plan s = record {
  state = some detached;
  applied_at = s.applied_at;
  expired_at = s.expired_at;
  detached_at = some now;
  message = detached_message plan;
}

abbrev free : ExceptionAnswers → ExceptionObject → ExceptionObject × List Effect
free answers e =
    if e.has_finalizer
    then (
      patch answers.remove_finalizer_error answers.held_status (with_finalizer false e),
      elim answers.remove_finalizer_error [
        | none ↦ patched (with_finalizer false e) ∷ []
        | some problem ↦ []
      ],
    )
    else (e, [])

unfoldable pub transition_to_detached :
    Time → ExceptionAnswers → String → ExceptionObject → ExceptionObject × List Effect
transition_to_detached now answers plan e =
    if has_state e.status detached
    then (e, [])
    else followed_by (send_status (detach now plan) e) (free answers)

-- `handlePlanDelete`, on the exceptions that are listed, or on the error of the list.
unfoldable pub detach_all :
    Time
    → (String → ExceptionAnswers)
    → String
    → List ExceptionObject
    → List ExceptionObject × List Effect
unfolding transition_to_detached has_owner_reference_to_plan
detach_all now answers plan [] = ([], [])
detach_all now answers plan (e ∷ exceptions) =
    let first =
      if has_owner_reference_to_plan plan e
      then (e, [])
      else transition_to_detached now (answers e.name) plan e in
    let rest = detach_all now answers plan exceptions in (first.0 ∷ rest.0, first.1 ++ rest.1)

unfoldable pub handle_plan_delete :
    Time
    → (String → ExceptionAnswers)
    → String
    → Option String
    → List ExceptionObject
    → List ExceptionObject × List Effect
unfolding detach_all
handle_plan_delete now answers plan (some problem) exceptions = (exceptions, reported problem ∷ [])
handle_plan_delete now answers plan none exceptions = detach_all now answers plan exceptions
