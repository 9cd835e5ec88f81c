-- ===== src/Exceptions/References.antt =====
-- The references to exceptions in a plan's status: updateExceptionReferences and removeFromPlanStatus
-- of lifecycle.go, and ExceptionReferencesEqual of api/v1alpha1/hibernateplan_types.go.
use hibernator.Prelude.{
  ℕ, zero, suc, String, Bool, true, false, not, ◌&&◌, Option, none, some, List, [], ◌∷◌, map,
  filter, ltb, eqb, if◌then◌else◌, ◌==◌,
}
use hibernator.Time.{Time, after}
use hibernator.Api.{
  ExceptionType, extend, suspend, replace, ExceptionState, pending, active, expired, detached,
}
use hibernator.Exceptions.{
  ExceptionObject, ExceptionReference, Effect, sent_plan, update_of, same_state,
}

unfoldable pub reference_of : ExceptionObject → ExceptionReference
reference_of e = record {
  name = e.name;
  type = e.type;
  valid_from = e.valid_from;
  valid_until = e.valid_until;
  state = e.status.state;
  applied_at = e.status.applied_at;
}

abbrev pub is_deleted : ExceptionObject → Bool
is_deleted e = elim e.deletion_timestamp [ none ↦ false | some t ↦ true ]

-- `stateOrder`; a map of Go gives 0 for a missing key.
unfoldable pub state_order : Option ExceptionState → ℕ
state_order none = 0
state_order (some active) = 0
state_order (some pending) = 1
state_order (some expired) = 2
state_order (some detached) = 0

unfoldable pub comes_before : ExceptionReference → ExceptionReference → Bool
unfolding state_order
comes_before a b =
    if eqb (state_order a.state) (state_order b.state)
    then after a.valid_from b.valid_from
    else ltb (state_order a.state) (state_order b.state)

-- `sort.Slice`, which leaves open the order of references that neither comes before the other.
unfoldable pub place : ExceptionReference → List ExceptionReference → List ExceptionReference
unfolding comes_before
place r [] = r ∷ []
place r (s ∷ rest) = if comes_before s r then s ∷ place r rest else r ∷ s ∷ rest

unfoldable pub sort_references : List ExceptionReference → List ExceptionReference
unfolding place
sort_references [] = []
sort_references (r ∷ rest) = place r (sort_references rest)

-- The first ten.
unfoldable pub take {ℓ} : {A : Type ℓ} → ℕ → List A → List A
take zero xs = []
take (suc n) [] = []
take (suc n) (x ∷ xs) = x ∷ take n xs

unfoldable pub exception_references : List ExceptionObject → List ExceptionReference
unfolding sort_references take reference_of
exception_references exceptions =
    take 10 (sort_references (map reference_of (filter (λ e. not (is_deleted e)) exceptions)))

-- `ExceptionReferencesEqual`
abbrev same_type : ExceptionType → ExceptionType → Bool
same_type extend extend = true
same_type suspend suspend = true
same_type replace replace = true
same_type _ _ = false

abbrev same_optional_state : Option ExceptionState → Option ExceptionState → Bool
same_optional_state none none = true
same_optional_state (some a) (some b) = same_state a b
same_optional_state _ _ = false

abbrev same_time : Option Time → Option Time → Bool
same_time none none = true
same_time (some a) (some b) = eqb a b
same_time _ _ = false

abbrev same_reference : ExceptionReference → ExceptionReference → Bool
same_reference a b =
    a.name == b.name
    && same_type a.type b.type
    && same_optional_state a.state b.state
    && eqb a.valid_from b.valid_from
    && eqb a.valid_until b.valid_until
    && same_time a.applied_at b.applied_at

unfoldable pub exception_references_equal : List ExceptionReference → List ExceptionReference → Bool
exception_references_equal [] [] = true
exception_references_equal (a ∷ as') (b ∷ bs) =
    same_reference a b && exception_references_equal as' bs
exception_references_equal _ _ = false

-- `updateExceptionReferences`, for the plan of a name with the references that its status holds.
unfoldable pub update_exception_references :
    String → List ExceptionReference → List ExceptionObject → List ExceptionReference × List Effect
unfolding exception_references exception_references_equal
update_exception_references plan held exceptions =
    let new = exception_references exceptions in
    if exception_references_equal held new
    then (held, [])
    else (new, sent_plan plan (update_of (λ _. new)) ∷ [])

-- The mutator of `removeFromPlanStatus`, and its effect.
unfoldable pub without_reference : String → List ExceptionReference → List ExceptionReference
without_reference name references = filter (λ r. not (r.name == name)) references

abbrev pub remove_from_plan_status : ExceptionObject → Effect
remove_from_plan_status e = sent_plan e.plan_ref (update_of (without_reference e.name))
