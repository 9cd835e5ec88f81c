-- ===== src/Planner/Dag.antt =====
-- `PlanDAG`: its stages respect every dependency and hold every target once, and it ends.
use hibernator.Prelude.{
  suc, String, ◌≡◌, refl, ◌≢◌, true, List, [], ◌∷◌, arith, if◌then◌else◌, elem, length, occurrences,
  Map, lookup, not, ◌&&◌, none, some,
}
use hibernator.Prelude.Int.{ℤ, pos}
use hibernator.Planner.{
  Dependency, ExecutionPlan, Result, ◌>>◌, ok, err, cycle_detected, out_of_fuel, check_dependencies,
  empty_adjacency, zero_degrees, add_successors, add_degrees, plan_dag,
}
use hibernator.Planner.Edges.{
  unmet, targets_of, Known, check_dependencies-Known, lookup-empty_adjacency, lookup-zero_degrees,
  zero_degrees-Unique, lookup-add_successors, lookup-add_degrees, lookup-add_degrees_unknown,
  add_degrees-Unique,
}
use hibernator.Planner.Loop.{Loop, dag_loop-Sound, dag_loop-ne-out_of_fuel}
use hibernator.Planner.Layers.{done_of, Layered}

>>-eq-ok :
    {A : Type 0} (m : Result (Unit {0})) {n : Result A} {a : A}
    → (m >> n) ≡ ok a
    → (m ≡ ok tt) × (n ≡ ok a)
>>-eq-ok (ok tt) h = (refl, h)
>>-eq-ok (err e) h = cc

pub >>-eq-cycle :
    {A : Type 0} (m : Result (Unit {0})) {n : Result A}
    → m ≢ err cycle_detected
    → (m >> n) ≡ err cycle_detected
    → (m ≡ ok tt) × (n ≡ err cycle_detected)
>>-eq-cycle (ok tt) ne h = (refl, h)
>>-eq-cycle (err e) ne h = absurd (ne (cc))

pub check_dependencies-ne-cycle :
    (targets : List String) (ds : List Dependency)
    → check_dependencies targets ds ≢ err cycle_detected
unfolding check_dependencies
check_dependencies-ne-cycle targets [] h = cc
check_dependencies-ne-cycle targets (d ∷ ds) h =
    ground (arith, check_dependencies-ne-cycle targets ds)

check_dependencies-ne-out_of_fuel :
    (targets : List String) (ds : List Dependency) → check_dependencies targets ds ≢ err out_of_fuel
unfolding check_dependencies
check_dependencies-ne-out_of_fuel targets [] h = cc
check_dependencies-ne-out_of_fuel targets (d ∷ ds) h =
    ground (arith, check_dependencies-ne-out_of_fuel targets ds)

module _ (targets : List String) (deps : List Dependency) (known : Known targets deps) where
  unfoldable pub first_adjacency : Map (List String)
  first_adjacency = add_successors deps (empty_adjacency targets [])

  unfoldable pub first_degrees : Map ℤ
  first_degrees = add_degrees deps (zero_degrees targets [])

  pub first_adjacency-targets_of :
      (t : String) → elem t targets ≡ true → lookup t first_adjacency ≡ some (targets_of deps t)
  unfolding first_adjacency
  first_adjacency-targets_of t h =
      lookup-add_successors deps (empty_adjacency targets []) t []
        (rw (lookup-empty_adjacency targets [] t, h) refl)

  lookup-first_degrees :
      (k : String)
      → lookup k first_degrees
        ≡ (if elem k targets && not (elem k []) then some (pos (unmet deps [] k)) else none)
  unfolding first_degrees lookup
  lookup-first_degrees k = ground (
    arith,
    lookup-zero_degrees targets [] k,
    lookup-add_degrees deps (zero_degrees targets []) k 0,
    lookup-add_degrees_unknown targets deps (zero_degrees targets []) k known,
  )

  pub first-Loop :
      Loop targets deps known first_adjacency first_adjacency-targets_of [] first_degrees 0
  unfolding first_degrees
  first-Loop = record {
    inv = record {
      degrees = lookup-first_degrees;
      closed = λ k h. cc;
      within = λ k h. cc;
      unique =
          add_degrees-Unique deps (zero_degrees targets []) (zero_degrees-Unique targets [] tt);
    };
    distinct = tt;
    layered = tt;
    counted = refl;
  }

-- When `PlanDAG` succeeds, no stage runs a target before a target that it depends on has run in an
-- earlier stage; every target is in the stages exactly once, and nothing else is.
pub plan_dag-Layered :
    (targets : List String) (deps : List Dependency) (mc : ℤ) (plan : ExecutionPlan)
    → plan_dag targets deps mc ≡ ok plan
    → Layered deps [] plan.stages
      × ((k : String) → occurrences k (done_of plan.stages) ≡ (if elem k targets then 1 else 0))
unfolding plan_dag
plan_dag-Layered targets deps mc plan h =
    let (checked, run) = >>-eq-ok (check_dependencies targets deps) h in
    let known = check_dependencies-Known targets deps checked in
    unfold first_adjacency first_degrees in
    dag_loop-Sound targets deps known (first_adjacency targets deps known)
      (first_adjacency-targets_of targets deps known) (suc (length targets)) mc
      (first_degrees targets deps known) 0 [] plan (first-Loop targets deps known) run

-- The model never runs out of fuel: with one round more than there are targets, every input ends
-- in a plan or in one of the errors of the source.
pub plan_dag-ne-out_of_fuel :
    (targets : List String) (deps : List Dependency) (mc : ℤ)
    → plan_dag targets deps mc ≢ err out_of_fuel
unfolding plan_dag
plan_dag-ne-out_of_fuel targets deps mc = ground (
  arith,
  check_dependencies-ne-out_of_fuel targets deps,
  dag_loop-ne-out_of_fuel (suc (length targets)) (length targets) mc
      (add_successors deps (empty_adjacency targets []))
      (add_degrees deps (zero_degrees targets [])) 0 [],
)
