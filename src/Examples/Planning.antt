-- ===== src/Examples/Planning.antt =====
-- The planner on three targets.
use hibernator.Prelude.{
  String, ◌≡◌, ◌≢◌, refl, true, false, List, [], ◌∷◌, elem, arith, if◌then◌else◌, occurrences,
  Distinct, insert, lookup, erase,
}
use hibernator.Prelude.Int.{pos, ◌+ℤ◌, ◌-ℤ◌}
use hibernator.Planner.{
  Dependency, Stage, ExecutionPlan, plan_dag, plan_staged, check_dependencies, dag_loop, sort,
  ready_keys, add_degrees, zero_degrees, insert_sorted, remove_ready, decrement_all, add_successors,
  empty_adjacency, concurrency, ok, err, cycle_detected, out_of_fuel,
}
use hibernator.Planner.Layers.{Layered, done_of}
use hibernator.Planner.Loop.{IsStuck}
use hibernator.Planner.Dag.{plan_dag-Layered, plan_dag-ne-out_of_fuel}
use hibernator.Planner.Cycles.{plan_dag-cycle, plan_dag-acyclic}
use hibernator.Planner.Strategies.{AllPositive, flatten_stages, plan_staged-AllPositive}

abbrev targets : List String
targets = "api" ∷ "db" ∷ "web" ∷ []

abbrev deps : List Dependency
deps = record { from = "db"; to = "api" } ∷ record { from = "db"; to = "web" } ∷ []

abbrev cyclic : List Dependency
cyclic = record { from = "db"; to = "api" } ∷ record { from = "api"; to = "db" } ∷ []

abbrev planned : ExecutionPlan
planned = record {
  stages =
      record { targets = "db" ∷ []; max_concurrency = pos 2 }
      ∷ record { targets = "api" ∷ "web" ∷ []; max_concurrency = pos 2 }
      ∷ [];
}

plan_dag_test : plan_dag targets deps (pos 2) ≡ ok planned
unfolding plan_dag check_dependencies dag_loop sort ready_keys add_degrees zero_degrees
    insert_sorted remove_ready decrement_all add_successors empty_adjacency concurrency insert
    lookup erase ◌+ℤ◌ ◌-ℤ◌
plan_dag_test = refl

plan_dag-Layered_example :
    Layered deps [] planned.stages
    × ((k : String) → occurrences k (done_of planned.stages) ≡ (if elem k targets then 1 else 0))
plan_dag-Layered_example = plan_dag-Layered targets deps (pos 2) planned plan_dag_test

plan_dag-ne-out_of_fuel_example : plan_dag targets cyclic (pos 0) ≢ err out_of_fuel
plan_dag-ne-out_of_fuel_example = plan_dag-ne-out_of_fuel targets cyclic (pos 0)

plan_dag-cyclic : plan_dag targets cyclic (pos 0) ≡ err cycle_detected
unfolding plan_dag check_dependencies dag_loop sort ready_keys add_degrees zero_degrees
    insert_sorted remove_ready decrement_all add_successors empty_adjacency concurrency insert
    lookup erase ◌+ℤ◌ ◌-ℤ◌
plan_dag-cyclic = refl

targets-Distinct : Distinct targets
targets-Distinct = (refl, (refl, (refl, tt)))

plan_dag-cycle_example :
    (among : List String) × IsStuck cyclic among
    × ((k : String) → elem k among ≡ true → elem k targets ≡ true)
plan_dag-cycle_example = plan_dag-cycle targets cyclic (pos 0) targets-Distinct plan_dag-cyclic

cyclic-IsStuck : IsStuck cyclic ("api" ∷ "db" ∷ [])
cyclic-IsStuck = (omega arith, λ k h. ground arith)

cyclic-elem : (k : String) → elem k ("api" ∷ "db" ∷ []) ≡ true → elem k targets ≡ true
cyclic-elem k h = ground arith

plan_dag-acyclic_example : plan_dag targets cyclic (pos 0) ≢ ok planned
plan_dag-acyclic_example =
    plan_dag-acyclic targets cyclic (pos 0) planned ("api" ∷ "db" ∷ []) cyclic-IsStuck cyclic-elem

abbrev stages : List Stage
stages =
    record { name = "first"; parallel = true; max_concurrency = pos 0; targets = "db" ∷ [] }
    ∷ record {
      name = "rest";
      parallel = false;
      max_concurrency = pos 0;
      targets = "api" ∷ "web" ∷ [];
    }
    ∷ []

plan_staged-AllPositive_example :
    (done_of (plan_staged stages (pos 0)).stages ≡ flatten_stages stages)
    × AllPositive (plan_staged stages (pos 0)).stages
plan_staged-AllPositive_example =
    plan_staged-AllPositive stages (pos 0)
      ((omega arith, omega arith), ((omega arith, omega arith), tt))
