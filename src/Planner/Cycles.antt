-- ===== src/Planner/Cycles.antt =====
-- `PlanDAG` reports a cycle exactly where the dependencies hold targets up for ever.
use hibernator.Prelude.{
  ℕ, zero, suc, ◌+◌, ◌<◌, String, ◌≡◌, refl, ◌≢◌, true, false, inl, inr, Bool-cases, List, [], ◌∷◌,
  ◌++◌, arith, ltb, eqb, elem, elem-append, length, Distinct, Distinct-length-le, Map, lookup, any,
  filter, elem-filter, filter-empty, ◌==◌, not, eq_iff, eq_refl, some, elem-occurrences,
}
use hibernator.Prelude.Int.{ℤ}
use hibernator.Planner.{
  Dependency, ExecutionStage, ExecutionPlan, ok, err, cycle_detected, check_dependencies,
  concurrency, ready_keys, sort, remove_ready, dag_loop, plan_dag,
}
use hibernator.Planner.Order.{elem-sort, zero-ready_keys}
use hibernator.Planner.Edges.{unmet, targets_of, Known, check_dependencies-Known}
use hibernator.Planner.Layers.{done_of, Met, Layered}
use hibernator.Planner.Loop.{Loop, round-Loop, waits_in, IsStuck}
use hibernator.Planner.Dag.{
  >>-eq-cycle, first_adjacency, first_degrees, first_adjacency-targets_of, first-Loop,
  check_dependencies-ne-cycle, plan_dag-Layered,
}

waits-unmet :
    (targets done : List String) (ds : List Dependency) (k : String)
    → Known targets ds
    → unmet ds done k ≢ 0
    → any (waits_in (filter (λ t. not (elem t done)) targets) k) ds ≡ true
waits-unmet targets done [] k known h = absurd (h refl)
waits-unmet targets done (d ∷ ds) k known h = ground (
  arith,
  elem-filter d.from (λ t. not (elem t done)) targets,
  waits-unmet targets done ds k known.2,
)

module _ (targets : List String) (deps : List Dependency) (known : Known targets deps)
    (adj : Map (List String))
    (adj_ok : (t : String) → elem t targets ≡ true → lookup t adj ≡ some (targets_of deps t)) where
  abbrev left : List ExecutionStage → List String
  left stages = filter (λ t. not (elem t (done_of stages))) targets

  left_stuck :
      (deg : Map ℤ) (processed : ℕ) (stages : List ExecutionStage)
      → Loop targets deps known adj adj_ok stages deg processed
      → length (sort (ready_keys deg)) ≡ 0
      → (k : String) → elem k (left stages) ≡ true
      → unmet deps (done_of stages) k ≢ 0
  left_stuck deg processed stages l none_ready k h met =
      let is_ready : elem k (sort (ready_keys deg)) ≡ true = rw (elem-sort k (ready_keys deg)) (
        zero-ready_keys k deg (
          ground (
            arith,
            l.inv.degrees k,
            elem-filter k (λ t. not (elem t (done_of stages))) targets,
          ))) in
      ground (arith, elem_nonempty k (sort (ready_keys deg)) is_ready)
    where
      elem_nonempty : (j : String) (ys : List String) → elem j ys ≡ true → 0 < length ys
      elem_nonempty j [] m = cc
      elem_nonempty j (y ∷ ys) m = omega arith

  dag_loop-cycle :
      (fuel : ℕ) (mc : ℤ) (deg : Map ℤ) (processed : ℕ) (stages : List ExecutionStage)
      → Distinct targets
      → Loop targets deps known adj adj_ok stages deg processed
      → dag_loop fuel (length targets) mc adj deg processed stages ≡ err cycle_detected
      → (among : List String) × IsStuck deps among
        × ((k : String) → elem k among ≡ true → elem k targets ≡ true)
  unfolding dag_loop
  dag_loop-cycle zero mc deg processed stages d l h = cc
  dag_loop-cycle (suc fuel) mc deg processed stages d l h =
      let ready = sort (ready_keys deg) in
      elim (Bool-cases (ltb processed (length targets))) [
        | inr e ↦ cc (rw e at h)
        | inl e ↦ elim (Bool-cases (eqb (length ready) 0)) [
          | inl stuck ↦ (
            left stages,
            (
              some_left e,
              λ k m.
                  waits-unmet targets (done_of stages) deps k known
                    (left_stuck deg processed stages l (ground arith) k m),
            ),
            λ k m. ground (arith, elem-filter k (λ t. not (elem t (done_of stages))) targets),
          )
          | inr more ↦
              dag_loop-cycle fuel mc (remove_ready adj ready deg) (processed + length ready)
                (stages ++ record { targets = ready; max_concurrency = concurrency mc ready } ∷ [])
                d (round-Loop targets deps known adj adj_ok mc stages deg processed l)
                (rw (e, more) at h)
        ]
      ]
    where
      some_left : ltb processed (length targets) ≡ true → 0 < length (left stages)
      some_left e = elim (Bool-cases (eqb (length (left stages)) 0)) [
        | inr some_left' ↦ ground arith
        | inl no_left ↦ absurd (
            ground (
              arith,
              l.counted,
              Distinct-length-le targets (done_of stages) d (λ k m. ground (
                arith,
                filter-empty (λ t. not (elem t (done_of stages))) targets k (ground arith) m,
              )),
            ))
      ]

-- When `PlanDAG` reports a cycle for distinct targets, there are targets, at least one, each of
-- which depends on one of them: none of them could ever be the next to run.
pub plan_dag-cycle :
    (targets : List String) (deps : List Dependency) (mc : ℤ)
    → Distinct targets
    → plan_dag targets deps mc ≡ err cycle_detected
    → (among : List String) × IsStuck deps among
      × ((k : String) → elem k among ≡ true → elem k targets ≡ true)
unfolding plan_dag
plan_dag-cycle targets deps mc d h =
    let (checked, run) =
      >>-eq-cycle (check_dependencies targets deps) (check_dependencies-ne-cycle targets deps) h in
    let known = check_dependencies-Known targets deps checked in
    unfold first_adjacency first_degrees in
    dag_loop-cycle targets deps known (first_adjacency targets deps known)
      (first_adjacency-targets_of targets deps known) (suc (length targets)) mc
      (first_degrees targets deps known) 0 [] d (first-Loop targets deps known) run

unmet-waits :
    (among done : List String) (ds : List Dependency) (k : String)
    → ((j : String) → elem j among ≡ true → elem j done ≡ false)
    → any (waits_in among k) ds ≡ true
    → 0 < unmet ds done k
unmet-waits among done [] k apart h = cc
unmet-waits among done (d ∷ ds) k apart h =
    ground (arith, apart d.from, unmet-waits among done ds k apart)

Met-unmet :
    (deps : List Dependency) (done ts : List String) (k : String)
    → Met deps done ts
    → elem k ts ≡ true
    → unmet deps done k ≡ 0
Met-unmet deps done [] k m h = cc
Met-unmet deps done (t ∷ ts) k m h = elim (Bool-cases (t == k)) [
  | inl e ↦ rw ((eq_iff t k).0 e) at m.0
  | inr e ↦ Met-unmet deps done ts k m.1 (ground arith)
]

Met-apart :
    (deps : List Dependency) (among done ts : List String)
    → IsStuck deps among
    → ((k : String) → elem k among ≡ true → elem k done ≡ false)
    → Met deps done ts
    → (k : String) → elem k among ≡ true
    → elem k ts ≡ false
Met-apart deps among done ts s apart m k h =
    ground (arith, Met-unmet deps done ts k m, unmet-waits among done deps k apart (s.1 k h))

Layered-apart :
    (deps : List Dependency) (among done : List String) (ss : List ExecutionStage)
    → IsStuck deps among
    → ((k : String) → elem k among ≡ true → elem k done ≡ false)
    → Layered deps done ss
    → (k : String) → elem k among ≡ true
    → elem k (done_of ss) ≡ false
Layered-apart deps among done [] s apart l k h = refl
Layered-apart deps among done (r ∷ ss) s apart l k h =
    let now = Met-apart deps among done r.targets s apart l.0 in
    ground (
      arith,
      now k h,
      elem-append k r.targets (done_of ss),
      Layered-apart deps among (done ++ r.targets) ss s
          (λ j g. ground (arith, apart j g, now j g, elem-append j done r.targets)) l.1 k h,
    )

-- `PlanDAG` never succeeds where some targets, at least one, each depend on one of them.
pub plan_dag-acyclic :
    (targets : List String) (deps : List Dependency) (mc : ℤ) (plan : ExecutionPlan)
    (among : List String)
    → IsStuck deps among
    → ((k : String) → elem k among ≡ true → elem k targets ≡ true)
    → plan_dag targets deps mc ≢ ok plan
plan_dag-acyclic targets deps mc plan [] stuck sub h = elim stuck.0 [ ]
plan_dag-acyclic targets deps mc plan (k ∷ among) stuck sub h =
    let (layered, once) = plan_dag-Layered targets deps mc plan h in
    let here : elem k (k ∷ among) ≡ true = ground (arith, eq_refl k) in
    ground (
      arith,
      Layered-apart deps (k ∷ among) [] plan.stages stuck (λ j g. refl) layered k here,
      once k,
      sub k here,
      elem-occurrences k (done_of plan.stages),
    )
