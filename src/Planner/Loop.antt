-- ===== src/Planner/Loop.antt =====
-- The loop of `PlanDAG`: what each round keeps, and that it ends.
use hibernator.Prelude.{
  ℕ, zero, suc, ◌+◌, ◌≤◌, ◌<◌, String, ◌≡◌, ◌≢◌, Bool, true, false, inl, inr, Bool-cases, List, [],
  ◌∷◌, ◌++◌, arith, if◌then◌else◌, ltb, eqb, elem, length, length-append, occurrences,
  occurrences-Distinct, Distinct, Distinct-append, Distinct-covers, Map, lookup, any, ◌==◌, ap,
  subst, eq_iff, ◌&&◌, some,
}
use hibernator.Prelude.Int.{ℤ}
use hibernator.Planner.{
  Dependency, ExecutionStage, ExecutionPlan, ok, err, out_of_fuel, concurrency, ready_keys, sort,
  remove_ready, dag_loop,
}
use hibernator.Planner.Order.{elem-sort, sort-Distinct, ready_keys-zero, ready_keys-Distinct}
use hibernator.Planner.Edges.{targets_of, Known}
use hibernator.Planner.Rounds.{Inv, Ready, Ready-all, remove_ready-Inv}
use hibernator.Planner.Layers.{done_of, done_of-snoc, Met, Layered, Layered-snoc}

ok-injective : {a b : ExecutionPlan} → ok a ≡ ok b → a ≡ b
ok-injective h = cc

module _ (targets : List String) (deps : List Dependency) (known : Known targets deps)
    (adj : Map (List String))
    (adj_ok : (t : String) → elem t targets ≡ true → lookup t adj ≡ some (targets_of deps t)) where
  -- What holds of the loop's variables at the head of the loop.
  pub record Loop (stages : List ExecutionStage) (deg : Map ℤ) (processed : ℕ) : Type 0 where
    pub inv : Inv targets deps known adj adj_ok (done_of stages) deg
    pub distinct : Distinct (done_of stages)
    pub layered : Layered deps [] stages
    pub counted : processed ≡ length (done_of stages)

  Ready-Met :
      (done ts : List String) → Ready targets deps known adj adj_ok done ts → Met deps done ts
  Ready-Met done [] r = tt
  Ready-Met done (t ∷ ts) r = (r.2, Ready-Met done ts r.3)

  apart_of_Ready :
      (done ts : List String)
      → Ready targets deps known adj adj_ok done ts
      → (k : String) → elem k ts ≡ true
      → elem k done ≡ false
  apart_of_Ready done [] r k h = cc
  apart_of_Ready done (t ∷ ts) r k h = ground (arith, eq_iff t k, apart_of_Ready done ts r.3 k)

  pub round-Loop :
      (mc : ℤ) (stages : List ExecutionStage) (deg : Map ℤ) (processed : ℕ)
      → Loop stages deg processed
      → let ready = sort (ready_keys deg) in
        Loop
          (stages ++ record { targets = ready; max_concurrency = concurrency mc ready } ∷ [])
          (remove_ready adj ready deg)
          (processed + length ready)
  round-Loop mc stages deg processed l =
      let ready = sort (ready_keys deg) in
      let stage : ExecutionStage = record {
        targets = ready;
        max_concurrency = concurrency mc ready;
      } in
      let unique = l.inv.unique in
      let all_ready : Ready targets deps known adj adj_ok (done_of stages) ready =
        Ready-all targets deps known adj adj_ok (done_of stages) deg ready l.inv
          (λ k h. ready_keys-zero k deg unique (rw (elem-sort k (ready_keys deg)) at h)) in
      let ready-Distinct : Distinct ready =
        sort-Distinct (ready_keys deg) (ready_keys-Distinct deg unique) in
      record {
        inv = rw (done_of-snoc stages stage) (
            remove_ready-Inv targets deps known adj adj_ok ready (done_of stages) deg all_ready
              ready-Distinct l.inv);
        distinct = rw (done_of-snoc stages stage) (
            Distinct-append (done_of stages) ready l.distinct ready-Distinct
              (apart_of_Ready (done_of stages) ready all_ready));
        layered =
            Layered-snoc deps [] stages stage l.layered
              (Ready-Met (done_of stages) ready all_ready);
        counted = omega (
          arith,
          l.counted,
          ap length (done_of-snoc stages stage),
          length-append (done_of stages) ready,
        );
      }

  abbrev pub Sound : ExecutionPlan → Type 0
  Sound plan =
      Layered deps [] plan.stages
      × ((k : String) → occurrences k (done_of plan.stages) ≡ (if elem k targets then 1 else 0))

  end-Sound :
      (stages : List ExecutionStage) (deg : Map ℤ) (processed : ℕ)
      → Loop stages deg processed
      → length targets ≤ processed
      → Sound (record { stages = stages })
  end-Sound stages deg processed l le = (
    l.layered,
    λ k. ground (
      arith,
      occurrences-Distinct k (done_of stages) l.distinct,
      l.inv.within k,
      Distinct-covers (done_of stages) targets l.distinct l.inv.within (omega (arith, l.counted)) k,
    ),
  )

  pub dag_loop-Sound :
      (fuel : ℕ) (mc : ℤ) (deg : Map ℤ) (processed : ℕ) (stages : List ExecutionStage)
      (plan : ExecutionPlan)
      → Loop stages deg processed
      → dag_loop fuel (length targets) mc adj deg processed stages ≡ ok plan
      → Sound plan
  unfolding dag_loop
  dag_loop-Sound zero mc deg processed stages plan l h = cc
  dag_loop-Sound (suc fuel) mc deg processed stages plan l h =
      let ready = sort (ready_keys deg) in
      elim (Bool-cases (ltb processed (length targets))) [
        | inr e ↦
            subst Sound (ok-injective (rw e at h)) (end-Sound stages deg processed l (ground arith))
        | inl e ↦ elim (Bool-cases (eqb (length ready) 0)) [
          | inl stuck ↦ cc (rw (e, stuck) at h)
          | inr more ↦
              dag_loop-Sound fuel mc (remove_ready adj ready deg) (processed + length ready)
                (stages ++ record { targets = ready; max_concurrency = concurrency mc ready } ∷ [])
                plan (round-Loop mc stages deg processed l) (rw (e, more) at h)
        ]
      ]

-- The fuel of the model is enough for every input, also for one that names a target twice.
pub dag_loop-ne-out_of_fuel :
    (fuel total : ℕ) (mc : ℤ) (adj : Map (List String)) (deg : Map ℤ) (processed : ℕ)
    (stages : List ExecutionStage)
    → 0 < fuel
    → total < processed + fuel
    → dag_loop fuel total mc adj deg processed stages ≢ err out_of_fuel
unfolding dag_loop
dag_loop-ne-out_of_fuel zero total mc adj deg processed stages h k = elim h [ ]
dag_loop-ne-out_of_fuel (suc fuel) total mc adj deg processed stages h k =
    let ready = sort (ready_keys deg) in
    ground (
      arith,
      dag_loop-ne-out_of_fuel fuel total mc adj (remove_ready adj ready deg)
          (processed + length ready)
          (stages ++ record { targets = ready; max_concurrency = concurrency mc ready } ∷ []),
    )

-- `any (waits_in S k)`: some dependency of `k` has its source in `S`.
abbrev pub waits_in : List String → String → Dependency → Bool
waits_in among k d = d.to == k && elem d.from among

abbrev pub IsStuck : List Dependency → List String → Type 0
IsStuck deps among =
    (0 < length among) × ((k : String) → elem k among ≡ true → any (waits_in among k) deps ≡ true)
