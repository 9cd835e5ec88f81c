-- ===== src/Planner.antt =====
-- Execution planning, internal/scheduler/planner.go: from the targets of a plan to its stages.
-- A Go error is a value of `PlannerError`, and a map with text keys is a `Map`. `range` over a map
-- yields its keys in any order; here it is the order of the association list, and the sort that
-- follows it in the source stands here too.
pub mod Order
pub mod Edges
pub mod Rounds
pub mod Layers
pub mod Loop
pub mod Dag
pub mod Cycles
pub mod Strategies
use Prim.Native.String.{compare}
use Prim.Native.Nat.{Ordering}
use hibernator.Prelude.{
  ℕ, zero, suc, ◌+◌, String, Bool, true, false, not, List, [], ◌∷◌, ◌++◌, map, Option, none, some,
  ltb, eqb, if◌then◌else◌, elem, length, Map, lookup, insert, erase,
}
use hibernator.Prelude.Int.{ℤ, pos, ◌+ℤ◌, ◌-ℤ◌, leb_ℤ, eqb_ℤ, int32}

pub record Dependency : Type 0 where
  pub from : String
  pub to : String

pub record Stage : Type 0 where
  pub name : String
  pub parallel : Bool
  pub max_concurrency : ℤ
  pub targets : List String

pub record ExecutionStage : Type 0 where
  pub targets : List String
  pub max_concurrency : ℤ

pub record ExecutionPlan : Type 0 where
  pub stages : List ExecutionStage

-- `out_of_fuel` is the model's own: see `Dag.plan_dag-ne-out_of_fuel`.
pub data PlannerError : Type 0 where
  target_not_found : String → PlannerError
  cycle_detected : PlannerError
  out_of_fuel : PlannerError

pub data Result (A : Type 0) : Type 0 where
  ok : A → Result A
  err : PlannerError → Result A

infixl 5 ◌>>=◌ ◌>>◌
abbrev pub ◌>>=◌ : {A B : Type 0} → Result A → (A → Result B) → Result B
ok a >>= f = f a
err e >>= f = err e

abbrev pub ◌>>◌ : {B : Type 0} → Result (Unit {0}) → Result B → Result B
m >> k = m >>= λ _. k

unfoldable pub plan_sequential : List String → ExecutionPlan
plan_sequential targets = record {
  stages = map (λ t. record { targets = t ∷ []; max_concurrency = pos 1 }) targets;
}

-- `if maxConcurrency <= 0 { maxConcurrency = int32(len(targets)) }`
unfoldable pub concurrency : ℤ → List String → ℤ
concurrency max_concurrency targets =
    if leb_ℤ max_concurrency (pos 0) then int32 (length targets) else max_concurrency

unfoldable pub plan_parallel : List String → ℤ → ExecutionPlan
unfolding concurrency
plan_parallel targets max_concurrency = record {
  stages = record { targets = targets; max_concurrency = concurrency max_concurrency targets } ∷ [];
}

unfoldable pub staged_concurrency : Stage → ℤ → ℤ
unfolding concurrency
staged_concurrency s global =
    if leb_ℤ s.max_concurrency (pos 0)
    then (if s.parallel then concurrency global s.targets else pos 1)
    else s.max_concurrency

unfoldable pub plan_staged : List Stage → ℤ → ExecutionPlan
unfolding staged_concurrency
plan_staged stages global = record {
  stages =
      map (λ s. record { targets = s.targets; max_concurrency = staged_concurrency s global })
        stages;
}

-- The loop that refuses a dependency on an unknown target.
unfoldable pub check_dependencies : List String → List Dependency → Result (Unit {0})
check_dependencies targets [] = ok tt
check_dependencies targets (d ∷ ds) =
    if not (elem d.from targets)
    then err (target_not_found d.from)
    else if not (elem d.to targets)
    then err (target_not_found d.to)
    else check_dependencies targets ds

-- Reading a missing key of a Go map gives the zero value.
abbrev pub successors : String → Map (List String) → List String
successors t adj = elim (lookup t adj) [ none ↦ [] | some ns ↦ ns ]

abbrev pub degree : String → Map ℤ → ℤ
degree t deg = elim (lookup t deg) [ none ↦ pos 0 | some n ↦ n ]

unfoldable pub empty_adjacency : List String → Map (List String) → Map (List String)
empty_adjacency [] adj = adj
empty_adjacency (t ∷ ts) adj = empty_adjacency ts (insert t [] adj)

unfoldable pub zero_degrees : List String → Map ℤ → Map ℤ
zero_degrees [] deg = deg
zero_degrees (t ∷ ts) deg = zero_degrees ts (insert t (pos 0) deg)

-- `adj[d.From] = append(adj[d.From], d.To)`, for each dependency.
unfoldable pub add_successors : List Dependency → Map (List String) → Map (List String)
add_successors [] adj = adj
add_successors (d ∷ ds) adj =
    add_successors ds (insert d.from (successors d.from adj ++ d.to ∷ []) adj)

-- `inDegree[d.To]++`, for each dependency.
unfoldable pub add_degrees : List Dependency → Map ℤ → Map ℤ
add_degrees [] deg = deg
add_degrees (d ∷ ds) deg = add_degrees ds (insert d.to (degree d.to deg +ℤ pos 1) deg)

-- The keys of in-degree 0.
unfoldable pub ready_keys : Map ℤ → List String
ready_keys [] = []
ready_keys ((t, n) ∷ deg) = if eqb_ℤ n (pos 0) then t ∷ ready_keys deg else ready_keys deg

-- `sort.Strings`.
abbrev text_leb : String → String → Bool
text_leb s t = elim (compare s t) [ Ordering.gt ↦ false | _ ↦ true ]

unfoldable pub insert_sorted : String → List String → List String
insert_sorted s [] = s ∷ []
insert_sorted s (t ∷ ts) = if text_leb s t then s ∷ t ∷ ts else t ∷ insert_sorted s ts

unfoldable pub sort : List String → List String
sort [] = []
sort (s ∷ ts) = insert_sorted s (sort ts)

-- `inDegree[neighbor]--`, for each neighbor.
unfoldable pub decrement_all : List String → Map ℤ → Map ℤ
decrement_all [] deg = deg
decrement_all (n ∷ ns) deg = decrement_all ns (insert n (degree n deg -ℤ pos 1) deg)

-- The loop that removes the processed nodes.
unfoldable pub remove_ready : Map (List String) → List String → Map ℤ → Map ℤ
remove_ready adj [] deg = deg
remove_ready adj (t ∷ ts) deg = remove_ready adj ts (decrement_all (successors t adj) (erase t deg))

-- `for processed < len(targets)`, on fuel.
unfoldable pub dag_loop :
    ℕ → ℕ → ℤ → Map (List String) → Map ℤ → ℕ → List ExecutionStage → Result ExecutionPlan
dag_loop zero total mc adj deg processed stages = err out_of_fuel
dag_loop (suc fuel) total mc adj deg processed stages =
    let ready = sort (ready_keys deg) in
    let rest =
      dag_loop fuel total mc adj (remove_ready adj ready deg) (processed + length ready)
        (stages ++ record { targets = ready; max_concurrency = concurrency mc ready } ∷ []) in
    if ltb processed total
    then (if eqb (length ready) 0 then err cycle_detected else rest)
    else ok (record { stages = stages })

unfoldable pub plan_dag : List String → List Dependency → ℤ → Result ExecutionPlan
plan_dag targets deps mc = do
  check_dependencies targets deps
  dag_loop (suc (length targets)) (length targets) mc
      (add_successors deps (empty_adjacency targets []))
      (add_degrees deps (zero_degrees targets [])) 0 []

unfoldable pub validate_dag : List String → List Dependency → Option PlannerError
validate_dag targets deps = elim (plan_dag targets deps (pos 0)) [ ok _ ↦ none | err e ↦ some e ]
