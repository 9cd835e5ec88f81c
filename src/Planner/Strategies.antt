-- ===== src/Planner/Strategies.antt =====
-- The strategies that need no sorting: sequential, parallel and staged plans.
use hibernator.Prelude.{ℕ, ◌^◌, ◌<◌, String, ◌≡◌, refl, ap, List, [], ◌∷◌, ◌++◌, arith, length}
use hibernator.Prelude.Int.{ℤ, pos, ◌<ℤ◌, int32}
use hibernator.Planner.{
  Stage, ExecutionStage, concurrency, plan_sequential, staged_concurrency, plan_staged,
}
use hibernator.Planner.Layers.{done_of}

int32-pos : (n : ℕ) → 0 < n → n < 2 ^ 31 → int32 n ≡ pos n
unfolding int32
int32-pos n h k = ground arith

concurrency-pos :
    (mc : ℤ) (targets : List String)
    → 0 < length targets
    → length targets < 2 ^ 31
    → pos 0 <ℤ concurrency mc targets
unfolding concurrency
concurrency-pos mc targets h k = ground (arith, int32-pos (length targets))

staged-pos :
    (s : Stage) (global : ℤ)
    → 0 < length s.targets
    → length s.targets < 2 ^ 31
    → pos 0 <ℤ staged_concurrency s global
unfolding staged_concurrency
staged-pos s global h k = ground (arith, int32-pos (length s.targets))

-- A stage that a plan can hold: some targets, and fewer than 2 ^ 31.
abbrev pub Sized : List String → Type 0
Sized targets = (0 < length targets) × (length targets < 2 ^ 31)

abbrev pub AllSized : List Stage → Type 0
AllSized [] = Unit {0}
AllSized (s ∷ ss) = Sized s.targets × AllSized ss

abbrev pub AllPositive : List ExecutionStage → Type 0
AllPositive [] = Unit {0}
AllPositive (s ∷ ss) = (pos 0 <ℤ s.max_concurrency) × AllPositive ss

abbrev pub flatten_stages : List Stage → List String
flatten_stages [] = []
flatten_stages (s ∷ ss) = s.targets ++ flatten_stages ss

-- A staged plan runs the targets of its stages in their order, each stage under a positive limit,
-- whatever limits the stages and the plan set, where every stage has a target and fewer than 2 ^ 31.
pub plan_staged-AllPositive :
    (stages : List Stage) (global : ℤ)
    → AllSized stages
    → (done_of (plan_staged stages global).stages ≡ flatten_stages stages)
      × AllPositive (plan_staged stages global).stages
unfolding plan_staged
plan_staged-AllPositive [] global h = (refl, tt)
plan_staged-AllPositive (s ∷ ss) global h =
    let rest = plan_staged-AllPositive ss global h.1 in
    (ap (◌++◌ s.targets) rest.0, (staged-pos s global h.0.0 h.0.1, rest.1))

abbrev pub OneEach : List ExecutionStage → Type 0
OneEach [] = Unit {0}
OneEach (s ∷ ss) = (length s.targets ≡ 1) × (s.max_concurrency ≡ pos 1) × OneEach ss

-- A sequential plan runs the targets in the order given, one to a stage.
pub plan_sequential-OneEach :
    (targets : List String)
    → (done_of (plan_sequential targets).stages ≡ targets)
      × OneEach (plan_sequential targets).stages
unfolding plan_sequential
plan_sequential-OneEach [] = (refl, tt)
plan_sequential-OneEach (t ∷ ts) =
    let rest = plan_sequential-OneEach ts in (ap (◌∷◌ t) rest.0, (refl, refl, rest.1))
