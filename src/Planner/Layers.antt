-- ===== src/Planner/Layers.antt =====
-- A plan in layers: no stage runs a target before what it depends on.
use mathlib.Core.List.{append-nil, append_assoc}
use hibernator.Prelude.{String, ◌≡◌, sym, ap, ◌∙◌, List, [], ◌∷◌, ◌++◌}
use hibernator.Planner.{Dependency, ExecutionStage}
use hibernator.Planner.Edges.{unmet}

abbrev pub done_of : List ExecutionStage → List String
done_of [] = []
done_of (s ∷ ss) = s.targets ++ done_of ss

pub done_of-snoc :
    (ss : List ExecutionStage) (s : ExecutionStage)
    → done_of (ss ++ s ∷ []) ≡ done_of ss ++ s.targets
done_of-snoc [] s = append-nil s.targets
done_of-snoc (r ∷ ss) s =
    ap (◌++◌ r.targets) (done_of-snoc ss s) ∙ sym (append_assoc r.targets (done_of ss) s.targets)

module _ (deps : List Dependency) where
  -- None of the targets depends on one outside `done`.
  abbrev pub Met : List String → List String → Type 0
  Met done [] = Unit {0}
  Met done (t ∷ ts) = (unmet deps done t ≡ 0) × Met done ts

  -- All that a stage depends on is in `done` or in an earlier stage.
  abbrev pub Layered : List String → List ExecutionStage → Type 0
  Layered done [] = Unit {0}
  Layered done (s ∷ ss) = Met done s.targets × Layered (done ++ s.targets) ss

  pub Layered-snoc :
      (done : List String) (ss : List ExecutionStage) (s : ExecutionStage)
      → Layered done ss
      → Met (done ++ done_of ss) s.targets
      → Layered done (ss ++ s ∷ [])
  Layered-snoc done [] s l m = (rw append-nil at m, tt)
  Layered-snoc done (r ∷ ss) s l m =
      (l.0, Layered-snoc (done ++ r.targets) ss s l.1 (rw append_assoc m))
