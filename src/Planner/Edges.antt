-- ===== src/Planner/Edges.antt =====
-- Counting the dependencies: what the adjacency lists and the in-degrees stand for.
use mathlib.Core.List.{append-nil, append_assoc}
use hibernator.Prelude.{
  ℕ, ◌+◌, ◌≤◌, String, ◌≡◌, refl, true, false, not, ◌&&◌, List, [], ◌∷◌, ◌++◌, some, arith, ◌==◌,
  eq_iff, if◌then◌else◌, elem, elem-append, occurrences, Map, lookup, insert, lookup-insert,
  insert-Unique, Unique,
}
use hibernator.Prelude.Int.{ℤ, pos, ◌+ℤ◌}
use hibernator.Planner.{
  Dependency, ok, check_dependencies, successors, degree, empty_adjacency, zero_degrees,
  add_successors, add_degrees,
}

-- The dependencies of `k` whose source is not in `done`.
abbrev pub unmet : List Dependency → List String → String → ℕ
unmet [] done k = 0
unmet (d ∷ ds) done k = (if d.to == k && not (elem d.from done) then 1 else 0) + unmet ds done k

-- The dependencies from `t` to `k`.
abbrev pub edges : List Dependency → String → String → ℕ
edges [] t k = 0
edges (d ∷ ds) t k = (if d.from == t && d.to == k then 1 else 0) + edges ds t k

abbrev pub targets_of : List Dependency → String → List String
targets_of [] t = []
targets_of (d ∷ ds) t = if d.from == t then d.to ∷ targets_of ds t else targets_of ds t

pub occurrences-targets_of :
    (ds : List Dependency) (t k : String) → occurrences k (targets_of ds t) ≡ edges ds t k
occurrences-targets_of [] t k = refl
occurrences-targets_of (d ∷ ds) t k = ground (arith, occurrences-targets_of ds t k)

pub edges-le-unmet :
    (ds : List Dependency) (done : List String) (t k : String)
    → elem t done ≡ false
    → edges ds t k ≤ unmet ds done k
edges-le-unmet [] done t k h = omega arith
edges-le-unmet (d ∷ ds) done t k h = ground (arith, eq_iff d.from t, edges-le-unmet ds done t k h)

-- When `t` is done, the dependencies from `t` are met.
pub unmet-append :
    (ds : List Dependency) (done : List String) (t k : String)
    → elem t done ≡ false
    → unmet ds done k ≡ unmet ds (done ++ t ∷ []) k + edges ds t k
unmet-append [] done t k h = omega arith
unmet-append (d ∷ ds) done t k h = ground (
  arith,
  eq_iff d.from t,
  eq_iff t d.from,
  elem-append d.from done (t ∷ []),
  unmet-append ds done t k h,
)

-- Every dependency is between targets.
abbrev pub Known : List String → List Dependency → Type 0
Known targets [] = Unit {0}
Known targets (d ∷ ds) =
    (elem d.from targets ≡ true) × (elem d.to targets ≡ true) × Known targets ds

pub check_dependencies-Known :
    (targets : List String) (ds : List Dependency)
    → check_dependencies targets ds ≡ ok tt
    → Known targets ds
unfolding check_dependencies
check_dependencies-Known targets [] h = tt
check_dependencies-Known targets (d ∷ ds) h = ground (arith, check_dependencies-Known targets ds)

pub edges-unknown :
    (targets : List String) (ds : List Dependency) (t k : String)
    → Known targets ds
    → elem k targets ≡ false
    → edges ds t k ≡ 0
edges-unknown targets [] t k h e = refl
edges-unknown targets (d ∷ ds) t k h e =
    ground (arith, eq_iff d.to k, edges-unknown targets ds t k h.2 e)

pub lookup-empty_adjacency :
    (ts : List String) (adj : Map (List String)) (k : String)
    → lookup k (empty_adjacency ts adj) ≡ (if elem k ts then some [] else lookup k adj)
unfolding empty_adjacency
lookup-empty_adjacency [] adj k = refl
lookup-empty_adjacency (t ∷ ts) adj k =
    ground (arith, lookup-insert t k [] adj, lookup-empty_adjacency ts (insert t [] adj) k)

pub lookup-zero_degrees :
    (ts : List String) (deg : Map ℤ) (k : String)
    → lookup k (zero_degrees ts deg) ≡ (if elem k ts then some (pos 0) else lookup k deg)
unfolding zero_degrees
lookup-zero_degrees [] deg k = refl
lookup-zero_degrees (t ∷ ts) deg k =
    ground (arith, lookup-insert t k (pos 0) deg, lookup-zero_degrees ts (insert t (pos 0) deg) k)

pub zero_degrees-Unique :
    (ts : List String) (deg : Map ℤ) → Unique deg → Unique (zero_degrees ts deg)
unfolding zero_degrees
zero_degrees-Unique [] deg u = u
zero_degrees-Unique (t ∷ ts) deg u =
    zero_degrees-Unique ts (insert t (pos 0) deg) (insert-Unique t (pos 0) deg u)

pub lookup-add_successors :
    (ds : List Dependency) (adj : Map (List String)) (k : String) (ns : List String)
    → lookup k adj ≡ some ns
    → lookup k (add_successors ds adj) ≡ some (ns ++ targets_of ds k)
unfolding add_successors
lookup-add_successors [] adj k ns h = rw append-nil h
lookup-add_successors (d ∷ ds) adj k ns h =
    let adj' = insert d.from (successors d.from adj ++ d.to ∷ []) adj in
    ground (
      arith,
      eq_iff d.from k,
      lookup-insert d.from k (successors d.from adj ++ d.to ∷ []) adj,
      lookup-add_successors ds adj' k ns,
      lookup-add_successors ds adj' k (ns ++ d.to ∷ []),
      append_assoc ns (d.to ∷ []) (targets_of ds k),
    )

pub lookup-add_degrees :
    (ds : List Dependency) (deg : Map ℤ) (k : String) (n : ℕ)
    → lookup k deg ≡ some (pos n)
    → lookup k (add_degrees ds deg) ≡ some (pos (n + unmet ds [] k))
unfolding add_degrees ◌+ℤ◌
lookup-add_degrees [] deg k n h = ground arith
lookup-add_degrees (d ∷ ds) deg k n h =
    let deg' = insert d.to (degree d.to deg +ℤ pos 1) deg in
    ground (
      arith,
      eq_iff d.to k,
      lookup-insert d.to k (degree d.to deg +ℤ pos 1) deg,
      lookup-add_degrees ds deg' k n,
      lookup-add_degrees ds deg' k (n + 1),
    )

pub lookup-add_degrees_unknown :
    (targets : List String) (ds : List Dependency) (deg : Map ℤ) (k : String)
    → Known targets ds
    → elem k targets ≡ false
    → lookup k (add_degrees ds deg) ≡ lookup k deg
unfolding add_degrees
lookup-add_degrees_unknown targets [] deg k h e = refl
lookup-add_degrees_unknown targets (d ∷ ds) deg k h e =
    let deg' = insert d.to (degree d.to deg +ℤ pos 1) deg in
    ground (
      arith,
      eq_iff d.to k,
      lookup-insert d.to k (degree d.to deg +ℤ pos 1) deg,
      lookup-add_degrees_unknown targets ds deg' k h.2 e,
    )

pub add_degrees-Unique :
    (ds : List Dependency) (deg : Map ℤ) → Unique deg → Unique (add_degrees ds deg)
unfolding add_degrees
add_degrees-Unique [] deg u = u
add_degrees-Unique (d ∷ ds) deg u =
    add_degrees-Unique ds (insert d.to (degree d.to deg +ℤ pos 1) deg)
      (insert-Unique d.to (degree d.to deg +ℤ pos 1) deg u)
