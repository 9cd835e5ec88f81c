-- ===== src/Prelude/Maps.antt =====
-- Go's maps with text keys, as association lists that hold each key at most once.
use Prim.Native.String.{String}
use mathlib.Core.Path.{◌≡◌, refl}
use mathlib.Core.Option.{Option, none, some}
use mathlib.Core.List.{List, [], ◌∷◌}
use native.Mathlib.Omega.{arith}
use hibernator.Prelude.Tests.{◌==◌, if◌then◌else◌, eq_iff}

abbrev pub Map {ℓ} : Type ℓ → Type ℓ
Map V = List (String × V)

module _ {ℓ} {V : Type ℓ} where
  unfoldable pub lookup : String → Map V → Option V
  lookup key [] = none
  lookup key ((name, value) ∷ rest) = if name == key then some value else lookup key rest

  -- A key that is there keeps its place.
  unfoldable pub insert : String → V → Map V → Map V
  insert key new [] = (key, new) ∷ []
  insert key new ((name, value) ∷ rest) =
      if name == key then (key, new) ∷ rest else (name, value) ∷ insert key new rest

  unfoldable pub erase : String → Map V → Map V
  erase key [] = []
  erase key ((name, value) ∷ rest) =
      if name == key then erase key rest else (name, value) ∷ erase key rest

  abbrev pub Unique : Map V → Type ℓ
  Unique [] = Unit
  Unique ((name, value) ∷ rest) = (lookup name rest ≡ none) × Unique rest

  pub lookup-insert :
      (key other : String) (new : V) (rest : Map V)
      → lookup other (insert key new rest) ≡ (if key == other then some new else lookup other rest)
  unfolding lookup insert
  lookup-insert key other new [] = refl
  lookup-insert key other new ((name, value) ∷ rest) = ground (
    arith,
    lookup-insert key other new rest,
    eq_iff name other,
    eq_iff name key,
    eq_iff key other,
  )

  pub lookup-erase :
      (key other : String) (rest : Map V)
      → lookup other (erase key rest) ≡ (if key == other then none else lookup other rest)
  unfolding lookup erase
  lookup-erase key other [] = ground arith
  lookup-erase key other ((name, value) ∷ rest) =
      ground
        (arith, lookup-erase key other rest, eq_iff name other, eq_iff name key, eq_iff key other)

  pub insert-Unique :
      (key : String) (new : V) (rest : Map V) → Unique rest → Unique (insert key new rest)
  unfolding lookup insert
  insert-Unique key new [] unique = (refl, tt)
  insert-Unique key new ((name, value) ∷ rest) unique = ground (
    arith,
    insert-Unique key new rest unique.1,
    lookup-insert key name new rest,
    eq_iff name key,
    eq_iff key name,
  )

  pub erase-Unique : (key : String) (rest : Map V) → Unique rest → Unique (erase key rest)
  unfolding lookup erase
  erase-Unique key [] unique = tt
  erase-Unique key ((name, value) ∷ rest) unique = ground (
    arith,
    erase-Unique key rest unique.1,
    lookup-erase key name rest,
    eq_iff name key,
    eq_iff key name,
  )
