-- ===== src/Prelude/Lists.antt =====
-- Lists measured by native numbers, and lists of texts as finite sets.
use Prim.Native.Nat.{ℕ, zero, suc, ◌+◌, ◌-◌, ◌≤◌, ◌<◌}
use Prim.Native.String.{String}
use mathlib.Core.Path.{◌≡◌, refl}
use mathlib.Core.Bool.{Bool, true, false, ◌&&◌, ◌||◌}
use mathlib.Core.Option.{Option, none, some}
use mathlib.Core.List.{List, [], ◌∷◌, ◌++◌}
use native.Mathlib.Omega.{arith}
use mathlib.Core.Logic.{inl, inr}
use hibernator.Prelude.Tests.{◌==◌, if◌then◌else◌, eq_iff, eq_refl, Bool-cases}

module _ {ℓ} {A : Type ℓ} where
  abbrev pub length : List A → ℕ
  length [] = 0
  length (x ∷ xs) = suc (length xs)

  abbrev pub get_elem? : List A → ℕ → Option A
  get_elem? [] i = none
  get_elem? (x ∷ xs) zero = some x
  get_elem? (x ∷ xs) (suc i) = get_elem? xs i

  abbrev pub drop : ℕ → List A → List A
  drop zero xs = xs
  drop (suc n) [] = []
  drop (suc n) (x ∷ xs) = drop n xs

  abbrev pub any : (A → Bool) → List A → Bool
  any p [] = false
  any p (x ∷ xs) = p x || any p xs

  abbrev pub all : (A → Bool) → List A → Bool
  all p [] = true
  all p (x ∷ xs) = p x && all p xs

  abbrev pub filter : (A → Bool) → List A → List A
  filter p [] = []
  filter p (x ∷ xs) = if p x then x ∷ filter p xs else filter p xs

  -- Both parts of an empty list are empty.
  pub append-empty : (xs ys : List A) → xs ++ ys ≡ [] → (xs ≡ []) × (ys ≡ [])
  append-empty [] ys h = (refl, h)
  append-empty (x ∷ xs) ys h = cc

  pub length-append : (xs ys : List A) → length (xs ++ ys) ≡ length xs + length ys
  length-append [] ys = omega arith
  length-append (x ∷ xs) ys = omega (arith, length-append xs ys)

  pub length-drop : (n : ℕ) (xs : List A) → length (drop n xs) ≡ length xs - n
  length-drop zero xs = omega arith
  length-drop (suc n) [] = omega arith
  length-drop (suc n) (x ∷ xs) = omega (arith, length-drop n xs)

  pub length-filter-le : (p : A → Bool) (xs : List A) → length (filter p xs) ≤ length xs
  length-filter-le p [] = omega arith
  length-filter-le p (x ∷ xs) = ground (arith, length-filter-le p xs)

abbrev pub flatten : List (List String) → List String
flatten [] = []
flatten (x ∷ xs) = x ++ flatten xs

-- Membership, as a test.
abbrev pub elem : String → List String → Bool
elem k [] = false
elem k (x ∷ xs) = x == k || elem k xs

-- How often a text stands in a list.
abbrev pub occurrences : String → List String → ℕ
occurrences k [] = 0
occurrences k (x ∷ xs) = (if x == k then 1 else 0) + occurrences k xs

pub elem-append : (k : String) (xs ys : List String) → elem k (xs ++ ys) ≡ (elem k xs || elem k ys)
elem-append k [] ys = refl
elem-append k (x ∷ xs) ys = ground (arith, elem-append k xs ys)

pub occurrences-append :
    (k : String) (xs ys : List String)
    → occurrences k (xs ++ ys) ≡ occurrences k xs + occurrences k ys
occurrences-append k [] ys = omega arith
occurrences-append k (x ∷ xs) ys = omega (arith, occurrences-append k xs ys)

-- No text stands twice in the list.
abbrev pub Distinct : List String → Type 0
Distinct [] = Unit {0}
Distinct (x ∷ xs) = (elem x xs ≡ false) × Distinct xs

pub occurrences-Distinct :
    (k : String) (xs : List String) → Distinct xs → occurrences k xs ≡ (if elem k xs then 1 else 0)
occurrences-Distinct k [] d = refl
occurrences-Distinct k (x ∷ xs) d = ground (arith, eq_iff x k, occurrences-Distinct k xs d.1)

pub Distinct-append :
    (xs ys : List String)
    → Distinct xs
    → Distinct ys
    → ((k : String) → elem k ys ≡ true → elem k xs ≡ false)
    → Distinct (xs ++ ys)
Distinct-append [] ys d e apart = e
Distinct-append (x ∷ xs) ys d e apart =
    let rest : Distinct (xs ++ ys) =
      Distinct-append xs ys d.1 e (λ k h. ground (arith, apart k h)) in
    ground (arith, rest, elem-append x xs ys, apart x, eq_refl x)

abbrev without : String → List String → List String
without x [] = []
without x (y ∷ ys) = if x == y then without x ys else y ∷ without x ys

elem-without :
    (x k : String) (ys : List String)
    → elem k (without x ys) ≡ (if x == k then false else elem k ys)
elem-without x k [] = ground arith
elem-without x k (y ∷ ys) = ground (arith, eq_iff x k, eq_iff x y, eq_iff y k, elem-without x k ys)

length-without-le : (x : String) (ys : List String) → length (without x ys) ≤ length ys
length-without-le x [] = omega arith
length-without-le x (y ∷ ys) = ground (arith, length-without-le x ys)

length-without :
    (x : String) (ys : List String) → elem x ys ≡ true → length (without x ys) < length ys
length-without x [] h = cc
length-without x (y ∷ ys) h =
    ground (arith, eq_iff x y, eq_iff y x, length-without x ys, length-without-le x ys)

-- The pigeonhole principle: distinct texts of a list are at most as many as the list is long.
pub Distinct-length-le :
    (xs ys : List String)
    → Distinct xs
    → ((k : String) → elem k xs ≡ true → elem k ys ≡ true)
    → length xs ≤ length ys
Distinct-length-le [] ys d sub = omega arith
Distinct-length-le (x ∷ xs) ys d sub = ground (
  arith,
  eq_refl x,
  sub x,
  length-without x ys,
  Distinct-length-le xs (without x ys) d.1
      (λ k h. ground (arith, eq_iff x k, elem-without x k ys, sub k)),
)

-- So as many distinct texts of a list as it is long are all of them.
pub Distinct-covers :
    (xs ys : List String)
    → Distinct xs
    → ((k : String) → elem k xs ≡ true → elem k ys ≡ true)
    → length ys ≤ length xs
    → (k : String) → elem k ys ≡ true
    → elem k xs ≡ true
Distinct-covers xs ys d sub le k h = elim (Bool-cases (elem k xs)) [
  | inl e ↦ e
  | inr e ↦ absurd (
      omega
        (arith, Distinct-length-le (k ∷ xs) ys (e, d) (λ j g. ground (arith, eq_iff k j, sub j))))
]

pub elem-filter :
    (k : String) (p : String → Bool) (xs : List String) → elem k (filter p xs) ≡ (elem k xs && p k)
elem-filter k p [] = refl
elem-filter k p (x ∷ xs) = elim (Bool-cases (x == k)) [
  | inl e ↦ rw ((eq_iff x k).0 e) (ground (arith, eq_refl k, elem-filter k p xs))
  | inr e ↦ ground (arith, elem-filter k p xs)
]

-- A list with an element has one that passes, or the filter is empty.
pub filter-empty :
    (p : String → Bool) (xs : List String) (k : String)
    → length (filter p xs) ≡ 0
    → elem k xs ≡ true
    → p k ≡ false
filter-empty p xs k h e = elim (Bool-cases (p k)) [
  | inl passes ↦ absurd (nonempty (filter p xs) h (ground (arith, elem-filter k p xs)))
  | inr fails ↦ fails
]
  where
    nonempty : (ys : List String) → length ys ≡ 0 → elem k ys ≡ true → ⊥
    nonempty [] n m = cc
    nonempty (y ∷ ys) n m = omega arith

pub elem-occurrences : (k : String) (xs : List String) → elem k xs ≡ false → occurrences k xs ≡ 0
elem-occurrences k [] h = refl
elem-occurrences k (x ∷ xs) h = ground (arith, elem-occurrences k xs)
