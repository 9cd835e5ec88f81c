-- ===== src/Planner/Order.antt =====
-- The sort keeps the texts of a list, and the ready nodes are the keys of in-degree 0.
use hibernator.Prelude.{
  String, ◌≡◌, refl, true, false, List, [], ◌∷◌, none, some, arith, eq_iff, elem, Distinct, length,
  Map, lookup, Unique,
}
use hibernator.Prelude.Int.{ℤ, pos}
use hibernator.Planner.{insert_sorted, sort, ready_keys}

elem-insert_sorted :
    (k s : String) (ts : List String) → elem k (insert_sorted s ts) ≡ elem k (s ∷ ts)
unfolding insert_sorted
elem-insert_sorted k s [] = refl
elem-insert_sorted k s (t ∷ ts) = ground (arith, elem-insert_sorted k s ts)

pub elem-sort : (k : String) (ts : List String) → elem k (sort ts) ≡ elem k ts
unfolding sort
elem-sort k [] = refl
elem-sort k (t ∷ ts) = ground (arith, elem-insert_sorted k t (sort ts), elem-sort k ts)

insert_sorted-Distinct :
    (s : String) (ts : List String)
    → elem s ts ≡ false
    → Distinct ts
    → Distinct (insert_sorted s ts)
unfolding insert_sorted
insert_sorted-Distinct s [] h d = (refl, tt)
insert_sorted-Distinct s (t ∷ ts) h d =
    ground (arith, eq_iff s t, eq_iff t s, elem-insert_sorted t s ts, insert_sorted-Distinct s ts)

pub sort-Distinct : (ts : List String) → Distinct ts → Distinct (sort ts)
unfolding sort
sort-Distinct [] d = tt
sort-Distinct (t ∷ ts) d =
    insert_sorted-Distinct t (sort ts) (ground (arith, elem-sort t ts)) (sort-Distinct ts d.1)

length-insert_sorted :
    (s : String) (ts : List String) → length (insert_sorted s ts) ≡ length (s ∷ ts)
unfolding insert_sorted
length-insert_sorted s [] = refl
length-insert_sorted s (t ∷ ts) = ground (arith, length-insert_sorted s ts)

pub length-sort : (ts : List String) → length (sort ts) ≡ length ts
unfolding sort
length-sort [] = refl
length-sort (t ∷ ts) = omega (arith, length-insert_sorted t (sort ts), length-sort ts)

missing_not_ready :
    (k : String) (deg : Map ℤ) → lookup k deg ≡ none → elem k (ready_keys deg) ≡ false
unfolding ready_keys lookup
missing_not_ready k [] h = refl
missing_not_ready k ((t, n) ∷ deg) h = ground (arith, missing_not_ready k deg)

pub ready_keys-zero :
    (k : String) (deg : Map ℤ)
    → Unique deg
    → elem k (ready_keys deg) ≡ true
    → lookup k deg ≡ some (pos 0)
unfolding ready_keys lookup
ready_keys-zero k [] u h = cc
ready_keys-zero k ((t, n) ∷ deg) u h =
    ground (arith, eq_iff t k, ready_keys-zero k deg u.1, missing_not_ready k deg)

pub zero-ready_keys :
    (k : String) (deg : Map ℤ) → lookup k deg ≡ some (pos 0) → elem k (ready_keys deg) ≡ true
unfolding ready_keys lookup
zero-ready_keys k [] h = cc
zero-ready_keys k ((t, n) ∷ deg) h = ground (arith, zero-ready_keys k deg)

pub ready_keys-Distinct : (deg : Map ℤ) → Unique deg → Distinct (ready_keys deg)
unfolding ready_keys
ready_keys-Distinct [] u = tt
ready_keys-Distinct ((t, n) ∷ deg) u =
    ground (arith, ready_keys-Distinct deg u.1, missing_not_ready t deg)
