-- ===== src/Planner/Rounds.antt =====
-- What the loop of `PlanDAG` keeps: the in-degree of a node that is left counts the dependencies
-- of it that are not met.
use mathlib.Core.List.{append-nil, append_assoc}
use hibernator.Prelude.{
  ℕ, ◌+◌, String, ◌≡◌, refl, true, false, not, ◌&&◌, List, [], ◌∷◌, ◌++◌, none, some, arith, eq_iff,
  eq_refl, if◌then◌else◌, elem, elem-append, occurrences, Distinct, Map, lookup, insert, erase,
  lookup-insert, lookup-erase, insert-Unique, erase-Unique, Unique,
}
use hibernator.Prelude.Int.{ℤ, pos, ◌-ℤ◌}
use hibernator.Planner.{Dependency, successors, degree, decrement_all, remove_ready}
use hibernator.Planner.Edges.{
  unmet, targets_of, occurrences-targets_of, edges-le-unmet, unmet-append, Known, edges-unknown,
}

lookup-decrement_all_other :
    (ns : List String) (deg : Map ℤ) (k : String)
    → occurrences k ns ≡ 0
    → lookup k (decrement_all ns deg) ≡ lookup k deg
unfolding decrement_all
lookup-decrement_all_other [] deg k h = refl
lookup-decrement_all_other (n ∷ ns) deg k h =
    let deg' = insert n (degree n deg -ℤ pos 1) deg in
    ground
      (arith, lookup-insert n k (degree n deg -ℤ pos 1) deg, lookup-decrement_all_other ns deg' k)

lookup-decrement_all :
    (ns : List String) (deg : Map ℤ) (k : String) (u : ℕ)
    → lookup k deg ≡ some (pos (u + occurrences k ns))
    → lookup k (decrement_all ns deg) ≡ some (pos u)
unfolding decrement_all ◌-ℤ◌
lookup-decrement_all [] deg k u h = ground arith
lookup-decrement_all (n ∷ ns) deg k u h =
    let deg' = insert n (degree n deg -ℤ pos 1) deg in
    ground (
      arith,
      eq_iff n k,
      lookup-insert n k (degree n deg -ℤ pos 1) deg,
      lookup-decrement_all ns deg' k u,
    )

decrement_all-Unique : (ns : List String) (deg : Map ℤ) → Unique deg → Unique (decrement_all ns deg)
unfolding decrement_all
decrement_all-Unique [] deg u = u
decrement_all-Unique (n ∷ ns) deg u =
    decrement_all-Unique ns (insert n (degree n deg -ℤ pos 1) deg)
      (insert-Unique n (degree n deg -ℤ pos 1) deg u)

module _ (targets : List String) (deps : List Dependency) (known : Known targets deps)
    (adj : Map (List String))
    (adj_ok : (t : String) → elem t targets ≡ true → lookup t adj ≡ some (targets_of deps t)) where
  pub record Inv (done : List String) (deg : Map ℤ) : Type 0 where
    pub degrees :
        (k : String)
        → lookup k deg
          ≡ (if elem k targets && not (elem k done) then some (pos (unmet deps done k)) else none)
    pub closed : (k : String) → elem k done ≡ true → unmet deps done k ≡ 0
    pub within : (k : String) → elem k done ≡ true → elem k targets ≡ true
    pub unique : Unique deg

  module _ {done : List String} {deg : Map ℤ} (t : String) (inv : Inv done deg)
      (is_target : elem t targets ≡ true) (is_left : elem t done ≡ false)
      (met : unmet deps done t ≡ 0) where
    step_degrees :
        (k : String)
        → lookup k (decrement_all (successors t adj) (erase t deg)) ≡ (
            if elem k targets && not (elem k (done ++ t ∷ []))
            then some (pos (unmet deps (done ++ t ∷ []) k))
            else none)
    step_degrees k =
        rw (adj_ok t is_target, successors)
          (ground (
            arith,
            inv.degrees k,
            inv.closed k,
            eq_iff t k,
            lookup-erase t k deg,
            elem-append k done (t ∷ []),
            unmet-append deps done t k is_left,
            edges-le-unmet deps done t k is_left,
            edges-unknown targets deps t k known,
            occurrences-targets_of deps t k,
            lookup-decrement_all_other (targets_of deps t) (erase t deg) k,
            lookup-decrement_all (targets_of deps t) (erase t deg) k
                (unmet deps (done ++ t ∷ []) k),
          ))

    pub step-Inv : Inv (done ++ t ∷ []) (decrement_all (successors t adj) (erase t deg))
    step-Inv = record {
      degrees = step_degrees;
      closed = λ k h. ground (
        arith,
        inv.closed k,
        eq_iff t k,
        elem-append k done (t ∷ []),
        unmet-append deps done t k is_left,
      );
      within = λ k h. ground (arith, inv.within k, eq_iff t k, elem-append k done (t ∷ []));
      unique =
          decrement_all-Unique (successors t adj) (erase t deg) (erase-Unique t deg inv.unique);
    }

    -- What was ready stays ready.
    pub step_unmet : (k : String) → unmet deps done k ≡ 0 → unmet deps (done ++ t ∷ []) k ≡ 0
    step_unmet k h = ground (arith, unmet-append deps done t k is_left)

  abbrev pub Ready : List String → List String → Type 0
  Ready done [] = Unit {0}
  Ready done (t ∷ ts) =
      (elem t targets ≡ true) × (elem t done ≡ false) × (unmet deps done t ≡ 0) × Ready done ts

  Ready-step :
      (done : List String) (t : String) (ts : List String)
      → elem t done ≡ false
      → elem t ts ≡ false
      → Ready done ts
      → Ready (done ++ t ∷ []) ts
  Ready-step done t [] l e r = tt
  Ready-step done t (k ∷ ts) l e (is_target, is_left, met, r) = ground (
    arith,
    eq_iff t k,
    eq_iff k t,
    elem-append k done (t ∷ []),
    unmet-append deps done t k l,
    Ready-step done t ts l,
  )

  pub remove_ready-Inv :
      (ready done : List String) (deg : Map ℤ)
      → Ready done ready
      → Distinct ready
      → Inv done deg
      → Inv (done ++ ready) (remove_ready adj ready deg)
  unfolding remove_ready
  remove_ready-Inv [] done deg r d inv = rw append-nil inv
  remove_ready-Inv (t ∷ ts) done deg (is_target, is_left, met, r) d inv =
      let rest : Inv ((done ++ t ∷ []) ++ ts)
          (remove_ready adj ts (decrement_all (successors t adj) (erase t deg))) =
        remove_ready-Inv ts (done ++ t ∷ []) (decrement_all (successors t adj) (erase t deg))
          (Ready-step done t ts is_left d.0 r) d.1 (step-Inv t inv is_target is_left met) in
      rw (append_assoc done (t ∷ []) ts) at rest

  -- The keys of in-degree 0 are the nodes that are left and have nothing to wait for.
  pub ready_of_Inv :
      (done : List String) (deg : Map ℤ) (k : String)
      → Inv done deg
      → lookup k deg ≡ some (pos 0)
      → (elem k targets ≡ true) × (elem k done ≡ false) × (unmet deps done k ≡ 0)
  ready_of_Inv done deg k inv h = ground (arith, inv.degrees k)

  pub Ready-all :
      (done : List String) (deg : Map ℤ) (ks : List String)
      → Inv done deg
      → ((k : String) → elem k ks ≡ true → lookup k deg ≡ some (pos 0))
      → Ready done ks
  Ready-all done deg [] inv h = tt
  Ready-all done deg (k ∷ ks) inv h =
      let (a, b, c) = ready_of_Inv done deg k inv (h k (ground (arith, eq_refl k))) in
      (a, b, c, Ready-all done deg ks inv (λ j e. h j (ground arith)))
