-- ===== src/Restore/Merge.antt =====
-- What becomes of a captured state when a later report is merged with it.
use hibernator.Prelude.{
  String, ◌≡◌, refl, Bool, true, false, inl, inr, Bool-cases, Option-cases, [], ◌∷◌, none, some,
  if◌then◌else◌, arith, ◌==◌, eq_iff, eq_refl, Map, lookup, lookup-insert,
}
use hibernator.Prelude.Int.{ℤ}
use hibernator.Restore.{
  StateValue, RestoreData, select_strategy, uses_new_value, merged_value, merge_states, stays,
  keep_states, is_some,
}

module _ (same_cycle : Bool) (existing : RestoreData) where
  pub merge_states-none :
      (key : String) (reported : Map StateValue)
      → lookup key reported ≡ none
      → lookup key (merge_states same_cycle existing reported) ≡ none
  unfolding lookup merge_states
  merge_states-none key [] h = refl
  merge_states-none key ((name, value) ∷ rest) h =
      elim (Option-cases (merged_value same_cycle existing name value)) [
        | inl e ↦ rw (e, merge_states) (ground (arith, merge_states-none key rest))
        | inr (v, e) ↦
            rw (e, merge_states)
              (ground (
                arith,
                merge_states-none key rest,
                lookup-insert name key v (merge_states same_cycle existing rest),
              ))
      ]

  -- What a key that has a state is given.
  abbrev pub merged_with : String → StateValue → StateValue → StateValue
  merged_with key old new =
      if uses_new_value (select_strategy same_cycle existing key new) then new else old

  merged_value-some :
      (key : String) (old new : StateValue)
      → lookup key existing.state ≡ some old
      → merged_value same_cycle existing key new ≡ some (merged_with key old new)
  unfolding merged_value
  merged_value-some key old new h =
      elim (Bool-cases (uses_new_value (select_strategy same_cycle existing key new))) [
        | inl e ↦ rw (e, merged_value) refl
        | inr e ↦ rw (e, merged_value) h
      ]

  pub merge_states-some :
      (key : String) (old new : StateValue) (reported : Map StateValue)
      → lookup key existing.state ≡ some old
      → lookup key reported ≡ some new
      → lookup key (merge_states same_cycle existing reported) ≡ some (merged_with key old new)
  unfolding lookup merge_states
  merge_states-some key old new [] h r = cc
  merge_states-some key old new ((name, value) ∷ rest) h r =
      let m = merge_states same_cycle existing rest in
      elim (Bool-cases (name == key)) [
        | inl e ↦
            let same = (eq_iff name key).0 e in
            let now : value ≡ new = ground (arith, r, e) in
            rw (same, now, merged_value-some key old new h, merge_states)
              (ground (arith, lookup-insert key key (merged_with key old new) m, eq_refl key))
        | inr e ↦
            let later : lookup key rest ≡ some new = ground (arith, r, e) in
            elim (Option-cases (merged_value same_cycle existing name value)) [
              | inl n ↦ rw (n, merge_states) (merge_states-some key old new rest h later)
              | inr (v, n) ↦
                  rw (n, merge_states)
                    (ground (
                      arith,
                      e,
                      lookup-insert name key v m,
                      merge_states-some key old new rest h later,
                    ))
            ]
      ]

  -- A key that is reported now is left to the merge, and one that is not and stays keeps its state.
  pub keep_states-reported :
      (limit : ℤ) (key : String) (reported merged m : Map StateValue)
      → is_some (lookup key reported) ≡ true
      → lookup key (keep_states same_cycle existing limit reported merged m) ≡ lookup key merged
  unfolding lookup keep_states
  keep_states-reported limit key reported merged [] h = refl
  keep_states-reported limit key reported merged ((name, value) ∷ rest) h = ground (
    arith,
    keep_states-reported limit key reported merged rest h,
    eq_iff name key,
    lookup-insert name key value (keep_states same_cycle existing limit reported merged rest),
  )

  pub keep_states-stays :
      (limit : ℤ) (key : String) (old : StateValue) (reported merged m : Map StateValue)
      → is_some (lookup key reported) ≡ false
      → stays same_cycle existing limit key ≡ true
      → lookup key m ≡ some old
      → lookup key (keep_states same_cycle existing limit reported merged m) ≡ some old
  unfolding lookup keep_states
  keep_states-stays limit key old reported merged [] h s l = cc
  keep_states-stays limit key old reported merged ((name, value) ∷ rest) h s l = ground (
    arith,
    keep_states-stays limit key old reported merged rest h s,
    eq_iff name key,
    lookup-insert name key value (keep_states same_cycle existing limit reported merged rest),
  )

  pub keep_states-evicted :
      (limit : ℤ) (key : String) (reported merged m : Map StateValue)
      → is_some (lookup key reported) ≡ false
      → stays same_cycle existing limit key ≡ false
      → lookup key merged ≡ none
      → lookup key (keep_states same_cycle existing limit reported merged m) ≡ none
  unfolding lookup keep_states
  keep_states-evicted limit key reported merged [] h s l = l
  keep_states-evicted limit key reported merged ((name, value) ∷ rest) h s l = ground (
    arith,
    keep_states-evicted limit key reported merged rest h s l,
    eq_iff name key,
    lookup-insert name key value (keep_states same_cycle existing limit reported merged rest),
  )
