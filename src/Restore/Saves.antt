-- ===== src/Restore/Saves.antt =====
-- What saving a report does to the stored state of a target.
use hibernator.Prelude.{
  String, ◌≡◌, refl, sym, subst, Bool, true, false, ◌&&◌, inl, inr, ◌⊎◌, Bool-cases, Option-cases,
  Option, none, some, if◌then◌else◌, arith, ◌==◌, eq_iff, lookup,
}
use hibernator.Prelude.Int.{ℤ, pos, ◌+ℤ◌, ◌<ℤ◌, ◌≤ℤ◌, leb_ℤ}
use hibernator.Time.{Time}
use hibernator.Restore.{
  StateValue, RestoreData, is_demanded_state, select_strategy, merge_states, reported_at,
  reported_before, stale_count_of, stays, merge_data, save_state, is_empty, fill_statuses,
}
use hibernator.Restore.Merge.{
  merged_with, merge_states-none, merge_states-some, keep_states-reported, keep_states-stays,
  keep_states-evicted,
}

-- What is stored after a save: without a write, what was there.
abbrev pub stored : RestoreData → Option RestoreData → RestoreData
stored existing none = existing
stored existing (some saved) = saved

-- The key was reported in the cycle that the stored data are of, and that is the current one.
abbrev pub ReportedInCycle : RestoreData → String → String → Type 0
ReportedInCycle existing cycle_id key =
    (existing.cycle_id ≡ cycle_id) × ((at : Time) × (reported_at key existing.status ≡ some at))

-- The four fates of a stored state, by what is reported for its key now, if anything.
abbrev pub Fate :
    RestoreData → ℤ → String → String → StateValue → Option StateValue → Option StateValue → Type 0
Fate existing limit cycle_id key old report after =
    ((new : StateValue) × (report ≡ some new)
      × (after ≡ some new)
      × (¬ ReportedInCycle existing cycle_id key ⊎ (is_demanded_state new ≡ true)))
    ⊎ ((new : StateValue) × (report ≡ some new)
        × (after ≡ some old)
        × ReportedInCycle existing cycle_id key
        × (is_demanded_state new ≡ false))
    ⊎ ((report ≡ none)
        × (after ≡ some old)
        × (ReportedInCycle existing cycle_id key
            ⊎ (stale_count_of key existing.status +ℤ pos 1 <ℤ limit)))
    ⊎ ((report ≡ none)
        × (after ≡ none)
        × ¬ ReportedInCycle existing cycle_id key
        × (limit ≤ℤ stale_count_of key existing.status +ℤ pos 1))

abbrev after_report :
    Bool → RestoreData → ℤ → String → StateValue → Option StateValue → Option StateValue
after_report same existing limit key old none =
    if stays same existing limit key then some old else none
after_report same existing limit key old (some new) = some (merged_with same existing key old new)

-- `reported_before` decides it.
reported_before-cases :
    (existing : RestoreData) (cycle_id key : String)
    → let before = reported_before (existing.cycle_id == cycle_id) existing key in
      ((before ≡ true) × ReportedInCycle existing cycle_id key)
      ⊎ ((before ≡ false) × ¬ ReportedInCycle existing cycle_id key)
reported_before-cases existing cycle_id key = elim (Bool-cases (existing.cycle_id == cycle_id)) [
  | inl same ↦ elim (Option-cases (reported_at key existing.status)) [
    | inl never ↦ inr (ground arith, λ r. ground (arith, r.1.1))
    | inr (at, then_) ↦
        inl (ground arith, ((eq_iff existing.cycle_id cycle_id).0 same, (at, then_)))
  ]
  | inr other ↦ inr (ground arith, λ r. ground (arith, (eq_iff existing.cycle_id cycle_id).1 r.0))
]

after_report-Fate :
    (existing : RestoreData) (limit : ℤ) (cycle_id key : String) (old : StateValue)
    (report : Option StateValue)
    → Fate existing limit cycle_id key old report
        (after_report (existing.cycle_id == cycle_id) existing limit key old report)
unfolding stays select_strategy
after_report-Fate existing limit cycle_id key old none =
    elim (reported_before-cases existing cycle_id key) [
      | inl (before, reported) ↦ rw (before, stays) (inr (inr (inl (refl, refl, inl reported))))
      | inr (before, fresh) ↦
          let misses = stale_count_of key existing.status +ℤ pos 1 in
          elim (Bool-cases (leb_ℤ limit misses)) [
            | inl stale ↦
                inr (inr (inr (refl, ground (arith, before, stale), fresh, ground (arith, stale))))
            | inr few ↦
                inr (inr (inl (refl, ground (arith, before, few), inr (ground (arith, few)))))
          ]
    ]
after_report-Fate existing limit cycle_id key old (some new) =
    elim (reported_before-cases existing cycle_id key) [
      | inl (before, reported) ↦ elim (Bool-cases (is_demanded_state new)) [
        | inl demanded ↦ inl (new, refl, ground (arith, before, demanded), inr demanded)
        | inr quiet ↦ inr (inl (new, refl, ground (arith, before, quiet), reported, quiet))
      ]
      | inr (before, fresh) ↦ inl (new, refl, ground (arith, before), inl fresh)
    ]

merge_data-state :
    (existing report : RestoreData) (limit : ℤ) (cycle_id : String) (now : Time) (key : String)
    (old : StateValue)
    → lookup key existing.state ≡ some old
    → lookup key (merge_data existing report limit cycle_id now).state
      ≡ after_report
          (existing.cycle_id == cycle_id)
          existing
          limit
          key
          old
          (lookup key report.state)
unfolding merge_data
merge_data-state existing report limit cycle_id now key old h =
    let same = existing.cycle_id == cycle_id in
    let merged = merge_states same existing report.state in
    elim (Option-cases (lookup key report.state)) [
      | inr (new, e) ↦ ground (
        arith,
        e,
        keep_states-reported same existing limit key report.state merged existing.state
            (ground (arith, e)),
        merge_states-some same existing key old new report.state h e,
      )
      | inl e ↦ elim (Bool-cases (stays same existing limit key)) [
        | inl s ↦ ground (
          arith,
          e,
          s,
          keep_states-stays same existing limit key old report.state merged existing.state
              (ground (arith, e)) s h,
        )
        | inr s ↦ ground (
          arith,
          e,
          s,
          keep_states-evicted same existing limit key report.state merged existing.state
              (ground (arith, e)) s (merge_states-none same existing key report.state e),
        )
      ]
    ]

save_state-after_report :
    (existing report : RestoreData) (limit : ℤ) (cycle_id : String) (now : Time) (key : String)
    (old : StateValue)
    → lookup key existing.state ≡ some old
    → (existing.cycle_id == cycle_id && is_empty report.state) ≡ false
    → lookup key (stored existing (save_state (some existing) report limit cycle_id now)).state
      ≡ after_report
          (existing.cycle_id == cycle_id)
          existing
          limit
          key
          old
          (lookup key report.state)
unfolding save_state
save_state-after_report existing report limit cycle_id now key old h s =
    let report' = record report {
      captured_at = some now;
      status = fill_statuses now report.state report.status;
    } in
    rw (s, save_state) (merge_data-state existing report' limit cycle_id now key old h)

-- A save that is not skipped (it is of another cycle than the stored data, or reports a state), for a
-- key with a stored state: what is reported now replaces the state, unless the key was reported in the
-- same cycle before and what is reported now is not a demanded state; then the old state stays. A key
-- that is not reported now keeps its state, if it was reported in this cycle or if this save is fewer
-- saves without it than the limit, and loses it otherwise.
pub save_state-state :
    (existing report : RestoreData) (limit : ℤ) (cycle_id : String) (now : Time) (key : String)
    (old : StateValue)
    → lookup key existing.state ≡ some old
    → (existing.cycle_id == cycle_id && is_empty report.state) ≡ false
    → Fate existing limit cycle_id key old
        (lookup key report.state)
        (lookup key (stored existing (save_state (some existing) report limit cycle_id now)).state)
save_state-state existing report limit cycle_id now key old h s =
    subst (Fate existing limit cycle_id key old (lookup key report.state))
      (sym (save_state-after_report existing report limit cycle_id now key old h s))
      (after_report-Fate existing limit cycle_id key old (lookup key report.state))

-- A restart loses nothing: a state that was captured and reported in the same cycle is stored after
-- any further save, as it was, or replaced by a demanded state that is reported now.
pub save_state-same_cycle :
    (existing report : RestoreData) (limit : ℤ) (cycle_id : String) (now at : Time) (key : String)
    (old : StateValue)
    → existing.cycle_id == cycle_id ≡ true
    → lookup key existing.state ≡ some old
    → reported_at key existing.status ≡ some at
    → (kept : StateValue) × (lookup key
          (stored existing (save_state (some existing) report limit cycle_id now)).state
        ≡ some kept)
      × ((kept ≡ old) ⊎ ((lookup key report.state ≡ some kept) × (is_demanded_state kept ≡ true)))
unfolding select_strategy stays save_state
save_state-same_cycle existing report limit cycle_id now at key old c h r =
    elim (Bool-cases (is_empty report.state)) [
      | inl e ↦ (old, rw (c, e, save_state) h, inl refl)
      | inr e ↦
          let after =
            save_state-after_report existing report limit cycle_id now key old h
              (ground (arith, e)) in
          elim (Option-cases (lookup key report.state)) [
            | inl n ↦ (old, ground (arith, after, c, n, r), inl refl)
            | inr (new, n) ↦ elim (Bool-cases (is_demanded_state new)) [
              | inl d ↦ (new, ground (arith, after, c, n, r, d), inr (n, d))
              | inr d ↦ (old, ground (arith, after, c, n, r, d), inl refl)
            ]
          ]
    ]
