-- ===== src/Restore.antt =====
-- Restore data, internal/restore: the state that a shutdown captures for a target, and how a later
-- report is merged with it. A ConfigMap is the list of the data of its targets; the encoding in
-- JSON and the API server are left out.
pub mod Merge
pub mod Saves
pub mod Manager
use hibernator.Prelude.{
  ℕ, String, Bool, true, false, not, ◌&&◌, ◌||◌, List, [], ◌∷◌, Option, none, some, if◌then◌else◌,
  ◌==◌, Map, lookup, insert,
}
use hibernator.Prelude.Int.{ℤ, pos, ◌+ℤ◌, leb_ℤ}
use hibernator.Time.{Time}

-- A value in the state of a resource: an object of JSON, of which the Boolean fields count, or not.
pub data StateValue : Type 0 where
  object : Map Bool → StateValue
  other : String → StateValue

pub record ResourceStatus : Type 0 where
  pub stale_count : ℤ
  pub last_reported_at : Option Time

-- `Data`; a nil map reads as an empty one.
pub record RestoreData : Type 0 where
  pub target : String
  pub executor : String
  pub version : ℤ
  pub is_live : Bool
  pub cycle_id : String
  pub created_at : Time
  pub captured_at : Option Time
  pub state : Map StateValue
  pub status : Map ResourceStatus

abbrev is_true : Option Bool → Bool
is_true none = false
is_true (some b) = b

-- `isDemandedState`, of a value that is an object.
unfoldable pub is_demanded_state : StateValue → Bool
is_demanded_state (object fields) =
    is_true (lookup "wasRunning" fields) || is_true (lookup "wasScaled" fields)
is_demanded_state (other value) = false

pub data Strategy : Type 0 where
  different_cycle first_report demanded_state preserve_state : Strategy

-- `status[key].LastReportedAt`
abbrev pub reported_at : String → Map ResourceStatus → Option Time
reported_at key status = elim (lookup key status) [ none ↦ none | some s ↦ s.last_reported_at ]

abbrev pub stale_count_of : String → Map ResourceStatus → ℤ
stale_count_of key status = elim (lookup key status) [ none ↦ pos 0 | some s ↦ s.stale_count ]

abbrev pub is_some {ℓ} : {A : Type ℓ} → Option A → Bool
is_some none = false
is_some (some a) = true

-- `selectStrategy`
unfoldable pub select_strategy : Bool → RestoreData → String → StateValue → Strategy
select_strategy same_cycle existing key value =
    if not same_cycle
    then different_cycle
    else if not (is_some (reported_at key existing.status))
    then first_report
    else if is_demanded_state value
    then demanded_state
    else preserve_state

-- `shouldUseNewValue`
abbrev pub uses_new_value : Strategy → Bool
uses_new_value preserve_state = false
uses_new_value _ = true

abbrev or_now : Time → Option Time → Option Time
or_now now none = some now
or_now now (some t) = some t

abbrev first_of : Option Time → Option Time → Option Time
first_of none u = u
first_of (some t) u = some t

-- `setStatus`
unfoldable pub set_status :
    Strategy → RestoreData → Map ResourceStatus → Time → String → ResourceStatus
set_status preserve_state existing incoming now key = record {
  stale_count = stale_count_of key existing.status;
  last_reported_at =
      first_of (reported_at key existing.status) (or_now now (reported_at key incoming));
}
set_status _ existing incoming now key = record {
  stale_count = pos 0;
  last_reported_at = or_now now (reported_at key incoming);
}

module _ (same_cycle : Bool) (existing : RestoreData) where
  -- The value of a reported key; `none` where it is to be preserved and there is nothing.
  unfoldable pub merged_value : String → StateValue → Option StateValue
  unfolding select_strategy
  merged_value key value =
      if uses_new_value (select_strategy same_cycle existing key value)
      then some value
      else lookup key existing.state

  abbrev pub insert_some : String → Option StateValue → Map StateValue → Map StateValue
  insert_some key none m = m
  insert_some key (some value) m = insert key value m

  -- The loop over the reported keys: the states, and the statuses.
  unfoldable pub merge_states : Map StateValue → Map StateValue
  merge_states [] = []
  merge_states ((key, value) ∷ rest) = insert_some key (merged_value key value) (merge_states rest)

  unfoldable pub merge_statuses : Map ResourceStatus → Time → Map StateValue → Map ResourceStatus
  merge_statuses incoming now [] = []
  merge_statuses incoming now ((key, value) ∷ rest) =
      insert key
        (set_status (select_strategy same_cycle existing key value) existing incoming now key)
        (merge_statuses incoming now rest)

  -- Reported in an earlier attempt of this cycle.
  abbrev pub reported_before : String → Bool
  reported_before key = same_cycle && is_some (reported_at key existing.status)

  -- A key that is not reported now stays: it was in this cycle, or it is not stale for too long.
  unfoldable pub stays : ℤ → String → Bool
  stays max_stale_count key =
      reported_before key
      || not (leb_ℤ max_stale_count (stale_count_of key existing.status +ℤ pos 1))

  abbrev stale_status : String → ResourceStatus
  stale_status key =
      if reported_before key
      then (elim (lookup key existing.status) [
        | none ↦ record { stale_count = pos 0; last_reported_at = none }
        | some s ↦ s
      ])
      else record {
        stale_count = stale_count_of key existing.status +ℤ pos 1;
        last_reported_at = none;
      }

  -- `handleStaleResources`: the states, and the statuses.
  unfoldable pub keep_states : ℤ → Map StateValue → Map StateValue → Map StateValue → Map StateValue
  unfolding stays
  keep_states max_stale_count reported merged [] = merged
  keep_states max_stale_count reported merged ((key, value) ∷ rest) =
      let r = keep_states max_stale_count reported merged rest in
      if not (is_some (lookup key reported)) && stays max_stale_count key
      then insert key value r
      else r

  unfoldable pub keep_statuses :
      ℤ → Map StateValue → Map ResourceStatus → Map StateValue → Map ResourceStatus
  unfolding stays
  keep_statuses max_stale_count reported merged [] = merged
  keep_statuses max_stale_count reported merged ((key, value) ∷ rest) =
      let r = keep_statuses max_stale_count reported merged rest in
      if not (is_some (lookup key reported)) && stays max_stale_count key
      then insert key (stale_status key) r
      else r

-- Every key of the state gets a status.
unfoldable pub fill_statuses : Time → Map StateValue → Map ResourceStatus → Map ResourceStatus
fill_statuses now [] status = status
fill_statuses now ((key, value) ∷ rest) status = fill_statuses now rest (
    if is_some (lookup key status)
    then status
    else insert key (record { stale_count = pos 0; last_reported_at = some now }) status)

abbrev pub is_empty : Map StateValue → Bool
is_empty [] = true
is_empty (x ∷ xs) = false

unfoldable pub merge_data : RestoreData → RestoreData → ℤ → String → Time → RestoreData
unfolding merge_states merge_statuses keep_states keep_statuses
merge_data existing report max_stale_count cycle_id now =
    let same_cycle = existing.cycle_id == cycle_id in
    record {
      target = report.target;
      executor = report.executor;
      version = report.version;
      is_live = true;
      cycle_id = cycle_id;
      created_at = existing.created_at;
      captured_at = some now;
      state =
          keep_states same_cycle existing max_stale_count report.state
            (merge_states same_cycle existing report.state) existing.state;
      status =
          keep_statuses same_cycle existing max_stale_count report.state
            (merge_statuses same_cycle existing report.status now report.state) existing.state;
    }

-- `SaveState` after a load that succeeds: the data that `Save` is given, or `none` where it returns
-- before that.
unfoldable pub save_state :
    Option RestoreData → RestoreData → ℤ → String → Time → Option RestoreData
unfolding merge_data fill_statuses
save_state existing report max_stale_count cycle_id now =
    let report' = record report {
      captured_at = some now;
      status = fill_statuses now report.state report.status;
    } in
    elim existing [
      | none ↦ some (record report' { cycle_id = cycle_id })
      | some e ↦
          if e.cycle_id == cycle_id && is_empty report.state
          then none
          else some (merge_data e report' max_stale_count cycle_id now)
    ]
