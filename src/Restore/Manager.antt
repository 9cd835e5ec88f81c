-- ===== src/Restore/Manager.antt =====
-- The marks on restore data, internal/restore/manager.go: which targets are restored, and whether
-- there is data to restore from. A ConfigMap that does not exist is `none`.
use hibernator.Prelude.{
  String, ◌≡◌, refl, Bool, true, false, not, ◌&&◌, List, [], ◌∷◌, Option, none, some, if◌then◌else◌,
  arith, ◌==◌, eq_refl, Map, lookup, insert, lookup-insert,
}
use hibernator.Prelude.Text.{join, codes, has_prefix}
use hibernator.Restore.{RestoreData}

-- An entry is `none` where its JSON cannot be read.
pub record ConfigMap : Type 0 where
  pub annotations : Map String
  pub entries : Map (Option RestoreData)

abbrev pub annotation_restored_prefix : String
annotation_restored_prefix = "hibernator.ardikabs.com/restored-"

abbrev mark_consumed : RestoreData → RestoreData
mark_consumed d = record d { is_live = false }

abbrev map_entry :
    (RestoreData → RestoreData) → String → Map (Option RestoreData) → Map (Option RestoreData)
map_entry f key entries = elim (lookup key entries) [
  | some (some d) ↦ insert key (some (f d)) entries
  | _ ↦ entries
]

-- `MarkTargetRestored`
unfoldable pub mark_target_restored : String → ConfigMap → ConfigMap
mark_target_restored target cm = record {
  annotations = insert (join annotation_restored_prefix target) "true" cm.annotations;
  entries = map_entry mark_consumed (join target ".json") cm.entries;
}

abbrev pub says_true : Option String → Bool
says_true none = false
says_true (some text) = text == "true"

-- The loop of `MarkAllTargetsRestored`, which marks nothing itself.
unfoldable pub all_targets_restored : List String → ConfigMap → Bool
all_targets_restored [] cm = true
all_targets_restored (t ∷ ts) cm =
    says_true (lookup (join annotation_restored_prefix t) cm.annotations)
    && all_targets_restored ts cm

-- `MarkAllTargetsRestored`
unfoldable pub mark_all_targets_restored : List String → Option ConfigMap → Bool
unfolding all_targets_restored
mark_all_targets_restored targets none = true
mark_all_targets_restored targets (some cm) = all_targets_restored targets cm

abbrev is_mark : String → Bool
is_mark key =
    has_prefix (codes key) (codes annotation_restored_prefix)
    && not (key == annotation_restored_prefix)

unfoldable pub drop_marks : Map String → Map String
unfolding has_prefix
drop_marks [] = []
drop_marks ((key, value) ∷ rest) =
    let r = drop_marks rest in if is_mark key then r else (key, value) ∷ r

abbrev clear_cycle : Option RestoreData → Option RestoreData
clear_cycle none = none
clear_cycle (some d) = some (record d { cycle_id = "" })

unfoldable pub clear_cycles : Map (Option RestoreData) → Map (Option RestoreData)
clear_cycles [] = []
clear_cycles ((key, entry) ∷ rest) = (key, clear_cycle entry) ∷ clear_cycles rest

-- `UnlockRestoreData`
unfoldable pub unlock_restore_data : ConfigMap → ConfigMap
unfolding drop_marks clear_cycles
unlock_restore_data cm = record {
  annotations = drop_marks cm.annotations;
  entries = clear_cycles cm.entries;
}

-- The loop of `HasRestoreData`, with what it returns at its end.
unfoldable pub any_live : Bool → Map (Option RestoreData) → Bool
any_live otherwise [] = otherwise
any_live otherwise ((key, none) ∷ rest) = false
any_live otherwise ((key, some d) ∷ rest) =
    let r = any_live otherwise rest in if d.is_live then true else r

abbrev pub has_entries : Map (Option RestoreData) → Bool
has_entries [] = false
has_entries (e ∷ es) = true

-- `HasRestoreData`
unfoldable pub has_restore_data : Option ConfigMap → Bool
unfolding any_live
has_restore_data none = false
has_restore_data (some cm) = any_live (has_entries cm.entries) cm.entries

unfoldable pub mark_all : List String → ConfigMap → ConfigMap
mark_all [] cm = cm
mark_all (t ∷ ts) cm = mark_target_restored t (mark_all ts cm)

mark-says_true :
    (t : String) (key : String) (cm : ConfigMap)
    → says_true (lookup key cm.annotations) ≡ true
    → says_true (lookup key (mark_target_restored t cm).annotations) ≡ true
unfolding mark_target_restored
mark-says_true t key cm h =
    ground (arith, lookup-insert (join annotation_restored_prefix t) key "true" cm.annotations)

mark-all_targets_restored :
    (t : String) (ts : List String) (cm : ConfigMap)
    → all_targets_restored ts cm ≡ true
    → all_targets_restored ts (mark_target_restored t cm) ≡ true
unfolding all_targets_restored
mark-all_targets_restored t [] cm h = refl
mark-all_targets_restored t (u ∷ us) cm h = ground (
  arith,
  mark-all_targets_restored t us cm,
  mark-says_true t (join annotation_restored_prefix u) cm,
)

mark-restored :
    (t : String) (cm : ConfigMap)
    → says_true (lookup (join annotation_restored_prefix t) (mark_target_restored t cm).annotations)
      ≡ true
unfolding mark_target_restored
mark-restored t cm =
    let key = join annotation_restored_prefix t in
    ground (arith, lookup-insert key key "true" cm.annotations, eq_refl key)

-- Once each of the targets has been marked as restored, in any order the list gives and whatever
-- was there before, the check after a wakeup finds all of them restored.
pub mark_all_targets_restored-mark_all :
    (targets : List String) (cm : ConfigMap)
    → mark_all_targets_restored targets (some (mark_all targets cm)) ≡ true
unfolding mark_all_targets_restored mark_all all_targets_restored
mark_all_targets_restored-mark_all [] cm = refl
mark_all_targets_restored-mark_all (t ∷ ts) cm =
    let before = mark_all ts cm in
    ground (
      arith,
      mark-all_targets_restored t ts before (mark_all_targets_restored-mark_all ts cm),
      mark-restored t before,
    )
