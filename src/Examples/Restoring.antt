-- ===== src/Examples/Restoring.antt =====
-- Restore data of a database that was reported in the cycle c1, and of a queue that was not.
use hibernator.Prelude.{◌≡◌, ◌⊎◌, refl, true, false, [], ◌∷◌, some, lookup}
use hibernator.Prelude.Int.{pos}
use hibernator.Restore.{StateValue, object, RestoreData, is_demanded_state, reported_at, save_state}
use hibernator.Restore.Saves.{stored, Fate, save_state-state, save_state-same_cycle}
use hibernator.Restore.Manager.{
  ConfigMap, mark_all, mark_all_targets_restored, mark_all_targets_restored-mark_all,
}

abbrev up : StateValue
up = object (("wasRunning", true) ∷ [])

abbrev down : StateValue
down = object (("wasRunning", false) ∷ [])

abbrev existing : RestoreData
existing = record {
  target = "db";
  executor = "rds";
  version = pos 1;
  is_live = true;
  cycle_id = "c1";
  created_at = 5;
  captured_at = some 5;
  state = ("db", up) ∷ ("queue", up) ∷ [];
  status = ("db", record { stale_count = pos 0; last_reported_at = some 5 }) ∷ [];
}

abbrev report : RestoreData
report = record existing { state = ("db", down) ∷ []; status = [] }

db_test : lookup "db" existing.state ≡ some up
unfolding lookup
db_test = refl

queue_test : lookup "queue" existing.state ≡ some up
unfolding lookup
queue_test = refl

reported_test : reported_at "db" existing.status ≡ some 5
unfolding lookup
reported_test = refl

-- The queue is missing for the first time in the cycle c2.
save_state-state_example :
    Fate existing
      (pos 3)
      "c2"
      "queue"
      up
      (lookup "queue" report.state)
      (lookup "queue" (stored existing (save_state (some existing) report (pos 3) "c2" 9)).state)
save_state-state_example =
    save_state-state existing report (pos 3) "c2" 9 "queue" up queue_test refl

save_state-same_cycle_example :
    (kept : StateValue) × (lookup "db"
        (stored existing (save_state (some existing) report (pos 3) "c1" 9)).state
      ≡ some kept)
    × ((kept ≡ up) ⊎ ((lookup "db" report.state ≡ some kept) × (is_demanded_state kept ≡ true)))
save_state-same_cycle_example =
    save_state-same_cycle existing report (pos 3) "c1" 9 5 "db" up refl db_test reported_test

abbrev config : ConfigMap
config = record { annotations = []; entries = ("db.json", some existing) ∷ [] }

mark_all_targets_restored-mark_all_example :
    mark_all_targets_restored ("db" ∷ "api" ∷ []) (some (mark_all ("db" ∷ "api" ∷ []) config))
    ≡ true
mark_all_targets_restored-mark_all_example =
    mark_all_targets_restored-mark_all ("db" ∷ "api" ∷ []) config
