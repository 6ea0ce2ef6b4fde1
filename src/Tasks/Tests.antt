-- ===== src/Tasks/Tests.antt =====
-- Runs of the task operations, and the theorems at concrete inputs.
use rfid_inventory_replenish.Prelude.{
  ◌≡◌, ◌≢◌, ◌⊎◌, ◌↔◌, refl, true, none, some, List, [], ◌∷◌, arith, All, In, find, update_where,
  count_where,
}
use rfid_inventory_replenish.Domain.{ok, raise, task_version_conflict}
use rfid_inventory_replenish.Access.{
  can_access_store, has_tenant_permission, store_ids_for_permission, permits, replenishment_manage,
  replenishment_execute,
}
use rfid_inventory_replenish.Access.Tests.{manager, associate}
use rfid_inventory_replenish.Tasks.{
  open_, claimed, canceled, ReplenishmentTask, TaskPatch, is_task, check_patch, check_transition,
  patched, commit_patch, patch_replenishment_task, replenishment_verification_status, pending,
  unverified,
}
use rfid_inventory_replenish.Tasks.Patch.{
  Step, check_transition-Step, patch_failure, patch_authorized, patch_once,
}
use rfid_inventory_replenish.Tasks.Invariant.{
  IsWellFormed, patch-IsWellFormed, verification_status_mono,
}

program : Unit {0}
unfolding can_access_store has_tenant_permission store_ids_for_permission permits check_patch
    patched commit_patch patch_replenishment_task find update_where count_where
program = tt

abbrev pub task : ReplenishmentTask
task = record {
  id = 10;
  tenant_id = 5;
  store_id = 7;
  sku_id = 20;
  policy_version_id = 30;
  policy_rule_id = 31;
  status = open_;
  quantity = 4;
  verified_quantity = 0;
  verification_deadline = none;
  version = 1;
  claimed_by_user_id = none;
  claimed_at = none;
  started_at = none;
  completed_at = none;
  expires_at = none;
  note = none;
  created_at = 100;
  updated_at = 100;
}

abbrev pub other_task : ReplenishmentTask
other_task = record task { id = 11; sku_id = 21; version = 3 }

abbrev tasks : List ReplenishmentTask
tasks = task ∷ other_task ∷ []

abbrev claim : TaskPatch
claim = record { status = claimed; version = 1; note = none }

abbrev pub claimed_task : ReplenishmentTask
claimed_task = record task {
  status = claimed;
  version = 2;
  claimed_by_user_id = some 2;
  claimed_at = some 200;
  updated_at = 200;
}

claim_returns :
    patch_replenishment_task associate 10 claim 200 900 tasks tasks
    ≡ (ok claimed_task, claimed_task ∷ other_task ∷ [])
unfolding program
claim_returns = refl

-- A second claim with the same version is a conflict.
claim_conflicts :
    patch_replenishment_task manager 10 claim 201 900 tasks (claimed_task ∷ other_task ∷ [])
    ≡ (raise 409 task_version_conflict, claimed_task ∷ other_task ∷ [])
unfolding program
claim_conflicts = refl

claim_ok : (patch_replenishment_task associate 10 claim 200 900 tasks tasks).0 ≡ ok claimed_task
unfolding program
claim_ok = refl

claim_err :
    (patch_replenishment_task manager 10 claim 201 900 tasks (claimed_task ∷ [])).0
    ≡ raise 409 task_version_conflict
unfolding program
claim_err = refl

check_transition-Step_example :
    (check_transition true open_ canceled ≡ ok tt) ↔ Step true open_ canceled
check_transition-Step_example = check_transition-Step true open_ canceled

patch_failure_example :
    (patch_replenishment_task manager 10 claim 201 900 tasks (claimed_task ∷ [])).1
    ≡ claimed_task ∷ []
patch_failure_example = patch_failure manager 10 claim 201 900 tasks (claimed_task ∷ []) claim_err

patch_authorized_example :
    (row : ReplenishmentTask) × (find (is_task 5 10) tasks ≡ some row)
    × (can_access_store associate replenishment_execute row.store_id ≡ true)
    × Step (can_access_store associate replenishment_manage row.store_id) row.status claimed
    × ((row.status ≡ open_)
        ⊎ (row.claimed_by_user_id ≡ some 2)
        ⊎ (can_access_store associate replenishment_manage row.store_id ≡ true))
patch_authorized_example = patch_authorized associate 10 claim 200 900 tasks tasks claim_ok

patch_once_example :
    (patch_replenishment_task manager 10 claim 201 900 tasks
      (patch_replenishment_task associate 10 claim 200 900 tasks tasks).1).0
    ≢ ok claimed_task
patch_once_example =
    patch_once associate manager 10 claim claim 200 201 900 900 tasks tasks tasks refl refl claim_ok

tasks-IsWellFormed : All IsWellFormed tasks
tasks-IsWellFormed = ground arith

rows_read :
    (t row : ReplenishmentTask)
    → find (is_task 5 10) tasks ≡ some t
    → In row tasks
    → row.id ≡ t.id
    → row.version ≡ 1
    → row ≡ t
unfolding find
rows_read t row found i same version = ground arith

patch-IsWellFormed_example :
    All IsWellFormed (patch_replenishment_task associate 10 claim 200 900 tasks tasks).1
patch-IsWellFormed_example =
    patch-IsWellFormed associate 10 claim 200 900 tasks tasks claim_ok rows_read tasks-IsWellFormed

verification_status_mono_example :
    (replenishment_verification_status task 300 ≡ replenishment_verification_status task 200)
    ⊎ ((replenishment_verification_status task 200 ≡ pending)
        × (replenishment_verification_status task 300 ≡ unverified))
verification_status_mono_example = verification_status_mono task 200 300 (omega arith)
