-- ===== src/Tasks/Invariant.antt =====
-- Well-formed tasks, and what the passing of time does to the verification status.
use rfid_inventory_replenish.Prelude.{
  ℕ, ◌≤◌, ◌<◌, ◌≡◌, ◌⊎◌, Bool, true, ◌&&◌, some, List, arith, All, In, All-of_In, All-zip, find,
  All-update_where, is_some,
}
use rfid_inventory_replenish.Domain.{Uuid, Instant, ok}
use rfid_inventory_replenish.Access.{Principal, can_access_store, replenishment_manage}
use rfid_inventory_replenish.Tasks.{
  open_, claimed, in_progress, completed, canceled, expired, ReplenishmentTask, TaskPatch, is_task,
  is_task_version, patched, patch_replenishment_task, replenishment_verification_status, pending,
  unverified,
}
use rfid_inventory_replenish.Tasks.Patch.{Step, patch_success, check_patch_ok}

abbrev has_claim : ReplenishmentTask → Bool
has_claim task = is_some task.claimed_by_user_id && is_some task.claimed_at

-- The columns that a task has by the time it is in its status.
abbrev pub on_record : ReplenishmentTask → Bool
on_record task = elim task.status [
  | open_ ↦ true
  | claimed ↦ has_claim task
  | in_progress ↦ has_claim task && is_some task.started_at
  | completed ↦
      has_claim task
      && is_some task.started_at
      && is_some task.completed_at
      && is_some task.verification_deadline
  | canceled ↦ true
  | expired ↦ is_some task.expires_at
]

pub record IsWellFormed (task : ReplenishmentTask) : Type 0 where
  pub positive_quantity : 0 < task.quantity
  pub positive_version : 0 < task.version
  pub verified_within : task.verified_quantity ≤ task.quantity
  pub recorded : on_record task ≡ true

patched-IsWellFormed :
    (manager : Bool) (user_id : Uuid) (now : Instant) (window : ℕ) (request : TaskPatch)
    (row : ReplenishmentTask)
    → Step manager row.status request.status
    → IsWellFormed row
    → IsWellFormed (patched user_id now window request row)
unfolding patched
patched-IsWellFormed manager user_id now window request row step h = record {
  positive_quantity = ground arith;
  positive_version = ground arith;
  verified_within = ground arith;
  recorded = ground arith;
}

-- A patch that returns a task keeps every task well formed, if the row that it changes is the row
-- that it read: a row with the id of the task and the version of the request is that task.
pub patch-IsWellFormed :
    (principal : Principal) (task_id : Uuid) (request : TaskPatch) (now : Instant) (window : ℕ)
    (read current : List ReplenishmentTask) {t : ReplenishmentTask}
    → (patch_replenishment_task principal task_id request now window read current).0 ≡ ok t
    → ((task row : ReplenishmentTask)
        → find (is_task principal.tenant_id task_id) read ≡ some task
        → In row current
        → row.id ≡ task.id
        → row.version ≡ request.version
        → row ≡ task)
    → All IsWellFormed current
    → All IsWellFormed
        (patch_replenishment_task principal task_id request now window read current).1
patch-IsWellFormed principal task_id request now window read current h same all =
    let (task, found, checked, one, changed) =
      patch_success principal task_id request now window read current h in
    let (execute, step, advance) = check_patch_ok principal task request checked in
    let set = is_task_version principal.tenant_id task.id request.version in
    let IsRead = λ (row : ReplenishmentTask). set row ≡ true → row ≡ task in
    let reads : All IsRead current =
      All-of_In IsRead current (λ a i m. same task a found i (ground arith) (ground arith)) in
    rw changed (
      All-update_where set (λ row. IsWellFormed row × IsRead row) IsWellFormed
        (patched principal.user_id now window request)
        (λ a w m.
          patched-IsWellFormed (can_access_store principal replenishment_manage task.store_id)
            principal.user_id now window request a (rw (w.1 m) step) w.0)
        (λ a w m. w.0) current (All-zip IsWellFormed IsRead current all reads))

-- As time passes, a verification status changes in one way only: what is pending may become
-- unverified.
pub verification_status_mono :
    (task : ReplenishmentTask) (now later : Instant)
    → now ≤ later
    → (replenishment_verification_status task later ≡ replenishment_verification_status task now)
      ⊎ ((replenishment_verification_status task now ≡ pending)
          × (replenishment_verification_status task later ≡ unverified))
unfolding replenishment_verification_status
verification_status_mono task now later h = ground arith
