-- ===== src/Tasks/Patch.antt =====
-- What a patch of a task may do: its transitions, its authorization and its compare-and-set.
use rfid_inventory_replenish.Prelude.{
  ℕ, ◌+◌, ◌≡◌, ◌≢◌, ◌⊎◌, ◌↔◌, inl, inr, Bool, true, false, some, List, arith, find,
  find-update_where, find-some, update_where, count_where, count_where_none, update_where-All, ◌==◌,
  Bool-cases, Option-cases,
}
use rfid_inventory_replenish.Domain.{
  Uuid, Instant, Result, ApiError, Result-cases, ok, err, task_version_conflict,
}
use rfid_inventory_replenish.Access.{
  Principal, can_access_store, replenishment_manage, replenishment_execute,
}
use rfid_inventory_replenish.Tasks.{
  TaskStatus, open_, claimed, in_progress, completed, canceled, expired, ReplenishmentTask,
  TaskPatch, is_task, is_active, is_task_version, check_patch, check_transition, patched,
  commit_patch, patch_replenishment_task,
}

-- The life of a task: it is claimed, started and completed in this order, and a manager may end
-- it while it is active.
abbrev pub Step : Bool → TaskStatus → TaskStatus → Type 0
Step manager a b =
    (a ≡ open_) × (b ≡ claimed)
    ⊎ ((a ≡ claimed) × (b ≡ in_progress))
    ⊎ ((a ≡ in_progress) × (b ≡ completed))
    ⊎ ((manager ≡ true) × (is_active a ≡ true) × ((b ≡ canceled) ⊎ (b ≡ expired)))

-- A status change is accepted exactly when it is a step.
pub check_transition-Step :
    (manager : Bool) (current requested : TaskStatus)
    → (check_transition manager current requested ≡ ok tt) ↔ Step manager current requested
unfolding check_transition
check_transition-Step manager current requested = (ground arith, ground arith)

-- What an UPDATE of a patch leaves alone, and what it sets.
patched_fields :
    (user_id : Uuid) (now : Instant) (window : ℕ) (request : TaskPatch) (row : ReplenishmentTask)
    → let row' = patched user_id now window request row in
      (row'.id ≡ row.id)
      × (row'.tenant_id ≡ row.tenant_id)
      × (row'.store_id ≡ row.store_id)
      × (row'.quantity ≡ row.quantity)
      × (row'.verified_quantity ≡ row.verified_quantity)
      × (row'.version ≡ request.version + 1)
      × (row'.status ≡ request.status)
unfolding patched
patched_fields user_id now window request row = ground arith

module _ (principal : Principal) (request : TaskPatch) (now : Instant) (window : ℕ)
    (current : List ReplenishmentTask) where
  -- The UPDATE of a patch whose checks were made on `task`.
  abbrev pub matches : ReplenishmentTask → ReplenishmentTask → Bool
  matches task = is_task_version principal.tenant_id task.id request.version

  abbrev pub written : ReplenishmentTask → List ReplenishmentTask
  written task = update_where (matches task) (patched principal.user_id now window request) current

  -- The compare-and-set changes one row or nothing.
  commit_patch-cases :
      (task : ReplenishmentTask)
      → let outcome = commit_patch principal task request now window current in
        ((t : ReplenishmentTask) × (outcome.0 ≡ ok t)
          × (outcome.1 ≡ written task)
          × (count_where (matches task) current ≡ 1))
        ⊎ ((e : ApiError) × (outcome.0 ≡ err e) × (outcome.1 ≡ current))
  unfolding commit_patch
  commit_patch-cases task = elim (Bool-cases (count_where (matches task) current == 1)) [
    | inl one ↦
        let (t, found) =
          find-update_where (matches task) (is_task principal.tenant_id task.id)
            (patched principal.user_id now window request)
            (λ a h. ground (arith, patched_fields principal.user_id now window request a)) current
            (λ z. ground arith) in
        inl (t, rw (one, found), rw one, ground arith)
    | inr other ↦ inr (record { status = 409; reason = task_version_conflict }, rw other, rw other)
  ]

module _ (principal : Principal) (task_id : Uuid) (request : TaskPatch) (now : Instant) (window : ℕ)
    (read current : List ReplenishmentTask) where
  abbrev pub outcome : Result ReplenishmentTask × List ReplenishmentTask
  outcome = patch_replenishment_task principal task_id request now window read current

  -- A patch that returns a task has found one, passed its checks, and changed its row.
  pub patch_success :
      {t : ReplenishmentTask}
      → outcome.0 ≡ ok t
      → (task : ReplenishmentTask) × (find (is_task principal.tenant_id task_id) read ≡ some task)
        × (check_patch principal task request ≡ ok tt)
        × (count_where (matches principal request now window current task) current ≡ 1)
        × (outcome.1 ≡ written principal request now window current task)
  unfolding patch_replenishment_task
  patch_success h = elim (Option-cases (find (is_task principal.tenant_id task_id) read)) [
    | inl missing ↦ absurd (ground arith)
    | inr (task, found) ↦ elim (Result-cases (check_patch principal task request)) [
      | inr (e, refused) ↦ absurd (ground arith)
      | inl (_, checked) ↦ elim (commit_patch-cases principal request now window current task) [
        | inl (t', returned, changed, one) ↦ (task, found, checked, one, ground arith)
        | inr (e, raised, same) ↦ absurd (ground arith)
      ]
    ]
  ]

  -- A patch that raises, on whichever branch, has changed nothing.
  pub patch_failure : {e : ApiError} → outcome.0 ≡ err e → outcome.1 ≡ current
  unfolding patch_replenishment_task
  patch_failure h = elim (Option-cases (find (is_task principal.tenant_id task_id) read)) [
    | inl missing ↦ ground arith
    | inr (task, found) ↦ elim (Result-cases (check_patch principal task request)) [
      | inr (e, refused) ↦ ground arith
      | inl (_, checked) ↦ elim (commit_patch-cases principal request now window current task) [
        | inl (t', returned, changed, one) ↦ absurd (ground arith)
        | inr (e, raised, same) ↦ ground arith
      ]
    ]
  ]

pub check_patch_ok :
    (principal : Principal) (task : ReplenishmentTask) (request : TaskPatch)
    → check_patch principal task request ≡ ok tt
    → (can_access_store principal replenishment_execute task.store_id ≡ true)
      × Step
          (can_access_store principal replenishment_manage task.store_id)
          task.status
          request.status
      × ((task.status ≡ open_)
          ⊎ (task.claimed_by_user_id ≡ some principal.user_id)
          ⊎ (can_access_store principal replenishment_manage task.store_id ≡ true))
unfolding check_patch
check_patch_ok principal task request h =
    let manager = can_access_store principal replenishment_manage task.store_id in
    let step : check_transition manager task.status request.status ≡ ok tt = ground arith in
    (ground arith, (check_transition-Step manager task.status request.status).0 step, ground arith)

-- Who may patch a task, and how: the principal may execute tasks at the store of the task that it
-- read, the status change is a step, and a claimed or started task is advanced by its claimant or
-- by a manager of the store.
pub patch_authorized :
    (principal : Principal) (task_id : Uuid) (request : TaskPatch) (now : Instant) (window : ℕ)
    (read current : List ReplenishmentTask) {t : ReplenishmentTask}
    → (patch_replenishment_task principal task_id request now window read current).0 ≡ ok t
    → (task : ReplenishmentTask) × (find (is_task principal.tenant_id task_id) read ≡ some task)
      × (can_access_store principal replenishment_execute task.store_id ≡ true)
      × Step
          (can_access_store principal replenishment_manage task.store_id)
          task.status
          request.status
      × ((task.status ≡ open_)
          ⊎ (task.claimed_by_user_id ≡ some principal.user_id)
          ⊎ (can_access_store principal replenishment_manage task.store_id ≡ true))
patch_authorized principal task_id request now window read current h =
    let (task, found, checked, one, changed) =
      patch_success principal task_id request now window read current h in
    let (execute, step, advance) = check_patch_ok principal task request checked in
    (task, found, execute, step, advance)

-- Of two patches of one task of a tenant that carry the same version and commit one right after the
-- other, whatever the tables that they read and whoever sends them, at most one returns a task.
pub patch_once :
    (principal principal' : Principal) (task_id : Uuid) (request request' : TaskPatch)
    (now now' : Instant) (window window' : ℕ) (read read' current : List ReplenishmentTask)
    {t t' : ReplenishmentTask}
    → principal.tenant_id ≡ principal'.tenant_id
    → request.version ≡ request'.version
    → (patch_replenishment_task principal task_id request now window read current).0 ≡ ok t
    → (patch_replenishment_task principal' task_id request' now' window' read'
        (patch_replenishment_task principal task_id request now window read current).1).0
      ≢ ok t'
patch_once p p' task_id request request' now now' window window' read read' current same_tenant
      same_version h h' =
    let (task, found, checked, one, changed) =
      patch_success p task_id request now window read current h in
    let (task', found', checked', one', changed') =
      patch_success p' task_id request' now' window' read' _ h' in
    let e = find-some (is_task p.tenant_id task_id) read task found in
    let e' = find-some (is_task p'.tenant_id task_id) read' task' found' in
    let gone = count_where_none (is_task_version p'.tenant_id task'.id request'.version) _ (
      update_where-All (is_task_version p.tenant_id task.id request.version)
        (λ row. is_task_version p'.tenant_id task'.id request'.version row ≡ false)
        (patched p.user_id now window request)
        (λ a m. ground (arith, patched_fields p.user_id now window request a)) (λ a m. ground arith)
        current) in
    ground arith
