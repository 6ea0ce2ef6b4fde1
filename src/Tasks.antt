-- ===== src/Tasks.antt =====
-- Replenishment tasks (`src/abacus/services/replenishment.py`: `patch_replenishment_task`,
-- `list_store_tasks`, `replenishment_verification_status`; the rows of
-- `src/abacus/models/architecture.py`, `ReplenishmentTask`). A table is a list of rows. `patch`
-- reads its task from one snapshot of the table and writes to the table that it finds at the
-- UPDATE, since the row is not locked in between.
pub mod Invariant
pub mod Patch
pub mod Tests
use rfid_inventory_replenish.Prelude.{
  ℕ, ◌+◌, ltb, leb, Bool, true, false, not, ◌&&◌, ◌||◌, Option, none, some, List, [], ◌∷◌, any,
  find, select, update_where, count_where, length, take, drop, sort_by, ◌==◌, ◌==?◌, if◌then◌else◌,
}
use rfid_inventory_replenish.Domain.{
  Uuid, Text, Instant, seconds, Result, ok, err, raise, ◌>>=◌, ◌>>◌, forbidden, store_scope_denied,
  store_not_found, task_not_found, task_transition_forbidden, invalid_task_transition,
  task_claim_denied, task_version_conflict, assertion_error,
}
use rfid_inventory_replenish.Access.{
  Permission, Principal, can_access_store, replenishment_read, replenishment_manage,
  replenishment_execute,
}

pub data TaskStatus : Type 0 where
  open_ claimed in_progress completed canceled expired : TaskStatus

pub data VerificationStatus : Type 0 where
  not_applicable pending verified unverified : VerificationStatus

pub record ReplenishmentTask : Type 0 where
  pub id : Uuid
  pub tenant_id : Uuid
  pub store_id : Uuid
  pub sku_id : Uuid
  pub policy_version_id : Uuid
  pub policy_rule_id : Uuid
  pub status : TaskStatus
  pub quantity : ℕ
  pub verified_quantity : ℕ
  pub verification_deadline : Option Instant
  pub version : ℕ
  pub claimed_by_user_id : Option Uuid
  pub claimed_at : Option Instant
  pub started_at : Option Instant
  pub completed_at : Option Instant
  pub expires_at : Option Instant
  pub note : Option Text
  pub created_at : Instant
  pub updated_at : Instant

-- `note` is `none` where the request does not set the field.
pub record TaskPatch : Type 0 where
  pub status : TaskStatus
  pub version : ℕ
  pub note : Option (Option Text)

abbrev pub status_index : TaskStatus → ℕ
status_index open_ = 0
status_index claimed = 1
status_index in_progress = 2
status_index completed = 3
status_index canceled = 4
status_index expired = 5

abbrev pub same_status : TaskStatus → TaskStatus → Bool
same_status a b = status_index a == status_index b

-- `evaluated_at` is the argument, or the clock where the caller gives none.
unfoldable pub replenishment_verification_status : ReplenishmentTask → Instant → VerificationStatus
replenishment_verification_status task now =
    if not (same_status task.status completed)
    then not_applicable
    else if not (ltb task.verified_quantity task.quantity)
    then verified
    else elim task.verification_deadline [
      | none ↦ pending
      | some deadline ↦ if not (ltb now deadline) then unverified else pending
    ]

unfoldable pub ensure_store_scope : Principal → Permission → Uuid → Result (Unit {0})
ensure_store_scope principal permission store_id =
    if not (can_access_store principal permission store_id)
    then raise 403 store_scope_denied
    else ok tt

-- The dictionary `allowed`.
unfoldable pub allowed : TaskStatus → List TaskStatus
allowed open_ = claimed ∷ []
allowed claimed = in_progress ∷ []
allowed in_progress = completed ∷ []
allowed completed = []
allowed canceled = []
allowed expired = []

unfoldable pub is_active : TaskStatus → Bool
is_active status = any (same_status status) (open_ ∷ claimed ∷ in_progress ∷ [])

-- The `if`/`elif` on the requested status.
unfoldable pub check_transition : Bool → TaskStatus → TaskStatus → Result (Unit {0})
unfolding allowed is_active any
check_transition manager current requested =
    if any (same_status requested) (canceled ∷ expired ∷ [])
    then (if not manager
        then raise 403 task_transition_forbidden
        else if not (is_active current)
        then raise 409 invalid_task_transition
        else ok tt)
    else if not (any (same_status requested) (allowed current))
    then raise 409 invalid_task_transition
    else ok tt

unfoldable pub check_claimant : Principal → Bool → ReplenishmentTask → Result (Unit {0})
unfolding any
check_claimant principal manager task =
    if any (same_status task.status) (claimed ∷ in_progress ∷ [])
      && not (task.claimed_by_user_id ==? some principal.user_id)
      && not manager
    then raise 403 task_claim_denied
    else ok tt

-- The checks between the SELECT and the UPDATE.
unfoldable pub check_patch : Principal → ReplenishmentTask → TaskPatch → Result (Unit {0})
unfolding ensure_store_scope check_transition check_claimant
check_patch principal task request = do
  ensure_store_scope principal replenishment_execute task.store_id
  let manager = can_access_store principal replenishment_manage task.store_id
  check_transition manager task.status request.status
  check_claimant principal manager task

-- The dictionary `values`, as it changes a row.
unfoldable pub status_values :
    Uuid → Instant → ℕ → TaskStatus → ReplenishmentTask → ReplenishmentTask
status_values user_id now window claimed row = record row {
  claimed_by_user_id = some user_id;
  claimed_at = some now;
}
status_values user_id now window in_progress row = record row { started_at = some now }
status_values user_id now window completed row = record row {
  completed_at = some now;
  verification_deadline = some (now + seconds window);
}
status_values user_id now window expired row = record row { expires_at = some now }
status_values user_id now window open_ row = row
status_values user_id now window canceled row = row

unfoldable pub patched : Uuid → Instant → ℕ → TaskPatch → ReplenishmentTask → ReplenishmentTask
unfolding status_values
patched user_id now window request row =
    let stamped = status_values user_id now window request.status row in
    record stamped {
      status = request.status;
      version = request.version + 1;
      updated_at = now;
      note = elim request.note [ none ↦ row.note | some note ↦ note ];
    }

abbrev pub is_task : Uuid → Uuid → ReplenishmentTask → Bool
is_task tenant_id task_id row = row.tenant_id == tenant_id && row.id == task_id

-- The WHERE clause of the UPDATE.
abbrev pub is_task_version : Uuid → Uuid → ℕ → ReplenishmentTask → Bool
is_task_version tenant_id task_id version row =
    row.id == task_id && row.tenant_id == tenant_id && row.version == version

or_assertion_error : Option ReplenishmentTask → Result ReplenishmentTask
or_assertion_error none = raise 500 assertion_error
or_assertion_error (some task) = ok task

-- The compare-and-set, and the task as it stands after the commit.
unfoldable pub commit_patch :
    Principal
    → ReplenishmentTask
    → TaskPatch
    → Instant
    → ℕ
    → List ReplenishmentTask
    → Result ReplenishmentTask × List ReplenishmentTask
unfolding or_assertion_error
commit_patch principal task request now window current =
    let matches = is_task_version principal.tenant_id task.id request.version in
    let changed = update_where matches (patched principal.user_id now window request) current in
    if not (count_where matches current == 1)
    then (raise 409 task_version_conflict, current)
    else (or_assertion_error (find (is_task principal.tenant_id task.id) changed), changed)

-- `read` is the table at the SELECT, `current` the table at the UPDATE.
unfoldable pub patch_replenishment_task :
    Principal
    → Uuid
    → TaskPatch
    → Instant
    → ℕ
    → List ReplenishmentTask
    → List ReplenishmentTask
    → Result ReplenishmentTask × List ReplenishmentTask
patch_replenishment_task principal task_id request now window read current =
    elim (find (is_task principal.tenant_id task_id) read) [
      | none ↦ (raise 404 task_not_found, current)
      | some task ↦ elim (check_patch principal task request) [
        | err e ↦ (err e, current)
        | ok _ ↦ commit_patch principal task request now window current
      ]
    ]

-- ORDER BY created_at DESC, id DESC
abbrev newest_first : ReplenishmentTask → ReplenishmentTask → Bool
newest_first a b =
    ltb b.created_at a.created_at || (a.created_at == b.created_at && not (ltb a.id b.id))

-- The tasks of one page, and how many there are. `store_exists` is the SELECT on the stores.
unfoldable pub list_store_tasks :
    Principal
    → Uuid
    → Option TaskStatus
    → ℕ
    → ℕ
    → (Uuid → Uuid → Bool)
    → List ReplenishmentTask
    → Result (List ReplenishmentTask × ℕ)
unfolding ensure_store_scope
list_store_tasks principal store_id status limit offset store_exists tasks = do
  ensure_store_scope principal replenishment_read store_id
  let predicate = λ (row : ReplenishmentTask).
      row.tenant_id == principal.tenant_id
      && row.store_id == store_id
      && elim status [ none ↦ true | some wanted ↦ same_status row.status wanted ]
  let rows = select predicate tasks
  if not (store_exists principal.tenant_id store_id)
      then raise 404 store_not_found
      else ok (take limit (drop offset (sort_by newest_first rows)), count_where predicate tasks)
