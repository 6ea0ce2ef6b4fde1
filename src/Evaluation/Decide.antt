-- ===== src/Evaluation/Decide.antt =====
-- What an evaluation decides for each SKU (the body of the loop of `evaluate_replenishment`,
-- `src/abacus/services/replenishment.py`). The primary keys make the first row of an id the only one.
use rfid_inventory_replenish.Prelude.{
  ℕ, Bool, true, false, ◌&&◌, ◌||◌, Option, none, some, List, [], ◌∷◌, map, find, select, is_none,
  ◌==◌, if◌then◌else◌,
}
use rfid_inventory_replenish.Domain.{
  Uuid, Text, Result, ok, raise, active_policy_overlap, key_error,
}
use rfid_inventory_replenish.Connectivity.{FreshnessStatus, live}
use rfid_inventory_replenish.Policy.Rules.{
  PolicyRule, RuleDescriptor, descriptor, chosen, no_rule, ambiguous, select_policy_rule,
  calculate_replenishment_quantity,
}
use rfid_inventory_replenish.Policy.Store.{StoreStatus}
use rfid_inventory_replenish.Tasks.{TaskStatus, open_, claimed, in_progress, ReplenishmentTask}
use rfid_inventory_replenish.Evaluation.Snapshots.{InventorySnapshot}

abbrev pub is_active_status : TaskStatus → Bool
is_active_status open_ = true
is_active_status claimed = true
is_active_status in_progress = true
is_active_status _ = false

abbrev pub is_open : TaskStatus → Bool
is_open open_ = true
is_open _ = false

abbrev pub is_active_store : StoreStatus → Bool
is_active_store StoreStatus.active = true
is_active_store _ = false

abbrev pub is_live : FreshnessStatus → Bool
is_live live = true
is_live _ = false

unfoldable pub active_tasks : Uuid → Uuid → List ReplenishmentTask → List ReplenishmentTask
active_tasks tenant_id store_id = select (λ task.
    task.tenant_id == tenant_id && task.store_id == store_id && is_active_status task.status)

-- `{task.sku_id: task for task in rows}.get(sku_id)`: the last row of the SKU.
unfoldable pub task_of : Uuid → List ReplenishmentTask → Option ReplenishmentTask
task_of sku [] = none
task_of sku (task ∷ tasks) = elim (task_of sku tasks) [
  | some later ↦ some later
  | none ↦ if task.sku_id == sku then some task else none
]

abbrev pub open_quantity : Option ReplenishmentTask → ℕ
open_quantity none = 0
open_quantity (some task) = task.quantity

-- What the body of the loop does with a snapshot: `continue` with a low confidence or with nothing
-- to do, a larger task, a shortage behind a task that a picker has, or a new task.
pub data Decision : Type 0 where
  low_confidence nothing : Decision
  enlarge : ReplenishmentTask → PolicyRule → ℕ → Decision
  defer : ℕ → Decision
  create : Uuid → PolicyRule → ℕ → Decision

unfoldable pub shortage :
    {F : Type 0} → InventorySnapshot F → RuleDescriptor → Option ReplenishmentTask → ℕ
shortage snapshot rule task =
    calculate_replenishment_quantity snapshot.floor_qty snapshot.backroom_qty (open_quantity task)
      rule.min_floor_qty rule.target_floor_qty

unfoldable pub act : Uuid → PolicyRule → ℕ → Option ReplenishmentTask → Decision
act sku rule quantity none = create sku rule quantity
act sku rule quantity (some task) =
    if is_open task.status then enlarge task rule quantity else defer quantity

-- The part of the body after the choice of a rule.
unfoldable pub decide_by :
    {F : Type 0}
    → InventorySnapshot F
    → List PolicyRule
    → List ReplenishmentTask
    → RuleDescriptor
    → Result Decision
decide_by snapshot rules active rule =
    let task = task_of snapshot.item.sku_id active in
    let quantity = shortage snapshot rule task in
    elim rule.id [
      | none ↦ ok nothing
      | some id ↦
          if is_none rule.version_id || quantity == 0
          then ok nothing
          else elim (find (λ model. model.id == id) rules) [
            | none ↦ raise 500 key_error
            | some model ↦ ok (act snapshot.item.sku_id model quantity task)
          ]
    ]

module _ (casefold : Text → Text) {F : Type 0} (lt_float : F → F → Bool) where
  unfoldable pub decide :
      F → Uuid → List PolicyRule → List ReplenishmentTask → InventorySnapshot F → Result Decision
  decide minimum store_id rules active snapshot =
      if lt_float snapshot.confidence minimum
      then ok low_confidence
      else elim (select_policy_rule casefold (map descriptor rules) store_id snapshot.item) [
        | ambiguous ↦ raise 409 active_policy_overlap
        | no_rule ↦ ok nothing
        | chosen rule ↦ decide_by snapshot rules active rule
      ]
