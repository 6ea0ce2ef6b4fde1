-- ===== src/Streaming/Attribution.antt =====
-- `_attribute_replenishment_move` (`src/abacus/services/streaming_inventory.py`): a confirmed move
-- from the backroom to the sales floor is evidence for at most one task.
use rfid_inventory_replenish.Prelude.{
  ℕ, ◌+◌, min, ltb, leb, Bool, true, false, not, ◌&&◌, ◌||◌, Option, none, some, List, ◌∷◌, find,
  select, first_by, update_where, ◌==◌, if◌then◌else◌,
}
use rfid_inventory_replenish.Domain.{Uuid, Text, Instant}
use rfid_inventory_replenish.Evaluation.Snapshots.{ZoneKind, sales_floor, backroom}
use rfid_inventory_replenish.Tasks.{TaskStatus, in_progress, completed, ReplenishmentTask}
use rfid_inventory_replenish.Streaming.Rows.{Zone, ReplenishmentTaskEvidence}

abbrev pub is_sales_floor : ZoneKind → Bool
is_sales_floor sales_floor = true
is_sales_floor _ = false

abbrev pub is_backroom : ZoneKind → Bool
is_backroom backroom = true
is_backroom _ = false

-- `zone_kinds.get(zone_id)`
unfoldable pub zone_kind : Uuid → Uuid → Uuid → List Zone → Option ZoneKind
zone_kind tenant store zone zones =
    elim (find (λ row. row.tenant_id == tenant && row.store_id == store && row.id == zone) zones) [
      | none ↦ none
      | some row ↦ some row.kind
    ]

abbrev kind_is : (ZoneKind → Bool) → Option ZoneKind → Bool
kind_is test none = false
kind_is test (some kind) = test kind

abbrev is_in_progress : TaskStatus → Bool
is_in_progress in_progress = true
is_in_progress _ = false

-- The status, with the deadline of a completed task.
abbrev pub takes_evidence : Instant → ReplenishmentTask → Bool
takes_evidence observed_at task = elim task.status [
  | in_progress ↦ true
  | completed ↦ elim task.verification_deadline [
    | none ↦ false
    | some deadline ↦ leb observed_at deadline
  ]
  | _ ↦ false
]

abbrev pub started_by : Instant → ReplenishmentTask → Bool
started_by observed_at task = elim task.started_at [ none ↦ false | some at ↦ leb at observed_at ]

unfoldable pub is_attributable : Uuid → Uuid → Uuid → Instant → ReplenishmentTask → Bool
is_attributable tenant store sku observed_at task =
    task.tenant_id == tenant
    && task.store_id == store
    && task.sku_id == sku
    && started_by observed_at task
    && ltb task.verified_quantity task.quantity
    && takes_evidence observed_at task

abbrev start_of : ReplenishmentTask → ℕ
start_of task = elim task.started_at [ none ↦ 0 | some at ↦ at ]

-- Tasks in progress first, then the latest start, then the greatest id.
unfoldable pub attribution_order : ReplenishmentTask → ReplenishmentTask → Bool
attribution_order a b =
    let later =
      ltb (start_of b) (start_of a) || (start_of a == start_of b && not (ltb a.id b.id)) in
    if is_in_progress a.status
    then not (is_in_progress b.status) || later
    else not (is_in_progress b.status) && later

unfoldable pub verified_once : ReplenishmentTask → ReplenishmentTask
verified_once task = record task {
  verified_quantity = min task.quantity (task.verified_quantity + 1);
  version = task.version + 1;
}

-- A move of an item between two zones of a store.
pub record ItemMove : Type 0 where
  pub tenant_id : Uuid
  pub transition_id : Uuid
  pub epc : Text
  pub sku_id : Uuid
  pub store_id : Uuid
  pub previous_zone_id : Uuid
  pub next_zone_id : Uuid
  pub observed_at : Instant

unfoldable pub attributed_task : ItemMove → List ReplenishmentTask → Option ReplenishmentTask
attributed_task move tasks =
    first_by attribution_order
      (select (is_attributable move.tenant_id move.store_id move.sku_id move.observed_at) tasks)

-- From the backroom to the sales floor.
unfoldable pub is_restock : ItemMove → List Zone → Bool
is_restock move zones =
    kind_is is_backroom (zone_kind move.tenant_id move.store_id move.previous_zone_id zones)
    && kind_is is_sales_floor (zone_kind move.tenant_id move.store_id move.next_zone_id zones)

-- The tasks and the evidence after a move.
unfoldable pub attribute_replenishment_move :
    ItemMove
    → List Zone
    → List ReplenishmentTask
    → List ReplenishmentTaskEvidence
    → List ReplenishmentTask × List ReplenishmentTaskEvidence
attribute_replenishment_move move zones tasks evidence =
    if not (is_restock move zones) then (tasks, evidence) else elim (attributed_task move tasks) [
      | none ↦ (tasks, evidence)
      | some task ↦ (
        update_where (λ row. row.id == task.id) verified_once tasks,
        (record {
          tenant_id = move.tenant_id;
          task_id = task.id;
          transition_id = move.transition_id;
          epc = move.epc;
          observed_at = move.observed_at;
        })
            ∷ evidence,
      )
    ]
