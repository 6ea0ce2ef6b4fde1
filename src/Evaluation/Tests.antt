-- ===== src/Evaluation/Tests.antt =====
-- The theorems on evaluations, applied to a store whose floor is short of one SKU.
use rfid_inventory_replenish.Prelude.{
  ℕ, ◌+◌, ◌≤◌, ◌≡◌, ◌≢◌, refl, true, false, none, some, List, [], ◌∷◌, map, arith, ltb, find,
  select, any, sort_by, insert_by,
}
use rfid_inventory_replenish.Domain.{ok, err}
use rfid_inventory_replenish.Access.Tests.{admin}
use rfid_inventory_replenish.Connectivity.Tests.{live_row, settings}
use rfid_inventory_replenish.Connectivity.{stale}
use rfid_inventory_replenish.Policy.Rules.{
  PolicyRule, RuleDescriptor, descriptor, rule_precedence, rules_overlap, first_overlap, candidates,
  choose, ranks_before, select_policy_rule, calculate_replenishment_quantity,
}
use rfid_inventory_replenish.Policy.Selection.{IsBest}
use rfid_inventory_replenish.Policy.Store.{active_rules}
use rfid_inventory_replenish.Policy.Tests.{db, default_rule, store_rule, item, same}
use rfid_inventory_replenish.Evaluation.Snapshots.{
  BucketRow, InventorySnapshot, sales_floor, backroom, receiving, floor_of, backroom_of, stock,
  add_rows, add_row, count_row, effective_bucket_confidence, snapshots-stock,
}
use rfid_inventory_replenish.Evaluation.Decide.{
  create, decide, decide_by, shortage, act, task_of, open_quantity,
}
use rfid_inventory_replenish.Evaluation.Run.{evaluate_replenishment}
use rfid_inventory_replenish.Tasks.{ReplenishmentTask}
use rfid_inventory_replenish.Tasks.Tests.{claimed_task, other_task}
use rfid_inventory_replenish.Evaluation.Kept.{evaluate_replenishment-kept}
use rfid_inventory_replenish.Prelude.{In, inl}
use rfid_inventory_replenish.Evaluation.Decisions.{ChangesOpen, decide_sound}
use rfid_inventory_replenish.Evaluation.Overlap.{overlap_error, evaluate_replenishment-ne-overlap}

-- Floats are percentages here.
abbrev floor_row : BucketRow ℕ
floor_row = record {
  projection = record {
    tenant_id = 5;
    store_id = 7;
    sku_id = 20;
    zone_id = 1;
    quantity = 1;
    as_of = 90;
    confidence = 80;
    freshness_status = stale;
  };
  kind = sales_floor;
  sku_id = 20;
  size = 3;
  style_code = 8;
  category = 9;
  item_count = some 1;
  confidence = some 85;
  sku_active = true;
  product_active = true;
}

abbrev backroom_row : BucketRow ℕ
backroom_row = record floor_row {
  projection = record floor_row.projection { zone_id = 2; quantity = 4 };
  kind = backroom;
  item_count = none;
  confidence = none;
}

abbrev receiving_row : BucketRow ℕ
receiving_row = record floor_row {
  projection = record floor_row.projection { zone_id = 3; quantity = 6 };
  kind = receiving;
}

abbrev rows : List (BucketRow ℕ)
rows = floor_row ∷ backroom_row ∷ receiving_row ∷ []

counted_rows :
    (floor_of 20 (add_rows ltb 0 100 rows []) ≡ 1)
    × (backroom_of 20 (add_rows ltb 0 100 rows []) ≡ 4)
unfolding floor_of backroom_of add_rows add_row count_row effective_bucket_confidence
counted_rows = (refl, refl)

snapshots-stock_example :
    (floor_of 20 (add_rows ltb 0 100 rows []) ≡ stock sales_floor 20 rows)
    × (backroom_of 20 (add_rows ltb 0 100 rows []) ≡ stock backroom 20 rows)
snapshots-stock_example = snapshots-stock ltb 0 100 20 rows

abbrev snapshot : InventorySnapshot ℕ
snapshot = record { item = item; floor_qty = 1; backroom_qty = 3; confidence = 85 }

abbrev rules : List PolicyRule
rules = default_rule ∷ store_rule ∷ []

decision : decide same ltb 70 7 rules [] snapshot ≡ ok (create 20 store_rule 3)
unfolding decide select_policy_rule choose sort_by candidates rule_precedence descriptor insert_by
    ranks_before decide_by shortage calculate_replenishment_quantity task_of find act
decision = refl

decide_sound_example :
    (ltb 85 70 ≡ false)
    × ChangesOpen (create 20 store_rule 3)
    × (3 ≤ 3)
    × ((rule : RuleDescriptor) × (p : ℕ) × IsBest same 7 item (map descriptor rules) p rule
        × (1 + open_quantity (task_of 20 []) + 3 ≤ rule.target_floor_qty))
decide_sound_example =
    decide_sound same ltb 70 7 rules [] snapshot (create 20 store_rule 3) decision
      (λ e. omega (arith, e))

clear : first_overlap same (map descriptor (active_rules db 5)) ≡ none
unfolding first_overlap active_rules select any find rules_overlap descriptor
clear = refl

evaluate_replenishment-ne-overlap_example :
    (evaluate_replenishment same ltb 70 0 100 admin 7 [] settings
      (λ n. n + 300)
      130
      false
      db
      (live_row ∷ [])
      rows
      []).0
    ≢ err overlap_error
evaluate_replenishment-ne-overlap_example =
    evaluate_replenishment-ne-overlap same ltb 70 0 100 admin 7 [] settings (λ n. n + 300) 130 false
      db (live_row ∷ []) rows [] clear

abbrev board : List ReplenishmentTask
board = claimed_task ∷ other_task ∷ []

only_claimed :
    (other : ReplenishmentTask) → In other board → other.id ≡ claimed_task.id → other ≡ claimed_task
only_claimed other i same_id = ground arith

evaluate_replenishment-kept_example :
    In claimed_task
      (evaluate_replenishment same ltb 70 0 100 admin 7 [] settings
        (λ n. n + 300)
        130
        false
        db
        (live_row ∷ [])
        rows
        board).1
evaluate_replenishment-kept_example =
    evaluate_replenishment-kept same ltb 70 0 100 admin 7 [] settings (λ n. n + 300) 130 false db
      (live_row ∷ []) rows board claimed_task (λ e. ground arith) only_claimed (inl refl)
