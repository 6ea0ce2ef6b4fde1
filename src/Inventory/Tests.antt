-- ===== src/Inventory/Tests.antt =====
-- The theorems on the projection, applied to a store with one item that moves to the sales floor.
use rfid_inventory_replenish.Prelude.{
  ℕ, ◌≡◌, refl, false, none, some, List, [], ◌∷◌, any, all, select, find, update_where, count_where,
  ◌==◌, if◌then◌else◌, ltb, ℤ, pos, negsuc, ◌+ℤ◌,
}
use rfid_inventory_replenish.Domain.{ok, err, raise, value_error}
use rfid_inventory_replenish.Connectivity.{CurrentItemState, stale}
use rfid_inventory_replenish.Connectivity.Tests.{live_row}
use rfid_inventory_replenish.Inventory.Groups.{
  BucketKey, grouped, add_all, add_to_groups, group_sum, sum_by,
}
use rfid_inventory_replenish.Inventory.Projection.{
  InventoryDeltaEvent, InventoryProjection, InventoryDb, apply_inventory_deltas, apply_groups,
  apply_group, pending, unique_by_id, put_deltas, put_delta, group_row, latest, least,
  stored_freshness,
}
use rfid_inventory_replenish.Inventory.Quantities.{quantity_at, applied_at}
use rfid_inventory_replenish.Inventory.Balance.{apply_inventory_deltas-balance}
use rfid_inventory_replenish.Inventory.Replay.{apply_inventory_deltas-replay}
use rfid_inventory_replenish.Inventory.Rebuild.{
  InventoryTransitionOutbox, is_pending, rebuild_inventory_projection, located_items,
  rebuilt_projections, rebuilt_row, newest, lowest, reconciled_outbox,
}
use rfid_inventory_replenish.Inventory.Counts.{is_item_at, rebuild_inventory_projection-counts}

-- Floats are percentages here.
abbrev delta : ℕ → ℕ → ℤ → ℕ → InventoryDeltaEvent ℕ
delta id zone quantity confidence = record {
  schema_version = 1;
  delta_id = id;
  transition_id = 40;
  tenant_id = 5;
  store_id = 7;
  sku_id = 30;
  zone_id = zone;
  epc = 1234;
  quantity_delta = quantity;
  confidence = confidence;
  observed_at = 100;
}

abbrev backroom : BucketKey
backroom = record { store_id = 7; sku_id = 30; zone_id = 1 }

abbrev projection : ℕ → ℕ → ℕ → InventoryProjection ℕ
projection zone quantity confidence = record {
  tenant_id = 5;
  store_id = 7;
  sku_id = 30;
  zone_id = zone;
  quantity = quantity;
  as_of = 90;
  confidence = confidence;
  freshness_status = stale;
}

abbrev before : InventoryDb ℕ
before = record { applied = []; projections = projection 1 2 80 ∷ []; connectivity = live_row ∷ [] }

-- One item leaves zone 1 for zone 2, and one delta comes twice.
abbrev move : List (InventoryDeltaEvent ℕ)
move = delta 50 1 (negsuc 0) 70 ∷ delta 51 2 (pos 1) 60 ∷ delta 50 1 (negsuc 0) 75 ∷ []

abbrev outcome : ℕ × InventoryDb ℕ
outcome = elim (apply_inventory_deltas ltb move before) [ ok out ↦ out | err _ ↦ (9, before) ]

move_applies : apply_inventory_deltas ltb move before ≡ ok outcome
unfolding apply_inventory_deltas all apply_groups grouped add_all pending select unique_by_id
    put_deltas put_delta any add_to_groups apply_group find ◌+ℤ◌ group_sum sum_by update_where
    group_row latest least stored_freshness
move_applies = refl

quantities : quantity_at 5 backroom outcome.1.projections ≡ 1
unfolding apply_inventory_deltas all apply_groups grouped add_all pending select unique_by_id
    put_deltas put_delta any add_to_groups apply_group find ◌+ℤ◌ group_sum sum_by update_where
    group_row latest least stored_freshness quantity_at
quantities = refl

starts_negative :
    apply_inventory_deltas ltb (delta 52 3 (negsuc 0) 90 ∷ []) before ≡ raise 500 value_error
unfolding apply_inventory_deltas all apply_groups grouped add_all pending select unique_by_id
    put_deltas put_delta any add_to_groups apply_group find ◌+ℤ◌ group_sum sum_by update_where
    group_row latest least stored_freshness
starts_negative = refl

apply_inventory_deltas-balance_example :
    pos (quantity_at 5 backroom outcome.1.projections) +ℤ applied_at 5 backroom before.applied
    ≡ pos (quantity_at 5 backroom before.projections) +ℤ applied_at 5 backroom outcome.1.applied
apply_inventory_deltas-balance_example =
    apply_inventory_deltas-balance ltb move before outcome.0 outcome.1 5 backroom move_applies

apply_inventory_deltas-replay_example :
    apply_inventory_deltas ltb move outcome.1 ≡ ok (0, outcome.1)
apply_inventory_deltas-replay_example =
    apply_inventory_deltas-replay ltb move before outcome.0 outcome.1 move_applies

abbrev item : ℕ → CurrentItemState ℕ
item epc = record {
  tenant_id = 5;
  epc = epc;
  sku_id = 30;
  store_id = some 7;
  zone_id = some 1;
  last_observed_at = 100;
  last_received_at = 101;
  confidence = 70;
  state_version = 1;
  authoritative_removal_event_id = none;
  authoritative_removed_at = none;
}

abbrev items : List (CurrentItemState ℕ)
items = item 1234 ∷ item 1235 ∷ item 1236 ∷ []

abbrev rebuilt : ℕ × InventoryDb ℕ × List (InventoryTransitionOutbox ℕ)
rebuilt = elim (rebuild_inventory_projection ltb 5 200 [] items [] before) [
  | ok out ↦ out
  | err _ ↦ (9, before, [])
]

rebuild_returns : rebuild_inventory_projection ltb 5 200 [] items [] before ≡ ok rebuilt
unfolding rebuild_inventory_projection any located_items grouped add_all add_to_groups
    rebuilt_projections rebuilt_row newest lowest select update_where reconciled_outbox
    stored_freshness find
rebuild_returns = refl

rebuild_inventory_projection-counts_example :
    (any (is_pending {F = ℕ} 5) [] ≡ false)
    × (any (is_pending {F = ℕ} 5) [] ≡ false)
    × (quantity_at 5 backroom rebuilt.1.projections ≡ (
        if 5 == 5
        then count_where (is_item_at 5 backroom) items
        else quantity_at 5 backroom before.projections))
rebuild_inventory_projection-counts_example =
    rebuild_inventory_projection-counts ltb 5 200 [] items [] before rebuilt 5 backroom
      rebuild_returns
