-- ===== src/Inventory/Rebuild.antt =====
-- The projection rebuilt from the state of the items (`rebuild_inventory_projection` of
-- `src/abacus/services/streaming_inventory.py`; rows of `src/abacus/models/architecture.py`). The
-- outbox is read twice, before and after the items: each reading is the table of that moment.
use rfid_inventory_replenish.Prelude.{
  ℕ, suc, max, Bool, not, ◌&&◌, ◌||◌, Option, none, some, List, [], ◌∷◌, ◌++◌, map, select, any,
  update_where, is_none, is_some, ◌==◌, if◌then◌else◌, length,
}
use rfid_inventory_replenish.Domain.{Uuid, Text, Instant, Result, ok, raise, runtime_error}
use rfid_inventory_replenish.Connectivity.{StoreConnectivity, CurrentItemState}
use rfid_inventory_replenish.Inventory.Groups.{BucketKey, Group, grouped}
use rfid_inventory_replenish.Inventory.Projection.{
  InventoryDeltaEvent, InventoryProjection, InventoryDb, stored_freshness,
}

-- `deltas` is the JSON list as it is decoded.
pub record InventoryTransitionOutbox (F : Type 0) : Type 0 where
  pub transition_id : Uuid
  pub tenant_id : Uuid
  pub epc : Text
  pub state_version : ℕ
  pub deltas : List (InventoryDeltaEvent F)
  pub created_at : Instant
  pub published_at : Option Instant
  pub quarantined_at : Option Instant
  pub quarantine_reason : Option Text
  pub reconciled_at : Option Instant
  pub publish_attempts : ℕ
  pub last_error : Option Text

abbrev pub is_pending : {F : Type 0} → Uuid → InventoryTransitionOutbox F → Bool
is_pending t row = row.tenant_id == t && is_none row.published_at && is_none row.quarantined_at

-- An item with the bucket that it is in.
pub record LocatedItem (F : Type 0) : Type 0 where
  pub key : BucketKey
  pub item : CurrentItemState F

-- WHERE tenant_id = t AND store_id IS NOT NULL AND zone_id IS NOT NULL
unfoldable pub located_items :
    {F : Type 0} → Uuid → List (CurrentItemState F) → List (LocatedItem F)
located_items t [] = []
located_items t (item ∷ items) =
    let rest = located_items t items in
    elim item.store_id [
      | none ↦ rest
      | some store ↦ elim item.zone_id [
        | none ↦ rest
        | some zone ↦
            let here : LocatedItem _ = record {
              key = record { store_id = store; sku_id = item.sku_id; zone_id = zone };
              item = item;
            } in
            if item.tenant_id == t then here ∷ rest else rest
      ]
    ]

abbrev pub located_key : {F : Type 0} → LocatedItem F → BucketKey
located_key located = located.key

unfoldable pub newest : {F : Type 0} → Instant → List (LocatedItem F) → Instant
newest at [] = at
newest at (x ∷ xs) = newest (max at x.item.last_observed_at) xs

module _ {F : Type 0} (lt_float : F → F → Bool) where
  unfoldable pub lowest : F → List (LocatedItem F) → F
  lowest c [] = c
  lowest c (x ∷ xs) = lowest (if lt_float x.item.confidence c then x.item.confidence else c) xs

  unfoldable pub rebuilt_row :
      List StoreConnectivity → Uuid → Group (LocatedItem F) → InventoryProjection F
  rebuilt_row connectivity t group = record {
    tenant_id = t;
    store_id = group.key.store_id;
    sku_id = group.key.sku_id;
    zone_id = group.key.zone_id;
    quantity = suc (length group.rest);
    as_of = newest group.first.item.last_observed_at group.rest;
    confidence = lowest group.first.item.confidence group.rest;
    freshness_status = stored_freshness t group.key.store_id connectivity;
  }

  unfoldable pub rebuilt_projections :
      Uuid → List (CurrentItemState F) → InventoryDb F → List (InventoryProjection F)
  rebuilt_projections t items db =
      map (rebuilt_row db.connectivity t) (grouped located_key (located_items t items))
      ++ select (λ p. not (p.tenant_id == t)) db.projections

  unfoldable pub reconciled_outbox :
      Uuid → Instant → List (InventoryTransitionOutbox F) → List (InventoryTransitionOutbox F)
  reconciled_outbox t now =
      update_where
        (λ row. row.tenant_id == t && is_some row.quarantined_at && is_none row.reconciled_at)
        (λ row. record row { reconciled_at = some now })

  -- The number of buckets, the tables of the inventory and the outbox.
  unfoldable pub rebuild_inventory_projection :
      Uuid
      → Instant
      → (before : List (InventoryTransitionOutbox F)) → List (CurrentItemState F)
      → (after : List (InventoryTransitionOutbox F)) → InventoryDb F
      → Result (ℕ × InventoryDb F × List (InventoryTransitionOutbox F))
  rebuild_inventory_projection t now before items after db =
      if any (is_pending t) before || any (is_pending t) after
      then raise 500 runtime_error
      else ok (
        length (grouped located_key (located_items t items)),
        (record db {
          projections = rebuilt_projections t items db;
          connectivity =
              update_where (λ row. row.tenant_id == t)
                (λ row. record row { inventory_reconciliation_required_at = none }) db.connectivity;
        }),
        reconciled_outbox t now after,
      )
