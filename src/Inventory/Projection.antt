-- ===== src/Inventory/Projection.antt =====
-- The deltas of the inventory and the projection that they are applied to
-- (`src/abacus/events/inventory.py`; `apply_inventory_deltas` of
-- `src/abacus/services/streaming_inventory.py`; rows of `src/abacus/models/architecture.py`). `F` is
-- the type of floats and `lt_float` their `<`. The advisory lock makes one call of a tenant follow
-- another, so a call is one step on the tables; an exception leaves them as they are.
use rfid_inventory_replenish.Prelude.{
  ℕ, max, Bool, not, ◌&&◌, Option, none, some, List, [], ◌∷◌, ◌++◌, map, find, select, any, all,
  update_where, ◌==◌, if◌then◌else◌, ℤ, pos, negsuc, ◌+ℤ◌, length,
}
use rfid_inventory_replenish.Domain.{Uuid, Text, Instant, Result, ok, raise, ◌>>=◌, value_error}
use rfid_inventory_replenish.Connectivity.{
  FreshnessStatus, stale, StoreConnectivity, is_connectivity,
}
use rfid_inventory_replenish.Inventory.Groups.{BucketKey, same_key, Group, grouped, group_sum}

pub record InventoryDeltaEvent (F : Type 0) : Type 0 where
  pub schema_version : ℕ
  pub delta_id : Text
  pub transition_id : Uuid
  pub tenant_id : Uuid
  pub store_id : Uuid
  pub sku_id : Uuid
  pub zone_id : Uuid
  pub epc : Text
  pub quantity_delta : ℤ
  pub confidence : F
  pub observed_at : Instant

pub record AppliedInventoryDelta : Type 0 where
  pub delta_id : Text
  pub tenant_id : Uuid
  pub store_id : Uuid
  pub sku_id : Uuid
  pub zone_id : Uuid
  pub quantity_delta : ℤ

-- The check constraint on `quantity` keeps it a natural number.
pub record InventoryProjection (F : Type 0) : Type 0 where
  pub tenant_id : Uuid
  pub store_id : Uuid
  pub sku_id : Uuid
  pub zone_id : Uuid
  pub quantity : ℕ
  pub as_of : Instant
  pub confidence : F
  pub freshness_status : FreshnessStatus

abbrev pub delta_key : {F : Type 0} → InventoryDeltaEvent F → BucketKey
delta_key d = record { store_id = d.store_id; sku_id = d.sku_id; zone_id = d.zone_id }

abbrev pub applied_key : AppliedInventoryDelta → BucketKey
applied_key d = record { store_id = d.store_id; sku_id = d.sku_id; zone_id = d.zone_id }

abbrev pub projection_key : {F : Type 0} → InventoryProjection F → BucketKey
projection_key p = record { store_id = p.store_id; sku_id = p.sku_id; zone_id = p.zone_id }

abbrev pub is_bucket : {F : Type 0} → Uuid → BucketKey → InventoryProjection F → Bool
is_bucket tenant_id key p = p.tenant_id == tenant_id && same_key key (projection_key p)

-- `{item.delta_id: item for item in deltas}`: the last delta of an id, at the place of the first.
unfoldable pub put_delta :
    {F : Type 0}
    → InventoryDeltaEvent F
    → List (InventoryDeltaEvent F)
    → List (InventoryDeltaEvent F)
put_delta d [] = d ∷ []
put_delta d (x ∷ xs) =
    let rest = put_delta d xs in if x.delta_id == d.delta_id then d ∷ xs else x ∷ rest

unfoldable pub put_deltas :
    {F : Type 0}
    → List (InventoryDeltaEvent F)
    → List (InventoryDeltaEvent F)
    → List (InventoryDeltaEvent F)
put_deltas [] seen = seen
put_deltas (d ∷ ds) seen = put_deltas ds (put_delta d seen)

unfoldable pub unique_by_id :
    {F : Type 0} → List (InventoryDeltaEvent F) → List (InventoryDeltaEvent F)
unique_by_id deltas = put_deltas deltas []

abbrev pub applied_row : {F : Type 0} → InventoryDeltaEvent F → AppliedInventoryDelta
applied_row d = record {
  delta_id = d.delta_id;
  tenant_id = d.tenant_id;
  store_id = d.store_id;
  sku_id = d.sku_id;
  zone_id = d.zone_id;
  quantity_delta = d.quantity_delta;
}

abbrev pub is_applied : {F : Type 0} → List AppliedInventoryDelta → InventoryDeltaEvent F → Bool
is_applied applied d = any (λ row. row.delta_id == d.delta_id) applied

-- The deltas that the INSERT … ON CONFLICT DO NOTHING inserts.
unfoldable pub pending :
    {F : Type 0}
    → List AppliedInventoryDelta
    → List (InventoryDeltaEvent F)
    → List (InventoryDeltaEvent F)
pending applied deltas = select (λ d. not (is_applied applied d)) (unique_by_id deltas)

-- `max` over a group.
unfoldable pub latest : {F : Type 0} → Instant → List (InventoryDeltaEvent F) → Instant
latest at [] = at
latest at (d ∷ ds) = latest (max at d.observed_at) ds

unfoldable pub stored_freshness : Uuid → Uuid → List StoreConnectivity → FreshnessStatus
stored_freshness tenant_id store_id rows = elim (find (is_connectivity tenant_id store_id) rows) [
  | none ↦ stale
  | some row ↦ row.freshness_status
]

pub record InventoryDb (F : Type 0) : Type 0 where
  pub applied : List AppliedInventoryDelta
  pub projections : List (InventoryProjection F)
  pub connectivity : List StoreConnectivity

module _ {F : Type 0} (lt_float : F → F → Bool) where
  -- `min` over a group: a later value replaces the least one so far where it is less.
  unfoldable pub least : F → List (InventoryDeltaEvent F) → F
  least c [] = c
  least c (d ∷ ds) = least (if lt_float d.confidence c then d.confidence else c) ds

  -- The row of a group after the group.
  unfoldable pub group_row :
      List StoreConnectivity
      → Uuid
      → Group (InventoryDeltaEvent F)
      → Option (InventoryProjection F)
      → ℕ
      → InventoryProjection F
  group_row connectivity tenant group before quantity =
      let as_of = latest group.first.observed_at group.rest in
      record {
        tenant_id = tenant;
        store_id = group.key.store_id;
        sku_id = group.key.sku_id;
        zone_id = group.key.zone_id;
        quantity = quantity;
        as_of = elim before [ none ↦ as_of | some row ↦ max row.as_of as_of ];
        confidence = least group.first.confidence group.rest;
        freshness_status = stored_freshness tenant group.key.store_id connectivity;
      }

  unfoldable pub apply_group :
      List StoreConnectivity
      → Uuid
      → Group (InventoryDeltaEvent F)
      → List (InventoryProjection F)
      → Result (List (InventoryProjection F))
  apply_group connectivity tenant_id group rows =
      let key = is_bucket tenant_id group.key in
      let delta = group_sum (λ d. d.quantity_delta) group in
      elim (find key rows) [
        | none ↦ elim delta [
          | negsuc _ ↦ raise 500 value_error
          | pos n ↦ ok (group_row connectivity tenant_id group none n ∷ rows)
        ]
        | some row ↦ elim (pos row.quantity +ℤ delta) [
          | negsuc _ ↦ raise 500 value_error
          | pos n ↦
              ok
                (update_where key (λ old. group_row connectivity tenant_id group (some old) n) rows)
        ]
      ]

  unfoldable pub apply_groups :
      List StoreConnectivity
      → Uuid
      → List (Group (InventoryDeltaEvent F))
      → List (InventoryProjection F)
      → Result (List (InventoryProjection F))
  apply_groups connectivity tenant_id [] rows = ok rows
  apply_groups connectivity tenant_id (g ∷ gs) rows =
      apply_group connectivity tenant_id g rows >>= λ rows'.
      apply_groups connectivity tenant_id gs rows'

  -- The number of deltas inserted, and the tables after the call.
  unfoldable pub apply_inventory_deltas :
      List (InventoryDeltaEvent F) → InventoryDb F → Result (ℕ × InventoryDb F)
  apply_inventory_deltas [] db = ok (0, db)
  apply_inventory_deltas (d ∷ ds) db =
      if not (all (λ other. other.tenant_id == d.tenant_id) ds)
      then raise 500 value_error
      else (let inserted = pending db.applied (d ∷ ds) in
          apply_groups db.connectivity d.tenant_id (grouped delta_key inserted) db.projections
          >>= λ rows. ok (
            length inserted,
            (record db { applied = db.applied ++ map applied_row inserted; projections = rows }),
          ))
