-- ===== src/Evaluation/Snapshots.antt =====
-- The stock of each SKU on the sales floor and in the backroom (`InventorySnapshot` and the loop over
-- the projections in `evaluate_replenishment`, `src/abacus/services/replenishment.py`;
-- `effective_bucket_confidence`, `src/abacus/services/streaming_inventory.py`). `F` is the type of
-- floats.
use rfid_inventory_replenish.Prelude.{
  ℕ, ◌+◌, ◌≡◌, Bool, true, false, not, ◌&&◌, Option, none, some, List, [], ◌∷◌, arith, any, ◌==◌,
  if◌then◌else◌,
}
use rfid_inventory_replenish.Domain.{Uuid, Text}
use rfid_inventory_replenish.Policy.Rules.{SkuContext}
use rfid_inventory_replenish.Inventory.Projection.{InventoryProjection}

pub data ZoneKind : Type 0 where
  sales_floor backroom receiving other : ZoneKind

-- A row of the joined query, before its WHERE.
pub record BucketRow (F : Type 0) : Type 0 where
  pub projection : InventoryProjection F
  pub kind : ZoneKind
  pub sku_id : Uuid
  pub size : Text
  pub style_code : Text
  pub category : Text
  pub item_count : Option ℕ
  pub confidence : Option F
  pub sku_active : Bool
  pub product_active : Bool

pub record InventorySnapshot (F : Type 0) : Type 0 where
  pub item : SkuContext
  pub floor_qty : ℕ
  pub backroom_qty : ℕ
  pub confidence : F

-- The WHERE of the query, with the filter on the SKUs that the request names, if it names any.
unfoldable pub is_wanted : {F : Type 0} → Uuid → Uuid → List Uuid → BucketRow F → Bool
is_wanted tenant_id store_id [] row =
    row.projection.tenant_id == tenant_id
    && row.projection.store_id == store_id
    && row.sku_active
    && row.product_active
is_wanted tenant_id store_id (sku ∷ skus) row =
    row.projection.tenant_id == tenant_id
    && row.projection.store_id == store_id
    && row.sku_active
    && row.product_active
    && any (λ wanted. wanted == row.projection.sku_id) (sku ∷ skus)

abbrev pub is_counted : {F : Type 0} → BucketRow F → Bool
is_counted row = elim row.kind [ sales_floor ↦ true | backroom ↦ true | _ ↦ false ]

module _ {F : Type 0} (lt_float : F → F → Bool) (zero_float one_float : F) where
  unfoldable pub effective_bucket_confidence : ℕ → Option ℕ → Option F → F
  effective_bucket_confidence quantity none confidence =
      if quantity == 0 then one_float else zero_float
  effective_bucket_confidence quantity (some n) none = zero_float
  effective_bucket_confidence quantity (some n) (some confidence) =
      if not (quantity == n) then zero_float else confidence

  -- The default of `setdefault`.
  abbrev pub empty_snapshot : BucketRow F → InventorySnapshot F
  empty_snapshot row = record {
    item = record {
      sku_id = row.sku_id;
      style_code = row.style_code;
      category = row.category;
      size = row.size;
    };
    floor_qty = 0;
    backroom_qty = 0;
    confidence = one_float;
  }

  unfoldable pub count_row : BucketRow F → InventorySnapshot F → InventorySnapshot F
  count_row row snapshot =
      let quantity = row.projection.quantity in
      let confidence = effective_bucket_confidence quantity row.item_count row.confidence in
      let least =
        if lt_float confidence snapshot.confidence then confidence else snapshot.confidence in
      elim row.kind [
        | sales_floor ↦ record snapshot {
          floor_qty = snapshot.floor_qty + quantity;
          confidence = least;
        }
        | _ ↦ record snapshot {
          backroom_qty = snapshot.backroom_qty + quantity;
          confidence = least;
        }
      ]

  -- The dictionary of the snapshots, in the order in which their SKUs first occur.
  unfoldable pub add_row : BucketRow F → List (InventorySnapshot F) → List (InventorySnapshot F)
  add_row row [] = count_row row (empty_snapshot row) ∷ []
  add_row row (s ∷ ss) =
      let rest = add_row row ss in
      if s.item.sku_id == row.sku_id then count_row row s ∷ ss else s ∷ rest

  unfoldable pub add_rows :
      List (BucketRow F) → List (InventorySnapshot F) → List (InventorySnapshot F)
  add_rows [] snapshots = snapshots
  add_rows (row ∷ rows) snapshots =
      add_rows rows (if is_counted row then add_row row snapshots else snapshots)

-- The quantities of a SKU, 0 where it has no snapshot.
unfoldable pub floor_of : {F : Type 0} → Uuid → List (InventorySnapshot F) → ℕ
floor_of sku [] = 0
floor_of sku (s ∷ ss) =
    let rest = floor_of sku ss in if s.item.sku_id == sku then s.floor_qty else rest

unfoldable pub backroom_of : {F : Type 0} → Uuid → List (InventorySnapshot F) → ℕ
backroom_of sku [] = 0
backroom_of sku (s ∷ ss) =
    let rest = backroom_of sku ss in if s.item.sku_id == sku then s.backroom_qty else rest

-- What the rows hold of a SKU in the zones of one kind.
abbrev pub is_kind : ZoneKind → ZoneKind → Bool
is_kind sales_floor sales_floor = true
is_kind backroom backroom = true
is_kind receiving receiving = true
is_kind other other = true
is_kind _ _ = false

unfoldable pub stock : {F : Type 0} → ZoneKind → Uuid → List (BucketRow F) → ℕ
stock kind sku [] = 0
stock kind sku (row ∷ rows) =
    (if is_kind kind row.kind && row.sku_id == sku then row.projection.quantity else 0)
    + stock kind sku rows

module _ {F : Type 0} (lt_float : F → F → Bool) (zero_float one_float : F) (sku : Uuid) where
  floor_of-add_row :
      (row : BucketRow F) (ss : List (InventorySnapshot F))
      → is_counted row ≡ true
      → floor_of sku (add_row lt_float zero_float one_float row ss)
        ≡ floor_of sku ss + stock sales_floor sku (row ∷ [])
  unfolding floor_of add_row count_row stock
  floor_of-add_row row [] counted = ground arith
  floor_of-add_row row (s ∷ ss) counted = ground (arith, floor_of-add_row row ss counted)

  backroom_of-add_row :
      (row : BucketRow F) (ss : List (InventorySnapshot F))
      → is_counted row ≡ true
      → backroom_of sku (add_row lt_float zero_float one_float row ss)
        ≡ backroom_of sku ss + stock backroom sku (row ∷ [])
  unfolding backroom_of add_row count_row stock
  backroom_of-add_row row [] counted = ground arith
  backroom_of-add_row row (s ∷ ss) counted = ground (arith, backroom_of-add_row row ss counted)

  counted_row :
      (row : BucketRow F) (ss : List (InventorySnapshot F))
      → let next = if is_counted row then add_row lt_float zero_float one_float row ss else ss in
        (floor_of sku next ≡ floor_of sku ss + stock sales_floor sku (row ∷ []))
        × (backroom_of sku next ≡ backroom_of sku ss + stock backroom sku (row ∷ []))
  unfolding stock
  counted_row row ss =
      (ground (arith, floor_of-add_row row ss), ground (arith, backroom_of-add_row row ss))

  add_rows_counted :
      (rows : List (BucketRow F)) (ss : List (InventorySnapshot F))
      → (floor_of sku (add_rows lt_float zero_float one_float rows ss)
          ≡ floor_of sku ss + stock sales_floor sku rows)
        × (backroom_of sku (add_rows lt_float zero_float one_float rows ss)
            ≡ backroom_of sku ss + stock backroom sku rows)
  unfolding add_rows stock
  add_rows_counted [] ss = (omega arith, omega arith)
  add_rows_counted (row ∷ rows) ss =
      let next = if is_counted row then add_row lt_float zero_float one_float row ss else ss in
      let (floor, back) = add_rows_counted rows next in
      let (here, there) = counted_row row ss in
      (omega (arith, floor, here), omega (arith, back, there))

  -- The floor quantity of a SKU's snapshot is the sum of the quantities of the rows of the SKU in
  -- sales floor zones, and its backroom quantity the sum of those in backroom zones; both are 0
  -- where the SKU has no snapshot. So the rows in receiving and other zones count in neither.
  pub snapshots-stock :
      (rows : List (BucketRow F))
      → (floor_of sku (add_rows lt_float zero_float one_float rows []) ≡ stock sales_floor sku rows)
        × (backroom_of sku (add_rows lt_float zero_float one_float rows [])
            ≡ stock backroom sku rows)
  unfolding floor_of backroom_of
  snapshots-stock rows =
      let (floor, back) = add_rows_counted rows [] in (omega (arith, floor), omega (arith, back))
