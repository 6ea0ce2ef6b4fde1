-- ===== src/Inventory/Counts.antt =====
-- What `rebuild_inventory_projection` leaves in the projection.
use rfid_inventory_replenish.Prelude.{
  ℕ, suc, ◌≡◌, refl, ap, ◌∙◌, inl, inr, Bool, false, not, ◌&&◌, some, List, [], ◌∷◌, ◌++◌, map,
  arith, select, any, count_where, ◌==◌, ◌==?◌, if◌then◌else◌, ℤ, pos, ◌+ℤ◌, Bool-cases, ==_refl,
  subst, Option-cases, length,
}
use rfid_inventory_replenish.Domain.{Uuid, Instant, ok}
use rfid_inventory_replenish.Connectivity.{StoreConnectivity, CurrentItemState}
use rfid_inventory_replenish.Inventory.Groups.{
  BucketKey, Group, grouped, group_sum, found_sum, found_sum-grouped, sum_at, sum_by,
}
use rfid_inventory_replenish.Inventory.Projection.{InventoryProjection, InventoryDb}
use rfid_inventory_replenish.Inventory.Quantities.{quantity_at}
use rfid_inventory_replenish.Inventory.Rebuild.{
  InventoryTransitionOutbox, is_pending, LocatedItem, located_items, located_key, rebuilt_row,
  rebuilt_projections, rebuild_inventory_projection,
}

-- The items of a tenant that are in a bucket.
abbrev pub is_item_at : {F : Type 0} → Uuid → BucketKey → CurrentItemState F → Bool
is_item_at t k item =
    item.tenant_id == t
    && item.sku_id == k.sku_id
    && item.store_id ==? some k.store_id
    && item.zone_id ==? some k.zone_id

abbrev one : {Row : Type 0} → Row → ℤ
one row = pos 1

sum_by-one : {Row : Type 0} (xs : List Row) → sum_by one xs ≡ pos (length xs)
unfolding sum_by ◌+ℤ◌
sum_by-one [] = refl
sum_by-one (x ∷ xs) = rw (sum_by-one xs) (ground arith)

group_sum-one : {Row : Type 0} (g : Group Row) → group_sum one g ≡ pos (suc (length g.rest))
unfolding group_sum ◌+ℤ◌
group_sum-one g = rw (sum_by-one g.rest) (ground arith)

module _ {F : Type 0} where
  sum_at-located :
      (t : Uuid) (k : BucketKey) (items : List (CurrentItemState F))
      → sum_at located_key k one (located_items t items) ≡ pos (count_where (is_item_at t k) items)
  unfolding sum_at located_items count_where ◌+ℤ◌
  sum_at-located t k [] = refl
  sum_at-located t k (item ∷ items) = elim (Option-cases item.store_id) [
    | inl e ↦ ground (arith, sum_at-located t k items)
    | inr (store, e) ↦ elim (Option-cases item.zone_id) [
      | inl f ↦ ground (arith, sum_at-located t k items)
      | inr (zone, f) ↦ ground (arith, sum_at-located t k items)
    ]
  ]

  quantity_at-kept :
      (t : Uuid) (k : BucketKey) (t' : Uuid) (rows : List (InventoryProjection F))
      → quantity_at t k (select (λ p. not (p.tenant_id == t')) rows)
        ≡ (if t' == t then 0 else quantity_at t k rows)
  unfolding quantity_at select
  quantity_at-kept t k t' [] = ground arith
  quantity_at-kept t k t' (p ∷ ps) = ground (arith, quantity_at-kept t k t' ps)

module _ {F : Type 0} (lt_float : F → F → Bool) (connectivity : List StoreConnectivity) where
  quantity_at-rebuilt :
      (t : Uuid) (k : BucketKey) (gs : List (Group (LocatedItem F)))
      (rest : List (InventoryProjection F))
      → quantity_at t k rest ≡ 0
      → pos (quantity_at t k (map (rebuilt_row lt_float connectivity t) gs ++ rest))
        ≡ found_sum one k gs
  unfolding quantity_at found_sum rebuilt_row
  quantity_at-rebuilt t k [] rest empty = ap pos empty
  quantity_at-rebuilt t k (g ∷ gs) rest empty =
      ground (arith, group_sum-one g, quantity_at-rebuilt t k gs rest empty)

  quantity_at-other :
      (t : Uuid) (k : BucketKey) (t' : Uuid) (gs : List (Group (LocatedItem F)))
      (rest : List (InventoryProjection F))
      → (t' == t) ≡ false
      → quantity_at t k (map (rebuilt_row lt_float connectivity t') gs ++ rest)
        ≡ quantity_at t k rest
  unfolding quantity_at rebuilt_row
  quantity_at-other t k t' [] rest other = refl
  quantity_at-other t k t' (g ∷ gs) rest other = ground (arith, quantity_at-other t k t' gs rest)

rebuilt-count :
    {F : Type 0} (lt_float : F → F → Bool) (t : Uuid) (k : BucketKey) (t' : Uuid)
    (items : List (CurrentItemState F)) (db : InventoryDb F)
    → quantity_at t k (rebuilt_projections lt_float t' items db)
      ≡ (if t' == t then count_where (is_item_at t k) items else quantity_at t k db.projections)
unfolding rebuilt_projections
rebuilt-count lt_float t k t' items db = elim (Bool-cases (t' == t)) [
  | inl e ↦
      let same : t' ≡ t = ground arith in
      let cleared = quantity_at-kept t k t' db.projections ∙ rw e refl in
      let counted =
        quantity_at-rebuilt lt_float db.connectivity t k
          (grouped located_key (located_items t items))
          (select (λ p. not (p.tenant_id == t)) db.projections)
          (subst (λ x. quantity_at t k (select (λ p. not (p.tenant_id == x)) db.projections) ≡ 0)
            same cleared)
        ∙ found_sum-grouped located_key one k (located_items t items)
        ∙ sum_at-located t k items in
      rw (same, ==_refl t) (ground (arith, counted))
  | inr e ↦ rw e (
      quantity_at-other lt_float db.connectivity t k t' _ _ e
      ∙ quantity_at-kept t k t' db.projections
      ∙ rw e refl)
]

-- A rebuild that returns saw no pending transition in the outbox at either reading. It leaves in
-- each bucket of the tenant as many as there are items of the tenant in the bucket, and leaves the
-- buckets of other tenants as they were.
pub rebuild_inventory_projection-counts :
    {F : Type 0} (lt_float : F → F → Bool) (t' : Uuid) (now : Instant)
    (before : List (InventoryTransitionOutbox F)) (items : List (CurrentItemState F))
    (after : List (InventoryTransitionOutbox F)) (db : InventoryDb F)
    (out : ℕ × InventoryDb F × List (InventoryTransitionOutbox F)) (t : Uuid) (k : BucketKey)
    → rebuild_inventory_projection lt_float t' now before items after db ≡ ok out
    → (any (is_pending t') before ≡ false)
      × (any (is_pending t') after ≡ false)
      × (quantity_at t k out.1.projections ≡ (
          if t' == t then count_where (is_item_at t k) items else quantity_at t k db.projections))
unfolding rebuild_inventory_projection
rebuild_inventory_projection-counts lt_float t' now before items after db out t k h =
    let same : rebuilt_projections lt_float t' items db ≡ out.1.projections = ground arith in
    (ground arith, ground arith, rw (← same) (rebuilt-count lt_float t k t' items db))
