-- ===== src/Inventory/Quantities.antt =====
-- The quantity of a bucket in the projection, and the sum of the deltas recorded for it.
use rfid_inventory_replenish.Prelude.{
  ℕ, ◌≡◌, refl, Bool, true, false, ◌&&◌, none, some, List, [], ◌∷◌, arith, find, update_where, ◌==◌,
  if◌then◌else◌, ℤ, pos, ◌+ℤ◌,
}
use rfid_inventory_replenish.Domain.{Uuid}
use rfid_inventory_replenish.Inventory.Groups.{BucketKey, same_key}
use rfid_inventory_replenish.Inventory.Projection.{
  InventoryDeltaEvent, AppliedInventoryDelta, InventoryProjection, applied_key, is_bucket,
}

-- The quantity of a bucket, 0 where it has no row.
unfoldable pub quantity_at : {F : Type 0} → Uuid → BucketKey → List (InventoryProjection F) → ℕ
quantity_at t k [] = 0
quantity_at t k (p ∷ ps) = let n = quantity_at t k ps in if is_bucket t k p then p.quantity else n

abbrev pub is_applied_at : Uuid → BucketKey → AppliedInventoryDelta → Bool
is_applied_at t k a = a.tenant_id == t && same_key k (applied_key a)

-- The sum of the deltas recorded for a bucket.
unfoldable pub applied_at : Uuid → BucketKey → List AppliedInventoryDelta → ℤ
applied_at t k [] = pos 0
applied_at t k (a ∷ rest) =
    let n = applied_at t k rest in if is_applied_at t k a then a.quantity_delta +ℤ n else n

abbrev pub quantity_delta : {F : Type 0} → InventoryDeltaEvent F → ℤ
quantity_delta d = d.quantity_delta

module _ {F : Type 0} (t : Uuid) (k : BucketKey) where
  pub quantity_at-none :
      (g : BucketKey) (rows : List (InventoryProjection F))
      → (t' : Uuid) → (t' == t && same_key k g) ≡ true
      → find (is_bucket t' g) rows ≡ none
      → quantity_at t k rows ≡ 0
  unfolding quantity_at find
  quantity_at-none g [] t' same h = refl
  quantity_at-none g (p ∷ ps) t' same h = ground (arith, quantity_at-none g ps t')

  pub quantity_at-some :
      (g : BucketKey) (rows : List (InventoryProjection F)) (row : InventoryProjection F)
      → (t' : Uuid) → (t' == t && same_key k g) ≡ true
      → find (is_bucket t' g) rows ≡ some row
      → quantity_at t k rows ≡ row.quantity
  unfolding quantity_at find
  quantity_at-some g [] row t' same h = cc
  quantity_at-some g (p ∷ ps) row t' same h = ground (arith, quantity_at-some g ps row t')

  pub quantity_at-hit :
      (f : InventoryProjection F → InventoryProjection F) (n : ℕ) (g : BucketKey) (t' : Uuid)
      → ((p : InventoryProjection F) → (is_bucket t' g (f p) ≡ true) × ((f p).quantity ≡ n))
      → (rows : List (InventoryProjection F)) (row : InventoryProjection F)
      → (t' == t && same_key k g) ≡ true
      → find (is_bucket t' g) rows ≡ some row
      → quantity_at t k (update_where (is_bucket t' g) f rows) ≡ n
  unfolding quantity_at find update_where
  quantity_at-hit f n g t' fits [] row same h = cc
  quantity_at-hit f n g t' fits (p ∷ ps) row same h =
      ground (arith, fits p, quantity_at-hit f n g t' fits ps row)

  pub quantity_at-miss :
      (f : InventoryProjection F → InventoryProjection F) (g : BucketKey) (t' : Uuid)
      → ((p : InventoryProjection F) → is_bucket t' g (f p) ≡ true)
      → (rows : List (InventoryProjection F)) → (t' == t && same_key k g) ≡ false
      → quantity_at t k (update_where (is_bucket t' g) f rows) ≡ quantity_at t k rows
  unfolding quantity_at update_where
  quantity_at-miss f g t' fits [] other = refl
  quantity_at-miss f g t' fits (p ∷ ps) other =
      ground (arith, fits p, quantity_at-miss f g t' fits ps)
