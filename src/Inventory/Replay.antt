-- ===== src/Inventory/Replay.antt =====
-- Deltas delivered again: `apply_inventory_deltas` on deltas that are already recorded.
use rfid_inventory_replenish.Prelude.{
  ℕ, ◌≡◌, refl, ap, inl, inr, Bool, true, false, not, ◌||◌, List, [], ◌∷◌, ◌++◌, map, arith, All,
  In, All-of_In, select, select_of_none, any, all, ◌==◌, ==_refl, Bool-cases, subst,
}
use rfid_inventory_replenish.Connectivity.{StoreConnectivity}
use rfid_inventory_replenish.Domain.{Uuid, ok, Result-cases}
use rfid_inventory_replenish.Inventory.Groups.{grouped, add_all}
use rfid_inventory_replenish.Inventory.Projection.{
  InventoryDeltaEvent, AppliedInventoryDelta, InventoryProjection, InventoryDb, delta_key,
  applied_row, is_applied, apply_groups, apply_inventory_deltas, pending, unique_by_id,
}

append_nil : {A : Type 0} (xs : List A) → xs ++ [] ≡ xs
append_nil [] = refl
append_nil (x ∷ xs) = ap (◌∷◌ x) (append_nil xs)

any-append :
    {A : Type 0} (p : A → Bool) (xs ys : List A) → any p (xs ++ ys) ≡ (any p xs || any p ys)
unfolding any
any-append p [] ys = refl
any-append p (x ∷ xs) ys = ground (arith, any-append p xs ys)

In-select :
    {A : Type 0} (p : A → Bool) (a : A) (xs : List A) → p a ≡ true → In a xs → In a (select p xs)
unfolding select
In-select p a [] h i = i
In-select p a (x ∷ xs) h i = elim i [
  | inl e ↦ rw (e, h) (inl refl)
  | inr later ↦ elim (Bool-cases (p x)) [
    | inl q ↦ rw q (inr (In-select p a xs h later))
    | inr q ↦ rw q (In-select p a xs h later)
  ]
]

module _ {F : Type 0} where
  is_applied-map :
      (d : InventoryDeltaEvent F) (ds : List (InventoryDeltaEvent F))
      → In d ds
      → is_applied (map applied_row ds) d ≡ true
  unfolding any
  is_applied-map d [] i = absurd i
  is_applied-map d (x ∷ ds) i = elim i [
    | inl e ↦ rw (e, ==_refl d.delta_id) refl
    | inr later ↦ ground (arith, is_applied-map d ds later)
  ]

  -- Every delta of a batch is recorded after the batch.
  recorded :
      (applied : List AppliedInventoryDelta) (ds : List (InventoryDeltaEvent F))
      → All
          (λ d.
            not (
              is_applied
                (applied ++ map applied_row (select (λ d. not (is_applied applied d)) ds))
                d)
            ≡ false)
          ds
  recorded applied ds = All-of_In _ ds (λ d i.
      let fresh = select (λ d. not (is_applied applied d)) ds in
      rw
        (any-append (λ (row : AppliedInventoryDelta). row.delta_id == d.delta_id) applied
          (map applied_row fresh))
        (elim (Bool-cases (is_applied applied d)) [
          | inl e ↦ rw e refl
          | inr e ↦
              rw
                (
                  e,
                  is_applied-map d fresh
                      (In-select (λ d. not (is_applied applied d)) d ds (ap not e) i),
                )
                refl
        ]))

  pending-recorded :
      (applied : List AppliedInventoryDelta) (ds : List (InventoryDeltaEvent F))
      → pending (applied ++ map applied_row (pending applied ds)) ds ≡ []
  unfolding pending
  pending-recorded applied ds =
      select_of_none _ (unique_by_id ds) (recorded applied (unique_by_id ds))

  apply_groups_nil :
      (lt_float : F → F → Bool) (connectivity : List StoreConnectivity) (t : Uuid)
      (rows : List (InventoryProjection F))
      → apply_groups lt_float connectivity t (grouped delta_key []) rows ≡ ok rows
  unfolding apply_groups grouped add_all
  apply_groups_nil lt_float connectivity t rows = refl

  -- A batch that was applied is applied again with no effect: nothing is inserted, and the tables
  -- are as before.
  pub apply_inventory_deltas-replay :
      (lt_float : F → F → Bool) (deltas : List (InventoryDeltaEvent F)) (db : InventoryDb F) (n : ℕ)
      (db' : InventoryDb F)
      → apply_inventory_deltas lt_float deltas db ≡ ok (n, db')
      → apply_inventory_deltas lt_float deltas db' ≡ ok (0, db')
  unfolding apply_inventory_deltas
  apply_inventory_deltas-replay lt_float [] db n db' h = refl
  apply_inventory_deltas-replay lt_float (d ∷ ds) db n db' h =
      let inserted = pending db.applied (d ∷ ds) in
      elim (Bool-cases
        (all (λ (other : InventoryDeltaEvent F). other.tenant_id == d.tenant_id) ds)) [
          | inr e ↦ absurd (ground arith)
          | inl e ↦
              elim (Result-cases (
                apply_groups lt_float db.connectivity d.tenant_id (grouped delta_key inserted)
                  db.projections)) [
                    | inr (_, failed) ↦ absurd (ground arith)
                    | inl (rows, done) ↦
                        let same : db.applied ++ map applied_row inserted ≡ db'.applied =
                          ground arith in
                        let nothing : pending db'.applied (d ∷ ds) ≡ [] =
                          subst (λ rows. pending rows (d ∷ ds) ≡ []) same
                            (pending-recorded db.applied (d ∷ ds)) in
                        rw
                          (
                            e,
                            nothing,
                            apply_groups_nil lt_float db'.connectivity d.tenant_id db'.projections,
                            append_nil db'.applied,
                          )
                          refl
                  ]
        ]
