-- ===== src/Streaming/Conservation.antt =====
-- The items of a bucket and the deltas that the outbox holds for it.
use rfid_inventory_replenish.Prelude.{
  ℕ, ◌+◌, ◌≤◌, ◌≡◌, refl, sym, ap, ◌∙◌, inl, inr, Bool, true, false, ◌&&◌, Option, none, some, List,
  [], ◌∷◌, ◌++◌, arith, find, find-some, count_where, one_if, count_update_one, count_update_keeps,
  if◌then◌else◌, Bool-cases, Option-cases, ℤ, pos, negsuc, ◌+ℤ◌, ◌==◌, +ℤ_assoc, +ℤ_zero, zero_+ℤ,
}
use rfid_inventory_replenish.Domain.{Uuid, Instant, ok}
use rfid_inventory_replenish.Floats.{FloatOps}
use rfid_inventory_replenish.Connectivity.{Settings, RfidObservationEvent, CurrentItemState}
use rfid_inventory_replenish.Inventory.Groups.{BucketKey, same_key}
use rfid_inventory_replenish.Inventory.Projection.{InventoryDeltaEvent, delta_key}
use rfid_inventory_replenish.Inventory.Rebuild.{InventoryTransitionOutbox}
use rfid_inventory_replenish.Inventory.Counts.{is_item_at}
use rfid_inventory_replenish.Streaming.Rows.{StreamDb, is_item}
use rfid_inventory_replenish.Streaming.Batches.{ProcessingResult}
use rfid_inventory_replenish.Streaming.Recent.{RecentObservationState}
use rfid_inventory_replenish.Streaming.Zones.{StableZoneDecision}
use rfid_inventory_replenish.Streaming.Process.{Clock}
use rfid_inventory_replenish.Streaming.Transition.{
  Naming, moved_items, moved_state, new_state, transition_row, leaving, delta_payload, transitioned,
}
use rfid_inventory_replenish.Streaming.Observe.{process_observation}
use rfid_inventory_replenish.Streaming.Effect.{SamePlace, Effect, untouched, stayed, moved}
use rfid_inventory_replenish.Streaming.Effect.Observed.{process_observation_lem}

-- The sum of the deltas of a bucket.
unfoldable pub deltas_at : {F : Type 0} → Uuid → BucketKey → List (InventoryDeltaEvent F) → ℤ
deltas_at t k [] = pos 0
deltas_at t k (d ∷ ds) =
    let n = deltas_at t k ds in
    if d.tenant_id == t && same_key k (delta_key d) then d.quantity_delta +ℤ n else n

-- The sum of the deltas of a bucket in the outbox.
unfoldable pub outbox_at : {F : Type 0} → Uuid → BucketKey → List (InventoryTransitionOutbox F) → ℤ
outbox_at t k [] = pos 0
outbox_at t k (row ∷ rows) = deltas_at t k row.deltas +ℤ outbox_at t k rows

difference :
    (c c' : ℕ) (a b : Bool)
    → c' + one_if a ≡ c + one_if b
    → pos c' ≡ pos c +ℤ ((if a then negsuc 0 else pos 0) +ℤ (if b then pos 1 else pos 0))
unfolding ◌+ℤ◌
difference c c' a b h = ground arith

module _ {F : Type 0} (t : Uuid) (k : BucketKey) where
  deltas_at-append :
      (xs ys : List (InventoryDeltaEvent F))
      → deltas_at t k (xs ++ ys) ≡ deltas_at t k xs +ℤ deltas_at t k ys
  unfolding deltas_at
  deltas_at-append [] ys = sym (zero_+ℤ (deltas_at t k ys))
  deltas_at-append (x ∷ xs) ys = elim (Bool-cases (x.tenant_id == t && same_key k (delta_key x))) [
    | inl e ↦ rw e (
        ap (λ z. x.quantity_delta +ℤ z) (deltas_at-append xs ys)
        ∙ sym (+ℤ_assoc x.quantity_delta (deltas_at t k xs) (deltas_at t k ys)))
    | inr e ↦ rw e (deltas_at-append xs ys)
  ]

  -- The sum of one delta.
  deltas_at-one :
      (d : InventoryDeltaEvent F)
      → deltas_at t k (d ∷ [])
        ≡ (if d.tenant_id == t && same_key k (delta_key d) then d.quantity_delta else pos 0)
  unfolding deltas_at
  deltas_at-one d = elim (Bool-cases (d.tenant_id == t && same_key k (delta_key d))) [
    | inl e ↦ rw e (+ℤ_zero d.quantity_delta)
    | inr e ↦ rw e refl
  ]

  leaving_at :
      (naming : Naming) (id : Uuid) (decision : StableZoneDecision F) (s : CurrentItemState F)
      → deltas_at t k (leaving naming id decision (some s))
        ≡ (if is_item_at t k s then negsuc 0 else pos 0)
  unfolding leaving delta_payload deltas_at ◌+ℤ◌
  leaving_at naming id decision s = elim (Option-cases s.store_id) [
    | inl e ↦ ground arith
    | inr (store, e) ↦ elim (Option-cases s.zone_id) [
      | inl f ↦ ground arith
      | inr (zone, f) ↦ ground arith
    ]
  ]

  -- An item of the tenant under the SKU at the place of the decision is in the bucket.
  abbrev arrives : RfidObservationEvent F → Uuid → StableZoneDecision F → Bool
  arrives event sku decision =
      event.tenant_id == t
      && sku == k.sku_id
      && decision.store_id == k.store_id
      && decision.zone_id == k.zone_id

  arriving_at :
      (naming : Naming) (id : Uuid) (event : RfidObservationEvent F) (sku : Uuid)
      (decision : StableZoneDecision F)
      → deltas_at t k (
          delta_payload naming id event.tenant_id event.epc sku decision.store_id decision.zone_id
            (pos 1)
            decision.confidence
            decision.observed_at
          ∷ [])
        ≡ (if arrives event sku decision then pos 1 else pos 0)
  unfolding delta_payload deltas_at ◌+ℤ◌
  arriving_at naming id event sku decision = ground arith

  moved_at :
      (event : RfidObservationEvent F) (sku : Uuid) (decision : StableZoneDecision F) (version : ℕ)
      (s : CurrentItemState F)
      → is_item event.tenant_id event.epc s ≡ true
      → is_item_at t k (moved_state event sku decision version s) ≡ arrives event sku decision
  unfolding moved_state
  moved_at event sku decision version s h = ground arith

  departs : Option (CurrentItemState F) → Bool
  departs none = false
  departs (some s) = is_item_at t k s

  transition_row-deltas :
      (event : RfidObservationEvent F) (sku : Uuid) (decision : StableZoneDecision F)
      (naming : Naming) (now : Instant) (state : Option (CurrentItemState F))
      → deltas_at t k (transition_row event sku decision naming now state).deltas
        ≡ (if departs state then negsuc 0 else pos 0)
          +ℤ (if arrives event sku decision then pos 1 else pos 0)
  unfolding transition_row departs leaving
  transition_row-deltas event sku decision naming now none =
      arriving_at naming (naming.deterministic_transition_id event.tenant_id event.epc 1) event sku
        decision
      ∙ sym (zero_+ℤ (if arrives event sku decision then pos 1 else pos 0))
  transition_row-deltas event sku decision naming now (some s) =
      let id = naming.deterministic_transition_id event.tenant_id event.epc (s.state_version + 1) in
      let arrive =
        delta_payload naming id event.tenant_id event.epc sku decision.store_id decision.zone_id
          (pos 1) decision.confidence decision.observed_at in
      deltas_at-append (leaving naming id decision (some s)) (arrive ∷ [])
      ∙ ap (λ z. z +ℤ deltas_at t k (arrive ∷ [])) (leaving_at naming id decision s)
      ∙ ap (λ z. (if is_item_at t k s then negsuc 0 else pos 0) +ℤ z)
          (arriving_at naming id event sku decision)

  moved_items-count :
      (event : RfidObservationEvent F) (sku : Uuid) (decision : StableZoneDecision F)
      (items : List (CurrentItemState F)) (state : Option (CurrentItemState F))
      → find (is_item event.tenant_id event.epc) items ≡ state
      → count_where (is_item event.tenant_id event.epc) items ≤ 1
      → count_where (is_item_at t k) (moved_items event sku decision state items)
          + one_if (departs state)
        ≡ count_where (is_item_at t k) items + one_if (arrives event sku decision)
  unfolding moved_items departs
  moved_items-count event sku decision items none found few =
      unfold count_where new_state in ground arith
  moved_items-count event sku decision items (some s) found few =
      let there = find-some (is_item event.tenant_id event.epc) items s found in
      count_update_one (is_item event.tenant_id event.epc) (is_item_at t k) _ items s found few
      ∙ ap (λ b. count_where (is_item_at t k) items + one_if b)
          (moved_at event sku decision _ s there)

  is_item_at-SamePlace :
      (a b : CurrentItemState F) → SamePlace a b → is_item_at t k b ≡ is_item_at t k a
  is_item_at-SamePlace a b h = rw (h.same_tenant, h.same_sku, h.same_store, h.same_zone) refl

  -- A transition changes the number of the items of a bucket by the sum of its deltas.
  transition-count :
      (event : RfidObservationEvent F) (sku : Uuid) (decision : StableZoneDecision F)
      (naming : Naming) (now : Instant) (items : List (CurrentItemState F))
      (state : Option (CurrentItemState F))
      → find (is_item event.tenant_id event.epc) items ≡ state
      → count_where (is_item event.tenant_id event.epc) items ≤ 1
      → pos (count_where (is_item_at t k) (moved_items event sku decision state items))
        ≡ pos (count_where (is_item_at t k) items)
          +ℤ deltas_at t k (transition_row event sku decision naming now state).deltas
  transition-count event sku decision naming now items state found few =
      difference _ _ _ _ (moved_items-count event sku decision items state found few)
      ∙ ap (λ z. pos (count_where (is_item_at t k) items) +ℤ z)
          (sym (transition_row-deltas event sku decision naming now state))

  transitioned-balance :
      (event : RfidObservationEvent F) (sku : Uuid) (decision : StableZoneDecision F)
      (naming : Naming) (now : Instant) (db : StreamDb F) (state : Option (CurrentItemState F))
      → find (is_item event.tenant_id event.epc) db.items ≡ state
      → count_where (is_item event.tenant_id event.epc) db.items ≤ 1
      → pos (
            count_where
              (is_item_at t k)
              (transitioned event sku decision naming now state db).items)
          +ℤ outbox_at t k db.outbox
        ≡ pos (count_where (is_item_at t k) db.items)
          +ℤ outbox_at t k (transitioned event sku decision naming now state db).outbox
  unfolding transitioned outbox_at
  transitioned-balance event sku decision naming now db state found few =
      let row = transition_row event sku decision naming now state in
      ap (λ z. z +ℤ outbox_at t k db.outbox)
        (transition-count event sku decision naming now db.items state found few)
      ∙ +ℤ_assoc (pos (count_where (is_item_at t k) db.items)) (deltas_at t k row.deltas)
          (outbox_at t k db.outbox)

  -- What an observation does to a bucket, whatever it does.
  Effect-balance :
      (event : RfidObservationEvent F) (naming : Naming) (db : StreamDb F)
      (out : ProcessingResult × StreamDb F)
      → count_where (is_item event.tenant_id event.epc) db.items ≤ 1
      → Effect event naming db out
      → pos (count_where (is_item_at t k) out.1.items) +ℤ outbox_at t k db.outbox
        ≡ pos (count_where (is_item_at t k) db.items) +ℤ outbox_at t k out.1.outbox
  Effect-balance event naming db out few (untouched flag same) =
      rw (same.same_items, same.same_outbox) refl
  Effect-balance event naming db out few (stayed f keeps flag same) =
      rw
        (
          same.same_items,
          same.same_outbox,
          count_update_keeps (is_item event.tenant_id event.epc) (is_item_at t k) f
              (λ s. is_item_at-SamePlace s (f s) (keeps s)) db.items,
        )
        refl
  Effect-balance event naming db out few (moved sku decision now can flag same) =
      rw (same.same_items, same.same_outbox)
        (transitioned-balance event sku decision naming now db
          (find (is_item event.tenant_id event.epc) db.items) refl few)

-- An observation that is processed changes the number of items in each bucket by the sum of the
-- deltas that it adds to the outbox for the bucket: the number less that sum is the same before and
-- after. The tag of the observation has at most one item row, as the table's key has it.
pub process_observation-balance :
    {F : Type 0} (ops : FloatOps F) (event : RfidObservationEvent F)
    (recent : RecentObservationState F) (settings : Settings) (clock : Clock) (id : Uuid)
    (naming : Naming) (db : StreamDb F) (out : ProcessingResult × StreamDb F) (t : Uuid)
    (k : BucketKey)
    → count_where (is_item event.tenant_id event.epc) db.items ≤ 1
    → (process_observation ops event recent settings clock id naming db).0 ≡ ok out
    → pos (count_where (is_item_at t k) out.1.items) +ℤ outbox_at t k db.outbox
      ≡ pos (count_where (is_item_at t k) db.items) +ℤ outbox_at t k out.1.outbox
process_observation-balance ops event recent settings clock id naming db out t k few h =
    Effect-balance t k event naming db out few
      (process_observation_lem ops event recent settings clock id naming db out h)
