-- ===== src/Streaming/Transition.antt =====
-- A transition of `process_observation` (`src/abacus/services/streaming_inventory.py`): the deltas, the
-- state of the item, the row of the outbox and the tasks. The ids that `uuid5` and the text of a
-- delta id give are parameters.
use rfid_inventory_replenish.Prelude.{
  ℕ, ◌+◌, max, Bool, false, ◌&&◌, Option, none, some, List, [], ◌∷◌, ◌++◌, update_where, ◌==◌,
  ◌==?◌, if◌then◌else◌, ℤ, pos, negsuc,
}
use rfid_inventory_replenish.Domain.{Uuid, Text, Instant}
use rfid_inventory_replenish.Connectivity.{RfidObservationEvent, CurrentItemState}
use rfid_inventory_replenish.Inventory.Projection.{InventoryDeltaEvent}
use rfid_inventory_replenish.Inventory.Rebuild.{InventoryTransitionOutbox}
use rfid_inventory_replenish.Streaming.Rows.{ReplenishmentTaskEvidence, StreamDb, is_item}
use rfid_inventory_replenish.Tasks.{ReplenishmentTask}
use rfid_inventory_replenish.Streaming.Zones.{StableZoneDecision}
use rfid_inventory_replenish.Streaming.Attribution.{attribute_replenishment_move}

-- The ids that a transition gets.
pub record Naming : Type 0 where
  pub deterministic_transition_id : Uuid → Text → ℕ → Uuid
  pub delta_id : Uuid → Uuid → Uuid → Text

module _ {F : Type 0} where
  abbrev pub is_settled : Uuid → StableZoneDecision F → Option (CurrentItemState F) → Bool
  is_settled sku decision none = false
  is_settled sku decision (some state) =
      state.sku_id == sku
      && state.store_id ==? some decision.store_id
      && state.zone_id ==? some decision.zone_id

  -- `_delta_payload`
  unfoldable pub delta_payload :
      Naming
      → (transition_id : Uuid) → (tenant_id : Uuid) → (epc : Text) → (sku_id : Uuid)
      → (store_id : Uuid) → (zone_id : Uuid) → ℤ
      → (confidence : F) → (observed_at : Instant) → InventoryDeltaEvent F
  delta_payload naming transition_id tenant_id epc sku_id store_id zone_id quantity_delta confidence
        observed_at =
      record {
        schema_version = 1;
        delta_id = naming.delta_id transition_id sku_id zone_id;
        transition_id = transition_id;
        tenant_id = tenant_id;
        store_id = store_id;
        sku_id = sku_id;
        zone_id = zone_id;
        epc = epc;
        quantity_delta = quantity_delta;
        confidence = confidence;
        observed_at = observed_at;
      }

  abbrev pub next_version : Option (CurrentItemState F) → ℕ
  next_version none = 1
  next_version (some state) = state.state_version + 1

  -- The delta of the bucket that the item leaves.
  unfoldable pub leaving :
      Naming
      → Uuid
      → StableZoneDecision F
      → Option (CurrentItemState F)
      → List (InventoryDeltaEvent F)
  leaving naming transition_id decision none = []
  leaving naming transition_id decision (some state) = elim state.store_id [
    | none ↦ []
    | some store ↦ elim state.zone_id [
      | none ↦ []
      | some zone ↦
          delta_payload naming transition_id state.tenant_id state.epc state.sku_id store zone
            (negsuc 0) decision.confidence decision.observed_at
          ∷ []
    ]
  ]

  -- The item after a transition: a new row, or the old one with its new place.
  unfoldable pub moved_state :
      RfidObservationEvent F
      → Uuid
      → StableZoneDecision F
      → ℕ
      → CurrentItemState F
      → CurrentItemState F
  moved_state event sku decision version state = record state {
    sku_id = sku;
    store_id = some decision.store_id;
    zone_id = some decision.zone_id;
    last_observed_at = max event.observed_at decision.observed_at;
    last_received_at = max event.received_at decision.received_at;
    confidence = decision.confidence;
    state_version = version;
  }

  unfoldable pub new_state :
      RfidObservationEvent F → Uuid → StableZoneDecision F → CurrentItemState F
  new_state event sku decision = record {
    tenant_id = event.tenant_id;
    epc = event.epc;
    sku_id = sku;
    store_id = some decision.store_id;
    zone_id = some decision.zone_id;
    last_observed_at = max event.observed_at decision.observed_at;
    last_received_at = max event.received_at decision.received_at;
    confidence = decision.confidence;
    state_version = 1;
    authoritative_removal_event_id = none;
    authoritative_removed_at = none;
  }

  unfoldable pub moved_items :
      RfidObservationEvent F
      → Uuid
      → StableZoneDecision F
      → Option (CurrentItemState F)
      → List (CurrentItemState F)
      → List (CurrentItemState F)
  moved_items event sku decision none items = new_state event sku decision ∷ items
  moved_items event sku decision (some state) items =
      update_where (is_item event.tenant_id event.epc)
        (moved_state event sku decision (state.state_version + 1)) items

  -- The zone that the item comes from, where it stays in its store under its SKU.
  unfoldable pub previous_zone :
      Uuid → StableZoneDecision F → Option (CurrentItemState F) → Option Uuid
  previous_zone sku decision none = none
  previous_zone sku decision (some state) =
      if state.store_id ==? some decision.store_id && state.sku_id == sku
      then state.zone_id
      else none

  unfoldable pub transition_row :
      RfidObservationEvent F
      → Uuid
      → StableZoneDecision F
      → Naming
      → Instant
      → Option (CurrentItemState F)
      → InventoryTransitionOutbox F
  transition_row event sku decision naming now state =
      let version = next_version state in
      let transition_id = naming.deterministic_transition_id event.tenant_id event.epc version in
      record {
        transition_id = transition_id;
        tenant_id = event.tenant_id;
        epc = event.epc;
        state_version = version;
        deltas =
            leaving naming transition_id decision state
            ++ (delta_payload naming transition_id event.tenant_id event.epc sku decision.store_id
                  decision.zone_id (pos 1) decision.confidence decision.observed_at
                ∷ []);
        created_at = now;
        published_at = none;
        quarantined_at = none;
        quarantine_reason = none;
        reconciled_at = none;
        publish_attempts = 0;
        last_error = none;
      }

  -- The tasks and the evidence after a transition, if the item comes from a zone of its store.
  unfoldable pub attributed :
      RfidObservationEvent F
      → Uuid
      → StableZoneDecision F
      → Uuid
      → Option Uuid
      → StreamDb F
      → List ReplenishmentTask × List ReplenishmentTaskEvidence
  attributed event sku decision transition_id none db = (db.tasks, db.evidence)
  attributed event sku decision transition_id (some zone) db =
      attribute_replenishment_move
        (record {
          tenant_id = event.tenant_id;
          transition_id = transition_id;
          epc = event.epc;
          sku_id = sku;
          store_id = decision.store_id;
          previous_zone_id = zone;
          next_zone_id = decision.zone_id;
          observed_at = decision.observed_at;
        })
        db.zones db.tasks db.evidence

  -- The tables after a transition, but for the batches.
  unfoldable pub transitioned :
      RfidObservationEvent F
      → Uuid
      → StableZoneDecision F
      → Naming
      → Instant
      → Option (CurrentItemState F)
      → StreamDb F
      → StreamDb F
  transitioned event sku decision naming now state db =
      let row = transition_row event sku decision naming now state in
      let out =
        attributed event sku decision row.transition_id (previous_zone sku decision state) db in
      record db {
        items = moved_items event sku decision state db.items;
        outbox = row ∷ db.outbox;
        tasks = out.0;
        evidence = out.1;
      }
