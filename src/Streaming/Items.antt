-- ===== src/Streaming/Items.antt =====
-- What an observation that moves no item does to its row: the confidence and the timestamps
-- (`process_observation`, `src/abacus/services/streaming_inventory.py`).
use rfid_inventory_replenish.Prelude.{
  ◌+◌, max, leb, Bool, false, ◌&&◌, some, List, [], ◌∷◌, all, update_where, is_some, ◌==◌, ◌==?◌,
  if◌then◌else◌,
}
use rfid_inventory_replenish.Domain.{Uuid, Instant, seconds}
use rfid_inventory_replenish.Floats.{FloatOps, min_float}
use rfid_inventory_replenish.Connectivity.{Settings, RfidObservationEvent, CurrentItemState}
use rfid_inventory_replenish.Streaming.Rows.{StreamDb, is_item}
use rfid_inventory_replenish.Streaming.Zones.{StableZoneDecision}

module _ {F : Type 0} where
  unfoldable pub is_flush_due : Settings → Instant → CurrentItemState F → Bool
  is_flush_due settings received_at state =
      leb (state.last_received_at + seconds settings.rfid_last_seen_flush_seconds) received_at

  -- The item of an event is rewritten.
  abbrev pub with_item :
      RfidObservationEvent F → (CurrentItemState F → CurrentItemState F) → StreamDb F → StreamDb F
  with_item event f db = record db {
    items = update_where (is_item event.tenant_id event.epc) f db.items;
  }

  -- The timestamps that an ambiguous read refreshes.
  unfoldable pub touched :
      RfidObservationEvent F → Settings → CurrentItemState F → CurrentItemState F
  touched event settings state =
      if is_flush_due settings event.received_at state
      then (record state {
        last_observed_at = max state.last_observed_at event.observed_at;
        last_received_at = event.received_at;
      })
      else state

  -- `observed_locations == {current_location}`, for the same SKU.
  unfoldable pub same_current_evidence :
      Uuid → List (RfidObservationEvent F) → CurrentItemState F → Bool
  same_current_evidence sku [] state = false
  same_current_evidence sku (read ∷ reads) state =
      state.sku_id == sku
      && is_some state.zone_id
      && all
          (λ (item : RfidObservationEvent F).
            state.store_id ==? some item.store_id && state.zone_id ==? some item.zone_id)
          (read ∷ reads)

module _ {F : Type 0} (ops : FloatOps F) where
  unfoldable pub weakened : CurrentItemState F → CurrentItemState F
  weakened state = record state { confidence = min_float ops state.confidence (ops.decimal 49 2) }

  unfoldable pub ambiguous_state :
      RfidObservationEvent F
      → Uuid
      → List (RfidObservationEvent F)
      → Settings
      → CurrentItemState F
      → CurrentItemState F
  ambiguous_state event sku window settings state =
      touched event settings
        (if same_current_evidence sku window state then state else weakened state)

  unfoldable pub refreshed_state :
      RfidObservationEvent F
      → StableZoneDecision F
      → Settings
      → CurrentItemState F
      → CurrentItemState F
  refreshed_state event decision settings state =
      if is_flush_due settings event.received_at state
      then (record state {
        last_observed_at = max (max state.last_observed_at decision.observed_at) event.observed_at;
        last_received_at = max state.last_received_at decision.received_at;
        confidence = decision.confidence;
      })
      else if ops.lt_float state.confidence decision.confidence
      then (record state { confidence = decision.confidence })
      else state
