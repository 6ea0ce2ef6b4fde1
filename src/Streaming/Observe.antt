-- ===== src/Streaming/Observe.antt =====
-- `process_observation` (`src/abacus/services/streaming_inventory.py`) from the recent state on: the
-- inference, and the whole function. The id of a quarantined row is a parameter.
use rfid_inventory_replenish.Prelude.{Bool, true, false, not, none, some, List, if◌then◌else◌}
use rfid_inventory_replenish.Domain.{Uuid, Instant, Result}
use rfid_inventory_replenish.Floats.{FloatOps}
use rfid_inventory_replenish.Connectivity.{Settings, RfidObservationEvent}
use rfid_inventory_replenish.Streaming.Rows.{
  Disposition, stable_evidence_before_current_state, StreamDb,
}
use rfid_inventory_replenish.Streaming.Batches.{ProcessingResult, finish}
use rfid_inventory_replenish.Streaming.Recent.{
  RecentObservationState, remember_event, forget_event, add,
}
use rfid_inventory_replenish.Streaming.Zones.{infer_stable_zone}
use rfid_inventory_replenish.Streaming.Process.{
  Admission, Clock, Observation, stop, observe, admit, is_before,
}
use rfid_inventory_replenish.Streaming.Items.{
  with_item, touched, weakened, ambiguous_state, refreshed_state,
}
use rfid_inventory_replenish.Streaming.Transition.{is_settled, transitioned, Naming}

module _ {F : Type 0} where
  -- The recent state after the events of this one are known.
  unfoldable pub remembered :
      RfidObservationEvent F → RecentObservationState F → Bool × RecentObservationState F
  remembered event recent = remember_event event (elim event.replayed_from_quarantine_id [
    | none ↦ recent
    | some _ ↦ forget_event event recent
  ])

module _ {F : Type 0} (ops : FloatOps F) where
  -- From the inference on. `now` is the clock at the finalization.
  unfoldable pub conclude :
      RfidObservationEvent F
      → Observation F
      → List (RfidObservationEvent F)
      → Instant
      → Naming
      → Settings
      → StreamDb F
      → Result (ProcessingResult × StreamDb F)
  conclude event seen window now naming settings db =
      let sku = seen.binding.sku_id in
      elim (infer_stable_zone ops settings window) [
        | none ↦
            finish event false Disposition.ambiguous none false now
              (with_item event (ambiguous_state ops event sku window settings) db)
        | some decision ↦
            if is_before decision.observed_at seen.watermark
            then finish event false Disposition.ambiguous
                (some stable_evidence_before_current_state) false now
                (with_item event (λ state. touched event settings (weakened ops state)) db)
            else if is_settled sku decision seen.state
            then finish event false Disposition.processed none false now
                (with_item event (refreshed_state ops event decision settings) db)
            else finish event false Disposition.processed none true now
                (transitioned event sku decision naming now seen.state db)
      ]

  -- From the inference's window on.
  abbrev pub observe_admitted :
      RfidObservationEvent F
      → Admission F
      → Instant
      → Naming
      → Settings
      → RecentObservationState F
      → Result (ProcessingResult × StreamDb F) × RecentObservationState F
  observe_admitted event (stop out) now naming settings recent = (out, recent)
  observe_admitted event (observe seen db) now naming settings recent =
      let out =
        add seen.resolved settings.rfid_move_confirmation_window_seconds seen.evidence_start
          recent in
      (conclude event seen out.1 now naming settings db, out.0)

  -- The recent state keeps its changes where the transaction fails.
  unfoldable pub process_observation :
      RfidObservationEvent F
      → RecentObservationState F
      → Settings
      → Clock
      → Uuid
      → Naming
      → StreamDb F
      → Result (ProcessingResult × StreamDb F) × RecentObservationState F
  process_observation event recent settings clock id naming db =
      let known = remembered event recent in
      if not known.0
      then (finish event false Disposition.duplicate none false clock.finalized_at db, known.1)
      else observe_admitted event (admit event settings clock id db) clock.finalized_at naming
          settings known.1
