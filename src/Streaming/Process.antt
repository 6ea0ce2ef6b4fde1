-- ===== src/Streaming/Process.antt =====
-- `process_observation` (`src/abacus/services/streaming_inventory.py`), with
-- `_resolve_effective_assignment`, `_delta_payload` and `processed_observation_watermark`. The names
-- that `uuid5` and the text of a delta id give are parameters.
use rfid_inventory_replenish.Prelude.{
  ◌+◌, max, min, ltb, leb, Bool, true, false, not, ◌&&◌, ◌||◌, Option, none, some, List, [], ◌∷◌,
  find, select, first_by, is_none, is_some, ◌==◌, ◌==?◌, if◌then◌else◌,
}
use rfid_inventory_replenish.Domain.{Uuid, Text, Instant, seconds, Result, ok, err}
use rfid_inventory_replenish.Connectivity.{
  Settings, RfidObservationEvent, CurrentItemState, update_connectivity,
}
use rfid_inventory_replenish.Streaming.Rows.{
  Disposition, Why, DeviceStatus, DeviceAssignment, EpcBinding, RfidObservationEventLedger,
  RfidQuarantine, StreamDb, is_item, is_processed_event, observed_at_too_far_in_future,
  unknown_device, inactive_device, device_assignment_unavailable, device_assignment_mismatch,
  unknown_epc, observed_at_before_current_state, authoritatively_removed,
}
use rfid_inventory_replenish.Streaming.Batches.{ProcessingResult, finish, quarantine_observation}

-- The readings of the clock in one call.
pub record Clock : Type 0 where
  pub processor_time : Instant
  pub binding_time : Instant
  pub finalized_at : Instant

-- `effective_from <= at AND (effective_to IS NULL OR effective_to > at)`
abbrev pub is_effective : Instant → Instant → Option Instant → Bool
is_effective at from until = leb from at && elim until [ none ↦ true | some end ↦ ltb at end ]

pub data Resolution : Type 0 where
  refused : Why → Resolution
  assigned : DeviceAssignment → Resolution

abbrev is_active_device : DeviceStatus → Bool
is_active_device DeviceStatus.active = true
is_active_device DeviceStatus.inactive = false

abbrev newest_binding : List EpcBinding → Option EpcBinding
newest_binding = first_by (λ a b. leb b.effective_from a.effective_from)

abbrev is_unknown_epc : Why → Bool
is_unknown_epc unknown_epc = true
is_unknown_epc _ = false

abbrev pub latest_of : Option Instant → Option Instant → Option Instant
latest_of none b = b
latest_of (some a) none = some a
latest_of (some a) (some b) = some (max a b)

abbrev pub start_of_binding : Option EpcBinding → Option Instant
start_of_binding none = none
start_of_binding (some binding) = some binding.effective_from

module _ {F : Type 0} where
  unfoldable pub effective_assignment :
      RfidObservationEvent F → List DeviceAssignment → Option DeviceAssignment
  effective_assignment event rows =
      first_by (λ a b. leb b.effective_from a.effective_from)
        (select
          (λ row.
            row.tenant_id == event.tenant_id
            && row.device_id == event.device_id
            && is_effective event.observed_at row.effective_from row.effective_to)
          rows)

  unfoldable pub resolve_effective_assignment : RfidObservationEvent F → StreamDb F → Resolution
  resolve_effective_assignment event db =
      elim (find (λ row. row.tenant_id == event.tenant_id && row.id == event.device_id)
        db.devices) [
          | none ↦ refused unknown_device
          | some device ↦
              if not (is_active_device device.status)
              then refused inactive_device
              else elim (effective_assignment event db.assignments) [
                | none ↦ refused device_assignment_unavailable
                | some row ↦
                    if not (row.store_id == event.store_id) || not (row.zone_id == event.zone_id)
                    then refused device_assignment_mismatch
                    else assigned row
              ]
        ]

  unfoldable pub binding_at : RfidObservationEvent F → List EpcBinding → Option EpcBinding
  binding_at event rows = newest_binding (
      select
        (λ row.
          row.tenant_id == event.tenant_id
          && row.epc == event.epc
          && is_effective event.observed_at row.effective_from row.effective_to)
        rows)

  unfoldable pub current_binding :
      RfidObservationEvent F → Instant → List EpcBinding → Option EpcBinding
  current_binding event now rows = newest_binding (
      select
        (λ row.
          row.tenant_id == event.tenant_id
          && row.epc == event.epc
          && leb row.effective_from now
          && is_none row.effective_to)
        rows)

  -- The binding for an event, by the operator's authority if it is replayed from quarantine.
  unfoldable pub resolve_binding : RfidObservationEvent F → Instant → StreamDb F → Option EpcBinding
  resolve_binding event now db = elim (binding_at event db.bindings) [
    | some binding ↦ some binding
    | none ↦ elim event.replayed_from_quarantine_id [
      | none ↦ none
      | some id ↦
          elim (find
            (λ (row : RfidQuarantine F).
              row.id == id
              && row.tenant_id == event.tenant_id
              && row.event_id ==? some event.event_id
              && is_unknown_epc row.reason)
            db.quarantine) [ none ↦ none | some _ ↦ current_binding event now db.bindings ]
    ]
  ]

  unfoldable pub processed_observation_watermark :
      Uuid → Text → List (RfidObservationEventLedger F) → Option Instant
  processed_observation_watermark tenant epc [] = none
  processed_observation_watermark tenant epc (row ∷ rows) =
      let rest = processed_observation_watermark tenant epc rows in
      if row.tenant_id == tenant && row.epc == epc && is_processed_event row.processing_status
      then latest_of (some row.observed_at) rest
      else rest

-- `mark is not None and at < mark`
abbrev pub is_before : Instant → Option Instant → Bool
is_before at none = false
is_before at (some mark) = ltb at mark

-- What the checks of an observation leave to the inference.
pub record Observation (F : Type 0) : Type 0 where
  pub resolved : RfidObservationEvent F
  pub binding : EpcBinding
  pub evidence_start : Option Instant
  pub state : Option (CurrentItemState F)
  pub watermark : Option Instant

pub data Admission (F : Type 0) : Type 0 where
  stop : Result (ProcessingResult × StreamDb F) → Admission F
  observe : Observation F → StreamDb F → Admission F

module _ {F : Type 0} where
  abbrev pub watermark_of : Option (CurrentItemState F) → Option Instant
  watermark_of none = none
  watermark_of (some state) = some state.last_observed_at

  abbrev pub is_removed : Option (CurrentItemState F) → Bool
  is_removed none = false
  is_removed (some state) = is_some state.authoritative_removal_event_id

  -- From the binding on: late events and removed items.
  unfoldable pub admit_bound :
      RfidObservationEvent F
      → RfidObservationEvent F
      → EpcBinding
      → Instant
      → StreamDb F
      → Admission F
  admit_bound event resolved binding now db =
      let state = find (is_item event.tenant_id event.epc) db.items in
      let watermark =
        latest_of (processed_observation_watermark event.tenant_id event.epc db.book.ledger)
          (watermark_of state) in
      if is_before event.observed_at watermark
      then stop
          (finish event false Disposition.late (some observed_at_before_current_state) false now db)
      else if is_removed state
      then stop (
          finish event false Disposition.removed_item_observed (some authoritatively_removed) false
            now db)
      else observe
          (record {
            resolved = resolved;
            binding = binding;
            evidence_start = start_of_binding (binding_at event db.bindings);
            state = state;
            watermark = watermark;
          })
          db

  abbrev pub admit_binding :
      RfidObservationEvent F
      → RfidObservationEvent F
      → Option EpcBinding
      → Uuid
      → Instant
      → StreamDb F
      → Admission F
  admit_binding event resolved none id now db =
      stop (quarantine_observation event unknown_epc id now db)
  admit_binding event resolved (some binding) id now db = admit_bound event resolved binding now db

  -- The connectivity of the store, and the binding.
  unfoldable pub admit_resolved :
      RfidObservationEvent F
      → RfidObservationEvent F
      → Settings
      → Clock
      → Uuid
      → StreamDb F
      → Admission F
  admit_resolved event resolved settings clock id db =
      elim (update_connectivity resolved settings db.connectivity) [
        | err e ↦ stop (err e)
        | ok out ↦
            let db' : StreamDb F = record db { connectivity = out.1 } in
            admit_binding event resolved (resolve_binding event clock.binding_time db') id
              clock.finalized_at db'
      ]

  abbrev pub admit_resolution :
      RfidObservationEvent F → Resolution → Settings → Clock → Uuid → StreamDb F → Admission F
  admit_resolution event (refused why) settings clock id db =
      stop (quarantine_observation event why id clock.finalized_at db)
  admit_resolution event (assigned row) settings clock id db =
      admit_resolved event (record event { store_id = row.store_id; zone_id = row.zone_id })
        settings clock id db

  unfoldable pub is_too_far_ahead : RfidObservationEvent F → Settings → Clock → Bool
  is_too_far_ahead event settings clock =
      ltb
        (min event.received_at clock.processor_time + seconds settings.rfid_max_future_skew_seconds)
        event.observed_at

  -- The checks before the inference. `id` is a new id for a quarantined row.
  unfoldable pub admit : RfidObservationEvent F → Settings → Clock → Uuid → StreamDb F → Admission F
  admit event settings clock id db =
      if is_too_far_ahead event settings clock
      then stop
          (quarantine_observation event observed_at_too_far_in_future id clock.finalized_at db)
      else admit_resolution event (resolve_effective_assignment event db) settings clock id db
