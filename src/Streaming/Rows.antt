-- ===== src/Streaming/Rows.antt =====
-- The rows that the processing of an observation reads and writes (`src/abacus/models`:
-- `architecture.py`, `tenancy.py`, `catalog.py`; `src/abacus/enums.py`). `F` is the type of floats.
use rfid_inventory_replenish.Prelude.{ℕ, Bool, ◌&&◌, Option, List, ◌==◌}
use rfid_inventory_replenish.Domain.{Uuid, Text, Instant}
use rfid_inventory_replenish.Connectivity.{StoreConnectivity, CurrentItemState}
use rfid_inventory_replenish.Tasks.{ReplenishmentTask}
use rfid_inventory_replenish.Evaluation.Snapshots.{ZoneKind}
use rfid_inventory_replenish.Inventory.Rebuild.{InventoryTransitionOutbox}

pub data Disposition : Type 0 where
  processed duplicate late quarantined ambiguous removed_item_observed : Disposition

-- The reasons that the service gives, and one that a caller gives.
pub data Why : Type 0 where
  observed_at_too_far_in_future unknown_device inactive_device : Why
  device_assignment_unavailable device_assignment_mismatch unknown_epc : Why
  observed_at_before_current_state authoritatively_removed : Why
  stable_evidence_before_current_state : Why
  given : Text → Why

pub data EventStatus : Type 0 where
  pending processed rejected : EventStatus

abbrev pub is_pending_event : EventStatus → Bool
is_pending_event EventStatus.pending = Bool.true
is_pending_event _ = Bool.false

abbrev pub is_processed_event : EventStatus → Bool
is_processed_event EventStatus.processed = Bool.true
is_processed_event _ = Bool.false

abbrev pub is_rejected_event : EventStatus → Bool
is_rejected_event EventStatus.rejected = Bool.true
is_rejected_event _ = Bool.false

pub data BatchStatus : Type 0 where
  accepted processing completed completed_with_errors : BatchStatus

pub record RfidObservationBatch : Type 0 where
  pub id : Uuid
  pub tenant_id : Uuid
  pub device_id : Uuid
  pub store_id : Uuid
  pub zone_id : Uuid
  pub status : BatchStatus
  pub accepted_count : ℕ
  pub processed_count : ℕ
  pub rejected_count : ℕ
  pub received_at : Instant
  pub completed_at : Option Instant

pub record RfidObservationEventLedger (F : Type 0) : Type 0 where
  pub tenant_id : Uuid
  pub event_id : Text
  pub payload_fingerprint : Text
  pub device_id : Uuid
  pub store_id : Uuid
  pub zone_id : Uuid
  pub epc : Text
  pub observed_at : Instant
  pub first_received_at : Instant
  pub rssi : F
  pub antenna_id : Option Text
  pub reader_health : F
  pub is_buffered : Bool
  pub backlog_drained : Bool
  pub reader_coverage_ok : Bool
  pub processing_status : EventStatus
  pub disposition : Option Disposition
  pub rejection_reason : Option Why
  pub processed_at : Option Instant

pub record RfidObservationBatchEvent : Type 0 where
  pub tenant_id : Uuid
  pub batch_id : Uuid
  pub event_id : Text
  pub processing_status : EventStatus
  pub disposition : Option Disposition
  pub rejection_reason : Option Why
  pub finalized_at : Option Instant

-- Without the payload, which is the JSON of the event.
pub record RfidQuarantine (F : Type 0) : Type 0 where
  pub id : Uuid
  pub tenant_id : Uuid
  pub batch_id : Uuid
  pub event_id : Option Text
  pub reason : Why

pub record ReplenishmentTaskEvidence : Type 0 where
  pub tenant_id : Uuid
  pub task_id : Uuid
  pub transition_id : Uuid
  pub epc : Text
  pub observed_at : Instant

pub data DeviceStatus : Type 0 where
  active inactive : DeviceStatus

pub record Device : Type 0 where
  pub id : Uuid
  pub tenant_id : Uuid
  pub status : DeviceStatus

pub record DeviceAssignment : Type 0 where
  pub tenant_id : Uuid
  pub device_id : Uuid
  pub store_id : Uuid
  pub zone_id : Uuid
  pub effective_from : Instant
  pub effective_to : Option Instant

pub record EpcBinding : Type 0 where
  pub tenant_id : Uuid
  pub sku_id : Uuid
  pub epc : Text
  pub effective_from : Instant
  pub effective_to : Option Instant

pub record Zone : Type 0 where
  pub id : Uuid
  pub tenant_id : Uuid
  pub store_id : Uuid
  pub kind : ZoneKind

-- The ledger of events, the links of batches to events, and the batches.
pub record ObservationBook (F : Type 0) : Type 0 where
  pub ledger : List (RfidObservationEventLedger F)
  pub links : List RfidObservationBatchEvent
  pub batches : List RfidObservationBatch

pub record StreamDb (F : Type 0) : Type 0 where
  pub book : ObservationBook F
  pub quarantine : List (RfidQuarantine F)
  pub devices : List Device
  pub assignments : List DeviceAssignment
  pub bindings : List EpcBinding
  pub zones : List Zone
  pub items : List (CurrentItemState F)
  pub connectivity : List StoreConnectivity
  pub outbox : List (InventoryTransitionOutbox F)
  pub tasks : List ReplenishmentTask
  pub evidence : List ReplenishmentTaskEvidence

abbrev pub is_ledger : {F : Type 0} → Uuid → Text → RfidObservationEventLedger F → Bool
is_ledger tenant event row = row.tenant_id == tenant && row.event_id == event

abbrev pub is_link : Uuid → Text → RfidObservationBatchEvent → Bool
is_link tenant event row = row.tenant_id == tenant && row.event_id == event

abbrev pub is_link_of_batch : Uuid → Uuid → RfidObservationBatchEvent → Bool
is_link_of_batch tenant batch row = row.tenant_id == tenant && row.batch_id == batch

abbrev pub is_batch : Uuid → Uuid → RfidObservationBatch → Bool
is_batch tenant batch row = row.tenant_id == tenant && row.id == batch

abbrev pub is_item : {F : Type 0} → Uuid → Text → CurrentItemState F → Bool
is_item tenant epc row = row.tenant_id == tenant && row.epc == epc
