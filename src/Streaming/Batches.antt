-- ===== src/Streaming/Batches.antt =====
-- `_advance_batch`, `_quarantine` and `quarantine_observation`
-- (`src/abacus/services/streaming_inventory.py`): an event is finalized in the ledger and in every
-- batch that carries it. `now` is the clock at the call.
pub mod Tallies
use rfid_inventory_replenish.Prelude.{
  ℕ, ◌+◌, Bool, true, false, not, ◌&&◌, Option, none, some, List, [], ◌∷◌, find, select, any,
  update_where, count_where, is_none, ◌==◌, ◌==?◌, if◌then◌else◌,
}
use rfid_inventory_replenish.Domain.{Uuid, Text, Instant, Result, ok, raise, ◌>>=◌, value_error}
use rfid_inventory_replenish.Connectivity.{RfidObservationEvent}
use rfid_inventory_replenish.Streaming.Rows.{
  Disposition, Why, EventStatus, is_pending_event, is_processed_event, is_rejected_event,
  BatchStatus, RfidObservationBatch, RfidObservationEventLedger, RfidObservationBatchEvent,
  RfidQuarantine, ObservationBook, StreamDb, is_ledger, is_link, is_link_of_batch, is_batch,
}

-- What finalizing writes.
pub record Verdict : Type 0 where
  pub status : EventStatus
  pub disposition : Disposition
  pub reason : Option Why
  pub at : Instant

unfoldable pub verdict : Bool → Option Disposition → Option Why → Instant → Verdict
verdict rejects disposition reason now = record {
  status = if rejects then EventStatus.rejected else EventStatus.processed;
  disposition = elim disposition [
    | some d ↦ d
    | none ↦ if rejects then Disposition.quarantined else Disposition.processed
  ];
  reason = if rejects then reason else none;
  at = now;
}

abbrev pub finalized_ledger :
    {F : Type 0} → Verdict → RfidObservationEventLedger F → RfidObservationEventLedger F
finalized_ledger v row = record row {
  processing_status = v.status;
  disposition = some v.disposition;
  rejection_reason = v.reason;
  processed_at = some v.at;
}

abbrev pub finalized_link : Verdict → RfidObservationBatchEvent → RfidObservationBatchEvent
finalized_link v row = record row {
  processing_status = v.status;
  disposition = some v.disposition;
  rejection_reason = v.reason;
  finalized_at = some v.at;
}

unfoldable pub processed_links : Uuid → Uuid → List RfidObservationBatchEvent → ℕ
processed_links tenant batch =
    count_where
      (λ link. is_link_of_batch tenant batch link && is_processed_event link.processing_status)

unfoldable pub rejected_links : Uuid → Uuid → List RfidObservationBatchEvent → ℕ
rejected_links tenant batch =
    count_where
      (λ link. is_link_of_batch tenant batch link && is_rejected_event link.processing_status)

-- The counts of a batch and its status, from its links.
unfoldable pub settled :
    Instant → List RfidObservationBatchEvent → RfidObservationBatch → RfidObservationBatch
settled now links batch =
    let done = processed_links batch.tenant_id batch.id links in
    let bad = rejected_links batch.tenant_id batch.id links in
    let counted : RfidObservationBatch = record batch {
      processed_count = done;
      rejected_count = bad;
    } in
    if done + bad == batch.accepted_count
    then (record counted {
      status = if bad == 0 then BatchStatus.completed else BatchStatus.completed_with_errors;
      completed_at = some now;
    })
    else if done + bad == 0
    then counted
    else (record counted { status = BatchStatus.processing })

-- The set of the batches of some links.
unfoldable pub batch_ids : List RfidObservationBatchEvent → List Uuid
batch_ids [] = []
batch_ids (link ∷ links) =
    let ids = batch_ids links in
    if any (λ id. id == link.batch_id) ids then ids else link.batch_id ∷ ids

unfoldable pub settle_batches :
    Uuid
    → Instant
    → List RfidObservationBatchEvent
    → List Uuid
    → List RfidObservationBatch
    → Result (List RfidObservationBatch)
settle_batches tenant now links [] batches = ok batches
settle_batches tenant now links (id ∷ ids) batches =
    let rest =
      settle_batches tenant now links ids
        (update_where (is_batch tenant id) (settled now links) batches) in
    elim (find (is_batch tenant id) batches) [ none ↦ raise 500 value_error | some _ ↦ rest ]

-- The writes for an event that is still pending.
unfoldable pub finalize_event :
    {F : Type 0} → Uuid → Text → Verdict → ObservationBook F → Result (ObservationBook F)
finalize_event tenant event v book =
    let links = update_where (is_link tenant event) (finalized_link v) book.links in
    settle_batches tenant v.at links (batch_ids (select (is_link tenant event) book.links))
      book.batches
    >>= λ batches. ok (record {
      ledger = update_where (is_ledger tenant event) (finalized_ledger v) book.ledger;
      links = links;
      batches = batches;
    })

unfoldable pub advance_batch :
    {F : Type 0}
    → RfidObservationEvent F
    → Bool
    → Option Disposition
    → Option Why
    → Instant
    → ObservationBook F
    → Result (ObservationBook F)
advance_batch event rejects disposition reason now book =
    elim (find (is_ledger event.tenant_id event.event_id) book.ledger) [
      | none ↦ raise 500 value_error
      | some row ↦
          if not (is_pending_event row.processing_status)
          then ok book
          else finalize_event event.tenant_id event.event_id
              (verdict rejects disposition reason now) book
    ]

-- `ProcessingResult`
pub record ProcessingResult : Type 0 where
  pub disposition : Disposition
  pub reason : Option Why
  pub state_changed : Bool

abbrev pub is_quarantine_of : {F : Type 0} → Uuid → Text → RfidQuarantine F → Bool
is_quarantine_of tenant event row = row.tenant_id == tenant && row.event_id ==? some event

-- The result of finalizing an event, with the tables.
unfoldable pub finish :
    {F : Type 0}
    → RfidObservationEvent F
    → Bool
    → Disposition
    → Option Why
    → Bool
    → Instant
    → StreamDb F
    → Result (ProcessingResult × StreamDb F)
finish event rejects disposition reason changed now db =
    advance_batch event rejects (some disposition) reason now db.book >>= λ book. ok (
      record { disposition = disposition; reason = reason; state_changed = changed },
      record db { book = book },
    )

unfoldable pub quarantine_observation :
    {F : Type 0}
    → RfidObservationEvent F
    → Why
    → Uuid
    → Instant
    → StreamDb F
    → Result (ProcessingResult × StreamDb F)
quarantine_observation event reason id now db =
    let row : RfidQuarantine _ = record {
      id = id;
      tenant_id = event.tenant_id;
      batch_id = event.batch_id;
      event_id = some event.event_id;
      reason = reason;
    } in
    let rows =
      if is_none (find (is_quarantine_of event.tenant_id event.event_id) db.quarantine)
      then row ∷ db.quarantine
      else db.quarantine in
    finish event true Disposition.quarantined (some reason) false now
      (record db { quarantine = rows })
