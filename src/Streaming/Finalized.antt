-- ===== src/Streaming/Finalized.antt =====
-- The ledger and the batches after an observation is processed.
use rfid_inventory_replenish.Prelude.{
  ◌≡◌, ◌∙◌, refl, inl, inr, Bool, true, false, Option, some, List, arith, All, select, find,
  find-some, find-update_keeps, update_where, Bool-cases, Option-cases,
}
use rfid_inventory_replenish.Domain.{Uuid, Text, Instant, ok, Result-cases}
use rfid_inventory_replenish.Floats.{FloatOps}
use rfid_inventory_replenish.Connectivity.{Settings, RfidObservationEvent}
use rfid_inventory_replenish.Streaming.Rows.{
  Disposition, Why, RfidObservationEventLedger, ObservationBook, StreamDb, is_ledger, is_link,
  is_pending_event,
}
use rfid_inventory_replenish.Streaming.Batches.{
  ProcessingResult, Verdict, verdict, finalized_ledger, finalized_link, settle_batches, batch_ids,
  finalize_event, advance_batch,
}
use rfid_inventory_replenish.Streaming.Batches.Tallies.{IsTallied, advance_batch-IsTallied}
use rfid_inventory_replenish.Streaming.Recent.{RecentObservationState}
use rfid_inventory_replenish.Streaming.Process.{Clock}
use rfid_inventory_replenish.Streaming.Transition.{Naming}
use rfid_inventory_replenish.Streaming.Observe.{process_observation}
use rfid_inventory_replenish.Streaming.Effect.{Finalized, Effect, untouched, stayed, moved}
use rfid_inventory_replenish.Streaming.Effect.Observed.{process_observation_lem}

module _ {F : Type 0} where
  Effect-Finalized :
      (event : RfidObservationEvent F) (naming : Naming) (db : StreamDb F)
      (out : ProcessingResult × StreamDb F)
      → Effect event naming db out
      → Finalized event db.book out.1.book
  Effect-Finalized event naming db out (untouched end same) = end.finalized
  Effect-Finalized event naming db out (stayed f keeps end same) = end.finalized
  Effect-Finalized event naming db out (moved sku decision now can end same) = end.finalized

  -- The ledger has a row of the event that is not pending.
  pub record IsFinal (event : RfidObservationEvent F) (book : ObservationBook F) : Type 0 where
    pub row : RfidObservationEventLedger F
    pub found : find (is_ledger event.tenant_id event.event_id) book.ledger ≡ some row
    pub final : is_pending_event row.processing_status ≡ false

  find_finalized :
      (t : Uuid) (e : Text) (v : Verdict) (rows : List (RfidObservationEventLedger F))
      (row : RfidObservationEventLedger F)
      → find (is_ledger t e) rows ≡ some row
      → find (is_ledger t e) (update_where (is_ledger t e) (finalized_ledger v) rows)
        ≡ some (finalized_ledger v row)
  find_finalized t e v rows row h =
      let there = find-some (is_ledger t e) rows row h in
      let updated =
        find-update_keeps {A = RfidObservationEventLedger F} (is_ledger t e) (is_ledger t e)
          (finalized_ledger v) (λ x. refl) rows row h in
      updated ∙ rw there refl

  verdict-final :
      (row : RfidObservationEventLedger F) (rejects : Bool) (disposition : Option Disposition)
      (reason : Option Why) (now : Instant)
      → is_pending_event
          (finalized_ledger (verdict rejects disposition reason now) row).processing_status
        ≡ false
  unfolding verdict
  verdict-final row true disposition reason now = refl
  verdict-final row false disposition reason now = refl

  finalize_event-ledger :
      (t : Uuid) (e : Text) (v : Verdict) (book book' : ObservationBook F)
      → finalize_event t e v book ≡ ok book'
      → book'.ledger ≡ update_where (is_ledger t e) (finalized_ledger v) book.ledger
  unfolding finalize_event
  finalize_event-ledger t e v book book' h =
      elim (Result-cases (
        settle_batches t v.at (update_where (is_link t e) (finalized_link v) book.links)
          (batch_ids (select (is_link t e) book.links)) book.batches)) [
            | inl (batches, f) ↦ ground arith
            | inr (problem, f) ↦ absurd (ground arith)
          ]

  advance_batch-IsFinal :
      (event : RfidObservationEvent F) (rejects : Bool) (disposition : Option Disposition)
      (reason : Option Why) (now : Instant) (book book' : ObservationBook F)
      → advance_batch event rejects disposition reason now book ≡ ok book'
      → IsFinal event book'
  unfolding advance_batch
  advance_batch-IsFinal event rejects disposition reason now book book' h =
      let t = event.tenant_id in
      let e = event.event_id in
      elim (Option-cases (find (is_ledger t e) book.ledger)) [
        | inl absent ↦ absurd (ground arith)
        | inr (row, found) ↦ elim (Bool-cases (is_pending_event row.processing_status)) [
          | inr final ↦
              let same : book ≡ book' = ground arith in
              rw (← same) (record { row = row; found = found; final = final })
          | inl waiting ↦
              let v = verdict rejects disposition reason now in
              let ledger =
                finalize_event-ledger t e v book book' (rw (found, waiting, advance_batch) at h) in
              record {
                row = finalized_ledger v row;
                found = rw ledger (find_finalized t e v book.ledger row found);
                final = verdict-final row rejects disposition reason now;
              }
        ]
      ]

-- Every observation whose processing returns is finalized: the ledger has a row of the event, and
-- the row is processed or rejected, whether the event was a duplicate, late, quarantined, ambiguous
-- or moved its item.
pub process_observation-IsFinal :
    {F : Type 0} (ops : FloatOps F) (event : RfidObservationEvent F)
    (recent : RecentObservationState F) (settings : Settings) (clock : Clock) (id : Uuid)
    (naming : Naming) (db : StreamDb F) (out : ProcessingResult × StreamDb F)
    → (process_observation ops event recent settings clock id naming db).0 ≡ ok out
    → IsFinal event out.1.book
process_observation-IsFinal ops event recent settings clock id naming db out done =
    let f =
      Effect-Finalized event naming db out
        (process_observation_lem ops event recent settings clock id naming db out done) in
    advance_batch-IsFinal event f.rejects (some f.disposition) f.reason f.now db.book out.1.book
      f.done

-- An observation that is processed keeps the counts of every batch equal to the numbers of its
-- processed and of its rejected links, and its status the one that those counts give, once there
-- are any.
pub process_observation-IsTallied :
    {F : Type 0} (ops : FloatOps F) (event : RfidObservationEvent F)
    (recent : RecentObservationState F) (settings : Settings) (clock : Clock) (id : Uuid)
    (naming : Naming) (db : StreamDb F) (out : ProcessingResult × StreamDb F)
    → All (IsTallied db.book.links) db.book.batches
    → (process_observation ops event recent settings clock id naming db).0 ≡ ok out
    → All (IsTallied out.1.book.links) out.1.book.batches
process_observation-IsTallied ops event recent settings clock id naming db out tallied done =
    let f =
      Effect-Finalized event naming db out
        (process_observation_lem ops event recent settings clock id naming db out done) in
    advance_batch-IsTallied event f.rejects (some f.disposition) f.reason f.now db.book out.1.book
      f.done tallied
