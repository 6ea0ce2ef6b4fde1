-- ===== src/Streaming/Batches/Tallies.antt =====
-- The counts of the batches after an event is finalized.
use rfid_inventory_replenish.Prelude.{
  ◌+◌, ◌≡◌, ◌⊎◌, inl, inr, refl, sym, ◌∙◌, Bool, true, false, Option, List, [], ◌∷◌, arith, All,
  All-update_where, All-imp, find, select, any, update_where, count_where, ◌==◌, if◌then◌else◌,
  Bool-cases, Option-cases,
}
use rfid_inventory_replenish.Domain.{Uuid, Text, Instant, ok, Result-cases}
use rfid_inventory_replenish.Connectivity.{RfidObservationEvent}
use rfid_inventory_replenish.Streaming.Rows.{
  Disposition, Why, BatchStatus, RfidObservationBatch, RfidObservationBatchEvent, ObservationBook,
  is_ledger, is_link, is_batch, is_link_of_batch, is_pending_event,
}
use rfid_inventory_replenish.Streaming.Batches.{
  Verdict, verdict, finalized_link, processed_links, rejected_links, settled, batch_ids,
  settle_batches, finalize_event, advance_batch,
}

-- The status that the counts of a batch give, once there are any.
unfoldable pub progress : RfidObservationBatch → BatchStatus
progress batch =
    if batch.processed_count + batch.rejected_count == batch.accepted_count
    then (if batch.rejected_count == 0
        then BatchStatus.completed
        else BatchStatus.completed_with_errors)
    else BatchStatus.processing

-- The counts of a batch are those of its links, and its status is that of its counts.
pub record IsTallied (links : List RfidObservationBatchEvent) (batch : RfidObservationBatch)
    : Type 0 where
  pub processed_tally : batch.processed_count ≡ processed_links batch.tenant_id batch.id links
  pub rejected_tally : batch.rejected_count ≡ rejected_links batch.tenant_id batch.id links
  pub status_tally :
      (batch.processed_count + batch.rejected_count ≡ 0) ⊎ (batch.status ≡ progress batch)

settled-IsTallied :
    (now : Instant) (links : List RfidObservationBatchEvent) (batch : RfidObservationBatch)
    → IsTallied links (settled now links batch)
unfolding settled progress
settled-IsTallied now links batch = record {
  processed_tally = ground arith;
  rejected_tally = ground arith;
  status_tally = ground arith;
}

-- The batch is among the ids, or tallied already.
abbrev Due : Uuid → List Uuid → List RfidObservationBatchEvent → RfidObservationBatch → Type 0
Due tenant ids links batch =
    IsTallied links batch ⊎ (any (λ id. is_batch tenant id batch) ids ≡ true)

Due-rest :
    (tenant : Uuid) (id : Uuid) (ids : List Uuid) (links : List RfidObservationBatchEvent)
    (b : RfidObservationBatch)
    → is_batch tenant id b ≡ false
    → Due tenant (id ∷ ids) links b
    → Due tenant ids links b
unfolding any
Due-rest tenant id ids links b apart (inl there) = inl there
Due-rest tenant id ids links b apart (inr e) = inr (ground arith)

settle_batches-IsTallied :
    (tenant : Uuid) (now : Instant) (links : List RfidObservationBatchEvent) (ids : List Uuid)
    (batches batches' : List RfidObservationBatch)
    → settle_batches tenant now links ids batches ≡ ok batches'
    → All (Due tenant ids links) batches
    → All (IsTallied links) batches'
unfolding settle_batches
settle_batches-IsTallied tenant now links [] batches batches' h due =
    let same : batches ≡ batches' = ground arith in
    rw (← same) (
      All-imp (Due tenant [] links) (IsTallied links)
        (λ b d. elim d [ inl there ↦ there | inr e ↦ absurd (unfold any in cc) ]) batches due)
settle_batches-IsTallied tenant now links (id ∷ ids) batches batches' h due =
    elim (Option-cases (find (is_batch tenant id) batches)) [
      | inl e ↦ absurd (ground arith)
      | inr (row, e) ↦
          settle_batches-IsTallied tenant now links ids
            (update_where (is_batch tenant id) (settled now links) batches) batches' (ground arith)
            (All-update_where (is_batch tenant id) (Due tenant (id ∷ ids) links)
              (Due tenant ids links) (settled now links)
              (λ b _ _. inl (settled-IsTallied now links b))
              (λ b d apart. Due-rest tenant id ids links b apart d) batches due)
    ]

-- A batch that none of the ids is the id of.
abbrev Apart :
    Uuid → Text → Verdict → RfidObservationBatch → List RfidObservationBatchEvent → Type 0
Apart tenant event v b links =
    any (λ id. is_batch tenant id b) (batch_ids (select (is_link tenant event) links)) ≡ false

any_id :
    (tenant : Uuid) (b : RfidObservationBatch) (id : Uuid) (ids : List Uuid)
    → any (λ other. other == id) ids ≡ true
    → any (λ other. is_batch tenant other b) ids ≡ false
    → is_batch tenant id b ≡ false
unfolding any
any_id tenant b id [] h k = cc
any_id tenant b id (x ∷ ids) h k = ground (arith, any_id tenant b id ids)

module _ (tenant : Uuid) (event : Text) (v : Verdict) (b : RfidObservationBatch) where
  -- A batch apart from the links of an event keeps its counts.
  link-Apart :
      (x : RfidObservationBatchEvent) (xs : List RfidObservationBatchEvent)
      → is_link tenant event x ≡ true
      → Apart tenant event v b (x ∷ xs)
      → (is_link_of_batch b.tenant_id b.id x ≡ false) × Apart tenant event v b xs
  unfolding select batch_ids
  link-Apart x xs e h =
      let ids = batch_ids (select (is_link tenant event) xs) in
      elim (Bool-cases (any (λ id. id == x.batch_id) ids)) [
        | inl there ↦
            let rest : Apart tenant event v b xs = rw (e, there) at h in
            let other = any_id tenant b x.batch_id ids there rest in (ground arith, rest)
        | inr new ↦
            let both : any (λ id. is_batch tenant id b) (x.batch_id ∷ ids) ≡ false =
              rw (e, new) at h in
            (unfold any in ground arith, unfold any in ground arith)
      ]

  processed_links-Apart :
      (links : List RfidObservationBatchEvent)
      → Apart tenant event v b links
      → processed_links b.tenant_id b.id
          (update_where (is_link tenant event) (finalized_link v) links)
        ≡ processed_links b.tenant_id b.id links
  unfolding processed_links count_where update_where
  processed_links-Apart [] h = refl
  processed_links-Apart (x ∷ xs) h = elim (Bool-cases (is_link tenant event x)) [
    | inl e ↦
        let (other, rest) = link-Apart x xs e h in ground (arith, processed_links-Apart xs rest)
    | inr e ↦
        let rest : Apart tenant event v b xs = unfold select in rw e at h in
        ground (arith, processed_links-Apart xs rest)
  ]

  rejected_links-Apart :
      (links : List RfidObservationBatchEvent)
      → Apart tenant event v b links
      → rejected_links b.tenant_id b.id
          (update_where (is_link tenant event) (finalized_link v) links)
        ≡ rejected_links b.tenant_id b.id links
  unfolding rejected_links count_where update_where
  rejected_links-Apart [] h = refl
  rejected_links-Apart (x ∷ xs) h = elim (Bool-cases (is_link tenant event x)) [
    | inl e ↦
        let (other, rest) = link-Apart x xs e h in ground (arith, rejected_links-Apart xs rest)
    | inr e ↦
        let rest : Apart tenant event v b xs = unfold select in rw e at h in
        ground (arith, rejected_links-Apart xs rest)
  ]

Due-of_tallied :
    (tenant : Uuid) (event : Text) (v : Verdict) (links : List RfidObservationBatchEvent)
    (b : RfidObservationBatch)
    → IsTallied links b
    → Due tenant
        (batch_ids (select (is_link tenant event) links))
        (update_where (is_link tenant event) (finalized_link v) links)
        b
Due-of_tallied tenant event v links b t =
    elim (Bool-cases
      (any (λ id. is_batch tenant id b) (batch_ids (select (is_link tenant event) links)))) [
        | inl e ↦ inr e
        | inr e ↦ inl (record {
          processed_tally =
              t.processed_tally ∙ sym (processed_links-Apart tenant event v b links e);
          rejected_tally = t.rejected_tally ∙ sym (rejected_links-Apart tenant event v b links e);
          status_tally = t.status_tally;
        })
      ]

finalize_event-IsTallied :
    {F : Type 0} (tenant : Uuid) (event : Text) (v : Verdict) (book book' : ObservationBook F)
    → finalize_event tenant event v book ≡ ok book'
    → All (IsTallied book.links) book.batches
    → All (IsTallied book'.links) book'.batches
unfolding finalize_event
finalize_event-IsTallied tenant event v book book' h tallied =
    let links = update_where (is_link tenant event) (finalized_link v) book.links in
    let ids = batch_ids (select (is_link tenant event) book.links) in
    elim (Result-cases (settle_batches tenant v.at links ids book.batches)) [
      | inr (problem, e) ↦ absurd (ground arith)
      | inl (batches, e) ↦
          let same_links : links ≡ book'.links = ground arith in
          let same_batches : batches ≡ book'.batches = ground arith in
          rw (← same_links, ← same_batches)
            (settle_batches-IsTallied tenant v.at links ids book.batches batches e (
              All-imp (IsTallied book.links) (Due tenant ids links)
                (λ b t. Due-of_tallied tenant event v book.links b t) book.batches tallied))
    ]

-- Finalizing an event keeps the counts and the status of every batch those of its links.
pub advance_batch-IsTallied :
    {F : Type 0} (event : RfidObservationEvent F) (rejects : Bool)
    (disposition : Option Disposition) (reason : Option Why) (now : Instant)
    (book book' : ObservationBook F)
    → advance_batch event rejects disposition reason now book ≡ ok book'
    → All (IsTallied book.links) book.batches
    → All (IsTallied book'.links) book'.batches
unfolding advance_batch
advance_batch-IsTallied event rejects disposition reason now book book' h tallied =
    elim (Option-cases (find (is_ledger event.tenant_id event.event_id) book.ledger)) [
      | inl e ↦ absurd (ground arith)
      | inr (row, e) ↦ elim (Bool-cases (is_pending_event row.processing_status)) [
        | inr finalized ↦ let same : book ≡ book' = ground arith in rw (← same) tallied
        | inl waiting ↦
            finalize_event-IsTallied event.tenant_id event.event_id
              (verdict rejects disposition reason now) book book'
              (rw (e, waiting, advance_batch) at h) tallied
      ]
    ]
