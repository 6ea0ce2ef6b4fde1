-- ===== src/Streaming/Tests.antt =====
-- The theorems on observations, applied to a tag that is read on the sales floor after it was in the
-- backroom.
use rfid_inventory_replenish.Business.{
  Request, BusinessDb, AcceptedBusinessEvent, failed, new_event, accept_authoritative_removal,
  accept_event, removable_from, record_removal, removal_row, removed_stream, removed_item,
}
use rfid_inventory_replenish.Policy.Store.{StoreStatus}
use rfid_inventory_replenish.Streaming.Transition.{
  delta_payload, leaving, moved_state, new_state, moved_items, previous_zone, transition_row,
  attributed, transitioned,
}
use rfid_inventory_replenish.Streaming.Observe.{process_observation, conclude, remembered}
use rfid_inventory_replenish.Prelude.{
  ℕ, ◌≤◌, ◌≡◌, refl, inl, true, false, none, some, List, [], ◌∷◌, map, arith, All, find,
  count_where, select, any, update_where, first_by, sort_by, insert_by, all,
}
use rfid_inventory_replenish.Domain.{Result, ok, err}
use rfid_inventory_replenish.Connectivity.{
  RfidObservationEvent, CurrentItemState, update_connectivity,
}
use rfid_inventory_replenish.Tasks.{ReplenishmentTask}
use rfid_inventory_replenish.Tasks.Invariant.{IsWellFormed}
use rfid_inventory_replenish.Streaming.Rows.{Disposition, StreamDb, is_item}
use rfid_inventory_replenish.Streaming.Batches.{ProcessingResult}
use rfid_inventory_replenish.Streaming.Batches.Tallies.{IsTallied}
use rfid_inventory_replenish.Streaming.Recent.{RecentObservationState, checkpoint, restore}
use rfid_inventory_replenish.Streaming.Recent.Restore.{IsBounded, SameContents}
use rfid_inventory_replenish.Streaming.Zones.{StableZoneDecision, infer_stable_zone}
use rfid_inventory_replenish.Streaming.Zones.Evidence.{is_read_at, infer_stable_zone-reads}
use rfid_inventory_replenish.Connectivity.{
  row_freshness, effective_freshness, ensure_connectivity, lock_store_connectivity_for_receipt,
  apply_receipt, seen_live, apply_live, apply_buffered, apply_connectivity_observation,
  update_connectivity, freshness_of_ages,
}
use rfid_inventory_replenish.Streaming.Batches.{
  verdict, processed_links, rejected_links, settled, batch_ids, settle_batches, finalize_event,
  advance_batch, finish, quarantine_observation,
}
use rfid_inventory_replenish.Streaming.Dicts.{get, pop, put, drop_oldest, oldest}
use rfid_inventory_replenish.Streaming.Recent.{
  bounded, remember_id, remember_event, forget_event, newest_of, retained, add_window, add,
}
use rfid_inventory_replenish.Streaming.Zones.{
  add_read, group_reads, newest_read, median_rssi, outranks, confidence_of, decision_for,
  decide_zone, infer_stable_zone,
}
use rfid_inventory_replenish.Streaming.Attribution.{
  zone_kind, is_attributable, attribution_order, verified_once, attributed_task, is_restock,
  attribute_replenishment_move,
}
use rfid_inventory_replenish.Streaming.Process.{
  effective_assignment, resolve_effective_assignment, binding_at, current_binding, resolve_binding,
  processed_observation_watermark, admit_bound, admit_resolved, is_too_far_ahead, admit,
}
use rfid_inventory_replenish.Streaming.Items.{
  is_flush_due, touched, same_current_evidence, weakened, ambiguous_state, refreshed_state,
}
use rfid_inventory_replenish.Streaming.Kept.{process_observation-IsWellFormed}
use rfid_inventory_replenish.Streaming.Restored.{
  process_observation-IsBounded, restore-process_observation,
}
use rfid_inventory_replenish.Streaming.Progress.{Follows, process_observation-Follows}
use rfid_inventory_replenish.Streaming.Finalized.{
  IsFinal, process_observation-IsFinal, process_observation-IsTallied,
}
use rfid_inventory_replenish.Streaming.Reachable.{
  start, observed, removed, IsBalanced, Reachable-IsBalanced,
}
use rfid_inventory_replenish.Streaming.Scene.{
  floats, settings, event, clock, naming, item, before, recent,
}

abbrev done : Result (ProcessingResult × StreamDb ℕ) × RecentObservationState ℕ
done = process_observation floats event recent settings clock 77 naming before

abbrev outcome : ProcessingResult × StreamDb ℕ
outcome = elim done.0 [
  | ok out ↦ out
  | err e ↦
      (record { disposition = Disposition.late; reason = none; state_changed = false }, before)
]

returns : done.0 ≡ ok outcome
unfolding select find any all update_where count_where first_by sort_by insert_by row_freshness
    effective_freshness ensure_connectivity lock_store_connectivity_for_receipt apply_receipt
    seen_live apply_live apply_buffered apply_connectivity_observation update_connectivity
    freshness_of_ages verdict processed_links rejected_links settled batch_ids settle_batches
    finalize_event advance_batch finish quarantine_observation get pop put drop_oldest oldest
    bounded remember_id remember_event forget_event newest_of retained add_window add add_read
    group_reads newest_read median_rssi outranks confidence_of decision_for decide_zone
    infer_stable_zone zone_kind is_attributable attribution_order verified_once attributed_task
    is_restock attribute_replenishment_move effective_assignment resolve_effective_assignment
    binding_at current_binding resolve_binding processed_observation_watermark admit_bound
    admit_resolved is_too_far_ahead admit is_flush_due touched same_current_evidence weakened
    ambiguous_state refreshed_state delta_payload leaving moved_state new_state moved_items
    previous_zone transition_row attributed transitioned conclude remembered process_observation
returns = refl

-- The item is on the sales floor now, and the move is evidence for the task.
moves :
    (outcome.0.state_changed ≡ true)
    × (map (λ (s : CurrentItemState ℕ). s.zone_id) outcome.1.items ≡ some 8 ∷ [])
    × (map (λ (t : ReplenishmentTask). t.verified_quantity) outcome.1.tasks ≡ 1 ∷ [])
unfolding select find any all update_where count_where first_by sort_by insert_by row_freshness
    effective_freshness ensure_connectivity lock_store_connectivity_for_receipt apply_receipt
    seen_live apply_live apply_buffered apply_connectivity_observation update_connectivity
    freshness_of_ages verdict processed_links rejected_links settled batch_ids settle_batches
    finalize_event advance_batch finish quarantine_observation get pop put drop_oldest oldest
    bounded remember_id remember_event forget_event newest_of retained add_window add add_read
    group_reads newest_read median_rssi outranks confidence_of decision_for decide_zone
    infer_stable_zone zone_kind is_attributable attribution_order verified_once attributed_task
    is_restock attribute_replenishment_move effective_assignment resolve_effective_assignment
    binding_at current_binding resolve_binding processed_observation_watermark admit_bound
    admit_resolved is_too_far_ahead admit is_flush_due touched same_current_evidence weakened
    ambiguous_state refreshed_state delta_payload leaving moved_state new_state moved_items
    previous_zone transition_row attributed transitioned conclude remembered process_observation
moves = (refl, refl, refl)

tasks-IsWellFormed : All IsWellFormed before.tasks
tasks-IsWellFormed = (
  record {
    positive_quantity = omega arith;
    positive_version = omega arith;
    verified_within = omega arith;
    recorded = refl;
  },
  tt,
)

process_observation-IsWellFormed_example : All IsWellFormed outcome.1.tasks
process_observation-IsWellFormed_example =
    process_observation-IsWellFormed floats event recent settings clock 77 naming before outcome
      tasks-IsWellFormed returns

recent-IsBounded : IsBounded recent
recent-IsBounded = record { few_windows = omega arith; few_ids = omega arith }

process_observation-IsBounded_example : IsBounded done.1
process_observation-IsBounded_example =
    process_observation-IsBounded floats event recent settings clock 77 naming before
      recent-IsBounded

restore-process_observation_example :
    (t : RecentObservationState ℕ) × (restore (checkpoint event recent) done.1 ≡ ok t)
    × SameContents t recent
restore-process_observation_example =
    restore-process_observation floats event recent settings clock 77 naming before recent-IsBounded

found : find (is_item 5 1234) before.items ≡ some item
unfolding find
found = refl

process_observation-Follows_example :
    (s' : CurrentItemState ℕ) × (find (is_item 5 1234) outcome.1.items ≡ some s') × Follows item s'
process_observation-Follows_example =
    process_observation-Follows floats event recent settings clock 77 naming before outcome 5 1234
      item returns found

process_observation-IsFinal_example : IsFinal event outcome.1.book
process_observation-IsFinal_example =
    process_observation-IsFinal floats event recent settings clock 77 naming before outcome returns

book-IsTallied : All (IsTallied before.book.links) before.book.batches
unfolding processed_links rejected_links count_where
book-IsTallied =
    (record { processed_tally = refl; rejected_tally = refl; status_tally = inl refl }, tt)

process_observation-IsTallied_example : All (IsTallied outcome.1.book.links) outcome.1.book.batches
process_observation-IsTallied_example =
    process_observation-IsTallied floats event recent settings clock 77 naming before outcome
      book-IsTallied returns

abbrev window : List (RfidObservationEvent ℕ)
window =
    event
    ∷ (record event { event_id = 3; zone_id = 20; observed_at = 140 })
    ∷ (record event { event_id = 4; observed_at = 145 })
    ∷ []

abbrev inferred : StableZoneDecision ℕ
inferred = elim (infer_stable_zone floats settings window) [
  | some d ↦ d
  | none ↦ record { store_id = 0; zone_id = 0; confidence = 0; observed_at = 0; received_at = 0 }
]

infers : infer_stable_zone floats settings window ≡ some inferred
unfolding infer_stable_zone decide_zone decision_for confidence_of outranks median_rssi newest_read
    group_reads add_read sort_by insert_by
infers = refl

infer_stable_zone-reads_example :
    1 ≤ count_where (is_read_at inferred.store_id inferred.zone_id) window
infer_stable_zone-reads_example = infer_stable_zone-reads floats settings window inferred infers

-- The tables before any read of the tag.
abbrev fresh : StreamDb ℕ
fresh = record before { items = []; tasks = [] }

abbrev arrived : ProcessingResult × StreamDb ℕ
arrived = elim (process_observation floats event recent settings clock 77 naming fresh).0 [
  | ok out ↦ out
  | err e ↦ (record { disposition = Disposition.late; reason = none; state_changed = false }, fresh)
]

arrives : (process_observation floats event recent settings clock 77 naming fresh).0 ≡ ok arrived
unfolding select find any all update_where count_where first_by sort_by insert_by row_freshness
    effective_freshness ensure_connectivity lock_store_connectivity_for_receipt apply_receipt
    seen_live apply_live apply_buffered apply_connectivity_observation update_connectivity
    freshness_of_ages verdict processed_links rejected_links settled batch_ids settle_batches
    finalize_event advance_batch finish quarantine_observation get pop put drop_oldest oldest
    bounded remember_id remember_event forget_event newest_of retained add_window add add_read
    group_reads newest_read median_rssi outranks confidence_of decision_for decide_zone
    infer_stable_zone zone_kind is_attributable attribution_order verified_once attributed_task
    is_restock attribute_replenishment_move effective_assignment resolve_effective_assignment
    binding_at current_binding resolve_binding processed_observation_watermark admit_bound
    admit_resolved is_too_far_ahead admit is_flush_due touched same_current_evidence weakened
    ambiguous_state refreshed_state delta_payload leaving moved_state new_state moved_items
    previous_zone transition_row attributed transitioned conclude remembered process_observation
arrives = refl

-- The sale of the item, after it arrived.
abbrev sale : Request
sale = record {
  tenant_id = 5;
  store_id = 7;
  event_id = 99;
  fingerprint = 1;
  now = 1000;
  body = record {
    source_system = 1;
    external_event_id = 2;
    event_type = 0;
    epc = 1234;
    occurred_at = 900;
    note = none;
  };
}

abbrev shop : BusinessDb ℕ
shop = record {
  stores = (record { id = 7; tenant_id = 5; status = StoreStatus.active }) ∷ [];
  events = [];
  stream = arrived.1;
}

abbrev sold : AcceptedBusinessEvent × BusinessDb ℕ
sold = elim (accept_authoritative_removal sale settings naming false shop) [
  | ok out ↦ out
  | err e ↦
      (record { event = new_event sale 0 0; processing_status = failed; created = false }, shop)
]

sells : accept_authoritative_removal sale settings naming false shop ≡ ok sold
unfolding accept_authoritative_removal accept_event removable_from record_removal removal_row
    removed_stream removed_item select find any all update_where count_where first_by sort_by
    insert_by row_freshness effective_freshness ensure_connectivity
    lock_store_connectivity_for_receipt apply_receipt seen_live apply_live apply_buffered
    apply_connectivity_observation update_connectivity freshness_of_ages verdict processed_links
    rejected_links settled batch_ids settle_batches finalize_event advance_batch finish
    quarantine_observation get pop put drop_oldest oldest bounded remember_id remember_event
    forget_event newest_of retained add_window add add_read group_reads newest_read median_rssi
    outranks confidence_of decision_for decide_zone infer_stable_zone zone_kind is_attributable
    attribution_order verified_once attributed_task is_restock attribute_replenishment_move
    effective_assignment resolve_effective_assignment binding_at current_binding resolve_binding
    processed_observation_watermark admit_bound admit_resolved is_too_far_ahead admit is_flush_due
    touched same_current_evidence weakened ambiguous_state refreshed_state delta_payload leaving
    moved_state new_state moved_items previous_zone transition_row attributed transitioned conclude
    remembered process_observation
sells = refl

Reachable-IsBalanced_example : IsBalanced sold.1.stream
Reachable-IsBalanced_example = Reachable-IsBalanced floats settings naming sold.1.stream (
    removed sale false shop sold
      (observed event recent clock 77 fresh arrived (start fresh refl refl) arrives) sells)
