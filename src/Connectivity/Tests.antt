-- ===== src/Connectivity/Tests.antt =====
-- The theorems on connectivity, applied to a store with a gateway.
use rfid_inventory_replenish.Prelude.{
  ◌≤◌, ◌≡◌, refl, ◌↔◌, true, false, some, none, [], ◌∷◌, arith, find, update_where,
}
use rfid_inventory_replenish.Domain.{ok}
use rfid_inventory_replenish.Connectivity.{
  live, degraded, stale, StoreConnectivity, Settings, RfidObservationEvent, effective_freshness,
  first_receipt, apply_receipt, update_connectivity, row_freshness, freshness_of_ages,
  ensure_connectivity, lock_store_connectivity_for_receipt, apply_live, seen_live,
  apply_connectivity_observation,
}
use rfid_inventory_replenish.Connectivity.Laws.{
  freshness_index, effective_freshness_mono, effective_freshness-live, reported, apply_receipt_comm,
}
use rfid_inventory_replenish.Connectivity.Evidence.{IsLive}

abbrev pub settings : Settings
settings = record {
  rfid_move_confirmation_reads = 3;
  rfid_move_confirmation_window_seconds = 10;
  rfid_unobserved_after_seconds = 1800;
  rfid_last_seen_flush_seconds = 30;
  rfid_confidence_half_life_seconds = 1800;
  connectivity_live_window_seconds = 120;
  connectivity_stale_window_seconds = 600;
  rfid_max_future_skew_seconds = 300;
}

abbrev pub live_row : StoreConnectivity
live_row = record (first_receipt 5 7 100 true true) {
  last_live_event_at = some 90;
  last_live_received_at = some 100;
  freshness_status = live;
}

abbrev event : RfidObservationEvent Unit
event = record {
  schema_version = 1;
  tenant_id = 5;
  batch_id = 1;
  event_id = 2;
  device_id = 3;
  store_id = 7;
  zone_id = 8;
  epc = 1234;
  observed_at = 150;
  received_at = 160;
  rssi = tt;
  antenna_id = none;
  reader_health = tt;
  is_buffered = false;
  backlog_drained = true;
  reader_coverage_ok = true;
  replayed_from_quarantine_id = none;
}

is_live : effective_freshness settings 130 (some live_row) ≡ live
unfolding effective_freshness row_freshness freshness_of_ages
is_live = refl

ages_to_degraded : effective_freshness settings 300000000 (some live_row) ≡ degraded
unfolding effective_freshness row_freshness freshness_of_ages
ages_to_degraded = refl

ages_to_stale : effective_freshness settings 700000000 (some live_row) ≡ stale
unfolding effective_freshness row_freshness freshness_of_ages
ages_to_stale = refl

effective_freshness_mono_example :
    freshness_index (effective_freshness settings 130 (some live_row))
    ≤ freshness_index (effective_freshness settings 300000000 (some live_row))
effective_freshness_mono_example =
    effective_freshness_mono settings 130 300000000 (some live_row) (omega arith)

effective_freshness-live_example :
    (effective_freshness settings 130 (some live_row) ≡ live) ↔ IsLive settings 130 live_row
effective_freshness-live_example = effective_freshness-live settings 130 live_row (omega arith)

apply_receipt_comm_example :
    reported (apply_receipt 120 false true (apply_receipt 110 true true live_row))
    ≡ reported (apply_receipt 110 true true (apply_receipt 120 false true live_row))
apply_receipt_comm_example =
    apply_receipt_comm live_row 110 120 true false true true (λ e. omega (arith, e))

-- A store with a heartbeat and no live event yet, and the one that its first live event leaves.
abbrev silent_row : StoreConnectivity
silent_row = first_receipt 5 7 100 true true

abbrev heard_row : StoreConnectivity
heard_row = record silent_row {
  gateway_last_heartbeat = some 160;
  status_received_at = 160;
  last_live_event_at = some 150;
  last_live_received_at = some 160;
  freshness_status = live;
}

becomes_live : update_connectivity event settings (silent_row ∷ []) ≡ ok (heard_row, heard_row ∷ [])
unfolding update_connectivity lock_store_connectivity_for_receipt ensure_connectivity find
    update_where apply_receipt apply_connectivity_observation apply_live seen_live
    effective_freshness row_freshness freshness_of_ages
becomes_live = refl
