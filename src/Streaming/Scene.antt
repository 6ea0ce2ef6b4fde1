-- ===== src/Streaming/Scene.antt =====
-- A tag that is read on the sales floor after it was in the backroom: the tables and the event of the
-- tests. A float is a natural number here.
use rfid_inventory_replenish.Streaming.Transition.{Naming}
use rfid_inventory_replenish.Prelude.{
  ℕ, ◌+◌, ◌-◌, ◌*◌, ◌/◌, ltb, true, false, none, some, [], ◌∷◌, ◌==◌,
}
use rfid_inventory_replenish.Floats.{FloatOps}
use rfid_inventory_replenish.Connectivity.{
  Settings, RfidObservationEvent, CurrentItemState, first_receipt,
}
use rfid_inventory_replenish.Tasks.{ReplenishmentTask, in_progress}
use rfid_inventory_replenish.Evaluation.Snapshots.{sales_floor, backroom}
use rfid_inventory_replenish.Streaming.Rows.{BatchStatus, EventStatus, DeviceStatus, StreamDb}
use rfid_inventory_replenish.Streaming.Recent.{RecentObservationState}
use rfid_inventory_replenish.Streaming.Process.{Clock}

abbrev pub floats : FloatOps ℕ
floats = record {
  lt_float = ltb;
  eq_float = ◌==◌;
  add = ◌+◌;
  sub = ◌-◌;
  mul = ◌*◌;
  div = ◌/◌;
  of_int = λ n. n;
  decimal = λ n k. n;
  total_seconds = λ n. n / 1000000;
  round4 = λ n. n;
  median = λ ns. 0;
}

abbrev pub settings : Settings
settings = record {
  rfid_move_confirmation_reads = 1;
  rfid_move_confirmation_window_seconds = 10;
  rfid_unobserved_after_seconds = 1800;
  rfid_last_seen_flush_seconds = 30;
  rfid_confidence_half_life_seconds = 1800;
  connectivity_live_window_seconds = 120;
  connectivity_stale_window_seconds = 600;
  rfid_max_future_skew_seconds = 300;
}

abbrev pub event : RfidObservationEvent ℕ
event = record {
  schema_version = 1;
  tenant_id = 5;
  batch_id = 1;
  event_id = 2;
  device_id = 3;
  store_id = 7;
  zone_id = 8;
  epc = 1234;
  observed_at = 150;
  received_at = 160;
  rssi = 40;
  antenna_id = none;
  reader_health = 1;
  is_buffered = false;
  backlog_drained = true;
  reader_coverage_ok = true;
  replayed_from_quarantine_id = none;
}

abbrev pub clock : Clock
clock = record { processor_time = 170; binding_time = 171; finalized_at = 172 }

abbrev pub naming : Naming
naming = record { deterministic_transition_id = λ t e v. t + e + v; delta_id = λ t s z. t + s + z }

abbrev pub item : CurrentItemState ℕ
item = record {
  tenant_id = 5;
  epc = 1234;
  sku_id = 11;
  store_id = some 7;
  zone_id = some 20;
  last_observed_at = 100;
  last_received_at = 110;
  confidence = 1;
  state_version = 1;
  authoritative_removal_event_id = none;
  authoritative_removed_at = none;
}

abbrev pub task : ReplenishmentTask
task = record {
  id = 9;
  tenant_id = 5;
  store_id = 7;
  sku_id = 11;
  policy_version_id = 1;
  policy_rule_id = 1;
  status = in_progress;
  quantity = 3;
  verified_quantity = 0;
  verification_deadline = none;
  version = 3;
  claimed_by_user_id = some 4;
  claimed_at = some 90;
  started_at = some 95;
  completed_at = none;
  expires_at = none;
  note = none;
  created_at = 80;
  updated_at = 95;
}

abbrev pub before : StreamDb ℕ
before = record {
  book = record {
    ledger =
        (record {
          tenant_id = 5;
          event_id = 2;
          payload_fingerprint = 0;
          device_id = 3;
          store_id = 7;
          zone_id = 8;
          epc = 1234;
          observed_at = 150;
          first_received_at = 160;
          rssi = 40;
          antenna_id = none;
          reader_health = 1;
          is_buffered = false;
          backlog_drained = true;
          reader_coverage_ok = true;
          processing_status = EventStatus.pending;
          disposition = none;
          rejection_reason = none;
          processed_at = none;
        })
        ∷ [];
    links =
        (record {
          tenant_id = 5;
          batch_id = 1;
          event_id = 2;
          processing_status = EventStatus.pending;
          disposition = none;
          rejection_reason = none;
          finalized_at = none;
        })
        ∷ [];
    batches =
        (record {
          id = 1;
          tenant_id = 5;
          device_id = 3;
          store_id = 7;
          zone_id = 8;
          status = BatchStatus.accepted;
          accepted_count = 1;
          processed_count = 0;
          rejected_count = 0;
          received_at = 160;
          completed_at = none;
        })
        ∷ [];
  };
  quarantine = [];
  devices = (record { id = 3; tenant_id = 5; status = DeviceStatus.active }) ∷ [];
  assignments =
      (record {
        tenant_id = 5;
        device_id = 3;
        store_id = 7;
        zone_id = 8;
        effective_from = 0;
        effective_to = none;
      })
      ∷ [];
  bindings =
      (record { tenant_id = 5; sku_id = 11; epc = 1234; effective_from = 0; effective_to = none })
      ∷ [];
  zones =
      (record { id = 8; tenant_id = 5; store_id = 7; kind = sales_floor })
      ∷ (record { id = 20; tenant_id = 5; store_id = 7; kind = backroom })
      ∷ [];
  items = item ∷ [];
  connectivity = first_receipt 5 7 100 true true ∷ [];
  outbox = [];
  tasks = task ∷ [];
  evidence = [];
}

abbrev pub recent : RecentObservationState ℕ
recent = record { windows = []; event_ids = []; maximum_epcs = 10; maximum_event_ids = 10 }
