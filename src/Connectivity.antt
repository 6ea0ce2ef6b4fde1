-- ===== src/Connectivity.antt =====
-- Connectivity of a store and the freshness of what is known of it
-- (`src/abacus/services/connectivity.py`; `effective_freshness`, `effective_presence_status`,
-- `_apply_connectivity_observation` and `_update_connectivity` of
-- `src/abacus/services/streaming_inventory.py`; rows of `src/abacus/models/architecture.py`). An age
-- is a number of microseconds, 0 for an instant in the future. `F` is the type of floats.
pub mod Evidence
pub mod Consistency
pub mod Laws
pub mod Tests
use rfid_inventory_replenish.Prelude.{
  ℕ, ◌+◌, ◌-◌, ltb, leb, Bool, true, false, not, ◌&&◌, ◌||◌, Option, none, some, List, [], ◌∷◌,
  find, update_where, is_none, is_some, ◌==◌, if◌then◌else◌,
}
use rfid_inventory_replenish.Domain.{
  Uuid, Text, Instant, seconds, Result, ok, raise, ◌>>=◌, runtime_error,
}

pub data FreshnessStatus : Type 0 where
  live degraded stale : FreshnessStatus

pub data ItemPresenceStatus : Type 0 where
  observed unobserved location_unknown removed : ItemPresenceStatus

pub record StoreConnectivity : Type 0 where
  pub tenant_id : Uuid
  pub store_id : Uuid
  pub gateway_last_heartbeat : Option Instant
  pub status_received_at : Instant
  pub last_live_event_at : Option Instant
  pub last_live_received_at : Option Instant
  pub oldest_buffered_event_at : Option Instant
  pub backlog_drained : Bool
  pub reader_coverage_ok : Bool
  pub freshness_status : FreshnessStatus
  pub inventory_reconciliation_required_at : Option Instant

-- The settings of the streaming service, in seconds.
pub record Settings : Type 0 where
  pub rfid_move_confirmation_reads : ℕ
  pub rfid_move_confirmation_window_seconds : ℕ
  pub rfid_unobserved_after_seconds : ℕ
  pub rfid_last_seen_flush_seconds : ℕ
  pub rfid_confidence_half_life_seconds : ℕ
  pub connectivity_live_window_seconds : ℕ
  pub connectivity_stale_window_seconds : ℕ
  pub rfid_max_future_skew_seconds : ℕ

pub record CurrentItemState (F : Type 0) : Type 0 where
  pub tenant_id : Uuid
  pub epc : Text
  pub sku_id : Uuid
  pub store_id : Option Uuid
  pub zone_id : Option Uuid
  pub last_observed_at : Instant
  pub last_received_at : Instant
  pub confidence : F
  pub state_version : ℕ
  pub authoritative_removal_event_id : Option Uuid
  pub authoritative_removed_at : Option Instant

pub record RfidObservationEvent (F : Type 0) : Type 0 where
  pub schema_version : ℕ
  pub tenant_id : Uuid
  pub batch_id : Uuid
  pub event_id : Text
  pub device_id : Uuid
  pub store_id : Uuid
  pub zone_id : Uuid
  pub epc : Text
  pub observed_at : Instant
  pub received_at : Instant
  pub rssi : F
  pub antenna_id : Option Text
  pub reader_health : F
  pub is_buffered : Bool
  pub backlog_drained : Bool
  pub reader_coverage_ok : Bool
  pub replayed_from_quarantine_id : Option Uuid

-- `max(0.0, (now - since).total_seconds())`
abbrev pub age : Instant → Instant → ℕ
age now since = now - since

-- The tests of `effective_freshness` on a row with a heartbeat and a live event.
unfoldable pub freshness_of_ages :
    Settings → (heartbeat_age live_event_age : ℕ) → (reconcile coverage : Bool) → FreshnessStatus
freshness_of_ages settings heartbeat_age live_event_age reconcile coverage =
    let stale_window = seconds settings.connectivity_stale_window_seconds in
    let live_window = seconds settings.connectivity_live_window_seconds in
    if ltb stale_window heartbeat_age || ltb stale_window live_event_age
    then stale
    else (if reconcile
        then degraded
        else (if coverage && leb heartbeat_age live_window && leb live_event_age live_window
            then live
            else degraded))

unfoldable pub row_freshness : Settings → Instant → StoreConnectivity → FreshnessStatus
row_freshness settings now row = elim row.gateway_last_heartbeat [
  | none ↦ stale
  | some heartbeat ↦ elim row.last_live_event_at [
    | none ↦ stale
    | some live_event ↦
        if not row.backlog_drained || is_some row.oldest_buffered_event_at
        then stale
        else freshness_of_ages settings (age now heartbeat) (age now live_event)
            (is_some row.inventory_reconciliation_required_at) row.reader_coverage_ok
  ]
]

unfoldable pub effective_freshness : Settings → Instant → Option StoreConnectivity → FreshnessStatus
effective_freshness settings now none = stale
effective_freshness settings now (some row) = row_freshness settings now row

unfoldable pub effective_presence_status :
    {F : Type 0} → Settings → Instant → CurrentItemState F → ItemPresenceStatus
effective_presence_status settings now state =
    if is_some state.authoritative_removal_event_id
    then removed
    else (if is_none state.store_id || is_none state.zone_id
        then location_unknown
        else (if ltb (seconds settings.rfid_unobserved_after_seconds)
              (age now state.last_observed_at)
            then unobserved
            else observed))

-- `value is None or before(value)`
abbrev pub none_or : Option Instant → (Instant → Bool) → Bool
none_or none test = true
none_or (some value) test = test value

-- The row that `INSERT … ON CONFLICT DO NOTHING` adds.
abbrev pub first_receipt : Uuid → Uuid → Instant → Bool → Bool → StoreConnectivity
first_receipt tenant store at drained coverage = record {
  tenant_id = tenant;
  store_id = store;
  gateway_last_heartbeat = some at;
  status_received_at = at;
  last_live_event_at = none;
  last_live_received_at = none;
  oldest_buffered_event_at = none;
  backlog_drained = drained;
  reader_coverage_ok = coverage;
  freshness_status = stale;
  inventory_reconciliation_required_at = none;
}

-- The writes to the locked row.
unfoldable pub apply_receipt : Instant → Bool → Bool → StoreConnectivity → StoreConnectivity
apply_receipt at drained coverage row =
    let beat : StoreConnectivity =
      if none_or row.gateway_last_heartbeat (λ last. ltb last at)
      then (record row { gateway_last_heartbeat = some at })
      else row in
    if leb row.status_received_at at
    then (record beat {
      status_received_at = at;
      backlog_drained = drained;
      reader_coverage_ok = coverage;
      freshness_status = if not drained || not coverage then stale else beat.freshness_status;
    })
    else beat

abbrev pub is_connectivity : Uuid → Uuid → StoreConnectivity → Bool
is_connectivity tenant_id store_id row = row.tenant_id == tenant_id && row.store_id == store_id

-- INSERT … ON CONFLICT DO NOTHING
unfoldable pub ensure_connectivity :
    Uuid → Uuid → StoreConnectivity → List StoreConnectivity → List StoreConnectivity
ensure_connectivity tenant_id store_id fresh rows =
    elim (find (is_connectivity tenant_id store_id) rows) [ none ↦ fresh ∷ rows | some _ ↦ rows ]

-- The row as it is locked and whether the receipt is current, with the table that has the writes.
unfoldable pub lock_store_connectivity_for_receipt :
    Uuid
    → Uuid
    → Instant
    → Bool
    → Bool
    → List StoreConnectivity
    → Result ((StoreConnectivity × Bool) × List StoreConnectivity)
lock_store_connectivity_for_receipt tenant_id store_id at drained coverage rows =
    let key = is_connectivity tenant_id store_id in
    let present =
      ensure_connectivity tenant_id store_id (first_receipt tenant_id store_id at drained coverage)
        rows in
    elim (find key present) [
      | none ↦ raise 500 runtime_error
      | some row ↦ ok (
        (apply_receipt at drained coverage row, leb row.status_received_at at),
        update_where key (λ _. apply_receipt at drained coverage row) present,
      )
    ]

-- The evidence of a buffered event, then of a live one.
unfoldable pub apply_buffered :
    {F : Type 0} → RfidObservationEvent F → Bool → StoreConnectivity → StoreConnectivity
apply_buffered event is_current row =
    let resumed =
      event.backlog_drained
      && not (none_or row.last_live_received_at (λ last. ltb last event.received_at)) in
    if is_current && not resumed
    then (record row {
      oldest_buffered_event_at =
          if none_or row.oldest_buffered_event_at (λ oldest. ltb event.observed_at oldest)
          then some event.observed_at
          else row.oldest_buffered_event_at;
      backlog_drained = false;
      freshness_status = stale;
    })
    else row

unfoldable pub seen_live :
    {F : Type 0} → RfidObservationEvent F → Settings → StoreConnectivity → StoreConnectivity
seen_live event settings row = record row {
  last_live_received_at =
      if none_or row.last_live_received_at (λ last. ltb last event.received_at)
      then some event.received_at
      else row.last_live_received_at;
  last_live_event_at =
      if none_or row.last_live_event_at
        (λ last. leb (last + seconds settings.rfid_last_seen_flush_seconds) event.observed_at)
      then some event.observed_at
      else row.last_live_event_at;
}

unfoldable pub apply_live :
    {F : Type 0} → RfidObservationEvent F → Settings → Bool → StoreConnectivity → StoreConnectivity
apply_live event settings is_current row =
    let seen = seen_live event settings row in
    let drained : StoreConnectivity = record seen {
      oldest_buffered_event_at =
          if event.backlog_drained then none else seen.oldest_buffered_event_at;
    } in
    if is_current
    then (record drained {
      freshness_status = effective_freshness settings event.received_at (some drained);
    })
    else seen

unfoldable pub apply_connectivity_observation :
    {F : Type 0} → RfidObservationEvent F → Settings → Bool → StoreConnectivity → StoreConnectivity
apply_connectivity_observation event settings is_current row =
    if event.is_buffered
    then apply_buffered event is_current row
    else apply_live event settings is_current row

unfoldable pub update_connectivity :
    {F : Type 0}
    → RfidObservationEvent F
    → Settings
    → List StoreConnectivity
    → Result (StoreConnectivity × List StoreConnectivity)
update_connectivity event settings rows =
    lock_store_connectivity_for_receipt event.tenant_id event.store_id event.received_at
      event.backlog_drained event.reader_coverage_ok rows
    >>= λ locked.
        let row = apply_connectivity_observation event settings locked.0.1 locked.0.0 in
        ok (row, update_where (is_connectivity event.tenant_id event.store_id) (λ _. row) locked.1)
