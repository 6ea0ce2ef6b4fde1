-- ===== src/Connectivity/Evidence.antt =====
-- The evidence for a freshness, and the writes to the stored freshness that have it
-- (`effective_freshness` and `_apply_connectivity_observation` of
-- `src/abacus/services/streaming_inventory.py`).
use rfid_inventory_replenish.Prelude.{
  ◌+◌, ◌≤◌, ◌≡◌, ◌≢◌, ◌⊎◌, inl, inr, Bool, true, false, none, some, arith, if◌then◌else◌,
  Option-cases,
}
use rfid_inventory_replenish.Domain.{Instant, seconds}
use rfid_inventory_replenish.Connectivity.{
  FreshnessStatus, live, stale, StoreConnectivity, Settings, RfidObservationEvent,
  freshness_of_ages, row_freshness, effective_freshness, apply_receipt, apply_buffered, apply_live,
  seen_live, apply_connectivity_observation,
}

-- The evidence that makes a store live: a heartbeat and a live event within the live window, a
-- drained backlog with nothing buffered, covered readers and no reconciliation to do.
pub record IsLive (settings : Settings) (now : Instant) (row : StoreConnectivity) : Type 0 where
  pub heartbeat : Instant
  pub live_event : Instant
  pub has_heartbeat : row.gateway_last_heartbeat ≡ some heartbeat
  pub has_live_event : row.last_live_event_at ≡ some live_event
  pub recent_heartbeat : now ≤ heartbeat + seconds settings.connectivity_live_window_seconds
  pub recent_event : now ≤ live_event + seconds settings.connectivity_live_window_seconds
  pub drained : row.backlog_drained ≡ true
  pub unbuffered : row.oldest_buffered_event_at ≡ none
  pub covered : row.reader_coverage_ok ≡ true
  pub reconciled : row.inventory_reconciliation_required_at ≡ none

pub live-IsLive :
    (settings : Settings) (now : Instant) (row : StoreConnectivity)
    → row_freshness settings now row ≡ live
    → IsLive settings now row
unfolding row_freshness freshness_of_ages
live-IsLive settings now row h = elim (Option-cases row.gateway_last_heartbeat) [
  | inl e ↦ absurd (ground arith)
  | inr (beat, e) ↦ elim (Option-cases row.last_live_event_at) [
    | inl f ↦ absurd (ground arith)
    | inr (event, f) ↦ record {
      heartbeat = beat;
      live_event = event;
      has_heartbeat = e;
      has_live_event = f;
      recent_heartbeat = ground arith;
      recent_event = ground arith;
      drained = ground arith;
      unbuffered = ground arith;
      covered = ground arith;
      reconciled = ground arith;
    }
  ]
]

pub IsLive-live :
    (settings : Settings) (now : Instant) (row : StoreConnectivity)
    → settings.connectivity_live_window_seconds ≤ settings.connectivity_stale_window_seconds
    → IsLive settings now row
    → row_freshness settings now row ≡ live
unfolding row_freshness freshness_of_ages
IsLive-live settings now row windows h =
    let beat = h.has_heartbeat in
    let event = h.has_live_event in
    let recent = h.recent_heartbeat in
    let recent_event = h.recent_event in
    let drained = h.drained in
    let unbuffered = h.unbuffered in
    let covered = h.covered in let reconciled = h.reconciled in ground arith

-- The evidence that a store is not stale: a heartbeat and a live event within the stale window, a
-- drained backlog and nothing buffered.
pub record IsHeard (settings : Settings) (now : Instant) (row : StoreConnectivity) : Type 0 where
  pub heartbeat : Instant
  pub live_event : Instant
  pub has_heartbeat : row.gateway_last_heartbeat ≡ some heartbeat
  pub has_live_event : row.last_live_event_at ≡ some live_event
  pub recent_heartbeat : now ≤ heartbeat + seconds settings.connectivity_stale_window_seconds
  pub recent_event : now ≤ live_event + seconds settings.connectivity_stale_window_seconds
  pub drained : row.backlog_drained ≡ true
  pub unbuffered : row.oldest_buffered_event_at ≡ none

fresh-IsHeard :
    (settings : Settings) (now : Instant) (row : StoreConnectivity)
    → row_freshness settings now row ≢ stale
    → IsHeard settings now row
unfolding row_freshness freshness_of_ages
fresh-IsHeard settings now row h = elim (Option-cases row.gateway_last_heartbeat) [
  | inl e ↦ absurd (h (ground arith))
  | inr (beat, e) ↦ elim (Option-cases row.last_live_event_at) [
    | inl f ↦ absurd (h (ground arith))
    | inr (event, f) ↦ record {
      heartbeat = beat;
      live_event = event;
      has_heartbeat = e;
      has_live_event = f;
      recent_heartbeat = ground arith;
      recent_event = ground arith;
      drained = ground arith;
      unbuffered = ground arith;
    }
  ]
]

-- A stored freshness that is better than the one before has its evidence.
pub record IsEarned (settings : Settings) (now : Instant) (before : FreshnessStatus)
    (row : StoreConnectivity) : Type 0 where
  pub became_live : row.freshness_status ≡ live → before ≢ live → IsLive settings now row
  pub left_stale : row.freshness_status ≢ stale → before ≡ stale → IsHeard settings now row

pub if_lem :
    (P : StoreConnectivity → Type 0) (b : Bool) (x y : StoreConnectivity)
    → P x
    → P y
    → P (if b then x else y)
if_lem P true x y h k = h
if_lem P false x y h k = k

-- The stored freshness is the one before, or stale.
abbrev pub IsNoBetter : FreshnessStatus → StoreConnectivity → Type 0
IsNoBetter before row = (row.freshness_status ≡ stale) ⊎ (row.freshness_status ≡ before)

no_better-IsEarned :
    (settings : Settings) (now : Instant) (before : FreshnessStatus) (row : StoreConnectivity)
    → IsNoBetter before row
    → IsEarned settings now before row
no_better-IsEarned settings now before row h = record {
  became_live = λ e f. absurd (ground arith);
  left_stale = λ e f. absurd (ground arith);
}

pub apply_receipt-IsNoBetter :
    (at : Instant) (drained coverage : Bool) (row : StoreConnectivity)
    → IsNoBetter row.freshness_status (apply_receipt at drained coverage row)
unfolding apply_receipt
apply_receipt-IsNoBetter at drained coverage row = ground arith

apply_buffered-IsNoBetter :
    {F : Type 0} (event : RfidObservationEvent F) (current : Bool) (before : FreshnessStatus)
    (row : StoreConnectivity)
    → IsNoBetter before row
    → IsNoBetter before (apply_buffered event current row)
unfolding apply_buffered
apply_buffered-IsNoBetter event current before row h = ground arith

row_freshness-IsEarned :
    (settings : Settings) (now : Instant) (before : FreshnessStatus) (row : StoreConnectivity)
    → IsEarned settings now before
        (record row { freshness_status = row_freshness settings now row })
unfolding row_freshness
row_freshness-IsEarned settings now before row =
    let written : StoreConnectivity = record row {
      freshness_status = row_freshness settings now row;
    } in
    record {
      became_live = λ e f. live-IsLive settings now written e;
      left_stale = λ e f. fresh-IsHeard settings now written e;
    }

apply_live-IsEarned :
    {F : Type 0} (event : RfidObservationEvent F) (settings : Settings) (current : Bool)
    (before : FreshnessStatus) (row : StoreConnectivity)
    → IsNoBetter before row
    → IsEarned settings event.received_at before (apply_live event settings current row)
unfolding apply_live seen_live effective_freshness
apply_live-IsEarned event settings true before row h = row_freshness-IsEarned settings _ before _
apply_live-IsEarned event settings false before row h = no_better-IsEarned settings _ before _ h

pub observation-IsEarned :
    {F : Type 0} (event : RfidObservationEvent F) (settings : Settings) (current : Bool)
    (before : FreshnessStatus) (row : StoreConnectivity)
    → IsNoBetter before row
    → IsEarned settings event.received_at before
        (apply_connectivity_observation event settings current row)
unfolding apply_connectivity_observation
observation-IsEarned event settings current before row h =
    if_lem (IsEarned settings event.received_at before) event.is_buffered _ _
      (no_better-IsEarned settings _ before _
        (apply_buffered-IsNoBetter event current before row h))
      (apply_live-IsEarned event settings current before row h)
