-- ===== src/Connectivity/Consistency.antt =====
-- The stored freshness of a store beside the other columns of its row, kept by every write of
-- `lock_store_connectivity_for_receipt` and `_apply_connectivity_observation`.
use rfid_inventory_replenish.Prelude.{
  ◌≡◌, refl, ◌≢◌, inl, inr, Bool, true, false, Option, none, some, List, arith, All, find, is_some,
  ==_refl, Option-cases,
}
use rfid_inventory_replenish.Domain.{Uuid, Instant}
use rfid_inventory_replenish.Connectivity.{
  FreshnessStatus, live, stale, StoreConnectivity, Settings, RfidObservationEvent,
  freshness_of_ages, row_freshness, effective_freshness, first_receipt, apply_receipt,
  is_connectivity, ensure_connectivity, apply_buffered, apply_live, seen_live,
  apply_connectivity_observation,
}
use rfid_inventory_replenish.Connectivity.Evidence.{if_lem}

-- The stored freshness of a store, stale where it has no row.
abbrev pub freshness_before : Option StoreConnectivity → FreshnessStatus
freshness_before none = stale
freshness_before (some row) = row.freshness_status

-- The stored freshness agrees with the other columns of its row: it is stale where something is
-- buffered, the backlog is not drained or no live event was ever seen, and it is not live where the
-- readers are not covered or a reconciliation is to be done.
pub record IsConsistent (row : StoreConnectivity) : Type 0 where
  pub buffered : is_some row.oldest_buffered_event_at ≡ true → row.freshness_status ≡ stale
  pub undrained : row.backlog_drained ≡ false → row.freshness_status ≡ stale
  pub unheard : row.last_live_event_at ≡ none → row.freshness_status ≡ stale
  pub uncovered : row.reader_coverage_ok ≡ false → row.freshness_status ≢ live
  pub unreconciled :
      is_some row.inventory_reconciliation_required_at ≡ true → row.freshness_status ≢ live

pub apply_receipt-IsConsistent :
    (at : Instant) (drained coverage : Bool) (row : StoreConnectivity)
    → IsConsistent row
    → IsConsistent (apply_receipt at drained coverage row)
unfolding apply_receipt
apply_receipt-IsConsistent at drained coverage row h =
    let b = h.buffered in
    let u = h.undrained in
    let w = h.unheard in
    let v = h.uncovered in
    let r = h.unreconciled in
    record {
      buffered = ground arith;
      undrained = ground arith;
      unheard = ground arith;
      uncovered = ground arith;
      unreconciled = ground arith;
    }

row_freshness-IsConsistent :
    (settings : Settings) (now : Instant) (row : StoreConnectivity)
    → IsConsistent (record row { freshness_status = row_freshness settings now row })
unfolding row_freshness freshness_of_ages
row_freshness-IsConsistent settings now row = record {
  buffered = ground arith;
  undrained = ground arith;
  unheard = ground arith;
  uncovered = ground arith;
  unreconciled = ground arith;
}

apply_live-IsConsistent :
    {F : Type 0} (event : RfidObservationEvent F) (settings : Settings) (current : Bool)
    (row : StoreConnectivity)
    → IsConsistent row
    → IsConsistent (apply_live event settings current row)
unfolding apply_live seen_live effective_freshness
apply_live-IsConsistent event settings true row h = row_freshness-IsConsistent settings _ _
apply_live-IsConsistent event settings false row h = record {
  buffered = h.buffered;
  undrained = h.undrained;
  unheard = ground arith;
  uncovered = h.uncovered;
  unreconciled = h.unreconciled;
}

apply_buffered-IsConsistent :
    {F : Type 0} (event : RfidObservationEvent F) (current : Bool) (row : StoreConnectivity)
    → IsConsistent row
    → IsConsistent (apply_buffered event current row)
unfolding apply_buffered
apply_buffered-IsConsistent event current row h =
    let b = h.buffered in
    let u = h.undrained in
    let w = h.unheard in
    let v = h.uncovered in
    let r = h.unreconciled in
    record {
      buffered = ground arith;
      undrained = ground arith;
      unheard = ground arith;
      uncovered = ground arith;
      unreconciled = ground arith;
    }

pub observation-IsConsistent :
    {F : Type 0} (event : RfidObservationEvent F) (settings : Settings) (current : Bool)
    (row : StoreConnectivity)
    → IsConsistent row
    → IsConsistent (apply_connectivity_observation event settings current row)
unfolding apply_connectivity_observation
observation-IsConsistent event settings current row h =
    if_lem IsConsistent event.is_buffered _ _ (apply_buffered-IsConsistent event current row h)
      (apply_live-IsConsistent event settings current row h)

-- The table after the insert holds a row of the store, and stays consistent.
pub ensure_connectivity_lem :
    (tenant_id store_id : Uuid) (at : Instant) (drained coverage : Bool)
    (rows : List StoreConnectivity)
    → All IsConsistent rows
    → let present =
        ensure_connectivity tenant_id store_id
          (first_receipt tenant_id store_id at drained coverage)
          rows in
      (row : StoreConnectivity) × (find (is_connectivity tenant_id store_id) present ≡ some row)
      × (row.freshness_status ≡ freshness_before (find (is_connectivity tenant_id store_id) rows))
      × All IsConsistent present
unfolding ensure_connectivity find
ensure_connectivity_lem tenant_id store_id at drained coverage rows h =
    elim (Option-cases (find (is_connectivity tenant_id store_id) rows)) [
      | inl e ↦
          let fresh = first_receipt tenant_id store_id at drained coverage in
          rw (e, ensure_connectivity)
            (
              fresh,
              rw (==_refl tenant_id, ==_refl store_id) refl,
              refl,
              (
                record {
                  buffered = ground arith;
                  undrained = ground arith;
                  unheard = ground arith;
                  uncovered = ground arith;
                  unreconciled = ground arith;
                },
                h,
              ),
            )
      | inr (row, e) ↦ rw (e, ensure_connectivity) (row, e, refl, h)
    ]
