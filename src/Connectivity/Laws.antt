-- ===== src/Connectivity/Laws.antt =====
-- What the connectivity of a store guarantees: `effective_freshness`, `_update_connectivity` and the
-- writes of `lock_store_connectivity_for_receipt`.
use rfid_inventory_replenish.Prelude.{ℕ, ◌≤◌, ◌≡◌, ◌≢◌, ◌↔◌, Bool, Option, none, some, arith}
use rfid_inventory_replenish.Domain.{Instant}
use rfid_inventory_replenish.Connectivity.{
  FreshnessStatus, live, degraded, stale, StoreConnectivity, Settings, freshness_of_ages,
  row_freshness, effective_freshness, apply_receipt,
}
use rfid_inventory_replenish.Connectivity.Evidence.{IsLive, live-IsLive, IsLive-live}

abbrev pub freshness_index : FreshnessStatus → ℕ
freshness_index live = 0
freshness_index degraded = 1
freshness_index stale = 2

-- As time passes with no new evidence, the freshness of a store never gets better.
pub effective_freshness_mono :
    (settings : Settings) (now later : Instant) (row : Option StoreConnectivity)
    → now ≤ later
    → freshness_index (effective_freshness settings now row)
      ≤ freshness_index (effective_freshness settings later row)
unfolding effective_freshness row_freshness freshness_of_ages
effective_freshness_mono settings now later none h = omega arith
effective_freshness_mono settings now later (some row) h = ground arith

-- If the live window is no longer than the stale window, a store is live exactly on the evidence of
-- `IsLive`.
pub effective_freshness-live :
    (settings : Settings) (now : Instant) (row : StoreConnectivity)
    → settings.connectivity_live_window_seconds ≤ settings.connectivity_stale_window_seconds
    → (effective_freshness settings now (some row) ≡ live) ↔ IsLive settings now row
unfolding effective_freshness
effective_freshness-live settings now row windows =
    (live-IsLive settings now row, IsLive-live settings now row windows)

-- What the gateway last reported.
abbrev pub reported : StoreConnectivity → Option Instant × Instant × Bool × Bool
reported row = (
  row.gateway_last_heartbeat, row.status_received_at, row.backlog_drained, row.reader_coverage_ok,
)

-- Two receipts at distinct instants leave the same report on a row in whichever order they come.
pub apply_receipt_comm :
    (row : StoreConnectivity) (a b : Instant) (drained_a drained_b coverage_a coverage_b : Bool)
    → a ≢ b
    → reported (apply_receipt b drained_b coverage_b (apply_receipt a drained_a coverage_a row))
      ≡ reported (apply_receipt a drained_a coverage_a (apply_receipt b drained_b coverage_b row))
unfolding apply_receipt
apply_receipt_comm row a b drained_a drained_b coverage_a coverage_b distinct = ground arith
